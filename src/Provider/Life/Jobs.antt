-- ===== src/Provider/Life/Jobs.antt =====
-- The calls of services/resource-server/src/outbox.ts on payments that leave the callback jobs.
use koven.Prelude.{ℕ, ◌≡◌, refl, String, Bool, ◌∷◌, ◌==◌, arith, Bool-cases, Option-cases, inl, inr}
use koven.Domain.Scan.{ScanReport}
use koven.Exec.{pure, transaction}
use koven.Exec.Laws.{transaction-ends, >>=-keeps}
use koven.Sql.{exists, has_key}
use koven.Provider.Types.{ProviderDb, StoredPayment, Attempt, SettleResponse}
use koven.Provider.Payments.{
  Texts, PaymentClaim, payment_key, payment_in, claim_of, claim_payment, claim_body, claim_existing,
  insert_payment, take_over, fresh_payment, save_report,
}
use koven.Provider.Settlements.{
  save_settlement, record_body, record_on, record_unconfirmed_settlement, complete_settled,
}

take_over-jobs :
    (id token : String) (now : ℕ) (r : StoredPayment) (s : ProviderDb)
    → (take_over id token now r s).1.jobs ≡ s.jobs
unfolding take_over
take_over-jobs id token now r s = ground arith

claim_existing-jobs :
    (a : Attempt) (token : String) (now : ℕ) (s : ProviderDb)
    → (claim_existing a token now s).1.jobs ≡ s.jobs
unfolding claim_existing
claim_existing-jobs a token now s = elim (Option-cases (payment_in k s)) [
  | inl e ↦ rw e refl
  | inr (r, e) ↦ elim (Bool-cases (r.fingerprint == a.fingerprint)) [
    | inr n ↦ rw (e, n) refl
    | inl y ↦
        rw (e, y)
          (>>=-keeps {B = PaymentClaim} (λ u. u.jobs ≡ s.jobs) (take_over k token now r)
            (λ current. pure (claim_of token current)) s (take_over-jobs k token now r s)
            (λ c u h p. p))
  ]
]
  where
    k : String
    k = a.authorization.transaction_id

pub claim-jobs :
    (a : Attempt) (token : String) (now : ℕ) (s : ProviderDb)
    → (claim_payment a token now s).1.jobs ≡ s.jobs
unfolding claim_payment claim_body insert_payment
claim-jobs a token now s =
    transaction-ends (λ u. u.jobs ≡ s.jobs) (claim_body a token now) s refl
      (elim (Bool-cases (exists (has_key payment_key a.authorization.transaction_id) s.payments)) [
        | inl y ↦ rw y (claim_existing-jobs a token now s)
        | inr n ↦ rw n (
            claim_existing-jobs a token now
              (record s { payments = fresh_payment a token now ∷ s.payments }))
      ])

pub report-jobs :
    (t : Texts) (id token : String) (doc : ScanReport) (now : ℕ) (s : ProviderDb)
    → (save_report t id token doc now s).1.jobs ≡ s.jobs
unfolding save_report
report-jobs t id token doc now s = ground arith

pub settle-jobs :
    (t : Texts) (id header : String) (x : SettleResponse) (now : ℕ) (s : ProviderDb)
    → (save_settlement t id x header now s).1.jobs ≡ s.jobs
unfolding save_settlement
settle-jobs t id header x now s = ground arith

pub record-jobs :
    (id : String) (now : ℕ) (u : Bool) (s : ProviderDb)
    → (record_unconfirmed_settlement id now u s).1.jobs ≡ s.jobs
unfolding record_unconfirmed_settlement record_body record_on transaction
record-jobs id now u s = ground arith

pub complete_settled-jobs :
    (id : String) (now : ℕ) (r : StoredPayment) (s : ProviderDb)
    → (complete_settled id now r s).1.jobs ≡ s.jobs
unfolding complete_settled
complete_settled-jobs id now r s = ground arith
