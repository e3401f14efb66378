-- ===== src/Provider/Life/Payments.antt =====
-- What the claims, the reports and the attempts of services/resource-server/src/outbox.ts do to a payment.
use koven.Prelude.{
  ℕ, ◌+◌, ◌≡◌, refl, sym, subst, String, Option, none, some, Bool, false, not, ◌&&◌, ◌==◌, eq_iff,
  same_text, arith, Bool-cases, Option-cases, inl, inr, some_inj, ◌∙◌, if◌then◌else◌,
}
use koven.Domain.Scan.{ScanReport}
use koven.Exec.{pure}
use koven.Exec.Laws.{transaction-ends, >>=-keeps}
use koven.Provider.Types.{ProviderDb, StoredPayment, Attempt}
use koven.Provider.Payments.{
  Texts, payment_in, update_payment, verified_payment_lease_ms, reclaimable, lease_payment, holds,
  differs, with_report, renewable, attemptable, attempted, fresh_payment, insert_payment, take_over,
  claim_existing, claim_body, claim_of, PaymentClaim, claim_payment, save_report,
  renew_verified_payment_lease, mark_settlement_attempted,
}
use koven.Provider.Life.{
  still, leased, reported, renewed, tried, Lived, Lived-refl, Lived-trans, update_payment-Lived,
}

-- A payment is born by its first claim.
insert_payment-Lived :
    (t : Texts) (attempt : Attempt) (token : String) (now : ℕ) (s : ProviderDb)
    → Lived t s (insert_payment (fresh_payment attempt token now) s).1
unfolding insert_payment
insert_payment-Lived t attempt token now s = elim (Option-cases (payment_in k s)) [
  | inr (r, e) ↦ rw e (Lived-refl t s)
  | inl e ↦ rw e (
    λ keyed. (e, keyed),
    λ id. elim (Bool-cases (k == id)) [
      | inl y ↦
          let absent : payment_in id s ≡ none = rw (← (eq_iff k id).0 y) e in
          rw (y, absent) (attempt, token, now, (eq_iff k id).0 y, still)
      | inr n ↦ rw n ((Lived-refl t s).1 id)
    ],
  )
]
  where
    k : String
    k = attempt.authorization.transaction_id

module _ (t : Texts) (id token : String) (now : ℕ) where
  abbrev take : ProviderDb → ProviderDb
  take s = (update_payment id (reclaimable now) (lease_payment token now) s).1

  take-Lived : (s : ProviderDb) → Lived t s (take s)
  take-Lived s =
      update_payment-Lived t id (reclaimable now) (lease_payment token now) s (λ r. refl)
        (λ r e k h. leased token now h refl)

  take_over-Lived : (r : StoredPayment) (s : ProviderDb) → Lived t s (take_over id token now r s).1
  unfolding take_over
  take_over-Lived r s =
      elim (Bool-cases (not (same_text r.lease_token (some token)) && reclaimable now r)) [
        | inr n ↦ rw n (Lived-refl t s)
        | inl y ↦ rw y (elim (Option-cases (payment_in id (take s))) [
          | inl e ↦ rw e (take-Lived s)
          | inr (r', e) ↦ rw e (take-Lived s)
        ])
      ]

module _ (t : Texts) (token : String) (now : ℕ) (attempt : Attempt) where
  abbrev k : String
  k = attempt.authorization.transaction_id

  claim_existing-Lived : (s : ProviderDb) → Lived t s (claim_existing attempt token now s).1
  unfolding claim_existing
  claim_existing-Lived s = elim (Option-cases (payment_in k s)) [
    | inl e ↦ rw e (Lived-refl t s)
    | inr (r, e) ↦ elim (Bool-cases (r.fingerprint == attempt.fingerprint)) [
      | inr n ↦ rw (e, n) (Lived-refl t s)
      | inl y ↦
          rw (e, y)
            (>>=-keeps {B = PaymentClaim} (Lived t s) (take_over k token now r)
              (λ current. pure (claim_of token current)) s (take_over-Lived t k token now r s)
              (λ a u h p. p))
    ]
  ]

  claim_body-Lived : (s : ProviderDb) → Lived t s (claim_body attempt token now s).1
  unfolding claim_body
  claim_body-Lived s =
      >>=-keeps {B = PaymentClaim} (Lived t s) (insert_payment (fresh_payment attempt token now))
        (λ u. claim_existing attempt token now) s (insert_payment-Lived t attempt token now s)
        (λ a u h p.
          Lived-trans t s u (claim_existing attempt token now u).1 p (claim_existing-Lived u))

  pub claim_payment-Lived : (s : ProviderDb) → Lived t s (claim_payment attempt token now s).1
  unfolding claim_payment
  claim_payment-Lived s =
      transaction-ends (Lived t s) (claim_body attempt token now) s (Lived-refl t s)
        (claim_body-Lived s)

-- The guards of `saveReport`.
abbrev is_reportable : Texts → String → ScanReport → StoredPayment → Bool
is_reportable t token report r =
    t.is_report report
    && (holds token r
        && (not r.settlement_attempted && not (differs t.report_json r.report report)))

module _ (t : Texts) (id token : String) (now : ℕ) (s : ProviderDb) where
  abbrev saved : ScanReport → Option StoredPayment → ProviderDb
  saved report none = s
  saved report (some r) =
      if is_reportable t token report r
      then (update_payment id (holds token) (with_report report now) s).1
      else s

  save_report-saved :
      (report : ScanReport) (o : Option StoredPayment)
      → payment_in id s ≡ o
      → saved report o ≡ (save_report t id token report now s).1
  unfolding save_report
  save_report-saved report none e = ground arith
  save_report-saved report (some r) e = ground arith

  saved-Lived :
      (report : ScanReport) (o : Option StoredPayment)
      → payment_in id s ≡ o
      → Lived t s (saved report o)
  saved-Lived report none e = Lived-refl t s
  saved-Lived report (some r) e = elim (Bool-cases (is_reportable t token report r)) [
    | inr n ↦ rw n (Lived-refl t s)
    | inl y ↦ rw y (
        update_payment-Lived t id (holds token) (with_report report now) s (λ r'. refl)
          (λ r' e' k h.
            let same : r' ≡ r = some_inj (sym e' ∙ e) in
            let free : r.settlement_attempted ≡ false = ground arith in
            let agrees : differs t.report_json r.report report ≡ false = ground arith in
            reported token report now h (rw same free) (rw same agrees) refl))
  ]

  pub save_report-Lived : (report : ScanReport) → Lived t s (save_report t id token report now s).1
  save_report-Lived report =
      subst (Lived t s) (save_report-saved report (payment_in id s) refl)
        (saved-Lived report (payment_in id s) refl)

  pub renew-Lived : Lived t s (renew_verified_payment_lease id token now s).1
  unfolding renew_verified_payment_lease
  renew-Lived =
      update_payment-Lived t id (renewable token) _ s (λ r. refl)
        (λ r e k h. renewed token (now + verified_payment_lease_ms) now h refl)

  pub attempt-Lived : Lived t s (mark_settlement_attempted id token now s).1
  unfolding mark_settlement_attempted
  attempt-Lived =
      update_payment-Lived t id (attemptable token) (attempted now) s (λ r. refl)
        (λ r e k h. tried token now h refl)
