-- ===== src/Provider/Life/History.antt =====
-- Histories of the store of services/resource-server/src/outbox.ts, by any number of concurrent callers,
-- and the lives of its payments in them.
use koven.Prelude.{ℕ, ◌≡◌, refl, String, Option, none, some, Bool, List, [], ◌∷◌}
use koven.Domain.Scan.{ScanReport}
use koven.Exec.Laws.{transaction-ends}
use koven.Provider.Types.{ProviderDb, Attempt, SettleResponse, JobRow}
use koven.Provider.Payments.{
  Texts, claim_payment, save_report, renew_verified_payment_lease, mark_settlement_attempted,
}
use koven.Provider.Settlements.{
  save_settlement, record_unconfirmed_settlement, complete_and_enqueue,
}
use koven.Provider.Callbacks.{
  CallbackJob, first_due, claim_row, claim_first_due, claim_due_callback, mark_callback_delivered,
  mark_callback_for_repair, retry_callback, replay_callback, finish_callback,
}
use koven.Provider.Life.{Lived, Lived-refl, Lived-trans, Lived-eq}
use koven.Provider.Life.Payments.{
  claim_payment-Lived, save_report-Lived, renew-Lived, attempt-Lived,
}
use koven.Provider.Life.Settlements.{save_settlement-Lived, record-Lived, complete-Lived}

-- A call of a method that writes. `t` and `sha256` are fixed.
pub data Call : Type 0 where
  claim : Attempt → String → ℕ → Call
  report : String → String → ScanReport → ℕ → Call
  renew : String → String → ℕ → Call
  attempt : String → String → ℕ → Call
  settle : String → SettleResponse → String → ℕ → Call
  unconfirmed : String → ℕ → Bool → Call
  complete : String → String → String → ℕ → Call
  claim_callback : String → ℕ → Call
  deliver : CallbackJob → Call
  repair : CallbackJob → Call
  retry : CallbackJob → ℕ → Call
  replay : String → ℕ → Call

module _ (t : Texts) (sha256 : String → String) where
  unfoldable pub step : Call → ProviderDb → ProviderDb
  step (claim a token now) s = (claim_payment a token now s).1
  step (report id token r now) s = (save_report t id token r now s).1
  step (renew id token now) s = (renew_verified_payment_lease id token now s).1
  step (attempt id token now) s = (mark_settlement_attempted id token now s).1
  step (settle id x header now) s = (save_settlement t id x header now s).1
  step (unconfirmed id now u) s = (record_unconfirmed_settlement id now u s).1
  step (complete id key body now) s = (complete_and_enqueue sha256 id key body now s).1
  step (claim_callback token now) s = (claim_due_callback token now s).1
  step (deliver job) s = (mark_callback_delivered job s).1
  step (repair job) s = (mark_callback_for_repair job s).1
  step (retry job at) s = (retry_callback job at s).1
  step (replay key now) s = (replay_callback key now s).1

  unfoldable pub run : List Call → ProviderDb → ProviderDb
  run [] s = s
  run (c ∷ cs) s = run cs (step c s)

  claim_row-payments :
      (token : String) (now : ℕ) (o : Option JobRow) (s : ProviderDb)
      → (claim_row token now o s).1.payments ≡ s.payments
  unfolding claim_row
  claim_row-payments token now none s = refl
  claim_row-payments token now (some r) s = refl

  claim_callback-payments :
      (token : String) (now : ℕ) (s : ProviderDb)
      → (claim_due_callback token now s).1.payments ≡ s.payments
  unfolding claim_due_callback claim_first_due
  claim_callback-payments token now s =
      transaction-ends (λ u. u.payments ≡ s.payments) (claim_first_due token now) s refl
        (claim_row-payments token now (first_due now s.jobs) s)

  pub step-Lived : (c : Call) (s : ProviderDb) → Lived t s (step c s)
  unfolding step mark_callback_delivered mark_callback_for_repair retry_callback replay_callback
      finish_callback
  step-Lived (claim a token now) s = claim_payment-Lived t token now a s
  step-Lived (report id token r now) s = save_report-Lived t id token now s r
  step-Lived (renew id token now) s = renew-Lived t id token now s
  step-Lived (attempt id token now) s = attempt-Lived t id token now s
  step-Lived (settle id x header now) s = save_settlement-Lived t id now s x header
  step-Lived (unconfirmed id now u) s = record-Lived t id now s u
  step-Lived (complete id key body now) s = complete-Lived t sha256 id key body now s
  step-Lived (claim_callback token now) s =
      Lived-eq t s (claim_due_callback token now s).1 (claim_callback-payments token now s)
  step-Lived (deliver job) s = Lived-eq t s (mark_callback_delivered job s).1 refl
  step-Lived (repair job) s = Lived-eq t s (mark_callback_for_repair job s).1 refl
  step-Lived (retry job at) s = Lived-eq t s (retry_callback job at s).1 refl
  step-Lived (replay key now) s = Lived-eq t s (replay_callback key now s).1 refl

  pub run-Lived : (cs : List Call) (s : ProviderDb) → Lived t s (run cs s)
  unfolding run
  run-Lived [] s = Lived-refl t s
  run-Lived (c ∷ cs) s =
      Lived-trans t s (step c s) (run cs (step c s)) (step-Lived c s) (run-Lived cs (step c s))
