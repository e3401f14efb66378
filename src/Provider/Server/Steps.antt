-- ===== src/Provider/Server/Steps.antt =====
-- Every part of a paid scan of services/resource-server/src/server.ts moves the payments of the store by
-- the moves of their lives only.
use koven.Prelude.{ℕ, String, Option, List, is_none, Bool-cases, Option-cases, inl, inr}
use koven.Domain.Errors.{settlement_confirmation_error}
use koven.Exec.{Exec, throw, ◌>>=◌}
use koven.Exec.Laws.{>>=-keeps}
use koven.Provider.Types.{ProviderDb, StoredPayment}
use koven.Provider.Payments.{payment_in, get_payment}
use koven.Provider.Settlements.{is_over, is_prepared, record_unconfirmed_settlement}
use koven.Provider.Life.{Lived, Lived-refl, Lived-trans}
use koven.Provider.Life.Settlements.{save_settlement-Lived, record-Lived, complete-Lived}
use koven.Provider.Life.History.{Call, run-Lived}
use koven.Provider.Server.{
  PaidScanServer, Confirmation, confirmed, refused, broken, is_unconfirmed_code, wait,
  complete_with, complete_and_read, keep_settlement, finish_confirmed, on_confirmation, reconcile,
}

module _ {Body : Type 0} (v : PaidScanServer Body) where
  -- From a state to another by the moves of the payments' lives.
  abbrev pub To : ProviderDb → ProviderDb → Type 0
  To s s' = Lived v.texts s s'

  -- Two parts in sequence.
  pub then_To :
      {A B : Type 0} (m : Exec ProviderDb A) (f : A → Exec ProviderDb B) (s : ProviderDb)
      → To s (m s).1
      → ((a : A) (u : ProviderDb) → To u (f a u).1)
      → To s ((m >>= f) s).1
  then_To m f s l k =
      >>=-keeps (To s) m f s l (λ a u e p. Lived-trans v.texts s u (f a u).1 p (k a u))

  pub stays : (s : ProviderDb) → To s s
  stays s = Lived-refl v.texts s

  pub wait-To : (others : List Call) (s : ProviderDb) → To s (wait v others s).1
  unfolding wait
  wait-To others s = run-Lived v.texts v.reports.sha256 others s

  complete_with-To :
      (id at : String) (now : ℕ) (r : StoredPayment) (s : ProviderDb)
      → To s (complete_with v id at now r s).1
  unfolding complete_with
  complete_with-To id at now r s = elim (Option-cases r.report) [
    | inl e ↦ rw e (stays s)
    | inr (x, e) ↦ elim (Option-cases (v.callback_body x r.transaction_id at)) [
      | inl n ↦ rw (e, n) (stays s)
      | inr (body, n) ↦ rw (e, n) (complete-Lived v.texts v.reports.sha256 id _ body now s)
    ]
  ]

  keep_settlement-To :
      (r : StoredPayment) (now : ℕ) (s : ProviderDb) → To s (keep_settlement v r now s).1
  unfolding keep_settlement
  keep_settlement-To r now s = elim (Bool-cases (is_none r.settlement)) [
    | inl y ↦ rw y (save_settlement-Lived v.texts r.transaction_id now s _ _)
    | inr n ↦ rw n (stays s)
  ]

  complete_and_read-To :
      (id at : String) (now : ℕ) (r : StoredPayment) (s : ProviderDb)
      → To s (complete_and_read v id at now r s).1
  unfolding complete_and_read
  complete_and_read-To id at now r s =
      then_To {B = Option StoredPayment} (complete_with v id at now r) (λ a. get_payment id) s
        (complete_with-To id at now r s) (λ a u. stays u)

  finish_confirmed-To :
      (at : String) (now : ℕ) (r : StoredPayment) (s : ProviderDb)
      → To s (finish_confirmed v at now r s).1
  unfolding finish_confirmed
  finish_confirmed-To at now r s =
      then_To (keep_settlement v r now) _ s (keep_settlement-To r now s) (λ a u.
        elim (Option-cases (payment_in r.transaction_id u)) [
          | inl e ↦ rw e (stays u)
          | inr (p, e) ↦ rw e (complete_and_read-To r.transaction_id at now p u)
        ])

  on_confirmation-To :
      (c : Confirmation) (now : ℕ) (r : StoredPayment) (s : ProviderDb)
      → To s (on_confirmation v c now r s).1
  unfolding on_confirmation
  on_confirmation-To (confirmed at) now r s = finish_confirmed-To at now r s
  on_confirmation-To (refused code) now r s =
      then_To {A = StoredPayment} {B = Option StoredPayment}
        (record_unconfirmed_settlement r.transaction_id now (is_unconfirmed_code code))
        (λ a. throw (settlement_confirmation_error code)) s
        (record-Lived v.texts r.transaction_id now s (is_unconfirmed_code code)) (λ a u. stays u)
  on_confirmation-To broken now r s = stays s

  pub reconcile-To :
      (others : List Call) (c : Confirmation) (now : ℕ) (r : StoredPayment) (s : ProviderDb)
      → To s (reconcile v others c now r s).1
  unfolding reconcile
  reconcile-To others c now r s = elim (Bool-cases (is_over r)) [
    | inl y ↦ rw y (stays s)
    | inr n ↦ elim (Bool-cases (is_prepared r)) [
      | inr m ↦ rw (n, m) (stays s)
      | inl y ↦
          rw (n, y)
            (then_To (wait v others) (λ a. on_confirmation v c now r) s (wait-To others s)
              (λ a u. on_confirmation-To c now r u))
    ]
  ]
