-- ===== src/Provider/Life/Settlements.antt =====
-- What the settlement and the completion of services/resource-server/src/outbox.ts do to a payment.
use koven.Prelude.{
  ℕ, ◌≡◌, refl, sym, subst, ◌∙◌, String, Option, none, some, Bool, true, false, not, ◌&&◌, arith,
  Bool-cases, Option-cases, inl, inr, some_inj, if◌then◌else◌,
}
use koven.Exec.Laws.{transaction-ends, >>=-keeps, or_throw-state}
use koven.Provider.Types.{ProviderDb, StoredPayment, SettleResponse, is_settled, store_error}
use koven.Provider.Payments.{Texts, payment_in, update_payment}
use koven.Provider.Settlements.{
  is_prepared, is_evidence, conflicts, any, with_settlement, save_settlement, is_over, is_lost,
  not_over, rotate, record_on, record_body, record_unconfirmed_settlement, is_completable,
  settled_row, complete_row, complete_settled, enqueue, complete_body, complete_and_enqueue,
}
use koven.Provider.Life.{
  paid, rotated, finished, Lived, Lived-refl, Lived-trans, Lived-eq, update_payment-Lived,
}

module _ (t : Texts) (id : String) (now : ℕ) (s : ProviderDb) where
  -- The guards of `saveSettlement`.
  abbrev is_payable : SettleResponse → StoredPayment → Bool
  is_payable x r =
      is_prepared r
      && (is_evidence t.to_decimal id r x && not (conflicts t.settlement_json r.settlement x))

  abbrev saved : SettleResponse → String → Option StoredPayment → ProviderDb
  saved x header none = s
  saved x header (some r) =
      if is_payable x r then (update_payment id any (with_settlement x header now) s).1 else s

  save_settlement-saved :
      (x : SettleResponse) (header : String) (o : Option StoredPayment)
      → payment_in id s ≡ o
      → saved x header o ≡ (save_settlement t id x header now s).1
  unfolding save_settlement
  save_settlement-saved x header none e = ground arith
  save_settlement-saved x header (some r) e = ground arith

  saved-Lived :
      (x : SettleResponse) (header : String) (o : Option StoredPayment)
      → payment_in id s ≡ o
      → Lived t s (saved x header o)
  saved-Lived x header none e = Lived-refl t s
  saved-Lived x header (some r) e = elim (Bool-cases (is_payable x r)) [
    | inr n ↦ rw n (Lived-refl t s)
    | inl y ↦ rw y (
        update_payment-Lived t id any (with_settlement x header now) s (λ r'. refl)
          (λ r' e' k h.
            let same : r' ≡ r = some_inj (sym e' ∙ e) in
            let prepared : is_prepared r ≡ true = ground arith in
            let shown : is_evidence t.to_decimal id r x ≡ true = ground arith in
            let agrees : conflicts t.settlement_json r.settlement x ≡ false = ground arith in
            paid x header now (rw same prepared) (rw (k, same) shown) (rw same agrees) refl))
  ]

  pub save_settlement-Lived :
      (x : SettleResponse) (header : String) → Lived t s (save_settlement t id x header now s).1
  save_settlement-Lived x header =
      subst (Lived t s) (save_settlement-saved x header (payment_in id s) refl)
        (saved-Lived x header (payment_in id s) refl)

  abbrev recorded : Bool → Option StoredPayment → ProviderDb
  recorded u none = s
  recorded u (some r) =
      if is_prepared r && not (is_over r)
      then (update_payment id not_over (rotate (is_lost u now r) now) s).1
      else s

  record_on-recorded :
      (u : Bool) (r : StoredPayment)
      → (record_on id u now r s).1
        ≡ (if is_over r then s else (update_payment id not_over (rotate (is_lost u now r) now) s).1)
  unfolding record_on
  record_on-recorded u r = elim (Bool-cases (is_over r)) [
    | inl y ↦ rw y refl
    | inr n ↦ rw n (
        or_throw-state
          (payment_in id (update_payment id not_over (rotate (is_lost u now r) now) s).1)
          store_error _)
  ]

  record_body-recorded :
      (u : Bool) (o : Option StoredPayment)
      → payment_in id s ≡ o
      → recorded u o ≡ (record_body id now u s).1
  unfolding record_body
  record_body-recorded u none e = ground arith
  record_body-recorded u (some r) e = ground (arith, record_on-recorded u r)

  recorded-Lived :
      (u : Bool) (o : Option StoredPayment) → payment_in id s ≡ o → Lived t s (recorded u o)
  recorded-Lived u none e = Lived-refl t s
  recorded-Lived u (some r) e = elim (Bool-cases (is_prepared r && not (is_over r))) [
    | inr n ↦ rw n (Lived-refl t s)
    | inl y ↦ rw y (
        update_payment-Lived t id not_over (rotate (is_lost u now r) now) s (λ r'. refl)
          (λ r' e' k h.
            let same : r' ≡ r = some_inj (sym e' ∙ e) in
            let prepared : is_prepared r ≡ true = ground arith in
            let open_yet : is_over r ≡ false = ground arith in
            rotated u now (rw same prepared) (rw same open_yet) (rw same refl)))
  ]

  pub record-Lived : (u : Bool) → Lived t s (record_unconfirmed_settlement id now u s).1
  unfolding record_unconfirmed_settlement
  record-Lived u = transaction-ends (Lived t s) (record_body id now u) s (Lived-refl t s) (
      subst (Lived t s) (record_body-recorded u (payment_in id s) refl)
        (recorded-Lived u (payment_in id s) refl))

module _ (t : Texts) (sha256 : String → String) (id key body : String) (now : ℕ) where
  enqueue-Lived : (s : ProviderDb) → Lived t s (enqueue sha256 id key body now s).1
  unfolding enqueue
  enqueue-Lived s = Lived-eq t s (enqueue sha256 id key body now s).1 (ground arith)

  pub complete_settled-Lived :
      (s : ProviderDb) (r : StoredPayment)
      → payment_in id s ≡ some r
      → is_completable r ≡ true
      → Lived t s (complete_settled id now r s).1
  unfolding complete_settled
  complete_settled-Lived s r e c = elim (Bool-cases (is_settled r.status)) [
    | inr n ↦ rw n (Lived-refl t s)
    | inl y ↦ rw y (
        update_payment-Lived t id settled_row (complete_row now) s (λ r'. refl)
          (λ r' e' k h.
            let same : r' ≡ r = some_inj (sym e' ∙ e) in finished now (rw same c) h refl))
  ]

  complete_body-Lived : (s : ProviderDb) → Lived t s (complete_body sha256 id key body now s).1
  unfolding complete_body
  complete_body-Lived s = elim (Option-cases (payment_in id s)) [
    | inl e ↦ rw e (Lived-refl t s)
    | inr (r, e) ↦ elim (Bool-cases (is_completable r)) [
      | inr n ↦ rw (e, n) (Lived-refl t s)
      | inl y ↦
          rw (e, y)
            (>>=-keeps {B = Unit {0}} (Lived t s) (complete_settled id now r)
              (λ u. enqueue sha256 id key body now) s (complete_settled-Lived s r e y)
              (λ a u h p.
                Lived-trans t s u (enqueue sha256 id key body now u).1 p (enqueue-Lived u)))
    ]
  ]

  pub complete-Lived :
      (s : ProviderDb) → Lived t s (complete_and_enqueue sha256 id key body now s).1
  unfolding complete_and_enqueue
  complete-Lived s =
      transaction-ends (Lived t s) (complete_body sha256 id key body now) s (Lived-refl t s)
        (complete_body-Lived s)
