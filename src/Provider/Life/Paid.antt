-- ===== src/Provider/Life/Paid.antt =====
-- What the rows of services/resource-server/src/outbox.ts say of their settlements, after any history.
use koven.Prelude.{
  ℕ, ◌≡◌, refl, String, none, some, true, false, List, ◌||◌, is_none, some_inj, arith, Option-cases,
  ◌⊎◌, inl, inr,
}
use koven.Provider.Types.{
  ProviderDb, StoredPayment, Attempt, SettleResponse, is_settled, is_completed, empty,
}
use koven.Provider.Payments.{Texts, payment_in, fresh_payment}
use koven.Provider.Settlements.{is_evidence}
use koven.Provider.Life.{
  Moved, leased, reported, renewed, tried, paid, rotated, finished, Moves, still, then_move, Lived,
}
use koven.Provider.Life.History.{Call, run, run-Lived}

-- A settlement is of an attempted payment with a report, and it is evidence of the payment; a settled or
-- completed payment has one.
pub record IsSound (t : Texts) (r : StoredPayment) : Type 0 where
  pub reported : r.settlement_attempted ≡ true → is_none r.report ≡ false
  pub released : r.settlement_attempted ≡ true → r.lease_token ≡ none
  pub has_settlement :
      is_settled r.status || is_completed r.status ≡ true → is_none r.settlement ≡ false
  pub attempted : is_none r.settlement ≡ false → r.settlement_attempted ≡ true
  pub shown :
      (x : SettleResponse)
      → r.settlement ≡ some x
      → is_evidence t.to_decimal r.transaction_id r x ≡ true

Moved-IsSound : {t : Texts} {r r' : StoredPayment} → Moved t r r' → IsSound t r → IsSound t r'
Moved-IsSound {t} {r} (leased token now g e) h = rw e (record {
  reported = h.reported;
  released = λ k. ground arith;
  has_settlement = h.has_settlement;
  attempted = h.attempted;
  shown = λ x k. h.shown x k;
})
Moved-IsSound {t} {r} (reported token report now g f d e) h = rw e (record {
  reported = λ k. ground arith;
  released = h.released;
  has_settlement = λ k. ground arith;
  attempted = h.attempted;
  shown = λ x k. h.shown x k;
})
Moved-IsSound {t} {r} (renewed token until now g e) h = rw e (record {
  reported = h.reported;
  released = h.released;
  has_settlement = h.has_settlement;
  attempted = h.attempted;
  shown = λ x k. h.shown x k;
})
Moved-IsSound {t} {r} (tried token now g e) h = rw e (record {
  reported = λ k. ground arith;
  released = λ k. refl;
  has_settlement = h.has_settlement;
  attempted = λ k. refl;
  shown = λ x k. h.shown x k;
})
Moved-IsSound {t} {r} (paid x header now p v c e) h = rw e (record {
  reported = h.reported;
  released = h.released;
  has_settlement = λ k. refl;
  attempted = λ k. ground arith;
  shown = λ y k. rw (← some_inj k) v;
})
Moved-IsSound {t} {r} (rotated u now p o e) h = rw e (record {
  reported = h.reported;
  released = h.released;
  has_settlement = λ k. ground (arith, h.has_settlement);
  attempted = h.attempted;
  shown = λ x k. h.shown x k;
})
Moved-IsSound {t} {r} (finished now c f e) h = rw e (record {
  reported = h.reported;
  released = λ k. refl;
  has_settlement = λ k. ground arith;
  attempted = h.attempted;
  shown = λ x k. h.shown x k;
})

Moves-IsSound : {t : Texts} {r r' : StoredPayment} → Moves t r r' → IsSound t r → IsSound t r'
Moves-IsSound still h = h
Moves-IsSound (then_move k m) h = Moved-IsSound m (Moves-IsSound k h)

fresh_payment-IsSound :
    (t : Texts) (a : Attempt) (token : String) (now : ℕ) → IsSound t (fresh_payment a token now)
fresh_payment-IsSound t a token now = record {
  reported = λ k. cc;
  released = λ k. cc;
  has_settlement = λ k. cc;
  attempted = λ k. cc;
  shown = λ x k. cc;
}

-- A payment that has lived from the empty store is sound.
pub Lived-IsSound :
    (t : Texts) (id : String) (s : ProviderDb) {r : StoredPayment}
    → Lived t empty s
    → payment_in id s ≡ some r
    → IsSound t r
Lived-IsSound t id s {r} l e = go (rw e at (l.1 id))
  where
    go :
        ((a : Attempt) × (token : String) × (now : ℕ) × (a.authorization.transaction_id ≡ id)
          × Moves t (fresh_payment a token now) r)
        → IsSound t r
    go (a, token, now, same, m) = Moves-IsSound m (fresh_payment-IsSound t a token now)

-- The evidence of a settlement, and the payment around it.
pub record IsPaid (t : Texts) (r : StoredPayment) : Type 0 where
  pub settlement : SettleResponse
  pub recorded : r.settlement ≡ some settlement
  pub shown : is_evidence t.to_decimal r.transaction_id r settlement ≡ true
  pub attempted : r.settlement_attempted ≡ true
  pub reported : is_none r.report ≡ false
  pub released : r.lease_token ≡ none

pub sound-IsPaid :
    (t : Texts) (r : StoredPayment) → IsSound t r → is_none r.settlement ≡ false → IsPaid t r
sound-IsPaid t r sound c = go (Option-cases r.settlement)
  where
    go : ((r.settlement ≡ none) ⊎ ((x : SettleResponse) × (r.settlement ≡ some x))) → IsPaid t r
    go (inl n) = absurd (cc (rw n at c))
    go (inr (x, y)) =
        let tried = sound.attempted c in
        record {
          settlement = x;
          recorded = y;
          shown = sound.shown x y;
          attempted = tried;
          reported = sound.reported tried;
          released = sound.released tried;
        }

-- Whatever the callers do, in any order: a payment that is settled or completed has a settlement, a success of the
-- payment's own transaction, paid by its borrower, in the authorized amount where it states one; its settlement has
-- been attempted, its report is stored, and no one holds its lease.
pub settled-IsPaid :
    (t : Texts) (sha256 : String → String) (cs : List Call) (id : String) {r : StoredPayment}
    → payment_in id (run t sha256 cs empty) ≡ some r
    → is_settled r.status || is_completed r.status ≡ true
    → IsPaid t r
settled-IsPaid t sha256 cs id {r} e c =
    let sound =
      Lived-IsSound t id (run t sha256 cs empty) {r = r} (run-Lived t sha256 cs empty) e in
    sound-IsPaid t r sound (sound.has_settlement c)
