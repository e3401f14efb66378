-- ===== src/Provider/Life/Once.antt =====
-- The settlement of a payment of services/resource-server/src/outbox.ts is asked for once: only the holder
-- of the lease marks the attempt, which ends the lease for good.
use koven.Prelude.{
  ℕ, ◌≡◌, refl, sym, subst, ◌∙◌, String, Option, none, some, Bool, true, false, List, ◌&&◌, eq_iff,
  arith,
}
use koven.Exec.{ok, err}
use koven.Exec.Laws.{transaction-eq-ok}
use koven.Sql.{changes, update, has_key, IsKeyed}
use koven.Sql.Laws.{select-update, select-key, changes-found, IsKeyed-update}
use koven.Sql.Counts.{update-eq, found_of_changes}
use koven.Provider.Types.{ProviderDb, StoredPayment, Attempt, store_error, empty}
use koven.Provider.Payments.{
  Texts, PaymentClaim, payment_key, payment_in, attemptable, attempted, claim_payment, claim_body,
  claim_existing, insert_payment, take_over, mark_settlement_attempted,
}
use koven.Provider.Life.{
  Moved, leased, reported, renewed, tried, paid, rotated, finished, Moves, still, then_move, Lived,
}
use koven.Provider.Life.History.{Call, run, run-Lived}

-- The settlement has been attempted, and no one holds the lease.
abbrev pub Tried : StoredPayment → Type 0
Tried r = (r.settlement_attempted ≡ true) × (r.lease_token ≡ none)

pub Moved-Tried : {t : Texts} {r r' : StoredPayment} → Moved t r r' → Tried r → Tried r'
Moved-Tried (leased token now g e) h = absurd (ground arith)
Moved-Tried (reported token report now g f d e) h = absurd (ground arith)
Moved-Tried (renewed token until now g e) h = absurd (ground arith)
Moved-Tried (tried token now g e) h = absurd (ground arith)
Moved-Tried (paid x header now p v c e) h = ground arith
Moved-Tried (rotated u now p o e) h = ground arith
Moved-Tried (finished now c f e) h = ground arith

Moves-Tried : {t : Texts} {r r' : StoredPayment} → Moves t r r' → Tried r → Tried r'
Moves-Tried still h = h
Moves-Tried (then_move k m) h = Moved-Tried m (Moves-Tried k h)

-- A payment with an id is there and has been tried.
abbrev pub TriedIn : String → ProviderDb → Type 0
TriedIn id s = (r : StoredPayment) × (payment_in id s ≡ some r) × Tried r

Lived-Tried :
    (t : Texts) (id : String) (s s' : ProviderDb) → Lived t s s' → TriedIn id s → TriedIn id s'
Lived-Tried t id s s' l (r, e, h) = go (payment_in id s') refl
  where
    go : (o : Option StoredPayment) → payment_in id s' ≡ o → TriedIn id s'
    go none e' = elim (rw (e, e') at (l.1 id)) [ ]
    go (some r') e' = (r', e', Moves-Tried (rw (e, e') at (l.1 id)) h)

module _ (id token : String) (now : ℕ) (s : ProviderDb) where
  abbrev hit : StoredPayment → Bool
  hit r = has_key payment_key id r && attemptable token r

  mark-steps :
      {s' : ProviderDb}
      → mark_settlement_attempted id token now s ≡ (ok tt, s')
      → (changes hit s.payments ≡ 1)
        × (s' ≡ record s { payments = update hit (attempted now) s.payments })
  unfolding mark_settlement_attempted
  mark-steps h = (ground arith, ground arith)

  mark-eq-ok :
      {s' : ProviderDb}
      → IsKeyed payment_key s.payments
      → mark_settlement_attempted id token now s ≡ (ok tt, s')
      → TriedIn id s' × IsKeyed payment_key s'.payments
  mark-eq-ok {s'} keyed h =
      let (one, eq) = mark-steps {s' = s'} h in
      let (row, found, fits) =
        found_of_changes payment_key id (attemptable token) s.payments keyed one in
      let same : row.transaction_id ≡ id = select-key payment_key id s.payments found in
      let hits : hit row ≡ true = ground (arith, fits, (eq_iff row.transaction_id id).1 same) in
      rw eq (
        (
          attempted now row,
          select-update payment_key hit (attempted now) id s.payments (λ r. refl)
              ∙ rw (found, hits) refl,
          (refl, refl),
        ),
        IsKeyed-update payment_key hit (attempted now) s.payments (λ r. refl) keyed,
      )

  -- A payment that has been tried is not tried again.
  mark-Tried :
      IsKeyed payment_key s.payments
      → TriedIn id s
      → mark_settlement_attempted id token now s ≡ (err store_error, s)
  unfolding mark_settlement_attempted
  mark-Tried keyed (r, e, h) =
      let n = changes-found payment_key id (attemptable token) s.payments keyed e in
      let none_hit : changes hit s.payments ≡ 0 = ground (arith, n) in
      rw (none_hit, update-eq hit (attempted now) s.payments none_hit) refl

-- A claim of a payment that has been tried does not own it.
claim_existing-Tried :
    (a : Attempt) (token : String) (now : ℕ) (s : ProviderDb) {c : PaymentClaim} {s' : ProviderDb}
    → TriedIn a.authorization.transaction_id s
    → claim_existing a token now s ≡ (ok c, s')
    → c.owned ≡ false
unfolding claim_existing take_over
claim_existing-Tried a token now s (r, e, h) ok_h = ground arith

claim-Tried :
    (a : Attempt) (token : String) (now : ℕ) (s : ProviderDb) {c : PaymentClaim} {s' : ProviderDb}
    → TriedIn a.authorization.transaction_id s
    → claim_payment a token now s ≡ (ok c, s')
    → c.owned ≡ false
unfolding claim_payment claim_body insert_payment
claim-Tried a token now s {c} {s'} (r, e, h) ok_h =
    let body = transaction-eq-ok (claim_body a token now) s {a = c} {s' = s'} ok_h in
    claim_existing-Tried a token now s {c = c} {s' = s'} (r, e, h) (rw e at body)

-- The settlement of a payment is asked for once. When an attempt has been recorded, then whatever any callers do,
-- in any order, no attempt is recorded again under any token, and no claim of the payment's transaction owns it.
pub attempted_once :
    (t : Texts) (sha256 : String → String) (before after : List Call) (id token token' : String)
    (now now' : ℕ) (a : Attempt) {s s' : ProviderDb} {c : PaymentClaim}
    → mark_settlement_attempted id token now (run t sha256 before empty) ≡ (ok tt, s)
    → a.authorization.transaction_id ≡ id
    → claim_payment a token' now' (run t sha256 after s) ≡ (ok c, s')
    → (mark_settlement_attempted id token' now' (run t sha256 after s)
        ≡ (err store_error, run t sha256 after s))
      × (c.owned ≡ false)
attempted_once t sha256 before after id token token' now now' a {s} {s'} {c} h same k =
    let keyed = (run-Lived t sha256 before empty).0 tt in
    let (was, keyed_s) = mark-eq-ok id token now (run t sha256 before empty) {s' = s} keyed h in
    let lived = run-Lived t sha256 after s in
    let is = Lived-Tried t id s (run t sha256 after s) lived was in
    (
      mark-Tried id token' now' (run t sha256 after s) (lived.0 keyed_s) is,
      claim-Tried a token' now' (run t sha256 after s) {c = c} {s' = s'}
          (subst (λ k. TriedIn k (run t sha256 after s)) (sym same) is) k,
    )
