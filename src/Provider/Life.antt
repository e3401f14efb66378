-- ===== src/Provider/Life.antt =====
-- The life of a payment of services/resource-server/src/outbox.ts, as a step relation: what may happen to
-- the row of a payment, whatever the callers do.
pub mod Payments
pub mod Settlements
pub mod History
pub mod Once
pub mod Paid
pub mod Reported
pub mod Jobs
pub mod Queued
use mathlib.Core.Option
use koven.Prelude.{
  ℕ, ◌≡◌, refl, sym, ap, subst, String, Option, none, some, Bool, true, false, ◌&&◌, ◌==◌, eq_iff,
  arith, Bool-cases, List, inl, inr, if◌then◌else◌,
}
use koven.Domain.Scan.{ScanReport}
use koven.Exec.{Exec}
use koven.Sql.{select, update, has_key, IsKeyed}
use koven.Sql.Laws.{select-update, select-key, IsKeyed-update}
use koven.Provider.Types.{ProviderDb, StoredPayment, Attempt, SettleResponse, is_settled}
use koven.Provider.Payments.{
  Texts, payment_key, payment_in, update_payment, verified_payment_lease_ms, reclaimable,
  lease_payment, holds, differs, with_report, renewable, attemptable, attempted, fresh_payment,
}
use koven.Provider.Settlements.{
  is_prepared, is_evidence, conflicts, with_settlement, is_over, is_lost, rotate, is_completable,
  complete_row,
}

-- One thing that happens to a payment.
pub data Moved (t : Texts) (r r' : StoredPayment) : Type 0 where
  leased :
      (token : String) (now : ℕ)
      → reclaimable now r ≡ true
      → r' ≡ lease_payment token now r
      → Moved t r r'
  reported :
      (token : String) (report : ScanReport) (now : ℕ)
      → holds token r ≡ true
      → r.settlement_attempted ≡ false
      → differs t.report_json r.report report ≡ false
      → r' ≡ with_report report now r
      → Moved t r r'
  renewed :
      (token : String) (until now : ℕ)
      → renewable token r ≡ true
      → r' ≡ record r { lease_until = some until; updated_at = now }
      → Moved t r r'
  tried :
      (token : String) (now : ℕ) → attemptable token r ≡ true → r' ≡ attempted now r → Moved t r r'
  paid :
      (x : SettleResponse) (header : String) (now : ℕ)
      → is_prepared r ≡ true
      → is_evidence t.to_decimal r.transaction_id r x ≡ true
      → conflicts t.settlement_json r.settlement x ≡ false
      → r' ≡ with_settlement x header now r
      → Moved t r r'
  rotated :
      (unconfirmed : Bool) (now : ℕ)
      → is_prepared r ≡ true
      → is_over r ≡ false
      → r' ≡ rotate (is_lost unconfirmed now r) now r
      → Moved t r r'
  finished :
      (now : ℕ)
      → is_completable r ≡ true
      → is_settled r.status ≡ true
      → r' ≡ complete_row now r
      → Moved t r r'

pub data Moves (t : Texts) (r : StoredPayment) : StoredPayment → Type 0 where
  still : Moves t r r
  then_move : {r' r'' : StoredPayment} → Moves t r r' → Moved t r' r'' → Moves t r r''

pub Moves-trans : {t : Texts} {a b c : StoredPayment} → Moves t a b → Moves t b c → Moves t a c
Moves-trans m still = m
Moves-trans m (then_move k x) = then_move (Moves-trans m k) x

-- What may happen to the row with an id, which is there or not.
abbrev pub Goes : Texts → String → Option StoredPayment → Option StoredPayment → Type 0
Goes t id none none = Unit {0}
Goes t id none (some r') =
    (attempt : Attempt) × (token : String) × (now : ℕ) × (attempt.authorization.transaction_id ≡ id)
    × Moves t (fresh_payment attempt token now) r'
Goes t id (some r) none = ⊥
Goes t id (some r) (some r') = Moves t r r'

Goes-refl : (t : Texts) (id : String) (o : Option StoredPayment) → Goes t id o o
Goes-refl t id none = tt
Goes-refl t id (some r) = still

Goes-trans :
    (t : Texts) (id : String) (a b c : Option StoredPayment)
    → Goes t id a b
    → Goes t id b c
    → Goes t id a c
Goes-trans t id none none c g h = h
Goes-trans t id none (some r) none g h = elim h [ ]
Goes-trans t id none (some r) (some r') (attempt, token, now, e, m) h =
    (attempt, token, now, e, Moves-trans m h)
Goes-trans t id (some r) none c g h = elim g [ ]
Goes-trans t id (some r) (some r') none g h = elim h [ ]
Goes-trans t id (some r) (some r') (some r'') g h = Moves-trans g h

-- Every payment has gone on living from one state to another, and ids stay unique.
abbrev pub Lived : Texts → ProviderDb → ProviderDb → Type 0
Lived t s s' =
    (IsKeyed payment_key s.payments → IsKeyed payment_key s'.payments)
    × ((id : String) → Goes t id (payment_in id s) (payment_in id s'))

pub Lived-refl : (t : Texts) (s : ProviderDb) → Lived t s s
Lived-refl t s = (λ k. k, λ id. Goes-refl t id (payment_in id s))

pub Lived-trans : (t : Texts) (a b c : ProviderDb) → Lived t a b → Lived t b c → Lived t a c
Lived-trans t a b c g h = (
  λ k. h.0 (g.0 k),
  λ id. Goes-trans t id (payment_in id a) (payment_in id b) (payment_in id c) (g.1 id) (h.1 id),
)

pub Lived-eq : (t : Texts) (s s' : ProviderDb) → s'.payments ≡ s.payments → Lived t s s'
Lived-eq t s s' e = (
  λ k. subst (IsKeyed payment_key) (sym e) k,
  λ id.
      subst
        (λ (rs : List StoredPayment).
          Goes t id (payment_in id s) (select (has_key payment_key id) rs))
        (sym e) (Goes-refl t id (payment_in id s)),
)

-- An update by key moves the row that is found, if its condition holds of the row.
module _ (t : Texts) (k : String) (q : StoredPayment → Bool) (f : StoredPayment → StoredPayment)
    (s : ProviderDb) (same : (r : StoredPayment) → payment_key (f r) ≡ payment_key r)
    (moves : (r : StoredPayment)
      → payment_in k s ≡ some r
      → r.transaction_id ≡ k
      → q r ≡ true
      → Moved t r (f r)) where
  abbrev hits : StoredPayment → Bool
  hits r = has_key payment_key k r && q r

  mapped :
      (id : String) (o : Option StoredPayment)
      → payment_in id s ≡ o
      → Goes t id o (Option.map (λ r. if hits r then f r else r) o)
  mapped id none e = tt
  mapped id (some r) e = elim (Bool-cases (payment_key r == k)) [
    | inr n ↦ rw n still
    | inl y ↦ elim (Bool-cases (q r)) [
      | inr n ↦ rw (y, n) still
      | inl c ↦
          let at_k : r.transaction_id ≡ k = (eq_iff (payment_key r) k).0 y in
          let at_id : r.transaction_id ≡ id = select-key payment_key id s.payments e in
          let found : payment_in k s ≡ some r = subst (λ j. payment_in j s ≡ some r) (cc) e in
          rw (y, c) (then_move still (moves r found at_k c))
    ]
  ]

  pub update_payment-Lived : Lived t s (update_payment k q f s).1
  update_payment-Lived = (
    λ keyed. IsKeyed-update payment_key hits f s.payments same keyed,
    λ id.
        subst (λ o. Goes t id (payment_in id s) o)
          (sym (select-update payment_key hits f id s.payments same))
          (mapped id (payment_in id s) refl),
  )
