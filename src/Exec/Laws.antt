-- ===== src/Exec/Laws.antt =====
-- Transactions are atomic, and inversion of a call that has succeeded.
use koven.Prelude.{Option, none, some, ◌≡◌, refl, sym, ap, subst, ◌∙◌, arith}
use koven.Domain.Errors.{Error}
use koven.Exec.{Exec, Result, ok, err, finish, transaction, or_throw, gets, continue, ◌>>=◌}

module _ {ℓ} {S A : Type ℓ} where
  -- A transaction that throws leaves the state as it found it.
  pub transaction_atomic :
      (m : Exec S A) (s : S) {e : Error} → (transaction m s).0 ≡ err e → (transaction m s).1 ≡ s
  unfolding transaction
  transaction_atomic m s h = ground arith

  pub transaction-eq-ok :
      (m : Exec S A) (s : S) {a : A} {s' : S} → transaction m s ≡ (ok a, s') → m s ≡ (ok a, s')
  unfolding transaction
  transaction-eq-ok m s h = ground arith

module _ {ℓ} {S A B : Type ℓ} where
  -- What a successful sequence has gone through.
  pub >>=-eq-ok :
      (m : Exec S A) (f : A → Exec S B) (s : S) {b : B} {s' : S}
      → (m >>= f) s ≡ (ok b, s')
      → (a : A) × (t : S) × (m s ≡ (ok a, t)) × (f a t ≡ (ok b, s'))
  >>=-eq-ok m f s {b} {s'} h = through (m s) refl h
    where
      through :
          (r : Result A × S)
          → m s ≡ r
          → (m >>= f) s ≡ (ok b, s')
          → (a : A) × (t : S) × (m s ≡ (ok a, t)) × (f a t ≡ (ok b, s'))
      through (ok a, t) e h = (a, t, e, rw e at h)
      through (err x, t) e h = cc (rw e at h)

  -- A sequence that starts by reading leaves the state as it was on a throw if its rest does.
  pub read_atomic :
      (m : Exec S A) (f : A → Exec S B) (s : S) {e : Error} {s' : S}
      → (m s).1 ≡ s
      → ((a : A) → f a s ≡ (err e, s') → s' ≡ s)
      → (m >>= f) s ≡ (err e, s')
      → s' ≡ s
  read_atomic m f s {e} {s'} kept k h = through (m s) refl h
    where
      through : (r : Result A × S) → m s ≡ r → continue f r ≡ (err e, s') → s' ≡ s
      through (ok a, t) eq c =
          let same : t ≡ s = sym (ap (λ r. r.1) eq) ∙ kept in
          k a (subst (λ u. f a u ≡ (err e, s')) same c)
      through (err x, t) eq c = sym (ap (λ r. r.1) c) ∙ sym (ap (λ r. r.1) eq) ∙ kept

module _ {ℓ} {S A : Type ℓ} where
  -- A transaction keeps what its body keeps when it succeeds.
  pub transaction-keeps {κ} :
      (P : S → Type κ) (m : Exec S A) (s : S)
      → P s
      → ((a : A) (s' : S) → m s ≡ (ok a, s') → P s')
      → P (transaction m s).1
  unfolding transaction
  transaction-keeps P m s p k = split (m s) refl
    where
      split : (r : Result A × S) → m s ≡ r → P (finish s r).1
      split (ok a, t) e = k a t e
      split (err x, t) e = p

module _ {ℓ} {S A B : Type ℓ} where
  -- What holds of a state after each of the two parts of a sequence holds after it.
  pub >>=-keeps {κ} :
      (P : S → Type κ) (m : Exec S A) (f : A → Exec S B) (s : S)
      → P (m s).1
      → ((a : A) (t : S) → m s ≡ (ok a, t) → P t → P (f a t).1)
      → P ((m >>= f) s).1
  >>=-keeps P m f s p k = split (m s) refl p
    where
      split : (r : Result A × S) → m s ≡ r → P r.1 → P (continue f r).1
      split (ok a, t) e q = k a t e q
      split (err x, t) e q = q

module _ {ℓ} {S A : Type ℓ} where
  -- What holds of a state and of the one that the body leaves holds after a transaction.
  pub transaction-ends {κ} :
      (P : S → Type κ) (m : Exec S A) (s : S) → P s → P (m s).1 → P (transaction m s).1
  unfolding transaction
  transaction-ends P m s p q = split (m s) q
    where
      split : (r : Result A × S) → P r.1 → P (finish s r).1
      split (ok a, t) h = h
      split (err x, t) h = p

module _ {ℓ} {S A : Type ℓ} where
  -- `value ?? throw` leaves the state.
  pub or_throw-state : (o : Option A) (e : Error) (s : S) → (or_throw o e s).1 ≡ s
  or_throw-state none e s = refl
  or_throw-state (some a) e s = refl

module _ {ℓ} {S A : Type ℓ} where
  pub ok_inj : {a b : A} {s t : S} → ◌≡◌ {A = Result A × S} (ok a, s) (ok b, t) → a ≡ b
  ok_inj h = cc

  -- A read returns what the state holds.
  pub gets-eq-ok : (f : S → A) (s : S) {a : A} {t : S} → gets f s ≡ (ok a, t) → a ≡ f t
  gets-eq-ok f s {a} {t} h =
      sym (ok_inj {a = f s} {b = a} {s = s} {t = t} h) ∙ ap f (ap (λ (r : Result A × S). r.1) h)
