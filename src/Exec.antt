-- ===== src/Exec.antt =====
-- Code that reads and writes a database and may throw: what was written before a throw stays
-- written, so the state comes back beside the error. `transaction` is better-sqlite3's
-- `database.transaction(f).immediate()`, which rolls back on a throw.
pub mod Laws
use koven.Prelude.{Bool, true, false, Option, none, some, if◌then◌else◌}
use koven.Domain.Errors.{Error}

pub data Result {ℓ} (A : Type ℓ) : Type ℓ where
  ok : A → Result A
  err : Error → Result A

abbrev pub Exec {ℓ} : Type ℓ → Type ℓ → Type ℓ
Exec S A = S → Result A × S

module _ {ℓ} {S A : Type ℓ} where
  abbrev pub pure : A → Exec S A
  pure a s = (ok a, s)

  abbrev pub throw : Error → Exec S A
  throw e s = (err e, s)

  abbrev pub gets : (S → A) → Exec S A
  gets f s = (ok (f s), s)

  -- `value ?? throw`
  abbrev pub or_throw : Option A → Error → Exec S A
  or_throw none e = throw e
  or_throw (some a) e = pure a

  abbrev pub lift : Result A → Exec S A
  lift r s = (r, s)

  abbrev finish : S → Result A × S → Result A × S
  finish s (ok a, s') = (ok a, s')
  finish s (err e, s') = (err e, s)

  unfoldable pub transaction : Exec S A → Exec S A
  transaction m s = finish s (m s)

module _ {ℓ} {S A B : Type ℓ} where
  abbrev pub continue : (A → Exec S B) → Result A × S → Result B × S
  continue f (ok a, s) = f a s
  continue f (err e, s) = (err e, s)

  infixl 5 ◌>>=◌
  abbrev pub ◌>>=◌ : Exec S A → (A → Exec S B) → Exec S B
  ◌>>=◌ m f s = continue f (m s)

-- `try` and `catch`.
module _ {ℓ} {S A : Type ℓ} where
  abbrev pub caught : (Error → Exec S A) → Result A × S → Result A × S
  caught h (ok a, s) = (ok a, s)
  caught h (err e, s) = h e s

  abbrev pub catch : Exec S A → (Error → Exec S A) → Exec S A
  catch m h s = caught h (m s)

infixl 5 ◌>>◌
abbrev pub ◌>>◌ : {S B : Type 0} → Exec S (Unit {0}) → Exec S B → Exec S B
m >> k = m >>= λ _. k

module _ {S : Type 0} where
  abbrev pub throw_if : Bool → Error → Exec S (Unit {0})
  throw_if b e s = (if b then err e else ok tt, s)

  abbrev pub modify : (S → S) → Exec S (Unit {0})
  modify f s = (ok tt, f s)
