-- ===== src/Sql.antt =====
-- The statements that the stores run, over a table as the list of its rows: `SELECT ... WHERE p` by
-- `.get`, `UPDATE ... SET f WHERE p` and the number of rows that it changes. `INSERT` puts a row in
-- front. A key is a text column that a constraint keeps unique.
pub mod Laws
pub mod Counts
use koven.Prelude.{
  ℕ, suc, ◌+◌, ◌≡◌, String, ◌==◌, Bool, true, false, not, ◌&&◌, Option, none, some, List, [], ◌∷◌,
  if◌then◌else◌, is_none,
}

module _ {ℓ} {A : Type ℓ} where
  abbrev pub select : (A → Bool) → List A → Option A
  select p [] = none
  select p (x ∷ xs) = if p x then some x else select p xs

  abbrev pub exists : (A → Bool) → List A → Bool
  exists p xs = not (is_none (select p xs))

  abbrev pub changes : (A → Bool) → List A → ℕ
  changes p [] = 0
  changes p (x ∷ xs) = let rest = changes p xs in if p x then suc rest else rest

  abbrev pub update : (A → Bool) → (A → A) → List A → List A
  update p f [] = []
  update p f (x ∷ xs) = (if p x then f x else x) ∷ update p f xs

  -- The rows with a key.
  abbrev pub has_key : (A → String) → String → A → Bool
  has_key key k x = key x == k

  -- `PRIMARY KEY` or `UNIQUE` on a column.
  abbrev pub IsKeyed : (A → String) → List A → Type ℓ
  IsKeyed key [] = Unit
  IsKeyed key (x ∷ xs) = (select (has_key key (key x)) xs ≡ none) × IsKeyed key xs

  -- `SUM(column)`
  abbrev pub sum : (A → ℕ) → List A → ℕ
  sum w [] = 0
  sum w (x ∷ xs) = w x + sum w xs
