-- ===== src/Sql/Counts.antt =====
-- How many rows an update changes, and whether there is one.
use koven.Prelude.{
  suc, ◌≡◌, refl, String, Bool, true, false, Option, none, some, List, [], ◌∷◌, ◌&&◌, arith,
  Bool-cases, inl, inr,
}
use koven.Sql.{select, exists, changes, update, has_key, IsKeyed}
use koven.Sql.Laws.{changes-found, changes-absent}

module _ {ℓ} {A : Type ℓ} where
  -- Where no row is changed there is none.
  pub exists-eq-false : (p : A → Bool) (xs : List A) → changes p xs ≡ 0 → exists p xs ≡ false
  exists-eq-false p [] h = refl
  exists-eq-false p (x ∷ xs) h = elim (Bool-cases (p x)) [
    | inl t ↦ absurd (let h' : suc (changes p xs) ≡ 0 = rw t at h in omega arith)
    | inr t ↦ rw t (exists-eq-false p xs (rw t at h))
  ]

  -- Where no row is changed the update leaves the table.
  pub update-eq : (p : A → Bool) (f : A → A) (xs : List A) → changes p xs ≡ 0 → update p f xs ≡ xs
  update-eq p f [] h = refl
  update-eq p f (x ∷ xs) h = elim (Bool-cases (p x)) [
    | inl t ↦ absurd (let h' : suc (changes p xs) ≡ 0 = rw t at h in omega arith)
    | inr t ↦ rw (t, update-eq p f xs (rw t at h)) refl
  ]

module _ {ℓ} {A : Type ℓ} (key : A → String) (k : String) (q : A → Bool) (xs : List A)
    (keyed : IsKeyed key xs) where
  -- A row that an update by key has changed is the row with the key.
  pub found_of_changes :
      changes (λ r. has_key key k r && q r) xs ≡ 1
      → (r : A) × (select (has_key key k) xs ≡ some r) × (q r ≡ true)
  found_of_changes h = go (select (has_key key k) xs) refl
    where
      go :
          (o : Option A)
          → select (has_key key k) xs ≡ o
          → (r : A) × (select (has_key key k) xs ≡ some r) × (q r ≡ true)
      go none e = absurd (let n = changes-absent key k q xs e in omega (arith, n, h))
      go (some r) e = let n = changes-found key k q xs keyed e in (r, e, ground (arith, n, h))
