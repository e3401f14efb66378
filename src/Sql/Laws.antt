-- ===== src/Sql/Laws.antt =====
-- Laws of the statements, on tables with a unique key.
use mathlib.Core.Option
use koven.Prelude.{
  ℕ, ◌+◌, ◌≡◌, refl, ap, subst, sym, String, ◌==◌, eq_iff, Bool, true, false, ◌&&◌, none, some,
  List, [], ◌∷◌, if◌then◌else◌, All, some_inj, Bool-cases, inl, inr, arith,
}
use koven.Sql.{exists, select, changes, update, has_key, IsKeyed, sum}

module _ {ℓ} {A : Type ℓ} where
  pub select-holds : (p : A → Bool) (xs : List A) {r : A} → select p xs ≡ some r → p r ≡ true
  select-holds p [] e = cc
  select-holds p (x ∷ xs) e = elim (Bool-cases (p x)) [
    | inl h ↦ subst (λ y. p y ≡ true) (some_inj (rw h at e)) h
    | inr h ↦ select-holds p xs (rw h at e)
  ]

  pub All-select {κ} :
      (P : A → Type κ) (p : A → Bool) (xs : List A) {r : A} → All P xs → select p xs ≡ some r → P r
  All-select P p [] h e = cc
  All-select P p (x ∷ xs) h e = elim (Bool-cases (p x)) [
    | inl t ↦ subst P (some_inj (rw t at e)) h.0
    | inr t ↦ All-select P p xs h.1 (rw t at e)
  ]

  pub All-update {κ} :
      (P : A → Type κ) (p : A → Bool) (f : A → A) (xs : List A)
      → ((x : A) → P x → p x ≡ true → P (f x))
      → All P xs
      → All P (update p f xs)
  All-update P p f [] g h = tt
  All-update P p f (x ∷ xs) g h = (
    elim (Bool-cases (p x)) [ inl t ↦ rw t (g x h.0 t) | inr t ↦ rw t h.0 ],
    All-update P p f xs g h.1,
  )

module _ {ℓ} {A : Type ℓ} (key : A → String) where
  -- The key of the row that is found.
  pub select-key :
      (k : String) (xs : List A) {r : A} → select (has_key key k) xs ≡ some r → key r ≡ k
  select-key k xs {r} e = (eq_iff (key r) k).0 (select-holds (has_key key k) xs e)

  -- An update that leaves the keys alone commutes with a lookup by key.
  pub select-update :
      (p : A → Bool) (f : A → A) (j : String) (xs : List A)
      → ((x : A) → key (f x) ≡ key x)
      → select (has_key key j) (update p f xs)
        ≡ Option.map (λ r. if p r then f r else r) (select (has_key key j) xs)
  select-update p f j [] g = refl
  select-update p f j (x ∷ xs) g = elim (Bool-cases (p x)) [
    | inl t ↦ elim (Bool-cases (key x == j)) [
      | inl e ↦ rw (t, g x, e) (rw t)
      | inr e ↦ rw (t, g x, e) (select-update p f j xs g)
    ]
    | inr t ↦ elim (Bool-cases (key x == j)) [
      | inl e ↦ rw (t, e) (rw t)
      | inr e ↦ rw (t, e) (select-update p f j xs g)
    ]
  ]

  pub IsKeyed-update :
      (p : A → Bool) (f : A → A) (xs : List A)
      → ((x : A) → key (f x) ≡ key x)
      → IsKeyed key xs
      → IsKeyed key (update p f xs)
  IsKeyed-update p f [] g h = tt
  IsKeyed-update p f (x ∷ xs) g h = (
    elim (Bool-cases (p x)) [
      | inl t ↦ rw (t, g x, select-update p f (key x) xs g, h.0)
      | inr t ↦ rw (t, select-update p f (key x) xs g, h.0)
    ],
    IsKeyed-update p f xs g h.1,
  )

  -- No row has the key: an update by key changes nothing, and no row is counted.
  pub update-absent :
      (k : String) (q : A → Bool) (f : A → A) (xs : List A)
      → select (has_key key k) xs ≡ none
      → update (λ r. has_key key k r && q r) f xs ≡ xs
  update-absent k q f [] e = refl
  update-absent k q f (x ∷ xs) e = elim (Bool-cases (key x == k)) [
    | inl t ↦ cc (rw t at e)
    | inr t ↦ rw t (ap (λ (l : List A). x ∷ l) (update-absent k q f xs (rw t at e)))
  ]

  pub changes-absent :
      (k : String) (q : A → Bool) (xs : List A)
      → select (has_key key k) xs ≡ none
      → changes (λ r. has_key key k r && q r) xs ≡ 0
  changes-absent k q [] e = refl
  changes-absent k q (x ∷ xs) e = elim (Bool-cases (key x == k)) [
    | inl t ↦ cc (rw t at e)
    | inr t ↦ rw t (changes-absent k q xs (rw t at e))
  ]

  -- Below a row with the key there is no other.
  pub absent_below :
      (k : String) (x : A) (xs : List A)
      → key x == k ≡ true
      → IsKeyed key (x ∷ xs)
      → select (has_key key k) xs ≡ none
  absent_below k x xs t h =
      subst (λ j. select (has_key key j) xs ≡ none) ((eq_iff (key x) k).0 t) h.0

  -- An update by key and a condition changes one row or none.
  pub changes-found :
      (k : String) (q : A → Bool) (xs : List A) {r : A}
      → IsKeyed key xs
      → select (has_key key k) xs ≡ some r
      → changes (λ r. has_key key k r && q r) xs ≡ (if q r then 1 else 0)
  changes-found k q [] h e = cc
  changes-found k q (x ∷ xs) h e = elim (Bool-cases (key x == k)) [
    | inl t ↦
        rw (t, changes-absent k q xs (absent_below k x xs t h))
          (ap (λ (y : A). if q y then 1 else 0) (some_inj (rw t at e)))
    | inr t ↦ rw t (changes-found k q xs h.1 (rw t at e))
  ]

  -- What holds of the rows with another key, where no row has the key.
  pub All-absent {κ ι} :
      (P : A → Type κ) (Q : A → Type ι) (k : String) (xs : List A)
      → select (has_key key k) xs ≡ none
      → ((x : A) → key x == k ≡ false → P x → Q x)
      → All P xs
      → All Q xs
  All-absent P Q k [] e o a = tt
  All-absent P Q k (x ∷ xs) e o a = elim (Bool-cases (key x == k)) [
    | inl t ↦ cc (rw t at e)
    | inr t ↦ (o x t a.0, All-absent P Q k xs (rw t at e) o a.1)
  ]

  -- An update of the row that is found: it may change what holds of the row, and what holds of the
  -- others stays.
  pub All-update_found {κ ι} :
      (P : A → Type κ) (Q : A → Type ι) (k : String) (q : A → Bool) (f : A → A) (xs : List A)
      {r : A}
      → IsKeyed key xs
      → select (has_key key k) xs ≡ some r
      → q r ≡ true
      → (P r → Q (f r))
      → ((x : A) → key x == k ≡ false → P x → Q x)
      → All P xs
      → All Q (update (λ r. has_key key k r && q r) f xs)
  All-update_found P Q k q f [] h e c g o a = tt
  All-update_found P Q k q f (x ∷ xs) {r} h e c g o a = elim (Bool-cases (key x == k)) [
    | inl t ↦
        let same : r ≡ x = sym (some_inj (rw t at e)) in
        let hit : q x ≡ true = rw same at c in
        rw (t, hit, update-absent k q f xs (absent_below k x xs t h))
          (
            subst (λ y. P y → Q (f y)) same g a.0,
            All-absent P Q k xs (absent_below k x xs t h) o a.1,
          )
    | inr t ↦ rw t (o x t a.0, All-update_found P Q k q f xs h.1 (rw t at e) c g o a.1)
  ]

  -- A sum over the table changes by what the row that is found adds.
  pub sum-update_found :
      (w : A → ℕ) (k : String) (q : A → Bool) (f : A → A) (xs : List A) {r : A}
      → IsKeyed key xs
      → select (has_key key k) xs ≡ some r
      → q r ≡ true
      → sum w (update (λ r. has_key key k r && q r) f xs) + w r ≡ sum w xs + w (f r)
  sum-update_found w k q f [] h e t = cc
  sum-update_found w k q f (x ∷ xs) {r} h e c = elim (Bool-cases (key x == k)) [
    | inl t ↦
        let same : x ≡ r = some_inj (rw t at e) in
        rw (t, update-absent k q f xs (absent_below k x xs t h), same, c) (omega arith)
    | inr t ↦ rw t (omega (arith, sum-update_found w k q f xs h.1 (rw t at e) c))
  ]

module _ {ℓ} {A : Type ℓ} where
  -- An update that makes no row meet a condition adds none that meets it.
  pub exists-update :
      (w p : A → Bool) (f : A → A) (xs : List A)
      → ((x : A) → p x ≡ true → w (f x) ≡ true → w x ≡ true)
      → exists w (update p f xs) ≡ true
      → exists w xs ≡ true
  exists-update w p f [] g h = h
  exists-update w p f (x ∷ xs) g h = elim (Bool-cases (w x)) [
    | inl t ↦ rw t refl
    | inr t ↦ rw t (
        exists-update w p f xs g (elim (Bool-cases (p x)) [
          | inr u ↦ rw (u, t) at h
          | inl u ↦ elim (Bool-cases (w (f x))) [ inl v ↦ cc (g x u v) | inr v ↦ rw (u, v) at h ]
        ]))
  ]

  -- A row that a query finds is there for another condition that it meets.
  pub exists-found :
      (w p : A → Bool) (xs : List A) {r : A}
      → select p xs ≡ some r
      → w r ≡ true
      → exists w xs ≡ true
  exists-found w p [] e h = cc
  exists-found w p (x ∷ xs) {r} e h = elim (Bool-cases (w x)) [
    | inl t ↦ rw t refl
    | inr t ↦ elim (Bool-cases (p x)) [
      | inl u ↦ cc (rw (some_inj (rw u at e)) at t, h)
      | inr u ↦ rw t (exists-found w p xs {r = r} (rw u at e) h)
    ]
  ]
