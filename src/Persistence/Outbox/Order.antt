-- ===== src/Persistence/Outbox/Order.antt =====
-- The outbox of packages/persistence/src/audit-outbox.ts publishes the events of a mission in order.
use koven.Prelude.{
  ℕ, ◌≡◌, refl, ◌∙◌, String, some, Bool, true, false, not, List, [], ◌∷◌, ◌&&◌, ◌||◌, ◌==◌, All,
  All-map, arith, eq_iff, eq_refl, Bool-cases, Option-cases, inl, inr, some_inj, leb, subst,
}
use koven.Sql.{select, has_key, update, IsKeyed}
use koven.Sql.Laws.{exists-update, All-update, IsKeyed-update, All-update_found}
use koven.Persistence.Db.{Db, EventRow, OutboxRow, OutboxStatus, pending, processing, published}
use koven.Persistence.Events.{outbox_key}
use koven.Persistence.Outbox.{
  is_pending, is_processing, is_published, waits_for, blocked, claimable, first_by, is_due, lease,
}

-- A row that is not pending has no unpublished event of its mission before it.
abbrev pub InOrder : List EventRow → List OutboxRow → OutboxRow → Type 0
InOrder es os r = (is_pending r.status || not (blocked es os r)) ≡ true

pub record IsOrdered (db : Db) : Type 0 where
  pub keyed : IsKeyed outbox_key db.outbox
  pub in_order : All (InOrder db.events db.outbox) db.outbox

-- Fewer events to wait for.
pub InOrder-less :
    (es es' : List EventRow) (os os' : List OutboxRow) (r : OutboxRow)
    → (blocked es' os' r ≡ true → blocked es os r ≡ true)
    → InOrder es os r
    → InOrder es' os' r
InOrder-less es es' os os' r less h = elim (Bool-cases (blocked es' os' r)) [
  | inl t ↦ cc (rw (less t) at h)
  | inr t ↦ rw t (ground arith)
]

-- A row that waits for nothing is in order whatever becomes of it.
pub InOrder-free :
    (es : List EventRow) (os : List OutboxRow) (r : OutboxRow)
    → blocked es os r ≡ false
    → InOrder es os r
InOrder-free es os r h = rw h (ground arith)

-- A statement on the outbox that touches only unpublished rows, and neither their event nor their mission.
module _ (es : List EventRow) (os : List OutboxRow) (p : OutboxRow → Bool)
    (f : OutboxRow → OutboxRow) (same_event : (r : OutboxRow) → (f r).event_id ≡ r.event_id)
    (same_mission : (r : OutboxRow) → (f r).mission_id ≡ r.mission_id)
    (unpublished : (r : OutboxRow) → p r ≡ true → is_published r.status ≡ false) where
  blocked-update : (r : OutboxRow) → blocked es (update p f os) r ≡ true → blocked es os r ≡ true
  blocked-update r h =
      exists-update (waits_for es r) p f os
        (λ x t w. ground (arith, rw (same_mission x, same_event x) at w, unpublished x t)) h

  update-InOrder :
      All (InOrder es os) (update p f os) → All (InOrder es (update p f os)) (update p f os)
  update-InOrder h =
      All-map (InOrder es os) (InOrder es (update p f os)) (update p f os)
        (λ r. InOrder-less es es os (update p f os) r (blocked-update r)) h

-- A leased row waits for nothing.
leased-free :
    (es : List EventRow) (os : List OutboxRow) (r : OutboxRow)
    → is_processing r.status ≡ true
    → InOrder es os r
    → blocked es os r ≡ false
leased-free es os r t h = go r.status t h
  where
    go :
        (s : OutboxStatus)
        → is_processing s ≡ true
        → (is_pending s || not (blocked es os r)) ≡ true
        → blocked es os r ≡ false
    go pending t h = cc
    go processing t h = ground arith
    go published t h = cc

processing_unpublished : (s : OutboxStatus) → is_processing s ≡ true → is_published s ≡ false
processing_unpublished pending t = refl
processing_unpublished processing t = refl
processing_unpublished published t = cc

-- A statement on leased rows keeps the order: they wait for nothing, whatever their new status.
pub leased-IsOrdered :
    (p : OutboxRow → Bool) (f : OutboxRow → OutboxRow) (db : Db)
    → ((r : OutboxRow) → p r ≡ true → is_processing r.status ≡ true)
    → ((r : OutboxRow) → (f r).event_id ≡ r.event_id)
    → ((r : OutboxRow) → (f r).mission_id ≡ r.mission_id)
    → IsOrdered db
    → IsOrdered (record db { outbox = update p f db.outbox })
leased-IsOrdered p f db only same_event same_mission h = record {
  keyed = IsKeyed-update outbox_key p f db.outbox same_event h.keyed;
  in_order =
      update-InOrder db.events db.outbox p f same_event same_mission
        (λ r t. processing_unpublished r.status (only r t))
        (All-update (InOrder db.events db.outbox) p f db.outbox
          (λ r k t.
            InOrder-free db.events db.outbox (f r)
              (rw (same_event r, same_mission r) (leased-free db.events db.outbox r (only r t) k)))
          h.in_order);
}

-- A row that is found below another one is found.
found_below :
    (x : OutboxRow) (xs : List OutboxRow) {r : OutboxRow}
    → IsKeyed outbox_key (x ∷ xs)
    → select (has_key outbox_key r.event_id) xs ≡ some r
    → select (has_key outbox_key r.event_id) (x ∷ xs) ≡ some r
found_below x xs {r} k h = elim (Bool-cases (x.event_id == r.event_id)) [
  | inl t ↦ cc (rw ((eq_iff x.event_id r.event_id).0 t, h) at k.0)
  | inr t ↦ rw t h
]

-- The row that `ORDER BY w LIMIT 1` finds meets the condition, and its key leads to it.
module _ (p : OutboxRow → Bool) (w : OutboxRow → ℕ) where
  abbrev IsFirst : List OutboxRow → OutboxRow → Type 0
  IsFirst os r = (p r ≡ true) × (select (has_key outbox_key r.event_id) os ≡ some r)

  IsFirst-here :
      (x : OutboxRow) (xs : List OutboxRow) {r : OutboxRow}
      → p x ≡ true
      → x ≡ r
      → IsFirst (x ∷ xs) r
  IsFirst-here x xs t e = subst (IsFirst (x ∷ xs)) e (t, rw (eq_refl x.event_id) refl)

  IsFirst-below :
      (x : OutboxRow) (xs : List OutboxRow) (r : OutboxRow)
      → IsKeyed outbox_key (x ∷ xs)
      → IsFirst xs r
      → IsFirst (x ∷ xs) r
  IsFirst-below x xs r k (t, h) = (t, found_below x xs {r = r} k h)

  pub first_by-IsFirst :
      (os : List OutboxRow) {r : OutboxRow}
      → IsKeyed outbox_key os
      → first_by p w os ≡ some r
      → IsFirst os r
  unfolding first_by
  first_by-IsFirst [] k h = cc
  first_by-IsFirst (x ∷ xs) {r} k h = elim (Bool-cases (p x)) [
    | inr f ↦ IsFirst-below x xs r k (first_by-IsFirst xs {r = r} k.1 (rw f at h))
    | inl t ↦ elim (Option-cases (first_by p w xs)) [
      | inl e ↦ IsFirst-here x xs {r = r} t (some_inj (rw (t, e) at h))
      | inr (y, e) ↦ elim (Bool-cases (leb (w x) (w y))) [
        | inl l ↦ IsFirst-here x xs {r = r} t (some_inj (rw (t, e, l) at h))
        | inr l ↦ IsFirst-below x xs r k (first_by-IsFirst xs {r = r} k.1 (e ∙ rw (t, e, l) at h))
      ]
    ]
  ]

-- The condition of a claim.
due_claimable :
    (now : ℕ) (db : Db) (r : OutboxRow)
    → is_due now db r ≡ true
    → (claimable now r ≡ true) × (blocked db.events db.outbox r ≡ false)
due_claimable now db r h = (ground arith, ground arith)

-- Claiming a row that is due keeps the order.
pub claim_row-IsOrdered :
    (now until : ℕ) (token : String) (c : OutboxRow) (db : Db)
    → is_due now db c ≡ true
    → select (has_key outbox_key c.event_id) db.outbox ≡ some c
    → IsOrdered db
    → IsOrdered (record db {
      outbox =
          update
            (λ r. has_key outbox_key c.event_id r && claimable now r)
            (lease token until)
            db.outbox;
    })
claim_row-IsOrdered now until token c db due found h =
    let (may, free) = due_claimable now db c due in
    record {
      keyed = IsKeyed-update outbox_key _ (lease token until) db.outbox (λ r. refl) h.keyed;
      in_order =
          update-InOrder db.events db.outbox
            (λ r. has_key outbox_key c.event_id r && claimable now r) (lease token until)
            (λ r. refl) (λ r. refl) (λ r t. ground arith)
            (All-update_found outbox_key (InOrder db.events db.outbox) (InOrder db.events db.outbox)
              c.event_id (claimable now) (lease token until) db.outbox h.keyed found may
              (λ k. InOrder-free db.events db.outbox (lease token until c) free) (λ r d k. k)
              h.in_order);
    }
