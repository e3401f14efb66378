-- ===== src/Persistence/Outbox/Append.antt =====
-- New events, and events that are marked as published, keep the order of the outbox
-- (packages/persistence/src/events.ts).
use koven.Prelude.{
  ℕ, suc, ◌≤◌, ◌≡◌, refl, ap, ◌∙◌, String, Option, none, some, true, false, List, [], ◌∷◌, ◌==◌,
  All, All-map, arith, eq_iff, eq_refl, Bool-cases, Option-cases, inl, inr, some_inj, if◌then◌else◌,
  sym, subst,
}
use mathlib.Core.Option
use koven.Domain.Errors.{Error}
use koven.Exec.{Result, ok, err}
use koven.Sql.{select, has_key, update}
use koven.Sql.Laws.{All-absent, select-update}
use koven.Persistence.Db.{Db, EventRow, OutboxRow}
use koven.Persistence.Events.{
  LocalEvent, Texts, event_key, outbox_key, last_seq, event_row, outbox_row, create_event,
  unpublished, set_published,
}
use koven.Persistence.Outbox.{seq_in, seq_of, before, waits_for, blocked}
use koven.Persistence.Outbox.Order.{InOrder, IsOrdered, InOrder-less}

-- The numbers of the events decide what a row waits for.
blocked-agree :
    (es es' : List EventRow) (os : List OutboxRow) (r : OutboxRow)
    → seq_of es' r.event_id ≡ seq_of es r.event_id
    → All (λ o. seq_of es' o.event_id ≡ seq_of es o.event_id) os
    → blocked es' os r ≡ blocked es os r
blocked-agree es es' [] r e a = refl
blocked-agree es es' (o ∷ os) r e a = elim (Bool-cases (waits_for es r o)) [
  | inl t ↦ rw (a.0, e, t) refl
  | inr t ↦ rw (a.0, e, t) (blocked-agree es es' os r e a.1)
]

-- Events that keep their numbers keep the order.
pub events-IsOrdered :
    (es : List EventRow) (db : Db)
    → ((id : String) → seq_of es id ≡ seq_of db.events id)
    → IsOrdered db
    → IsOrdered (record db { events = es })
events-IsOrdered es db same h = record {
  keyed = h.keyed;
  in_order =
      All-map (InOrder db.events db.outbox) (InOrder es db.outbox) db.outbox
        (λ r. InOrder-less db.events es db.outbox db.outbox r (λ t. sym (agree r) ∙ t)) h.in_order;
}
  where
    agree : (r : OutboxRow) → blocked es db.outbox r ≡ blocked db.events db.outbox r
    agree r = blocked-agree db.events es db.outbox r (same r.event_id) (
        All-map (InOrder db.events db.outbox)
          (λ o. seq_of es o.event_id ≡ seq_of db.events o.event_id) db.outbox
          (λ o k. same o.event_id) h.in_order)

-- Marking an event as published leaves its number.
seq_of-published :
    (i tx at : String) (n : ℕ) (es : List EventRow) (id : String)
    → seq_of (update (unpublished i) (set_published tx n at) es) id ≡ seq_of es id
seq_of-published i tx at n es id =
    rw (select-update event_key (unpublished i) (set_published tx n at) id es (λ e. refl))
      (go (select (has_key event_key id) es))
  where
    go :
        (o : Option EventRow)
        → seq_in (Option.map (λ r. if unpublished i r then set_published tx n at r else r) o)
          ≡ seq_in o
    go none = refl
    go (some e) = elim (Bool-cases (unpublished i e)) [ inl t ↦ rw t refl | inr t ↦ rw t refl ]

pub published-IsOrdered :
    (i tx at : String) (n : ℕ) (db : Db)
    → IsOrdered db
    → IsOrdered (record db { events = update (unpublished i) (set_published tx n at) db.events })
published-IsOrdered i tx at n db h =
    events-IsOrdered (update (unpublished i) (set_published tx n at) db.events) db
      (seq_of-published i tx at n db.events) h

-- No number is above the last one.
seq_of-last : (es : List EventRow) (id : String) {n : ℕ} → seq_of es id ≡ some n → n ≤ last_seq es
seq_of-last [] id h = cc
seq_of-last (e ∷ es) id {n} h = elim (Bool-cases (e.id == id)) [
  | inl t ↦ ground (arith, some_inj (rw t at h))
  | inr t ↦ ground (arith, seq_of-last es id {n = n} (rw t at h))
]

other_id : (i j : String) → j == i ≡ false → i == j ≡ false
other_id i j h = elim (Bool-cases (i == j)) [
  | inl t ↦ cc (rw ((eq_iff i j).0 t, eq_refl j) at h)
  | inr t ↦ t
]

-- A new event is after every event that is there, so that nothing waits for it.
module _ (e : LocalEvent) (now : ℕ) (db : Db)
    (fresh : select (has_key outbox_key e.id) db.outbox ≡ none) where
  abbrev added : List EventRow
  added = event_row e (suc (last_seq db.events)) ∷ db.events

  seq_of-added : (id : String) → id == e.id ≡ false → seq_of added id ≡ seq_of db.events id
  seq_of-added id d = rw (other_id e.id id d) refl

  not_before_added :
      (o : Option ℕ)
      → ((n : ℕ) → o ≡ some n → n ≤ last_seq db.events)
      → before (some (suc (last_seq db.events))) o ≡ false
  not_before_added none h = refl
  not_before_added (some n) h = ground (arith, h n refl)

  not_ahead :
      (r : OutboxRow) → r.event_id == e.id ≡ false → waits_for added r (outbox_row e now) ≡ false
  not_ahead r d =
      rw
        (
          seq_of-added r.event_id d,
          eq_refl e.id,
          not_before_added (seq_of db.events r.event_id)
              (λ n k. seq_of-last db.events r.event_id {n = n} k),
        )
        (ground arith)

  blocked-added :
      (r : OutboxRow)
      → r.event_id == e.id ≡ false
      → All (λ o. seq_of added o.event_id ≡ seq_of db.events o.event_id) db.outbox
      → blocked added (outbox_row e now ∷ db.outbox) r ≡ true
      → blocked db.events db.outbox r ≡ true
  blocked-added r d agree h =
      sym (blocked-agree db.events added db.outbox r (seq_of-added r.event_id d) agree)
      ∙ (rw (not_ahead r d) at h)

  added-IsOrdered :
      e.published_at ≡ none
      → IsOrdered db
      → IsOrdered (record db { events = added; outbox = outbox_row e now ∷ db.outbox })
  added-IsOrdered new h = record {
    keyed = (fresh, h.keyed);
    in_order = (
      rw new (ground arith),
      All-absent outbox_key (InOrder db.events db.outbox)
          (InOrder added (outbox_row e now ∷ db.outbox)) e.id db.outbox fresh
          (λ r d. InOrder-less db.events added db.outbox (outbox_row e now ∷ db.outbox) r (
            blocked-added r d (
              All-absent outbox_key (InOrder db.events db.outbox)
                (λ o. seq_of added o.event_id ≡ seq_of db.events o.event_id) e.id db.outbox fresh
                (λ o d k. seq_of-added o.event_id d) h.in_order)))
          h.in_order,
    );
  }

-- What a successful `createEvent` has added.
create_event-ok :
    (t : Texts) (e : LocalEvent) (db : Db) {db' : Db}
    → create_event t e db ≡ (ok tt, db')
    → (now : ℕ) × (select (has_key outbox_key e.id) db.outbox ≡ none)
      × (db' ≡ record db {
        events = event_row e (suc (last_seq db.events)) ∷ db.events;
        outbox = outbox_row e now ∷ db.outbox;
      })
unfolding create_event
create_event-ok t e db h = elim (Option-cases (t.parse_date e.occurred_at)) [
  | inl bad ↦ ground arith
  | inr (now, good) ↦ (now, ground arith, ground arith)
]

-- A `createEvent` that throws has changed nothing.
create_event-err :
    (t : Texts) (e : LocalEvent) (db : Db) {x : Error}
    → (create_event t e db).0 ≡ err x
    → (create_event t e db).1 ≡ db
unfolding create_event
create_event-err t e db h = ground arith

pub create_event-IsOrdered :
    (t : Texts) (e : LocalEvent) (db : Db)
    → e.published_at ≡ none
    → IsOrdered db
    → IsOrdered (create_event t e db).1
create_event-IsOrdered t e db new h = go (create_event t e db) refl
  where
    go : (r : Result (Unit {0}) × Db) → create_event t e db ≡ r → IsOrdered r.1
    go (ok tt, db') k =
        let (now, fresh, eq) = create_event-ok t e db {db' = db'} k in
        rw eq (added-IsOrdered e now db fresh new h)
    go (err x, db') k =
        subst IsOrdered (sym (create_event-err t e db {x = x} (ap (λ r. r.0) k)) ∙ ap (λ r. r.1) k)
          h
