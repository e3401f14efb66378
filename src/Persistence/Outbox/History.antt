-- ===== src/Persistence/Outbox/History.antt =====
-- Histories of the outbox: events that are added, and the calls of its workers, in any order and by
-- any number of workers.
use koven.Prelude.{
  ℕ, ◌+◌, ◌<◌, ◌≡◌, refl, ap, sym, subst, String, Option, none, some, Bool, true, false, List, [],
  ◌∷◌, arith, eqb, if◌then◌else◌, Bool-cases, inl, inr, eq_refl,
}
use koven.Domain.Errors.{constraint}
use koven.Exec.{Exec, ok, err, continue}
use koven.Exec.Laws.{transaction-keeps}
use koven.Sql.{select, has_key, update, changes}
use koven.Sql.Laws.{exists-found, All-select}
use koven.Persistence.Db.{
  Db, OutboxRow, OutboxStatus, pending, processing, published, PreparedHcsMessage, empty,
}
use koven.Persistence.Events.{
  LocalEvent, Texts, create_event, is_refused, mark_event_published, outbox_key, unpublished,
  set_published,
}
use koven.Persistence.Outbox.{
  AuditOutboxJob, is_due, is_published, seq_of, waits_for, blocked, first_by, or_zero, claim_due,
  leased, save_prepared, mark_submission_attempted, mark_published, retry, mutate,
  transaction_taken, claim, claim_next, complete, is_pending, publish_row, retry_row,
}
use koven.Persistence.Outbox.Order.{
  IsOrdered, InOrder, leased-IsOrdered, first_by-IsFirst, claim_row-IsOrdered,
}
use koven.Persistence.Outbox.Append.{create_event-IsOrdered, published-IsOrdered}

mutate-IsOrdered :
    (job : AuditOutboxJob) (f : OutboxRow → OutboxRow) (db : Db)
    → ((r : OutboxRow) → (f r).event_id ≡ r.event_id)
    → ((r : OutboxRow) → (f r).mission_id ≡ r.mission_id)
    → IsOrdered db
    → IsOrdered (mutate job f db).1
unfolding mutate
mutate-IsOrdered job f db same_event same_mission h =
    leased-IsOrdered (leased job) f db (λ r t. ground arith) same_event same_mission h

save_prepared-IsOrdered :
    (job : AuditOutboxJob) (p : PreparedHcsMessage) (db : Db)
    → IsOrdered db
    → IsOrdered (save_prepared job p db).1
unfolding save_prepared
save_prepared-IsOrdered job p db h = elim (Bool-cases (transaction_taken job p.transaction_id db)) [
  | inl t ↦ rw t h
  | inr t ↦
      rw t (mutate-IsOrdered job (λ r. record r { prepared = some p }) db (λ r. refl) (λ r. refl) h)
]

claim_due-IsOrdered :
    (token : String) (now lease_ms : ℕ) (db : Db)
    → IsOrdered db
    → IsOrdered (claim_due token now lease_ms db).1
unfolding claim_due claim_next claim
claim_due-IsOrdered token now lease_ms db h =
    transaction-keeps IsOrdered (claim_next token now lease_ms) db h (λ a s' e.
      claimed (first_by (is_due now db) (λ r. or_zero (seq_of db.events r.event_id)) db.outbox) refl
        (ap (λ r. r.1) e))
  where
    claimed :
        {s' : Db} (o : Option OutboxRow)
        → first_by (is_due now db) (λ r. or_zero (seq_of db.events r.event_id)) db.outbox ≡ o
        → (claim token now (now + lease_ms) o db).1 ≡ s'
        → IsOrdered s'
    claimed none k e = subst IsOrdered e h
    claimed (some c) k e =
        let (due, found) =
          first_by-IsFirst (is_due now db) (λ r. or_zero (seq_of db.events r.event_id)) db.outbox
            {r = c} h.keyed k in
        subst IsOrdered e (claim_row-IsOrdered now (now + lease_ms) token c db due found h)

complete-ok :
    (job : AuditOutboxJob) (tx : String) (n : ℕ) (at : String) (db : Db) {db' : Db}
    → complete job tx n at db ≡ (ok tt, db')
    → db' ≡ record db {
      outbox = update (leased job) (publish_row tx n at) db.outbox;
      events = update (unpublished job.event_id) (set_published tx n at) db.events;
    }
unfolding complete mutate mark_event_published
complete-ok job tx n at db h = ground arith

mark_published-IsOrdered :
    (job : AuditOutboxJob) (tx : String) (n : ℕ) (at : String) (db : Db)
    → IsOrdered db
    → IsOrdered (mark_published job tx n at db).1
unfolding mark_published mutate
mark_published-IsOrdered job tx n at db h =
    transaction-keeps IsOrdered (complete job tx n at) db h (λ a s' e.
      subst IsOrdered (sym (complete-ok job tx n at db {db' = s'} e)) (
        published-IsOrdered job.event_id tx at n _
          (mutate-IsOrdered job (publish_row tx n at) db (λ r. refl) (λ r. refl) h)))

mark_event_published-IsOrdered :
    (id tx : String) (n : ℕ) (at : String) (db : Db)
    → IsOrdered db
    → IsOrdered (mark_event_published id tx n at db).1
unfolding mark_event_published
mark_event_published-IsOrdered id tx n at db h = elim (Bool-cases (is_refused id n db)) [
  | inl bad ↦
      subst (λ b. IsOrdered (continue next (if b then err constraint else ok tt, db)).1) (sym bad) h
  | inr fine ↦
      subst (λ b. IsOrdered (continue next (if b then err constraint else ok tt, db)).1) (sym fine)
        (published-IsOrdered id tx at n db h)
]
  where
    next : Unit {0} → Exec Db Bool
    next u t = (
      ok (eqb (changes (unpublished id) t.events) 1),
      record t { events = update (unpublished id) (set_published tx n at) t.events },
    )

-- A call that writes to the tables of events.
pub data Call : Type 0 where
  event : Texts → LocalEvent → Call
  claimed : String → ℕ → ℕ → Call
  prepared : AuditOutboxJob → PreparedHcsMessage → Call
  attempted : AuditOutboxJob → Call
  confirmed : AuditOutboxJob → String → ℕ → String → Call
  put_off : AuditOutboxJob → ℕ → Bool → Call
  marked : String → String → ℕ → String → Call

-- The events that are created are not published yet, as those of every caller are.
unfoldable pub step : Call → Db → Db
step (event t e) db = (create_event t (record e { published_at = none }) db).1
step (claimed token now lease_ms) db = (claim_due token now lease_ms db).1
step (prepared job p) db = (save_prepared job p db).1
step (attempted job) db = (mark_submission_attempted job db).1
step (confirmed job tx n at) db = (mark_published job tx n at db).1
step (put_off job next reset) db = (retry job next reset db).1
step (marked id tx n at) db = (mark_event_published id tx n at db).1

unfoldable pub run : List Call → Db → Db
run [] db = db
run (c ∷ cs) db = run cs (step c db)

step-IsOrdered : (c : Call) (db : Db) → IsOrdered db → IsOrdered (step c db)
unfolding step mark_submission_attempted retry mark_event_published
step-IsOrdered (event t e) db h =
    create_event-IsOrdered t (record e { published_at = none }) db refl h
step-IsOrdered (claimed token now lease_ms) db h = claim_due-IsOrdered token now lease_ms db h
step-IsOrdered (prepared job p) db h = save_prepared-IsOrdered job p db h
step-IsOrdered (attempted job) db h =
    mutate-IsOrdered job (λ r. record r { submission_attempted = true }) db (λ r. refl) (λ r. refl)
      h
step-IsOrdered (confirmed job tx n at) db h = mark_published-IsOrdered job tx n at db h
step-IsOrdered (put_off job next reset) db h =
    mutate-IsOrdered job (retry_row next reset) db (λ r. refl) (λ r. refl) h
step-IsOrdered (marked id tx n at) db h = mark_event_published-IsOrdered id tx n at db h

run-IsOrdered : (cs : List Call) (db : Db) → IsOrdered db → IsOrdered (run cs db)
unfolding run
run-IsOrdered [] db h = h
run-IsOrdered (c ∷ cs) db h = run-IsOrdered cs (step c db) (step-IsOrdered c db h)

abbrev pub find_outbox : String → Db → Option OutboxRow
find_outbox id db = select (has_key outbox_key id) db.outbox

-- In order, the earlier of two events of a mission is published if the later one is not pending.
earlier_published :
    (db : Db) {o r : OutboxRow} {a b : ℕ}
    → IsOrdered db
    → find_outbox o.event_id db ≡ some o
    → find_outbox r.event_id db ≡ some r
    → o.mission_id ≡ r.mission_id
    → seq_of db.events o.event_id ≡ some a
    → seq_of db.events r.event_id ≡ some b
    → a < b
    → is_pending r.status ≡ false
    → o.status ≡ published
earlier_published db {o} {r} h fo fr same sa sb lt active =
    elim (Bool-cases (is_published o.status)) [
      | inl t ↦ published_of o.status t
      | inr t ↦ cc (
        free,
        exists-found (waits_for db.events r) (has_key outbox_key o.event_id) db.outbox {r = o} fo
            (rw (sa, sb, t, same, eq_refl r.mission_id) (ground arith)),
      )
    ]
  where
    published_of : (s : OutboxStatus) → is_published s ≡ true → s ≡ published
    published_of pending t = cc
    published_of processing t = cc
    published_of published t = refl

    ordered : InOrder db.events db.outbox r
    ordered =
        All-select (InOrder db.events db.outbox) (has_key outbox_key r.event_id) db.outbox
          h.in_order fr

    free : blocked db.events db.outbox r ≡ false
    free = ground (arith, ordered)

-- Whatever workers do, in any order and with any leases, a worker never holds an event, and none is ever published,
-- while an earlier event of the same mission is unpublished.
pub published_in_order :
    (cs : List Call) {o r : OutboxRow} {a b : ℕ}
    → find_outbox o.event_id (run cs empty) ≡ some o
    → find_outbox r.event_id (run cs empty) ≡ some r
    → o.mission_id ≡ r.mission_id
    → seq_of (run cs empty).events o.event_id ≡ some a
    → seq_of (run cs empty).events r.event_id ≡ some b
    → a < b
    → is_pending r.status ≡ false
    → o.status ≡ published
published_in_order cs {o} {r} {a} {b} =
    earlier_published (run cs empty) {o = o} {r = r} {a = a} {b = b}
      (run-IsOrdered cs empty (record { keyed = tt; in_order = tt }))
