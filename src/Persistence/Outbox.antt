-- ===== src/Persistence/Outbox.antt =====
-- packages/persistence/src/audit-outbox.ts: the outbox that publishes the events of a mission in order.
pub mod Order
pub mod Append
pub mod History
use koven.Prelude.{
  ℕ, ◌+◌, suc, String, Option, none, some, Bool, true, false, not, List, [], ◌∷◌, ◌&&◌, ◌||◌, ◌==◌,
  eqb, ltb, leb, same_text, if◌then◌else◌,
}
use koven.Domain.Errors.{plain_error, constraint, unique_constraint}
use koven.Exec.{Exec, ok, gets, throw_if, modify, transaction, ◌>>=◌, ◌>>◌}
use koven.Sql.{select, exists, has_key, update, changes}
use koven.Persistence.Db.{
  Db, EventRow, OutboxRow, OutboxStatus, pending, processing, published, HcsEventEnvelope,
  PreparedHcsMessage,
}
use koven.Persistence.Events.{event_key, outbox_key, mark_event_published}

-- `AuditOutboxJob`
pub record AuditOutboxJob : Type 0 where
  pub event_id : String
  pub mission_id : String
  pub envelope : HcsEventEnvelope
  pub attempts : ℕ
  pub token : String
  pub prepared : Option PreparedHcsMessage
  pub submission_attempted : Bool

abbrev pub is_pending : OutboxStatus → Bool
is_pending pending = true
is_pending processing = false
is_pending published = false

abbrev pub is_processing : OutboxStatus → Bool
is_processing pending = false
is_processing processing = true
is_processing published = false

abbrev pub is_published : OutboxStatus → Bool
is_published pending = false
is_published processing = false
is_published published = true

abbrev pub seq_in : Option EventRow → Option ℕ
seq_in none = none
seq_in (some e) = some e.seq

-- `JOIN events AS event ON event.id = outbox.event_id`
abbrev pub seq_of : List EventRow → String → Option ℕ
seq_of es id = seq_in (select (has_key event_key id) es)

abbrev pub before : Option ℕ → Option ℕ → Bool
before none b = false
before (some a) none = false
before (some a) (some b) = ltb a b

-- An earlier event of the same mission that is not published.
abbrev pub waits_for : List EventRow → OutboxRow → OutboxRow → Bool
waits_for es row earlier =
    earlier.mission_id == row.mission_id
    && before (seq_of es earlier.event_id) (seq_of es row.event_id)
    && not (is_published earlier.status)

abbrev pub blocked : List EventRow → List OutboxRow → OutboxRow → Bool
blocked es os row = exists (waits_for es row) os

-- `COALESCE(lease_until, 0) <= now`
abbrev lease_over : ℕ → Option ℕ → Bool
lease_over now none = leb 0 now
lease_over now (some t) = leb t now

-- `status = 'pending' OR` the lease is over
abbrev pub claimable : ℕ → OutboxRow → Bool
claimable now r =
    not (is_published r.status) && (is_pending r.status || lease_over now r.lease_until)

abbrev has_seq : Option ℕ → Bool
has_seq none = false
has_seq (some n) = true

abbrev pub is_due : ℕ → Db → OutboxRow → Bool
is_due now db r =
    has_seq (seq_of db.events r.event_id)
    && leb r.next_attempt_at now
    && claimable now r
    && not (blocked db.events db.outbox r)

abbrev or_zero : Option ℕ → ℕ
or_zero none = 0
or_zero (some n) = n

abbrev earlier_of : (OutboxRow → ℕ) → OutboxRow → Option OutboxRow → OutboxRow
earlier_of w x none = x
earlier_of w x (some y) = if leb (w x) (w y) then x else y

-- `WHERE p ORDER BY w LIMIT 1`
unfoldable pub first_by : (OutboxRow → Bool) → (OutboxRow → ℕ) → List OutboxRow → Option OutboxRow
first_by p w [] = none
first_by p w (x ∷ xs) =
    let rest = first_by p w xs in if p x then some (earlier_of w x rest) else rest

abbrev pub lease : String → ℕ → OutboxRow → OutboxRow
lease token until r = record r {
  status = processing;
  lease_token = some token;
  lease_until = some until;
}

abbrev job_of_row : String → OutboxRow → AuditOutboxJob
job_of_row token r = record {
  event_id = r.event_id;
  mission_id = r.mission_id;
  envelope = r.envelope;
  attempts = r.attempts;
  token = token;
  prepared = r.prepared;
  submission_attempted = r.submission_attempted;
}

abbrev jobs : String → Option OutboxRow → Option AuditOutboxJob
jobs token none = none
jobs token (some r) = some (job_of_row token r)

claim : String → ℕ → ℕ → Option OutboxRow → Exec Db (Option AuditOutboxJob)
claim token now until none db = (ok none, db)
claim token now until (some candidate) db =
    let hit = λ (r : OutboxRow). has_key outbox_key candidate.event_id r && claimable now r in
    let outbox = update hit (lease token until) db.outbox in
    (
      ok (
          if eqb (changes hit db.outbox) 1
          then jobs token (select (has_key outbox_key candidate.event_id) outbox)
          else none),
      record db { outbox = outbox },
    )

claim_next : String → ℕ → ℕ → Exec Db (Option AuditOutboxJob)
unfolding first_by claim
claim_next token now lease_ms = do
  candidate ←
      gets λ db. first_by (is_due now db) (λ r. or_zero (seq_of db.events r.event_id)) db.outbox
  claim token now (now + lease_ms) candidate

-- `token` is the result of `randomUUID`.
unfoldable pub claim_due : String → ℕ → ℕ → Exec Db (Option AuditOutboxJob)
unfolding claim_next transaction
claim_due token now lease_ms = transaction (claim_next token now lease_ms)

-- `WHERE event_id = ? AND status = 'processing' AND lease_token = ?`
abbrev pub leased : AuditOutboxJob → OutboxRow → Bool
leased job r =
    has_key outbox_key job.event_id r
    && (is_processing r.status && same_text r.lease_token (some job.token))

abbrev is_prepared : String → Option PreparedHcsMessage → Bool
is_prepared tx none = false
is_prepared tx (some p) = p.transaction_id == tx

-- Another row has the transaction's id, which is unique.
abbrev transaction_taken : AuditOutboxJob → String → Db → Bool
transaction_taken job tx db =
    exists (leased job) db.outbox
    && exists (λ r. not (has_key outbox_key job.event_id r) && is_prepared tx r.prepared) db.outbox

-- An update of the leased row, which fails when the lease was lost.
mutate : AuditOutboxJob → (OutboxRow → OutboxRow) → Exec Db (Unit {0})
mutate job f = do
  n ← gets λ db. changes (leased job) db.outbox
  modify λ db. record db { outbox = update (leased job) f db.outbox }
  throw_if (not (eqb n 1)) plain_error

unfoldable pub save_prepared : AuditOutboxJob → PreparedHcsMessage → Exec Db (Unit {0})
unfolding mutate
save_prepared job p = do
  throw_if (← gets (transaction_taken job p.transaction_id)) unique_constraint
  mutate job (λ r. record r { prepared = some p })

unfoldable pub mark_submission_attempted : AuditOutboxJob → Exec Db (Unit {0})
unfolding mutate
mark_submission_attempted job = mutate job (λ r. record r { submission_attempted = true })

abbrev publish_prepared : String → Option PreparedHcsMessage → Option PreparedHcsMessage
publish_prepared tx none = none
publish_prepared tx (some p) = some (record p { transaction_id = tx })

-- The row of a published event.
abbrev pub publish_row : String → ℕ → String → OutboxRow → OutboxRow
publish_row tx n at r = record r {
  status = published;
  prepared = publish_prepared tx r.prepared;
  hcs_sequence_number = some n;
  published_at = some at;
  lease_token = none;
  lease_until = none;
}

-- The CHECKs on the row: a positive sequence number, and a transaction's id only beside its bytes.
abbrev unpublishable : ℕ → OutboxRow → Bool
unpublishable n r = eqb n 0 || no_message r.prepared
  where
    no_message : Option PreparedHcsMessage → Bool
    no_message none = true
    no_message (some p) = false

complete : AuditOutboxJob → String → ℕ → String → Exec Db (Unit {0})
unfolding mutate mark_event_published
complete job tx n at = do
  throw_if (← gets λ db. exists (λ r. leased job r && unpublishable n r) db.outbox) constraint
  throw_if (← gets (transaction_taken job tx)) unique_constraint
  mutate job (publish_row tx n at)
  done ← mark_event_published job.event_id tx n at
  throw_if (not done) plain_error

unfoldable pub mark_published : AuditOutboxJob → String → ℕ → String → Exec Db (Unit {0})
unfolding complete transaction
mark_published job tx n at = transaction (complete job tx n at)

abbrev pub retry_row : ℕ → Bool → OutboxRow → OutboxRow
retry_row next_attempt_at reset r = record r {
  status = pending;
  prepared = if reset then none else r.prepared;
  submission_attempted = if reset then false else r.submission_attempted;
  attempts = suc r.attempts;
  next_attempt_at = next_attempt_at;
  lease_token = none;
  lease_until = none;
}

unfoldable pub retry : AuditOutboxJob → ℕ → Bool → Exec Db (Unit {0})
unfolding mutate
retry job next_attempt_at reset_prepared = mutate job (retry_row next_attempt_at reset_prepared)

abbrev pub pending_count : Db → ℕ
pending_count db = changes (λ r. not (is_published r.status)) db.outbox
