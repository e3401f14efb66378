-- ===== src/Persistence/Events.antt =====
-- packages/persistence/src/events.ts and packages/audit/src/hash.ts: an event and its row in the outbox,
-- in one transaction.
use koven.Prelude.{
  ℕ, suc, String, Option, none, some, Bool, false, not, List, [], ◌∷◌, ◌&&◌, ◌||◌, eqb, ltb, leb,
  is_none, if◌then◌else◌,
}
use koven.Domain.Errors.{constraint, Error, persistence_conflict, PersistenceConflict, plain_error}
use koven.Exec.{Exec, ok, gets, or_throw, throw_if, modify, transaction, ◌>>=◌, ◌>>◌}
use koven.Sql.{exists, has_key, update, changes}
use koven.Persistence.Db.{
  Db, EventRow, OutboxRow, pending, published, AuditEventType, HcsEventEnvelope,
}

-- `LocalEvent`; the payload is its JSON text.
pub record LocalEvent : Type 0 where
  pub id : String
  pub mission_id : String
  pub type_of : AuditEventType
  pub payload_hash : String
  pub payload : String
  pub transaction_id : Option String
  pub occurred_at : String
  pub published_at : Option String

-- What the code asks of texts: the expression `SHA256_HEX`, the length in bytes of the JSON of an
-- envelope, and `Date.parse` of a time from 1970 on, in milliseconds.
pub record Texts : Type 0 where
  pub is_sha256_hex : String → Bool
  pub json_bytes : HcsEventEnvelope → ℕ
  pub parse_date : String → Option ℕ

abbrev pub event_key : EventRow → String
event_key r = r.id

abbrev pub outbox_key : OutboxRow → String
outbox_key r = r.event_id

abbrev pub build_hcs_envelope : LocalEvent → HcsEventEnvelope
build_hcs_envelope e = record {
  event_id = e.id;
  mission_id = e.mission_id;
  type_of = e.type_of;
  payload_hash = e.payload_hash;
  transaction_id = e.transaction_id;
  occurred_at = e.occurred_at;
}

-- `AUTOINCREMENT`: the largest number so far.
abbrev pub last_seq : List EventRow → ℕ
last_seq [] = 0
last_seq (e ∷ es) = let rest = last_seq es in if leb e.seq rest then rest else e.seq

abbrev pub event_row : LocalEvent → ℕ → EventRow
event_row e seq = record {
  seq = seq;
  id = e.id;
  mission_id = e.mission_id;
  type_of = e.type_of;
  payload_hash = e.payload_hash;
  payload_json = e.payload;
  transaction_id = e.transaction_id;
  occurred_at = e.occurred_at;
  published_at = e.published_at;
  hcs_transaction_id = none;
  hcs_sequence_number = none;
}

abbrev pub outbox_row : LocalEvent → ℕ → OutboxRow
outbox_row e now = record {
  event_id = e.id;
  mission_id = e.mission_id;
  envelope = build_hcs_envelope e;
  status = if is_none e.published_at then pending else published;
  attempts = 0;
  next_attempt_at = now;
  lease_token = none;
  lease_until = none;
  prepared = none;
  submission_attempted = false;
  hcs_sequence_number = none;
  published_at = none;
}

abbrev already_there : Error
already_there = persistence_conflict PersistenceConflict.event_already_exists

insert_event : LocalEvent → ℕ → Exec Db (Unit {0})
insert_event e now = do
  throw_if (← gets λ db. exists (has_key event_key e.id) db.events) already_there
  modify λ db. record db { events = event_row e (suc (last_seq db.events)) ∷ db.events }
  throw_if (← gets λ db. exists (has_key outbox_key e.id) db.outbox) already_there
  modify λ db. record db { outbox = outbox_row e now ∷ db.outbox }

unfoldable pub create_event : Texts → LocalEvent → Exec Db (Unit {0})
unfolding insert_event transaction
create_event t e = do
  throw_if (not (t.is_sha256_hex e.payload_hash)) plain_error
  throw_if (let n = t.json_bytes (build_hcs_envelope e) in ltb n 1 || ltb 1024 n) plain_error
  now ← or_throw (t.parse_date e.occurred_at) plain_error
  transaction (insert_event e now)

abbrev pub set_published : String → ℕ → String → EventRow → EventRow
set_published tx n at r = record r {
  hcs_transaction_id = some tx;
  hcs_sequence_number = some n;
  published_at = some at;
}

-- `WHERE id = ? AND published_at IS NULL`
abbrev pub unpublished : String → EventRow → Bool
unpublished id r = has_key event_key id r && is_none r.published_at

-- `CHECK (hcs_sequence_number GLOB '[1-9]*' ...)` on the row that would be changed.
abbrev pub is_refused : String → ℕ → Db → Bool
is_refused id n db = eqb n 0 && exists (unpublished id) db.events

unfoldable pub mark_event_published : String → String → ℕ → String → Exec Db Bool
mark_event_published id tx n at = do
  throw_if (← gets (is_refused id n)) constraint
  (λ db. (
    ok (eqb (changes (unpublished id) db.events) 1),
    record db { events = update (unpublished id) (set_published tx n at) db.events },
  ))
