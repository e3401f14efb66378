-- ===== src/Signer/Store/Completion.antt =====
-- Completions in services/restricted-signer/src/store.ts: one accepted report for a mission, kept with
-- the callback's idempotency key.
use koven.Prelude.{String, Option, none, some, Bool, false, not, ◌∷◌, ◌==◌, if◌then◌else◌}
use koven.Domain.Errors.{Error, ErrorCode, signer_error, unique_constraint}
use koven.Exec.{Exec, ok, err, pure, gets, throw_if, modify, transaction, ◌>>=◌, ◌>>◌}
use koven.Sql.{select, exists, has_key}
use koven.Persistence.Db.{IdempotencyResult}
use koven.Persistence.Idempotency.{get_idempotency_result, create_idempotency_result}
use koven.Signer.Types.{StoredCompletion, SignerDb, on_db}
use koven.Signer.Store.Codes.{with_codes}

abbrev pub completion_key : StoredCompletion → String
completion_key r = r.mission_id

unfoldable pub get_completion : String → Exec SignerDb (Option StoredCompletion)
get_completion mission_id = gets λ s. select (has_key completion_key mission_id) s.completions

pub data Replay : Type 0 where
  duplicate new : Replay

pub data Outcome : Type 0 where
  accepted : Outcome
  duplicate : Outcome

idempotency_conflict : Error
idempotency_conflict = signer_error ErrorCode.idempotency_conflict

other_report : String → Option StoredCompletion → Bool
other_report report_sha256 none = false
other_report report_sha256 (some c) = not (c.report_sha256 == report_sha256)

replay_of : String → String → String → Option IdempotencyResult → Exec SignerDb Replay
unfolding get_completion other_report idempotency_conflict
replay_of mission_id report_sha256 request_hash (some existing) s = (
  if existing.request_hash == request_hash then ok Replay.duplicate else err idempotency_conflict,
  s,
)
replay_of mission_id report_sha256 request_hash none s =
    (do
      completion ← get_completion mission_id
      throw_if (other_report report_sha256 completion) idempotency_conflict
      pure Replay.new)
      s

unfoldable pub completion_replay : String → String → String → String → Exec SignerDb Replay
unfolding replay_of get_idempotency_result
completion_replay mission_id report_sha256 idempotency_key request_hash = do
  existing ← on_db (get_idempotency_result idempotency_key)
  replay_of mission_id report_sha256 request_hash existing

unfoldable pub insert_completion : StoredCompletion → Exec SignerDb (Unit {0})
insert_completion c = do
  throw_if (← gets λ s. exists (λ r. r.settlement_tx_id == c.settlement_tx_id) s.completions)
      unique_constraint
  modify λ s. record s { completions = c ∷ s.completions }

accept_completion :
    StoredCompletion → String → String → Option IdempotencyResult → Exec SignerDb Outcome
unfolding get_completion insert_completion create_idempotency_result idempotency_conflict
accept_completion c key request_hash (some existing) s = (
  if existing.request_hash == request_hash then ok Outcome.duplicate else err idempotency_conflict,
  s,
)
accept_completion c key request_hash none s =
    (do
      throw_if (← gets λ s. exists (has_key completion_key c.mission_id) s.completions)
          idempotency_conflict
      insert_completion c
      stored ← on_db (
          create_idempotency_result (record {
            key = key;
            request_hash = request_hash;
            status_code = 202;
            response = "{\"status\":\"accepted\"}";
            created_at = c.accepted_at;
          }))
      pure accepted)
      s

unfoldable pub record_completion : StoredCompletion → String → String → Exec SignerDb Outcome
unfolding accept_completion with_codes transaction get_idempotency_result
record_completion c idempotency_key request_hash = with_codes (
    transaction do
      existing ← on_db (get_idempotency_result idempotency_key)
      accept_completion c idempotency_key request_hash existing)
