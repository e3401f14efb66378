-- ===== src/Orchestrator/Completion.antt =====
-- apps/orchestrator/src/callbacks/completion.ts: the handler of a provider's completion callback. Schemas,
-- JSON and hashes are parameters, and the answers of the confirmer and of the signer are arguments, with
-- what others do to the tables while the handler waits for them.
pub mod Authentic
pub mod Recorded
pub mod Accepted
use koven.Prelude.{
  ℕ, ℤ, pos, ◌/◌, String, Option, none, some, Bool, true, false, not, ◌&&◌, ◌||◌, ◌==◌, is_none,
  ltb, if◌then◌else◌,
}
use Prim.Native.String.{◌++◌}
use koven.Domain.Mission.{
  MissionState, created, discovering_services, credit_requested, funded, payment_preparation,
  payment_authorized, service_paid, running, completed, same_state,
}
use koven.Domain.Scan.{ScanReport, UnsignedReport}
use koven.Domain.Errors.{
  Error, ErrorCode, completion_error, signer_error, credit_protocol_error,
  settlement_confirmation_error, persistence_conflict, PersistenceConflict, illegal_transition,
}
use koven.Exec.{
  Exec, Result, ok, err, pure, throw, throw_if, or_throw, lift, modify, catch, ◌>>=◌, ◌>>◌,
}
use koven.Signer.Complete.{
  RawCallback, CallbackHeaders, CallbackEnvelope, CompletionCallback, TransferExpectation,
  callback_clock_skew_seconds, distance,
}
use koven.Persistence.Db.{
  Db, PersistedMissionPolicy, MissionCompletion, IdempotencyResult, AuditEventType,
}
use koven.Persistence.Missions.{PersistedMission, get_mission}
use koven.Persistence.Idempotency.{get_idempotency_result, create_idempotency_result}
use koven.Persistence.Completions.{
  get_mission_policy, get_mission_completion, save_mission_completion,
}
use koven.Orchestrator.Machine.{Machine, TransitionAudit, transition, record_fact}

-- The handler's options, and the schemas, JSON and hashes that it calls. `hmac` is lower-case hexadecimal
-- text, as the schema asks of a signature.
pub record CompletionHandler (Json : Type 0) : Type 0 where
  pub machine : Machine
  pub secret_of : String → Option String
  pub parse_headers : RawCallback → Option CallbackHeaders
  pub number : String → ℕ
  pub parse_json : String → Option Json
  pub parse_envelope : Json → Option CallbackEnvelope
  pub parse_callback : Json → Option CompletionCallback
  pub hmac : String → String → String
  pub report_hash : UnsignedReport → String
  pub sha256_hex : String → String
  pub duplicate_payload : String → String → String
  pub received_payload : String → String → String
  pub accepted_body : String

-- `status` of `CallbackResponseSchema`.
pub data CallbackStatus : Type 0 where
  accepted duplicate : CallbackStatus

-- What one call meets: its time, which is that of all it writes, the answers, and the work of others while it waits for each of them.
pub record Arrival : Type 0 where
  pub now : ℕ
  pub now_text : String
  pub confirm : TransferExpectation → Result String
  pub while_confirming : Db → Db
  pub signer : Result (Unit {0})
  pub while_signing : Db → Db

abbrev pub fail : {A : Type 0} → ErrorCode → Exec Db A
fail code = throw (completion_error code)

abbrev pub fail_if : Bool → ErrorCode → Exec Db (Unit {0})
fail_if b code = throw_if b (completion_error code)

abbrev pub failing : {A : Type 0} → Option A → ErrorCode → Exec Db A
failing o code = or_throw o (completion_error code)

abbrev pub completion_conflict : Error
completion_conflict = persistence_conflict PersistenceConflict.idempotency_conflict

abbrev pub is_mismatch_code : ErrorCode → Bool
is_mismatch_code ErrorCode.funding_mismatch = true
is_mismatch_code _ = false

abbrev pub mismatch_or_unconfirmed : Bool → Error
mismatch_or_unconfirmed b =
    completion_error
      (if b then ErrorCode.report_binding_mismatch else ErrorCode.settlement_unconfirmed)

-- `settlementConfirmationError`, which looks at an error's `code`.
unfoldable pub confirmation_error : Error → Error
confirmation_error (completion_error code) = completion_error code
confirmation_error (signer_error code) = mismatch_or_unconfirmed (is_mismatch_code code)
confirmation_error (credit_protocol_error code) = mismatch_or_unconfirmed (is_mismatch_code code)
confirmation_error (settlement_confirmation_error code) =
    mismatch_or_unconfirmed (is_mismatch_code code)
confirmation_error _ = completion_error ErrorCode.settlement_unconfirmed

abbrev pub confirming : Result String → Result String
confirming (ok at) = ok at
confirming (err e) = err (confirmation_error e)

-- `signerCompletionError`
unfoldable pub signer_completion_error : ErrorCode → Error
signer_completion_error ErrorCode.callback_auth_invalid =
    completion_error ErrorCode.callback_auth_invalid
signer_completion_error ErrorCode.report_schema_invalid =
    completion_error ErrorCode.report_schema_invalid
signer_completion_error ErrorCode.report_binding_mismatch =
    completion_error ErrorCode.report_binding_mismatch
signer_completion_error ErrorCode.mission_policy_missing =
    completion_error ErrorCode.mission_policy_missing
signer_completion_error ErrorCode.funding_mismatch =
    completion_error ErrorCode.report_binding_mismatch
signer_completion_error _ = completion_error ErrorCode.settlement_unconfirmed

-- The states before `running`.
abbrev pub is_early : MissionState → Bool
is_early created = true
is_early discovering_services = true
is_early credit_requested = true
is_early funded = true
is_early payment_preparation = true
is_early payment_authorized = true
is_early service_paid = true
is_early _ = false

-- A callback that has been authenticated and parsed, with the policy that it is for.
pub record ReceivedCallback : Type 0 where
  pub policy : PersistedMissionPolicy
  pub key : String
  pub request_hash : String
  pub callback : CompletionCallback

-- What is written beside the transition.
unfoldable pub persist : MissionCompletion → IdempotencyResult → Exec Db (Unit {0})
persist completion result = do
  _ ← save_mission_completion completion
  _ ← create_idempotency_result result
  pure tt

module _ {Json : Type 0} (c : CompletionHandler Json) where
  abbrev pub envelope_key : CallbackEnvelope → String
  envelope_key e = "mission-complete:" ++ (e.mission_id ++ (":" ++ e.report_sha256))

  unfoldable pub completion_signature : String → String → String → String → String
  completion_signature secret timestamp key body =
      c.hmac secret (timestamp ++ ("." ++ (key ++ ("." ++ body))))

  unfoldable pub read_callback_headers : RawCallback → ℕ → Exec Db CallbackHeaders
  unfolding distance
  read_callback_headers raw now = do
    headers ← failing (c.parse_headers raw) ErrorCode.callback_auth_invalid
    fail_if (ltb callback_clock_skew_seconds (distance (now / 1000) (c.number headers.timestamp)))
        ErrorCode.callback_auth_invalid
    pure headers

  -- The policy of the mission, once the MAC of its provider has been verified.
  unfoldable pub authenticate_callback :
      RawCallback → CallbackHeaders → Json → Exec Db PersistedMissionPolicy
  unfolding completion_signature get_mission_policy
  authenticate_callback raw headers json = do
    envelope ← failing (c.parse_envelope json) ErrorCode.callback_auth_invalid
    fail_if (not (headers.idempotency_key == envelope_key envelope)) ErrorCode.callback_auth_invalid
    found ← get_mission_policy envelope.mission_id
    policy ← failing found ErrorCode.mission_policy_missing
    secret ← failing (c.secret_of policy.provider.id) ErrorCode.callback_auth_invalid
    fail_if
        (not (
          completion_signature secret headers.timestamp headers.idempotency_key raw.body
          == headers.signature))
        ErrorCode.callback_auth_invalid
    pure policy

  unfoldable pub read_callback : RawCallback → CallbackHeaders → Exec Db ReceivedCallback
  read_callback raw headers = do
    json ← failing (c.parse_json raw.body) ErrorCode.callback_auth_invalid
    policy ← authenticate_callback raw headers json
    callback ← failing (c.parse_callback json) ErrorCode.report_schema_invalid
    pure (record {
      policy = policy;
      key = headers.idempotency_key;
      request_hash = c.sha256_hex (headers.idempotency_key ++ ("." ++ raw.body));
      callback = callback;
    })

  abbrev pub is_other_report : ReceivedCallback → Bool
  is_other_report d =
      not (d.callback.report.mission_id == d.policy.mission_id)
      || not (d.callback.report.target_sha256 == d.policy.target_sha256)
      || not (d.callback.report.provider_id == d.policy.provider.id)
      || not (c.report_hash d.callback.report.unsigned == d.callback.report.report_sha256)

  abbrev pub duplicate_audit : ReceivedCallback → TransitionAudit
  duplicate_audit d = record {
    type_of = AuditEventType.callback_duplicate;
    payload = c.duplicate_payload d.callback.report.report_sha256 d.key;
    transaction_id = none;
  }

  -- `duplicate`
  unfoldable pub answer_duplicate : ReceivedCallback → String → Exec Db CallbackStatus
  answer_duplicate d now = do
    record_fact c.machine d.policy.mission_id (duplicate_audit d) now
    pure duplicate

  -- A mission that is not running.
  unfoldable pub refuse_state : MissionState → Error
  refuse_state state =
      if is_early state
      then completion_error ErrorCode.settlement_unconfirmed
      else illegal_transition state completed

  -- The checks of a first delivery, with its settlement.
  unfoldable pub check_first : ReceivedCallback → Exec Db String
  unfolding get_mission_completion get_mission
  check_first d = do
    fail_if (is_other_report d) ErrorCode.report_binding_mismatch
    settlement ← failing d.callback.outcome.settlement_tx_id ErrorCode.report_binding_mismatch
    other ← get_mission_completion d.policy.mission_id
    throw_if (not (is_none other)) completion_conflict
    found ← get_mission d.policy.mission_id
    mission ← failing found ErrorCode.mission_policy_missing
    throw_if (not (same_state mission.mission.state running)) (refuse_state mission.mission.state)
    pure settlement

  abbrev pub expected_transfer : ReceivedCallback → String → TransferExpectation
  expected_transfer d settlement = record {
    transaction_id = settlement;
    payer_account_id = d.policy.borrower_account_id;
    recipient_account_id = d.policy.provider.account_id;
    amount_tinybar = pos d.policy.provider.price_tinybar;
  }

  abbrev pub completion_row :
      RawCallback → ReceivedCallback → String → String → String → MissionCompletion
  completion_row raw d settlement settled_at now = record {
    mission_id = d.policy.mission_id;
    report_sha256 = d.callback.report.report_sha256;
    settlement_tx_id = settlement;
    settlement_payer_account_id = d.policy.borrower_account_id;
    settlement_recipient_account_id = d.policy.provider.account_id;
    settlement_asset = "0.0.0";
    settlement_amount_tinybar = d.policy.provider.price_tinybar;
    settlement_confirmed_at = settled_at;
    callback_body_sha256 = c.sha256_hex raw.body;
    accepted_at = now;
  }

  abbrev pub accepted_result : ReceivedCallback → String → IdempotencyResult
  accepted_result d now = record {
    key = d.key;
    request_hash = d.request_hash;
    status_code = 202;
    response = c.accepted_body;
    created_at = now;
  }

  abbrev pub received_audit : ReceivedCallback → String → TransitionAudit
  received_audit d settlement = record {
    type_of = AuditEventType.callback_received;
    payload = c.received_payload d.callback.report.report_sha256 settlement;
    transaction_id = some settlement;
  }

  unfoldable pub complete_mission :
      RawCallback → ReceivedCallback → String → String → String → Exec Db CallbackStatus
  complete_mission raw d settlement settled_at now = do
    _ ←
        transition c.machine d.policy.mission_id running completed (received_audit d settlement) now
          (persist (completion_row raw d settlement settled_at now) (accepted_result d now))
    pure accepted

  abbrev pub is_replay : ReceivedCallback → Option IdempotencyResult → Bool
  is_replay d none = false
  is_replay d (some r) = r.request_hash == d.request_hash

  -- The `catch`: another call has completed the mission with the same callback.
  unfoldable pub after_failure : ReceivedCallback → String → Error → Exec Db CallbackStatus
  unfolding get_idempotency_result
  after_failure d now e = do
    concurrent ← get_idempotency_result d.key
    if is_replay d concurrent then answer_duplicate d now else throw e

  unfoldable pub accept_first : RawCallback → Arrival → ReceivedCallback → Exec Db CallbackStatus
  accept_first raw x d = do
    settlement ← check_first d
    modify x.while_confirming
    settled_at ← lift (confirming (x.confirm (expected_transfer d settlement)))
    modify x.while_signing
    lift x.signer
    catch (complete_mission raw d settlement settled_at x.now_text) (after_failure d x.now_text)

  unfoldable pub after_lookup :
      RawCallback → Arrival → ReceivedCallback → Option IdempotencyResult → Exec Db CallbackStatus
  after_lookup raw x d none = accept_first raw x d
  after_lookup raw x d (some existing) =
      if existing.request_hash == d.request_hash
      then answer_duplicate d x.now_text
      else throw completion_conflict

  unfoldable pub accept_callback : RawCallback → Arrival → ReceivedCallback → Exec Db CallbackStatus
  unfolding get_idempotency_result
  accept_callback raw x d = do
    existing ← get_idempotency_result d.key
    after_lookup raw x d existing

  unfoldable pub receive : RawCallback → Arrival → Exec Db CallbackStatus
  receive raw x = do
    headers ← read_callback_headers raw x.now
    d ← read_callback raw headers
    accept_callback raw x d
