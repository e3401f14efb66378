-- ===== src/Signer/Complete.antt =====
-- services/restricted-signer/src/completion.ts: the check of a provider's callback, before a mission may
-- be repaid. Schemas, JSON and hashes are parameters; the ledger's answer is an argument of the call.
pub mod Delivered
pub mod Atomic
use koven.Prelude.{
  ℕ, ℤ, pos, ◌-◌, ◌/◌, String, Option, none, some, Bool, not, ◌==◌, ◌||◌, ltb, if◌then◌else◌,
}
use Prim.Native.String.{◌++◌}
use koven.Domain.Scan.{UnsignedReport, ScanReport, MissionOutcome}
use koven.Domain.Errors.{Error, ErrorCode, signer_error}
use koven.Exec.{Exec, Result, ok, err, pure, throw, lift, throw_if, or_throw, ◌>>=◌, ◌>>◌}
use koven.Signer.Types.{MissionPolicy, StoredAuthorization, StoredCompletion, SignerDb}
use koven.Signer.Store.Policy.{get_mission_policy}
use koven.Signer.Store.Authorization.{get_authorization_by_transaction_id}
use koven.Signer.Store.Completion.{Replay, Outcome, duplicate, completion_replay, record_completion}

-- In seconds.
abbrev pub callback_clock_skew_seconds : ℕ
callback_clock_skew_seconds = 300

pub record RawCallback : Type 0 where
  pub body : String
  pub idempotency_key : Option String
  pub timestamp : Option String
  pub signature : Option String

pub record CallbackHeaders : Type 0 where
  pub idempotency_key : String
  pub timestamp : String
  pub signature : String

pub record CallbackEnvelope : Type 0 where
  pub mission_id : String
  pub report_sha256 : String

pub record CompletionCallback : Type 0 where
  pub outcome : MissionOutcome
  pub report : ScanReport

-- `TransferExpectation`
pub record TransferExpectation : Type 0 where
  pub transaction_id : String
  pub payer_account_id : String
  pub recipient_account_id : String
  pub amount_tinybar : ℤ

-- The service's options, and the schemas, JSON and hashes that it calls. `hmac` is lower-case hexadecimal
-- text, as the schema asks of a signature, so that their bytes are equal when the texts are.
pub record CompletionService (Json : Type 0) : Type 0 where
  pub account_id : String
  pub secret_of : String → Option String
  pub parse_headers : RawCallback → Option CallbackHeaders
  pub number : String → ℕ
  pub parse_json : String → Option Json
  pub parse_envelope : Json → Option CallbackEnvelope
  pub parse_callback : Json → Option CompletionCallback
  pub hmac : String → String → String
  pub report_hash : UnsignedReport → String
  pub sha256_hex : String → String
  pub iso : ℕ → String

unfoldable pub distance : ℕ → ℕ → ℕ
distance a b = if ltb a b then b - a else a - b

abbrev pub failing : {A : Type 0} → Option A → ErrorCode → Exec SignerDb A
failing o code = or_throw o (signer_error code)

abbrev pub fail_if : Bool → ErrorCode → Exec SignerDb (Unit {0})
fail_if b code = throw_if b (signer_error code)

-- The callback's provider, what it says, and the authorization of its settlement.
pub record Delivery : Type 0 where
  pub policy : MissionPolicy
  pub report : ScanReport
  pub settlement_tx_id : String
  pub authorization : StoredAuthorization

module _ {Json : Type 0} (c : CompletionService Json) where
  unfoldable pub callback_signature : String → String → String → String → String
  callback_signature secret timestamp idempotency_key body =
      c.hmac secret (timestamp ++ ("." ++ (idempotency_key ++ ("." ++ body))))

  abbrev pub envelope_key : CallbackEnvelope → String
  envelope_key e = "mission-complete:" ++ (e.mission_id ++ (":" ++ e.report_sha256))

  unfoldable pub read_headers : RawCallback → ℕ → Exec SignerDb CallbackHeaders
  unfolding distance
  read_headers raw now = do
    headers ← failing (c.parse_headers raw) ErrorCode.callback_auth_invalid
    fail_if (ltb callback_clock_skew_seconds (distance (now / 1000) (c.number headers.timestamp)))
        ErrorCode.callback_auth_invalid
    pure headers

  -- The mission's policy, once the MAC of its provider has been verified.
  unfoldable pub authenticate : RawCallback → CallbackHeaders → Json → Exec SignerDb MissionPolicy
  unfolding callback_signature get_mission_policy
  authenticate raw headers json = do
    envelope ← failing (c.parse_envelope json) ErrorCode.callback_auth_invalid
    fail_if (not (headers.idempotency_key == envelope_key envelope)) ErrorCode.callback_auth_invalid
    found ← get_mission_policy envelope.mission_id
    policy ← failing found ErrorCode.mission_policy_missing
    secret ← failing (c.secret_of policy.provider.id) ErrorCode.callback_auth_invalid
    fail_if
        (not (
          callback_signature secret headers.timestamp headers.idempotency_key raw.body
          == headers.signature))
        ErrorCode.callback_auth_invalid
    pure policy

  abbrev pub is_foreign : ScanReport → MissionPolicy → Bool
  is_foreign report policy =
      not (report.provider_id == policy.provider.id)
      || not (report.mission_id == policy.mission_id)
      || not (report.target_sha256 == policy.target_sha256)
      || not (c.report_hash report.unsigned == report.report_sha256)

  -- The report's binding to the policy, and the settlement's authorization.
  unfoldable pub bind_report : MissionPolicy → Json → Exec SignerDb Delivery
  unfolding get_authorization_by_transaction_id
  bind_report policy json = do
    callback ← failing (c.parse_callback json) ErrorCode.report_schema_invalid
    fail_if (is_foreign callback.report policy) ErrorCode.report_binding_mismatch
    settlement ← failing callback.outcome.settlement_tx_id ErrorCode.report_binding_mismatch
    found ← get_authorization_by_transaction_id settlement
    authorization ← failing found ErrorCode.report_binding_mismatch
    fail_if (not (authorization.mission_id == policy.mission_id)) ErrorCode.report_binding_mismatch
    pure (record {
      policy = policy;
      report = callback.report;
      settlement_tx_id = settlement;
      authorization = authorization;
    })

  abbrev pub expectation : Delivery → TransferExpectation
  expectation d = record {
    transaction_id = d.settlement_tx_id;
    payer_account_id = c.account_id;
    recipient_account_id = d.policy.provider.account_id;
    amount_tinybar = pos d.authorization.authorization.amount_tinybar;
  }

  abbrev pub completion_of : Delivery → ℕ → StoredCompletion
  completion_of d now = record {
    mission_id = d.policy.mission_id;
    report_sha256 = d.report.report_sha256;
    settlement_tx_id = d.settlement_tx_id;
    accepted_at = c.iso now;
  }

  -- A first delivery consults the ledger.
  unfoldable pub finish_delivery :
      (TransferExpectation → Result (Unit {0}))
      → Delivery
      → String
      → String
      → ℕ
      → Replay
      → Exec SignerDb Outcome
  unfolding record_completion
  finish_delivery confirm d key request_hash now Replay.duplicate = pure duplicate
  finish_delivery confirm d key request_hash now Replay.new = do
    confirmed ← lift (confirm (expectation d))
    record_completion (completion_of d now) key request_hash

  unfoldable pub accept_delivery :
      (TransferExpectation → Result (Unit {0}))
      → RawCallback
      → CallbackHeaders
      → ℕ
      → Delivery
      → Exec SignerDb Outcome
  unfolding finish_delivery completion_replay
  accept_delivery confirm raw headers now d =
      let request_hash = c.sha256_hex (headers.idempotency_key ++ ("." ++ raw.body)) in
      do
        replay ←
            completion_replay d.policy.mission_id d.report.report_sha256 headers.idempotency_key
              request_hash
        finish_delivery confirm d headers.idempotency_key request_hash now replay

  -- Everything that comes before the store is asked for a replay.
  unfoldable pub read_delivery : RawCallback → CallbackHeaders → Exec SignerDb Delivery
  unfolding authenticate bind_report
  read_delivery raw headers = do
    json ← failing (c.parse_json raw.body) ErrorCode.callback_auth_invalid
    policy ← authenticate raw headers json
    bind_report policy json

  unfoldable pub complete :
      (TransferExpectation → Result (Unit {0})) → RawCallback → ℕ → Exec SignerDb Outcome
  unfolding read_headers read_delivery accept_delivery
  complete confirm raw now = do
    headers ← read_headers raw now
    delivery ← read_delivery raw headers
    accept_delivery confirm raw headers now delivery
