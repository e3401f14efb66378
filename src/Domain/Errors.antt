-- ===== src/Domain/Errors.antt =====
-- packages/domain/src/errors.ts, the conflicts of packages/persistence/src/db.ts, and the errors that
-- the modelled code throws, as values. Messages are not modelled.
use koven.Domain.Mission.{MissionState}

-- `ErrorCode`.
pub data ErrorCode : Type 0 where
  proof_invalid proof_vkey_mismatch circuit_id_mismatch challenge_binding_mismatch : ErrorCode
  recipient_not_approved cap_exceeded cumulative_budget_exceeded nonce_already_used : ErrorCode
  offer_expired offer_signature_invalid callback_duplicate callback_auth_invalid : ErrorCode
  illegal_state_transition report_schema_invalid report_binding_mismatch : ErrorCode
  request_invalid auth_invalid credit_request_signature_invalid : ErrorCode
  credit_acceptance_invalid credit_acceptance_conflict loan_registration_conflict : ErrorCode
  loan_not_funded mission_not_repayable source_hash_mismatch source_too_large : ErrorCode
  settlement_unconfirmed funding_mismatch idempotency_conflict : ErrorCode
  mission_policy_conflict payment_authorization_invalid : ErrorCode
  payment_authorization_mismatch mission_policy_missing mission_policy_mismatch : ErrorCode
  not_found internal_error : ErrorCode

-- `PersistenceConflict`: codes of its own, and some of `ErrorCode`.
pub data PersistenceConflict : Type 0 where
  cap_exceeded cumulative_budget_exceeded idempotency_conflict nonce_already_used :
      PersistenceConflict
  loan_registration_conflict concurrent_update : PersistenceConflict
  payment_commitment_already_used entity_already_exists event_already_exists : PersistenceConflict
  repayment_transaction_conflict mission_policy_conflict : PersistenceConflict

-- What `PersistenceNotFoundError` looked for.
pub data Entity : Type 0 where
  mission session : Entity

-- What a call may throw. `constraint` is SQLite's own error for a constraint other than uniqueness
-- (a foreign key), `zod_error` a schema that refused its input, `challenge_rejected` is `ChallengeRejectedError`,
-- and `unique_constraint` SQLite's error where no caller translates it.
pub data Error : Type 0 where
  persistence_conflict : PersistenceConflict → Error
  persistence_not_found : Entity → Error
  illegal_transition : MissionState → MissionState → Error
  signer_error : ErrorCode → Error
  credit_protocol_error : ErrorCode → Error
  provider_store_error payment_authorization_error : ErrorCode → Error
  settlement_confirmation_error scan_service_error completion_error repayment_error :
      ErrorCode → Error
  range_error zod_error plain_error constraint unique_constraint challenge_rejected : Error
