-- ===== src/Persistence/Db.antt =====
-- packages/persistence/src/db.ts and migrations.ts: the tables, one record for a row, and the amounts
-- in them. An amount is stored as its canonical decimal text; a column here holds the number.
use koven.Prelude.{ℕ, ℤ, pos, negsuc, String, Option, Bool, List, [], leb, if◌then◌else◌}
use koven.Domain.Mission.{MissionState}
use koven.Domain.Credit.{LoanState}
use koven.Domain.Provider.{Provider}
use koven.Domain.Errors.{range_error}
use koven.Exec.{Result, ok, err}

pub record SessionRow : Type 0 where
  pub id : String
  pub spending_cap : ℕ
  pub spent : ℕ

pub record MissionRow : Type 0 where
  pub id : String
  pub state : MissionState
  pub spending_cap : ℕ
  pub spent : ℕ
  pub approved_recipients_root : String
  pub target_ref : String
  pub target_sha256 : String
  pub session_id : Option String
  pub created_at : String
  pub updated_at : String

pub record LoanRow : Type 0 where
  pub id : String
  pub offer_id : String
  pub mission_id : String
  pub lender_account_id : String
  pub principal : ℕ
  pub fee : ℕ
  pub state : LoanState
  pub funding_tx_id : Option String
  pub repayment_tx_id : Option String

pub record IdempotencyResult : Type 0 where
  pub key : String
  pub request_hash : String
  pub status_code : ℕ
  pub response : String
  pub created_at : String

pub record NonceRow : Type 0 where
  pub mission_id : String
  pub nonce : String
  pub payment_commitment : String
  pub amount : ℕ
  pub consumed_at : String

-- `AUDIT_EVENT_TYPES` of packages/audit/src/index.ts.
pub data AuditEventType : Type 0 where
  mission_created providers_ranked credit_requested offers_received : AuditEventType
  offer_accepted loan_funded proof_generated payment_authorized : AuditEventType
  payment_rejected x402_settled report_received callback_received : AuditEventType
  callback_duplicate mission_completed mission_failed repayment_settled : AuditEventType
  repayment_idempotency_hit : AuditEventType

-- `HcsEventEnvelope` of packages/audit/src/index.ts, but for its version, which is always 1.
pub record HcsEventEnvelope : Type 0 where
  pub event_id : String
  pub mission_id : String
  pub type_of : AuditEventType
  pub payload_hash : String
  pub transaction_id : Option String
  pub occurred_at : String

pub record EventRow : Type 0 where
  pub seq : ℕ
  pub id : String
  pub mission_id : String
  pub type_of : AuditEventType
  pub payload_hash : String
  pub payload_json : String
  pub transaction_id : Option String
  pub occurred_at : String
  pub published_at : Option String
  pub hcs_transaction_id : Option String
  pub hcs_sequence_number : Option ℕ

pub data OutboxStatus : Type 0 where
  pending processing published : OutboxStatus

-- The columns `last_error`, `created_at` and `updated_at`, which no code reads, are left out, and the
-- three columns of a prepared message, which a CHECK keeps NULL together, are one.
pub record PreparedHcsMessage : Type 0 where
  pub transaction_id : String
  pub transaction_base64 : String
  pub valid_until : ℕ

pub record OutboxRow : Type 0 where
  pub event_id : String
  pub mission_id : String
  pub envelope : HcsEventEnvelope
  pub status : OutboxStatus
  pub attempts : ℕ
  pub next_attempt_at : ℕ
  pub lease_token : Option String
  pub lease_until : Option ℕ
  pub prepared : Option PreparedHcsMessage
  pub submission_attempted : Bool
  pub hcs_sequence_number : Option ℕ
  pub published_at : Option String

-- `PersistedMissionPolicy`, the row of `mission_policies`.
pub record PersistedMissionPolicy : Type 0 where
  pub mission_id : String
  pub borrower_account_id : String
  pub spending_cap_tinybar : ℕ
  pub session_id : String
  pub session_cap_tinybar : ℕ
  pub target_sha256 : String
  pub provider : Provider
  pub approved_recipients_root : String
  pub created_at : String

-- `MissionCompletion`, the row of `mission_completions`.
pub record MissionCompletion : Type 0 where
  pub mission_id : String
  pub report_sha256 : String
  pub settlement_tx_id : String
  pub settlement_payer_account_id : String
  pub settlement_recipient_account_id : String
  pub settlement_asset : String
  pub settlement_amount_tinybar : ℕ
  pub settlement_confirmed_at : String
  pub callback_body_sha256 : String
  pub accepted_at : String

pub record Db : Type 0 where
  pub sessions : List SessionRow
  pub missions : List MissionRow
  pub loans : List LoanRow
  pub idempotency_results : List IdempotencyResult
  pub nonces : List NonceRow
  pub events : List EventRow
  pub outbox : List OutboxRow
  pub mission_policies : List PersistedMissionPolicy
  pub mission_completions : List MissionCompletion

-- A database after its migrations.
abbrev pub empty : Db
empty = record {
  sessions = [];
  missions = [];
  loans = [];
  idempotency_results = [];
  nonces = [];
  events = [];
  outbox = [];
  mission_policies = [];
  mission_completions = [];
}

abbrev pub max_tinybar : ℕ
max_tinybar = 18446744073709551615

-- `tinybarToText`: the range check of a write.
abbrev pub tinybar_to_text : ℤ → Result ℕ
tinybar_to_text (pos n) = if leb n max_tinybar then ok n else err range_error
tinybar_to_text (negsuc n) = err range_error

-- `tinybarFromText`: the range check of a read.
abbrev pub tinybar_from_text : ℕ → Result ℤ
tinybar_from_text n = if leb n max_tinybar then ok (pos n) else err range_error
