-- ===== src/Provider/Types.antt =====
-- The rows of services/resource-server/src/outbox.ts and the types in them. A column that holds
-- canonical JSON is kept as the value, so that reading a row back gives what was written.
use koven.Prelude.{ℕ, String, Option, Bool, true, false, List, []}
use koven.Domain.Errors.{Error, ErrorCode, provider_store_error}
use koven.Domain.Scan.{ScanReport}
use koven.Signer.Types.{WireAuthorization}

-- `PaidScanRequestSchema`
pub record PaidScanRequest : Type 0 where
  pub mission_id : String
  pub target_ref : String
  pub source : String
  pub target_sha256 : String
  pub payment_authorization : WireAuthorization

-- What an x402 payment has accepted, of `PaymentPayload.accepted`; an amount is canonical decimal text
-- or none of the number's.
pub record Accepted : Type 0 where
  pub scheme : String
  pub network : String
  pub asset : String
  pub amount : Option ℕ
  pub pay_to : String
  pub max_timeout_seconds : ℕ
  pub fee_payer : Option String

-- `PaymentPayload` of the x402 library; `transaction` is there where it is a text.
pub record PaymentPayload : Type 0 where
  pub x402_version : ℕ
  pub accepted : Accepted
  pub resource_url : Option String
  pub transaction : Option String

-- `PaymentPolicySnapshot`
pub record PolicySnapshot : Type 0 where
  pub provider_account_id : String
  pub scan_url : String
  pub amount_tinybar : ℕ
  pub network : String
  pub asset : String
  pub fee_payer_account_id : String

-- `ValidatedPaymentAttempt`
pub record Attempt : Type 0 where
  pub request : PaidScanRequest
  pub authorization : WireAuthorization
  pub payment_payload : PaymentPayload
  pub transaction_base64 : String
  pub fingerprint : String
  pub authorization_expired : Bool
  pub transaction_valid_until : ℕ
  pub policy : PolicySnapshot

-- `SettleResponse` of the x402 library, with the fields that the code reads. Its amount is a text.
pub record SettleResponse : Type 0 where
  pub success : Bool
  pub payer : Option String
  pub transaction : String
  pub network : String
  pub amount : Option String

pub data PaymentStatus : Type 0 where
  claimed report_ready settled completed settlement_failed : PaymentStatus

-- A row of `provider_paid_scans`, which is `StoredPayment`. All rows have one network.
pub record StoredPayment : Type 0 where
  pub transaction_id : String
  pub fingerprint : String
  pub request : PaidScanRequest
  pub payment_payload : PaymentPayload
  pub status : PaymentStatus
  pub settlement_attempted : Bool
  pub report : Option ScanReport
  pub settlement : Option SettleResponse
  pub response_header : Option String
  pub lease_token : Option String
  pub lease_until : Option ℕ
  pub valid_until : ℕ
  pub policy : PolicySnapshot
  pub updated_at : ℕ

pub data JobStatus : Type 0 where
  pending processing delivered failed repair : JobStatus

-- A row of `provider_callback_jobs`.
pub record JobRow : Type 0 where
  pub idempotency_key : String
  pub transaction_id : String
  pub body : String
  pub body_sha256 : String
  pub status : JobStatus
  pub attempts : ℕ
  pub next_attempt_at : ℕ
  pub lease_token : Option String
  pub lease_until : Option ℕ
  pub created_at : ℕ

pub record ProviderDb : Type 0 where
  pub payments : List StoredPayment
  pub jobs : List JobRow

abbrev pub empty : ProviderDb
empty = record { payments = []; jobs = [] }

-- The network of the table's rows.
abbrev pub hedera_testnet : String
hedera_testnet = "hedera:testnet"

abbrev pub is_claimed : PaymentStatus → Bool
is_claimed claimed = true
is_claimed _ = false

abbrev pub is_report_ready : PaymentStatus → Bool
is_report_ready report_ready = true
is_report_ready _ = false

abbrev pub is_settled : PaymentStatus → Bool
is_settled settled = true
is_settled _ = false

abbrev pub is_completed : PaymentStatus → Bool
is_completed completed = true
is_completed _ = false

abbrev pub is_failed : PaymentStatus → Bool
is_failed settlement_failed = true
is_failed _ = false

-- The errors of `ProviderStoreError`.
abbrev pub store_error : Error
store_error = provider_store_error ErrorCode.internal_error

abbrev pub store_conflict : Error
store_conflict = provider_store_error ErrorCode.idempotency_conflict
