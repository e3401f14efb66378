-- ===== src/Signer/Types.antt =====
-- The rows of the signer's own tables (services/restricted-signer/src/store.ts) and the wire types in
-- them (packages/schemas/src). A payload that a column holds as canonical JSON is kept as the value.
use koven.Prelude.{ℕ, String, Option, List, []}
use koven.Domain.Credit.{UnsignedCreditRequest, CreditOffer, CreditAcceptance}
pub use koven.Domain.Provider.{Provider}
use koven.Exec.{Exec, Result}
use koven.Persistence.Db
use koven.Persistence.Db.{Db}

-- `MissionPolicyRequestSchema`
pub record MissionPolicy : Type 0 where
  pub mission_id : String
  pub borrower_account_id : String
  pub spending_cap_tinybar : ℕ
  pub session_id : String
  pub session_cap_tinybar : ℕ
  pub target_sha256 : String
  pub provider : Provider
  pub approved_recipients_root : String

-- `ScanPaymentAuthorizationSchema`
pub record WireAuthorization : Type 0 where
  pub mission_id : String
  pub target_sha256 : String
  pub transaction_sha256 : String
  pub transaction_id : String
  pub borrower_account_id : String
  pub provider_account_id : String
  pub scan_url : String
  pub amount_tinybar : ℕ
  pub network : String
  pub asset : String
  pub nonce : String
  pub expires_at : String
  pub signature : String

pub record PolicyRow : Type 0 where
  pub mission_id : String
  pub content_hash : String
  pub policy : MissionPolicy
  pub created_at : String

pub record StoredAuthorization : Type 0 where
  pub mission_id : String
  pub nonce : String
  pub commitment : String
  pub transaction_base64 : String
  pub authorization : WireAuthorization
  pub valid_until : ℕ

pub record StoredCreditRequest : Type 0 where
  pub request : UnsignedCreditRequest
  pub signature : String

pub record StoredAcceptance : Type 0 where
  pub acceptance : CreditAcceptance
  pub signature : String
  pub offer : CreditOffer

pub record StoredCompletion : Type 0 where
  pub mission_id : String
  pub report_sha256 : String
  pub settlement_tx_id : String
  pub accepted_at : String

pub data RepaymentStatus : Type 0 where
  pending confirmed failed : RepaymentStatus

pub record StoredRepayment : Type 0 where
  pub loan_id : String
  pub transaction_id : String
  pub transaction_base64 : String
  pub valid_until : ℕ
  pub status : RepaymentStatus
  pub attempts : ℕ
  pub last_error : Option String

-- The signer's database: the shared tables and its own.
pub record SignerDb : Type 0 where
  pub db : Db
  pub policies : List PolicyRow
  pub authorizations : List StoredAuthorization
  pub credit_requests : List StoredCreditRequest
  pub acceptances : List StoredAcceptance
  pub completions : List StoredCompletion
  pub repayments : List StoredRepayment

abbrev pub empty : SignerDb
empty = record {
  db = Db.empty;
  policies = [];
  authorizations = [];
  credit_requests = [];
  acceptances = [];
  completions = [];
  repayments = [];
}

abbrev put_back : {A : Type 0} → SignerDb → Result A × Db → Result A × SignerDb
put_back s (r, db) = (r, record s { db = db })

-- A function of packages/persistence on the signer's database.
abbrev pub on_db : {A : Type 0} → Exec Db A → Exec SignerDb A
on_db m s = put_back s (m s.db)
