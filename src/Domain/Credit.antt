-- ===== src/Domain/Credit.antt =====
-- packages/domain/src/credit.ts: the documents of a loan and the loan's states.
use koven.Prelude.{ℕ, ℤ, String, Bool, Option, eqb}

pub record UnsignedCreditRequest : Type 0 where
  pub id : String
  pub mission_id : String
  pub borrower_account_id : String
  pub principal_tinybar : ℤ
  pub requested_term_seconds : ℕ
  pub purpose_hash : String
  pub created_at : String

pub record CreditRequest : Type 0 where
  pub unsigned : UnsignedCreditRequest
  pub open unsigned use *
  pub signature : String

pub record UnsignedCreditOffer : Type 0 where
  pub id : String
  pub request_id : String
  pub lender_account_id : String
  pub principal_tinybar : ℤ
  pub fee_tinybar : ℤ
  pub term_seconds : ℕ
  pub expires_at : String
  pub terms_hash : String

pub record CreditOffer : Type 0 where
  pub unsigned : UnsignedCreditOffer
  pub open unsigned use *
  pub signature : String

pub record CreditAcceptance : Type 0 where
  pub request_id : String
  pub mission_id : String
  pub borrower_account_id : String
  pub lender_account_id : String
  pub offer_id : String
  pub terms_hash : String
  pub expires_at : String
  pub payment_intent_hash : Option String
  pub payment_proof_bundle_hash : Option String

pub data LoanState : Type 0 where
  offered accepted funded repaid defaulted : LoanState

pub record Loan : Type 0 where
  pub id : String
  pub offer_id : String
  pub mission_id : String
  pub lender_account_id : String
  pub principal_tinybar : ℤ
  pub fee_tinybar : ℤ
  pub state : LoanState
  pub funding_tx_id : Option String
  pub repayment_tx_id : Option String

-- The place of a state in `LOAN_STATES`, by which two states are compared.
abbrev position : LoanState → ℕ
position offered = 0
position accepted = 1
position funded = 2
position repaid = 3
position defaulted = 4

abbrev pub same_loan_state : LoanState → LoanState → Bool
same_loan_state s t = eqb (position s) (position t)
