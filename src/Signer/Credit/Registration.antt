-- ===== src/Signer/Credit/Registration.antt =====
-- `registerLoan` of services/restricted-signer/src/credit.ts.
use koven.Prelude.{String, Option, none, some, Bool, true, not, ◌==◌, ◌||◌}
use koven.Domain.Credit.{CreditRequest, Loan, LoanState}
use koven.Domain.Errors.{ErrorCode, zod_error}
use koven.Exec.{Exec, Result, pure, lift, throw_if, ◌>>=◌, ◌>>◌}
use koven.Signer.Types.{StoredCreditRequest, StoredAcceptance, SignerDb}
use koven.Signer.Complete.{TransferExpectation, fail_if}
use koven.Signer.Store.Credit.{get_credit_request, get_acceptance}
use koven.Signer.Store.Loan.{register_funded_loan}
use koven.Signer.Credit.{RegistrationRequest, CreditService, check_signature}

module _ {Key : Type 0} (c : CreditService Key) where
  abbrev pub is_other_request : CreditRequest → Option StoredCreditRequest → Bool
  is_other_request request none = true
  is_other_request request (some r) =
      not (c.request_json request.unsigned == c.request_json r.request)
      || not (request.signature == r.signature)

  abbrev pub is_other_acceptance : RegistrationRequest → Option StoredAcceptance → Bool
  is_other_acceptance body none = true
  is_other_acceptance body (some a) =
      not (c.acceptance_json body.acceptance == c.acceptance_json a.acceptance)
      || not (body.acceptance_signature == a.signature)
      || not (c.offer_json body.offer == c.offer_json a.offer)

  unfoldable pub check_documents : String → RegistrationRequest → Exec SignerDb (Unit {0})
  unfolding check_signature get_credit_request get_acceptance
  check_documents lender_account_id body = do
    throw_if (not (c.conforms_registration body)) zod_error
    fail_if
        (not (body.offer.lender_account_id == lender_account_id)
          || not (body.acceptance.lender_account_id == lender_account_id))
        ErrorCode.auth_invalid
    stored_request ← get_credit_request body.request.id
    stored_acceptance ← get_acceptance body.acceptance.mission_id
    fail_if (is_other_request body.request stored_request) ErrorCode.credit_acceptance_invalid
    fail_if (is_other_acceptance body stored_acceptance) ErrorCode.credit_acceptance_invalid
    check_signature c lender_account_id body.offer
    fail_if
        (not (body.acceptance.request_id == body.request.id)
          || not (body.offer.request_id == body.request.id)
          || not (body.acceptance.offer_id == body.offer.id))
        ErrorCode.credit_acceptance_invalid

  abbrev pub funding_expectation : String → RegistrationRequest → TransferExpectation
  funding_expectation lender_account_id body = record {
    transaction_id = body.funding_tx_id;
    payer_account_id = lender_account_id;
    recipient_account_id = c.account_id;
    amount_tinybar = body.offer.principal_tinybar;
  }

  abbrev pub loan_of : String → RegistrationRequest → Loan
  loan_of lender_account_id body = record {
    id = body.loan_id;
    offer_id = body.offer.id;
    mission_id = body.acceptance.mission_id;
    lender_account_id = lender_account_id;
    principal_tinybar = body.offer.principal_tinybar;
    fee_tinybar = body.offer.fee_tinybar;
    state = LoanState.funded;
    funding_tx_id = some body.funding_tx_id;
    repayment_tx_id = none;
  }

  unfoldable pub register_loan :
      (TransferExpectation → Result (Unit {0}))
      → String
      → RegistrationRequest
      → Exec SignerDb String
  register_loan confirm lender_account_id body = do
    check_documents lender_account_id body
    confirmed ← lift (confirm (funding_expectation lender_account_id body))
    loan ← register_funded_loan (loan_of lender_account_id body) body.funding_tx_id
    throw_if (not (c.is_loan_id loan.id)) zod_error
    pure loan.id
