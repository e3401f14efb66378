-- ===== src/Tests/Loan.antt =====
-- The documents of one loan, from the request to the registration, and its transfer by the lender.
use koven.Prelude.{pos, ◌≡◌, refl, ◌≤ℤ◌, String, some, none, true, false}
use koven.Domain.Credit.{UnsignedCreditRequest, Loan}
use koven.Exec.{Result, ok}
use koven.Signer.Types.{MissionPolicy, StoredCreditRequest, StoredAcceptance, SignerDb}
use koven.Signer.Store.Policy.{register_mission_policy, get_mission_policy}
use koven.Signer.Store.Credit.{get_credit_request, save_acceptance}
use koven.Signer.Store.Loan.{register_funded_loan}
use koven.Signer.Complete.{TransferExpectation}
use koven.Signer.Credit.{
  AcceptanceRequest, RegistrationRequest, CreditService, sign_credit_request,
  sign_credit_acceptance, acceptance_for, check_acceptance, check_offer, validate_offer,
  check_intent,
}
use koven.Signer.Credit.Registration.{register_loan, loan_of, funding_expectation, check_documents}
use koven.Signer.Credit.Signed.{IsTaken, sign_credit_acceptance-IsTaken}
use koven.Signer.Credit.Funded.{IsOnRecord, register_loan-IsOnRecord}
use koven.Tests.Gate.{provisioned, offer}

abbrev request : UnsignedCreditRequest
request = record {
  id = "r";
  mission_id = "a";
  borrower_account_id = "0.0.5";
  principal_tinybar = pos 60;
  requested_term_seconds = 600;
  purpose_hash = "purpose";
  created_at = "t0";
}

abbrev service : CreditService String
service = record {
  account_id = "0.0.5";
  lender_key = λ id. some "lender";
  is_zk = false;
  proof_policy = none;
  conforms_request = λ r. true;
  conforms_acceptance = λ r. true;
  conforms_registration = λ r. true;
  is_signature = λ t. true;
  is_signed_acceptance = λ a. true;
  is_loan_id = λ t. true;
  purpose_hash = λ m t. "purpose";
  terms_hash = λ o. "hash";
  offer_signed = λ key o signature. true;
  is_expired = λ a now. false;
  sign_request = λ r. "11";
  sign_acceptance = λ a. "22";
  request_hash = λ r. r.id;
  acceptance_hash = λ a. a.offer_id;
  intent_hash = λ i. i.nonce;
  bundle_hash = λ b. b.commitment;
  request_json = λ r. r.id;
  acceptance_json = λ a. a.offer_id;
  offer_json = λ o. o.id;
}

abbrev requested : SignerDb
requested = (sign_credit_request service request provisioned).1

abbrev input : AcceptanceRequest
input = record { offer = offer; payment_intent = none; payment_proof_bundle = none }

abbrev saved : StoredAcceptance
saved = record {
  acceptance = acceptance_for service request input;
  signature = "22";
  offer = offer;
}

abbrev agreed : SignerDb
agreed = (sign_credit_acceptance service input "t1" requested).1

taken : sign_credit_acceptance service input "t1" requested ≡ (ok saved, agreed)
unfolding sign_credit_acceptance sign_credit_request register_mission_policy check_acceptance
    check_offer validate_offer check_intent save_acceptance
taken = refl

sign_credit_acceptance-IsTaken_example :
    (stored : StoredCreditRequest) × (get_credit_request "r" requested
      ≡ (ok (some stored), requested))
    × IsTaken service offer stored.request "t1"
    × ("o" ≡ service.acceptance_hash (acceptance_for service stored.request input))
    × ((policy : MissionPolicy) × (get_mission_policy stored.request.mission_id requested
          ≡ (ok (some policy), requested))
        × (pos 61 ≤ℤ pos policy.spending_cap_tinybar))
sign_credit_acceptance-IsTaken_example =
    sign_credit_acceptance-IsTaken service input "t1" saved requested agreed taken

abbrev body : RegistrationRequest
body = record {
  loan_id = "loan";
  request = record { unsigned = request; signature = "11" };
  offer = offer;
  acceptance = acceptance_for service request input;
  acceptance_signature = "22";
  funding_tx_id = "f";
}

abbrev confirm : TransferExpectation → Result (Unit {0})
confirm e = ok tt

abbrev funded : SignerDb
funded = (register_loan service confirm "0.0.9" body agreed).1

registered : register_loan service confirm "0.0.9" body agreed ≡ (ok "loan", funded)
unfolding register_loan sign_credit_acceptance sign_credit_request register_mission_policy
    check_documents check_acceptance check_offer validate_offer check_intent save_acceptance
    register_funded_loan
registered = refl

register_loan-IsOnRecord_example :
    IsOnRecord service "0.0.9" body agreed
    × (confirm (funding_expectation service "0.0.9" body) ≡ ok tt)
    × ((loan : Loan) × (register_funded_loan (loan_of service "0.0.9" body) "f" agreed
          ≡ (ok loan, funded)))
register_loan-IsOnRecord_example =
    register_loan-IsOnRecord service "0.0.9" body confirm "loan" agreed funded registered
