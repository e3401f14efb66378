-- ===== src/Tests/Credit.antt =====
-- An offer of 61 tinybar for 100 seconds, its acceptance, and the decision to make it.
use koven.Prelude.{pos, ◌≡◌, refl, some, none, true, is_none}
use koven.Domain.Credit.{UnsignedCreditRequest, CreditRequest, CreditOffer, CreditAcceptance}
use koven.Exec.{ok}
use koven.CreditProtocol.{
  Verifier, LenderPolicyOptions, LenderPolicyDecision, validate_credit_offer,
  validate_credit_acceptance, evaluate_lender_policy,
}
use koven.CreditProtocol.Offers.{validated-IsBound}
use koven.CreditProtocol.Lending.{Lends, evaluate_lender_policy-Lends}

abbrev verifier : Verifier
verifier = record {
  offer_signed = λ key offer signature. true;
  acceptance_signed = λ key a signature. true;
  terms_hash = λ offer. "hash";
  is_after = λ a b. true;
}

abbrev unsigned_request : UnsignedCreditRequest
unsigned_request = record {
  id = "r";
  mission_id = "m";
  borrower_account_id = "0.0.5";
  principal_tinybar = pos 61;
  requested_term_seconds = 100;
  purpose_hash = "ab";
  created_at = "t0";
}

abbrev request : CreditRequest
request = record { unsigned = unsigned_request; signature = "00" }

abbrev options : LenderPolicyOptions
options = record { max_principal_tinybar = pos 500; fee_bps = 200; max_term_seconds = 600 }

-- 1.22 tinybar are rounded up.
abbrev decision : LenderPolicyDecision
decision = record { fee_tinybar = 2; term_seconds = 100 }

decided : evaluate_lender_policy options unsigned_request true ≡ some decision
unfolding evaluate_lender_policy
decided = refl

evaluate_lender_policy-Lends_example : Lends options unsigned_request true decision
evaluate_lender_policy-Lends_example =
    evaluate_lender_policy-Lends options unsigned_request true decision decided

abbrev offer : CreditOffer
offer = record {
  unsigned = record {
    id = "o";
    request_id = "r";
    lender_account_id = "0.0.9";
    principal_tinybar = pos 61;
    fee_tinybar = pos 2;
    term_seconds = 100;
    expires_at = "t9";
    terms_hash = "hash";
  };
  signature = "00";
}

abbrev acceptance : CreditAcceptance
acceptance = record {
  request_id = "r";
  mission_id = "m";
  borrower_account_id = "0.0.5";
  lender_account_id = "0.0.9";
  offer_id = "o";
  terms_hash = "hash";
  expires_at = "t9";
  payment_intent_hash = none;
  payment_proof_bundle_hash = none;
}

offer_valid : validate_credit_offer verifier offer request "lender" "t1" tt ≡ (ok tt, tt)
unfolding validate_credit_offer
offer_valid = refl

acceptance_valid :
    validate_credit_acceptance verifier acceptance "00" request offer "borrower" "t2" tt
    ≡ (ok tt, tt)
unfolding validate_credit_acceptance
acceptance_valid = refl

validated-IsBound_example :
    (true ≡ true)
    × (acceptance.terms_hash ≡ "hash")
    × (acceptance.request_id ≡ offer.request_id)
    × (acceptance.mission_id ≡ request.mission_id)
    × (acceptance.borrower_account_id ≡ request.borrower_account_id)
    × (acceptance.lender_account_id ≡ offer.lender_account_id)
    × (is_none acceptance.payment_intent_hash ≡ is_none acceptance.payment_proof_bundle_hash)
validated-IsBound_example =
    validated-IsBound verifier acceptance "00" offer request "lender" "borrower" "t1" "t2"
      offer_valid acceptance_valid
