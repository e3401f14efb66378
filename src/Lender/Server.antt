-- ===== src/Lender/Server.antt =====
-- The handlers of agents/lenders/src/server.ts: the registration of a policy, the quote of an offer and the
-- acceptance that is funded. A body is what its schema has parsed of it, if it has; keys, signatures and
-- texts are parameters.
pub mod Validated
pub mod Quoted
use koven.Prelude.{
  ℕ, ℤ, pos, ltb_ℤ, String, Option, none, some, Bool, true, false, not, ◌==◌, ◌||◌, ◌&&◌, is_none,
  if◌then◌else◌,
}
use Prim.Native.String.{◌++◌}
use koven.Domain.Credit.{
  UnsignedCreditRequest, CreditRequest, UnsignedCreditOffer, CreditOffer, CreditAcceptance,
}
use koven.Domain.Errors.{ErrorCode, credit_protocol_error, zod_error}
use koven.Exec.{Exec, Result, ok, err, pure, throw, throw_if, or_throw, ◌>>=◌, ◌>>◌}
use koven.CreditProtocol.{
  Verifier, LenderPolicyOptions, LenderPolicyDecision, evaluate_lender_policy,
  verify_credit_request, sign_credit_offer, validate_credit_offer, validate_credit_acceptance,
  validate_acceptance_evidence,
}
use koven.X402.{NormalizedChallenge, Checked}
use koven.Proof.{ProofBundle, Pinned, assert_acceptance_evidence}
use koven.Signer.Types.{MissionPolicy}
use koven.Lender.Store.{
  OfferRow, Registered, SignedCreditAcceptance, register_mission_policy, get_mission_policy,
  save_offer, get_offer,
}
use koven.Lender.Fund.{Lender, Answers, Formats, on_db, protocol_error, accept}

-- `CreditAcceptRequestSchema`
pub record AcceptBody : Type 0 where
  pub acceptance : CreditAcceptance
  pub signature : String
  pub payment_intent : Option NormalizedChallenge
  pub payment_proof_bundle : Option ProofBundle

-- The options of the server, and what it calls. The header's text is what its schema has parsed of it.
pub record Server (Key : Type 0) : Type 0 where
  pub policy : LenderPolicyOptions
  pub lender_account_id : String
  pub lender_key : String
  pub operator_credential : String
  pub borrower_key : String → Option String
  pub is_trusted : String → Bool
  pub is_zk : Bool
  pub proof_verifier : Option (Pinned Key)
  pub verifier : Verifier
  pub request_signed : String → UnsignedCreditRequest → String → Bool
  pub sign_offer : UnsignedCreditOffer → String
  pub offer_id : CreditRequest → String
  pub purpose_hash : String → String → String
  pub policy_hash : MissionPolicy → String
  pub request_hash : CreditRequest → String
  pub intent_hash : NormalizedChallenge → String
  pub bundle_hash : ProofBundle → String
  pub is_offer : CreditOffer → Bool
  pub is_response : String → Bool
  pub funding : Formats
  pub lease_ms : ℕ

abbrev pub checked : {A : Type 0} → Checked A → Exec Lender A
checked m s = ((m tt).0, s)

abbrev pub parsed : {A : Type 0} → Option A → Exec Lender A
parsed o = or_throw o zod_error

abbrev pub require : {A : Type 0} → Option A → ErrorCode → Exec Lender A
require o code = or_throw o (credit_protocol_error code)

abbrev pub refuse_if : Bool → ErrorCode → Exec Lender (Unit {0})
refuse_if b code = throw_if b (credit_protocol_error code)

module _ {Key : Type 0} (v : Server Key) where
  unfoldable pub require_operator : Option String → Exec Lender (Unit {0})
  require_operator authorization = do
    given ← require authorization ErrorCode.auth_invalid
    refuse_if (not (given == ("Bearer " ++ v.operator_credential))) ErrorCode.auth_invalid

  -- The root is looked at where the server has a proof verifier.
  abbrev pub root_differs : MissionPolicy → Option (Pinned Key) → Bool
  root_differs policy none = false
  root_differs policy (some p) =
      not (policy.approved_recipients_root == p.root_for policy.provider.account_id)

  -- POST /internal/missions/register
  unfoldable pub register_mission : Option String → Option MissionPolicy → Exec Lender Registered
  unfolding require_operator register_mission_policy
  register_mission authorization body = do
    require_operator authorization
    policy ← parsed body
    refuse_if (root_differs policy v.proof_verifier) ErrorCode.mission_policy_mismatch
    on_db (register_mission_policy v.policy_hash policy)

  -- The policy that a request or the offer for it has to match.
  abbrev pub is_outside : MissionPolicy → CreditRequest → ℤ → Bool
  is_outside policy request principal =
      not (policy.borrower_account_id == request.borrower_account_id)
      || not (v.purpose_hash policy.mission_id policy.target_sha256 == request.purpose_hash)
      || ltb_ℤ (pos policy.spending_cap_tinybar) principal

  unfoldable pub matching_policy : CreditRequest → ℤ → Exec Lender MissionPolicy
  unfolding get_mission_policy
  matching_policy request principal = do
    found ← on_db (get_mission_policy request.mission_id)
    policy ← require found ErrorCode.mission_policy_missing
    refuse_if (is_outside policy request principal) ErrorCode.mission_policy_mismatch
    pure policy

  abbrev pub terms : CreditRequest → LenderPolicyDecision → String → UnsignedCreditOffer
  terms request decision expires_at = record {
    id = v.offer_id request;
    request_id = request.id;
    lender_account_id = v.lender_account_id;
    principal_tinybar = request.principal_tinybar;
    fee_tinybar = pos decision.fee_tinybar;
    term_seconds = decision.term_seconds;
    expires_at = expires_at;
    terms_hash = "";
  }

  -- `{ ...terms, termsHash: computeTermsHash(terms) }`; the hash does not read its own field.
  abbrev pub unsigned_offer : CreditRequest → LenderPolicyDecision → String → UnsignedCreditOffer
  unsigned_offer request decision expires_at =
      let t = terms request decision expires_at in record t { terms_hash = v.verifier.terms_hash t }

  -- An answer without content where there is no decision.
  unfoldable pub make_offer :
      CreditRequest → String → Option LenderPolicyDecision → Exec Lender (Option CreditOffer)
  unfolding sign_credit_offer save_offer
  make_offer request expires_at none = pure none
  make_offer request expires_at (some decision) = do
    offer ← checked (sign_credit_offer v.sign_offer (unsigned_offer request decision expires_at))
    saved ← on_db (save_offer v.request_hash request offer)
    throw_if (not (v.is_offer saved)) zod_error
    pure (some saved)

  -- POST /credit/quote
  unfoldable pub quote : Option CreditRequest → String → Exec Lender (Option CreditOffer)
  unfolding verify_credit_request
  quote body expires_at = do
    request ← parsed body
    key ←
        require (v.borrower_key request.borrower_account_id)
          ErrorCode.credit_request_signature_invalid
    checked (verify_credit_request v.request_signed request key)
    policy ← matching_policy request request.principal_tinybar
    make_offer request expires_at (
        evaluate_lender_policy v.policy request.unsigned (v.is_trusted request.borrower_account_id))

  unfoldable pub check_evidence :
      Bool
      → Option (Pinned Key)
      → MissionPolicy
      → CreditOffer
      → Option NormalizedChallenge
      → Option ProofBundle
      → Checked (Unit {0})
  check_evidence true (some p) policy offer (some intent) (some bundle) =
      assert_acceptance_evidence p policy offer intent bundle
  check_evidence _ _ _ _ _ _ = pure tt

  abbrev pub signed_of : AcceptBody → SignedCreditAcceptance
  signed_of body = record { acceptance = body.acceptance; signature = body.signature }

  -- What precedes the funding, for a stored offer and under its policy.
  unfoldable pub check_terms :
      AcceptBody → OfferRow → String → String → String → MissionPolicy → Checked (Unit {0})
  check_terms body stored borrower_key now later policy = do
    validate_credit_offer v.verifier stored.offer stored.request v.lender_key now
    validate_credit_acceptance v.verifier body.acceptance body.signature stored.request stored.offer
        borrower_key later
    validate_acceptance_evidence v.intent_hash v.bundle_hash body.acceptance body.payment_intent
        body.payment_proof_bundle
    check_evidence v.is_zk v.proof_verifier policy stored.offer body.payment_intent
        body.payment_proof_bundle

  unfoldable pub check_stored :
      AcceptBody → OfferRow → String → String → String → Exec Lender (AcceptBody × OfferRow)
  check_stored body stored borrower_key now later = do
    policy ← matching_policy stored.request stored.offer.principal_tinybar
    checked (check_terms body stored borrower_key now later policy)
    pure (body, stored)

  unfoldable pub check_accept :
      Option AcceptBody → String → String → Exec Lender (AcceptBody × OfferRow)
  unfolding get_offer
  check_accept input now later = do
    body ← parsed input
    found ← on_db (get_offer body.acceptance.offer_id)
    stored ← require found ErrorCode.credit_acceptance_invalid
    key ←
        require (v.borrower_key stored.request.borrower_account_id)
          ErrorCode.credit_acceptance_invalid
    check_stored body stored key now later

  unfoldable pub fund : Answers → AcceptBody × OfferRow → Exec Lender String
  fund x (body, stored) = do
    tx ← accept v.funding v.lease_ms x stored.request stored.offer (signed_of body)
    throw_if (not (v.is_response tx)) zod_error
    pure tx

  -- POST /credit/accept
  unfoldable pub accept_credit : Option AcceptBody → Answers → String → String → Exec Lender String
  accept_credit input x now later = do
    checked_body ← check_accept input now later
    fund x checked_body
