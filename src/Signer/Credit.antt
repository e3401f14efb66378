-- ===== src/Signer/Credit.antt =====
-- services/restricted-signer/src/credit.ts: the documents of a loan that the borrower's key signs, and the
-- registration of a funded loan. Schemas, keys, signatures and canonical JSON are parameters.
pub mod Registration
pub mod Signed
pub mod Funded
use koven.Prelude.{
  ℕ, ℤ, pos, ◌+ℤ◌, ltb_ℤ, eqb_ℤ, String, Option, none, some, Bool, true, false, not, ◌==◌, ◌||◌,
  ◌&&◌, leb, eqb, is_none, if◌then◌else◌,
}
use Prim.Native.String.{◌++◌}
use koven.Domain.Credit.{
  UnsignedCreditRequest, CreditRequest, UnsignedCreditOffer, CreditOffer, CreditAcceptance, Loan,
  LoanState,
}
use koven.Domain.Errors.{Error, ErrorCode, signer_error, zod_error}
use koven.Exec.{Exec, Result, ok, err, pure, throw, lift, throw_if, or_throw, ◌>>=◌, ◌>>◌}
use koven.CreditProtocol.{uint64_max}
use koven.X402.{Formats, NormalizedChallenge, resource_hash_hex}
use koven.Proof.{ProofBundle, Pinned, assert_proof}
use koven.Signer.Types.{MissionPolicy, StoredCreditRequest, StoredAcceptance, SignerDb}
use koven.Signer.Gate.{checked}
use koven.Signer.Complete.{TransferExpectation, failing, fail_if}
use koven.Signer.Store.Policy.{get_mission_policy}
use koven.Signer.Store.Credit.{
  get_credit_request, get_acceptance, save_credit_request, save_acceptance,
}
use koven.Signer.Store.Loan.{register_funded_loan}

-- `SignCreditAcceptanceSchema`: the intent and its proof are present together.
pub record AcceptanceRequest : Type 0 where
  pub offer : CreditOffer
  pub payment_intent : Option NormalizedChallenge
  pub payment_proof_bundle : Option ProofBundle

-- `LoanRegistrationRequestSchema`
pub record RegistrationRequest : Type 0 where
  pub loan_id : String
  pub request : CreditRequest
  pub offer : CreditOffer
  pub acceptance : CreditAcceptance
  pub acceptance_signature : String
  pub funding_tx_id : String

-- The service's options and what it calls. A key is decoded from the text that is pinned for a lender;
-- `is_expired` is `<=` on `Date.parse` of both, false where one is no date.
pub record CreditService (Key : Type 0) : Type 0 where
  pub account_id : String
  pub lender_key : String → Option String
  pub is_zk : Bool
  pub proof_policy : Option (Pinned Key)
  pub conforms_request : UnsignedCreditRequest → Bool
  pub conforms_acceptance : AcceptanceRequest → Bool
  pub conforms_registration : RegistrationRequest → Bool
  pub is_signature : String → Bool
  pub is_signed_acceptance : StoredAcceptance → Bool
  pub is_loan_id : String → Bool
  pub purpose_hash : String → String → String
  pub terms_hash : UnsignedCreditOffer → String
  pub offer_signed : String → UnsignedCreditOffer → String → Bool
  pub is_expired : String → String → Bool
  pub sign_request : UnsignedCreditRequest → String
  pub sign_acceptance : CreditAcceptance → String
  pub request_hash : UnsignedCreditRequest → String
  pub acceptance_hash : CreditAcceptance → String
  pub intent_hash : NormalizedChallenge → String
  pub bundle_hash : ProofBundle → String
  pub request_json : UnsignedCreditRequest → String
  pub acceptance_json : CreditAcceptance → String
  pub offer_json : CreditOffer → String

module _ {Key : Type 0} (c : CreditService Key) where
  unfoldable pub policy_for : String → Exec SignerDb MissionPolicy
  unfolding get_mission_policy
  policy_for mission_id = do
    found ← get_mission_policy mission_id
    failing found ErrorCode.mission_policy_missing

  abbrev pub is_unbound : UnsignedCreditRequest → MissionPolicy → Bool
  is_unbound request policy =
      not (request.borrower_account_id == c.account_id)
      || not (policy.borrower_account_id == c.account_id)
      || not (request.purpose_hash == c.purpose_hash policy.mission_id policy.target_sha256)

  -- The answer's schema is of the signature.
  unfoldable pub sign_credit_request : UnsignedCreditRequest → Exec SignerDb String
  unfolding policy_for save_credit_request
  sign_credit_request request = do
    throw_if (not (c.conforms_request request)) zod_error
    policy ← policy_for request.mission_id
    fail_if (is_unbound request policy) ErrorCode.mission_policy_mismatch
    fail_if
        (eqb_ℤ request.principal_tinybar (pos 0)
          || ltb_ℤ (pos policy.spending_cap_tinybar) request.principal_tinybar)
        ErrorCode.request_invalid
    fail_if (leb request.requested_term_seconds 0) ErrorCode.request_invalid
    stored ← save_credit_request c.request_hash request (c.sign_request request)
    throw_if (not (c.is_signature stored.signature)) zod_error
    pure stored.signature

  -- `lenderKey`, and a signature of an offer under it.
  unfoldable pub check_signature : String → CreditOffer → Exec SignerDb (Unit {0})
  check_signature lender_account_id offer = do
    key ← failing (c.lender_key lender_account_id) ErrorCode.offer_signature_invalid
    fail_if (not (c.offer_signed key offer.unsigned offer.signature))
        ErrorCode.offer_signature_invalid

  unfoldable pub validate_offer :
      CreditOffer → UnsignedCreditRequest → String → Exec SignerDb (Unit {0})
  unfolding check_signature
  validate_offer offer request now = do
    check_signature offer.lender_account_id offer
    fail_if (not (offer.request_id == request.id)) ErrorCode.request_invalid
    fail_if (c.is_expired offer.expires_at now) ErrorCode.offer_expired
    fail_if (ltb_ℤ offer.principal_tinybar request.principal_tinybar) ErrorCode.request_invalid
    fail_if (not (offer.terms_hash == c.terms_hash offer.unsigned)) ErrorCode.request_invalid
    fail_if (not (eqb offer.term_seconds request.requested_term_seconds)) ErrorCode.request_invalid
    fail_if (ltb_ℤ (pos uint64_max) (offer.principal_tinybar +ℤ offer.fee_tinybar))
        ErrorCode.request_invalid

  assert_intent_for :
      Pinned Key → MissionPolicy → NormalizedChallenge → ProofBundle → Exec SignerDb (Unit {0})
  unfolding assert_proof resource_hash_hex
  assert_intent_for p policy intent bundle = do
    fail_if
        (not (intent.mission_id == policy.mission_id)
          || not (intent.recipient_account_id == policy.provider.account_id)
          || ltb_ℤ (pos policy.spending_cap_tinybar) intent.amount_tinybar
          || not (
              intent.resource_hash
              == resource_hash_hex p.formats (policy.provider.endpoint ++ "/scan") policy.mission_id
                  policy.target_sha256))
        ErrorCode.mission_policy_mismatch
    commitment ← checked (assert_proof p bundle policy intent)
    pure tt

  -- Evidence is verified in zk mode, for which the constructor asks for a pinned key.
  unfoldable pub check_intent :
      Bool
      → Option (Pinned Key)
      → MissionPolicy
      → Option NormalizedChallenge
      → Option ProofBundle
      → Exec SignerDb (Unit {0})
  unfolding assert_intent_for
  check_intent true (some p) policy (some intent) (some bundle) =
      assert_intent_for p policy intent bundle
  check_intent _ _ _ _ _ = pure tt

  abbrev pub paired : {A B : Type 0} → (A → String) → Option A → Option B → Option String
  paired f (some a) (some b) = some (f a)
  paired f _ _ = none

  abbrev pub acceptance_for : UnsignedCreditRequest → AcceptanceRequest → CreditAcceptance
  acceptance_for request input = record {
    request_id = request.id;
    mission_id = request.mission_id;
    borrower_account_id = request.borrower_account_id;
    lender_account_id = input.offer.lender_account_id;
    offer_id = input.offer.id;
    terms_hash = input.offer.terms_hash;
    expires_at = input.offer.expires_at;
    payment_intent_hash = paired c.intent_hash input.payment_intent input.payment_proof_bundle;
    payment_proof_bundle_hash =
        paired c.bundle_hash input.payment_proof_bundle input.payment_intent;
  }

  -- The checks of an offer, under a policy.
  unfoldable pub check_under :
      AcceptanceRequest
      → UnsignedCreditRequest
      → String
      → MissionPolicy
      → Exec SignerDb UnsignedCreditRequest
  check_under input request now policy = do
    validate_offer input.offer request now
    fail_if (ltb_ℤ (pos policy.spending_cap_tinybar) input.offer.principal_tinybar)
        ErrorCode.mission_policy_mismatch
    check_intent c.is_zk c.proof_policy policy input.payment_intent input.payment_proof_bundle
    pure request

  unfoldable pub check_offer :
      AcceptanceRequest → String → UnsignedCreditRequest → Exec SignerDb UnsignedCreditRequest
  unfolding check_under
  check_offer input now request = do
    policy ← policy_for request.mission_id
    check_under input request now policy

  -- The stored request, once the offer for it has been checked.
  unfoldable pub check_acceptance : AcceptanceRequest → String → Exec SignerDb UnsignedCreditRequest
  unfolding get_credit_request
  check_acceptance input now = do
    throw_if
        (not (c.conforms_acceptance input)
          || (c.is_zk && (is_none input.payment_intent || is_none input.payment_proof_bundle)))
        zod_error
    found ← get_credit_request input.offer.request_id
    stored ← failing found ErrorCode.request_invalid
    check_offer input now stored.request

  unfoldable pub sign_credit_acceptance :
      AcceptanceRequest → String → Exec SignerDb StoredAcceptance
  sign_credit_acceptance input now = do
    request ← check_acceptance input now
    saved ←
        save_acceptance c.acceptance_hash input.offer (acceptance_for request input)
          (c.sign_acceptance (acceptance_for request input))
    throw_if (not (c.is_signed_acceptance saved)) zod_error
    pure saved
