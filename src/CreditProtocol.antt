-- ===== src/CreditProtocol.antt =====
-- packages/credit-protocol/src/offer.ts and repay.ts, and the policy by which a lender makes an offer,
-- agents/lenders/src/policy.ts. These functions keep no state; they throw or return.
pub mod Lending
pub mod Offers
use koven.Prelude.{
  ℕ, ℤ, pos, ◌+◌, ◌*◌, ◌/◌, ◌+ℤ◌, pos_part, leb_ℤ, ltb_ℤ, String, Option, none, some, Bool, not,
  ◌&&◌, ◌||◌, ◌==◌, eqb, leb, ltb, is_none, same_text, if◌then◌else◌,
}
use koven.Domain.Credit.{
  UnsignedCreditRequest, UnsignedCreditOffer, CreditOffer, CreditAcceptance, CreditRequest,
}
use koven.Domain.Errors.{Error, ErrorCode, credit_protocol_error, range_error}
use koven.Exec.{Exec, Result, ok, err, pure, throw_if, ◌>>=◌, ◌>>◌}

abbrev pub uint64_max : ℕ
uint64_max = 18446744073709551615

abbrev pub Checked : Type 0 → Type 0
Checked A = Exec (Unit {0}) A

-- What is computed on texts and documents: the verdict on a signature under a key, the hash of the
-- terms of an offer, and `a` after `b` on `Date.parse` of both, which is false where one is no date.
pub record Verifier : Type 0 where
  pub offer_signed : String → UnsignedCreditOffer → String → Bool
  pub acceptance_signed : String → CreditAcceptance → String → Bool
  pub terms_hash : UnsignedCreditOffer → String
  pub is_after : String → String → Bool

abbrev pub assert_credit : Bool → ErrorCode → Checked (Unit {0})
assert_credit condition code = throw_if (not condition) (credit_protocol_error code)

-- `principal >= 0 && fee >= 0 && principal + fee <= UINT64_MAX`
abbrev pub fits_uint64 : ℤ → ℤ → Bool
fits_uint64 principal fee =
    leb_ℤ (pos 0) principal && leb_ℤ (pos 0) fee && leb_ℤ (principal +ℤ fee) (pos uint64_max)

unfoldable pub validate_credit_offer :
    Verifier → CreditOffer → CreditRequest → String → String → Checked (Unit {0})
validate_credit_offer v offer request lender_key now = do
  assert_credit (v.offer_signed lender_key offer.unsigned offer.signature)
      ErrorCode.offer_signature_invalid
  assert_credit (offer.request_id == request.id) ErrorCode.request_invalid
  assert_credit (v.is_after offer.expires_at now) ErrorCode.offer_expired
  assert_credit (leb_ℤ request.principal_tinybar offer.principal_tinybar) ErrorCode.request_invalid
  assert_credit (offer.terms_hash == v.terms_hash offer.unsigned) ErrorCode.request_invalid
  assert_credit (eqb offer.term_seconds request.requested_term_seconds) ErrorCode.request_invalid
  assert_credit (fits_uint64 offer.principal_tinybar offer.fee_tinybar) ErrorCode.request_invalid

abbrev same_presence : Option String → Option String → Bool
same_presence none none = Bool.true
same_presence (some a) (some b) = Bool.true
same_presence none (some b) = Bool.false
same_presence (some a) none = Bool.false

-- The acceptance names the request, the offer and its terms.
abbrev pub is_bound : CreditAcceptance → CreditRequest → CreditOffer → Bool
is_bound a request offer =
    a.request_id == request.id
    && a.mission_id == request.mission_id
    && a.borrower_account_id == request.borrower_account_id
    && a.lender_account_id == offer.lender_account_id
    && a.offer_id == offer.id
    && a.terms_hash == offer.terms_hash
    && a.expires_at == offer.expires_at

unfoldable pub validate_credit_acceptance :
    Verifier
    → CreditAcceptance
    → String
    → CreditRequest
    → CreditOffer
    → String
    → String
    → Checked (Unit {0})
validate_credit_acceptance v a signature request offer borrower_key now = do
  assert_credit (v.acceptance_signed borrower_key a signature) ErrorCode.credit_acceptance_invalid
  assert_credit (same_presence a.payment_intent_hash a.payment_proof_bundle_hash)
      ErrorCode.credit_acceptance_invalid
  assert_credit (is_bound a request offer) ErrorCode.credit_acceptance_invalid
  assert_credit (v.is_after a.expires_at now) ErrorCode.offer_expired

-- `verifyCreditRequest`, with the verdict on the signature.
unfoldable pub verify_credit_request :
    (String → UnsignedCreditRequest → String → Bool) → CreditRequest → String → Checked (Unit {0})
verify_credit_request request_signed request key =
    assert_credit (request_signed key request.unsigned request.signature)
      ErrorCode.credit_request_signature_invalid

-- `signature` is that of the offer under the lender's key.
unfoldable pub sign_credit_offer :
    (UnsignedCreditOffer → String) → UnsignedCreditOffer → Checked CreditOffer
sign_credit_offer signature offer = do
  assert_credit (fits_uint64 offer.principal_tinybar offer.fee_tinybar) ErrorCode.request_invalid
  pure (record { unsigned = offer; signature = signature offer })

abbrev same_bool : Bool → Bool → Bool
same_bool Bool.true b = b
same_bool Bool.false b = not b

abbrev both : {A B : Type 0} → Option A → Option B → Bool
both a b = not (is_none a || is_none b)

abbrev same_hashes :
    {A B : Type 0} → (A → String) → (B → String) → CreditAcceptance → Option A → Option B → Bool
same_hashes hash_a hash_b acceptance (some a) (some b) =
    same_text acceptance.payment_intent_hash (some (hash_a a))
    && same_text acceptance.payment_proof_bundle_hash (some (hash_b b))
same_hashes hash_a hash_b acceptance _ _ = Bool.true

-- `canonicalHash` of the intent and of the bundle. Without evidence and hashes nothing is compared.
unfoldable pub validate_acceptance_evidence :
    {A B : Type 0}
    → (A → String)
    → (B → String)
    → CreditAcceptance
    → Option A
    → Option B
    → Checked (Unit {0})
validate_acceptance_evidence hash_a hash_b acceptance intent bundle = do
  assert_credit
      (same_bool (both intent bundle)
          (both acceptance.payment_intent_hash acceptance.payment_proof_bundle_hash)
        && same_bool (is_none intent) (is_none bundle))
      ErrorCode.credit_acceptance_invalid
  assert_credit (same_hashes hash_a hash_b acceptance intent bundle)
      ErrorCode.credit_acceptance_invalid

pub record RepaymentTerms : Type 0 where
  pub lender_account_id : String
  pub amount_tinybar : ℤ

unfoldable pub repayment_terms : String → ℤ → ℤ → Checked RepaymentTerms
repayment_terms lender principal fee = do
  throw_if
      (ltb_ℤ principal (pos 0) || ltb_ℤ fee (pos 0) || ltb_ℤ (pos uint64_max) (principal +ℤ fee))
      range_error
  pure (record { lender_account_id = lender; amount_tinybar = principal +ℤ fee })

-- The options of a lender; the least score is the parameter below.
pub record LenderPolicyOptions : Type 0 where
  pub max_principal_tinybar : ℤ
  pub fee_bps : ℕ
  pub max_term_seconds : ℕ

pub record LenderPolicyDecision : Type 0 where
  pub fee_tinybar : ℕ
  pub term_seconds : ℕ

-- A positive amount goes through, as the number that it is.
abbrev decide : LenderPolicyOptions → ℕ → ℕ → Option LenderPolicyDecision
decide o principal term =
    let fee = (principal * o.fee_bps + 9999) / 10000 in
    if ltb uint64_max (principal + fee)
    then none
    else some (record { fee_tinybar = fee; term_seconds = term })

-- `trusted` is `Number.isFinite(reputation) && !(reputation < minReputationScore)`, on floats.
unfoldable pub evaluate_lender_policy :
    LenderPolicyOptions → UnsignedCreditRequest → Bool → Option LenderPolicyDecision
evaluate_lender_policy o request trusted =
    if leb_ℤ request.principal_tinybar (pos 0)
      || ltb_ℤ o.max_principal_tinybar request.principal_tinybar
      || leb request.requested_term_seconds 0
      || ltb o.max_term_seconds request.requested_term_seconds
      || not trusted
    then none
    else decide o (pos_part request.principal_tinybar) request.requested_term_seconds
