-- ===== src/CreditProtocol/Offers.antt =====
-- What a validated offer and acceptance of packages/credit-protocol/src/offer.ts promise.
use koven.Prelude.{◌≡◌, String, true, arith, eq_iff, ◌≤ℤ◌, is_none, sym, ◌∙◌}
use koven.Domain.Credit.{CreditRequest, CreditOffer, CreditAcceptance}
use koven.Exec.{ok}
use koven.CreditProtocol.{Verifier, validate_credit_offer, validate_credit_acceptance, fits_uint64}

-- An offer that a borrower may accept.
pub record IsSound (v : Verifier) (offer : CreditOffer) (request : CreditRequest) (key now : String)
    : Type 0 where
  pub signed : v.offer_signed key offer.unsigned offer.signature ≡ true
  pub same_request : offer.request_id ≡ request.id
  pub in_time : v.is_after offer.expires_at now ≡ true
  pub covers : request.principal_tinybar ≤ℤ offer.principal_tinybar
  pub terms : offer.terms_hash ≡ v.terms_hash offer.unsigned
  pub term : offer.term_seconds ≡ request.requested_term_seconds
  pub fits : fits_uint64 offer.principal_tinybar offer.fee_tinybar ≡ true

-- An offer that is validated is sound: it is signed by the lender, answers this request, has not expired, covers the
-- principal for the term asked for, has the hash of its own terms, and its repayment fits in 64 bits.
pub validate_credit_offer-IsSound :
    (v : Verifier) (offer : CreditOffer) (request : CreditRequest) (key now : String)
    → validate_credit_offer v offer request key now tt ≡ (ok tt, tt)
    → IsSound v offer request key now
unfolding validate_credit_offer
validate_credit_offer-IsSound v offer request key now h = record {
  signed = ground arith;
  same_request = ground (arith, eq_iff offer.request_id request.id);
  in_time = ground arith;
  covers = ground arith;
  terms = ground (arith, eq_iff offer.terms_hash (v.terms_hash offer.unsigned));
  term = ground arith;
  fits = ground arith;
}

-- A sound offer is validated.
pub IsSound-validate_credit_offer :
    (v : Verifier) (offer : CreditOffer) (request : CreditRequest) (key now : String)
    → IsSound v offer request key now
    → validate_credit_offer v offer request key now tt ≡ (ok tt, tt)
unfolding validate_credit_offer
IsSound-validate_credit_offer v offer request key now h = ground (
  arith,
  h.signed,
  h.in_time,
  h.fits,
  h.covers,
  h.term,
  eq_iff offer.request_id request.id,
  h.same_request,
  eq_iff offer.terms_hash (v.terms_hash offer.unsigned),
  h.terms,
)

-- When the offer and its acceptance are both validated, the borrower has signed for this very loan: the acceptance
-- carries the hash of the offer's terms, and names the request that the offer answers, its mission and borrower, and
-- the lender that the repayment goes to; if it has the hash of a payment it also has that of its proof.
pub validated-IsBound :
    (v : Verifier) (a : CreditAcceptance) (signature : String) (offer : CreditOffer)
    (request : CreditRequest) (lender_key borrower_key now later : String)
    → validate_credit_offer v offer request lender_key now tt ≡ (ok tt, tt)
    → validate_credit_acceptance v a signature request offer borrower_key later tt ≡ (ok tt, tt)
    → (v.acceptance_signed borrower_key a signature ≡ true)
      × (a.terms_hash ≡ v.terms_hash offer.unsigned)
      × (a.request_id ≡ offer.request_id)
      × (a.mission_id ≡ request.mission_id)
      × (a.borrower_account_id ≡ request.borrower_account_id)
      × (a.lender_account_id ≡ offer.lender_account_id)
      × (is_none a.payment_intent_hash ≡ is_none a.payment_proof_bundle_hash)
unfolding validate_credit_acceptance
validated-IsBound v a signature offer request lender_key borrower_key now later h k =
    let s = validate_credit_offer-IsSound v offer request lender_key now h in
    (
      ground arith,
      (ground (arith, eq_iff a.terms_hash offer.terms_hash)) ∙ s.terms,
      (ground (arith, eq_iff a.request_id request.id)) ∙ sym s.same_request,
      ground (arith, eq_iff a.mission_id request.mission_id),
      ground (arith, eq_iff a.borrower_account_id request.borrower_account_id),
      ground (arith, eq_iff a.lender_account_id offer.lender_account_id),
      ground arith,
    )
