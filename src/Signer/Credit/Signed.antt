-- ===== src/Signer/Credit/Signed.antt =====
-- What services/restricted-signer/src/credit.ts signs with the borrower's key.
use koven.Prelude.{
  pos, ◌≤ℤ◌, ◌≡◌, subst, String, Option, some, Bool, true, false, not, arith, eq_iff, ◌+ℤ◌,
  Option-cases, inl, inr,
}
use koven.Domain.Credit.{UnsignedCreditRequest, CreditOffer, CreditAcceptance}
use koven.Exec.{Exec, ok, pure, throw_if, ◌>>=◌, ◌>>◌, transaction}
use koven.Domain.Errors.{zod_error}
use koven.Exec.Laws.{>>=-eq-ok}
use koven.CreditProtocol.{uint64_max}
use koven.Sql.{select, has_key}
use koven.Signer.Types.{MissionPolicy, StoredCreditRequest, StoredAcceptance, SignerDb}
use koven.Signer.Store.Policy.{get_mission_policy}
use koven.Signer.Store.Credit.{request_key, get_credit_request, save_acceptance}
use koven.X402.{NormalizedChallenge}
use koven.Proof.{ProofBundle, Pinned}
use koven.Signer.Credit.{
  AcceptanceRequest, CreditService, policy_for, validate_offer, check_intent, acceptance_for,
  check_under, check_offer, check_acceptance, sign_credit_acceptance,
}

module _ {Key : Type 0} (c : CreditService Key) where
  -- An offer that the borrower takes for a request.
  pub record IsTaken (offer : CreditOffer) (request : UnsignedCreditRequest) (now : String)
      : Type 0 where
    pub key : String
    pub pinned : c.lender_key offer.lender_account_id ≡ some key
    pub signed : c.offer_signed key offer.unsigned offer.signature ≡ true
    pub same_request : offer.request_id ≡ request.id
    pub in_time : c.is_expired offer.expires_at now ≡ false
    pub covers : request.principal_tinybar ≤ℤ offer.principal_tinybar
    pub terms : offer.terms_hash ≡ c.terms_hash offer.unsigned
    pub term : offer.term_seconds ≡ request.requested_term_seconds
    pub fits : (offer.principal_tinybar +ℤ offer.fee_tinybar) ≤ℤ pos uint64_max

  validate_offer-IsTaken :
      (offer : CreditOffer) (request : UnsignedCreditRequest) (now : String) (s s' : SignerDb)
      → validate_offer c offer request now s ≡ (ok tt, s')
      → IsTaken offer request now
  unfolding validate_offer
  validate_offer-IsTaken offer request now s s' h =
      elim (Option-cases (c.lender_key offer.lender_account_id)) [
        | inl unpinned ↦ absurd (ground arith)
        | inr (key, pinned) ↦ record {
          key = key;
          pinned = pinned;
          signed = ground arith;
          same_request = ground (arith, eq_iff offer.request_id request.id);
          in_time = ground arith;
          covers = ground arith;
          terms = ground (arith, eq_iff offer.terms_hash (c.terms_hash offer.unsigned));
          term = ground arith;
          fits = ground arith;
        }
      ]

  validate_offer-state :
      (offer : CreditOffer) (request : UnsignedCreditRequest) (now : String) (s : SignerDb)
      → (validate_offer c offer request now s).1 ≡ s
  unfolding validate_offer
  validate_offer-state offer request now s = ground arith

  check_intent-state :
      (zk : Bool) (p : Option (Pinned Key)) (policy : MissionPolicy)
      (intent : Option NormalizedChallenge) (bundle : Option ProofBundle) (s : SignerDb)
      → (check_intent c zk p policy intent bundle s).1 ≡ s
  unfolding check_intent
  check_intent-state zk p policy intent bundle s = ground arith

  policy_for-ok :
      (id : String) (policy : MissionPolicy) (s s' : SignerDb)
      → policy_for c id s ≡ (ok policy, s')
      → (s' ≡ s) × (get_mission_policy id s ≡ (ok (some policy), s))
  unfolding policy_for get_mission_policy
  policy_for-ok id policy s s' h = (ground arith, ground arith)

  check_under-ok :
      (input : AcceptanceRequest) (request r : UnsignedCreditRequest) (now : String)
      (policy : MissionPolicy) (s s' : SignerDb)
      → check_under c input request now policy s ≡ (ok r, s')
      → (s' ≡ s)
        × (r ≡ request)
        × (validate_offer c input.offer request now s ≡ (ok tt, s))
        × (input.offer.principal_tinybar ≤ℤ pos policy.spending_cap_tinybar)
  unfolding check_under
  check_under-ok input request r now policy s s' h =
      let valid = validate_offer-state input.offer request now s in
      let intent =
        check_intent-state c.is_zk c.proof_policy policy input.payment_intent
          input.payment_proof_bundle s in
      (ground arith, ground arith, ground arith, ground arith)

  check_offer-ok :
      (input : AcceptanceRequest) (request r : UnsignedCreditRequest) (now : String)
      (s s' : SignerDb)
      → check_offer c input now request s ≡ (ok r, s')
      → (s' ≡ s)
        × (r ≡ request)
        × IsTaken input.offer request now
        × ((policy : MissionPolicy) × (get_mission_policy request.mission_id s
              ≡ (ok (some policy), s))
            × (input.offer.principal_tinybar ≤ℤ pos policy.spending_cap_tinybar))
  unfolding check_offer
  check_offer-ok input request r now s s' h =
      let (policy, t, e, rest) =
        >>=-eq-ok (policy_for c request.mission_id) (check_under c input request now) s h in
      let (kept, found) = policy_for-ok request.mission_id policy s t e in
      let (left, same, valid, in_cap) =
        check_under-ok input request r now policy s s'
          (subst (λ u. check_under c input request now policy u ≡ (ok r, s')) kept rest) in
      (
        left,
        same,
        validate_offer-IsTaken input.offer request now s s valid,
        (policy, found, in_cap),
      )

  -- What is found before the offer is checked.
  check_acceptance-ok :
      (input : AcceptanceRequest) (now : String) (r : UnsignedCreditRequest) (s s' : SignerDb)
      → check_acceptance c input now s ≡ (ok r, s')
      → (stored : StoredCreditRequest) × (get_credit_request input.offer.request_id s
          ≡ (ok (some stored), s))
        × (check_offer c input now stored.request s ≡ (ok r, s'))
  unfolding check_acceptance get_credit_request
  check_acceptance-ok input now r s s' h =
      elim (Option-cases (select (has_key request_key input.offer.request_id) s.credit_requests)) [
        | inl missing ↦ absurd (ground arith)
        | inr (stored, found) ↦ (stored, ground arith, ground arith)
      ]

  save_acceptance-ok :
      (offer : CreditOffer) (a : CreditAcceptance) (signature : String) (saved : StoredAcceptance)
      (s s' : SignerDb)
      → save_acceptance c.acceptance_hash offer a signature s ≡ (ok saved, s')
      → c.acceptance_hash saved.acceptance ≡ c.acceptance_hash a
  unfolding save_acceptance transaction
  save_acceptance-ok offer a signature saved s s' h =
      ground (arith, eq_iff (c.acceptance_hash saved.acceptance) (c.acceptance_hash a))

  abbrev finish : AcceptanceRequest → UnsignedCreditRequest → Exec SignerDb StoredAcceptance
  finish input request = do
    saved ←
        save_acceptance c.acceptance_hash input.offer (acceptance_for c request input)
          (c.sign_acceptance (acceptance_for c request input))
    throw_if (not (c.is_signed_acceptance saved)) zod_error
    pure saved

  finish-hash :
      (input : AcceptanceRequest) (request : UnsignedCreditRequest) (saved : StoredAcceptance)
      (s s' : SignerDb)
      → finish input request s ≡ (ok saved, s')
      → c.acceptance_hash saved.acceptance ≡ c.acceptance_hash (acceptance_for c request input)
  finish-hash input request saved s s' h =
      let a = acceptance_for c request input in
      save_acceptance-ok input.offer a (c.sign_acceptance a) saved s s' (ground arith)

  -- An acceptance is signed only for an offer that its pinned lender has signed, that answers a request which the
  -- signer has stored, has not expired, covers the principal within the cap of the mission's policy, for the term asked for, and has the hash of
  -- its own terms; and the answer has the hash of the acceptance of that offer for that request.
  pub sign_credit_acceptance-IsTaken :
      (input : AcceptanceRequest) (now : String) (saved : StoredAcceptance) (s s' : SignerDb)
      → sign_credit_acceptance c input now s ≡ (ok saved, s')
      → (stored : StoredCreditRequest) × (get_credit_request input.offer.request_id s
          ≡ (ok (some stored), s))
        × IsTaken input.offer stored.request now
        × (c.acceptance_hash saved.acceptance
            ≡ c.acceptance_hash (acceptance_for c stored.request input))
        × ((policy : MissionPolicy) × (get_mission_policy stored.request.mission_id s
              ≡ (ok (some policy), s))
            × (input.offer.principal_tinybar ≤ℤ pos policy.spending_cap_tinybar))
  unfolding sign_credit_acceptance
  sign_credit_acceptance-IsTaken input now saved s s' h =
      let (request, t, e, rest) = >>=-eq-ok (check_acceptance c input now) (finish input) s h in
      let (stored, found, checked) = check_acceptance-ok input now request s t e in
      let (kept, same, taken, in_cap) =
        check_offer-ok input stored.request request now s t checked in
      (
        stored,
        found,
        taken,
        finish-hash input stored.request saved t s'
            (subst (λ r. finish input r t ≡ (ok saved, s')) same rest),
        in_cap,
      )
