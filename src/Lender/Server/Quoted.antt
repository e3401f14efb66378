-- ===== src/Lender/Server/Quoted.antt =====
-- What agents/lenders/src/server.ts offers in a quote.
use koven.Prelude.{pos, ◌≤ℤ◌, ◌≡◌, refl, sym, subst, String, Option, none, some, true, false, arith}
use koven.Domain.Credit.{CreditRequest, CreditOffer, UnsignedCreditOffer}
use koven.Exec.{Result, ok, err}
use koven.Sql.{exists, has_key}
use koven.CreditProtocol.{LenderPolicyDecision, evaluate_lender_policy, fits_uint64}
use koven.CreditProtocol.Offers.{IsSound}
use koven.CreditProtocol.Lending.{evaluate_lender_policy-Lends}
use koven.Signer.Types.{MissionPolicy}
use koven.Lender.Store.{offer_key, offer_by_request, get_mission_policy}
use koven.Lender.Fund.{Lender}
use koven.Lender.Server.{Server, matching_policy, make_offer, unsigned_offer, quote}
use koven.Lender.Server.Validated.{matching_policy-ok}

-- What the hash of terms and a signature promise: the hash does not read its own field, and what the lender
-- signs is valid under its key.
pub record IsOwnKey {Key : Type 0} (v : Server Key) : Type 0 where
  pub hash_of_terms :
      (t : UnsignedCreditOffer) (h : String)
      → v.verifier.terms_hash (record t { terms_hash = h }) ≡ v.verifier.terms_hash t
  pub signs :
      (t : UnsignedCreditOffer) → v.verifier.offer_signed v.lender_key t (v.sign_offer t) ≡ true

module _ {Key : Type 0} (v : Server Key) (request : CreditRequest) (expires_at : String) where
  -- No offer of the request, and none with its id.
  pub record IsNew (s : Lender) : Type 0 where
    pub new_request : offer_by_request request.id s.db ≡ none
    pub new_id : exists (has_key offer_key (v.offer_id request)) s.db.offers ≡ false

  abbrev offer_for : LenderPolicyDecision → CreditOffer
  offer_for d =
      let u = unsigned_offer v request d expires_at in
      record { unsigned = u; signature = v.sign_offer u }

  make_offer-new :
      (d : LenderPolicyDecision) (offer : CreditOffer) (s s' : Lender)
      → IsNew s
      → make_offer v request expires_at (some d) s ≡ (ok (some offer), s')
      → (offer ≡ offer_for d) × (fits_uint64 request.principal_tinybar (pos d.fee_tinybar) ≡ true)
  unfolding make_offer
  make_offer-new d offer s s' new h =
      let a = new.new_request in let b = new.new_id in (ground arith, ground arith)

  make_offer-decided :
      (o : Option LenderPolicyDecision) (offer : CreditOffer) (s s' : Lender)
      → make_offer v request expires_at o s ≡ (ok (some offer), s')
      → (d : LenderPolicyDecision) × (o ≡ some d)
        × (make_offer v request expires_at (some d) s ≡ (ok (some offer), s'))
  unfolding make_offer
  make_offer-decided none offer s s' h = absurd (ground arith)
  make_offer-decided (some d) offer s s' h = (d, refl, h)

  quote-made :
      (offer : CreditOffer) (s s' : Lender)
      → quote v (some request) expires_at s ≡ (ok (some offer), s')
      → (policy : MissionPolicy) × (matching_policy v request request.principal_tinybar s
          ≡ (ok policy, s))
        × ((d : LenderPolicyDecision) × (evaluate_lender_policy v.policy request.unsigned
                (v.is_trusted request.borrower_account_id)
              ≡ some d)
            × (make_offer v request expires_at (some d) s ≡ (ok (some offer), s')))
  unfolding quote
  quote-made offer s s' h = matched (matching_policy v request request.principal_tinybar s) refl
    where
      matched :
          (o : Result MissionPolicy × Lender)
          → matching_policy v request request.principal_tinybar s ≡ o
          → (policy : MissionPolicy) × (matching_policy v request request.principal_tinybar s
              ≡ (ok policy, s))
            × ((d : LenderPolicyDecision) × (evaluate_lender_policy v.policy request.unsigned
                    (v.is_trusted request.borrower_account_id)
                  ≡ some d)
                × (make_offer v request expires_at (some d) s ≡ (ok (some offer), s')))
      matched (ok policy, t) e =
          let (kept, provisioned, of_borrower, in_cap) =
            matching_policy-ok v request request.principal_tinybar policy s t e in
          let decision =
            evaluate_lender_policy v.policy request.unsigned
              (v.is_trusted request.borrower_account_id) in
          (policy, ground arith, make_offer-decided decision offer s s' (ground (arith, kept)))
      matched (err x, t) e = absurd (ground arith)

  -- A quote for a new request is of a policy's mission and within its cap, and the lender will take its own offer back: until it
  -- expires the offer validates against the request under the lender's key, given that the hash of terms and the signature do what they promise.
  pub quote-IsSound :
      (offer : CreditOffer) (now : String) (s s' : Lender)
      → IsOwnKey v
      → IsNew s
      → v.verifier.is_after expires_at now ≡ true
      → quote v (some request) expires_at s ≡ (ok (some offer), s')
      → ((policy : MissionPolicy) × (get_mission_policy request.mission_id s.db
            ≡ (ok (some policy), s.db))
          × (offer.principal_tinybar ≤ℤ pos policy.spending_cap_tinybar))
        × IsSound v.verifier offer request v.lender_key now
  quote-IsSound offer now s s' own new in_time h =
      let (policy, matched, (d, decided, made)) = quote-made offer s s' h in
      let (kept, provisioned, of_borrower, in_cap) =
        matching_policy-ok v request request.principal_tinybar policy s s matched in
      let (same, fits) = make_offer-new d offer s s' new made in
      let lends =
        evaluate_lender_policy-Lends v.policy request.unsigned
          (v.is_trusted request.borrower_account_id) d decided in
      subst
        (λ o.
          ((p : MissionPolicy) × (get_mission_policy request.mission_id s.db ≡ (ok (some p), s.db))
            × (o.principal_tinybar ≤ℤ pos p.spending_cap_tinybar))
          × IsSound v.verifier o request v.lender_key now)
        (sym same)
        (
          (policy, provisioned, in_cap),
          record {
            signed = own.signs (offer_for d).unsigned;
            same_request = refl;
            in_time = in_time;
            covers = omega arith;
            terms = sym (own.hash_of_terms _ _);
            term = lends.same_term;
            fits = fits;
          },
        )
