-- ===== src/Lender/Server/Validated.antt =====
-- What agents/lenders/src/server.ts has validated before it funds a loan.
use koven.Prelude.{ℤ, pos, ◌≤ℤ◌, ◌≡◌, String, some, arith, eq_iff}
use koven.Domain.Credit.{CreditRequest}
use koven.Exec.{ok, ◌>>◌}
use koven.CreditProtocol.{validate_credit_acceptance}
use koven.CreditProtocol.Offers.{IsSound}
use koven.Signer.Types.{MissionPolicy}
use koven.Lender.Store.{OfferRow, get_mission_policy, get_offer}
use koven.Lender.Fund.{Lender}
use koven.Lender.Server.{AcceptBody, Server, matching_policy, check_evidence}

module _ {Key : Type 0} (v : Server Key) where
  -- A stored offer and its acceptance that a lender may fund.
  pub record IsFundable (body : AcceptBody) (stored : OfferRow) (now later : String) (s : Lender)
      : Type 0 where
    pub offered : get_offer body.acceptance.offer_id s.db ≡ (ok (some stored), s.db)
    pub borrower_key : String
    pub pinned : v.borrower_key stored.request.borrower_account_id ≡ some borrower_key
    pub policy : MissionPolicy
    pub provisioned : get_mission_policy stored.request.mission_id s.db ≡ (ok (some policy), s.db)
    pub of_borrower : policy.borrower_account_id ≡ stored.request.borrower_account_id
    pub in_cap : stored.offer.principal_tinybar ≤ℤ pos policy.spending_cap_tinybar
    pub sound : IsSound v.verifier stored.offer stored.request v.lender_key now
    pub accepted :
        validate_credit_acceptance v.verifier body.acceptance body.signature stored.request
          stored.offer borrower_key later tt
        ≡ (ok tt, tt)
    pub evidenced :
        check_evidence v v.is_zk v.proof_verifier policy stored.offer body.payment_intent
          body.payment_proof_bundle tt
        ≡ (ok tt, tt)

  pub matching_policy-ok :
      (request : CreditRequest) (principal : ℤ) (policy : MissionPolicy) (s s' : Lender)
      → matching_policy v request principal s ≡ (ok policy, s')
      → (s' ≡ s)
        × (get_mission_policy request.mission_id s.db ≡ (ok (some policy), s.db))
        × (policy.borrower_account_id ≡ request.borrower_account_id)
        × (principal ≤ℤ pos policy.spending_cap_tinybar)
  unfolding matching_policy get_mission_policy
  matching_policy-ok request principal policy s s' h = (
    ground arith,
    ground arith,
    ground (arith, eq_iff policy.borrower_account_id request.borrower_account_id),
    ground arith,
  )
