-- ===== src/Lender/Store.antt =====
-- agents/lenders/src/store.ts: the lender's own tables, with the policies, the offers that it has made,
-- the fundings of accepted offers and the registrations that wait to reach the signer.
pub mod Fundings
use koven.Prelude.{
  ℕ, String, Option, none, some, Bool, true, false, not, List, [], ◌∷◌, ◌&&◌, ◌||◌, ◌==◌, eqb, leb,
  if◌then◌else◌,
}
use koven.Domain.Credit.{CreditRequest, CreditOffer, CreditAcceptance}
use koven.Domain.Errors.{Error, ErrorCode, credit_protocol_error, unique_constraint}
use koven.Exec.{Exec, ok, err, pure, gets, throw, throw_if, ◌>>=◌, ◌>>◌}
use koven.Sql.{select, exists, has_key}
use koven.Signer.Types.{MissionPolicy}

pub record SignedCreditAcceptance : Type 0 where
  pub acceptance : CreditAcceptance
  pub signature : String

pub data FundingStatus : Type 0 where
  reserved preparing pending confirmed registered : FundingStatus

pub record PolicyRow : Type 0 where
  pub mission_id : String
  pub content_hash : String
  pub policy : MissionPolicy

pub record OfferRow : Type 0 where
  pub id : String
  pub request_id : String
  pub request_hash : String
  pub request : CreditRequest
  pub offer : CreditOffer

-- `updated_at` is the time of an ISO text, in milliseconds: such texts have one format, so that SQL
-- compares them as the times.
pub record FundingRow : Type 0 where
  pub id : String
  pub offer_id : String
  pub acceptance_hash : String
  pub acceptance : SignedCreditAcceptance
  pub transaction_id : Option String
  pub submission_token : Option String
  pub status : FundingStatus
  pub updated_at : ℕ

-- The request for the registration of a loan with the signer.
pub record LoanRegistration : Type 0 where
  pub loan_id : String
  pub request : CreditRequest
  pub offer : CreditOffer
  pub signed : SignedCreditAcceptance
  pub funding_tx_id : String

pub record RegistrationRow : Type 0 where
  pub funding_id : String
  pub payload : LoanRegistration
  pub attempts : ℕ
  pub is_delivered : Bool

pub record LenderDb : Type 0 where
  pub policies : List PolicyRow
  pub offers : List OfferRow
  pub fundings : List FundingRow
  pub registrations : List RegistrationRow

abbrev pub empty : LenderDb
empty = record { policies = []; offers = []; fundings = []; registrations = [] }

pub data Registered : Type 0 where
  registered duplicate : Registered

abbrev pub policy_key : PolicyRow → String
policy_key r = r.mission_id

abbrev pub find_policy : String → LenderDb → Option PolicyRow
find_policy id s = select (has_key policy_key id) s.policies

-- `INSERT OR IGNORE`, and the row that was there before it.
keep_policy : PolicyRow → Option PolicyRow → Exec LenderDb Registered
keep_policy row none s = (ok Registered.registered, record s { policies = row ∷ s.policies })
keep_policy row (some existing) s = (
  if existing.content_hash == row.content_hash
      then ok duplicate
      else err (credit_protocol_error ErrorCode.mission_policy_conflict),
  s,
)

-- `hash` is `canonicalHash` of a policy.
unfoldable pub register_mission_policy :
    (MissionPolicy → String) → MissionPolicy → Exec LenderDb Registered
unfolding keep_policy
register_mission_policy hash p = do
  existing ← gets (find_policy p.mission_id)
  keep_policy (record { mission_id = p.mission_id; content_hash = hash p; policy = p }) existing

abbrev policy_in : Option PolicyRow → Option MissionPolicy
policy_in none = none
policy_in (some r) = some r.policy

unfoldable pub get_mission_policy : String → Exec LenderDb (Option MissionPolicy)
get_mission_policy id = gets λ s. policy_in (find_policy id s)

abbrev pub offer_key : OfferRow → String
offer_key r = r.id

abbrev pub request_key : OfferRow → String
request_key r = r.request_id

-- `getOfferByRequest`
abbrev pub offer_by_request : String → LenderDb → Option OfferRow
offer_by_request request_id s = select (has_key request_key request_id) s.offers

-- The `catch` of the INSERT, with the offer for the same request.
offer_conflict :
    (CreditRequest → String) → CreditRequest → Option OfferRow → Exec LenderDb CreditOffer
offer_conflict hash request none = throw (credit_protocol_error ErrorCode.idempotency_conflict)
offer_conflict hash request (some existing) =
    if hash existing.request == hash request
    then pure existing.offer
    else throw (credit_protocol_error ErrorCode.idempotency_conflict)

-- `hash` is `canonicalHash` of a request. The id and the request's id are unique columns.
unfoldable pub save_offer :
    (CreditRequest → String) → CreditRequest → CreditOffer → Exec LenderDb CreditOffer
unfolding offer_conflict
save_offer hash request offer s =
    if exists (has_key offer_key offer.id) s.offers
      || exists (has_key request_key request.id) s.offers
    then offer_conflict hash request (offer_by_request request.id s) s
    else (
      ok offer,
      record s {
        offers =
            (record {
              id = offer.id;
              request_id = request.id;
              request_hash = hash request;
              request = request;
              offer = offer;
            })
            ∷ s.offers;
      },
    )

unfoldable pub get_offer : String → Exec LenderDb (Option OfferRow)
get_offer id = gets λ s. select (has_key offer_key id) s.offers
