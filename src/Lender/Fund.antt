-- ===== src/Lender/Fund.antt =====
-- `FundingService.accept` of agents/lenders/src/fund.ts: an accepted offer is funded by one transfer, which
-- is recorded before it is submitted, and registered with the signer until that succeeds. What the
-- gateway, the signer and the clock answer is an argument of the call; the clock gives one time to a call.
pub mod Transfer
use koven.Prelude.{
  ℕ, ◌-◌, ℤ, String, Option, none, some, Bool, true, false, not, List, ◌∷◌, ◌==◌, if◌then◌else◌,
}
use Prim.Native.String.{◌++◌}
use koven.Domain.Credit.{CreditRequest, CreditOffer}
use koven.Domain.Errors.{Error, ErrorCode, credit_protocol_error, zod_error}
use koven.Exec.{Exec, Result, ok, err, pure, throw, gets, lift, throw_if, modify, ◌>>=◌, ◌>>◌}
use koven.Lender.Store.{
  LenderDb, FundingRow, FundingStatus, reserved, preparing, SignedCreditAcceptance,
  LoanRegistration,
}
use koven.Lender.Store.Fundings.{
  reserve_funding, get_funding_by_offer, claim_funding_submission, release_funding_submission,
  set_funding_transaction, replace_funding_transaction, mark_funding_confirmed,
  enqueue_registration, pending_registration, record_registration_failure, mark_registered,
  funding_of,
}

pub data Reconciliation : Type 0 where
  confirmed pending failed : Reconciliation

-- `FundingTransfer`, without its callback.
pub record FundingTransfer : Type 0 where
  pub from_account_id : String
  pub to_account_id : String
  pub amount_tinybar : ℤ
  pub memo : String

-- The store, and the transfers that the gateway has been asked for.
pub record Lender : Type 0 where
  pub db : LenderDb
  pub transfers : List FundingTransfer

-- The answers to one call. The gateway's transfer calls `onPrepared` with a transaction's id or not
-- at all, and then resolves with an id or is rejected.
pub record Answers : Type 0 where
  pub reconciliation : Result Reconciliation
  pub prepared : Option String
  pub transfer : Result String
  pub registration : Result (Unit {0})
  pub token : String
  pub now : ℕ

-- The lender's account, the hash of an acceptance, the ids that are derived from an offer's, and the verdicts of the schemas.
pub record Formats : Type 0 where
  pub lender_account_id : String
  pub acceptance_hash : SignedCreditAcceptance → String
  pub funding_id : String → String
  pub loan_id : String → String
  pub is_registration : LoanRegistration → Bool
  pub is_response : String → Bool

abbrev put_db : {A : Type 0} → Lender → Result A × LenderDb → Result A × Lender
put_db s (r, db) = (r, record s { db = db })

abbrev pub on_db : {A : Type 0} → Exec LenderDb A → Exec Lender A
on_db m s = put_db s (m s.db)

abbrev pub protocol_error : {A : Type 0} → ErrorCode → Exec Lender A
protocol_error code = throw (credit_protocol_error code)

abbrev pub text_or : Option String → String → String
text_or none b = b
text_or (some a) b = a

abbrev pub transfer_for : Formats → CreditRequest → CreditOffer → String → FundingTransfer
transfer_for f request offer id = record {
  from_account_id = f.lender_account_id;
  to_account_id = request.borrower_account_id;
  amount_tinybar = offer.principal_tinybar;
  memo = "fund:" ++ id;
}

module _ (f : Formats) (lease_ms : ℕ) (x : Answers) (request : CreditRequest) (offer : CreditOffer)
    (signed : SignedCreditAcceptance) where
  -- `CreditAcceptResponseSchema.parse({ fundingTxId })`
  respond : Option String → Exec Lender String
  respond none s = protocol_error ErrorCode.settlement_unconfirmed s
  respond (some tx) s = (if f.is_response tx then ok tx else err zod_error, s)

  registration_request : String → LoanRegistration
  registration_request tx = record {
    loan_id = f.loan_id offer.id;
    request = request;
    offer = offer;
    signed = signed;
    funding_tx_id = tx;
  }

  -- The answer of the signer to the registration that is pending.
  registered : String → Result (Unit {0}) → Exec Lender (Unit {0})
  registered id (ok u) = on_db (mark_registered id x.now)
  registered id (err e) = do
    on_db (record_registration_failure id)
    protocol_error ErrorCode.settlement_unconfirmed

  -- The schema's verdict, the call and the mark are in one `try`. Of these only the mark writes, and it
  -- does not throw.
  register_pending : String → Option LoanRegistration → Exec Lender (Unit {0})
  unfolding registered
  register_pending id none = pure tt
  register_pending id (some payload) =
      if f.is_registration payload
      then registered id x.registration
      else registered id (err zod_error)

  -- What follows a confirmed funding.
  register : String → Option String → Exec Lender String
  unfolding register_pending registration_request respond
  register id none = protocol_error ErrorCode.settlement_unconfirmed
  register id (some tx) = do
    throw_if (not (f.is_registration (registration_request tx))) zod_error
    on_db (enqueue_registration id (registration_request tx))
    waiting ← on_db (pending_registration id)
    register_pending id waiting
    respond (some tx)

  -- The writes around the gateway's transfer, up to the first error.
  prepare : String → Option String → Exec Lender (Unit {0})
  prepare id none = pure tt
  prepare id (some tx) = on_db (set_funding_transaction id x.token tx x.now)

  -- The id that the gateway resolves with may be another one than was prepared.
  record_result : String → Option String → String → Exec Lender (Unit {0})
  record_result id none tx = on_db (set_funding_transaction id x.token tx x.now)
  record_result id (some old) tx =
      if old == tx
      then on_db (set_funding_transaction id x.token tx x.now)
      else on_db (replace_funding_transaction id x.token old tx x.now)

  submit : String → Exec Lender String
  unfolding prepare record_result
  submit id = do
    modify λ s. record s { transfers = transfer_for f request offer id ∷ s.transfers }
    prepare id x.prepared
    tx ← lift x.transfer
    record_result id x.prepared tx
    on_db (mark_funding_confirmed id tx x.now)
    pure tx

  abbrev has_transaction : Option FundingRow → Bool
  has_transaction none = false
  has_transaction (some r) = is_given r.transaction_id
    where
      is_given : Option String → Bool
      is_given none = false
      is_given (some tx) = true

  -- The `catch`.
  on_error : String → Error → Exec Lender String
  on_error id e = do
    stored ← on_db (get_funding_by_offer offer.id)
    throw_if (has_transaction stored) (credit_protocol_error ErrorCode.settlement_unconfirmed)
    released ← on_db (release_funding_submission id x.token x.now)
    throw e

  caught : String → Result String × Lender → Result String × Lender
  unfolding on_error
  caught id (ok tx, s) = (ok tx, s)
  caught id (err e, s) = on_error id e s

  try_submit : String → Exec Lender String
  unfolding caught submit
  try_submit id s = caught id (submit id s)

  -- The transfer of a funding that has no transaction.
  transfer : String → Exec Lender String
  unfolding try_submit register
  transfer id = do
    granted ← on_db (claim_funding_submission id x.token x.now (x.now - lease_ms))
    throw_if (not granted) (credit_protocol_error ErrorCode.settlement_unconfirmed)
    tx ← try_submit id
    register id (some tx)

  reconciled : FundingRow → String → Reconciliation → Exec Lender String
  unfolding register
  reconciled r tx confirmed = do
    on_db (mark_funding_confirmed r.id tx x.now)
    register r.id (some tx)
  reconciled r tx failed = protocol_error ErrorCode.funding_mismatch
  reconciled r tx pending = protocol_error ErrorCode.settlement_unconfirmed

  -- A funding with its transaction, by its status.
  with_transaction : FundingRow → String → FundingStatus → Exec Lender String
  unfolding reconciled register respond
  with_transaction r tx FundingStatus.registered = respond (some tx)
  with_transaction r tx FundingStatus.confirmed = register r.id (some tx)
  with_transaction r tx reserved = register r.id (some tx)
  with_transaction r tx preparing = do found ← lift x.reconciliation; reconciled r tx found
  with_transaction r tx FundingStatus.pending = do
    found ← lift x.reconciliation
    reconciled r tx found

  without_transaction : FundingRow → FundingStatus → Exec Lender String
  unfolding transfer respond
  without_transaction r FundingStatus.registered = respond none
  without_transaction r _ = transfer r.id

  with_funding : FundingRow → Option String → Exec Lender String
  unfolding with_transaction without_transaction
  with_funding r none = without_transaction r r.status
  with_funding r (some tx) = with_transaction r tx r.status

  unfoldable pub accept : Exec Lender String
  unfolding with_funding
  accept = do
    r ← on_db (reserve_funding f.funding_id offer.id (f.acceptance_hash signed) signed x.now)
    with_funding r r.transaction_id
