-- ===== src/Provider/Server.antt =====
-- services/resource-server/src/server.ts: a paid scan. What the facilitator, the engine and the mirror node
-- answer are arguments, and what other requests do to the store while this one waits for them is a list
-- of calls, run at each wait.
pub mod Steps
pub mod Settled
pub mod Released
use koven.Prelude.{
  ℕ, String, Option, none, some, Bool, true, false, not, List, ◌&&◌, ◌||◌, ◌==◌, is_none, same_text,
  if◌then◌else◌,
}
use Prim.Native.String.{◌++◌}
use koven.Domain.Errors.{
  Error, ErrorCode, settlement_confirmation_error, payment_authorization_error, plain_error,
  zod_error,
}
use koven.Domain.Scan.{Finding, ScanReport}
use koven.Exec.{
  Exec, Result, ok, err, pure, throw, throw_if, or_throw, modify, catch, gets, ◌>>=◌, ◌>>◌,
}
use koven.X402.{Checked}
use koven.Provider.Types.{
  ProviderDb, StoredPayment, PolicySnapshot, Attempt, SettleResponse, hedera_testnet, is_completed,
  is_failed, store_error,
}
use koven.Provider.Payments.{
  Texts, PaymentClaim, payment_in, get_payment, claim_payment, save_report,
  renew_verified_payment_lease, mark_settlement_attempted,
}
use koven.Provider.Settlements.{
  is_amount, is_prepared, is_over, save_settlement, record_unconfirmed_settlement,
  complete_and_enqueue,
}
use koven.Provider.Authorization.{Libraries, parse_candidate, parse_base, validate_attempt, invalid}
use koven.Provider.Scan.{Reports, ScanFailureMode, scan}
use koven.Provider.Life.History.{Call, run}

-- The options of the server and the libraries. `callback_body` is the canonical JSON of a callback, none
-- where its schema refuses it; `decoded` is that of the settlement in a response header.
pub record PaidScanServer (Body : Type 0) : Type 0 where
  pub libraries : Libraries Body
  pub texts : Texts
  pub reports : Reports
  pub provider_id : String
  pub policy : PolicySnapshot
  pub signer_keys : String → Option String
  pub failure_mode : ScanFailureMode
  pub callback_body : ScanReport → String → String → Option String
  pub encode_header : SettleResponse → String
  pub decoded : String → Option String

-- The answer of `SettlementConfirmer.confirm`.
pub data Confirmation : Type 0 where
  confirmed : String → Confirmation
  refused : ErrorCode → Confirmation
  broken : Confirmation

-- The answer of the facilitator to the verification of a payment.
pub data Verification : Type 0 where
  verified unavailable refused unexpected : Verification

-- The answer to the settlement: a success with the response header, or no success.
pub data Settling : Type 0 where
  success : SettleResponse → Option String → Settling
  failure : Settling

pub data Response : Type 0 where
  report : ScanReport → Option String → Response
  payment_required processing : Response

-- What a request meets: the ids and times that it draws, the answers that it gets, and what others do while
-- it waits for each.
pub record Answers : Type 0 where
  pub token : String
  pub now : ℕ
  pub renewed_at : ℕ
  pub reported_at : ℕ
  pub attempted_at : ℕ
  pub verification : Verification
  pub while_verifying : List Call
  pub findings : Option (List Finding)
  pub started_at : String
  pub completed_at : String
  pub while_scanning : List Call
  pub settling : Settling
  pub while_settling : List Call
  pub confirmation : Confirmation
  pub while_confirming : List Call
  pub later : ℕ

abbrev pub unconfirmed_error : Error
unconfirmed_error = settlement_confirmation_error ErrorCode.settlement_unconfirmed

abbrev pub is_unconfirmed_code : ErrorCode → Bool
is_unconfirmed_code ErrorCode.settlement_unconfirmed = true
is_unconfirmed_code _ = false

abbrev pub is_unconfirmed : Error → Bool
is_unconfirmed (settlement_confirmation_error code) = is_unconfirmed_code code
is_unconfirmed _ = false

abbrev pub checked : {A : Type 0} → Checked A → Exec ProviderDb A
checked m s = ((m tt).0, s)

abbrev pub synthetic_settlement : StoredPayment → SettleResponse
synthetic_settlement r = record {
  success = true;
  payer = some r.request.payment_authorization.borrower_account_id;
  transaction = r.transaction_id;
  network = hedera_testnet;
  amount = none;
}

abbrev pub or_else : {A : Type 0} → Option A → A → A
or_else none a = a
or_else (some x) a = x

module _ {Body : Type 0} (v : PaidScanServer Body) where
  -- An `await`, at which other requests run.
  unfoldable pub wait : List Call → Exec ProviderDb (Unit {0})
  wait others s = (ok tt, run v.texts v.reports.sha256 others s)

  -- `callbackFor` and the completion.
  unfoldable pub complete_with : String → String → ℕ → StoredPayment → Exec ProviderDb (Unit {0})
  complete_with id settled_at now current = do
    r ← or_throw current.report store_error
    body ← or_throw (v.callback_body r current.transaction_id settled_at) zod_error
    complete_and_enqueue v.reports.sha256 id
        ("mission-complete:" ++ (r.mission_id ++ (":" ++ r.report_sha256))) body now

  -- The payment's settlement, where it has none yet.
  unfoldable pub keep_settlement : StoredPayment → ℕ → Exec ProviderDb (Unit {0})
  keep_settlement payment now =
      if is_none payment.settlement
      then (let x = synthetic_settlement payment in
          save_settlement v.texts payment.transaction_id x
            (or_else payment.response_header (v.encode_header x)) now)
      else pure tt

  -- The completion, and the row after it.
  unfoldable pub complete_and_read :
      String → String → ℕ → StoredPayment → Exec ProviderDb (Option StoredPayment)
  unfolding get_payment
  complete_and_read id settled_at now current = do
    complete_with id settled_at now current
    get_payment id

  unfoldable pub finish_confirmed :
      String → ℕ → StoredPayment → Exec ProviderDb (Option StoredPayment)
  unfolding get_payment
  finish_confirmed settled_at now payment = do
    keep_settlement payment now
    found ← get_payment payment.transaction_id
    current ← or_throw found plain_error
    complete_and_read payment.transaction_id settled_at now current

  unfoldable pub on_confirmation :
      Confirmation → ℕ → StoredPayment → Exec ProviderDb (Option StoredPayment)
  on_confirmation (confirmed settled_at) now payment = finish_confirmed settled_at now payment
  on_confirmation (refused code) now payment = do
    _ ← record_unconfirmed_settlement payment.transaction_id now (is_unconfirmed_code code)
    throw (settlement_confirmation_error code)
  on_confirmation broken now payment = throw plain_error

  -- `reconcile`
  unfoldable pub reconcile :
      List Call → Confirmation → ℕ → StoredPayment → Exec ProviderDb (Option StoredPayment)
  reconcile others confirmation now payment =
      if is_over payment
      then pure (some payment)
      else (if is_prepared payment
          then (do wait others; on_confirmation confirmation now payment)
          else pure none)

  abbrev pub stored_response : Bool → StoredPayment → Option ScanReport → Exec ProviderDb Response
  stored_response unconfirmed current none =
      if unconfirmed then throw unconfirmed_error else pure processing
  stored_response unconfirmed current (some r) =
      if is_none current.settlement
      then (if unconfirmed then throw unconfirmed_error else pure processing)
      else pure (report r current.response_header)

  unfoldable pub respond_current : Bool → Option StoredPayment → Exec ProviderDb Response
  respond_current unconfirmed none =
      if unconfirmed then throw unconfirmed_error else pure processing
  respond_current unconfirmed (some current) =
      if is_failed current.status
      then throw invalid
      else stored_response unconfirmed current current.report

  -- An unconfirmed settlement is answered from the store.
  unfoldable pub respond_after :
      String → Result (Option StoredPayment) × ProviderDb → Result Response × ProviderDb
  respond_after id (ok current, s) = respond_current false current s
  respond_after id (err e, s) =
      if is_unconfirmed e then respond_current true (payment_in id s) s else (err e, s)

  -- `respondWithExisting`
  unfoldable pub respond_with_existing : Answers → StoredPayment → Exec ProviderDb Response
  respond_with_existing x payment s =
      respond_after payment.transaction_id
        (reconcile x.while_confirming x.confirmation x.later payment s)

  -- `assertSettlementResult`
  unfoldable pub assert_settlement_result : SettleResponse → Attempt → Checked (Unit {0})
  assert_settlement_result x a =
      throw_if
        (not (
          x.success
          && x.transaction == a.authorization.transaction_id
          && x.network == a.policy.network
          && same_text x.payer (some a.authorization.borrower_account_id)
          && is_amount v.texts.to_decimal x.amount a.authorization.amount_tinybar))
        (settlement_confirmation_error ErrorCode.payment_authorization_mismatch)

  -- `safePaymentResponseHeaders`
  unfoldable pub safe_header : Option String → SettleResponse → Checked String
  safe_header header x = do
    value ← or_throw header store_error
    throw_if (not (same_text (v.decoded value) (some (v.texts.settlement_json x)))) store_error
    pure value

  -- The `catch` around the last reconciliation.
  abbrev pub ignore_unconfirmed : Error → Exec ProviderDb (Option StoredPayment)
  ignore_unconfirmed e = if is_unconfirmed e then pure none else throw e

  -- The reconciliation of the settlement that has been saved, and the report.
  unfoldable pub after_saving : String → Answers → ScanReport → String → Exec ProviderDb Response
  unfolding get_payment
  after_saving id x r header = do
    found ← get_payment id
    payment ← or_throw found plain_error
    _ ← catch (reconcile x.while_confirming x.confirmation x.later payment) ignore_unconfirmed
    pure (report r (some header))

  unfoldable pub save_settled :
      String → Answers → ScanReport → SettleResponse → String → Exec ProviderDb Response
  save_settled id x r settlement header = do
    save_settlement v.texts id settlement header x.later
    after_saving id x r header

  -- After the settlement has been asked for.
  unfoldable pub after_settling :
      Attempt → Answers → ScanReport → Settling → Exec ProviderDb Response
  after_settling a x r failure = do
    _ ← record_unconfirmed_settlement a.authorization.transaction_id x.later true
    throw unconfirmed_error
  after_settling a x r (success settlement given) = do
    checked (assert_settlement_result settlement a)
    header ← checked (safe_header given settlement)
    save_settled a.authorization.transaction_id x r settlement header

  -- The report that is stored, or a scan.
  unfoldable pub prepare_report :
      Body → Attempt → Answers → Option ScanReport → Exec ProviderDb ScanReport
  prepare_report body a x (some r) = pure r
  prepare_report body a x none = do
    request ← checked (parse_base v.libraries body)
    wait x.while_scanning
    r ←
        checked (
          scan v.reports request v.provider_id v.failure_mode x.findings x.started_at
            x.completed_at)
    save_report v.texts a.authorization.transaction_id x.token r x.reported_at
    pure r

  -- The holder of a claim, once the facilitator has verified the payment.
  unfoldable pub settle_claim :
      Body → Attempt → Answers → Option ScanReport → Exec ProviderDb Response
  settle_claim body a x stored = do
    renew_verified_payment_lease a.authorization.transaction_id x.token x.renewed_at
    r ← prepare_report body a x stored
    mark_settlement_attempted a.authorization.transaction_id x.token x.attempted_at
    wait x.while_settling
    after_settling a x r x.settling

  unfoldable pub after_verifying :
      Body → Attempt → Answers → Option ScanReport → Verification → Exec ProviderDb Response
  after_verifying body a x stored unavailable = throw unconfirmed_error
  after_verifying body a x stored refused = pure payment_required
  after_verifying body a x stored unexpected = throw plain_error
  after_verifying body a x stored verified = settle_claim body a x stored

  unfoldable pub with_claim : Body → Attempt → Answers → PaymentClaim → Exec ProviderDb Response
  with_claim body a x claim =
      if claim.owned
      then (do wait x.while_verifying; after_verifying body a x claim.payment.report x.verification)
      else respond_with_existing x claim.payment

  abbrev pub stored_policy : ProviderDb → String → String → Option PolicySnapshot
  stored_policy s id fingerprint = of (payment_in id s)
    where
      of : Option StoredPayment → Option PolicySnapshot
      of none = none
      of (some r) = if r.fingerprint == fingerprint then some r.policy else none

  -- An expired authorization serves only a retry of a payment that has been attempted.
  abbrev pub may_retry : Attempt → Option StoredPayment → Bool
  may_retry a none = false
  may_retry a (some r) =
      r.fingerprint == a.fingerprint && (r.settlement_attempted && not (is_failed r.status))

  unfoldable pub validate : Body → String → ℕ → Exec ProviderDb Attempt
  validate body header now s =
      checked
        (validate_attempt v.libraries body header v.policy v.signer_keys now true (stored_policy s))
        s

  unfoldable pub serve_attempt : Body → Answers → Attempt → Exec ProviderDb Response
  unfolding get_payment
  serve_attempt body x a = do
    found ← get_payment a.authorization.transaction_id
    throw_if (a.authorization_expired && not (may_retry a found)) invalid
    claim ← claim_payment a x.token x.now
    with_claim body a x claim

  unfoldable pub paid_scan : Body → String → Answers → Exec ProviderDb Response
  paid_scan body header x = do
    _ ← checked (parse_base v.libraries body)
    a ← validate body header x.now
    serve_attempt body x a

  -- `POST /scan`: without a payment, the x402 library answers with its terms.
  unfoldable pub scan_handler : Body → Option String → Answers → Exec ProviderDb Response
  scan_handler body none x = do
    _ ← checked (parse_candidate v.libraries body)
    pure payment_required
  scan_handler body (some header) x = paid_scan body header x
