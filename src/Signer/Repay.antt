-- ===== src/Signer/Repay.antt =====
-- services/restricted-signer/src/repay.ts: the repayment of a loan by one signed transaction, which is
-- stored before it is submitted and built anew only when it can no longer execute. The calls for one
-- loan run one after the other, under the service's mutex. What the ledger and the clock answer to a
-- call is an argument of it; a promise that is rejected is an error.
pub mod Quiet
pub mod Flight
use koven.Prelude.{
  ℕ, ◌+◌, ◌+ℤ◌, ℤ, String, Option, none, some, Bool, true, false, not, List, ◌∷◌, ◌==◌, leb,
  is_none, if◌then◌else◌,
}
use Prim.Native.String.{◌++◌}
use koven.Domain.Credit.{Loan, LoanState, funded, repaid, same_loan_state}
use koven.Domain.Errors.{
  Error, ErrorCode, signer_error, credit_protocol_error, plain_error, zod_error,
}
use koven.Exec.{Exec, Result, ok, err, pure, throw, or_throw, lift, throw_if, modify, ◌>>=◌, ◌>>◌}
use koven.Persistence.Db.{AuditEventType, repayment_settled, repayment_idempotency_hit}
use koven.Persistence.Events.{Texts, create_event}
use koven.Signer.Types.{
  StoredRepayment, RepaymentStatus, pending, confirmed, SignerDb, StoredCompletion, on_db,
}
use koven.Signer.Store.Loan.{get_loan, mark_loan_repaid}
use koven.Signer.Store.Completion.{get_completion}
use koven.Signer.Store.Repayment.{
  PreparedRepayment, get_repayment, save_repayment, update_repayment,
}

-- In milliseconds.
abbrev pub repayment_failure_grace : ℕ
repayment_failure_grace = 600000

pub data SubmissionOutcome : Type 0 where
  success failed uncertain : SubmissionOutcome

pub record RepaymentTransfer : Type 0 where
  pub from : String
  pub to : String
  pub amount_tinybar : ℤ
  pub memo : String

-- `RepayRequestSchema`, parsed.
pub record RepayRequest : Type 0 where
  pub mission_id : String
  pub loan_id : String

-- The service's store, and what has gone to the ledger, the latest first: the transfers that were
-- prepared, and the bytes that were submitted.
pub record Service : Type 0 where
  pub store : SignerDb
  pub built : List RepaymentTransfer
  pub sent : List String

-- The answers to one call: the confirmer's on the stored transaction, the ledger's on a preparation and
-- a submission, the time in milliseconds and as a text, and the id of the event.
pub record Answers : Type 0 where
  pub confirmation : Result (Unit {0})
  pub preparation : Result PreparedRepayment
  pub submission : Result SubmissionOutcome
  pub now : ℕ
  pub now_text : String
  pub event_id : String

-- `canonicalHash` and `JSON.stringify` of a loan's and a transaction's id, and the verdict of
-- `RepayResponseSchema`.
pub record Formats : Type 0 where
  pub texts : Texts
  pub payload_hash : String → String → String
  pub payload_json : String → String → String
  pub is_response : String → Bool

abbrev pub put_store : {A : Type 0} → Service → Result A × SignerDb → Result A × Service
put_store s (r, t) = (r, record s { store = t })

abbrev pub on_store : {A : Type 0} → Exec SignerDb A → Exec Service A
on_store m s = put_store s (m s.store)

abbrev pub unconfirmed : Error
unconfirmed = signer_error ErrorCode.settlement_unconfirmed

-- `"code" in error && error.code === ErrorCode.SETTLEMENT_UNCONFIRMED`
abbrev pub is_unconfirmed : Error → Bool
is_unconfirmed (signer_error ErrorCode.settlement_unconfirmed) = true
is_unconfirmed (credit_protocol_error ErrorCode.settlement_unconfirmed) = true
is_unconfirmed _ = false

module _ (f : Formats) (account_id : String) (x : Answers) where
  emit : String → AuditEventType → String → String → Exec Service (Unit {0})
  emit mission_id type_of loan_id tx = on_store (
      on_db (
        create_event f.texts (record {
          id = x.event_id;
          mission_id = mission_id;
          type_of = type_of;
          payload_hash = f.payload_hash loan_id tx;
          payload = f.payload_json loan_id tx;
          transaction_id = some tx;
          occurred_at = x.now_text;
          published_at = none;
        })))

  -- `RepayResponseSchema.parse({ transactionId })`
  respond : String → Exec Service String
  respond tx s = (if f.is_response tx then ok tx else err zod_error, s)

  pub settle : Loan → String → Exec Service String
  unfolding emit respond
  settle l tx = do
    on_store (update_repayment l.id confirmed none)
    on_store (mark_loan_repaid l.id tx)
    emit l.mission_id repayment_settled l.id tx
    respond tx

  -- What follows the submission of the bytes.
  pub after_submission : Loan → StoredRepayment → SubmissionOutcome → Exec Service String
  unfolding settle
  after_submission l r success = settle l r.transaction_id
  after_submission l r failed = do
    on_store (
        update_repayment l.id RepaymentStatus.failed
          (some "Repayment transaction failed at consensus"))
    throw unconfirmed
  after_submission l r uncertain = do
    on_store (update_repayment l.id pending (some "Repayment submission outcome is uncertain"))
    throw unconfirmed

  send : Loan → StoredRepayment → Exec Service String
  unfolding after_submission
  send l r = do
    modify λ s. record s { sent = r.transaction_base64 ∷ s.sent }
    outcome ← lift x.submission
    after_submission l r outcome

  abbrev pub transfer_of : Loan → RepaymentTransfer
  transfer_of l = record {
    from = account_id;
    to = l.lender_account_id;
    amount_tinybar = l.principal_tinybar +ℤ l.fee_tinybar;
    memo = "repayment:" ++ l.id;
  }

  -- `getRepayment(loan.id)!`
  send_stored : Loan → Option StoredRepayment → Exec Service String
  unfolding send
  send_stored l none = throw plain_error
  send_stored l (some r) = send l r

  prepare_and_send : Loan → Exec Service String
  unfolding send_stored
  prepare_and_send l = do
    modify λ s. record s { built = transfer_of l ∷ s.built }
    p ← lift x.preparation
    on_store (save_repayment l.id p)
    stored ← on_store (get_repayment l.id)
    send_stored l stored

  -- `confirm`, and `settle` if it resolves.
  pub confirm_and_settle : Loan → StoredRepayment → Exec Service String
  unfolding settle
  confirm_and_settle l r = do u ← lift x.confirmation; settle l r.transaction_id

  -- The transaction is not seen on the ledger; has its time passed, with and without the grace?
  on_unseen : Loan → StoredRepayment → Bool → Bool → Exec Service String
  unfolding prepare_and_send send
  on_unseen l r true late = do
    on_store (
        update_repayment l.id RepaymentStatus.failed
          (some "Transaction expired without reaching consensus"))
    prepare_and_send l
  on_unseen l r false true = throw unconfirmed
  on_unseen l r false false = send l r

  unseen : Loan → StoredRepayment → Exec Service String
  unfolding on_unseen
  unseen l r =
      on_unseen l r (leb (r.valid_until + repayment_failure_grace) x.now) (leb r.valid_until x.now)

  -- The `catch`: only `settlement_unconfirmed` goes on.
  on_error : Loan → StoredRepayment → Error → Bool → Exec Service String
  unfolding unseen
  on_error l r e true = unseen l r
  on_error l r e false = throw e

  caught : Loan → StoredRepayment → Result String × Service → Result String × Service
  unfolding on_error
  caught l r (ok tx, s) = (ok tx, s)
  caught l r (err e, s) = on_error l r e (is_unconfirmed e) s

  with_status : Loan → StoredRepayment → RepaymentStatus → Exec Service String
  unfolding settle confirm_and_settle caught prepare_and_send
  with_status l r confirmed s = settle l r.transaction_id s
  with_status l r pending s = caught l r (confirm_and_settle l r s)
  with_status l r RepaymentStatus.failed s = prepare_and_send l s

  pub with_repayment : Loan → Option StoredRepayment → Exec Service String
  unfolding with_status prepare_and_send
  with_repayment l none = prepare_and_send l
  with_repayment l (some r) = with_status l r r.status

  pub repay_funded : Loan → Exec Service String
  unfolding with_repayment
  repay_funded l = do
    throw_if (not (same_loan_state l.state funded)) (signer_error ErrorCode.loan_not_funded)
    completion ← on_store (get_completion l.mission_id)
    throw_if (is_none completion) (signer_error ErrorCode.mission_not_repayable)
    stored ← on_store (get_repayment l.id)
    with_repayment l stored

  -- A loan that is repaid answers with its transaction again.
  repay_loan : Loan → Option String → Exec Service String
  unfolding emit respond repay_funded
  repay_loan l none = repay_funded l
  repay_loan l (some tx) =
      if same_loan_state l.state repaid
      then (do emit l.mission_id repayment_idempotency_hit l.id tx; respond tx)
      else repay_funded l

  unfoldable pub repay : RepayRequest → Exec Service String
  unfolding repay_loan
  repay q = do
    found ← on_store (get_loan q.loan_id)
    l ← or_throw found (signer_error ErrorCode.not_found)
    throw_if (not (l.mission_id == q.mission_id)) (signer_error ErrorCode.request_invalid)
    repay_loan l l.repayment_tx_id
