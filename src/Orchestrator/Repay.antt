-- ===== src/Orchestrator/Repay.antt =====
-- apps/orchestrator/src/workflows/repay.ts: `RepaymentWorkflow`, which closes a mission once its loan is
-- repaid. The answer of the signer is an argument, with what others do to the tables while it is awaited; the
-- mutex keeps the other runs for the mission out.
pub mod Closed
use koven.Prelude.{String, Option, none, some, Bool, not, ◌&&◌, is_none, if◌then◌else◌}
use koven.Domain.Mission.{MissionState, completed, repayment_pending, repaid, closed, same_state}
use koven.Domain.Credit.{Loan, LoanState, same_loan_state}
use koven.Domain.Errors.{Error, ErrorCode, repayment_error}
use koven.Exec.{Exec, Result, pure, throw, throw_if, or_throw, lift, modify, ◌>>=◌, ◌>>◌}
use koven.Persistence.Db.{Db, AuditEventType}
use koven.Persistence.Missions.{PersistedMission, get_mission}
use koven.Persistence.Loans.{loan_of_mission, update_loan_state}
use koven.Orchestrator.Machine.{Machine, TransitionAudit, transition, missing}

-- The machine, and the JSON of the details of its events.
pub record RepaymentWorkflow : Type 0 where
  pub machine : Machine
  pub without_credit_payload : String
  pub loan_payload : String → String
  pub repaid_payload : String → String → String

-- What one run meets: its time, and the answer of the signer with the work of others meanwhile.
pub record RepaymentRun : Type 0 where
  pub now : String
  pub answer : Result String
  pub while_paying : Db → Db

abbrev pub not_repayable : Error
not_repayable = repayment_error ErrorCode.mission_not_repayable

abbrev pub nothing : Exec Db (Unit {0})
nothing = pure tt

-- The write beside the transition to `repaid`.
unfoldable pub set_local_repaid : String → String → Exec Db (Unit {0})
set_local_repaid loan_id tx = do
  changed ← update_loan_state loan_id LoanState.funded LoanState.repaid none (some tx)
  throw_if (not changed) (repayment_error ErrorCode.loan_not_funded)

-- A mission that is closed already.
unfoldable pub closed_evidence : Loan → Exec Db (Option String)
closed_evidence loan =
    if same_loan_state loan.state LoanState.repaid && not (is_none loan.repayment_tx_id)
    then pure loan.repayment_tx_id
    else throw not_repayable

module _ (w : RepaymentWorkflow) (id : String) (x : RepaymentRun) where
  abbrev pub completed_audit : String → TransitionAudit
  completed_audit payload = record {
    type_of = AuditEventType.mission_completed;
    payload = payload;
    transaction_id = none;
  }

  abbrev pub settled_audit : Loan → String → TransitionAudit
  settled_audit loan tx = record {
    type_of = AuditEventType.repayment_settled;
    payload = w.repaid_payload loan.id tx;
    transaction_id = some tx;
  }

  -- No loan: there is nothing to repay.
  unfoldable pub close_without_credit : MissionState → Exec Db (Option String)
  close_without_credit state =
      if same_state state completed
      then (do
        _ ←
            transition w.machine id completed closed (completed_audit w.without_credit_payload)
              x.now nothing
        pure none)
      else pure none

  unfoldable pub request_repayment : Loan → MissionState → Exec Db MissionState
  request_repayment loan state =
      if same_state state completed
      then (do
        p ←
            transition w.machine id completed repayment_pending
              (completed_audit (w.loan_payload loan.id)) x.now nothing
        pure p.mission.state)
      else pure state

  -- The state and the transaction after the signer's command.
  unfoldable pub pay_loan : Loan → MissionState → Exec Db (MissionState × Option String)
  pay_loan loan state =
      if same_state state repayment_pending
      then (do
        modify x.while_paying
        tx ← lift x.answer
        p ←
            transition w.machine id repayment_pending repaid (settled_audit loan tx) x.now
              (set_local_repaid loan.id tx)
        pure (p.mission.state, some tx))
      else pure (state, loan.repayment_tx_id)

  unfoldable pub close_repaid : Loan → MissionState × Option String → Exec Db (Option String)
  close_repaid loan (state, paid) =
      if same_state state repaid
      then (do
        tx ← or_throw paid (repayment_error ErrorCode.internal_error)
        _ ← transition w.machine id repaid closed (settled_audit loan tx) x.now nothing
        pure (some tx))
      else throw not_repayable

  unfoldable pub settle_loan : MissionState → Loan → Exec Db (Option String)
  settle_loan state loan = do
    requested ← request_repayment loan state
    paid ← pay_loan loan requested
    close_repaid loan paid

  unfoldable pub with_loan : MissionState → Option Loan → Exec Db (Option String)
  with_loan state none = close_without_credit state
  with_loan state (some loan) =
      if same_state state closed then closed_evidence loan else settle_loan state loan

  -- `runLocked`
  unfoldable pub run_locked : Exec Db (Option String)
  unfolding get_mission
  run_locked = do
    found ← get_mission id
    mission ← or_throw found missing
    loan ← loan_of_mission id
    with_loan mission.mission.state loan
