-- ===== src/Tests/Closing.antt =====
-- A mission that is completed, with a funded loan that the signer repays.
use koven.Prelude.{◌≡◌, refl, Option, String, some, none, [], ◌∷◌}
use koven.Domain.Mission.{MissionState, completed, repaid, closed}
use koven.Domain.Credit.{LoanState}
use koven.Exec.{Result, ok, transaction}
use koven.Persistence.Db.{Db, empty, LoanRow}
use koven.Persistence.Missions.{transition_mission, update_mission}
use koven.Persistence.Loans.{loan_of_mission, update_loan_state}
use koven.Persistence.Events.{create_event}
use koven.Orchestrator.Machine.{transition, transition_body, read_again, after_move}
use koven.Orchestrator.Repay.{
  RepaymentWorkflow, RepaymentRun, run_locked, with_loan, settle_loan, request_repayment, pay_loan,
  close_repaid, set_local_repaid,
}
use koven.Orchestrator.Repay.Closed.{IsRepaid, run_locked-IsRepaid}
use koven.Tests.Machine.{machine, row}

-- Each transition has an event of its own.
abbrev event_name : MissionState → String
event_name closed = "e3"
event_name repaid = "e2"
event_name _ = "e1"

abbrev workflow : RepaymentWorkflow
workflow = record {
  machine = record machine { event_id = λ id from to. event_name to };
  without_credit_payload = "{}";
  loan_payload = λ id. id;
  repaid_payload = λ id tx. tx;
}

abbrev repayment_run : RepaymentRun
repayment_run = record { now = "t9"; answer = ok "tx"; while_paying = λ db. db }

abbrev loan : LoanRow
loan = record {
  id = "l";
  offer_id = "o";
  mission_id = "m";
  lender_account_id = "0.0.9";
  principal = 50;
  fee = 2;
  state = LoanState.funded;
  funding_tx_id = some "f";
  repayment_tx_id = none;
}

abbrev delivered : Db
delivered = record empty { missions = (record row { state = completed }) ∷ []; loans = loan ∷ [] }

abbrev closed_run : Result (Option String) × Db
closed_run = run_locked workflow "m" repayment_run delivered

is_closed : closed_run ≡ (ok (some "tx"), closed_run.1)
unfolding run_locked with_loan settle_loan request_repayment pay_loan close_repaid set_local_repaid
    transition koven.Domain.Mission.is_allowed koven.Domain.Mission.same_state transition_body
    read_again transition_mission update_mission after_move create_event transaction
    koven.Persistence.Missions.get_mission loan_of_mission update_loan_state
    koven.Persistence.Loans.get_loan koven.Domain.Credit.same_loan_state
is_closed = refl

run_locked-IsRepaid_example :
    IsRepaid workflow "m" repayment_run (λ db k. k) "tx" delivered closed_run.1
run_locked-IsRepaid_example =
    run_locked-IsRepaid workflow "m" repayment_run (λ db k. k) "tx" delivered closed_run.1
      (refl, tt) is_closed
