-- ===== src/Tests/Machine.antt =====
-- Two calls of the orchestrator's state machine on a mission, and two that pay a service from a mission with an authorized payment.
use koven.Prelude.{refl, pos, ◌≡◌, some, none, true, [], ◌∷◌}
use koven.Domain.Mission.{
  is_allowed, created, discovering_services, payment_authorized, service_paid, repaid,
}
use koven.Exec.{Exec, pure}
use koven.Persistence.Db.{Db, empty, MissionRow, mission_created}
use koven.Persistence.Missions.{
  record_mission_spending, update_mission, find_mission, transition_mission,
}
use koven.Persistence.Events.{create_event}
use koven.Orchestrator.Machine.{
  Machine, TransitionAudit, transition_body, after_move, read_again, transition,
}
use koven.Orchestrator.Machine.Lived.{HasLived, same-KeepsStates}
use koven.Orchestrator.Machine.Life.{
  Steps, start, transitioned, Steps-HasLived, record_mission_spending-LeavesStates,
}

abbrev pub machine : Machine
machine = record {
  texts = record { is_sha256_hex = λ t. true; json_bytes = λ e. 100; parse_date = λ t. some 1 };
  event_id = λ id from to. id;
  payload_of = λ from to detail. detail;
  hash = λ t. t;
}

abbrev audit : TransitionAudit
audit = record { type_of = mission_created; payload = "{}"; transaction_id = none }

abbrev pub row : MissionRow
row = record {
  id = "m";
  state = created;
  spending_cap = 100;
  spent = 0;
  approved_recipients_root = "12";
  target_ref = "ref";
  target_sha256 = "ab";
  session_id = none;
  created_at = "t0";
  updated_at = "t0";
}

abbrev with_mission : Db
with_mission = record empty { missions = row ∷ [] }

abbrev paid_row : MissionRow
paid_row = record row { id = "n"; state = payment_authorized }

abbrev with_missions : Db
with_missions = record empty { missions = row ∷ paid_row ∷ [] }

abbrev once : Db
once = (transition machine "m" created discovering_services audit "t1" (pure tt) with_missions).1

abbrev twice : Db
twice = (transition machine "m" created repaid audit "t2" (pure tt) once).1

abbrev spend : Exec Db (Unit {0})
spend = record_mission_spending "n" (pos 5)

abbrev thrice : Db
thrice = (transition machine "n" payment_authorized service_paid audit "t3" spend twice).1

all-Steps : Steps machine with_missions thrice
all-Steps =
    transitioned
      (transitioned
        (transitioned start "m" created discovering_services audit "t1" (pure tt)
          (λ db. same-KeepsStates db db refl))
        "m" created repaid audit "t2" (pure tt) (λ db. same-KeepsStates db db refl))
      "n" payment_authorized service_paid audit "t3" spend
      (record_mission_spending-LeavesStates machine "n" (pos 5))

-- The service is paid, and its price is on record.
paid_for :
    find_mission "n" thrice
    ≡ some (record paid_row { state = service_paid; spent = 5; updated_at = "t3" })
unfolding transition transition_body after_move read_again transition_mission create_event
    is_allowed record_mission_spending update_mission
paid_for = refl

Steps-HasLived_example : HasLived "n" payment_authorized thrice
Steps-HasLived_example =
    Steps-HasLived machine "n" with_missions thrice paid_row all-Steps (refl, (refl, tt)) refl
