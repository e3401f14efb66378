-- ===== src/Tests/Transition.antt =====
-- A mission that starts to look for services.
use koven.Prelude.{◌≡◌, refl, none, [], ◌∷◌}
use koven.Domain.Mission.{created, discovering_services, is_allowed}
use koven.Exec.{ok}
use koven.Persistence.Db.{Db, MissionRow, empty}
use koven.Persistence.Missions.{transition_mission, update_mission}
use koven.Persistence.Missions.Transition.{Moved, transition_mission-Moved}

abbrev mission : MissionRow
mission = record {
  id = "m";
  state = created;
  spending_cap = 100;
  spent = 0;
  approved_recipients_root = "12";
  target_ref = "repo";
  target_sha256 = "ab";
  session_id = none;
  created_at = "t0";
  updated_at = "t0";
}

abbrev before : Db
before = record empty { missions = mission ∷ [] }

abbrev moved : Db
moved = (transition_mission "m" created discovering_services "t1" before).1

runs : transition_mission "m" created discovering_services "t1" before ≡ (ok tt, moved)
unfolding transition_mission is_allowed update_mission
runs = refl

transition_mission-Moved_example : Moved "m" created discovering_services "t1" before moved
transition_mission-Moved_example =
    transition_mission-Moved "m" created discovering_services "t1" before {db' = moved} (refl, tt)
      runs
