-- ===== src/Orchestrator/Machine.antt =====
-- apps/orchestrator/src/state/mission-state-machine.ts: a transition of a mission and its event, in one
-- transaction. The sink that is woken afterwards is not modelled: its errors are caught.
pub mod Lived
pub mod Life
use koven.Prelude.{String, Option, none, some, not, is_none}
use koven.Domain.Mission.{MissionState, is_allowed}
use koven.Domain.Errors.{Error, persistence_not_found, illegal_transition, Entity}
use koven.Exec.{Exec, pure, or_throw, throw_if, transaction, ◌>>=◌, ◌>>◌}
use koven.Persistence.Db.{Db, AuditEventType}
use koven.Persistence.Missions.{PersistedMission, get_mission, transition_mission}
use koven.Persistence.Events.{LocalEvent, Texts, create_event}

-- The payload is its canonical JSON.
pub record TransitionAudit : Type 0 where
  pub type_of : AuditEventType
  pub payload : String
  pub transaction_id : Option String

-- The id of the event of one call, the JSON of `{ from, to, detail }`, and SHA-256.
pub record Machine : Type 0 where
  pub texts : Texts
  pub event_id : String → MissionState → MissionState → String
  pub payload_of : MissionState → MissionState → String → String
  pub hash : String → String

abbrev pub missing : Error
missing = persistence_not_found Entity.mission

module _ (m : Machine) where
  abbrev pub event_of :
      String → MissionState → MissionState → String → TransitionAudit → String → LocalEvent
  event_of id from to payload audit now = record {
    id = m.event_id id from to;
    mission_id = id;
    type_of = audit.type_of;
    payload_hash = m.hash payload;
    payload = payload;
    transaction_id = audit.transaction_id;
    occurred_at = now;
    published_at = none;
  }

  unfoldable pub read_again : String → Exec Db PersistedMission
  unfolding get_mission
  read_again id = do found ← get_mission id; or_throw found missing

  -- After the transition: the event, and what the caller writes with it.
  unfoldable pub after_move : String → LocalEvent → Exec Db (Unit {0}) → Exec Db PersistedMission
  after_move id event persist = do create_event m.texts event; persist; read_again id

  -- The body of the transaction.
  unfoldable pub transition_body :
      String
      → MissionState
      → MissionState
      → String
      → LocalEvent
      → Exec Db (Unit {0})
      → Exec Db PersistedMission
  transition_body id from to now event persist = do
    found ← read_again id
    transition_mission id from to now
    after_move id event persist

  unfoldable pub transition :
      String
      → MissionState
      → MissionState
      → TransitionAudit
      → String
      → Exec Db (Unit {0})
      → Exec Db PersistedMission
  unfolding transaction
  transition id from to audit now persist =
      let event = event_of id from to (m.payload_of from to audit.payload) audit now in
      do
        throw_if (not (is_allowed from to)) (illegal_transition from to)
        transaction (transition_body id from to now event persist)

  -- `record`, a keyword here: a fact that changes no state.
  unfoldable pub record_fact : String → TransitionAudit → String → Exec Db (Unit {0})
  record_fact id audit now = do
    mission ← read_again id
    create_event m.texts
        (event_of id mission.mission.state mission.mission.state audit.payload audit now)
