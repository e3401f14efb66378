-- ===== src/Persistence/Missions.antt =====
-- packages/persistence/src/missions.ts: missions and spending sessions. The `try`/`catch` around an
-- INSERT, which turns a uniqueness error into a conflict, is written as a test before it.
pub mod Transition
use koven.Prelude.{
  ℤ, pos, ◌+ℤ◌, leb_ℤ, String, Option, none, some, Bool, true, not, ◌&&◌, List, ◌∷◌, eqb,
  if◌then◌else◌,
}
use koven.Domain.Mission.{Mission, MissionState, same_state, is_allowed}
use koven.Domain.Errors.{
  Error, persistence_conflict, persistence_not_found, illegal_transition, range_error, constraint,
  PersistenceConflict, concurrent_update, Entity,
}
use koven.Exec.{Exec, ok, err, pure, gets, or_throw, lift, throw_if, modify, ◌>>=◌, ◌>>◌}
use koven.Sql.{select, exists, changes, update, has_key}
use koven.Persistence.Db.{Db, SessionRow, MissionRow, tinybar_to_text, tinybar_from_text}

pub record SpendingSession : Type 0 where
  pub id : String
  pub spending_cap_tinybar : ℤ
  pub spent_tinybar : ℤ

-- A mission and the session that it may belong to.
pub record PersistedMission : Type 0 where
  pub mission : Mission
  pub session_id : Option String

abbrev pub session_key : SessionRow → String
session_key r = r.id

abbrev pub mission_key : MissionRow → String
mission_key r = r.id

abbrev pub find_session : String → Db → Option SessionRow
find_session id db = select (has_key session_key id) db.sessions

abbrev pub find_mission : String → Db → Option MissionRow
find_mission id db = select (has_key mission_key id) db.missions

abbrev pub already_exists : Error
already_exists = persistence_conflict PersistenceConflict.entity_already_exists

unfoldable pub create_spending_session : SpendingSession → Exec Db (Unit {0})
create_spending_session s = do
  cap ← lift (tinybar_to_text s.spending_cap_tinybar)
  spent ← lift (tinybar_to_text s.spent_tinybar)
  throw_if (← gets λ db. exists (has_key session_key s.id) db.sessions) already_exists
  modify λ db. record db {
    sessions = (record { id = s.id; spending_cap = cap; spent = spent }) ∷ db.sessions;
  }

session_of_row : SessionRow → Exec Db (Option SpendingSession)
session_of_row row = do
  cap ← lift (tinybar_from_text row.spending_cap)
  spent ← lift (tinybar_from_text row.spent)
  pure (some (record { id = row.id; spending_cap_tinybar = cap; spent_tinybar = spent }))

abbrev pub on_row : {A B : Type 0} → (A → Exec Db (Option B)) → Option A → Exec Db (Option B)
on_row f none = pure none
on_row f (some row) = f row

unfoldable pub get_spending_session : String → Exec Db (Option SpendingSession)
unfolding session_of_row
get_spending_session id = do row ← gets (find_session id); on_row session_of_row row

-- `session_id TEXT REFERENCES spending_sessions(id)`
abbrev pub session_known : List SessionRow → Option String → Bool
session_known ss none = true
session_known ss (some id) = exists (has_key session_key id) ss

unfoldable pub create_mission : Mission → Option String → Exec Db (Unit {0})
create_mission m session_id = do
  cap ← lift (tinybar_to_text m.spending_cap_tinybar)
  spent ← lift (tinybar_to_text m.spent_tinybar)
  throw_if (← gets λ db. exists (has_key mission_key m.id) db.missions) already_exists
  throw_if (← gets λ db. not (session_known db.sessions session_id)) constraint
  modify λ db. record db {
    missions =
        (record {
          id = m.id;
          state = m.state;
          spending_cap = cap;
          spent = spent;
          approved_recipients_root = m.approved_recipients_root;
          target_ref = m.target_ref;
          target_sha256 = m.target_sha256;
          session_id = session_id;
          created_at = m.created_at;
          updated_at = m.updated_at;
        })
        ∷ db.missions;
  }

mission_of_row : MissionRow → Exec Db (Option PersistedMission)
mission_of_row row = do
  cap ← lift (tinybar_from_text row.spending_cap)
  spent ← lift (tinybar_from_text row.spent)
  pure (
      some (record {
        mission = record {
          id = row.id;
          state = row.state;
          spending_cap_tinybar = cap;
          spent_tinybar = spent;
          approved_recipients_root = row.approved_recipients_root;
          target_ref = row.target_ref;
          target_sha256 = row.target_sha256;
          created_at = row.created_at;
          updated_at = row.updated_at;
        };
        session_id = row.session_id;
      }))

unfoldable pub get_mission : String → Exec Db (Option PersistedMission)
unfolding mission_of_row
get_mission id = do row ← gets (find_mission id); on_row mission_of_row row

-- `UPDATE missions SET ... WHERE id = ? AND p`, and the error if it did not change one row.
unfoldable pub update_mission :
    String → (MissionRow → Bool) → (MissionRow → MissionRow) → Exec Db (Unit {0})
update_mission id p f db =
    let hit = λ (r : MissionRow). has_key mission_key id r && p r in
    (
      if eqb (changes hit db.missions) 1
          then ok tt
          else err (persistence_conflict concurrent_update),
      record db { missions = update hit f db.missions },
    )

unfoldable pub record_mission_spending : String → ℤ → Exec Db (Unit {0})
record_mission_spending id amount = do
  throw_if (leb_ℤ amount (pos 0)) range_error
  row ← (λ db. or_throw (find_mission id db) (persistence_not_found Entity.mission) db)
  previous ← lift (tinybar_from_text row.spent)
  next ← lift (tinybar_to_text (previous +ℤ amount))
  update_mission id (λ r. eqb r.spent row.spent) (λ r. record r { spent = next })

unfoldable pub transition_mission :
    String → MissionState → MissionState → String → Exec Db (Unit {0})
transition_mission id from to updated_at = do
  throw_if (not (is_allowed from to)) (illegal_transition from to)
  update_mission id (λ r. same_state r.state from)
      (λ r. record r { state = to; updated_at = updated_at })
