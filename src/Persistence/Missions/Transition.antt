-- ===== src/Persistence/Missions/Transition.antt =====
-- What `transitionMission` of packages/persistence/src/missions.ts does to the table of missions.
use mathlib.Core.Option
use koven.Prelude.{
  ◌≡◌, refl, sym, subst, ◌∙◌, String, Option, none, some, Bool, true, false, ◌&&◌, ◌==◌, arith,
  eq_iff, Option-cases, inl, inr, if◌then◌else◌,
}
use koven.Domain.Mission.{MissionState, same_state, same_state_iff, is_allowed}
use koven.Exec.{ok}
use koven.Sql.{has_key, IsKeyed, update, changes}
use koven.Sql.Laws.{changes-found, changes-absent, select-update, select-key, IsKeyed-update}
use koven.Persistence.Db.{Db, MissionRow}
use koven.Persistence.Missions.{mission_key, find_mission, transition_mission, update_mission}

-- A mission that has moved from one state to another.
pub record Moved (id : String) (from to : MissionState) (now : String) (db db' : Db) : Type 0 where
  pub allowed : is_allowed from to ≡ true
  pub row : MissionRow
  pub found : find_mission id db ≡ some row
  pub was : row.state ≡ from
  pub moved : find_mission id db' ≡ some (record row { state = to; updated_at = now })
  pub others : (j : String) → j == id ≡ false → find_mission j db' ≡ find_mission j db

module _ (id : String) (from to : MissionState) (now : String) (db : Db)
    (keyed : IsKeyed mission_key db.missions) where
  abbrev hit : MissionRow → Bool
  hit r = has_key mission_key id r && same_state r.state from

  abbrev set : MissionRow → MissionRow
  set r = record r { state = to; updated_at = now }

  abbrev after : Db
  after = record db { missions = update hit set db.missions }

  transition_mission-steps :
      {db' : Db}
      → transition_mission id from to now db ≡ (ok tt, db')
      → (is_allowed from to ≡ true) × (changes hit db.missions ≡ 1) × (db' ≡ after)
  unfolding transition_mission update_mission
  transition_mission-steps h = (ground arith, ground arith, ground arith)

  find-after :
      (j : String)
      → find_mission j after ≡ Option.map (λ r. if hit r then set r else r) (find_mission j db)
  find-after j = select-update mission_key hit set j db.missions (λ r. refl)

  hit-found :
      (row : MissionRow) → find_mission id db ≡ some row → hit row ≡ same_state row.state from
  hit-found row e =
      let same = select-key mission_key id db.missions e in
      ground (arith, (eq_iff row.id id).1 same)

  others-after : (j : String) → j == id ≡ false → find_mission j after ≡ find_mission j db
  others-after j d = find-after j ∙ go (find_mission j db) refl
    where
      go :
          (o : Option MissionRow)
          → find_mission j db ≡ o
          → Option.map (λ r. if hit r then set r else r) o ≡ o
      go none e = refl
      go (some r) e =
          let same : r.id ≡ j = select-key mission_key j db.missions e in rw (same, d) refl

  after-Moved :
      is_allowed from to ≡ true → changes hit db.missions ≡ 1 → Moved id from to now db after
  after-Moved allowed one = elim (Option-cases (find_mission id db)) [
    | inl e ↦ cc (changes-absent mission_key id (λ r. same_state r.state from) db.missions e, one)
    | inr (row, e) ↦
        let n = changes-found mission_key id (λ r. same_state r.state from) db.missions keyed e in
        let same : same_state row.state from ≡ true = ground (arith, n, one) in
        record {
          allowed = allowed;
          row = row;
          found = e;
          was = (same_state_iff row.state from).0 same;
          moved = find-after id ∙ rw (e, hit-found row e, same) refl;
          others = others-after;
        }
  ]

-- A transition that goes through is allowed by the table, finds the mission in the state that it starts from, moves
-- it to the new state and changes no other mission.
pub transition_mission-Moved :
    (id : String) (from to : MissionState) (now : String) (db : Db) {db' : Db}
    → IsKeyed mission_key db.missions
    → transition_mission id from to now db ≡ (ok tt, db')
    → Moved id from to now db db'
transition_mission-Moved id from to now db {db'} keyed h =
    let (allowed, one, eq) = transition_mission-steps id from to now db keyed {db' = db'} h in
    subst (Moved id from to now db) (sym eq) (after-Moved id from to now db keyed allowed one)

-- A transition that goes through keeps the keys of the missions.
pub transition_mission-IsKeyed :
    (id : String) (from to : MissionState) (now : String) (db : Db) {db' : Db}
    → IsKeyed mission_key db.missions
    → transition_mission id from to now db ≡ (ok tt, db')
    → IsKeyed mission_key db'.missions
transition_mission-IsKeyed id from to now db {db'} keyed h =
    let (allowed, one, eq) = transition_mission-steps id from to now db keyed {db' = db'} h in
    rw eq (
      IsKeyed-update mission_key (hit id from to now db keyed) (set id from to now db keyed)
        db.missions (λ r. refl) keyed)
