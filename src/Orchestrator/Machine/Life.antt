-- ===== src/Orchestrator/Machine/Life.antt =====
-- The transitions of apps/orchestrator/src/state/mission-state-machine.ts, on the tables, refine the lives
-- of the table of packages/domain/src/mission.ts.
use koven.Prelude.{
  Option, none, eqb, ◌&&◌, ◌+ℤ◌, ℕ, leb_ℤ, pos, if◌then◌else◌, ℤ, ◌≡◌, refl, sym, ap, ◌∙◌, subst,
  String, some, [], arith,
}
use koven.Domain.Mission.{MissionState}
use koven.Domain.Errors.{Error, Entity, range_error, persistence_not_found}
use koven.Exec.{Exec, Result, ok, err, transaction, continue, lift, or_throw, ◌>>=◌}
use koven.Exec.Laws.{>>=-eq-ok, transaction-eq-ok}
use koven.Sql.{IsKeyed, has_key}
use koven.Persistence.Db.{Db, MissionRow, tinybar_from_text, tinybar_to_text}
use koven.Persistence.Missions.{
  record_mission_spending, update_mission, PersistedMission, mission_key, find_mission, get_mission,
  transition_mission,
}
use koven.Persistence.Missions.Transition.{transition_mission-Moved, transition_mission-IsKeyed}
use koven.Persistence.Events.{LocalEvent, create_event}
use koven.Orchestrator.Machine.Lived.{
  HasLived, Moved-HasLived, HasLived-missions, HasLived-states, KeepsStates, same-KeepsStates,
  update-KeepsStates, then-KeepsStates,
}
use koven.Orchestrator.Machine.{
  Machine, TransitionAudit, event_of, read_again, after_move, transition_body, transition,
  record_fact,
}

module _ (m : Machine) where
  -- What a caller may write beside a transition.
  abbrev pub KeepsMissions : Exec Db (Unit {0}) → Type 0
  KeepsMissions persist = (db : Db) → (persist db).1.missions ≡ db.missions

  create_event-missions :
      (e : LocalEvent) (db : Db) → (create_event m.texts e db).1.missions ≡ db.missions
  unfolding create_event transaction
  create_event-missions e db = ground arith

  pub read_again-state : (id : String) (db : Db) → (read_again m id db).1 ≡ db
  unfolding read_again get_mission
  read_again-state id db = ground arith

  after_move-missions :
      (id : String) (e : LocalEvent) (persist : Exec Db (Unit {0})) (db : Db)
      → KeepsMissions persist
      → (after_move m id e persist db).1.missions ≡ db.missions
  unfolding after_move
  after_move-missions id e persist db keeps =
      let first = (create_event m.texts e db).1 in
      let made = create_event-missions e db in
      let kept = keeps first in let read = read_again-state id (persist first).1 in ground arith

  transition_body-ok :
      (id : String) (from to : MissionState) (now : String) (e : LocalEvent)
      (persist : Exec Db (Unit {0})) (db db' : Db) (p : PersistedMission)
      → KeepsMissions persist
      → transition_body m id from to now e persist db ≡ (ok p, db')
      → (moved : Db) × (transition_mission id from to now db ≡ (ok tt, moved))
        × (db'.missions ≡ moved.missions)
  unfolding transition_body
  transition_body-ok id from to now e persist db db' p keeps h =
      let (found, t, read, rest) =
        >>=-eq-ok (read_again m id)
          (λ _. transition_mission id from to now >>= λ _. after_move m id e persist) db h in
      let same : t ≡ db = sym (ap (λ r. r.1) read) ∙ read_again-state id db in
      let (u, moved, step, last) =
        >>=-eq-ok (transition_mission id from to now) (λ _. after_move m id e persist) t rest in
      (
        moved,
        subst (λ d. transition_mission id from to now d ≡ (ok tt, moved)) same step,
        sym (ap (λ r. r.1.missions) last) ∙ after_move-missions id e persist moved keeps,
      )

  pub transition-ok :
      (id : String) (from to : MissionState) (audit : TransitionAudit) (now : String)
      (persist : Exec Db (Unit {0})) (db db' : Db) (p : PersistedMission)
      → KeepsMissions persist
      → transition m id from to audit now persist db ≡ (ok p, db')
      → (moved : Db) × (transition_mission id from to now db ≡ (ok tt, moved))
        × (db'.missions ≡ moved.missions)
  unfolding transition
  transition-ok id from to audit now persist db db' p keeps h =
      let e = event_of m id from to (m.payload_of from to audit.payload) audit now in
      transition_body-ok id from to now e persist db db' p keeps
        (transaction-eq-ok (transition_body m id from to now e persist) db (ground arith))

  -- What a caller may write beside a transition: anything that leaves the missions there in their states, as the
  -- amount that a mission has spent.
  abbrev pub LeavesStates : Exec Db (Unit {0}) → Type 0
  LeavesStates persist = (db : Db) → KeepsStates db (persist db).1

  after_move-written :
      (id : String) (e : LocalEvent) (persist : Exec Db (Unit {0})) (db db' : Db)
      (p : PersistedMission)
      → after_move m id e persist db ≡ (ok p, db')
      → (u : Db) × (u.missions ≡ db.missions) × (db' ≡ (persist u).1)
  unfolding after_move
  after_move-written id e persist db db' p h =
      let (a, u, created, rest) =
        >>=-eq-ok {A = Unit {0}} {B = PersistedMission} (create_event m.texts e)
          (λ a. persist >>= λ b. read_again m id) db h in
      let (b, w, written, last) =
        >>=-eq-ok {A = Unit {0}} {B = PersistedMission} persist (λ b. read_again m id) u rest in
      (
        u,
        sym (ap (λ (o : Result (Unit {0}) × Db). o.1.missions) created)
            ∙ create_event-missions e db,
        sym (ap (λ (o : Result PersistedMission × Db). o.1) last)
            ∙ read_again-state id w
            ∙ sym (ap (λ (o : Result (Unit {0}) × Db). o.1) written),
      )

  -- A transition that goes through moves the mission, and then leaves every mission in its state.
  transition-moves :
      (id : String) (from to : MissionState) (audit : TransitionAudit) (now : String)
      (persist : Exec Db (Unit {0})) (db db' : Db) (p : PersistedMission)
      → LeavesStates persist
      → transition m id from to audit now persist db ≡ (ok p, db')
      → (moved : Db) × (transition_mission id from to now db ≡ (ok tt, moved))
        × KeepsStates moved db'
  unfolding transition transition_body
  transition-moves id from to audit now persist db db' p leaves h =
      let e = event_of m id from to (m.payload_of from to audit.payload) audit now in
      let body =
        transaction-eq-ok (transition_body m id from to now e persist) db {a = p} {s' = db'}
          (ground arith) in
      let (found, t, read, rest) =
        >>=-eq-ok {A = PersistedMission} {B = PersistedMission} (read_again m id)
          (λ a. transition_mission id from to now >>= λ b. after_move m id e persist) db body in
      let same : t ≡ db = sym (ap (λ r. r.1) read) ∙ read_again-state id db in
      let (b, w, moved, last) =
        >>=-eq-ok {A = Unit {0}} {B = PersistedMission} (transition_mission id from to now)
          (λ b. after_move m id e persist) t rest in
      let (u, kept, left) = after_move-written id e persist w db' p last in
      (
        w,
        subst (λ d. transition_mission id from to now d ≡ (ok tt, w)) same moved,
        subst (KeepsStates w) (sym left)
            (then-KeepsStates w u (persist u).1 (same-KeepsStates w u kept) (leaves u)),
      )

  transition_atomic :
      (id : String) (from to : MissionState) (audit : TransitionAudit) (now : String)
      (persist : Exec Db (Unit {0})) (db db' : Db) (x : Error)
      → transition m id from to audit now persist db ≡ (err x, db')
      → db' ≡ db
  unfolding transition transaction
  transition_atomic id from to audit now persist db db' x h = ground arith

  record_fact-missions :
      (id : String) (audit : TransitionAudit) (now : String) (db : Db)
      → (record_fact m id audit now db).1.missions ≡ db.missions
  unfolding record_fact
  record_fact-missions id audit now db = found (read_again m id db) refl
    where
      found :
          (o : Result PersistedMission × Db)
          → read_again m id db ≡ o
          → (record_fact m id audit now db).1.missions ≡ db.missions
      found (ok p, d) e =
          let same : d ≡ db = sym (ap (λ r. r.1) e) ∙ read_again-state id db in
          let event = event_of m id p.mission.state p.mission.state audit.payload audit now in
          rw e (create_event-missions event d ∙ ap (λ u. u.missions) same)
      found (err x, d) e =
          let same : d ≡ db = sym (ap (λ r. r.1) e) ∙ read_again-state id db in
          rw e (ap (λ u. u.missions) same)

  -- The database after any calls of the machine, on any missions, whatever they answer.
  pub data Steps (db : Db) : Db → Type 0 where
    start : Steps db db
    transitioned :
        {d : Db}
        → Steps db d
        → (id : String) (from to : MissionState) (audit : TransitionAudit) (now : String)
          (persist : Exec Db (Unit {0}))
        → LeavesStates persist
        → Steps db (transition m id from to audit now persist d).1
    recorded :
        {d : Db}
        → Steps db d
        → (id : String) (audit : TransitionAudit) (now : String)
        → Steps db (record_fact m id audit now d).1

  -- One transition, whatever it answers.
  transition-HasLived :
      (i : String) (first : MissionState) (id : String) (from to : MissionState)
      (audit : TransitionAudit) (now : String) (persist : Exec Db (Unit {0})) (d : Db)
      → LeavesStates persist
      → IsKeyed mission_key d.missions × HasLived i first d
      → (let d' = (transition m id from to audit now persist d).1 in
          IsKeyed mission_key d'.missions × HasLived i first d')
  transition-HasLived i first id from to audit now persist d keeps (keyed, lived) =
      answered (transition m id from to audit now persist d) refl
    where
      answered :
          (o : Result PersistedMission × Db)
          → transition m id from to audit now persist d ≡ o
          → IsKeyed mission_key o.1.missions × HasLived i first o.1
      answered (ok p, d') e =
          let (moved, step, left) = transition-moves id from to audit now persist d d' p keeps e in
          (
            left.keyed (transition_mission-IsKeyed id from to now d {db' = moved} keyed step),
            HasLived-states i first moved d' left (
                Moved-HasLived i id first from to now d moved lived
                  (transition_mission-Moved id from to now d {db' = moved} keyed step)),
          )
      answered (err x, d') e =
          let same = transition_atomic id from to audit now persist d d' x e in
          (
            subst (λ u. IsKeyed mission_key u.missions) (sym same) keyed,
            subst (HasLived i first) (sym same) lived,
          )

  Steps-IsKeyed-HasLived :
      (i : String) (db d : Db) (row : MissionRow)
      → Steps db d
      → IsKeyed mission_key db.missions
      → find_mission i db ≡ some row
      → IsKeyed mission_key d.missions × HasLived i row.state d
  Steps-IsKeyed-HasLived i db _ row start keyed found =
      (keyed, record { row = row; states = []; found = found; is_alive = refl; ends = refl })
  Steps-IsKeyed-HasLived i db _ row (transitioned {d} steps id from to audit now persist keeps)
        keyed found =
      transition-HasLived i row.state id from to audit now persist d keeps
        (Steps-IsKeyed-HasLived i db d row steps keyed found)
  Steps-IsKeyed-HasLived i db _ row (recorded {d} steps id audit now) keyed found =
      let (keyed', lived) = Steps-IsKeyed-HasLived i db d row steps keyed found in
      let same = record_fact-missions id audit now d in
      (rw same keyed', HasLived-missions i row.state d (record_fact m id audit now d).1 same lived)

  -- The machine over the tables refines the table of transitions: after any calls, on any missions and with any
  -- writes beside them that keep the ids of missions unique and every mission in its state, a mission that was there
  -- is there, in a state that a life of allowed transitions leads to.
  pub Steps-HasLived :
      (i : String) (db d : Db) (row : MissionRow)
      → Steps db d
      → IsKeyed mission_key db.missions
      → find_mission i db ≡ some row
      → HasLived i row.state d
  Steps-HasLived i db d row steps keyed found =
      (Steps-IsKeyed-HasLived i db d row steps keyed found).1

-- A sequence that starts by reading or by throwing.
module _ {A : Type 0} (f : A → Exec Db (Unit {0})) (db : Db) where
  answer-KeepsStates :
      (r : Result A) → ((a : A) → KeepsStates db (f a db).1) → KeepsStates db (continue f (r, db)).1
  answer-KeepsStates (ok a) k = k a
  answer-KeepsStates (err e) k = same-KeepsStates db db refl

  found-KeepsStates :
      (o : Option A) (e : Error)
      → ((a : A) → KeepsStates db (f a db).1)
      → KeepsStates db (continue f (or_throw o e db)).1
  found-KeepsStates none e k = same-KeepsStates db db refl
  found-KeepsStates (some a) e k = k a

-- What the orchestrator writes beside the payment of a service.
pub record_mission_spending-LeavesStates :
    (m : Machine) (id : String) (amount : ℤ) → LeavesStates m (record_mission_spending id amount)
unfolding record_mission_spending update_mission
record_mission_spending-LeavesStates m id amount db =
    answer-KeepsStates found db (if leb_ℤ amount (pos 0) then err range_error else ok tt) λ fine.
      found-KeepsStates read db (find_mission id db) (persistence_not_found Entity.mission) λ row.
        answer-KeepsStates (added row) db (tinybar_from_text row.spent) λ previous.
          answer-KeepsStates (written row) db (tinybar_to_text (previous +ℤ amount)) λ next.
            update-KeepsStates (λ r. has_key mission_key id r && eqb r.spent row.spent)
              (λ r. record r { spent = next }) db (λ r. refl) (λ r. refl)
  where
    written : MissionRow → ℕ → Exec Db (Unit {0})
    written row next =
        update_mission id (λ r. eqb r.spent row.spent) (λ r. record r { spent = next })

    added : MissionRow → ℤ → Exec Db (Unit {0})
    added row previous = lift (tinybar_to_text (previous +ℤ amount)) >>= written row

    read : MissionRow → Exec Db (Unit {0})
    read row = lift (tinybar_from_text row.spent) >>= added row

    found : Unit {0} → Exec Db (Unit {0})
    found u = (λ t. or_throw (find_mission id t) (persistence_not_found Entity.mission) t) >>= read
