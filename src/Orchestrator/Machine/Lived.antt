-- ===== src/Orchestrator/Machine/Lived.antt =====
-- A mission in the tables that goes through the lives of packages/domain/src/mission.ts.
use koven.Prelude.{
  ◌≡◌, Bool, subst, refl, sym, ap, ◌∙◌, String, some, true, List, [], ◌∷◌, ◌++◌, ◌==◌, arith,
  Bool-cases, inl, inr, some_inj, eq_iff,
}
use koven.Domain.Mission.{MissionState, is_allowed}
use koven.Domain.Mission.Lifecycle.{is_life, end}
use koven.Sql.{select, has_key, update, IsKeyed}
use koven.Sql.Laws.{select-update, IsKeyed-update}
use koven.Persistence.Db.{Db, MissionRow}
use koven.Persistence.Missions.{mission_key, find_mission}
use koven.Persistence.Missions.Transition.{Moved}

-- A life goes on with a transition that its end allows.
life-snoc :
    (s t : MissionState) (ts : List MissionState)
    → is_life s ts ≡ true
    → is_allowed (end s ts) t ≡ true
    → (is_life s (ts ++ (t ∷ [])) ≡ true) × (end s (ts ++ (t ∷ [])) ≡ t)
life-snoc s t [] h allowed = (ground arith, refl)
life-snoc s t (u ∷ ts) h allowed =
    let (rest, ends) = life-snoc u t ts (ground arith) allowed in (ground arith, ends)

-- A mission has gone through a life from a state, and is at its end.
pub record HasLived (id : String) (first : MissionState) (d : Db) : Type 0 where
  pub row : MissionRow
  pub states : List MissionState
  pub found : find_mission id d ≡ some row
  pub is_alive : is_life first states ≡ true
  pub ends : end first states ≡ row.state

pub Moved-HasLived :
    (i id : String) (first from to : MissionState) (now : String) (d d' : Db)
    → HasLived i first d
    → Moved id from to now d d'
    → HasLived i first d'
Moved-HasLived i id first from to now d d' lived moved = elim (Bool-cases (i == id)) [
  | inl same ↦
      let eq : i ≡ id = (eq_iff i id).0 same in
      let one : some lived.row ≡ some moved.row =
        sym lived.found ∙ ap (λ j. find_mission j d) eq ∙ moved.found in
      let at_from : end first lived.states ≡ from =
        lived.ends ∙ ap (λ r. r.state) (some_inj one) ∙ moved.was in
      let (alive, ends) =
        life-snoc first to lived.states lived.is_alive (rw at_from moved.allowed) in
      record {
        row = record moved.row { state = to; updated_at = now };
        states = lived.states ++ (to ∷ []);
        found = ap (λ j. find_mission j d') eq ∙ moved.moved;
        is_alive = alive;
        ends = ends;
      }
  | inr other ↦ record {
    row = lived.row;
    states = lived.states;
    found = moved.others i other ∙ lived.found;
    is_alive = lived.is_alive;
    ends = lived.ends;
  }
]

-- Only the missions matter.
pub HasLived-missions :
    (i : String) (first : MissionState) (d d' : Db)
    → d'.missions ≡ d.missions
    → HasLived i first d
    → HasLived i first d'
HasLived-missions i first d d' same lived = record {
  row = lived.row;
  states = lived.states;
  found = ap (select (has_key mission_key i)) same ∙ lived.found;
  is_alive = lived.is_alive;
  ends = lived.ends;
}

-- The ids of missions stay unique, and every mission that is there stays there in its state.
pub record KeepsStates (d d' : Db) : Type 0 where
  pub keyed : IsKeyed mission_key d.missions → IsKeyed mission_key d'.missions
  pub states :
      (i : String) (r : MissionRow)
      → find_mission i d ≡ some r
      → (r' : MissionRow) × (find_mission i d' ≡ some r') × (r'.state ≡ r.state)

pub HasLived-states :
    (i : String) (first : MissionState) (d d' : Db)
    → KeepsStates d d'
    → HasLived i first d
    → HasLived i first d'
HasLived-states i first d d' keeps lived =
    let (row, found, same) = keeps.states i lived.row lived.found in
    record {
      row = row;
      states = lived.states;
      found = found;
      is_alive = lived.is_alive;
      ends = lived.ends ∙ sym same;
    }

pub same-KeepsStates : (d d' : Db) → d'.missions ≡ d.missions → KeepsStates d d'
same-KeepsStates d d' same = record {
  keyed = λ k. subst (IsKeyed mission_key) (sym same) k;
  states = λ i r found. (r, ap (select (has_key mission_key i)) same ∙ found, refl);
}

-- An update of a column other than the state and the id.
pub update-KeepsStates :
    (p : MissionRow → Bool) (f : MissionRow → MissionRow) (d : Db)
    → ((r : MissionRow) → (f r).id ≡ r.id)
    → ((r : MissionRow) → (f r).state ≡ r.state)
    → KeepsStates d (record d { missions = update p f d.missions })
update-KeepsStates p f d same_id same_state = record {
  keyed = λ k. IsKeyed-update mission_key p f d.missions same_id k;
  states = λ i r found. elim (Bool-cases (p r)) [
    | inl y ↦
        (f r, select-update mission_key p f i d.missions same_id ∙ rw (found, y) refl, same_state r)
    | inr n ↦ (r, select-update mission_key p f i d.missions same_id ∙ rw (found, n) refl, refl)
  ];
}

pub then-KeepsStates : (a b c : Db) → KeepsStates a b → KeepsStates b c → KeepsStates a c
then-KeepsStates a b c g h = record {
  keyed = λ k. h.keyed (g.keyed k);
  states = λ i r found.
      let (r', found', same) = g.states i r found in
      let (r'', found'', same') = h.states i r' found' in (r'', found'', same' ∙ same);
}
