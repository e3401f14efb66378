-- ===== src/Persistence/Budget/Open.antt =====
-- Opening a session or a mission with nothing spent keeps the budgets.
use koven.Prelude.{
  ℕ, pos, ◌≡◌, refl, String, Option, none, some, Bool, true, false, List, [], ◌∷◌, ◌==◌, same_text,
  All, All-map, arith, eq_iff, Bool-cases, inl, inr,
}
use koven.Exec.{ok}
use koven.Sql.{select, exists, has_key, sum}
use koven.Persistence.Db.{Db, SessionRow, MissionRow, NonceRow}
use koven.Persistence.Missions.{
  SpendingSession, session_key, mission_key, session_known, find_session, find_mission,
  create_spending_session, create_mission, get_spending_session,
}
use koven.Domain.Mission.{Mission}
use koven.Persistence.Budget.{
  amount_for, spent_in, SessionLedger, NonceKnown, SessionKnown, IsBudgeted,
}

-- No mission is in a session that does not exist.
sum-spent_in_absent :
    (id : String) (ss : List SessionRow) (ms : List MissionRow)
    → select (has_key session_key id) ss ≡ none
    → All (SessionKnown ss) ms
    → sum (spent_in id) ms ≡ 0
sum-spent_in_absent id ss [] e h = refl
sum-spent_in_absent id ss (m ∷ ms) e h =
    ground (arith, sum-spent_in_absent id ss ms e h.1, absent m.session_id h.0)
  where
    absent : (o : Option String) → session_known ss o ≡ true → same_text o (some id) ≡ false
    absent none k = refl
    absent (some j) k = elim (Bool-cases (j == id)) [
      | inl t ↦ cc (rw ((eq_iff j id).0 t, e) at k)
      | inr f ↦ f
    ]

-- No nonce is consumed for a mission that does not exist.
sum-amount_for_absent :
    (id : String) (ms : List MissionRow) (ns : List NonceRow)
    → select (has_key mission_key id) ms ≡ none
    → All (NonceKnown ms) ns
    → sum (amount_for id) ns ≡ 0
sum-amount_for_absent id ms [] e h = refl
sum-amount_for_absent id ms (n ∷ ns) e h = elim (Bool-cases (n.mission_id == id)) [
  | inl t ↦ cc (rw ((eq_iff n.mission_id id).0 t, e) at h.0)
  | inr f ↦ ground (arith, sum-amount_for_absent id ms ns e h.1)
]

exists_later :
    {A : Type 0} (p : A → Bool) (x : A) (xs : List A)
    → exists p xs ≡ true
    → exists p (x ∷ xs) ≡ true
exists_later p x xs h = ground arith

session_known_later :
    (s : SessionRow) (ss : List SessionRow) (o : Option String)
    → session_known ss o ≡ true
    → session_known (s ∷ ss) o ≡ true
session_known_later s ss none h = refl
session_known_later s ss (some id) h = exists_later (has_key session_key id) s ss h

abbrev pub open_session : SessionRow → Db → Db
open_session s db = record db { sessions = s ∷ db.sessions }

abbrev pub open_mission : MissionRow → Db → Db
open_mission m db = record db { missions = m ∷ db.missions }

pub open_session-IsBudgeted :
    (s : SessionRow) (db : Db)
    → find_session s.id db ≡ none
    → s.spent ≡ 0
    → IsBudgeted db
    → IsBudgeted (open_session s db)
open_session-IsBudgeted s db new zero_spent b = record {
  missions_keyed = b.missions_keyed;
  sessions_keyed = (new, b.sessions_keyed);
  missions_within = b.missions_within;
  sessions_within = (omega arith, b.sessions_within);
  mission_ledgers = b.mission_ledgers;
  session_ledgers = (
    omega (arith, sum-spent_in_absent s.id db.sessions db.missions new b.sessions_known),
    b.session_ledgers,
  );
  nonces_known = b.nonces_known;
  sessions_known =
      All-map (SessionKnown db.sessions) (SessionKnown (s ∷ db.sessions)) db.missions
        (λ m h. session_known_later s db.sessions m.session_id h) b.sessions_known;
  no_replay = b.no_replay;
}

pub open_mission-IsBudgeted :
    (m : MissionRow) (db : Db)
    → find_mission m.id db ≡ none
    → session_known db.sessions m.session_id ≡ true
    → m.spent ≡ 0
    → IsBudgeted db
    → IsBudgeted (open_mission m db)
open_mission-IsBudgeted m db new known zero_spent b = record {
  missions_keyed = (new, b.missions_keyed);
  sessions_keyed = b.sessions_keyed;
  missions_within = (omega arith, b.missions_within);
  sessions_within = b.sessions_within;
  mission_ledgers = (
    omega (arith, sum-amount_for_absent m.id db.missions db.nonces new b.nonces_known),
    b.mission_ledgers,
  );
  session_ledgers =
      All-map (SessionLedger db.missions) (SessionLedger (m ∷ db.missions)) db.sessions
        (λ s h. ground arith) b.session_ledgers;
  nonces_known =
      All-map (NonceKnown db.missions) (NonceKnown (m ∷ db.missions)) db.nonces
        (λ n h. exists_later (has_key mission_key n.mission_id) m db.missions h) b.nonces_known;
  sessions_known = (known, b.sessions_known);
  no_replay = b.no_replay;
}

abbrev pub fresh_session : String → ℕ → SessionRow
fresh_session id cap = record { id = id; spending_cap = cap; spent = 0 }

-- A session that is created with nothing spent.
pub create_spending_session-ok :
    (id : String) (cap : ℕ) (db : Db) {db' : Db}
    → create_spending_session
        (record { id = id; spending_cap_tinybar = pos cap; spent_tinybar = pos 0 })
        db
      ≡ (ok tt, db')
    → (db' ≡ open_session (fresh_session id cap) db) × (find_session id db ≡ none)
unfolding create_spending_session
create_spending_session-ok id cap db h = (ground arith, ground arith)

abbrev pub fresh_mission : Mission → Option String → ℕ → MissionRow
fresh_mission m session_id cap = record {
  id = m.id;
  state = m.state;
  spending_cap = cap;
  spent = 0;
  approved_recipients_root = m.approved_recipients_root;
  target_ref = m.target_ref;
  target_sha256 = m.target_sha256;
  session_id = session_id;
  created_at = m.created_at;
  updated_at = m.updated_at;
}

-- A mission that is created with nothing spent.
pub create_mission-ok :
    (m : Mission) (session_id : Option String) (cap : ℕ) (db : Db) {db' : Db}
    → m.spending_cap_tinybar ≡ pos cap
    → m.spent_tinybar ≡ pos 0
    → create_mission m session_id db ≡ (ok tt, db')
    → (db' ≡ open_mission (fresh_mission m session_id cap) db)
      × (find_mission m.id db ≡ none)
      × (session_known db.sessions session_id ≡ true)
unfolding create_mission
create_mission-ok m session_id cap db c z h = (ground arith, ground arith, ground arith)

-- Reading a session changes nothing.
pub get_spending_session-ok :
    (id : String) (db : Db) {o : Option SpendingSession} {db' : Db}
    → get_spending_session id db ≡ (ok o, db')
    → db' ≡ db
unfolding get_spending_session
get_spending_session-ok id db h = ground arith
