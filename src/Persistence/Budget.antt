-- ===== src/Persistence/Budget.antt =====
-- The spending budgets of packages/persistence/src/nonces.ts and missions.ts, as an invariant of the
-- tables: what a mission has spent is the sum of its consumed nonces, what a session has spent is the
-- sum over its missions, and both stay within their caps.
pub mod Open
pub mod Charge
use koven.Prelude.{
  ℕ, ◌+◌, ◌≤◌, ◌≡◌, refl, String, Option, none, some, Bool, true, false, ◌&&◌, List, [], ◌∷◌, ◌==◌,
  same_text, All, if◌then◌else◌,
}
use koven.Sql.{select, exists, has_key, IsKeyed, sum}
use koven.Persistence.Db.{Db, SessionRow, MissionRow, NonceRow}
use koven.Persistence.Missions.{session_key, mission_key, session_known}
use koven.Persistence.Nonces.{has_nonce, has_commitment}

-- What a nonce counts for a mission.
abbrev pub amount_for : String → NonceRow → ℕ
amount_for id n = if n.mission_id == id then n.amount else 0

-- What a mission counts for a session.
abbrev pub spent_in : String → MissionRow → ℕ
spent_in id m = if same_text m.session_id (some id) then m.spent else 0

abbrev pub MissionLedger : List NonceRow → MissionRow → Type 0
MissionLedger ns m = m.spent ≡ sum (amount_for m.id) ns

abbrev pub SessionLedger : List MissionRow → SessionRow → Type 0
SessionLedger ms s = s.spent ≡ sum (spent_in s.id) ms

-- No two rows share a `(mission_id, nonce)` or a commitment.
abbrev pub NoReplay : List NonceRow → Type 0
NoReplay [] = Unit
NoReplay (n ∷ ns) =
    (select (has_nonce n.mission_id n.nonce) ns ≡ none)
    × (select (has_commitment n.payment_commitment) ns ≡ none)
    × NoReplay ns

abbrev pub MissionWithin : MissionRow → Type 0
MissionWithin m = m.spent ≤ m.spending_cap

abbrev pub SessionWithin : SessionRow → Type 0
SessionWithin s = s.spent ≤ s.spending_cap

abbrev pub NonceKnown : List MissionRow → NonceRow → Type 0
NonceKnown ms n = exists (has_key mission_key n.mission_id) ms ≡ true

abbrev pub SessionKnown : List SessionRow → MissionRow → Type 0
SessionKnown ss m = session_known ss m.session_id ≡ true

pub record IsBudgeted (db : Db) : Type 0 where
  pub missions_keyed : IsKeyed mission_key db.missions
  pub sessions_keyed : IsKeyed session_key db.sessions
  pub missions_within : All MissionWithin db.missions
  pub sessions_within : All SessionWithin db.sessions
  pub mission_ledgers : All (MissionLedger db.nonces) db.missions
  pub session_ledgers : All (SessionLedger db.missions) db.sessions
  pub nonces_known : All (NonceKnown db.missions) db.nonces
  pub sessions_known : All (SessionKnown db.sessions) db.missions
  pub no_replay : NoReplay db.nonces
