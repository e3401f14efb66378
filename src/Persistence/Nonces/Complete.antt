-- ===== src/Persistence/Nonces/Complete.antt =====
-- When `reserveSpending` of packages/persistence/src/nonces.ts goes through, and what it refuses.
use koven.Prelude.{
  ℕ, pos, ◌+◌, ◌≤◌, ◌<◌, ◌≡◌, refl, sym, subst, String, Option, none, some, eqb, arith,
}
use koven.Domain.Errors.{persistence_conflict, PersistenceConflict}
use koven.Exec.{ok, err, transaction}
use koven.Sql.{select, has_key, IsKeyed}
use koven.Sql.Laws.{changes-found, select-key}
use koven.Persistence.Db.{Db, SessionRow, MissionRow, NonceRow, max_tinybar}
use koven.Persistence.Missions.{session_key, mission_key, find_session, find_mission}
use koven.Persistence.Nonces.{
  SpendingReservation, has_nonce, has_commitment, insert_consumed_nonce, reserve_mission_budget,
  reserve_session_budget, reserve_in_session, charge_row, charge, reserve, reserve_spending,
}
use koven.Persistence.Nonces.Reserve.{InSession, consume, charge_mission, charge_session}

-- A nonce that a mission has consumed is refused, whatever the amount and the commitment, and nothing changes.
pub nonce_refused :
    (r : SpendingReservation) (a : ℕ) (db : Db) {n : NonceRow}
    → r.amount_tinybar ≡ pos a
    → a ≤ max_tinybar
    → select (has_nonce r.mission_id r.nonce) db.nonces ≡ some n
    → reserve_spending r db
      ≡ (err (persistence_conflict PersistenceConflict.nonce_already_used), db)
unfolding reserve_spending
nonce_refused r a db amount range used = ground arith

-- A commitment that any mission has consumed is refused with a fresh nonce too, and nothing changes.
pub commitment_refused :
    (r : SpendingReservation) (a : ℕ) (db : Db) {n : NonceRow}
    → r.amount_tinybar ≡ pos a
    → a ≤ max_tinybar
    → select (has_nonce r.mission_id r.nonce) db.nonces ≡ none
    → select (has_commitment r.payment_commitment) db.nonces ≡ some n
    → reserve_spending r db
      ≡ (err (persistence_conflict PersistenceConflict.payment_commitment_already_used), db)
unfolding reserve_spending
commitment_refused r a db amount range new used = ground arith

insert_consumed_nonce_runs :
    (r : SpendingReservation) (a : ℕ) (db : Db) {m : MissionRow}
    → r.amount_tinybar ≡ pos a
    → a ≤ max_tinybar
    → select (has_nonce r.mission_id r.nonce) db.nonces ≡ none
    → select (has_commitment r.payment_commitment) db.nonces ≡ none
    → find_mission r.mission_id db ≡ some m
    → insert_consumed_nonce r db ≡ (ok tt, consume r a db)
unfolding insert_consumed_nonce
insert_consumed_nonce_runs r a db amount range n c f = ground arith

reserve_mission_budget_runs :
    (row : MissionRow) (a : ℕ) (db : Db)
    → IsKeyed mission_key db.missions
    → select (has_key mission_key row.id) db.missions ≡ some row
    → 0 < a
    → row.spent + a ≤ row.spending_cap
    → row.spending_cap ≤ max_tinybar
    → reserve_mission_budget row (pos a) db ≡ (ok tt, charge_mission row a db)
unfolding reserve_mission_budget
reserve_mission_budget_runs row a db k f p fits range = ground (
  arith,
  changes-found mission_key row.id (λ (r : MissionRow). eqb r.spent row.spent) db.missions k f,
)

reserve_session_budget_runs :
    (row : SessionRow) (a : ℕ) (db : Db)
    → IsKeyed session_key db.sessions
    → select (has_key session_key row.id) db.sessions ≡ some row
    → 0 < a
    → row.spent + a ≤ row.spending_cap
    → row.spending_cap ≤ max_tinybar
    → reserve_session_budget row (pos a) db ≡ (ok tt, charge_session row a db)
unfolding reserve_session_budget
reserve_session_budget_runs row a db k f p fits range = ground (
  arith,
  changes-found session_key row.id (λ (r : SessionRow). eqb r.spent row.spent) db.sessions k f,
)

-- The session of the mission, if it has one, has room for `a` tinybar.
abbrev pub HasRoom : Option String → ℕ → Db → Type 0
HasRoom none a db = Unit
HasRoom (some id) a db =
    (row : SessionRow) × (find_session id db ≡ some row)
    × (row.spent + a ≤ row.spending_cap)
    × (row.spending_cap ≤ max_tinybar)

reserve_in_session_runs :
    (o : Option String) (a : ℕ) (db : Db)
    → IsKeyed session_key db.sessions
    → 0 < a
    → HasRoom o a db
    → (db' : Db) × (reserve_in_session o (pos a) db ≡ (ok tt, db')) × InSession o a db db'
unfolding reserve_in_session
reserve_in_session_runs none a db k p h = (db, refl, refl)
reserve_in_session_runs (some id) a db k p (row, found, fits, range) =
    let same : row.id ≡ id = select-key session_key id db.sessions found in
    let here : find_session row.id db ≡ some row =
      subst (λ k. find_session k db ≡ some row) (sym same) found in
    (
      charge_session row a db,
      rw found (reserve_session_budget_runs row a db k here p fits range),
      (row, found, refl, fits),
    )

charge_runs :
    (r : SpendingReservation) (row : MissionRow) (a : ℕ) (db : Db)
    → r.amount_tinybar ≡ pos a
    → IsKeyed mission_key db.missions
    → IsKeyed session_key db.sessions
    → find_mission r.mission_id db ≡ some row
    → 0 < a
    → row.spent + a ≤ row.spending_cap
    → row.spending_cap ≤ max_tinybar
    → HasRoom row.session_id a (charge_mission row a db)
    → (db' : Db) × (charge r db ≡ (ok tt, db'))
      × InSession row.session_id a (charge_mission row a db) db'
unfolding charge charge_row
charge_runs r row a db amount km ks found p fits range room =
    let same : row.id ≡ r.mission_id = select-key mission_key r.mission_id db.missions found in
    let here : find_mission row.id db ≡ some row =
      subst (λ k. find_mission k db ≡ some row) (sym same) found in
    let (db', runs, s) =
      reserve_in_session_runs row.session_id a (charge_mission row a db) ks p room in
    (db', rw (found, amount, reserve_mission_budget_runs row a db km here p fits range) runs, s)

-- A reservation goes through when the mission is there, its nonce and commitment are new, the amount is
-- positive, and it fits in what is left of the mission's cap and, if the mission is in a session, of the session's.
-- It consumes the nonce and charges the mission and the session.
pub reserve_spending_succeeds :
    (r : SpendingReservation) (row : MissionRow) (a : ℕ) (db : Db)
    → IsKeyed mission_key db.missions
    → IsKeyed session_key db.sessions
    → r.amount_tinybar ≡ pos a
    → select (has_nonce r.mission_id r.nonce) db.nonces ≡ none
    → select (has_commitment r.payment_commitment) db.nonces ≡ none
    → find_mission r.mission_id db ≡ some row
    → 0 < a
    → row.spent + a ≤ row.spending_cap
    → row.spending_cap ≤ max_tinybar
    → HasRoom row.session_id a (charge_mission row a (consume r a db))
    → (db' : Db) × (reserve_spending r db ≡ (ok tt, db'))
      × InSession row.session_id a (charge_mission row a (consume r a db)) db'
unfolding reserve_spending reserve transaction
reserve_spending_succeeds r row a db km ks amount new fresh found p fits range room =
    let (db', runs, s) =
      charge_runs r row a (consume r a db) amount km ks found p fits range room in
    (db', rw (insert_consumed_nonce_runs r a db amount (omega arith) new fresh found, runs) refl, s)
