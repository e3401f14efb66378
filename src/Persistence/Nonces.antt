-- ===== src/Persistence/Nonces.antt =====
-- packages/persistence/src/nonces.ts: consuming a nonce and a commitment, and reserving the budgets of
-- the mission and its session, in one transaction.
pub mod Reserve
pub mod Complete
pub mod Replay
use koven.Prelude.{
  ℕ, ℤ, pos, ◌+ℤ◌, ltb_ℤ, leb_ℤ, String, Option, none, some, Bool, true, false, not, ◌&&◌, List,
  ◌∷◌, eqb, ◌==◌, if◌then◌else◌,
}
use koven.Domain.Errors.{
  Error, persistence_conflict, persistence_not_found, range_error, constraint, concurrent_update,
  Entity, payment_commitment_already_used, PersistenceConflict,
}
use koven.Exec.{
  Exec, Result, ok, err, pure, throw, gets, or_throw, lift, throw_if, modify, transaction, ◌>>=◌,
  ◌>>◌,
}
use koven.Sql.{select, exists, changes, update, has_key}
use koven.Persistence.Db.{Db, SessionRow, MissionRow, NonceRow, tinybar_to_text, tinybar_from_text}
use koven.Persistence.Missions.{
  session_key, mission_key, find_session, find_mission, update_mission,
}

pub record SpendingReservation : Type 0 where
  pub mission_id : String
  pub nonce : String
  pub payment_commitment : String
  pub amount_tinybar : ℤ
  pub consumed_at : String

-- `PRIMARY KEY (mission_id, nonce)`
abbrev pub has_nonce : String → String → NonceRow → Bool
has_nonce mission_id nonce r = r.mission_id == mission_id && r.nonce == nonce

abbrev pub has_commitment : String → NonceRow → Bool
has_commitment commitment r = r.payment_commitment == commitment

-- The uniqueness constraints are checked before the foreign key on the mission.
unfoldable pub insert_consumed_nonce : SpendingReservation → Exec Db (Unit {0})
insert_consumed_nonce r = do
  amount ← lift (tinybar_to_text r.amount_tinybar)
  throw_if (← gets λ db. exists (has_nonce r.mission_id r.nonce) db.nonces)
      (persistence_conflict PersistenceConflict.nonce_already_used)
  throw_if (← gets λ db. exists (has_commitment r.payment_commitment) db.nonces)
      (persistence_conflict payment_commitment_already_used)
  throw_if (← gets λ db. not (exists (has_key mission_key r.mission_id) db.missions)) constraint
  modify λ db. record db {
    nonces =
        (record {
          mission_id = r.mission_id;
          nonce = r.nonce;
          payment_commitment = r.payment_commitment;
          amount = amount;
          consumed_at = r.consumed_at;
        })
        ∷ db.nonces;
  }

-- The tests of `reserveBudget`, up to the text that is written.
unfoldable pub next_spent : ℕ → ℕ → ℤ → Exec Db ℕ
next_spent current_text cap_text amount = do
  current ← lift (tinybar_from_text current_text)
  cap ← lift (tinybar_from_text cap_text)
  let next = current +ℤ amount
  throw_if (leb_ℤ amount (pos 0)) range_error
  throw_if (ltb_ℤ cap amount) (persistence_conflict PersistenceConflict.cap_exceeded)
  throw_if (ltb_ℤ cap next) (persistence_conflict PersistenceConflict.cumulative_budget_exceeded)
  lift (tinybar_to_text next)

-- `reserveBudget` on `missions`.
unfoldable pub reserve_mission_budget : MissionRow → ℤ → Exec Db (Unit {0})
unfolding next_spent update_mission
reserve_mission_budget row amount = do
  next ← next_spent row.spent row.spending_cap amount
  update_mission row.id (λ r. eqb r.spent row.spent) (λ r. record r { spent = next })

-- `reserveBudget` on `spending_sessions`.
unfoldable pub reserve_session_budget : SessionRow → ℤ → Exec Db (Unit {0})
unfolding next_spent
reserve_session_budget row amount = do
  next ← next_spent row.spent row.spending_cap amount
  λ db.
      let hit = λ (r : SessionRow). has_key session_key row.id r && eqb r.spent row.spent in
      (
        if eqb (changes hit db.sessions) 1
            then ok tt
            else err (persistence_conflict concurrent_update),
        record db { sessions = update hit (λ r. record r { spent = next }) db.sessions },
      )

reserve_in_session : Option String → ℤ → Exec Db (Unit {0})
unfolding reserve_session_budget
reserve_in_session none amount = pure tt
reserve_in_session (some id) amount = do
  row ← (λ db. or_throw (find_session id db) (persistence_not_found Entity.session) db)
  reserve_session_budget row amount

charge_row : SpendingReservation → MissionRow → Exec Db (Unit {0})
charge_row r row = do
  reserve_mission_budget row r.amount_tinybar
  reserve_in_session row.session_id r.amount_tinybar

charge : SpendingReservation → Exec Db (Unit {0})
charge r = do
  row ← (λ db. or_throw (find_mission r.mission_id db) (persistence_not_found Entity.mission) db)
  charge_row r row

-- The body of the transaction.
reserve : SpendingReservation → Exec Db (Unit {0})
reserve r = do insert_consumed_nonce r; charge r

unfoldable pub reserve_spending : SpendingReservation → Exec Db (Unit {0})
unfolding reserve charge charge_row insert_consumed_nonce reserve_mission_budget reserve_in_session
    transaction
reserve_spending r = transaction (reserve r)

reservation_of_row : NonceRow → Exec Db (Option SpendingReservation)
reservation_of_row row = do
  amount ← lift (tinybar_from_text row.amount)
  pure (
      some (record {
        mission_id = row.mission_id;
        nonce = row.nonce;
        payment_commitment = row.payment_commitment;
        amount_tinybar = amount;
        consumed_at = row.consumed_at;
      }))

on_nonce : Option NonceRow → Exec Db (Option SpendingReservation)
unfolding reservation_of_row
on_nonce none = pure none
on_nonce (some row) = reservation_of_row row

unfoldable pub get_spending_reservation : String → String → Exec Db (Option SpendingReservation)
unfolding on_nonce
get_spending_reservation mission_id nonce = do
  row ← gets λ db. select (has_nonce mission_id nonce) db.nonces
  on_nonce row
