-- ===== src/Persistence/Nonces/Replay.antt =====
-- Replays of a reservation of packages/persistence/src/nonces.ts.
use koven.Prelude.{
  ℕ, pos, ◌≤◌, ◌≡◌, refl, String, none, some, ◌∷◌, eq_refl, Option, Option-cases, inl, inr, ◌⊎◌,
}
use koven.Domain.Errors.{persistence_conflict, PersistenceConflict}
use koven.Exec.{ok, err}
use koven.Sql.{select}
use koven.Persistence.Db.{Db, max_tinybar}
use koven.Persistence.Nonces.{SpendingReservation, has_nonce, reserve_spending}
use koven.Persistence.Nonces.Reserve.{
  nonce_row, consume, charge_mission, InSession, reserve_spending-ok,
}
use koven.Persistence.Nonces.Complete.{nonce_refused, commitment_refused}

-- The session's charge leaves the nonces.
InSession-nonces :
    (o : Option String) (a : ℕ) (db db' : Db) → InSession o a db db' → db'.nonces ≡ db.nonces
InSession-nonces none a db db' h = rw h refl
InSession-nonces (some id) a db db' (row, found, eq, fits) = rw eq refl

consumed :
    (r : SpendingReservation) (db db' : Db)
    → reserve_spending r db ≡ (ok tt, db')
    → (a : ℕ) × (db'.nonces ≡ nonce_row r a ∷ db.nonces)
consumed r db db' h =
    let d = reserve_spending-ok r db db' h in
    (
      d.a,
      InSession-nonces d.row.session_id d.a (charge_mission d.row d.a (consume r d.a db)) db'
          d.in_session,
    )

-- Once a reservation has gone through, another one with its mission and nonce, or with its commitment,
-- of any amount that is not negative and fits in 64 bits, is refused with a conflict and changes nothing.
pub replay_refused :
    (r r' : SpendingReservation) (a : ℕ) (db db' : Db)
    → reserve_spending r db ≡ (ok tt, db')
    → r'.amount_tinybar ≡ pos a
    → a ≤ max_tinybar
    → ((r.mission_id ≡ r'.mission_id) × (r.nonce ≡ r'.nonce))
      ⊎ (r.payment_commitment ≡ r'.payment_commitment)
    → (c : PersistenceConflict) × (reserve_spending r' db' ≡ (err (persistence_conflict c), db'))
replay_refused r r' a db db' h amount range (inl (same_mission, same_nonce)) =
    let (b, e) = consumed r db db' h in
    (
      _,
      nonce_refused r' a db' {n = nonce_row r b} amount range
          (rw (e, same_mission, same_nonce, eq_refl r'.mission_id, eq_refl r'.nonce) refl),
    )
replay_refused r r' a db db' h amount range (inr same) =
    let (b, e) = consumed r db db' h in
    elim (Option-cases (select (has_nonce r'.mission_id r'.nonce) db'.nonces)) [
      | inl new ↦ (
        _,
        commitment_refused r' a db' {n = nonce_row r b} amount range new
            (rw (e, same, eq_refl r'.payment_commitment) refl),
      )
      | inr (n, used) ↦ (_, nonce_refused r' a db' {n = n} amount range used)
    ]
