-- ===== src/Persistence/Nonces/Reserve.antt =====
-- What a successful `reserveSpending` has done.
use koven.Prelude.{
  ℕ, ℤ, pos, negsuc, ◌+◌, ◌≤◌, ◌<◌, ◌≡◌, refl, String, Option, none, some, ◌&&◌, ◌∷◌, eqb, arith,
  Option-cases, inl, inr,
}
use koven.Exec.{ok, ◌>>=◌}
use koven.Exec.Laws.{>>=-eq-ok, transaction-eq-ok}
use koven.Sql.{select, update, has_key}
use koven.Persistence.Db.{Db, SessionRow, MissionRow, NonceRow}
use koven.Persistence.Missions.{session_key, mission_key, find_session, find_mission}
use koven.Persistence.Nonces.{
  SpendingReservation, has_nonce, has_commitment, insert_consumed_nonce, next_spent,
  reserve_mission_budget, reserve_session_budget, reserve_in_session, charge_row, charge, reserve,
  reserve_spending,
}

-- The row of a reservation of `a` tinybar.
abbrev pub nonce_row : SpendingReservation → ℕ → NonceRow
nonce_row r a = record {
  mission_id = r.mission_id;
  nonce = r.nonce;
  payment_commitment = r.payment_commitment;
  amount = a;
  consumed_at = r.consumed_at;
}

abbrev pub consume : SpendingReservation → ℕ → Db → Db
consume r a db = record db { nonces = nonce_row r a ∷ db.nonces }

abbrev pub charge_mission : MissionRow → ℕ → Db → Db
charge_mission row a db = record db {
  missions =
      update (λ r. has_key mission_key row.id r && eqb r.spent row.spent)
        (λ r. record r { spent = row.spent + a }) db.missions;
}

abbrev pub charge_session : SessionRow → ℕ → Db → Db
charge_session row a db = record db {
  sessions =
      update (λ r. has_key session_key row.id r && eqb r.spent row.spent)
        (λ r. record r { spent = row.spent + a }) db.sessions;
}

next_spent-ok :
    (current cap : ℕ) (amount : ℤ) (db : Db) {n : ℕ} {db' : Db}
    → next_spent current cap amount db ≡ (ok n, db')
    → (a : ℕ) × (amount ≡ pos a) × (0 < a) × (n ≡ current + a) × (current + a ≤ cap) × (db' ≡ db)
unfolding next_spent
next_spent-ok current cap (pos a) db h =
    (a, refl, ground arith, ground arith, ground arith, ground arith)
next_spent-ok current cap (negsuc a) db h = ground arith

insert_consumed_nonce-ok :
    (r : SpendingReservation) (a : ℕ) (db : Db) {db' : Db}
    → r.amount_tinybar ≡ pos a
    → insert_consumed_nonce r db ≡ (ok tt, db')
    → (db' ≡ consume r a db)
      × (select (has_nonce r.mission_id r.nonce) db.nonces ≡ none)
      × (select (has_commitment r.payment_commitment) db.nonces ≡ none)
unfolding insert_consumed_nonce
insert_consumed_nonce-ok r a db e h = (ground arith, ground arith, ground arith)

insert_consumed_nonce-pos :
    (r : SpendingReservation) (x : ℤ) (db : Db) {db' : Db}
    → r.amount_tinybar ≡ x
    → insert_consumed_nonce r db ≡ (ok tt, db')
    → (a : ℕ) × (r.amount_tinybar ≡ pos a)
unfolding insert_consumed_nonce
insert_consumed_nonce-pos r (pos a) db e h = (a, e)
insert_consumed_nonce-pos r (negsuc a) db e h = ground arith

reserve_mission_budget-ok :
    (row : MissionRow) (a : ℕ) (db : Db) {db' : Db}
    → reserve_mission_budget row (pos a) db ≡ (ok tt, db')
    → (db' ≡ charge_mission row a db) × (row.spent + a ≤ row.spending_cap) × (0 < a)
unfolding reserve_mission_budget
reserve_mission_budget-ok row a db h = (ground arith, ground arith, ground arith)

reserve_session_budget-ok :
    (row : SessionRow) (a : ℕ) (db : Db) {db' : Db}
    → reserve_session_budget row (pos a) db ≡ (ok tt, db')
    → (db' ≡ charge_session row a db) × (row.spent + a ≤ row.spending_cap)
unfolding reserve_session_budget
reserve_session_budget-ok row a db h = (ground arith, ground arith)

-- What the session of a mission goes through.
abbrev pub InSession : Option String → ℕ → Db → Db → Type 0
InSession none a db db' = db' ≡ db
InSession (some id) a db db' =
    (row : SessionRow) × (find_session id db ≡ some row)
    × (db' ≡ charge_session row a db)
    × (row.spent + a ≤ row.spending_cap)

reserve_in_session-ok :
    (id : Option String) (a : ℕ) (db : Db) {db' : Db}
    → reserve_in_session id (pos a) db ≡ (ok tt, db')
    → InSession id a db db'
unfolding reserve_in_session
reserve_in_session-ok none a db h = ground arith
reserve_in_session-ok (some id) a db {db'} h = elim (Option-cases (find_session id db)) [
  | inl e ↦ cc (rw e at h)
  | inr (row, e) ↦
      let (eq, fits) = reserve_session_budget-ok row a db {db' = db'} (rw e at h) in
      (row, e, eq, fits)
]

-- A reservation of `a` tinybar that has gone through.
pub record Reserved (r : SpendingReservation) (db db' : Db) : Type 0 where
  pub a : ℕ
  pub amount : r.amount_tinybar ≡ pos a
  pub positive : 0 < a
  pub new_nonce : select (has_nonce r.mission_id r.nonce) db.nonces ≡ none
  pub new_commitment : select (has_commitment r.payment_commitment) db.nonces ≡ none
  pub row : MissionRow
  pub found : find_mission r.mission_id db ≡ some row
  pub fits : row.spent + a ≤ row.spending_cap
  pub in_session : InSession row.session_id a (charge_mission row a (consume r a db)) db'

charge_row-ok :
    (r : SpendingReservation) (row : MissionRow) (a : ℕ) (db : Db) {db' : Db}
    → charge_row r row db ≡ (ok tt, db')
    → r.amount_tinybar ≡ pos a
    → (row.spent + a ≤ row.spending_cap)
      × (0 < a)
      × InSession row.session_id a (charge_mission row a db) db'
unfolding charge_row
charge_row-ok r row a db {db'} h e =
    let (u, t, e₁, h₁) =
      >>=-eq-ok (reserve_mission_budget row (pos a))
        (λ _. reserve_in_session row.session_id (pos a)) db (rw e at h) in
    let (is_charged, fits, positive) = reserve_mission_budget-ok row a db {db' = t} e₁ in
    (fits, positive, rw is_charged at (reserve_in_session-ok row.session_id a t {db' = db'} h₁))

charge-ok :
    (r : SpendingReservation) (a : ℕ) (db : Db) {db' : Db}
    → charge r db ≡ (ok tt, db')
    → r.amount_tinybar ≡ pos a
    → (row : MissionRow) × (find_mission r.mission_id db ≡ some row)
      × (row.spent + a ≤ row.spending_cap)
      × (0 < a)
      × InSession row.session_id a (charge_mission row a db) db'
charge-ok r a db {db'} h e = elim (Option-cases (find_mission r.mission_id db)) [
  | inl missing ↦ unfold charge in cc (rw missing at h)
  | inr (row, found) ↦
      let (fits, positive, in_session) =
        charge_row-ok r row a db {db' = db'} (unfold charge in rw found at h) e in
      (row, found, fits, positive, in_session)
]

reserve_spending-body :
    (r : SpendingReservation) (db : Db) {db' : Db}
    → reserve_spending r db ≡ (ok tt, db')
    → (insert_consumed_nonce r >>= λ _. charge r) db ≡ (ok tt, db')
unfolding reserve_spending
reserve_spending-body r db h = transaction-eq-ok (reserve r) db h

pub reserve_spending-ok :
    (r : SpendingReservation) (db db' : Db)
    → reserve_spending r db ≡ (ok tt, db')
    → Reserved r db db'
reserve_spending-ok r db db' h =
    let (u, t, e₁, h₁) =
      >>=-eq-ok (insert_consumed_nonce r) (λ _. charge r) db
        (reserve_spending-body r db {db' = db'} h) in
    let (a, amount) = insert_consumed_nonce-pos r r.amount_tinybar db {db' = t} refl e₁ in
    let (is_consumed, new_nonce, new_commitment) =
      insert_consumed_nonce-ok r a db {db' = t} amount e₁ in
    let (row, found, fits, positive, in_session) = charge-ok r a t {db' = db'} h₁ amount in
    record {
      a = a;
      amount = amount;
      positive = positive;
      new_nonce = new_nonce;
      new_commitment = new_commitment;
      row = row;
      found = rw is_consumed at found;
      fits = fits;
      in_session = rw is_consumed at in_session;
    }
