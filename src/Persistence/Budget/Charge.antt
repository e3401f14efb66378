-- ===== src/Persistence/Budget/Charge.antt =====
-- A reservation keeps the budgets: the nonce, the mission and the session are charged together.
use koven.Prelude.{
  ℕ, ◌+◌, ◌≤◌, ◌≡◌, refl, ap, subst, sym, ◌∙◌, String, Option, none, some, Bool, true, ◌&&◌, List,
  ◌∷◌, same_text, All, All-map, if◌then◌else◌, arith, eqb, eq_iff,
}
use koven.Sql.{select, exists, has_key, update, IsKeyed, sum}
use koven.Sql.Laws.{
  select-key, select-update, IsKeyed-update, All-update, All-update_found, sum-update_found,
}
use koven.Persistence.Db.{Db, SessionRow, MissionRow, NonceRow}
use koven.Persistence.Missions.{session_key, mission_key, session_known, find_mission}
use koven.Persistence.Nonces.{SpendingReservation, has_nonce, has_commitment, reserve_spending}
use koven.Persistence.Nonces.Reserve.{
  nonce_row, consume, charge_mission, charge_session, InSession, reserve_spending-ok,
}
use koven.Persistence.Budget.{
  spent_in, MissionLedger, SessionLedger, NonceKnown, SessionKnown, MissionWithin, SessionWithin,
  IsBudgeted,
}
use koven.Exec.{ok}

-- The rows after the charge, with the mission's row.
module _ (row : MissionRow) (a : ℕ) where
  abbrev hit : MissionRow → Bool
  hit r = has_key mission_key row.id r && eqb r.spent row.spent

  abbrev charged : MissionRow → MissionRow
  charged r = record r { spent = row.spent + a }

  module _ (ms : List MissionRow) (keyed : IsKeyed mission_key ms)
      (found : select (has_key mission_key row.id) ms ≡ some row) where
    -- A mission that is there stays there.
    exists-charged :
        (id : String)
        → exists (has_key mission_key id) ms ≡ true
        → exists (has_key mission_key id) (update hit charged ms) ≡ true
    exists-charged id h =
        rw (select-update mission_key hit charged id ms (λ m. refl)) (ground arith)

    -- The mission's ledger meets the new nonce; another mission's does not count it.
    ledgers-charged :
        (n : NonceRow) (ns : List NonceRow)
        → n.mission_id ≡ row.id
        → n.amount ≡ a
        → All (MissionLedger ns) ms
        → All (MissionLedger (n ∷ ns)) (update hit charged ms)
    ledgers-charged n ns same amount h =
        All-update_found mission_key (MissionLedger ns) (MissionLedger (n ∷ ns)) row.id
          (λ r. eqb r.spent row.spent) charged ms keyed found (ground arith)
          (λ k. ground (arith, eq_iff n.mission_id row.id))
          (λ m d k. ground (arith, eq_iff n.mission_id m.id, eq_iff m.id row.id)) h

    -- The mission's session has the charge to carry, and no other session.
    sum-charged :
        (id : String)
        → sum (spent_in id) (update hit charged ms)
          ≡ sum (spent_in id) ms + (if same_text row.session_id (some id) then a else 0)
    sum-charged id = ground (
      arith,
      sum-update_found mission_key (spent_in id) row.id (λ r. eqb r.spent row.spent) charged ms
          keyed found (ground arith),
    )

-- The rows after the charge, with the session's row.
module _ (row : SessionRow) (a : ℕ) (ms ms' : List MissionRow) (ss : List SessionRow)
    (keyed : IsKeyed session_key ss)
    (found : select (has_key session_key row.id) ss ≡ some row) where
  abbrev hit_session : SessionRow → Bool
  hit_session r = has_key session_key row.id r && eqb r.spent row.spent

  abbrev charged_session : SessionRow → SessionRow
  charged_session r = record r { spent = row.spent + a }

  session_known-charged :
      (o : Option String)
      → session_known ss o ≡ true
      → session_known (update hit_session charged_session ss) o ≡ true
  session_known-charged none h = refl
  session_known-charged (some id) h =
      rw (select-update session_key hit_session charged_session id ss (λ s. refl)) (ground arith)

  session_ledgers-charged :
      ((id : String)
        → sum (spent_in id) ms'
          ≡ sum (spent_in id) ms + (if same_text (some row.id) (some id) then a else 0))
      → All (SessionLedger ms) ss
      → All (SessionLedger ms') (update hit_session charged_session ss)
  session_ledgers-charged grown h =
      All-update_found session_key (SessionLedger ms) (SessionLedger ms') row.id
        (λ r. eqb r.spent row.spent) charged_session ss keyed found (ground arith)
        (λ k. ground (arith, grown row.id, eq_iff row.id row.id))
        (λ s d k. ground (arith, grown s.id, eq_iff row.id s.id, eq_iff s.id row.id)) h

-- The invariant, once the mission has been charged, but for the sessions.
module _ (r : SpendingReservation) (row : MissionRow) (a : ℕ) (db : Db)
    (found : find_mission r.mission_id db ≡ some row) (fits : row.spent + a ≤ row.spending_cap)
    (new_nonce : select (has_nonce r.mission_id r.nonce) db.nonces ≡ none)
    (new_commitment : select (has_commitment r.payment_commitment) db.nonces ≡ none)
    (b : IsBudgeted db) where
  abbrev db₁ : Db
  db₁ = charge_mission row a (consume r a db)

  same_id : row.id ≡ r.mission_id
  same_id = select-key mission_key r.mission_id db.missions found

  found_row : select (has_key mission_key row.id) db.missions ≡ some row
  found_row = subst (λ k. select (has_key mission_key k) db.missions ≡ some row) (sym same_id) found

  missions_within-charged : All MissionWithin db₁.missions
  missions_within-charged =
      All-update_found mission_key MissionWithin MissionWithin row.id (λ r. eqb r.spent row.spent)
        (charged row a) db.missions b.missions_keyed found_row (ground arith) (λ k. fits)
        (λ m d k. k) b.missions_within

  nonces_known-charged : All (NonceKnown db₁.missions) db₁.nonces
  nonces_known-charged = (
    exists-charged row a db.missions b.missions_keyed found_row r.mission_id (rw found refl),
    All-map (NonceKnown db.missions) (NonceKnown db₁.missions) db.nonces
        (λ n h. exists-charged row a db.missions b.missions_keyed found_row n.mission_id h)
        b.nonces_known,
  )

  -- With the sessions that go with it, the charge keeps the budgets.
  charged-IsBudgeted :
      (ss : List SessionRow)
      → IsKeyed session_key ss
      → All SessionWithin ss
      → All (SessionLedger db₁.missions) ss
      → ((o : Option String) → session_known db.sessions o ≡ true → session_known ss o ≡ true)
      → IsBudgeted (record db₁ { sessions = ss })
  charged-IsBudgeted ss keyed within ledgers known = record {
    missions_keyed =
        IsKeyed-update mission_key (hit row a) (charged row a) db.missions (λ m. refl)
          b.missions_keyed;
    sessions_keyed = keyed;
    missions_within = missions_within-charged;
    sessions_within = within;
    mission_ledgers =
        ledgers-charged row a db.missions b.missions_keyed found_row (nonce_row r a) db.nonces
          (sym same_id) refl b.mission_ledgers;
    session_ledgers = ledgers;
    nonces_known = nonces_known-charged;
    sessions_known =
        All-update (SessionKnown ss) (hit row a) (charged row a) db.missions (λ m h k. h)
          (All-map (SessionKnown db.sessions) (SessionKnown ss) db.missions
            (λ m h. known m.session_id h) b.sessions_known);
    no_replay = (new_nonce, new_commitment, b.no_replay);
  }

  charge-IsBudgeted :
      (o : Option String) (db' : Db) → row.session_id ≡ o → InSession o a db₁ db' → IsBudgeted db'
  charge-IsBudgeted none db' e h = rw h (
      charged-IsBudgeted db.sessions b.sessions_keyed b.sessions_within
        (All-map (SessionLedger db.missions) (SessionLedger db₁.missions) db.sessions
          (λ s k. ground (arith, sum-charged row a db.missions b.missions_keyed found_row s.id))
          b.session_ledgers)
        (λ o h. h))
  charge-IsBudgeted (some id) db' e (s, s_found, eq, s_fits) =
      let s_id : s.id ≡ id = select-key session_key id db.sessions s_found in
      let here : select (has_key session_key s.id) db.sessions ≡ some s =
        subst (λ k. select (has_key session_key k) db.sessions ≡ some s) (sym s_id) s_found in
      rw eq (
        charged-IsBudgeted (charge_session s a db₁).sessions
          (IsKeyed-update session_key _ _ db.sessions (λ x. refl) b.sessions_keyed)
          (All-update_found session_key SessionWithin SessionWithin s.id (λ r. eqb r.spent s.spent)
            (λ r. record r { spent = s.spent + a }) db.sessions b.sessions_keyed here (ground arith)
            (λ k. s_fits) (λ m d k. k) b.sessions_within)
          (session_ledgers-charged s a db.missions db₁.missions db.sessions b.sessions_keyed here
            (λ j.
              subst
                (λ (o : Option String).
                  sum (spent_in j) db₁.missions
                  ≡ sum (spent_in j) db.missions + (if same_text o (some j) then a else 0))
                (e ∙ ap some (sym s_id))
                (sum-charged row a db.missions b.missions_keyed found_row j))
            b.session_ledgers)
          (session_known-charged s a db.missions db₁.missions db.sessions b.sessions_keyed here))

-- A reservation that goes through keeps the budgets: every mission and session stays within its cap, what it has
-- spent is still what its nonces add up to, and no nonce and no commitment is consumed twice.
pub reserve_spending-IsBudgeted :
    (r : SpendingReservation) (db db' : Db)
    → IsBudgeted db
    → reserve_spending r db ≡ (ok tt, db')
    → IsBudgeted db'
reserve_spending-IsBudgeted r db db' b h =
    let d = reserve_spending-ok r db db' h in
    charge-IsBudgeted r d.row d.a db d.found d.fits d.new_nonce d.new_commitment b d.row.session_id
      db' refl d.in_session
