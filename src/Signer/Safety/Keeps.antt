-- ===== src/Signer/Safety/Keeps.antt =====
-- Each call of the store keeps the invariant of its budgets, policies and authorizations.
use koven.Prelude.{
  ℕ, ◌+◌, ◌≡◌, refl, sym, String, Option, none, some, Bool, List, ◌∷◌, All-map, arith,
  if◌then◌else◌,
}
use koven.Exec.{Exec, ok, ◌>>=◌}
use koven.Exec.Laws.{>>=-eq-ok, transaction-keeps}
use koven.Sql.{update}
use koven.Sql.Laws.{select-update}
use koven.Persistence.Db.{Db, MissionRow}
use koven.Persistence.Missions.{mission_key}
use koven.Persistence.Nonces.{reserve_spending}
use koven.Persistence.Nonces.Reserve.{consume, charge_mission, InSession, reserve_spending-ok}
use koven.Persistence.Budget.Charge.{reserve_spending-IsBudgeted}
use koven.Signer.Types.{PolicyRow, StoredAuthorization, SignerDb, on_db}
use koven.Signer.Store.Authorization.{
  reservation, reserve_body, reserve_authorization, insert_authorization,
}
use koven.Signer.Safety.{Backed, IsSafe}
use koven.Signer.Safety.Frame.{Frame}

-- A call that leaves those tables alone keeps the invariant.
pub Frame-IsSafe : (s s' : SignerDb) → Frame s s' → IsSafe s → IsSafe s'
Frame-IsSafe s s' f h = record {
  budgeted = record {
    missions_keyed = rw f.missions b.missions_keyed;
    sessions_keyed = rw f.sessions b.sessions_keyed;
    missions_within = rw f.missions b.missions_within;
    sessions_within = rw f.sessions b.sessions_within;
    mission_ledgers = rw (f.missions, f.nonces) b.mission_ledgers;
    session_ledgers = rw (f.missions, f.sessions) b.session_ledgers;
    nonces_known = rw (f.missions, f.nonces) b.nonces_known;
    sessions_known = rw (f.missions, f.sessions) b.sessions_known;
    no_replay = rw f.nonces b.no_replay;
  };
  mirrored = rw (f.authorizations, f.nonces) h.mirrored;
  policies_keyed = rw f.policies h.policies_keyed;
  policies_backed = rw (f.policies, f.missions) h.policies_backed;
}
  where
    open h use {budgeted as b}

pub on_db-eq-ok :
    {A : Type 0} (m : Exec Db A) (s : SignerDb) {a : A} {t : SignerDb}
    → on_db m s ≡ (ok a, t)
    → (db' : Db) × (m s.db ≡ (ok a, db')) × (t ≡ record s { db = db' })
on_db-eq-ok m s h = ((m s.db).1, λ i. ((h i).0, (m s.db).1), λ i. (sym h i).1)

InSession-tables :
    (o : Option String) (a : ℕ) (db db' : Db)
    → InSession o a db db'
    → (db'.missions ≡ db.missions) × (db'.nonces ≡ db.nonces)
InSession-tables none a db db' h = ground arith
InSession-tables (some id) a db db' (s, found, eq, fits) = ground arith

insert_authorization-ok :
    (a : StoredAuthorization) (s : SignerDb) {s' : SignerDb}
    → insert_authorization a s ≡ (ok tt, s')
    → s' ≡ record s { authorizations = a ∷ s.authorizations }
unfolding insert_authorization
insert_authorization-ok a s h = ground arith

-- A charge leaves the caps and the sessions of the missions alone.
Backed-update :
    (p : MissionRow → Bool) (n : ℕ) (ms : List MissionRow) (r : PolicyRow)
    → Backed ms r
    → Backed (update p (λ m. record m { spent = n }) ms) r
Backed-update p n ms r k = record {
  row = if p k.row then record k.row { spent = n } else k.row;
  found =
      rw
        (
          select-update mission_key p (λ m. record m { spent = n }) r.mission_id ms (λ m. refl),
          k.found,
        )
        refl;
  cap = ground arith;
  in_session = ground arith;
  of_mission = k.of_mission;
}

reserve_body-steps :
    (a : StoredAuthorization) (now : String) (s : SignerDb) {s' : SignerDb}
    → reserve_body a now s ≡ (ok tt, s')
    → (on_db (reserve_spending (reservation a now)) >>= λ _. insert_authorization a) s ≡ (ok tt, s')
unfolding reserve_body
reserve_body-steps a now s h = h

-- What the body of the transaction leaves.
pub reserve_body-ok :
    (a : StoredAuthorization) (now : String) (s s' : SignerDb)
    → reserve_body a now s ≡ (ok tt, s')
    → (db' : Db) × (reserve_spending (reservation a now) s.db ≡ (ok tt, db'))
      × (s' ≡ record s { db = db'; authorizations = a ∷ s.authorizations })
reserve_body-ok a now s s' h =
    let (u, t, e₁, h₁) =
      >>=-eq-ok (on_db (reserve_spending (reservation a now))) (λ _. insert_authorization a) s
        (reserve_body-steps a now s {s' = s'} h) in
    let (db', spent, t_eq) = on_db-eq-ok (reserve_spending (reservation a now)) s {t = t} e₁ in
    (db', spent, rw t_eq at (insert_authorization-ok a t {s' = s'} h₁))

reserved-IsSafe :
    (a : StoredAuthorization) (now : String) (s : SignerDb) (db' : Db)
    → IsSafe s
    → reserve_spending (reservation a now) s.db ≡ (ok tt, db')
    → IsSafe (record s { db = db'; authorizations = a ∷ s.authorizations })
reserved-IsSafe a now s db' h e =
    let r = reservation a now in
    let d = reserve_spending-ok r s.db db' e in
    let (same_missions, same_nonces) =
      InSession-tables d.row.session_id d.a (charge_mission d.row d.a (consume r d.a s.db)) db'
        d.in_session in
    record {
      budgeted = reserve_spending-IsBudgeted r s.db db' h.budgeted e;
      mirrored = rw same_nonces (refl, refl, refl, ground (arith, d.amount), h.mirrored);
      policies_keyed = h.policies_keyed;
      policies_backed = rw same_missions (
          All-map (Backed s.db.missions) (Backed (charge_mission d.row d.a s.db).missions)
            s.policies (λ p k. Backed-update _ (d.row.spent + d.a) s.db.missions p k)
            h.policies_backed);
    }

pub reserve_authorization-IsSafe :
    (a : StoredAuthorization) (now : String) (s : SignerDb)
    → IsSafe s
    → IsSafe (reserve_authorization a now s).1
unfolding reserve_authorization
reserve_authorization-IsSafe a now s h =
    transaction-keeps IsSafe (reserve_body a now) s h (λ u s' e.
      let (db', spent, eq) = reserve_body-ok a now s s' e in
      rw eq (reserved-IsSafe a now s db' h spent))
