-- ===== src/Signer/Safety/Register.antt =====
-- Registering a policy keeps the invariant of budgets, policies and authorizations.
use koven.Prelude.{
  ◌≡◌, refl, String, Option, none, some, Bool, true, List, ◌∷◌, ◌==◌, All-map, arith, eq_iff,
  Option-cases, Bool-cases, eq_refl, inl, inr,
}
use koven.Exec.{Result, ok, ◌>>=◌, transaction}
use koven.Exec.Laws.{>>=-eq-ok, transaction-keeps}
use koven.Sql.{select, has_key}
use koven.Persistence.Db.{Db, MissionRow}
use koven.Persistence.Missions.{
  SpendingSession, session_known, mission_key, find_mission, create_mission, get_spending_session,
  create_spending_session,
}
use koven.Persistence.Budget.{IsBudgeted}
use koven.Persistence.Budget.Open.{
  open_session, open_mission, open_session-IsBudgeted, open_mission-IsBudgeted, fresh_session,
  fresh_mission, create_spending_session-ok, create_mission-ok, get_spending_session-ok,
}
use koven.Signer.Types.{MissionPolicy, PolicyRow, SignerDb, on_db}
use koven.Signer.Store.Policy.{
  Registration, find_policy, ensure_session, policy_session, policy_mission, policy_row,
  keep_policy, store_policy, insert_policy, register_body, register_mission_policy,
}
use koven.Signer.Safety.{Backed, IsSafe}
use koven.Signer.Safety.Keeps.{on_db-eq-ok}

-- The invariant with other sessions, or with a new mission and its policy.
with_db :
    (s : SignerDb) (db : Db)
    → IsSafe s
    → IsBudgeted db
    → db.missions ≡ s.db.missions
    → db.nonces ≡ s.db.nonces
    → IsSafe (record s { db = db })
with_db s db h b m n = record {
  budgeted = b;
  mirrored = rw n h.mirrored;
  policies_keyed = h.policies_keyed;
  policies_backed = rw m h.policies_backed;
}

-- A new mission is in front: the mission of an earlier policy is found as before.
Backed-open :
    (m : MissionRow) (ms : List MissionRow) (r : PolicyRow)
    → select (has_key mission_key m.id) ms ≡ none
    → Backed ms r
    → Backed (m ∷ ms) r
Backed-open m ms r new k = elim (Bool-cases (m.id == r.mission_id)) [
  | inl t ↦ cc (rw ((eq_iff m.id r.mission_id).0 t, k.found) at new)
  | inr f ↦ record {
    row = k.row;
    found = rw f k.found;
    cap = k.cap;
    in_session = k.in_session;
    of_mission = k.of_mission;
  }
]

-- The session is there, with its budgets in order.
ensure_session-IsSafe :
    (p : MissionPolicy) (o : Option SpendingSession) (s t : SignerDb)
    → IsSafe s
    → ensure_session p o s ≡ (ok tt, t)
    → IsSafe t × (t.policies ≡ s.policies)
unfolding ensure_session
ensure_session-IsSafe p none s t h e =
    let (db', e₁, t_eq) = on_db-eq-ok (create_spending_session (policy_session p)) s {t = t} e in
    let (opened, new) =
      create_spending_session-ok p.session_id p.session_cap_tinybar s.db {db' = db'} e₁ in
    let row = fresh_session p.session_id p.session_cap_tinybar in
    (
      rw (t_eq, opened)
          (with_db s (open_session row s.db) h
            (open_session-IsBudgeted row s.db new refl h.budgeted) refl refl),
      rw t_eq,
    )
ensure_session-IsSafe p (some session) s t h e =
    let same : t ≡ s = ground arith in (rw same h, rw same)

module _ (hash : MissionPolicy → String) (conforms : MissionPolicy → Bool) where
  -- The mission, and its policy's row.
  open_policy-IsSafe :
      (p : MissionPolicy) (now : String) (s : SignerDb)
      → find_policy p.mission_id s ≡ none
      → find_mission p.mission_id s.db ≡ none
      → session_known s.db.sessions (some p.session_id) ≡ true
      → IsSafe s
      → let m = fresh_mission (policy_mission p now) (some p.session_id) p.spending_cap_tinybar in
        IsSafe (record s {
          db = open_mission m s.db;
          policies = policy_row hash conforms p now ∷ s.policies;
        })
  open_policy-IsSafe p now s no_policy no_mission known h =
      let m = fresh_mission (policy_mission p now) (some p.session_id) p.spending_cap_tinybar in
      record {
        budgeted = open_mission-IsBudgeted m s.db no_mission known refl h.budgeted;
        mirrored = h.mirrored;
        policies_keyed = (no_policy, h.policies_keyed);
        policies_backed = (
          record {
            row = m;
            found = rw (eq_refl p.mission_id);
            cap = refl;
            in_session = refl;
            of_mission = refl;
          },
          All-map (Backed s.db.missions) (Backed (m ∷ s.db.missions)) s.policies
              (λ r k. Backed-open m s.db.missions r no_mission k) h.policies_backed,
        );
      }

  keep_policy-ok :
      (p : MissionPolicy) (now : String) (s : SignerDb) {r : Registration} {s' : SignerDb}
      → keep_policy hash conforms p now s ≡ (ok r, s')
      → s' ≡ record s { policies = policy_row hash conforms p now ∷ s.policies }
  unfolding keep_policy
  keep_policy-ok p now s h = ground arith

  store_policy-steps :
      (p : MissionPolicy) (now : String) (s : SignerDb) {x : Result Registration × SignerDb}
      → store_policy hash conforms p now s ≡ x
      → (on_db (create_mission (policy_mission p now) (some p.session_id)) >>= λ _.
            keep_policy hash conforms p now)
          s
        ≡ x
  unfolding store_policy
  store_policy-steps p now s h = h

  insert_policy-steps :
      (p : MissionPolicy) (now : String) (s : SignerDb) {x : Result Registration × SignerDb}
      → insert_policy hash conforms p now s ≡ x
      → (on_db (get_spending_session p.session_id) >>= λ o.
            ensure_session p o >>= λ _. store_policy hash conforms p now)
          s
        ≡ x
  unfolding insert_policy
  insert_policy-steps p now s h = h

  store_policy-IsSafe :
      (p : MissionPolicy) (now : String) (s s' : SignerDb) {r : Registration}
      → find_policy p.mission_id s ≡ none
      → IsSafe s
      → store_policy hash conforms p now s ≡ (ok r, s')
      → IsSafe s'
  store_policy-IsSafe p now s s' {r} no_policy h e =
      let (u, t, e₁, h₁) =
        >>=-eq-ok (on_db (create_mission (policy_mission p now) (some p.session_id)))
          (λ _. keep_policy hash conforms p now) s (store_policy-steps p now s e) in
      let (db', made, t_eq) =
        on_db-eq-ok (create_mission (policy_mission p now) (some p.session_id)) s {t = t} e₁ in
      let (opened, no_mission, known) =
        create_mission-ok (policy_mission p now) (some p.session_id) p.spending_cap_tinybar s.db
          {db' = db'} refl refl made in
      let last = rw (t_eq, opened) at (keep_policy-ok p now t {s' = s'} h₁) in
      rw last (open_policy-IsSafe p now s no_policy no_mission known h)

  insert_policy-IsSafe :
      (p : MissionPolicy) (now : String) (s s' : SignerDb) {r : Registration}
      → find_policy p.mission_id s ≡ none
      → IsSafe s
      → insert_policy hash conforms p now s ≡ (ok r, s')
      → IsSafe s'
  insert_policy-IsSafe p now s s' {r} no_policy h e =
      let (o, t, e₁, h₁) =
        >>=-eq-ok (on_db (get_spending_session p.session_id))
          (λ o. ensure_session p o >>= λ _. store_policy hash conforms p now) s
          (insert_policy-steps p now s e) in
      let (db', read, t_eq) = on_db-eq-ok (get_spending_session p.session_id) s {t = t} e₁ in
      let same : t ≡ s = rw (t_eq, get_spending_session-ok p.session_id s.db {db' = db'} read) in
      let (u, t₂, e₂, h₂) =
        >>=-eq-ok (ensure_session p o) (λ _. store_policy hash conforms p now) t h₁ in
      let (safe, kept) = ensure_session-IsSafe p o t t₂ (rw same h) e₂ in
      store_policy-IsSafe p now t₂ s' {r = r} (rw (kept, same) no_policy) safe h₂

  register_body-IsSafe :
      (p : MissionPolicy) (now : String) (s s' : SignerDb) {r : Registration}
      → IsSafe s
      → register_body hash conforms p now s ≡ (ok r, s')
      → IsSafe s'
  unfolding register_body
  register_body-IsSafe p now s s' {r} h e = elim (Option-cases (find_policy p.mission_id s)) [
    | inl absent ↦ insert_policy-IsSafe p now s s' {r = r} absent h (rw absent at e)
    | inr (row, found) ↦ let same : s' ≡ s = ground arith in rw same h
  ]

  registered-IsSafe :
      (p : MissionPolicy) (now : String) (s : SignerDb)
      → IsSafe s
      → IsSafe (transaction (register_body hash conforms p now) s).1
  registered-IsSafe p now s h =
      transaction-keeps IsSafe (register_body hash conforms p now) s h
        (λ r s' e. register_body-IsSafe p now s s' {r = r} h e)

  pub register_mission_policy-IsSafe :
      (p : MissionPolicy) (now : String) (root : Option (String → String)) (s : SignerDb)
      → IsSafe s
      → IsSafe (register_mission_policy hash conforms p now root s).1
  unfolding register_mission_policy
  register_mission_policy-IsSafe p now none s h = elim (Bool-cases (conforms p)) [
    | inl c ↦ rw c (registered-IsSafe p now s h)
    | inr c ↦ rw c h
  ]
  register_mission_policy-IsSafe p now (some root) s h = elim (Bool-cases (conforms p)) [
    | inl c ↦ elim (Bool-cases (p.approved_recipients_root == root p.provider.account_id)) [
      | inl d ↦ rw (c, d) (registered-IsSafe p now s h)
      | inr d ↦ rw (c, d) h
    ]
    | inr c ↦ rw c h
  ]
