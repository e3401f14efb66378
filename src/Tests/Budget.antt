-- ===== src/Tests/Budget.antt =====
-- A mission in a session, and reservations of its budget.
use koven.Prelude.{arith, pos, ◌≡◌, refl, String, ℤ, some, [], ◌∷◌, inl}
use koven.Domain.Mission.{running}
use koven.Domain.Errors.{persistence_conflict, PersistenceConflict}
use koven.Exec.{ok, err}
use koven.Persistence.Db.{Db, SessionRow, MissionRow}
use koven.Persistence.Nonces.{SpendingReservation, reserve_spending}
use koven.Persistence.Nonces.Reserve.{InSession, charge_mission, consume}
use koven.Persistence.Nonces.Complete.{reserve_spending_succeeds}
use koven.Persistence.Nonces.Replay.{replay_refused}
use koven.Persistence.Budget.{IsBudgeted}
use koven.Persistence.Budget.Charge.{reserve_spending-IsBudgeted}

abbrev mission : MissionRow
mission = record {
  id = "m";
  state = running;
  spending_cap = 100;
  spent = 0;
  approved_recipients_root = "12";
  target_ref = "repo";
  target_sha256 = "ab";
  session_id = some "s";
  created_at = "t0";
  updated_at = "t0";
}

abbrev session : SessionRow
session = record { id = "s"; spending_cap = 150; spent = 0 }

abbrev before : Db
before = record {
  sessions = session ∷ [];
  missions = mission ∷ [];
  loans = [];
  idempotency_results = [];
  nonces = [];
  events = [];
  outbox = [];
  mission_policies = [];
  mission_completions = [];
}

abbrev of_amount : ℤ → String → SpendingReservation
of_amount a commitment = record {
  mission_id = "m";
  nonce = "1";
  payment_commitment = commitment;
  amount_tinybar = a;
  consumed_at = "t1";
}

abbrev after : Db
after = (reserve_spending (of_amount (pos 60) "c") before).1

before-IsBudgeted : IsBudgeted before
before-IsBudgeted = record {
  missions_keyed = (refl, tt);
  sessions_keyed = (refl, tt);
  missions_within = (omega arith, tt);
  sessions_within = (omega arith, tt);
  mission_ledgers = (refl, tt);
  session_ledgers = (refl, tt);
  nonces_known = tt;
  sessions_known = (refl, tt);
  no_replay = tt;
}

reserved : reserve_spending (of_amount (pos 60) "c") before ≡ (ok tt, after)
unfolding reserve_spending
reserved = refl

reserve_spending-IsBudgeted_example : IsBudgeted after
reserve_spending-IsBudgeted_example =
    reserve_spending-IsBudgeted (of_amount (pos 60) "c") before after before-IsBudgeted reserved

reserve_spending_succeeds_example :
    (db' : Db) × (reserve_spending (of_amount (pos 60) "c") before ≡ (ok tt, db'))
    × InSession
        (some "s")
        60
        (charge_mission mission 60 (consume (of_amount (pos 60) "c") 60 before))
        db'
reserve_spending_succeeds_example =
    reserve_spending_succeeds (of_amount (pos 60) "c") mission 60 before (refl, tt) (refl, tt) refl
      refl refl refl omega arith omega arith omega arith (session, refl, omega arith, omega arith)

-- A cap that is exceeded is found after the nonce has been written.
refused :
    (reserve_spending (of_amount (pos 101) "c") before).0
    ≡ err (persistence_conflict PersistenceConflict.cap_exceeded)
unfolding reserve_spending
refused = refl

replay_refused_example :
    (c : PersistenceConflict) × (reserve_spending (of_amount (pos 5) "d") after
      ≡ (err (persistence_conflict c), after))
replay_refused_example =
    replay_refused (of_amount (pos 60) "c") (of_amount (pos 5) "d") 5 before after reserved refl
      omega arith (inl (refl, refl))
