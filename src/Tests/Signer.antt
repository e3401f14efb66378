-- ===== src/Tests/Signer.antt =====
-- A history of the signer's store.
use koven.Prelude.{◌≡◌, refl, ◌≤◌, some}
use koven.Sql.{sum}
use koven.Persistence.Missions.{find_session}
use koven.Signer.Types.{empty}
use koven.Signer.Store.Policy.{find_policy, register_mission_policy, policy_row}
use koven.Signer.Store.Authorization.{reserve_authorization}
use koven.Signer.Safety.{IsSafe, authorized_for}
use koven.Signer.Safety.History.{
  step, run, history-IsSafe, history-cap, history-session_cap, authorized_in,
}
use koven.Tests.Samples.{policy_of, canonical, calls}

-- Each mission has one payment through.
paid :
    (sum (authorized_for "a") (run canonical calls empty).authorizations ≡ 60)
    × (sum (authorized_for "b") (run canonical calls empty).authorizations ≡ 80)
unfolding run step register_mission_policy reserve_authorization
paid = (refl, refl)

policy_kept :
    find_policy "a" (run canonical calls empty)
    ≡ some (policy_row canonical.of_policy canonical.conforms (policy_of "a") "t0")
unfolding run step register_mission_policy reserve_authorization
policy_kept = refl

history-IsSafe_example : IsSafe (run canonical calls empty)
history-IsSafe_example = history-IsSafe canonical calls

history-cap_example : sum (authorized_for "a") (run canonical calls empty).authorizations ≤ 100
history-cap_example = history-cap canonical calls "a" _ policy_kept

session_kept :
    find_session "session" (run canonical calls empty).db
    ≡ some (record { id = "session"; spending_cap = 150; spent = 140 })
unfolding run step register_mission_policy reserve_authorization
session_kept = refl

history-session_cap_example :
    let s = run canonical calls empty in
    sum (authorized_in s.authorizations "session") s.db.missions ≤ 150
history-session_cap_example = history-session_cap canonical calls "session" _ session_kept
