-- ===== src/Signer/Safety.antt =====
-- What the signer's store guarantees of the payments that it has signed: the requests that reach it,
-- in any order, and the invariant that they keep.
pub mod Frame
pub mod Keeps
pub mod Register
pub mod History
use koven.Prelude.{
  ℕ, ◌+◌, ◌≡◌, String, Option, none, some, Bool, List, [], ◌∷◌, ◌==◌, All, if◌then◌else◌,
}
use koven.Sql.{select, has_key, IsKeyed}
use koven.Persistence.Db.{MissionRow, NonceRow}
use koven.Persistence.Missions.{mission_key}
use koven.Persistence.Budget.{IsBudgeted}
use koven.Signer.Types.{PolicyRow, StoredAuthorization, SignerDb}
use koven.Signer.Store.Policy.{policy_key}

-- Each stored authorization has its consumed nonce, of the same mission and amount.
abbrev pub Mirrored : List StoredAuthorization → List NonceRow → Type 0
Mirrored [] [] = Unit
Mirrored (a ∷ auths) (n ∷ ns) =
    (n.mission_id ≡ a.mission_id)
    × (n.nonce ≡ a.nonce)
    × (n.payment_commitment ≡ a.commitment)
    × (n.amount ≡ a.authorization.amount_tinybar)
    × Mirrored auths ns
Mirrored _ _ = ⊥

-- The mission of a policy, with the cap and the session that the policy gives it.
pub record Backed (ms : List MissionRow) (p : PolicyRow) : Type 0 where
  pub row : MissionRow
  pub found : select (has_key mission_key p.mission_id) ms ≡ some row
  pub cap : row.spending_cap ≡ p.policy.spending_cap_tinybar
  pub in_session : row.session_id ≡ some p.policy.session_id
  pub of_mission : p.policy.mission_id ≡ p.mission_id

pub record IsSafe (s : SignerDb) : Type 0 where
  pub budgeted : IsBudgeted s.db
  pub mirrored : Mirrored s.authorizations s.db.nonces
  pub policies_keyed : IsKeyed policy_key s.policies
  pub policies_backed : All (Backed s.db.missions) s.policies

-- What a stored authorization lets a mission pay.
abbrev pub authorized_for : String → StoredAuthorization → ℕ
authorized_for id a = if a.mission_id == id then a.authorization.amount_tinybar else 0
