-- ===== src/Signer/Store/Policy.antt =====
-- Mission policies in services/restricted-signer/src/store.ts: the operator's registration, which
-- opens the budgets of the mission and its session.
use koven.Prelude.{
  pos, String, Option, none, some, Bool, false, not, ◌∷◌, ◌==◌, if◌then◌else◌, ltb_ℤ,
}
use koven.Domain.Mission.{Mission, created}
use koven.Domain.Errors.{Error, ErrorCode, signer_error, zod_error}
use koven.Exec.{Exec, ok, err, pure, gets, throw_if, modify, transaction, ◌>>=◌, ◌>>◌}
use koven.Sql.{select, has_key}
use koven.Persistence.Missions.{
  SpendingSession, create_spending_session, get_spending_session, create_mission,
}
use koven.Signer.Types.{MissionPolicy, PolicyRow, SignerDb, on_db}
use koven.Signer.Store.Codes.{with_codes}

pub data Registration : Type 0 where
  registered duplicate : Registration

abbrev pub policy_key : PolicyRow → String
policy_key r = r.mission_id

abbrev pub find_policy : String → SignerDb → Option PolicyRow
find_policy id s = select (has_key policy_key id) s.policies

unfoldable pub get_mission_policy : String → Exec SignerDb (Option MissionPolicy)
get_mission_policy id s = (ok (elim (find_policy id s) [ none ↦ none | some r ↦ some r.policy ]), s)

abbrev pub policy_conflict : Error
policy_conflict = signer_error ErrorCode.mission_policy_conflict

-- The session is opened by its first mission; a later one cannot raise its cap.
abbrev pub policy_session : MissionPolicy → SpendingSession
policy_session p = record {
  id = p.session_id;
  spending_cap_tinybar = pos p.session_cap_tinybar;
  spent_tinybar = pos 0;
}

unfoldable pub ensure_session : MissionPolicy → Option SpendingSession → Exec SignerDb (Unit {0})
ensure_session p none = on_db (create_spending_session (policy_session p))
ensure_session p (some session) =
    throw_if (ltb_ℤ session.spending_cap_tinybar (pos p.session_cap_tinybar)) policy_conflict

-- The mission of a policy, in the signer's database.
abbrev pub policy_mission : MissionPolicy → String → Mission
policy_mission p now = record {
  id = p.mission_id;
  state = created;
  spending_cap_tinybar = pos p.spending_cap_tinybar;
  spent_tinybar = pos 0;
  approved_recipients_root = p.approved_recipients_root;
  target_ref = "restricted-signer-policy";
  target_sha256 = p.target_sha256;
  created_at = now;
  updated_at = now;
}

unfoldable pub root_differs : MissionPolicy → Option (String → String) → Bool
root_differs p none = false
root_differs p (some expected_root) =
    not (p.approved_recipients_root == expected_root p.provider.account_id)

-- `canonicalHash`, and the verdict of `MissionPolicyRequestSchema`, of libraries that are not modelled.
module _ (hash : MissionPolicy → String) (conforms : MissionPolicy → Bool) where
  abbrev pub policy_row : MissionPolicy → String → PolicyRow
  policy_row p now = record {
    mission_id = p.mission_id;
    content_hash = hash p;
    policy = p;
    created_at = now;
  }

  unfoldable pub keep_policy : MissionPolicy → String → Exec SignerDb Registration
  keep_policy p now = do
    modify λ s. record s { policies = policy_row p now ∷ s.policies }
    pure registered

  unfoldable pub store_policy : MissionPolicy → String → Exec SignerDb Registration
  unfolding keep_policy create_mission
  store_policy p now = do
    on_db (create_mission (policy_mission p now) (some p.session_id))
    keep_policy p now

  unfoldable pub insert_policy : MissionPolicy → String → Exec SignerDb Registration
  unfolding ensure_session store_policy get_spending_session create_spending_session
  insert_policy p now = do
    session ← on_db (get_spending_session p.session_id)
    ensure_session p session
    store_policy p now

  unfoldable pub register_row :
      MissionPolicy → String → Option PolicyRow → Exec SignerDb Registration
  unfolding insert_policy
  register_row p now (some row) s =
      (if row.content_hash == hash p then ok duplicate else err policy_conflict, s)
  register_row p now none s = insert_policy p now s

  -- The body of the transaction.
  unfoldable pub register_body : MissionPolicy → String → Exec SignerDb Registration
  unfolding register_row
  register_body p now = do row ← gets (find_policy p.mission_id); register_row p now row

  unfoldable pub register_mission_policy :
      MissionPolicy → String → Option (String → String) → Exec SignerDb Registration
  unfolding register_body root_differs with_codes transaction
  register_mission_policy p now expected_root = do
    throw_if (not (conforms p)) zod_error
    throw_if (root_differs p expected_root) (signer_error ErrorCode.mission_policy_mismatch)
    with_codes (transaction (register_body p now))
