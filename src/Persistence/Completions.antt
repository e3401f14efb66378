-- ===== src/Persistence/Completions.antt =====
-- packages/persistence/src/mission-completions.ts: the policy and the completion of a mission are each
-- written once; a second write must say the same.
use koven.Prelude.{String, Option, none, some, Bool, ◌∷◌, ◌&&◌, ◌==◌, eqb, if◌then◌else◌}
use koven.Domain.Provider.{Provider}
use koven.Domain.Errors.{persistence_conflict, PersistenceConflict, constraint}
use koven.Exec.{Exec, ok, err, gets, ◌>>=◌}
use koven.Sql.{select, exists, has_key}
use koven.Persistence.Db.{Db, PersistedMissionPolicy, MissionCompletion}
use koven.Persistence.Missions.{mission_key}

abbrev pub policy_key : PersistedMissionPolicy → String
policy_key p = p.mission_id

abbrev pub completion_key : MissionCompletion → String
completion_key c = c.mission_id

abbrev pub policy_of : String → Db → Option PersistedMissionPolicy
policy_of id db = select (has_key policy_key id) db.mission_policies

abbrev pub completion_in : String → Db → Option MissionCompletion
completion_in id db = select (has_key completion_key id) db.mission_completions

unfoldable pub get_mission_policy : String → Exec Db (Option PersistedMissionPolicy)
get_mission_policy id = gets (policy_of id)

unfoldable pub get_mission_completion : String → Exec Db (Option MissionCompletion)
get_mission_completion id = gets (completion_in id)

abbrev pub same_provider : Provider → Provider → Bool
same_provider a b =
    (a.id == b.id)
    && (a.account_id == b.account_id)
    && (a.endpoint == b.endpoint)
    && (a.capability == b.capability)
    && eqb a.price_tinybar b.price_tinybar
    && (a.reputation_score == b.reputation_score)
    && eqb a.expected_latency_ms b.expected_latency_ms

-- The time of creation may differ.
unfoldable pub same_mission_policy : PersistedMissionPolicy → PersistedMissionPolicy → Bool
same_mission_policy a b =
    (a.borrower_account_id == b.borrower_account_id)
    && eqb a.spending_cap_tinybar b.spending_cap_tinybar
    && (a.session_id == b.session_id)
    && eqb a.session_cap_tinybar b.session_cap_tinybar
    && (a.target_sha256 == b.target_sha256)
    && same_provider a.provider b.provider
    && (a.approved_recipients_root == b.approved_recipients_root)

-- The time of acceptance may differ.
unfoldable pub same_completion : MissionCompletion → MissionCompletion → Bool
same_completion a b =
    (a.report_sha256 == b.report_sha256)
    && (a.settlement_tx_id == b.settlement_tx_id)
    && (a.settlement_payer_account_id == b.settlement_payer_account_id)
    && (a.settlement_recipient_account_id == b.settlement_recipient_account_id)
    && (a.settlement_asset == b.settlement_asset)
    && eqb a.settlement_amount_tinybar b.settlement_amount_tinybar
    && (a.settlement_confirmed_at == b.settlement_confirmed_at)
    && (a.callback_body_sha256 == b.callback_body_sha256)

-- `mission_id TEXT PRIMARY KEY REFERENCES missions(id)`
abbrev pub is_mission : String → Db → Bool
is_mission id db = exists (has_key mission_key id) db.missions

-- The INSERT, and its `catch` with the row that is there.
unfoldable pub insert_mission_policy :
    PersistedMissionPolicy → Option PersistedMissionPolicy → Exec Db PersistedMissionPolicy
insert_mission_policy policy none db =
    if is_mission policy.mission_id db
    then (ok policy, record db { mission_policies = policy ∷ db.mission_policies })
    else (err constraint, db)
insert_mission_policy policy (some existing) db = (
  if same_mission_policy existing policy
      then ok existing
      else err (persistence_conflict PersistenceConflict.mission_policy_conflict),
  db,
)

unfoldable pub save_mission_policy : PersistedMissionPolicy → Exec Db PersistedMissionPolicy
save_mission_policy policy = do
  existing ← gets (policy_of policy.mission_id)
  insert_mission_policy policy existing

-- `settlement_tx_id TEXT NOT NULL UNIQUE`
abbrev pub tx_key : MissionCompletion → String
tx_key c = c.settlement_tx_id

abbrev pub tx_taken : String → Db → Bool
tx_taken tx db = exists (has_key tx_key tx) db.mission_completions

-- The settlement of another mission gives the error of the `catch` too.
unfoldable pub insert_completion :
    MissionCompletion → Option MissionCompletion → Exec Db MissionCompletion
insert_completion c none db =
    if tx_taken c.settlement_tx_id db
    then (err (persistence_conflict PersistenceConflict.idempotency_conflict), db)
    else (if is_mission c.mission_id db
        then (ok c, record db { mission_completions = c ∷ db.mission_completions })
        else (err constraint, db))
insert_completion c (some existing) db = (
  if same_completion existing c
      then ok existing
      else err (persistence_conflict PersistenceConflict.idempotency_conflict),
  db,
)

unfoldable pub save_mission_completion : MissionCompletion → Exec Db MissionCompletion
save_mission_completion c = do
  existing ← gets (completion_in c.mission_id)
  insert_completion c existing
