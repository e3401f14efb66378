-- ===== src/Tests/Callback.antt =====
-- A provider's callback to the orchestrator, for a mission that runs.
use koven.Prelude.{◌≡◌, refl, String, some, none, true, [], ◌∷◌}
use koven.Domain.Mission.{running}
use koven.Domain.Scan.{ScanReport}
use koven.Exec.{Result, ok, transaction}
use koven.Signer.Complete.{RawCallback, CallbackHeaders, CompletionCallback}
use koven.Persistence.Db.{Db, empty, PersistedMissionPolicy}
use koven.Persistence.Missions.{transition_mission, update_mission}
use koven.Persistence.Completions.{
  save_mission_policy, insert_mission_policy, save_mission_completion, insert_completion,
}
use koven.Persistence.Idempotency.{create_idempotency_result}
use koven.Persistence.Events.{create_event}
use koven.Orchestrator.Machine.{transition, transition_body, read_again, after_move}
use koven.Orchestrator.Completion.{
  CompletionHandler, CallbackStatus, accepted, Arrival, receive, read_callback_headers,
  read_callback, authenticate_callback, accept_callback, after_lookup, accept_first, check_first,
  complete_mission, persist,
}
use koven.Orchestrator.Completion.Accepted.{IsAccepted, receive-IsAccepted}
use koven.Tests.Machine.{machine, row}

abbrev policy : PersistedMissionPolicy
policy = record {
  mission_id = "m";
  borrower_account_id = "0.0.5";
  spending_cap_tinybar = 100;
  session_id = "s";
  session_cap_tinybar = 150;
  target_sha256 = "ab";
  provider = record {
    id = "scanner";
    account_id = "0.0.7";
    endpoint = "https://scan";
    capability = "scan";
    price_tinybar = 60;
    reputation_score = "1";
    expected_latency_ms = 10;
  };
  approved_recipients_root = "12";
  created_at = "t0";
}

abbrev ready : Db
ready = record empty {
  missions = (record row { state = running }) ∷ [];
  mission_policies = policy ∷ [];
}

-- The mission's policy is registered by the function that registers it.
registered :
    save_mission_policy policy (record empty { missions = (record row { state = running }) ∷ [] })
    ≡ (ok policy, ready)
unfolding save_mission_policy insert_mission_policy
registered = refl

abbrev report : ScanReport
report = record {
  unsigned = record {
    mission_id = "m";
    target_sha256 = "ab";
    provider_id = "scanner";
    findings = [];
    started_at = "t1";
    completed_at = "t2";
  };
  report_sha256 = "rep";
}

abbrev callback : CompletionCallback
callback = record {
  outcome = record {
    mission_id = "m";
    delivered = true;
    report_sha256 = some "rep";
    settlement_tx_id = some "tx";
    failure_reason = none;
    observed_at = "t2";
  };
  report = report;
}

abbrev raw : RawCallback
raw = record {
  body = "body";
  idempotency_key = some "mission-complete:m:rep";
  timestamp = some "3";
  signature = some "mac";
}

abbrev handler : CompletionHandler String
handler = record {
  machine = machine;
  secret_of = λ id. some "k";
  parse_headers = λ r.
      some
        (record { idempotency_key = "mission-complete:m:rep"; timestamp = "3"; signature = "mac" });
  number = λ t. 3;
  parse_json = λ t. some t;
  parse_envelope = λ j. some (record { mission_id = "m"; report_sha256 = "rep" });
  parse_callback = λ j. some callback;
  hmac = λ secret t. "mac";
  report_hash = λ u. "rep";
  sha256_hex = λ t. "hash";
  duplicate_payload = λ a b. a;
  received_payload = λ a b. a;
  accepted_body = "{}";
}

-- Another request moves nothing while the handler waits.
abbrev arrival : Arrival
arrival = record {
  now = 3000;
  now_text = "t3";
  confirm = λ x. ok "t2";
  while_confirming = λ db. db;
  signer = ok tt;
  while_signing = λ db. db;
}

abbrev received : Result CallbackStatus × Db
received = receive handler raw arrival ready

is_received : received ≡ (ok accepted, received.1)
unfolding receive read_callback_headers read_callback authenticate_callback accept_callback
    after_lookup accept_first check_first koven.Domain.Mission.same_state complete_mission
    transition koven.Domain.Mission.is_allowed transition_body read_again transition_mission
    update_mission after_move create_event transaction persist
    koven.Persistence.Completions.get_mission_completion
    koven.Persistence.Completions.get_mission_policy insert_completion save_mission_completion
    create_idempotency_result koven.Persistence.Idempotency.get_idempotency_result
    koven.Persistence.Missions.get_mission koven.Signer.Complete.distance
    koven.Orchestrator.Completion.completion_signature
is_received = refl

receive-IsAccepted_example : IsAccepted handler raw arrival ready received.1
receive-IsAccepted_example =
    receive-IsAccepted handler raw arrival ready received.1 (refl, tt) (λ db k. k) (λ db k. k)
      is_received
