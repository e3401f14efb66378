-- ===== src/Tests/Completion.antt =====
-- A provider's callback for a mission with one authorized payment, and one with a wrong signature.
use koven.Prelude.{pos, ◌≡◌, refl, ◌≤◌, ◌/◌, String, Option, some, none, true, []}
use koven.Domain.Scan.{ScanReport}
use koven.Domain.Errors.{ErrorCode, signer_error}
use Prim.Native.String.{◌++◌}
use koven.Exec.{Result, ok, err}
use koven.Signer.Types.{SignerDb}
use koven.Signer.Store.Policy.{register_mission_policy}
use koven.Signer.Store.Authorization.{reserve_authorization}
use koven.Signer.Store.Completion.{accepted, record_completion}
use koven.Signer.Complete.{
  RawCallback, CallbackHeaders, CompletionService, CompletionCallback, Delivery,
  TransferExpectation, distance, complete, callback_clock_skew_seconds,
}
use koven.Signer.Complete.Delivered.{IsDelivered, complete-IsAuthentic, complete-accepted}
use koven.Tests.Samples.{pay}
use koven.Tests.Gate.{provisioned}

abbrev settled : SignerDb
settled = (reserve_authorization (pay "a" "1" 60) "t1" provisioned).1

abbrev report : ScanReport
report = record {
  unsigned = record {
    mission_id = "a";
    target_sha256 = "ab";
    provider_id = "scanner";
    findings = [];
    started_at = "t1";
    completed_at = "t2";
  };
  report_sha256 = "rep";
}

abbrev callback : CompletionCallback
callback = record {
  outcome = record {
    mission_id = "a";
    delivered = true;
    report_sha256 = some "rep";
    settlement_tx_id = some "1";
    failure_reason = none;
    observed_at = "t2";
  };
  report = report;
}

-- The schemas read this one callback; a header that is missing is an empty text.
abbrev text_of : Option String → String
text_of none = ""
text_of (some t) = t

abbrev service : CompletionService String
service = record {
  account_id = "0.0.5";
  secret_of = λ id. some "k";
  parse_headers = λ r. some (record {
    idempotency_key = text_of r.idempotency_key;
    timestamp = text_of r.timestamp;
    signature = text_of r.signature;
  });
  number = λ t. 2;
  parse_json = λ t. some t;
  parse_envelope = λ j. some (record { mission_id = "a"; report_sha256 = "rep" });
  parse_callback = λ j. some callback;
  hmac = λ key text. text;
  report_hash = λ r. "rep";
  sha256_hex = λ t. t;
  iso = λ n. "t3";
}

abbrev raw : RawCallback
raw = record {
  body = "{}";
  idempotency_key = some "mission-complete:a:rep";
  timestamp = some "2";
  signature = some "2.mission-complete:a:rep.{}";
}

abbrev confirm : TransferExpectation → Result (Unit {0})
confirm e = ok tt

abbrev after : SignerDb
after = (complete service confirm raw 3000 settled).1

delivered : complete service confirm raw 3000 settled ≡ (ok accepted, after)
unfolding complete reserve_authorization register_mission_policy
delivered = refl

abbrev forged : RawCallback
forged = record raw { signature = some "00" }

refused :
    complete service confirm forged 3000 settled
    ≡ (err (signer_error ErrorCode.callback_auth_invalid), settled)
unfolding complete reserve_authorization register_mission_policy
refused = refl

complete-IsAuthentic_example :
    (headers : CallbackHeaders) × (d : Delivery) × (distance
        (3000 / 1000)
        (service.number headers.timestamp)
      ≤ callback_clock_skew_seconds)
    × IsDelivered service raw headers d settled
complete-IsAuthentic_example =
    complete-IsAuthentic service raw confirm 3000 accepted settled after delivered

complete-accepted_example :
    (headers : CallbackHeaders) × (d : Delivery) × IsDelivered service raw headers d settled
    × (confirm (record {
      transaction_id = d.settlement_tx_id;
      payer_account_id = service.account_id;
      recipient_account_id = d.policy.provider.account_id;
      amount_tinybar = pos d.authorization.authorization.amount_tinybar;
    })
        ≡ ok tt)
    × (record_completion
          (record {
            mission_id = d.policy.mission_id;
            report_sha256 = d.report.report_sha256;
            settlement_tx_id = d.settlement_tx_id;
            accepted_at = service.iso 3000;
          })
          headers.idempotency_key
          (service.sha256_hex (headers.idempotency_key ++ ("." ++ raw.body)))
          settled
        ≡ (ok accepted, after))
complete-accepted_example = complete-accepted service raw confirm 3000 settled after delivered
