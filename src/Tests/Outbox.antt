-- ===== src/Tests/Outbox.antt =====
-- Two events of a mission, the first published and the second held by a worker.
use koven.Prelude.{arith, ◌≡◌, refl, String, some, none, true, false, List, [], ◌∷◌}
use koven.Persistence.Db.{
  OutboxRow, processing, published, mission_created, PreparedHcsMessage, empty,
}
use koven.Persistence.Events.{LocalEvent, Texts, create_event, build_hcs_envelope}
use koven.Persistence.Outbox.{
  AuditOutboxJob, claim_due, save_prepared, mark_submission_attempted, mark_published,
}
use koven.Persistence.Outbox.History.{
  Call, event, claimed, prepared, attempted, confirmed, step, run, find_outbox, published_in_order,
}

abbrev texts : Texts
texts = record { is_sha256_hex = λ s. true; json_bytes = λ e. 200; parse_date = λ s. some 5 }

abbrev event_of : String → LocalEvent
event_of id = record {
  id = id;
  mission_id = "m";
  type_of = mission_created;
  payload_hash = "ab";
  payload = "{}";
  transaction_id = none;
  occurred_at = "2026-01-01T00:00:00Z";
  published_at = none;
}

abbrev pub message : PreparedHcsMessage
message = record {
  transaction_id = "0.0.2@5.000000000";
  transaction_base64 = "AAAA";
  valid_until = 90;
}

abbrev pub job : AuditOutboxJob
job = record {
  event_id = "e1";
  mission_id = "m";
  envelope = build_hcs_envelope (event_of "e1");
  attempts = 0;
  token = "t1";
  prepared = none;
  submission_attempted = false;
}

-- The second claim finds nothing, since the first event is not published yet.
abbrev calls : List Call
calls =
    event texts (event_of "e1")
    ∷ event texts (event_of "e2")
    ∷ claimed "t1" 10 30
    ∷ claimed "t2" 11 30
    ∷ prepared job message
    ∷ attempted job
    ∷ confirmed job "0.0.2@5.000000000" 7 "2026-01-01T00:00:01Z"
    ∷ claimed "t3" 12 30
    ∷ []

abbrev first : OutboxRow
first = record {
  event_id = "e1";
  mission_id = "m";
  envelope = build_hcs_envelope (event_of "e1");
  status = published;
  attempts = 0;
  next_attempt_at = 5;
  lease_token = none;
  lease_until = none;
  prepared = some message;
  submission_attempted = true;
  hcs_sequence_number = some 7;
  published_at = some "2026-01-01T00:00:01Z";
}

abbrev pub second : OutboxRow
second = record {
  event_id = "e2";
  mission_id = "m";
  envelope = build_hcs_envelope (event_of "e2");
  status = processing;
  attempts = 0;
  next_attempt_at = 5;
  lease_token = some "t3";
  lease_until = some 42;
  prepared = none;
  submission_attempted = false;
  hcs_sequence_number = none;
  published_at = none;
}

first_kept : find_outbox "e1" (run calls empty) ≡ some first
unfolding run step create_event claim_due save_prepared mark_submission_attempted mark_published
first_kept = refl

second_kept : find_outbox "e2" (run calls empty) ≡ some second
unfolding run step create_event claim_due save_prepared mark_submission_attempted mark_published
second_kept = refl

published_in_order_example : first.status ≡ published
unfolding run step create_event claim_due save_prepared mark_submission_attempted mark_published
published_in_order_example =
    published_in_order calls {o = first} {r = second} {a = 1} {b = 2} first_kept second_kept refl
      refl refl (omega arith) refl
