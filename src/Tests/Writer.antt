-- ===== src/Tests/Writer.antt =====
-- The audit writer on a claimed job, whose message is prepared, submitted and published.
use koven.Prelude.{◌≡◌, refl, true, some, [], ◌∷◌}
use koven.Exec.{Result, ok}
use koven.Persistence.Db.{Db, empty}
use koven.Persistence.Outbox.{AuditOutboxJob, save_prepared, mark_submission_attempted, retry}
use koven.Audit.{
  World, Turn, uncertain, publish, publish_job, prepare_message, publish_message, submit_first,
  submit_message, after_submitting, retry_later,
}
use koven.Audit.Recorded.{Submits, publish-Submits}
use koven.Tests.Outbox.{job, message, second}

abbrev claimed_job : AuditOutboxJob
claimed_job = record job { event_id = "e2"; token = "t3" }

abbrev turn : Turn
turn = record {
  now = 10;
  now_text = "t10";
  jitter = λ n. n;
  prepare = λ e. ok message;
  submit = λ t. ok uncertain;
  reconcile = λ t. ok uncertain;
  while_waiting = λ db. db;
}

abbrev world : World
world = record { db = record empty { outbox = second ∷ [] }; submissions = [] }

abbrev attempted_db : Db
attempted_db = record empty {
  outbox = (record second { prepared = some message; submission_attempted = true }) ∷ [];
}

abbrev submitted : Result (Unit {0}) × World
submitted = publish 600000 turn claimed_job world

is_submitted :
    submitted.1.submissions
    ≡ (record { message = message.transaction_base64; tables = attempted_db }) ∷ []
unfolding publish publish_job prepare_message publish_message submit_first submit_message
    after_submitting retry_later save_prepared mark_submission_attempted retry
is_submitted = refl

publish-Submits_example : Submits claimed_job world submitted.1
publish-Submits_example = publish-Submits 600000 turn claimed_job world
