-- ===== src/Audit.antt =====
-- packages/audit/src/writer.ts: the worker that publishes the outbox on the consensus service. What the
-- publisher and the clock answer is an argument, with what others do to the tables while it is awaited, and
-- the messages that are submitted are logged.
pub mod Recorded
use koven.Prelude.{
  smaller, larger, ℕ, zero, suc, ◌+◌, ◌*◌, ◌^◌, ltb, String, Option, none, some, Bool, true, false,
  List, ◌∷◌, ◌&&◌, if◌then◌else◌,
}
use koven.Exec.{Exec, Result, ok, pure, lift, modify, catch, ◌>>=◌, ◌>>◌}
use koven.Persistence.Db.{Db, PreparedHcsMessage, HcsEventEnvelope}
use koven.Persistence.Outbox.{
  AuditOutboxJob, claim_due, save_prepared, mark_submission_attempted, mark_published, retry,
}

-- `HcsSubmissionResult`
pub data SubmissionResult : Type 0 where
  confirmed : ℕ → SubmissionResult
  failed uncertain : SubmissionResult

-- A message that was submitted, and the tables at that moment.
pub record Submission : Type 0 where
  pub message : String
  pub tables : Db

-- The tables and the submissions, the latest in front.
pub record World : Type 0 where
  pub db : Db
  pub submissions : List Submission

-- The answers to one run of a job. `jitter` is `Math.floor(random() * cap)`.
pub record Turn : Type 0 where
  pub now : ℕ
  pub now_text : String
  pub jitter : ℕ → ℕ
  pub prepare : HcsEventEnvelope → Result PreparedHcsMessage
  pub submit : String → Result SubmissionResult
  pub reconcile : String → Result SubmissionResult
  pub while_waiting : Db → Db

abbrev pub on_db : {A : Type 0} → Exec Db A → Exec World A
on_db m w = ((m w.db).0, record w { db = (m w.db).1 })

abbrev pub retry_cap : ℕ → ℕ
retry_cap attempts = smaller 60000 (1000 * 2 ^ smaller attempts 16)

-- The wait before the next attempt.
unfoldable pub retry_delay : Turn → ℕ → ℕ
retry_delay x attempts = larger 1 (x.jitter (retry_cap attempts))

module _ (uncertainty_grace_ms : ℕ) (x : Turn) (job : AuditOutboxJob) where
  -- Others work while an answer is awaited.
  abbrev pub wait : Exec World (Unit {0})
  wait = modify λ w. record w { db = x.while_waiting w.db }

  -- `retry` of the writer.
  unfoldable pub retry_later : Bool → Exec World (Unit {0})
  retry_later reset = on_db (retry job (x.now + retry_delay x job.attempts) reset)

  -- `complete`
  unfoldable pub complete_job : PreparedHcsMessage → ℕ → Exec World (Unit {0})
  complete_job p n = on_db (mark_published job p.transaction_id n x.now_text)

  unfoldable pub prepare_message : Option PreparedHcsMessage → Exec World PreparedHcsMessage
  prepare_message (some p) = pure p
  prepare_message none = do
    wait
    p ← lift (x.prepare job.envelope)
    on_db (save_prepared job p)
    pure p

  unfoldable pub after_reconciling : PreparedHcsMessage → SubmissionResult → Exec World (Unit {0})
  after_reconciling p (confirmed n) = complete_job p n
  after_reconciling p failed = retry_later true
  after_reconciling p uncertain =
      retry_later (if ltb x.now (p.valid_until + uncertainty_grace_ms) then false else true)

  unfoldable pub reconcile_attempted : PreparedHcsMessage → Exec World (Unit {0})
  reconcile_attempted p = do
    wait
    result ← lift (x.reconcile p.transaction_id)
    after_reconciling p result

  unfoldable pub after_submitting : PreparedHcsMessage → SubmissionResult → Exec World (Unit {0})
  after_submitting p (confirmed n) = complete_job p n
  after_submitting p failed = retry_later true
  after_submitting p uncertain = retry_later false

  -- The message leaves for the network.
  abbrev pub send : PreparedHcsMessage → World → World
  send p w = record w {
    submissions = (record { message = p.transaction_base64; tables = w.db }) ∷ w.submissions;
  }

  unfoldable pub submit_message : PreparedHcsMessage → Exec World (Unit {0})
  submit_message p = do
    modify (send p)
    wait
    result ← lift (x.submit p.transaction_base64)
    after_submitting p result

  unfoldable pub submit_first : PreparedHcsMessage → Exec World (Unit {0})
  submit_first p = do on_db (mark_submission_attempted job); submit_message p

  unfoldable pub publish_message : PreparedHcsMessage → Exec World (Unit {0})
  publish_message p = if job.submission_attempted then reconcile_attempted p else submit_first p

  unfoldable pub publish_job : Exec World (Unit {0})
  publish_job = do p ← prepare_message job.prepared; publish_message p

  unfoldable pub publish : Exec World (Unit {0})
  publish = catch publish_job (λ e. retry_later false)

-- The body of the loop of `drainDue`; `rest` is the rest of the loop.
unfoldable pub run_claimed : ℕ → Turn → Exec World ℕ → Option AuditOutboxJob → Exec World ℕ
run_claimed grace x rest none = pure 0
run_claimed grace x rest (some job) = do publish grace x job; processed ← rest; pure (suc processed)

-- `drainDue`: the turns and the tokens of the leases are counted down with the limit.
unfoldable pub drain_due : ℕ → ℕ → (ℕ → Turn) → (ℕ → String) → ℕ → Exec World ℕ
drain_due grace lease_ms turns tokens zero = pure 0
drain_due grace lease_ms turns tokens (suc n) =
    let rest = drain_due grace lease_ms turns tokens n in
    do
      job ← on_db (claim_due (tokens n) (turns n).now lease_ms)
      run_claimed grace (turns n) rest job
