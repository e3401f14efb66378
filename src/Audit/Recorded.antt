-- ===== src/Audit/Recorded.antt =====
-- What packages/audit/src/writer.ts has recorded when it submits a message.
use koven.Prelude.{
  ℕ, ◌≡◌, refl, ap, ◌∙◌, Option, none, some, Bool, true, false, List, [], ◌∷◌, ◌&&◌, arith,
  Bool-cases, if◌then◌else◌, inl, inr, eqb,
}
use koven.Exec.{Exec, Result, ok, err, caught, ◌>>=◌, ◌>>◌, continue}
use koven.Sql.{exists, update, changes}
use koven.Persistence.Db.{Db, OutboxRow, PreparedHcsMessage}
use koven.Persistence.Outbox.{AuditOutboxJob, leased, mark_submission_attempted, save_prepared}
use koven.Audit.{
  SubmissionResult, confirmed, failed, uncertain, Submission, World, Turn, on_db, retry_later,
  complete_job, prepare_message, after_reconciling, reconcile_attempted, after_submitting, send,
  submit_message, submit_first, publish_message, publish_job, publish,
}

-- The tables held an attempt of this job, under its lease, when the message left.
abbrev pub is_attempted : AuditOutboxJob → Submission → Bool
is_attempted job s = exists (λ r. leased job r && r.submission_attempted) s.tables.outbox

-- What a run of a job submits: nothing, or one message, of a job that was not attempted before and whose
-- attempt is recorded.
pub data Submits (job : AuditOutboxJob) (w v : World) : Type 0 where
  nothing : v.submissions ≡ w.submissions → Submits job w v
  once :
      (s : Submission)
      → job.submission_attempted ≡ false
      → is_attempted job s ≡ true
      → v.submissions ≡ s ∷ w.submissions
      → Submits job w v

Submits-kept :
    (job : AuditOutboxJob) (w u v : World)
    → Submits job w u
    → v.submissions ≡ u.submissions
    → Submits job w v
Submits-kept job w u v (nothing e) same = nothing (same ∙ e)
Submits-kept job w u v (once s first recorded e) same = once s first recorded (same ∙ e)

abbrev attempt : OutboxRow → OutboxRow
attempt r = record r { submission_attempted = true }

-- A row that has been updated under the lease is attempted.
exists-attempted :
    (job : AuditOutboxJob) (rows : List OutboxRow)
    → eqb (changes (leased job) rows) 0 ≡ false
    → exists (λ r. leased job r && r.submission_attempted) (update (leased job) attempt rows) ≡ true
exists-attempted job [] h = absurd (cc h)
exists-attempted job (r ∷ rows) h =
    let rest = exists-attempted job rows in
    elim (Bool-cases (leased job r)) [
      | inl y ↦ rw y (rw y refl)
      | inr n ↦ rw n (rw n (rest (rw n at h)))
    ]

mark-recorded :
    (job : AuditOutboxJob) (d : Db)
    → (mark_submission_attempted job d).0 ≡ ok tt
    → exists
        (λ r. leased job r && r.submission_attempted)
        (mark_submission_attempted job d).1.outbox
      ≡ true
unfolding mark_submission_attempted
mark-recorded job d h = exists-attempted job d.outbox (ground arith)

module _ (grace : ℕ) (x : Turn) (job : AuditOutboxJob) where
  -- A call that submits nothing.
  abbrev Keeps : {A : Type 0} → Exec World A → Type 0
  Keeps m = (v : World) → (m v).1.submissions ≡ v.submissions

  retry_later-Keeps : (reset : Bool) → Keeps (retry_later grace x job reset)
  unfolding retry_later
  retry_later-Keeps reset v = refl

  after_reconciling-Keeps :
      (p : PreparedHcsMessage) (r : SubmissionResult) → Keeps (after_reconciling grace x job p r)
  unfolding after_reconciling complete_job
  after_reconciling-Keeps p (confirmed n) v = refl
  after_reconciling-Keeps p failed v = retry_later-Keeps true v
  after_reconciling-Keeps p uncertain v = retry_later-Keeps _ v

  after_submitting-Keeps :
      (p : PreparedHcsMessage) (r : SubmissionResult) → Keeps (after_submitting grace x job p r)
  unfolding after_submitting complete_job
  after_submitting-Keeps p (confirmed n) v = refl
  after_submitting-Keeps p failed v = retry_later-Keeps true v
  after_submitting-Keeps p uncertain v = retry_later-Keeps false v

  answered-Keeps :
      (f : SubmissionResult → Exec World (Unit {0}))
      → ((r : SubmissionResult) → Keeps (f r))
      → (o : Result SubmissionResult) (v : World)
      → (continue f (o, v)).1.submissions ≡ v.submissions
  answered-Keeps f keeps (ok r) v = keeps r v
  answered-Keeps f keeps (err e) v = refl

  reconcile_attempted-Keeps : (p : PreparedHcsMessage) → Keeps (reconcile_attempted grace x job p)
  unfolding reconcile_attempted
  reconcile_attempted-Keeps p v =
      answered-Keeps (after_reconciling grace x job p) (after_reconciling-Keeps p)
        (x.reconcile p.transaction_id) (record v { db = x.while_waiting v.db })

  submit_message-once :
      (p : PreparedHcsMessage) (v : World)
      → (submit_message grace x job p v).1.submissions ≡ (send grace x job p v).submissions
  unfolding submit_message
  submit_message-once p v =
      let sent = send grace x job p v in
      answered-Keeps (after_submitting grace x job p) (after_submitting-Keeps p)
        (x.submit p.transaction_base64) (record sent { db = x.while_waiting sent.db })

  submit_first-Submits :
      (p : PreparedHcsMessage) (w : World)
      → job.submission_attempted ≡ false
      → Submits job w (submit_first grace x job p w).1
  unfolding submit_first
  submit_first-Submits p w first = marked (mark_submission_attempted job w.db).0 refl
    where
      marked :
          (o : Result (Unit {0}))
          → (mark_submission_attempted job w.db).0 ≡ o
          → Submits job w
              (continue
                (λ _. submit_message grace x job p)
                (o, record w { db = (mark_submission_attempted job w.db).1 })).1
      marked (err e) is = nothing refl
      marked (ok u) is =
          once
            (record {
              message = p.transaction_base64;
              tables = (mark_submission_attempted job w.db).1;
            })
            first (mark-recorded job w.db is)
            (submit_message-once p (record w { db = (mark_submission_attempted job w.db).1 }))

  publish_message-Submits :
      (p : PreparedHcsMessage) (w : World) → Submits job w (publish_message grace x job p w).1
  unfolding publish_message
  publish_message-Submits p w = split job.submission_attempted refl
    where
      split :
          (b : Bool)
          → job.submission_attempted ≡ b
          → Submits job w
              ((if b then reconcile_attempted grace x job p else submit_first grace x job p) w).1
      split true e = nothing (reconcile_attempted-Keeps p w)
      split false e = submit_first-Submits p w e

  -- The same, from a state with the same submissions.
  moved-Submits :
      (v w u : World) → v.submissions ≡ w.submissions → Submits job v u → Submits job w u
  moved-Submits v w u same (nothing e) = nothing (e ∙ same)
  moved-Submits v w u same (once s first recorded e) =
      once s first recorded (e ∙ ap (λ l. s ∷ l) same)

  publish_job-Submits : (w : World) → Submits job w (publish_job grace x job w).1
  unfolding publish_job prepare_message
  publish_job-Submits w = prepared job.prepared
    where
      stored :
          (p : PreparedHcsMessage) (o : Result (Unit {0})) (v : World)
          → v.submissions ≡ w.submissions
          → Submits job w
              (continue
                (publish_message grace x job)
                (continue (λ _. (λ (u : World). (ok p, u))) (o, v))).1
      stored p (ok u) v same = moved-Submits v w _ same (publish_message-Submits p v)
      stored p (err e) v same = nothing same

      answered :
          (o : Result PreparedHcsMessage) (v : World)
          → v.submissions ≡ w.submissions
          → Submits job w
              (continue (publish_message grace x job) (
                continue (λ p. on_db (save_prepared job p) >> (λ (u : World). (ok p, u))) (o, v))).1
      answered (ok p) v same =
          stored p (save_prepared job p v.db).0 (record v { db = (save_prepared job p v.db).1 })
            same
      answered (err e) v same = nothing same

      prepared :
          (o : Option PreparedHcsMessage)
          → Submits job w ((prepare_message grace x job o >>= publish_message grace x job) w).1
      prepared (some p) = publish_message-Submits p w
      prepared none =
          answered (x.prepare job.envelope) (record w { db = x.while_waiting w.db }) refl

  -- A message is submitted only when its attempt has been recorded. In a run of a job, whatever the publisher
  -- answers and whatever others do to the tables while it is awaited: nothing is submitted if the job was
  -- attempted before; otherwise at most one message is, and when it left, the tables held an attempt under
  -- the job's lease.
  pub publish-Submits : (w : World) → Submits job w (publish grace x job w).1
  unfolding publish
  publish-Submits w =
      failed_run (publish_job grace x job w).0 (publish_job grace x job w).1 (publish_job-Submits w)
    where
      failed_run :
          (o : Result (Unit {0})) (v : World)
          → Submits job w v
          → Submits job w (caught (λ e. retry_later grace x job false) (o, v)).1
      failed_run (ok u) v s = s
      failed_run (err e) v s = Submits-kept job w v _ s (retry_later-Keeps false v)
