-- ===== src/Provider/Callbacks.antt =====
-- The callback jobs of services/resource-server/src/outbox.ts: a job is claimed by a lease, and its
-- holder records how the delivery ended.
use koven.Prelude.{
  ℕ, ◌+◌, suc, String, Option, none, some, Bool, true, false, not, List, [], ◌∷◌, ◌&&◌, ◌||◌, eqb,
  leb, ltb, same_text, if◌then◌else◌,
}
use koven.Exec.{Exec, ok, pure, gets, throw_if, transaction, ◌>>=◌}
use koven.Sql.{changes, update, has_key}
use koven.Provider.Types.{
  ProviderDb, JobRow, JobStatus, pending, processing, delivered, failed, repair, store_error,
}
use koven.Provider.Payments.{lease_over}
use koven.Provider.Settlements.{job_key, job_in}

abbrev pub callback_lease_ms : ℕ
callback_lease_ms = 30000

abbrev pub max_attempts : ℕ
max_attempts = 20

-- `CallbackJob`
pub record CallbackJob : Type 0 where
  pub idempotency_key : String
  pub body : String
  pub attempts : ℕ
  pub token : String

abbrev pub is_pending : JobStatus → Bool
is_pending pending = true
is_pending _ = false

abbrev pub is_processing : JobStatus → Bool
is_processing processing = true
is_processing _ = false

abbrev pub is_stopped : JobStatus → Bool
is_stopped failed = true
is_stopped repair = true
is_stopped _ = false

abbrev pub is_due_job : ℕ → JobRow → Bool
is_due_job now r =
    (is_pending r.status && leb r.next_attempt_at now)
    || (is_processing r.status && lease_over now r.lease_until)

-- `ORDER BY next_attempt_at, created_at`
abbrev pub is_before : JobRow → JobRow → Bool
is_before a b =
    ltb a.next_attempt_at b.next_attempt_at
    || (eqb a.next_attempt_at b.next_attempt_at && leb a.created_at b.created_at)

abbrev pub earlier : JobRow → Option JobRow → JobRow
earlier x none = x
earlier x (some y) = if is_before x y then x else y

-- `WHERE due ORDER BY ... LIMIT 1`
unfoldable pub first_due : ℕ → List JobRow → Option JobRow
first_due now [] = none
first_due now (x ∷ xs) =
    let rest = first_due now xs in if is_due_job now x then some (earlier x rest) else rest

abbrev pub update_job : String → (JobRow → Bool) → (JobRow → JobRow) → Exec ProviderDb ℕ
update_job key q f s =
    let hit = λ (r : JobRow). has_key job_key key r && q r in
    (ok (changes hit s.jobs), record s { jobs = update hit f s.jobs })

abbrev pub take : String → ℕ → JobRow → JobRow
take token now r = record r {
  status = processing;
  lease_token = some token;
  lease_until = some (now + callback_lease_ms);
}

-- The token that is read back is the one that has been written.
abbrev pub job_of : String → Option JobRow → Option CallbackJob
job_of token none = none
job_of token (some r) = some (record {
  idempotency_key = r.idempotency_key;
  body = r.body;
  attempts = r.attempts;
  token = token;
})

unfoldable pub claim_row : String → ℕ → Option JobRow → Exec ProviderDb (Option CallbackJob)
claim_row token now none = pure none
claim_row token now (some row) = do
  n ← update_job row.idempotency_key (is_due_job now) (take token now)
  claimed ← gets (job_in row.idempotency_key)
  pure (if eqb n 1 then job_of token claimed else none)

unfoldable pub claim_first_due : String → ℕ → Exec ProviderDb (Option CallbackJob)
claim_first_due token now = do row ← gets λ s. first_due now s.jobs; claim_row token now row

-- `token` is the result of `randomUUID`.
unfoldable pub claim_due_callback : String → ℕ → Exec ProviderDb (Option CallbackJob)
claim_due_callback token now = transaction (claim_first_due token now)

abbrev pub or_else : Option ℕ → ℕ → ℕ
or_else none n = n
or_else (some m) n = m

abbrev pub leased : String → JobRow → Bool
leased token r = is_processing r.status && same_text r.lease_token (some token)

abbrev pub finished : JobStatus → ℕ → Option ℕ → JobRow → JobRow
finished status attempts next_attempt_at r = record r {
  status = status;
  attempts = attempts;
  next_attempt_at = or_else next_attempt_at r.next_attempt_at;
  lease_token = none;
  lease_until = none;
}

-- The time of delivery and the text of the last error are columns that no code reads.
unfoldable pub finish_callback : CallbackJob → JobStatus → Option ℕ → ℕ → Exec ProviderDb (Unit {0})
finish_callback job status next_attempt_at attempts = do
  n ← update_job job.idempotency_key (leased job.token) (finished status attempts next_attempt_at)
  throw_if (not (eqb n 1)) store_error

unfoldable pub mark_callback_delivered : CallbackJob → Exec ProviderDb (Unit {0})
unfolding finish_callback
mark_callback_delivered job = finish_callback job delivered none (suc job.attempts)

unfoldable pub mark_callback_for_repair : CallbackJob → Exec ProviderDb (Unit {0})
unfolding finish_callback
mark_callback_for_repair job = finish_callback job repair none (suc job.attempts)

unfoldable pub retry_callback : CallbackJob → ℕ → Exec ProviderDb (Unit {0})
unfolding finish_callback
retry_callback job next_attempt_at =
    let last = leb max_attempts (suc job.attempts) in
    finish_callback job (if last then failed else pending)
      (if last then none else some next_attempt_at) (suc job.attempts)

abbrev pub stopped : JobRow → Bool
stopped r = is_stopped r.status

abbrev pub replayed : ℕ → JobRow → JobRow
replayed now r = record r {
  status = pending;
  attempts = 0;
  next_attempt_at = now;
  lease_token = none;
  lease_until = none;
}

unfoldable pub replay_callback : String → ℕ → Exec ProviderDb Bool
replay_callback key now = do n ← update_job key stopped (replayed now); pure (eqb n 1)

abbrev pub at : JobRow → Option ℕ
at r =
    if is_pending r.status
    then some r.next_attempt_at
    else (if is_processing r.status then some (or_else r.lease_until 0) else none)

abbrev pub least : Option ℕ → Option ℕ → Option ℕ
least none o = o
least (some a) none = some a
least (some a) (some b) = if leb a b then some a else some b

-- `MIN` over the jobs that are pending or processing.
unfoldable pub next_callback_at : List JobRow → Option ℕ
next_callback_at [] = none
next_callback_at (r ∷ rs) = least (at r) (next_callback_at rs)
