-- ===== src/Provider/Dispatch.antt =====
-- The dispatcher of services/resource-server/src/callback.ts: a job that is due is delivered to the
-- orchestrator, and what its answer says is recorded. The answers are arguments, with what others do to the
-- store while they are awaited.
use koven.Prelude.{
  ℕ, zero, suc, ◌+◌, ◌-◌, ◌*◌, ◌^◌, eqb, leb, smaller, larger, Option, none, some, Bool, ◌||◌,
  String, if◌then◌else◌,
}
use koven.Domain.Errors.{zod_error}
use koven.Exec.{Exec, pure, modify, throw, catch, ◌>>=◌, ◌>>◌}
use koven.Provider.Types.{ProviderDb}
use koven.Provider.Callbacks.{
  CallbackJob, claim_due_callback, mark_callback_delivered, mark_callback_for_repair,
  retry_callback, or_else,
}

abbrev pub max_retry_after_ms : ℕ
max_retry_after_ms = 86400000

-- The header `retry-after`: a number of seconds, a date, or neither.
pub data RetryAfter : Type 0 where
  seconds date : ℕ → RetryAfter
  unreadable : RetryAfter

unfoldable pub retry_after_ms : RetryAfter → ℕ → Option ℕ
retry_after_ms (seconds n) now = some (smaller (n * 1000) max_retry_after_ms)
retry_after_ms (date d) now = some (smaller (d - now) max_retry_after_ms)
retry_after_ms unreadable now = none

-- What a request came to: it failed, or a status, with whether the body is an acknowledgement.
pub data CallbackAnswer : Type 0 where
  request_failed : CallbackAnswer
  answered : ℕ → Bool → RetryAfter → CallbackAnswer

-- One delivery. `jitter` is `Math.floor(random() * exponentialCap)`.
pub record CallbackDelivery : Type 0 where
  pub now : ℕ
  pub jitter : ℕ → ℕ
  pub answer : CallbackAnswer
  pub while_waiting : ProviderDb → ProviderDb

abbrev pub exponential_cap : ℕ → ℕ
exponential_cap attempts = smaller 60000 (1000 * 2 ^ smaller attempts 16)

module _ (x : CallbackDelivery) (job : CallbackJob) where
  unfoldable pub callback_delay : Option ℕ → ℕ
  callback_delay retry_after =
      larger (larger 1 (x.jitter (exponential_cap job.attempts))) (or_else retry_after 0)

  unfoldable pub retry_delivery : Option ℕ → Exec ProviderDb (Unit {0})
  retry_delivery retry_after = retry_callback job (x.now + callback_delay retry_after)

  -- A job that was accepted: an acknowledgement that is invalid, or a lease that is lost, is retried.
  unfoldable pub acknowledge : Bool → Exec ProviderDb (Unit {0})
  acknowledge valid =
      catch (if valid then mark_callback_delivered job else throw zod_error)
        (λ e. retry_delivery none)

  unfoldable pub record_answer : CallbackAnswer → Exec ProviderDb (Unit {0})
  record_answer request_failed = retry_delivery none
  record_answer (answered status valid after) =
      if eqb status 202
      then acknowledge valid
      else (if eqb status 429 || leb 500 status
          then retry_delivery (retry_after_ms after x.now)
          else (if leb 400 status then mark_callback_for_repair job else retry_delivery none))

  unfoldable pub dispatch : Exec ProviderDb (Unit {0})
  dispatch = do modify x.while_waiting; record_answer x.answer

-- The body of the loop of `drainDue`; `rest` is the rest of the loop.
unfoldable pub dispatch_claimed :
    CallbackDelivery → Exec ProviderDb ℕ → Option CallbackJob → Exec ProviderDb ℕ
dispatch_claimed x rest none = pure 0
dispatch_claimed x rest (some job) = do dispatch x job; processed ← rest; pure (suc processed)

-- `drainDue`: the deliveries and the tokens of the leases are counted down with the limit.
unfoldable pub dispatch_due : (ℕ → CallbackDelivery) → (ℕ → String) → ℕ → Exec ProviderDb ℕ
dispatch_due deliveries tokens zero = pure 0
dispatch_due deliveries tokens (suc n) =
    let rest = dispatch_due deliveries tokens n in
    do
      job ← claim_due_callback (tokens n) (deliveries n).now
      dispatch_claimed (deliveries n) rest job
