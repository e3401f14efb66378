-- ===== src/Provider/Life/Queued.antt =====
-- The callbacks of services/resource-server/src/outbox.ts: a callback is queued for a payment that is paid.
use koven.Prelude.{
  ℕ, suc, ◌≡◌, refl, ap, subst, String, Option, none, some, Bool, false, List, [], ◌∷◌, ◌&&◌,
  is_none, All, All-map, arith, leb, if◌then◌else◌, Bool-cases, Option-cases, inl, inr,
}
use koven.Exec.Laws.{transaction-ends, >>=-keeps}
use koven.Sql.{select, exists, has_key}
use koven.Sql.Laws.{All-update}
use koven.Provider.Types.{
  ProviderDb, StoredPayment, JobRow, JobStatus, pending, delivered, failed, empty,
}
use koven.Provider.Payments.{
  Texts, payment_key, payment_in, renew_verified_payment_lease, mark_settlement_attempted,
}
use koven.Provider.Settlements.{
  is_completable, complete_settled, enqueue, complete_body, complete_and_enqueue, job_key,
}
use koven.Provider.Callbacks
use koven.Provider.Callbacks.{
  claim_row, claim_first_due, claim_due_callback, first_due, mark_callback_delivered,
  mark_callback_for_repair, retry_callback, replay_callback, finish_callback, CallbackJob,
  update_job, leased, take, is_due_job, stopped, replayed, max_attempts,
}
use koven.Provider.Life.{
  Moved, reported, renewed, tried, paid, rotated, Moves, still, then_move, Lived,
}
use koven.Provider.Life.Settlements.{complete_settled-Lived}
use koven.Provider.Life.Jobs.{
  claim-jobs, report-jobs, settle-jobs, record-jobs, complete_settled-jobs,
}
use koven.Provider.Life.History.{
  Call, claim, report, renew, attempt, settle, unconfirmed, complete, claim_callback, deliver,
  repair, retry, replay, step, run, step-Lived,
}

Moved-settlement :
    {t : Texts} {r r' : StoredPayment}
    → Moved t r r'
    → is_none r.settlement ≡ false
    → is_none r'.settlement ≡ false
Moved-settlement (Moved.leased token now g e) h = ground arith
Moved-settlement (reported token doc now g f d e) h = ground arith
Moved-settlement (renewed token until now g e) h = ground arith
Moved-settlement (tried token now g e) h = ground arith
Moved-settlement (paid x header now p v c e) h = ground arith
Moved-settlement (rotated u now p o e) h = ground arith
Moved-settlement (Moved.finished now c f e) h = ground arith

Moves-settlement :
    {t : Texts} {r r' : StoredPayment}
    → Moves t r r'
    → is_none r.settlement ≡ false
    → is_none r'.settlement ≡ false
Moves-settlement still h = h
Moves-settlement (then_move k m) h = Moved-settlement m (Moves-settlement k h)

-- The payment with an id has a settlement.
pub record PaidIn (rs : List StoredPayment) (id : String) : Type 0 where
  pub row : StoredPayment
  pub found : select (has_key payment_key id) rs ≡ some row
  pub settled : is_none row.settlement ≡ false

-- Every job is of a payment that has a settlement.
abbrev pub AllPaid : List StoredPayment → List JobRow → Type 0
AllPaid rs js = All (λ j. PaidIn rs j.transaction_id) js

pub PaidIn-Lived :
    (t : Texts) (id : String) (s s' : ProviderDb)
    → Lived t s s'
    → PaidIn s.payments id
    → PaidIn s'.payments id
PaidIn-Lived t id s s' l p = go (payment_in id s') refl
  where
    go : (o : Option StoredPayment) → payment_in id s' ≡ o → PaidIn s'.payments id
    go none e = elim (rw (p.found, e) at (l.1 id)) [ ]
    go (some r') e = record {
      row = r';
      found = e;
      settled = Moves-settlement (rw (p.found, e) at (l.1 id)) p.settled;
    }

-- Where the jobs are left, they stay paid as the payments live on.
AllPaid-Lived :
    (t : Texts) (s s' : ProviderDb)
    → Lived t s s'
    → s'.jobs ≡ s.jobs
    → AllPaid s.payments s.jobs
    → AllPaid s'.payments s'.jobs
AllPaid-Lived t s s' l e h = rw e (
    All-map (λ j. PaidIn s.payments j.transaction_id) (λ j. PaidIn s'.payments j.transaction_id)
      s.jobs (λ j p. PaidIn-Lived t j.transaction_id s s' l p) h)

enqueue-AllPaid :
    (sha256 : String → String) (id key body : String) (now : ℕ) (s : ProviderDb)
    → PaidIn s.payments id
    → AllPaid s.payments s.jobs
    → AllPaid
        (enqueue sha256 id key body now s).1.payments
        (enqueue sha256 id key body now s).1.jobs
unfolding enqueue
enqueue-AllPaid sha256 id key body now s p h =
    elim (Bool-cases (exists (has_key job_key key) s.jobs)) [
      | inl y ↦ ground arith
      | inr n ↦ ground arith
    ]

complete_body-AllPaid :
    (t : Texts) (sha256 : String → String) (id key body : String) (now : ℕ) (s : ProviderDb)
    → AllPaid s.payments s.jobs
    → AllPaid
        (complete_body sha256 id key body now s).1.payments
        (complete_body sha256 id key body now s).1.jobs
unfolding complete_body
complete_body-AllPaid t sha256 id key body now s h = elim (Option-cases (payment_in id s)) [
  | inl e ↦ rw e h
  | inr (r, e) ↦ elim (Bool-cases (is_completable r)) [
    | inr n ↦ rw (e, n) h
    | inl y ↦
        let u = (complete_settled id now r s).1 in
        let l = complete_settled-Lived t sha256 id key body now s r e y in
        let p : PaidIn s.payments id = record { row = r; found = e; settled = ground arith } in
        rw (e, y)
          (>>=-keeps {B = Unit {0}} (λ (u : ProviderDb). AllPaid u.payments u.jobs)
            (complete_settled id now r) (λ a. enqueue sha256 id key body now) s
            (AllPaid-Lived t s u l (complete_settled-jobs id now r s) h)
            (λ a u' k q.
              enqueue-AllPaid sha256 id key body now u'
                (subst (λ (v : ProviderDb). PaidIn v.payments id) (ap (λ r. r.1) k)
                  (PaidIn-Lived t id s u l p))
                q))
  ]
]

-- An update of jobs that leaves their payments' ids.
update_job-AllPaid :
    (key : String) (q : JobRow → Bool) (f : JobRow → JobRow) (s : ProviderDb)
    → ((j : JobRow) → (f j).transaction_id ≡ j.transaction_id)
    → AllPaid s.payments s.jobs
    → AllPaid s.payments (update_job key q f s).1.jobs
update_job-AllPaid key q f s same h =
    All-update (λ j. PaidIn s.payments j.transaction_id) (λ r. has_key job_key key r && q r) f
      s.jobs (λ j p y. rw (same j) p) h

finish-AllPaid :
    (job : CallbackJob) (status : JobStatus) (at : Option ℕ) (attempts : ℕ) (s : ProviderDb)
    → AllPaid s.payments s.jobs
    → AllPaid
        (finish_callback job status at attempts s).1.payments
        (finish_callback job status at attempts s).1.jobs
unfolding finish_callback
finish-AllPaid job status at attempts s h =
    update_job-AllPaid job.idempotency_key (leased job.token)
      (Callbacks.finished status attempts at) s (λ j. refl) h

claim_row-AllPaid :
    (token : String) (now : ℕ) (o : Option JobRow) (s : ProviderDb)
    → AllPaid s.payments s.jobs
    → AllPaid (claim_row token now o s).1.payments (claim_row token now o s).1.jobs
unfolding claim_row
claim_row-AllPaid token now none s h = h
claim_row-AllPaid token now (some r) s h =
    update_job-AllPaid r.idempotency_key (is_due_job now) (take token now) s (λ j. refl) h

module _ (t : Texts) (sha256 : String → String) where
  kept :
      (c : Call) (s : ProviderDb)
      → (step t sha256 c s).jobs ≡ s.jobs
      → AllPaid s.payments s.jobs
      → AllPaid (step t sha256 c s).payments (step t sha256 c s).jobs
  kept c s e h = AllPaid-Lived t s (step t sha256 c s) (step-Lived t sha256 c s) e h

  step-AllPaid :
      (c : Call) (s : ProviderDb)
      → AllPaid s.payments s.jobs
      → AllPaid (step t sha256 c s).payments (step t sha256 c s).jobs
  unfolding step renew_verified_payment_lease mark_settlement_attempted complete_and_enqueue
      claim_due_callback claim_first_due mark_callback_delivered mark_callback_for_repair
      retry_callback replay_callback
  step-AllPaid (claim a token now) s h = kept (claim a token now) s (claim-jobs a token now s) h
  step-AllPaid (report id token doc now) s h =
      kept (report id token doc now) s (report-jobs t id token doc now s) h
  step-AllPaid (renew id token now) s h = kept (renew id token now) s refl h
  step-AllPaid (attempt id token now) s h = kept (attempt id token now) s refl h
  step-AllPaid (settle id x header now) s h =
      kept (settle id x header now) s (settle-jobs t id header x now s) h
  step-AllPaid (unconfirmed id now u) s h = kept (unconfirmed id now u) s (record-jobs id now u s) h
  step-AllPaid (complete id key body now) s h =
      transaction-ends (λ (u : ProviderDb). AllPaid u.payments u.jobs)
        (complete_body sha256 id key body now) s h
        (complete_body-AllPaid t sha256 id key body now s h)
  step-AllPaid (claim_callback token now) s h =
      transaction-ends (λ (u : ProviderDb). AllPaid u.payments u.jobs) (claim_first_due token now) s
        h (claim_row-AllPaid token now (first_due now s.jobs) s h)
  step-AllPaid (deliver job) s h = finish-AllPaid job delivered none (suc job.attempts) s h
  step-AllPaid (repair job) s h = finish-AllPaid job JobStatus.repair none (suc job.attempts) s h
  step-AllPaid (retry job at) s h =
      let last = leb max_attempts (suc job.attempts) in
      finish-AllPaid job (if last then failed else pending) (if last then none else some at)
        (suc job.attempts) s h
  step-AllPaid (replay key now) s h = update_job-AllPaid key stopped (replayed now) s (λ j. refl) h

  run-AllPaid :
      (cs : List Call) (s : ProviderDb)
      → AllPaid s.payments s.jobs
      → AllPaid (run t sha256 cs s).payments (run t sha256 cs s).jobs
  unfolding run
  run-AllPaid [] s h = h
  run-AllPaid (c ∷ cs) s h = run-AllPaid cs (step t sha256 c s) (step-AllPaid c s h)

-- A callback is queued, and so sent, only for a payment that has a recorded settlement: whatever the callers do, in any
-- order, every job of the table is of a payment in the table whose settlement is stored.
pub queued-AllPaid :
    (t : Texts) (sha256 : String → String) (cs : List Call)
    → AllPaid (run t sha256 cs empty).payments (run t sha256 cs empty).jobs
queued-AllPaid t sha256 cs = run-AllPaid t sha256 cs empty tt
