-- ===== src/Provider/Settlements.antt =====
-- The settlements of services/resource-server/src/outbox.ts: what the facilitator or the ledger has
-- shown of an attempted settlement, and the completion that queues the callback.
use koven.Prelude.{
  ℕ, ◌+◌, String, Option, none, some, Bool, true, false, not, ◌∷◌, ◌&&◌, ◌||◌, ◌==◌, eqb, ltb,
  is_none, same_text, if◌then◌else◌,
}
use koven.Exec.{Exec, ok, pure, gets, throw_if, or_throw, transaction, ◌>>=◌, ◌>>◌}
use koven.Sql.{select, exists, has_key}
use koven.Provider.Types.{
  ProviderDb, StoredPayment, settled, completed, settlement_failed, JobRow, pending, SettleResponse,
  hedera_testnet, is_settled, is_completed, is_failed, store_error, store_conflict,
}
use koven.Provider.Payments.{Texts, get_payment, update_payment, settlement_failure_grace_ms}

abbrev pub is_amount : (ℕ → String) → Option String → ℕ → Bool
is_amount to_decimal none n = true
is_amount to_decimal (some t) n = t == to_decimal n

-- The settlement is the payment's.
abbrev pub is_evidence : (ℕ → String) → String → StoredPayment → SettleResponse → Bool
is_evidence to_decimal id r x =
    x.success
    && (x.transaction == id)
    && (x.network == hedera_testnet)
    && same_text x.payer (some r.request.payment_authorization.borrower_account_id)
    && is_amount to_decimal x.amount r.request.payment_authorization.amount_tinybar

abbrev pub conflicts : (SettleResponse → String) → Option SettleResponse → SettleResponse → Bool
conflicts json none x = false
conflicts json (some y) x = not (json y == json x)

-- A payment that has been attempted and has a report.
abbrev pub is_prepared : StoredPayment → Bool
is_prepared r = r.settlement_attempted && not (is_none r.report)

abbrev pub any : StoredPayment → Bool
any r = true

abbrev pub with_settlement : SettleResponse → String → ℕ → StoredPayment → StoredPayment
with_settlement x header now r = record r {
  settlement = some x;
  response_header = some header;
  status = settled;
  updated_at = now;
}

-- Every caller gives one response header, `PAYMENT-RESPONSE`.
unfoldable pub save_settlement :
    Texts → String → SettleResponse → String → ℕ → Exec ProviderDb (Unit {0})
unfolding get_payment
save_settlement t id settlement header now = do
  found ← get_payment id
  existing ← or_throw found store_error
  throw_if (not (is_prepared existing)) store_error
  throw_if (not (is_evidence t.to_decimal id existing settlement)) store_error
  throw_if (conflicts t.settlement_json existing.settlement settlement) store_conflict
  _ ← update_payment id any (with_settlement settlement header now)
  pure tt

abbrev pub is_over : StoredPayment → Bool
is_over r = is_completed r.status || is_failed r.status

-- The transaction can no longer execute, and the ledger had time to show it.
abbrev pub is_lost : Bool → ℕ → StoredPayment → Bool
is_lost unconfirmed now r =
    unconfirmed && (is_none r.settlement && ltb (r.valid_until + settlement_failure_grace_ms) now)

abbrev pub not_over : StoredPayment → Bool
not_over r = not (is_over r)

abbrev pub rotate : Bool → ℕ → StoredPayment → StoredPayment
rotate lost now r = record r {
  status = if lost then settlement_failed else r.status;
  updated_at = now;
}

unfoldable pub record_on : String → Bool → ℕ → StoredPayment → Exec ProviderDb StoredPayment
unfolding get_payment
record_on id unconfirmed now existing = if is_over existing then pure existing else (do
  _ ← update_payment id not_over (rotate (is_lost unconfirmed now existing) now)
  found ← get_payment id
  or_throw found store_error)

unfoldable pub record_body : String → ℕ → Bool → Exec ProviderDb StoredPayment
unfolding get_payment
record_body id now unconfirmed = do
  found ← get_payment id
  existing ← or_throw found store_error
  throw_if (not (is_prepared existing)) store_error
  record_on id unconfirmed now existing

-- The text of the last error is a column that no code reads.
unfoldable pub record_unconfirmed_settlement : String → ℕ → Bool → Exec ProviderDb StoredPayment
record_unconfirmed_settlement id now unconfirmed = transaction (record_body id now unconfirmed)

abbrev pub is_completable : StoredPayment → Bool
is_completable r =
    not (is_none r.report)
    && (not (is_none r.settlement) && (is_settled r.status || is_completed r.status))

abbrev pub settled_row : StoredPayment → Bool
settled_row r = is_settled r.status

abbrev pub complete_row : ℕ → StoredPayment → StoredPayment
complete_row now r = record r {
  status = completed;
  lease_token = none;
  lease_until = none;
  updated_at = now;
}

unfoldable pub complete_settled : String → ℕ → StoredPayment → Exec ProviderDb (Unit {0})
complete_settled id now payment =
    if is_settled payment.status
    then (do
      n ← update_payment id settled_row (complete_row now)
      throw_if (not (eqb n 1)) store_error)
    else pure tt

abbrev pub job_key : JobRow → String
job_key r = r.idempotency_key

abbrev pub job_in : String → ProviderDb → Option JobRow
job_in key s = select (has_key job_key key) s.jobs

abbrev pub fresh_job : (String → String) → String → String → String → ℕ → JobRow
fresh_job sha256 id key body now = record {
  idempotency_key = key;
  transaction_id = id;
  body = body;
  body_sha256 = sha256 body;
  status = pending;
  attempts = 0;
  next_attempt_at = now;
  lease_token = none;
  lease_until = none;
  created_at = now;
}

-- `INSERT OR IGNORE`. The payment is there, so that its foreign key holds.
unfoldable pub insert_job : JobRow → Exec ProviderDb (Unit {0})
insert_job row s = (
  ok tt,
  if exists (has_key job_key row.idempotency_key) s.jobs
      then s
      else record s { jobs = row ∷ s.jobs },
)

-- The INSERT of the job, and the test of what is queued under its key.
unfoldable pub enqueue :
    (String → String) → String → String → String → ℕ → Exec ProviderDb (Unit {0})
unfolding insert_job
enqueue sha256 id key body now = do
  insert_job (fresh_job sha256 id key body now)
  queued ← gets (job_in key)
  stored ← or_throw queued store_conflict
  throw_if (not (stored.body_sha256 == sha256 body)) store_conflict

unfoldable pub complete_body :
    (String → String) → String → String → String → ℕ → Exec ProviderDb (Unit {0})
unfolding get_payment
complete_body sha256 id key body now = do
  found ← get_payment id
  payment ← or_throw found store_error
  throw_if (not (is_completable payment)) store_error
  complete_settled id now payment
  enqueue sha256 id key body now

-- `sha256` is `sha256Hex`.
unfoldable pub complete_and_enqueue :
    (String → String) → String → String → String → ℕ → Exec ProviderDb (Unit {0})
complete_and_enqueue sha256 id key body now = transaction (complete_body sha256 id key body now)
