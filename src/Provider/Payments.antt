-- ===== src/Provider/Payments.antt =====
-- The payments of services/resource-server/src/outbox.ts. A payment is claimed by a lease, and its
-- settlement is asked for by the holder of the lease, who gives it up as it does.
use koven.Prelude.{
  ℕ, ◌+◌, String, Option, none, some, Bool, true, false, not, ◌∷◌, ◌&&◌, ◌||◌, ◌==◌, eqb, leb,
  is_none, same_text, if◌then◌else◌,
}
use koven.Domain.Errors.{ErrorCode, provider_store_error, zod_error}
use koven.Domain.Scan.{ScanReport}
use koven.Exec.{Exec, ok, pure, gets, throw_if, or_throw, transaction, ◌>>=◌, ◌>>◌}
use koven.Sql.{select, exists, changes, update, has_key}
use koven.Provider.Types.{
  ProviderDb, StoredPayment, claimed, report_ready, Attempt, SettleResponse, is_claimed,
  is_report_ready, is_completed, store_error, store_conflict,
}

abbrev pub payment_lease_ms : ℕ
payment_lease_ms = 30000

abbrev pub verified_payment_lease_ms : ℕ
verified_payment_lease_ms = 300000

abbrev pub settlement_failure_grace_ms : ℕ
settlement_failure_grace_ms = 600000

-- Canonical JSON of a report and of a settlement, the schema of a report, and decimal texts.
pub record Texts : Type 0 where
  pub is_report : ScanReport → Bool
  pub report_json : ScanReport → String
  pub settlement_json : SettleResponse → String
  pub to_decimal : ℕ → String

-- `PaymentClaim`
pub record PaymentClaim : Type 0 where
  pub owned : Bool
  pub token : Option String
  pub payment : StoredPayment

abbrev pub payment_key : StoredPayment → String
payment_key r = r.transaction_id

abbrev pub payment_in : String → ProviderDb → Option StoredPayment
payment_in id s = select (has_key payment_key id) s.payments

unfoldable pub get_payment : String → Exec ProviderDb (Option StoredPayment)
get_payment id = gets (payment_in id)

-- An update of the payment with an id, under a condition, and the number of rows that it changes.
abbrev pub update_payment :
    String → (StoredPayment → Bool) → (StoredPayment → StoredPayment) → Exec ProviderDb ℕ
update_payment id q f s =
    let hit = λ (r : StoredPayment). has_key payment_key id r && q r in
    (ok (changes hit s.payments), record s { payments = update hit f s.payments })

-- `COALESCE(lease_until, 0) <= now`
abbrev pub lease_over : ℕ → Option ℕ → Bool
lease_over now none = leb 0 now
lease_over now (some t) = leb t now

abbrev pub fresh_payment : Attempt → String → ℕ → StoredPayment
fresh_payment attempt token now = record {
  transaction_id = attempt.authorization.transaction_id;
  fingerprint = attempt.fingerprint;
  request = attempt.request;
  payment_payload = attempt.payment_payload;
  status = claimed;
  settlement_attempted = false;
  report = none;
  settlement = none;
  response_header = none;
  lease_token = some token;
  lease_until = some (now + payment_lease_ms);
  valid_until = attempt.transaction_valid_until;
  policy = attempt.policy;
  updated_at = now;
}

-- `INSERT OR IGNORE`
unfoldable pub insert_payment : StoredPayment → Exec ProviderDb (Unit {0})
insert_payment row s = (
  ok tt,
  if exists (has_key payment_key row.transaction_id) s.payments
      then s
      else record s { payments = row ∷ s.payments },
)

abbrev pub reclaimable : ℕ → StoredPayment → Bool
reclaimable now r =
    not r.settlement_attempted && (not (is_completed r.status) && lease_over now r.lease_until)

abbrev pub lease_payment : String → ℕ → StoredPayment → StoredPayment
lease_payment token now r = record r {
  lease_token = some token;
  lease_until = some (now + payment_lease_ms);
  updated_at = now;
}

-- The UPDATE that takes over a lease that is over, and the row after it.
unfoldable pub take_over : String → String → ℕ → StoredPayment → Exec ProviderDb StoredPayment
unfolding get_payment
take_over id token now payment =
    if not (same_text payment.lease_token (some token)) && reclaimable now payment
    then (do
      _ ← update_payment id (reclaimable now) (lease_payment token now)
      found ← get_payment id
      or_throw found store_error)
    else pure payment

abbrev pub claim_of : String → StoredPayment → PaymentClaim
claim_of token payment =
    let owned = same_text payment.lease_token (some token) in
    record { owned = owned; token = if owned then some token else none; payment = payment }

-- The claim of the row that is there after the INSERT.
unfoldable pub claim_existing : Attempt → String → ℕ → Exec ProviderDb PaymentClaim
unfolding get_payment
claim_existing attempt token now = do
  found ← get_payment attempt.authorization.transaction_id
  payment ← or_throw found store_error
  throw_if (not (payment.fingerprint == attempt.fingerprint)) store_conflict
  current ← take_over attempt.authorization.transaction_id token now payment
  pure (claim_of token current)

unfoldable pub claim_body : Attempt → String → ℕ → Exec ProviderDb PaymentClaim
claim_body attempt token now = do
  insert_payment (fresh_payment attempt token now)
  claim_existing attempt token now

-- `token` is the result of `randomUUID`.
unfoldable pub claim_payment : Attempt → String → ℕ → Exec ProviderDb PaymentClaim
claim_payment attempt token now = transaction (claim_body attempt token now)

abbrev pub differs : (ScanReport → String) → Option ScanReport → ScanReport → Bool
differs json none report = false
differs json (some r) report = not (json r == json report)

abbrev pub holds : String → StoredPayment → Bool
holds token r = same_text r.lease_token (some token)

-- The UPDATE of `saveReport`, which tests the lease again.
abbrev pub with_report : ScanReport → ℕ → StoredPayment → StoredPayment
with_report report now r = record r {
  report = some report;
  status = report_ready;
  updated_at = now;
}

unfoldable pub save_report : Texts → String → String → ScanReport → ℕ → Exec ProviderDb (Unit {0})
unfolding get_payment
save_report t id token report now = do
  throw_if (not (t.is_report report)) zod_error
  found ← get_payment id
  existing ← or_throw found store_error
  throw_if (not (holds token existing) || existing.settlement_attempted) store_error
  throw_if (differs t.report_json existing.report report) store_conflict
  _ ← update_payment id (holds token) (with_report report now)
  pure tt

abbrev pub renewable : String → StoredPayment → Bool
renewable token r =
    holds token r
    && (not r.settlement_attempted && (is_claimed r.status || is_report_ready r.status))

unfoldable pub renew_verified_payment_lease : String → String → ℕ → Exec ProviderDb (Unit {0})
renew_verified_payment_lease id token now = do
  n ←
      update_payment id (renewable token)
        (λ r. record r { lease_until = some (now + verified_payment_lease_ms); updated_at = now })
  throw_if (not (eqb n 1)) (provider_store_error ErrorCode.settlement_unconfirmed)

abbrev pub attemptable : String → StoredPayment → Bool
attemptable token r = holds token r && (not (is_none r.report) && not r.settlement_attempted)

abbrev pub attempted : ℕ → StoredPayment → StoredPayment
attempted now r = record r {
  settlement_attempted = true;
  lease_token = none;
  lease_until = none;
  updated_at = now;
}

unfoldable pub mark_settlement_attempted : String → String → ℕ → Exec ProviderDb (Unit {0})
mark_settlement_attempted id token now = do
  n ← update_payment id (attemptable token) (attempted now)
  throw_if (not (eqb n 1)) store_error
