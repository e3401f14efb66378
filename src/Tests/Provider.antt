-- ===== src/Tests/Provider.antt =====
-- A paid scan of 60 tinybar: the first request settles it, and a second one finds it settled.
use koven.Prelude.{
  ℤ, pos, negsuc, ◌≡◌, refl, ◌==◌, String, Option, some, none, true, false, List, [], ◌∷◌, ◌||◌,
  length, if◌then◌else◌,
}
use koven.Domain.Scan.{ScanReport}
use koven.Exec.{Result, ok, err, transaction}
use koven.Signer.Types.{WireAuthorization}
use koven.Signer.Ledger.{MirrorTransfer}
use koven.Provider.Types.{
  ProviderDb, StoredPayment, PaidScanRequest, PaymentPayload, PolicySnapshot, Attempt,
  SettleResponse, empty, store_error, is_settled, is_completed,
}
use koven.Provider.Payments.{
  Texts, PaymentClaim, payment_in, mark_settlement_attempted, claim_payment, claim_body,
  claim_existing, insert_payment, take_over, save_report, renew_verified_payment_lease,
}
use koven.Provider.Authorization.{
  HederaTransaction, Libraries, validate_attempt, parse_base, verify_signature, bind_attempt,
  assert_policy_binding, is_for_scan, is_for_provider, transaction_from_payload,
  assert_transaction_binding, is_authorized,
}
use koven.Provider.Authorization.Bound.{IsRead, IsBound}
use koven.Provider.Settlements.{
  save_settlement, complete_and_enqueue, complete_body, complete_settled, enqueue,
  record_unconfirmed_settlement, record_body, record_on,
}
use koven.Provider.Scan.{no_failure, scan}
use koven.Provider.Life.Reported.{HasReport}
use koven.Provider.Life.History.{Call, step, run}
use koven.Provider.Life.Once.{attempted_once}
use koven.Provider.Life.Paid.{IsPaid, settled-IsPaid}
use koven.Provider.Life.Queued.{AllPaid, queued-AllPaid}
use koven.Provider.Server.{
  PaidScanServer, Answers, Response, report, verified, success, confirmed, scan_handler, paid_scan,
  serve_attempt, validate, with_claim, wait, after_verifying, settle_claim, prepare_report,
  after_settling, assert_settlement_result, safe_header, save_settled, after_saving, reconcile,
  on_confirmation, finish_confirmed, keep_settlement, complete_and_read, complete_with,
  stored_policy,
}
use koven.Provider.Server.Released.{scan_handler-IsPaid}

abbrev authorization : WireAuthorization
authorization = record {
  mission_id = "m";
  target_sha256 = "h";
  transaction_sha256 = "th";
  transaction_id = "tx";
  borrower_account_id = "0.0.5";
  provider_account_id = "0.0.7";
  scan_url = "https://scan";
  amount_tinybar = 60;
  network = "hedera:testnet";
  asset = "0.0.0";
  nonce = "n";
  expires_at = "t9";
  signature = "sig";
}

abbrev request : PaidScanRequest
request = record {
  mission_id = "m";
  target_ref = "a.sol";
  source = "contract A";
  target_sha256 = "h";
  payment_authorization = authorization;
}

abbrev payload : PaymentPayload
payload = record {
  x402_version = 2;
  accepted = record {
    scheme = "exact";
    network = "hedera:testnet";
    asset = "0.0.0";
    amount = some 60;
    pay_to = "0.0.7";
    max_timeout_seconds = 180;
    fee_payer = some "0.0.9";
  };
  resource_url = none;
  transaction = some "bytes";
}

abbrev policy : PolicySnapshot
policy = record {
  provider_account_id = "0.0.7";
  scan_url = "https://scan";
  amount_tinybar = 60;
  network = "hedera:testnet";
  asset = "0.0.0";
  fee_payer_account_id = "0.0.9";
}

abbrev inspected : HederaTransaction
inspected = record {
  transaction_id = "tx";
  transaction_id_account_id = "0.0.9";
  has_non_transfer_operations = false;
  token_transfers = 0;
  hbar_transfers =
      (record { account = "0.0.5"; amount = negsuc 59 })
      ∷ (record { account = "0.0.7"; amount = pos 60 })
      ∷ [];
}

abbrev net_for : List MirrorTransfer → String → ℤ
net_for [] account = pos 0
net_for (x ∷ xs) account = if x.account == account then x.amount else net_for xs account

-- The body of a request is the request.
abbrev libraries : Libraries PaidScanRequest
libraries = record {
  source_bytes = λ b. some 10;
  base_fields = λ b. b;
  scan_request = λ b. some (record {
    mission_id = b.mission_id;
    target_ref = b.target_ref;
    source = b.source;
    target_sha256 = b.target_sha256;
  });
  paid_request = λ b. some b;
  authorization_in = λ b. some b.payment_authorization;
  hash_source = λ t. "h";
  verify = λ key w. key == "key";
  millis = λ t. 1000;
  payload_in = λ h. some payload;
  fingerprint = λ r p. "f";
  is_base64 = λ t. true;
  is_canonical = λ t. true;
  bytes_hash = λ t. "th";
  inspect = λ t. some inspected;
  valid_start = λ id. some (1, 0);
  valid_duration = λ t. some 120;
  net_for_account = net_for;
  positive_receivers = λ xs. "0.0.7" ∷ [];
}

abbrev keys : String → Option String
keys account = if account == "0.0.5" then some "key" else none

abbrev texts : Texts
texts = record {
  is_report = λ r. true;
  report_json = λ r. r.report_sha256;
  settlement_json = λ x. x.transaction;
  to_decimal = λ n. "60";
}

abbrev attempt : Attempt
attempt = record {
  request = request;
  authorization = authorization;
  payment_payload = payload;
  transaction_base64 = "bytes";
  fingerprint = "f";
  authorization_expired = false;
  transaction_valid_until = 121000;
  policy = policy;
}

abbrev doc : ScanReport
doc = record {
  unsigned = record {
    mission_id = "m";
    target_sha256 = "h";
    provider_id = "scanner";
    findings = [];
    started_at = "t1";
    completed_at = "t2";
  };
  report_sha256 = "h";
}

abbrev settlement : SettleResponse
settlement = record {
  success = true;
  payer = some "0.0.5";
  transaction = "tx";
  network = "hedera:testnet";
  amount = none;
}

abbrev sha256 : String → String
sha256 t = "h"

abbrev claimed : List Call
claimed = Call.claim attempt "k" 1 ∷ Call.report "tx" "k" doc 2 ∷ []

abbrev tried : ProviderDb
tried = (mark_settlement_attempted "tx" "k" 3 (run texts sha256 claimed empty)).1

recorded : mark_settlement_attempted "tx" "k" 3 (run texts sha256 claimed empty) ≡ (ok tt, tried)
unfolding run step claim_payment claim_body claim_existing insert_payment take_over save_report
    mark_settlement_attempted transaction
recorded = refl

-- The ledger has not shown the payment yet, and another request claims it.
abbrev waited : List Call
waited = Call.unconfirmed "tx" 5 true ∷ []

abbrev late_claim : Result PaymentClaim × ProviderDb
late_claim = claim_payment attempt "k2" 100000 (run texts sha256 waited tried)

claimed_late : (c : PaymentClaim) × (late_claim ≡ (ok c, late_claim.1))
unfolding run step claim_payment claim_body claim_existing insert_payment take_over save_report
    mark_settlement_attempted transaction record_unconfirmed_settlement record_body record_on
claimed_late = (_, refl)

attempted_once_example :
    (mark_settlement_attempted "tx" "k2" 100000 (run texts sha256 waited tried)
      ≡ (err store_error, run texts sha256 waited tried))
    × (claimed_late.0.owned ≡ false)
attempted_once_example =
    attempted_once texts sha256 claimed waited "tx" "k" "k2" 3 100000 attempt recorded refl
      claimed_late.1

abbrev completed : List Call
completed =
    Call.claim attempt "k" 1
    ∷ Call.report "tx" "k" doc 2
    ∷ Call.attempt "tx" "k" 3
    ∷ Call.settle "tx" settlement "header" 4
    ∷ Call.complete "tx" "key" "body" 5
    ∷ []

paid_row :
    (r : StoredPayment) × (payment_in "tx" (run texts sha256 completed empty) ≡ some r)
    × (is_settled r.status || is_completed r.status ≡ true)
unfolding run step claim_payment claim_body claim_existing insert_payment take_over save_report
    mark_settlement_attempted transaction save_settlement complete_and_enqueue complete_body
    complete_settled enqueue
paid_row = (_, refl, refl)

settled-IsPaid_example : IsPaid texts paid_row.0
settled-IsPaid_example = settled-IsPaid texts sha256 completed "tx" paid_row.1 paid_row.2

queued-AllPaid_example :
    AllPaid (run texts sha256 completed empty).payments (run texts sha256 completed empty).jobs
queued-AllPaid_example = queued-AllPaid texts sha256 completed

one_job : length (run texts sha256 completed empty).jobs ≡ 1
unfolding run step claim_payment claim_body claim_existing insert_payment take_over save_report
    mark_settlement_attempted transaction save_settlement complete_and_enqueue complete_body
    complete_settled enqueue
one_job = refl

abbrev server : PaidScanServer PaidScanRequest
server = record {
  libraries = libraries;
  texts = texts;
  reports = record {
    sha256 = sha256;
    unsigned_json = λ u. u.mission_id;
    is_report = λ r. true;
    chars = λ t. 1;
  };
  provider_id = "scanner";
  policy = policy;
  signer_keys = keys;
  failure_mode = no_failure;
  callback_body = λ r id at. some "body";
  encode_header = λ x. "header";
  decoded = λ t. some "tx";
}

abbrev answers : Answers
answers = record {
  token = "k";
  now = 1;
  renewed_at = 2;
  reported_at = 3;
  attempted_at = 3;
  verification = verified;
  while_verifying = [];
  findings = some [];
  started_at = "t1";
  completed_at = "t2";
  while_scanning = [];
  settling = success settlement (some "header");
  while_settling = waited;
  confirmation = confirmed "t3";
  while_confirming = [];
  later = 4;
}

abbrev answered : Result Response × ProviderDb
answered = scan_handler server request (some "payment") answers (run texts sha256 [] empty)

released : answered ≡ (ok (report doc (some "header")), answered.1)
unfolding run step claim_payment claim_body claim_existing insert_payment take_over save_report
    mark_settlement_attempted transaction record_unconfirmed_settlement record_body record_on
    save_settlement complete_and_enqueue complete_body complete_settled enqueue
    renew_verified_payment_lease validate_attempt parse_base verify_signature bind_attempt
    assert_policy_binding is_for_scan is_for_provider transaction_from_payload
    assert_transaction_binding is_authorized scan_handler paid_scan serve_attempt validate
    with_claim wait after_verifying settle_claim prepare_report scan after_settling
    assert_settlement_result safe_header save_settled after_saving reconcile on_confirmation
    finish_confirmed keep_settlement complete_and_read complete_with
released = refl

scan_handler-IsPaid_example :
    (a : Attempt) × IsRead libraries request "payment" server.policy
      (stored_policy server (run texts sha256 [] empty))
      a
    × IsBound libraries keys a
    × ((p : StoredPayment) × (payment_in a.authorization.transaction_id answered.1 ≡ some p)
        × IsPaid texts p
        × HasReport texts doc p)
scan_handler-IsPaid_example = scan_handler-IsPaid server request "payment" answers [] released
