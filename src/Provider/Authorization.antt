-- ===== src/Provider/Authorization.antt =====
-- services/resource-server/src/authorization.ts and request.ts: the checks of a paid scan that come
-- before the facilitator is called. JSON values, schemas, keys, hashes and the x402 library's reading of a
-- Hedera transaction are parameters.
pub mod Bound
use koven.Prelude.{
  ℕ, ℤ, pos, ◌+◌, ◌*◌, ◌/◌, ◌+ℤ◌, eqb_ℤ, String, Option, none, some, Bool, true, false, not, List,
  [], ◌∷◌, ◌&&◌, ◌||◌, ◌==◌, eqb, leb, ltb, is_none, same_text, if◌then◌else◌,
}
use koven.Domain.Errors.{Error, ErrorCode, payment_authorization_error, scan_service_error}
use koven.Exec.{Exec, pure, throw, throw_if, or_throw, ◌>>=◌, ◌>>◌}
use koven.X402.{Checked}
use koven.Signer.Types.{WireAuthorization}
use koven.Signer.Gate.{max_safe_integer}
use koven.Signer.Ledger.{MirrorTransfer}
use koven.Provider.Types.{PaidScanRequest, PaymentPayload, Accepted, PolicySnapshot, Attempt}

-- `ScanRequestSchema`
pub record ScanRequest : Type 0 where
  pub mission_id : String
  pub target_ref : String
  pub source : String
  pub target_sha256 : String

abbrev pub max_source_bytes : ℕ
max_source_bytes = 262144

abbrev pub max_timeout_seconds : ℕ
max_timeout_seconds = 180

-- What the x402 library reads of a Hedera transaction, and its two questions about the transfers.
pub record HederaTransaction : Type 0 where
  pub transaction_id : String
  pub transaction_id_account_id : String
  pub has_non_transfer_operations : Bool
  pub token_transfers : ℕ
  pub hbar_transfers : List MirrorTransfer

-- The libraries: what is read of a body, the schemas, the keys and the hashes. `source_bytes` is there where
-- the source is a text, `verify` is false where it throws, `valid_start` is the second and the nanosecond of
-- an id, and `valid_duration` is none where it is no safe integer.
pub record Libraries (Body : Type 0) : Type 0 where
  pub source_bytes : Body → Option ℕ
  pub base_fields : Body → Body
  pub scan_request : Body → Option ScanRequest
  pub paid_request : Body → Option PaidScanRequest
  pub authorization_in : Body → Option WireAuthorization
  pub hash_source : String → String
  pub verify : String → WireAuthorization → Bool
  pub millis : String → ℕ
  pub payload_in : String → Option PaymentPayload
  pub fingerprint : PaidScanRequest → PaymentPayload → String
  pub is_base64 : String → Bool
  pub is_canonical : String → Bool
  pub bytes_hash : String → String
  pub inspect : String → Option HederaTransaction
  pub valid_start : String → Option (ℕ × ℕ)
  pub valid_duration : String → Option ℕ
  pub net_for_account : List MirrorTransfer → String → ℤ
  pub positive_receivers : List MirrorTransfer → List String

abbrev pub invalid : Error
invalid = payment_authorization_error ErrorCode.payment_authorization_invalid

abbrev pub mismatch : Error
mismatch = payment_authorization_error ErrorCode.payment_authorization_mismatch

abbrev pub is_too_large : Option ℕ → Bool
is_too_large none = false
is_too_large (some n) = ltb max_source_bytes n

abbrev pub or_default : {A : Type 0} → Option A → A → A
or_default none a = a
or_default (some x) a = x

abbrev pub is_pair : List MirrorTransfer → Bool
is_pair (b ∷ c ∷ []) = true
is_pair _ = false

abbrev pub all_are : String → List String → Bool
all_are account [] = true
all_are account (x ∷ xs) = x == account && all_are account xs

-- The terms of a payment are those of this provider and this scan.
unfoldable pub is_for_scan : PaidScanRequest → WireAuthorization → PolicySnapshot → Bool
is_for_scan request a policy =
    request.mission_id == a.mission_id
    && request.target_sha256 == a.target_sha256
    && a.provider_account_id == policy.provider_account_id
    && a.scan_url == policy.scan_url
    && eqb a.amount_tinybar policy.amount_tinybar
    && a.network == policy.network
    && a.asset == policy.asset

abbrev pub is_number : Option ℕ → ℕ → Bool
is_number none n = false
is_number (some m) n = eqb m n

abbrev pub is_url : Option String → String → Bool
is_url none url = true
is_url (some u) url = u == url

unfoldable pub is_for_provider : PaymentPayload → PolicySnapshot → Bool
is_for_provider payload policy =
    eqb payload.x402_version 2
    && payload.accepted.scheme == "exact"
    && payload.accepted.network == policy.network
    && payload.accepted.asset == policy.asset
    && is_number payload.accepted.amount policy.amount_tinybar
    && payload.accepted.pay_to == policy.provider_account_id
    && eqb payload.accepted.max_timeout_seconds max_timeout_seconds
    && same_text payload.accepted.fee_payer (some policy.fee_payer_account_id)
    && is_url payload.resource_url policy.scan_url

unfoldable pub assert_policy_binding :
    PaidScanRequest → WireAuthorization → PaymentPayload → PolicySnapshot → Checked (Unit {0})
assert_policy_binding request a payload policy = do
  throw_if (not (is_for_scan request a policy)) mismatch
  throw_if (not (is_for_provider payload policy)) mismatch

module _ {Body : Type 0} (l : Libraries Body) where
  -- `parseCandidate`
  unfoldable pub parse_candidate : Body → Checked ScanRequest
  parse_candidate body = do
    throw_if (is_too_large (l.source_bytes body)) (scan_service_error ErrorCode.source_too_large)
    request ← or_throw (l.scan_request body) (scan_service_error ErrorCode.request_invalid)
    throw_if (not (l.hash_source request.source == request.target_sha256))
        (scan_service_error ErrorCode.source_hash_mismatch)
    pure request

  -- `parseBoundPaidScanRequestBase`
  unfoldable pub parse_base : Body → Checked ScanRequest
  unfolding parse_candidate
  parse_base body = parse_candidate (l.base_fields body)

  -- `signer_keys` is `signerPublicKeys`.
  unfoldable pub verify_signature :
      WireAuthorization → (String → Option String) → Checked (Unit {0})
  verify_signature a signer_keys = do
    key ← or_throw (signer_keys a.borrower_account_id) invalid
    throw_if (not (l.verify key a)) invalid

  unfoldable pub transaction_from_payload : PaymentPayload → Checked String
  transaction_from_payload payload = do
    transaction ← or_throw payload.transaction invalid
    throw_if (not (l.is_base64 transaction)) invalid
    pure transaction

  -- The end of the transaction's validity, in milliseconds, in 53 bits.
  abbrev pub window_end : Option (ℕ × ℕ) → Option ℕ → Option ℕ
  window_end none d = none
  window_end (some s) none = none
  window_end (some (seconds, nanos)) (some duration) =
      let until = seconds * 1000 + nanos / 1000000 + duration * 1000 in
      if eqb duration 0 || ltb max_safe_integer duration || ltb max_safe_integer until
      then none
      else some until

  unfoldable pub valid_until_of : String → String → Option ℕ
  valid_until_of transaction id = window_end (l.valid_start id) (l.valid_duration transaction)

  -- Two transfers move the authorized amount from the borrower to the provider, who is the only one to
  -- receive, and the policy's fee payer is neither.
  unfoldable pub is_authorized : HederaTransaction → WireAuthorization → PolicySnapshot → Bool
  is_authorized x a policy =
      not (policy.fee_payer_account_id == a.borrower_account_id)
      && not (policy.fee_payer_account_id == a.provider_account_id)
      && not x.has_non_transfer_operations
      && eqb x.token_transfers 0
      && is_pair x.hbar_transfers
      && x.transaction_id == a.transaction_id
      && x.transaction_id_account_id == policy.fee_payer_account_id
      && eqb_ℤ (l.net_for_account x.hbar_transfers a.borrower_account_id +ℤ pos a.amount_tinybar)
          (pos 0)
      && eqb_ℤ (l.net_for_account x.hbar_transfers a.provider_account_id) (pos a.amount_tinybar)
      && all_are a.provider_account_id (l.positive_receivers x.hbar_transfers)

  unfoldable pub assert_transaction_binding :
      String → WireAuthorization → PolicySnapshot → Checked ℕ
  unfolding valid_until_of
  assert_transaction_binding transaction a policy = do
    throw_if (not (l.is_canonical transaction)) invalid
    throw_if (not (l.bytes_hash transaction == a.transaction_sha256)) mismatch
    inspected ← or_throw (l.inspect transaction) invalid
    until ← or_throw (valid_until_of transaction inspected.transaction_id) invalid
    throw_if (not (is_authorized inspected a policy)) mismatch
    pure until

  -- The last checks, under the terms that the payment is bound to.
  unfoldable pub bind_attempt :
      PaidScanRequest → WireAuthorization → PaymentPayload → Bool → PolicySnapshot → Checked Attempt
  bind_attempt request a payload expired policy = do
    assert_policy_binding request a payload policy
    transaction ← transaction_from_payload payload
    until ← assert_transaction_binding transaction a policy
    pure (record {
      request = request;
      authorization = a;
      payment_payload = payload;
      transaction_base64 = transaction;
      fingerprint = l.fingerprint request payload;
      authorization_expired = expired;
      transaction_valid_until = until;
      policy = policy;
    })

  -- `stored_policy` is the snapshot that is kept of a transaction with a fingerprint.
  unfoldable pub validate_attempt :
      Body
      → String
      → PolicySnapshot
      → (String → Option String)
      → ℕ
      → Bool
      → (String → String → Option PolicySnapshot)
      → Checked Attempt
  validate_attempt body header policy signer_keys now allow_expired stored_policy = do
    _ ← parse_base body
    a ← or_throw (l.authorization_in body) invalid
    verify_signature a signer_keys
    throw_if (leb (l.millis a.expires_at) now && not allow_expired) invalid
    request ← or_throw (l.paid_request body) mismatch
    payload ← or_throw (l.payload_in header) invalid
    bind_attempt request a payload (leb (l.millis a.expires_at) now)
        (or_default (stored_policy a.transaction_id (l.fingerprint request payload)) policy)
