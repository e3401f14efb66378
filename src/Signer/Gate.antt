-- ===== src/Signer/Gate.antt =====
-- services/restricted-signer/src/gate.ts: the payment gate. What is computed outside the store (the
-- transfer that is built, the texts, the signature) is an argument. The calls run one after another on
-- one state; the lock of a mission, which is taken after the checks, is where the two halves meet.
pub mod Allowed
pub mod Refused
pub mod Once
use koven.Prelude.{
  ℕ, ℤ, pos, ◌+◌, ◌*◌, ◌/◌, ltb_ℤ, String, Option, none, some, Bool, true, false, not, ◌==◌, ◌||◌,
  ◌&&◌, leb, ltb, is_none, same_text, if◌then◌else◌,
}
use Prim.Native.String.{◌++◌}
use koven.Domain.Errors.{Error, ErrorCode, signer_error, zod_error, plain_error, challenge_rejected}
use koven.Exec.{Exec, Result, ok, err, pure, throw, lift, gets, throw_if, or_throw, ◌>>=◌, ◌>>◌}
use koven.X402.{
  Formats, PaymentRequirements, NormalizedChallenge, ChallengePolicy, Checked, normalize_challenge,
  commitment_text,
}
use koven.Proof.{ProofBundle, Pinned, assert_proof}
use koven.Signer.Types.{
  MissionPolicy, WireAuthorization, StoredAuthorization, StoredAcceptance, SignerDb,
}
use koven.Signer.Store.Policy.{get_mission_policy}
use koven.Signer.Store.Credit.{get_acceptance}
use koven.Signer.Store.Authorization.{reserve_authorization}

pub record AuthorizeRequest : Type 0 where
  pub mission_id : String
  pub requirements : PaymentRequirements
  pub nonce : String
  pub bundle : Option ProofBundle

pub record AuthorizeResponse : Type 0 where
  pub transaction : String
  pub payment_authorization : WireAuthorization

pub record Inspected : Type 0 where
  pub transaction_id_account_id : String
  pub transaction_id : String

-- The second and the nanosecond in a transaction's id, where it matches, and `Number.MAX_SAFE_INTEGER`.
abbrev pub max_safe_integer : ℕ
max_safe_integer = 9007199254740991

unfoldable pub transaction_valid_until : Option (ℕ × ℕ) → ℕ → Checked ℕ
transaction_valid_until none duration_seconds = throw plain_error
transaction_valid_until (some (seconds, nanos)) duration_seconds = do
  throw_if (ltb max_safe_integer duration_seconds || leb duration_seconds 0) plain_error
  pure (seconds * 1000 + nanos / 1000000 + duration_seconds * 1000)

-- The gate's options and the libraries that it calls: the transfer that is built and signed, what is
-- read from its bytes, the hashes, the schemas, and a signature on a document, which is a function of it.
pub record Gate (Key : Type 0) : Type 0 where
  pub formats : Formats
  pub to_decimal : ℤ → String
  pub account_id : String
  pub network : String
  pub is_zk : Bool
  pub proof_policy : Option (Pinned Key)
  pub conforms : AuthorizeRequest → Bool
  pub is_response : AuthorizeResponse → Bool
  pub intent_hash : NormalizedChallenge → String
  pub build : PaymentRequirements → Result String
  pub inspect : String → Result Inspected
  pub valid_start : String → Option (ℕ × ℕ)
  pub valid_duration : String → ℕ
  pub transaction_hash : String → String
  pub iso : ℕ → String
  pub sign : (String → WireAuthorization) → String

abbrev pub checked : {A : Type 0} → Checked A → Exec SignerDb A
checked m s = ((m tt).0, s)

abbrev pub fail : {A : Type 0} → ErrorCode → Exec SignerDb A
fail code = throw (signer_error code)

abbrev pub fail_if : Bool → ErrorCode → Exec SignerDb (Unit {0})
fail_if b code = throw_if b (signer_error code)

-- What the checks before the lock find.
pub record Payment : Type 0 where
  pub policy : MissionPolicy
  pub challenge : NormalizedChallenge
  pub commitment : String

abbrev pub translate : Error → Error
translate challenge_rejected = signer_error ErrorCode.challenge_binding_mismatch
translate e = e

-- `catch (error) { if (error instanceof ChallengeRejectedError) fail(...); throw error; }`
abbrev pub translated : {A : Type 0} → Result A × Unit {0} → Result A × Unit {0}
translated (ok a, u) = (ok a, u)
translated (err e, u) = (err (translate e), u)

-- The accepted credit has the hash of another payment intent.
abbrev pub is_other_intent : Option StoredAcceptance → String → Bool
is_other_intent none hash = false
is_other_intent (some a) hash =
    not (is_none a.acceptance.payment_intent_hash)
    && not (same_text a.acceptance.payment_intent_hash (some hash))

module _ {Key : Type 0} (g : Gate Key) where
  abbrev pub scan_url : MissionPolicy → String
  scan_url policy = policy.provider.endpoint ++ "/scan"

  unfoldable pub challenge_of : AuthorizeRequest → MissionPolicy → Checked NormalizedChallenge
  unfolding normalize_challenge
  challenge_of request policy u = translated (
      normalize_challenge g.formats (some request.requirements) policy.mission_id
        policy.target_sha256 request.nonce (scan_url policy)
        (record { network = g.network; asset = "0.0.0" }) u)

  unfoldable pub proven_commitment :
      Bool
      → Option (Pinned Key)
      → Option ProofBundle
      → MissionPolicy
      → NormalizedChallenge
      → Checked String
  unfolding assert_proof
  proven_commitment true (some p) (some bundle) policy challenge =
      assert_proof p bundle policy challenge
  proven_commitment _ _ _ policy challenge = commitment_text g.formats g.to_decimal challenge

  -- From the request to the lock.
  unfoldable pub check_payment : AuthorizeRequest → Exec SignerDb Payment
  unfolding get_mission_policy get_acceptance
  check_payment request = do
    throw_if (not (g.conforms request) || (g.is_zk && is_none request.bundle)) zod_error
    found ← get_mission_policy request.mission_id
    policy ← or_throw found (signer_error ErrorCode.mission_policy_missing)
    challenge ← checked (challenge_of request policy)
    accepted ← get_acceptance policy.mission_id
    fail_if (is_other_intent accepted (g.intent_hash challenge))
        ErrorCode.challenge_binding_mismatch
    commitment ← checked (proven_commitment g.is_zk g.proof_policy request.bundle policy challenge)
    fail_if (not (challenge.recipient_account_id == policy.provider.account_id))
        ErrorCode.recipient_not_approved
    fail_if (ltb_ℤ (pos policy.spending_cap_tinybar) challenge.amount_tinybar)
        ErrorCode.cap_exceeded
    pure (record { policy = policy; challenge = challenge; commitment = commitment })

  -- The document to be signed.
  abbrev pub unsigned :
      AuthorizeRequest → MissionPolicy → String → Inspected → ℕ → String → WireAuthorization
  unsigned request policy transaction inspected valid_until signature = record {
    mission_id = policy.mission_id;
    target_sha256 = policy.target_sha256;
    transaction_sha256 = g.transaction_hash transaction;
    transaction_id = inspected.transaction_id;
    borrower_account_id = g.account_id;
    provider_account_id = policy.provider.account_id;
    scan_url = scan_url policy;
    amount_tinybar = request.requirements.amount;
    network = g.network;
    asset = "0.0.0";
    nonce = request.nonce;
    expires_at = g.iso valid_until;
    signature = signature;
  }

  -- A transfer that has been built, and the last millisecond that it is valid in.
  unfoldable pub build_transfer : PaymentRequirements → ℕ → Exec SignerDb (String × Inspected × ℕ)
  unfolding transaction_valid_until
  build_transfer requirements now = do
    transaction ← lift (g.build requirements)
    inspected ← lift (g.inspect transaction)
    fail_if (not (inspected.transaction_id_account_id == requirements.fee_payer))
        ErrorCode.internal_error
    valid_until ← checked (
        transaction_valid_until (g.valid_start inspected.transaction_id)
          (g.valid_duration transaction))
    fail_if (leb valid_until now) ErrorCode.internal_error
    pure (transaction, inspected, valid_until)

  unfoldable pub respond : AuthorizeResponse → Exec SignerDb AuthorizeResponse
  respond response s = (if g.is_response response then ok response else err zod_error, s)

  unfoldable pub reserve_built :
      AuthorizeRequest → Payment → ℕ → String × Inspected × ℕ → Exec SignerDb AuthorizeResponse
  unfolding respond reserve_authorization
  reserve_built request payment now (transaction, inspected, valid_until) =
      let document = unsigned request payment.policy transaction inspected valid_until in
      let authorization = document (g.sign document) in
      do
        reserve_authorization
            (record {
              mission_id = payment.policy.mission_id;
              nonce = request.nonce;
              commitment = payment.commitment;
              transaction_base64 = transaction;
              authorization = authorization;
              valid_until = valid_until;
            })
            (g.iso now)
        respond (record { transaction = transaction; payment_authorization = authorization })

  -- What runs under the lock of the mission, at the time `now`.
  unfoldable pub authorize_checked :
      AuthorizeRequest → Payment → ℕ → Exec SignerDb AuthorizeResponse
  unfolding build_transfer reserve_built
  authorize_checked request payment now = do
    built ← build_transfer request.requirements now
    reserve_built request payment now built

  unfoldable pub authorize : AuthorizeRequest → ℕ → Exec SignerDb AuthorizeResponse
  unfolding check_payment authorize_checked
  authorize request now = do payment ← check_payment request; authorize_checked request payment now
