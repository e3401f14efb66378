-- ===== src/X402.antt =====
-- packages/x402/src/challenge.ts: a payment challenge is computed again from the raw requirements and
-- from trusted context. Schemas, regular expressions, SHA-256 and Poseidon are parameters.
pub mod Bound
use koven.Prelude.{
  ℕ, ℤ, pos, leb_ℤ, ltb_ℤ, String, Option, none, some, Bool, not, List, [], ◌∷◌, ◌==◌, ◌||◌, eqb,
  ltb, if◌then◌else◌,
}
use Prim.Native.String.{◌++◌}
use koven.Domain.Errors.{challenge_rejected}
use koven.Exec.{Exec, pure, throw, throw_if, or_throw, ◌>>=◌, ◌>>◌}
use koven.CreditProtocol.{uint64_max}

-- `PaymentRequirements`. An amount that its schema lets through is canonical decimal text, kept as the
-- number. The scheme has one value.
pub record PaymentRequirements : Type 0 where
  pub network : String
  pub asset : String
  pub amount : ℕ
  pub pay_to : String
  pub max_timeout_seconds : ℕ
  pub fee_payer : String

pub record NormalizedChallenge : Type 0 where
  pub amount_tinybar : ℤ
  pub recipient_account_id : String
  pub nonce : String
  pub resource_hash : String
  pub mission_id : String

pub record ChallengePolicy : Type 0 where
  pub network : String
  pub asset : String

pub record ChallengeFieldInputs : Type 0 where
  pub amount : ℤ
  pub recipient : ℤ
  pub nonce : ℤ
  pub resource_hash : ℤ

-- The schemas `Id`, `Sha256`, `Nonce` and `HttpUrl`; SHA-256 as hexadecimal text; the three parts of an
-- account's id, where it has them; the number that a nonce is, and that the first 62 hexadecimal digits
-- of a hash are; and Poseidon.
pub record Formats : Type 0 where
  pub is_id : String → Bool
  pub is_sha256 : String → Bool
  pub is_nonce : String → Bool
  pub is_http_url : String → Bool
  pub sha256_hex : String → String
  pub account_parts : String → Option (ℕ × ℕ × ℕ)
  pub nonce_value : String → ℕ
  pub hash_prefix : String → ℕ
  pub poseidon : List ℤ → ℤ

abbrev pub challenge_method : String
challenge_method = "POST"

unfoldable pub canonical_resource_string : String → String → String → String → String
canonical_resource_string method url mission_id target_sha256 =
    method ++ (" " ++ (url ++ ("\n" ++ (mission_id ++ ("\n" ++ target_sha256)))))

-- A state is not used: these calls throw or return.
abbrev pub Checked : Type 0 → Type 0
Checked A = Exec (Unit {0}) A

abbrev pub reject_if : Bool → Checked (Unit {0})
reject_if b = throw_if b challenge_rejected

-- What the schema has parsed, if it has.
unfoldable pub assert_acceptable_requirements :
    Option PaymentRequirements → ChallengePolicy → Checked PaymentRequirements
assert_acceptable_requirements none policy = throw challenge_rejected
assert_acceptable_requirements (some accepted) policy = do
  reject_if (not (accepted.network == policy.network))
  reject_if (not (accepted.asset == policy.asset))
  reject_if (eqb accepted.amount 0)
  pure accepted

module _ (f : Formats) where
  unfoldable pub resource_hash_hex : String → String → String → String
  resource_hash_hex scan_url mission_id target_sha256 =
      f.sha256_hex (canonical_resource_string challenge_method scan_url mission_id target_sha256)

  unfoldable pub normalize_challenge :
      Option PaymentRequirements
      → String
      → String
      → String
      → String
      → ChallengePolicy
      → Checked NormalizedChallenge
  unfolding assert_acceptable_requirements resource_hash_hex canonical_resource_string
  normalize_challenge requirements mission_id target_sha256 nonce scan_url policy = do
    reject_if (not (f.is_id mission_id))
    reject_if (not (f.is_sha256 target_sha256))
    reject_if (not (f.is_nonce nonce))
    reject_if (not (f.is_http_url scan_url))
    accepted ← assert_acceptable_requirements requirements policy
    pure (record {
      amount_tinybar = pos accepted.amount;
      recipient_account_id = accepted.pay_to;
      nonce = nonce;
      resource_hash = resource_hash_hex scan_url mission_id target_sha256;
      mission_id = mission_id;
    })

  account_of_parts : Option (ℕ × ℕ × ℕ) → Checked ℤ
  account_of_parts none = throw challenge_rejected
  account_of_parts (some (shard, realm, num)) = do
    reject_if (ltb uint64_max shard || ltb uint64_max realm || ltb uint64_max num)
    pure (f.poseidon (pos shard ∷ pos realm ∷ pos num ∷ []))

  unfoldable pub account_field_element : String → Checked ℤ
  unfolding account_of_parts
  account_field_element account_id = account_of_parts (f.account_parts account_id)

  unfoldable pub resource_hash_field_element : String → Checked ℤ
  resource_hash_field_element resource_hash = do
    reject_if (not (f.is_sha256 resource_hash))
    pure (pos (f.hash_prefix resource_hash))

  unfoldable pub challenge_to_field_inputs : NormalizedChallenge → Checked ChallengeFieldInputs
  unfolding account_field_element account_of_parts resource_hash_field_element
  challenge_to_field_inputs challenge = do
    reject_if
        (ltb_ℤ challenge.amount_tinybar (pos 0) || ltb_ℤ (pos uint64_max) challenge.amount_tinybar)
    reject_if (not (f.is_nonce challenge.nonce))
    recipient ← account_field_element challenge.recipient_account_id
    resource_hash ← resource_hash_field_element challenge.resource_hash
    pure (record {
      amount = challenge.amount_tinybar;
      recipient = recipient;
      nonce = pos (f.nonce_value challenge.nonce);
      resource_hash = resource_hash;
    })

  unfoldable pub payment_commitment : ChallengeFieldInputs → ℤ
  payment_commitment inputs =
      f.poseidon (inputs.amount ∷ inputs.recipient ∷ inputs.nonce ∷ inputs.resource_hash ∷ [])

  -- `paymentCommitment(challengeToFieldInputs(challenge, poseidon), poseidon).toString(10)`
  unfoldable pub commitment_text : (ℤ → String) → NormalizedChallenge → Checked String
  unfolding challenge_to_field_inputs payment_commitment
  commitment_text to_decimal challenge = do
    inputs ← challenge_to_field_inputs challenge
    pure (to_decimal (payment_commitment inputs))
