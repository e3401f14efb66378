-- ===== src/Proof.antt =====
-- packages/zk-policy/src/verify.ts, and the two services that call it: services/restricted-signer/src/proof.ts
-- and agents/lenders/src/verify.ts. Groth16, the schemas and the texts of numbers are parameters.
pub mod Trusted
use koven.Prelude.{
  ℕ, ℤ, pos, ltb_ℤ, String, Option, none, some, Bool, true, false, not, List, [], ◌∷◌, ◌==◌, ◌||◌,
  eqb, if◌then◌else◌,
}
use Prim.Native.String.{◌++◌}
use koven.Domain.Credit.{CreditOffer}
use koven.Domain.Errors.{Error, ErrorCode, signer_error, credit_protocol_error}
use koven.Exec.{Exec, Result, ok, err, pure, throw, throw_if, ◌>>=◌, ◌>>◌}
use koven.Signer.Types.{MissionPolicy}
use koven.X402.{NormalizedChallenge, Checked, commitment_text, resource_hash_hex}

-- The curve's points are decimal texts; the protocol and the curve have one value.
pub record Groth16Proof : Type 0 where
  pub pi_a : String × String × String
  pub pi_b : (String × String) × (String × String) × (String × String)
  pub pi_c : String × String × String

-- The cap, a public signal, is canonical decimal text, kept as the number.
pub record ProofBundle : Type 0 where
  pub proof : Groth16Proof
  pub commitment : String
  pub root : String
  pub cap : ℕ
  pub vkey_hash : String
  pub circuit_id : String

-- The schema of a bundle, two regular expressions, the id of the circuit, and Groth16 under a key, which
-- may throw.
pub record Groth16 (Key : Type 0) : Type 0 where
  pub conforms : ProofBundle → Bool
  pub is_sha256 : String → Bool
  pub is_decimal : String → Bool
  pub circuit_id : String
  pub verify : Key → String × String × ℕ → Groth16Proof → Result Bool

pub record TrustedVerificationInputs (Key : Type 0) : Type 0 where
  pub vkey : Key
  pub vkey_hash : String
  pub approved_root : String
  pub max_cap_tinybar : ℤ

pub data VerificationResult : Type 0 where
  accepted : VerificationResult
  refused : ErrorCode → VerificationResult

-- An exception counts as a proof that does not verify.
abbrev pub or_false : Result Bool → Bool
or_false (ok b) = b
or_false (err e) = false

module _ {Key : Type 0} (g : Groth16 Key) where
  unfoldable pub verify_proof_bundle :
      ProofBundle → TrustedVerificationInputs Key → String → VerificationResult
  verify_proof_bundle b trusted expected =
      if not (g.conforms b)
      then refused ErrorCode.proof_invalid
      else (if not (b.circuit_id == g.circuit_id)
          then refused ErrorCode.circuit_id_mismatch
          else (if not (g.is_sha256 trusted.vkey_hash) || not (b.vkey_hash == trusted.vkey_hash)
              then refused ErrorCode.proof_vkey_mismatch
              else (if not (or_false (g.verify trusted.vkey (b.commitment, b.root, b.cap) b.proof))
                  then refused ErrorCode.proof_invalid
                  else (if not (g.is_decimal expected) || not (b.commitment == expected)
                      then refused ErrorCode.challenge_binding_mismatch
                      else (if not (g.is_decimal trusted.approved_root)
                            || not (b.root == trusted.approved_root)
                          then refused ErrorCode.recipient_not_approved
                          else (if ltb_ℤ trusted.max_cap_tinybar (pos 0)
                                || ltb_ℤ trusted.max_cap_tinybar (pos b.cap)
                              then refused ErrorCode.cap_exceeded
                              else accepted))))))

-- The key that a service has pinned, and `buildMissionRecipientRoot` of zk-policy with `toString(10)`.
pub record Pinned (Key : Type 0) : Type 0 where
  pub groth16 : Groth16 Key
  pub formats : koven.X402.Formats
  pub verification_key : Key
  pub vkey_hash : String
  pub root_for : String → String
  pub to_decimal : ℤ → String

abbrev pub refuse : (ErrorCode → Error) → VerificationResult → Checked (Unit {0})
refuse error accepted = pure tt
refuse error (refused code) = throw (error code)

module _ {Key : Type 0} (p : Pinned Key) where
  -- `commitmentFor`
  unfoldable pub commitment_for : NormalizedChallenge → Checked String
  unfolding commitment_text
  commitment_for challenge = commitment_text p.formats p.to_decimal challenge

  abbrev pub trusted_inputs : MissionPolicy → String → TrustedVerificationInputs Key
  trusted_inputs policy root = record {
    vkey = p.verification_key;
    vkey_hash = p.vkey_hash;
    approved_root = root;
    max_cap_tinybar = pos policy.spending_cap_tinybar;
  }

  -- `ProofPolicy.assertProof` of the signer.
  unfoldable pub assert_proof : ProofBundle → MissionPolicy → NormalizedChallenge → Checked String
  unfolding commitment_for verify_proof_bundle
  assert_proof bundle policy challenge = do
    commitment ← commitment_for challenge
    refuse signer_error (
        verify_proof_bundle p.groth16 bundle (trusted_inputs policy policy.approved_recipients_root)
          commitment)
    throw_if (not (eqb bundle.cap policy.spending_cap_tinybar))
        (signer_error ErrorCode.mission_policy_mismatch)
    pure commitment

  -- The payment intent is the challenge that the borrower has signed for.
  abbrev pub is_other_payment : MissionPolicy → CreditOffer → NormalizedChallenge → Bool
  is_other_payment policy offer intent =
      not (intent.mission_id == policy.mission_id)
      || not (intent.recipient_account_id == policy.provider.account_id)
      || not (
          intent.resource_hash
          == resource_hash_hex p.formats (policy.provider.endpoint ++ "/scan") policy.mission_id
              policy.target_sha256)
      || ltb_ℤ (pos policy.spending_cap_tinybar) intent.amount_tinybar
      || ltb_ℤ offer.principal_tinybar intent.amount_tinybar
      || not (policy.approved_recipients_root == p.root_for policy.provider.account_id)

  -- `LenderProofVerifier.assertAcceptanceEvidence`
  unfoldable pub assert_acceptance_evidence :
      MissionPolicy → CreditOffer → NormalizedChallenge → ProofBundle → Checked (Unit {0})
  unfolding commitment_for verify_proof_bundle resource_hash_hex
  assert_acceptance_evidence policy offer intent bundle = do
    throw_if (is_other_payment policy offer intent)
        (credit_protocol_error ErrorCode.mission_policy_mismatch)
    commitment ← commitment_for intent
    refuse credit_protocol_error (
        verify_proof_bundle p.groth16 bundle
          (trusted_inputs policy (p.root_for policy.provider.account_id)) commitment)
    throw_if (not (eqb bundle.cap policy.spending_cap_tinybar))
        (credit_protocol_error ErrorCode.mission_policy_mismatch)
