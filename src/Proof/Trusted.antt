-- ===== src/Proof/Trusted.antt =====
-- What a service has checked when it lets a proof through.
use koven.Prelude.{ℕ, pos, ◌≡◌, refl, ◌≤ℤ◌, String, true, arith, eq_iff, eqb}
use Prim.Native.String.{◌++◌}
use koven.Domain.Credit.{CreditOffer}
use koven.Exec.{Result, ok, err}
use koven.Signer.Types.{MissionPolicy}
use koven.X402.{NormalizedChallenge, resource_hash_hex}
use koven.Proof.{
  Groth16, ProofBundle, TrustedVerificationInputs, accepted, or_false, verify_proof_bundle, Pinned,
  commitment_for, assert_proof, assert_acceptance_evidence,
}

-- A bundle that is accepted: its signals are what was expected, and it is proven under the trusted key.
pub record IsAccepted {Key : Type 0} (g : Groth16 Key) (b : ProofBundle)
    (t : TrustedVerificationInputs Key) (expected : String) : Type 0 where
  pub circuit : b.circuit_id ≡ g.circuit_id
  pub key : b.vkey_hash ≡ t.vkey_hash
  pub commitment : b.commitment ≡ expected
  pub root : b.root ≡ t.approved_root
  pub in_cap : pos b.cap ≤ℤ t.max_cap_tinybar
  pub proven : or_false (g.verify t.vkey (b.commitment, b.root, b.cap) b.proof) ≡ true

module _ {Key : Type 0} (g : Groth16 Key) (b : ProofBundle) (t : TrustedVerificationInputs Key)
    (expected : String) where
  pub accepted-IsAccepted :
      verify_proof_bundle g b t expected ≡ accepted → IsAccepted g b t expected
  unfolding verify_proof_bundle
  accepted-IsAccepted h = record {
    circuit = ground (arith, eq_iff b.circuit_id g.circuit_id);
    key = ground (arith, eq_iff b.vkey_hash t.vkey_hash);
    commitment = ground (arith, eq_iff b.commitment expected);
    root = ground (arith, eq_iff b.root t.approved_root);
    in_cap = ground arith;
    proven = ground arith;
  }

-- A proof under the service's own key, for its own circuit, of this commitment, root and cap.
pub record IsProven {Key : Type 0} (p : Pinned Key) (b : ProofBundle) (root commitment : String)
    (cap : ℕ) : Type 0 where
  pub circuit : b.circuit_id ≡ p.groth16.circuit_id
  pub key : b.vkey_hash ≡ p.vkey_hash
  pub proven : or_false (p.groth16.verify p.verification_key (commitment, root, cap) b.proof) ≡ true

module _ {Key : Type 0} (p : Pinned Key) (b : ProofBundle) (policy : MissionPolicy) where
  abbrev inputs : String → TrustedVerificationInputs Key
  inputs root = record {
    vkey = p.verification_key;
    vkey_hash = p.vkey_hash;
    approved_root = root;
    max_cap_tinybar = pos policy.spending_cap_tinybar;
  }

  accepted-IsProven :
      (root commitment : String)
      → verify_proof_bundle p.groth16 b (inputs root) commitment ≡ accepted
      → eqb b.cap policy.spending_cap_tinybar ≡ true
      → IsProven p b root commitment policy.spending_cap_tinybar
  accepted-IsProven root commitment h same_cap =
      let a = accepted-IsAccepted p.groth16 b (inputs root) commitment h in
      let cap : b.cap ≡ policy.spending_cap_tinybar = ground arith in
      let proven = a.proven in
      record { circuit = a.circuit; key = a.key; proven = rw (a.commitment, a.root, cap) at proven }

  -- A commitment that the signer asserts is the one that it computes from the challenge, and is proven under
  -- the signer's own key, for the root that the mission's policy has stored, at exactly the mission's cap.
  pub assert_proof-IsProven :
      (c : NormalizedChallenge) (commitment : String)
      → assert_proof p b policy c tt ≡ (ok commitment, tt)
      → (commitment_for p c tt ≡ (ok commitment, tt))
        × IsProven p b policy.approved_recipients_root commitment policy.spending_cap_tinybar
  unfolding assert_proof
  assert_proof-IsProven c commitment h =
      let computed : commitment_for p c tt ≡ (ok commitment, tt) = ground arith in
      (
        computed,
        accepted-IsProven policy.approved_recipients_root commitment (ground arith) (ground arith),
      )

  -- Evidence that a lender accepts is of a payment for the policy's mission, to its provider, for the resource of its
  -- scan of the mission's target, of no more than the mission's cap and the principal; the policy's root is that of
  -- the provider; and the commitment of this payment is proven under the lender's own key, for that root and at
  -- exactly the cap.
  pub assert_acceptance_evidence-IsProven :
      (offer : CreditOffer) (intent : NormalizedChallenge)
      → assert_acceptance_evidence p policy offer intent b tt ≡ (ok tt, tt)
      → (intent.mission_id ≡ policy.mission_id)
        × (intent.recipient_account_id ≡ policy.provider.account_id)
        × (intent.resource_hash
            ≡ resource_hash_hex p.formats
                (policy.provider.endpoint ++ "/scan")
                policy.mission_id
                policy.target_sha256)
        × (policy.approved_recipients_root ≡ p.root_for policy.provider.account_id)
        × (intent.amount_tinybar ≤ℤ pos policy.spending_cap_tinybar)
        × (intent.amount_tinybar ≤ℤ offer.principal_tinybar)
        × ((commitment : String) × (commitment_for p intent tt ≡ (ok commitment, tt))
            × IsProven p b
                (p.root_for policy.provider.account_id)
                commitment
                policy.spending_cap_tinybar)
  unfolding assert_acceptance_evidence
  assert_acceptance_evidence-IsProven offer intent h = (
    ground (arith, eq_iff intent.mission_id policy.mission_id),
    ground (arith, eq_iff intent.recipient_account_id policy.provider.account_id),
    (eq_iff intent.resource_hash (
          resource_hash_hex p.formats (policy.provider.endpoint ++ "/scan") policy.mission_id
            policy.target_sha256)).0
        (ground arith),
    (eq_iff policy.approved_recipients_root (p.root_for policy.provider.account_id)).0
        (ground arith),
    ground arith,
    ground arith,
    proven (commitment_for p intent tt) refl,
  )
    where
      proven :
          (o : Result String × Unit {0})
          → commitment_for p intent tt ≡ o
          → (commitment : String) × (commitment_for p intent tt ≡ (ok commitment, tt))
            × IsProven p b
                (p.root_for policy.provider.account_id)
                commitment
                policy.spending_cap_tinybar
      proven (ok commitment, u) e = (
        commitment,
        e,
        accepted-IsProven (p.root_for policy.provider.account_id) commitment (ground arith)
            (ground arith),
      )
      proven (err x, u) e = absurd (ground arith)
