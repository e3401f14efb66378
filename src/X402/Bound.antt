-- ===== src/X402/Bound.antt =====
-- What the challenges of packages/x402/src/challenge.ts are bound to.
use koven.Prelude.{pos, ◌≡◌, String, some, true, arith, ◌<◌, eq_iff}
use koven.Exec.{ok}
use koven.X402.{
  Formats, PaymentRequirements, NormalizedChallenge, ChallengePolicy, normalize_challenge,
  resource_hash_hex,
}

-- A challenge of these requirements, for this mission and resource.
pub record IsNormalized (f : Formats) (q : PaymentRequirements)
    (mission_id target_sha256 nonce scan_url : String) (policy : ChallengePolicy)
    (c : NormalizedChallenge) : Type 0 where
  pub amount : c.amount_tinybar ≡ pos q.amount
  pub positive : 0 < q.amount
  pub recipient : c.recipient_account_id ≡ q.pay_to
  pub same_nonce : c.nonce ≡ nonce
  pub mission : c.mission_id ≡ mission_id
  pub resource : c.resource_hash ≡ resource_hash_hex f scan_url mission_id target_sha256
  pub network : q.network ≡ policy.network
  pub asset : q.asset ≡ policy.asset
  pub is_nonce : f.is_nonce nonce ≡ true

-- A challenge that is normalised has the positive amount and the recipient of the requirements, the nonce, the
-- mission and the hash of the resource that the trusted context gives, in the network and asset of the policy.
pub normalize_challenge-IsNormalized :
    (f : Formats) (q : PaymentRequirements) (mission_id target_sha256 nonce scan_url : String)
    (policy : ChallengePolicy) (c : NormalizedChallenge)
    → normalize_challenge f (some q) mission_id target_sha256 nonce scan_url policy tt ≡ (ok c, tt)
    → IsNormalized f q mission_id target_sha256 nonce scan_url policy c
unfolding normalize_challenge
normalize_challenge-IsNormalized f q mission_id target_sha256 nonce scan_url policy c h = record {
  amount = ground arith;
  positive = ground arith;
  recipient = ground arith;
  same_nonce = ground arith;
  mission = ground arith;
  resource = ground arith;
  network = ground (arith, eq_iff q.network policy.network);
  asset = ground (arith, eq_iff q.asset policy.asset);
  is_nonce = ground arith;
}
