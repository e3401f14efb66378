-- ===== src/Tests/Samples.antt =====
-- Two missions in one session, and calls of the signer's store on them.
use koven.Prelude.{ℕ, String, none, List, [], ◌∷◌, true}
use koven.Signer.Types.{MissionPolicy, Provider, StoredAuthorization}
use koven.Signer.Safety.History.{Call, policy, authorization, Canonical}

abbrev pub provider : Provider
provider = record {
  id = "scanner";
  account_id = "0.0.7";
  endpoint = "https://scan.example";
  capability = "scan";
  price_tinybar = 60;
  reputation_score = "0.9";
  expected_latency_ms = 200;
}

abbrev pub policy_of : String → MissionPolicy
policy_of id = record {
  mission_id = id;
  borrower_account_id = "0.0.5";
  spending_cap_tinybar = 100;
  session_id = "session";
  session_cap_tinybar = 150;
  target_sha256 = "ab";
  provider = provider;
  approved_recipients_root = "12";
}

-- An authorization of a mission, by its nonce and amount; the other unique columns follow the nonce.
abbrev pub pay : String → String → ℕ → StoredAuthorization
pay id nonce amount = record {
  mission_id = id;
  nonce = nonce;
  commitment = nonce;
  transaction_base64 = "AAAA";
  authorization = record {
    mission_id = id;
    target_sha256 = "ab";
    transaction_sha256 = nonce;
    transaction_id = nonce;
    borrower_account_id = "0.0.5";
    provider_account_id = "0.0.7";
    scan_url = "https://scan.example/scan";
    amount_tinybar = amount;
    network = "hedera:testnet";
    asset = "0.0.0";
    nonce = nonce;
    expires_at = "2026-01-01T00:00:00Z";
    signature = "00";
  };
  valid_until = 1000;
}

-- Hashes that tell the samples apart.
abbrev pub canonical : Canonical
canonical = record {
  of_policy = λ p. p.mission_id;
  of_request = λ r. r.id;
  of_acceptance = λ a. a.offer_id;
  conforms = λ p. true;
}

-- The third payment is over the mission's cap, the fourth over the session's.
abbrev pub calls : List Call
calls =
    policy (policy_of "a") "t0" none
    ∷ policy (policy_of "b") "t0" none
    ∷ authorization (pay "a" "1" 60) "t1"
    ∷ authorization (pay "a" "2" 60) "t2"
    ∷ authorization (pay "b" "3" 95) "t3"
    ∷ authorization (pay "b" "4" 80) "t4"
    ∷ []
