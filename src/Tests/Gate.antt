-- ===== src/Tests/Gate.antt =====
-- A payment through the signer's gate, with a proof, and the replay of its nonce.
use koven.Prelude.{ℕ, List, [], ◌∷◌, pos, ◌≡◌, refl, ◌≤◌, ◌<◌, ◌≤ℤ◌, String, some, none, true, ◌⊎◌}
use Prim.Native.String.{◌++◌}
use koven.Domain.Errors.{ErrorCode, signer_error}
use koven.Domain.Credit.{CreditOffer}
use koven.Exec.{ok, err}
use koven.X402.{Formats, canonical_resource_string, resource_hash_hex}
use koven.Proof.{ProofBundle, Pinned, commitment_for, assert_acceptance_evidence}
use koven.Proof.Trusted.{IsProven, assert_acceptance_evidence-IsProven}
use koven.Signer.Types.{SignerDb, empty}
use koven.Signer.Store.Policy.{get_mission_policy, register_mission_policy}
use koven.Signer.Store.Authorization.{reserve_authorization}
use koven.Signer.Gate.{
  AuthorizeRequest, AuthorizeResponse, Gate, Payment, unsigned, authorize, challenge_of,
  proven_commitment,
}
use koven.Signer.Gate.Allowed.{row_of, IsAuthorized, authorize-pays}
use koven.Signer.Gate.Refused.{Unanswered, authorize_atomic, authorize-IsProven}
use koven.Signer.Gate.Once.{authorize_once}
use koven.Signer.Safety.History.{Call, policy, run, step}
use koven.Tests.Samples.{policy_of, canonical}

abbrev pub formats : Formats
formats = record {
  is_id = λ t. true;
  is_sha256 = λ t. true;
  is_nonce = λ t. true;
  is_http_url = λ t. true;
  sha256_hex = λ t. t;
  account_parts = λ t. some (0, 0, 7);
  nonce_value = λ t. 3;
  hash_prefix = λ t. 5;
  poseidon = λ xs. pos 11;
}

abbrev pub pinned : Pinned String
pinned = record {
  groth16 = record {
    conforms = λ b. true;
    is_sha256 = λ t. true;
    is_decimal = λ t. true;
    circuit_id = "koven-policy-v1";
    verify = λ key signals proof. ok true;
  };
  formats = formats;
  verification_key = "vk";
  vkey_hash = "ab";
  root_for = λ id. "12";
  to_decimal = λ x. "11";
}

abbrev pub bundle : ProofBundle
bundle = record {
  proof = record {
    pi_a = ("1", "2", "1");
    pi_b = (("1", "2"), ("3", "4"), ("1", "0"));
    pi_c = ("1", "2", "1");
  };
  commitment = "11";
  root = "12";
  cap = 100;
  vkey_hash = "ab";
  circuit_id = "koven-policy-v1";
}

abbrev gate : Gate String
gate = record {
  formats = formats;
  to_decimal = λ x. "11";
  account_id = "0.0.5";
  network = "hedera:testnet";
  is_zk = true;
  proof_policy = some pinned;
  conforms = λ r. true;
  is_response = λ r. true;
  intent_hash = λ c. c.nonce;
  build = λ q. ok "AAAA";
  inspect = λ t.
      ok (record { transaction_id_account_id = "0.0.8"; transaction_id = "0.0.8@2.000000000" });
  valid_start = λ t. some (2, 0);
  valid_duration = λ t. 120;
  transaction_hash = λ t. t;
  iso = λ n. "t";
  sign = λ document. "00";
}

abbrev request : AuthorizeRequest
request = record {
  mission_id = "a";
  requirements = record {
    network = "hedera:testnet";
    asset = "0.0.0";
    amount = 60;
    pay_to = "0.0.7";
    max_timeout_seconds = 60;
    fee_payer = "0.0.8";
  };
  nonce = "3";
  bundle = some bundle;
}

abbrev pub provisioned : SignerDb
provisioned =
    (register_mission_policy canonical.of_policy canonical.conforms (policy_of "a") "t0" none
      empty).1

abbrev payment : Payment
payment = record {
  policy = policy_of "a";
  challenge = record {
    amount_tinybar = pos 60;
    recipient_account_id = "0.0.7";
    nonce = "3";
    resource_hash = "POST https://scan.example/scan\na\nab";
    mission_id = "a";
  };
  commitment = "11";
}

abbrev answer : AuthorizeResponse
answer = record {
  transaction = "AAAA";
  payment_authorization =
      unsigned gate request (policy_of "a") "AAAA"
        (record { transaction_id_account_id = "0.0.8"; transaction_id = "0.0.8@2.000000000" })
        122000 "00";
}

abbrev after : SignerDb
after = (authorize gate request 1000 provisioned).1

authorized : authorize gate request 1000 provisioned ≡ (ok answer, after)
unfolding authorize register_mission_policy challenge_of proven_commitment
authorized = refl

-- The nonce again, for another amount.
abbrev again : AuthorizeRequest
again = record request { requirements = record request.requirements { amount = 5 } }

abbrev misdirected : AuthorizeRequest
misdirected = record request { requirements = record request.requirements { pay_to = "0.0.9" } }

refused :
    authorize gate misdirected 1000 provisioned
    ≡ (err (signer_error ErrorCode.recipient_not_approved), provisioned)
unfolding authorize register_mission_policy challenge_of proven_commitment
refused = refl

authorize-pays_example :
    let a = answer.payment_authorization in
    (p : Payment) × (get_mission_policy "a" provisioned ≡ (ok (some p.policy), provisioned))
    × (a.provider_account_id ≡ p.policy.provider.account_id)
    × ("0.0.7" ≡ p.policy.provider.account_id)
    × (a.amount_tinybar ≡ 60)
    × (0 < a.amount_tinybar)
    × (a.amount_tinybar ≤ p.policy.spending_cap_tinybar)
    × (a.nonce ≡ "3")
    × ((valid_until : ℕ) × (1000 < valid_until)
        × (reserve_authorization (row_of gate request p answer valid_until) "t" provisioned
            ≡ (ok tt, after)))
authorize-pays_example = authorize-pays gate request 1000 answer provisioned after authorized

authorize_atomic_example :
    (provisioned ≡ provisioned)
    ⊎ Unanswered gate misdirected 1000
        (signer_error ErrorCode.recipient_not_approved)
        provisioned
        provisioned
authorize_atomic_example =
    authorize_atomic gate misdirected 1000 provisioned provisioned
      (signer_error ErrorCode.recipient_not_approved) refused

authorize-IsProven_example :
    (p : Payment) × (get_mission_policy "a" provisioned ≡ (ok (some p.policy), provisioned))
    × (challenge_of gate request p.policy tt ≡ (ok p.challenge, tt))
    × (commitment_for pinned p.challenge tt ≡ (ok p.commitment, tt))
    × ((b : ProofBundle) × (some bundle ≡ some b)
        × IsProven pinned b p.policy.approved_recipients_root p.commitment
            p.policy.spending_cap_tinybar)
    × IsAuthorized gate request p 1000 answer provisioned after
authorize-IsProven_example =
    authorize-IsProven gate request pinned 1000 answer provisioned after refl refl authorized

-- The store before, by its calls, and a call in between.
abbrev registration : List Call
registration = policy (policy_of "a") "t0" none ∷ []

abbrev in_between : List Call
in_between = policy (policy_of "b") "t1" none ∷ []

authorized_on_run :
    authorize gate request 1000 (run canonical registration empty) ≡ (ok answer, after)
unfolding run step authorize register_mission_policy challenge_of proven_commitment
authorized_on_run = refl

authorize_once_example :
    ¬ (authorize gate again 2000 (run canonical in_between after) ≡ (ok answer, after))
authorize_once_example =
    authorize_once gate canonical registration in_between request again 1000 2000 answer answer
      after after authorized_on_run refl refl

abbrev pub offer : CreditOffer
offer = record {
  unsigned = record {
    id = "o";
    request_id = "r";
    lender_account_id = "0.0.9";
    principal_tinybar = pos 61;
    fee_tinybar = pos 2;
    term_seconds = 600;
    expires_at = "t9";
    terms_hash = "hash";
  };
  signature = "00";
}

evidence :
    assert_acceptance_evidence pinned (policy_of "a") offer payment.challenge bundle tt
    ≡ (ok tt, tt)
unfolding assert_acceptance_evidence canonical_resource_string
evidence = refl

assert_acceptance_evidence-IsProven_example :
    ("a" ≡ (policy_of "a").mission_id)
    × ("0.0.7" ≡ (policy_of "a").provider.account_id)
    × (payment.challenge.resource_hash
        ≡ resource_hash_hex pinned.formats
            ((policy_of "a").provider.endpoint ++ "/scan")
            "a"
            (policy_of "a").target_sha256)
    × ((policy_of "a").approved_recipients_root
        ≡ pinned.root_for (policy_of "a").provider.account_id)
    × (pos 60 ≤ℤ pos 100)
    × (pos 60 ≤ℤ pos 61)
    × ((commitment : String) × (commitment_for pinned payment.challenge tt ≡ (ok commitment, tt))
        × IsProven pinned bundle "12" commitment 100)
assert_acceptance_evidence-IsProven_example =
    assert_acceptance_evidence-IsProven pinned bundle (policy_of "a") offer payment.challenge
      evidence
