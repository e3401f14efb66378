-- ===== src/Tests/Lender.antt =====
-- The funding of an offer by a lender: the call that transfers, the next one, and another holder.
use koven.Prelude.{◌≤ℤ◌, pos, ◌≡◌, refl, some, none, true, false, List, [], ◌∷◌, String}
use koven.Domain.Credit.{CreditRequest, CreditOffer}
use koven.Exec.{ok, err}
use koven.Lender.Store.{
  LenderDb, FundingRow, FundingStatus, SignedCreditAcceptance, empty, get_mission_policy,
}
use koven.Lender.Store.Fundings.{
  mark_funding_confirmed, enqueue_registration, pending_registration, mark_registered,
  reserve_funding, claim_funding_submission, replace_funding_transaction, set_funding_transaction,
  funding_mismatch,
}
use koven.Lender.Store.Fundings.History.{Call, run, step, reserve, claim, fail, confirm}
use koven.Lender.Store.Fundings.Once.{funded_once}
use koven.Lender.Fund.{transfer_for, Lender, Answers, Formats, Reconciliation, accept}
use koven.Lender.Fund.Transfer.{no_second_transfer}
use koven.CreditProtocol.{
  evaluate_lender_policy, validate_credit_offer, validate_credit_acceptance,
  validate_acceptance_evidence,
}
use koven.Lender.Server.{
  Server, AcceptBody, register_mission, quote, accept_credit, check_accept, check_stored,
  check_terms, check_evidence, matching_policy, make_offer, fund,
}
use koven.Lender.Server.Quoted.{IsOwnKey, IsNew, quote-IsSound}
use koven.CreditProtocol.Offers.{IsSound}
use koven.Signer.Types.{MissionPolicy}
use koven.Tests.Samples.{policy_of}
use koven.Tests.Gate.{offer}

abbrev request : CreditRequest
request = record {
  unsigned = record {
    id = "r";
    mission_id = "a";
    borrower_account_id = "0.0.5";
    principal_tinybar = pos 60;
    requested_term_seconds = 600;
    purpose_hash = "purpose";
    created_at = "t0";
  };
  signature = "11";
}

abbrev signed : SignedCreditAcceptance
signed = record {
  acceptance = record {
    request_id = "r";
    mission_id = "a";
    borrower_account_id = "0.0.5";
    lender_account_id = "0.0.9";
    offer_id = "o";
    terms_hash = "hash";
    expires_at = "t9";
    payment_intent_hash = none;
    payment_proof_bundle_hash = none;
  };
  signature = "22";
}

abbrev before : List Call
before = reserve (λ id. "f") "o" "h" signed 1 ∷ claim "f" "token" 2 0 ∷ []

-- Another worker finds the preparation stale, and the holder reports.
abbrev later : List Call
later = claim "f" "late" 100000 70000 ∷ confirm "f" "tx" 3 ∷ fail "f" ∷ []

abbrev held : LenderDb
held = (set_funding_transaction "f" "token" "tx" 3 (run before empty)).1

recorded : set_funding_transaction "f" "token" "tx" 3 (run before empty) ≡ (ok tt, held)
unfolding set_funding_transaction run step reserve_funding claim_funding_submission
recorded = refl

funded_once_example :
    (claim_funding_submission "f" "late" 100000 70000 (run later held) ≡ (ok false, run later held))
    × (set_funding_transaction "f" "late" "tx2" 100000 (run later held)
        ≡ (err funding_mismatch, run later held))
    × (replace_funding_transaction "f" "late" "tx" "tx2" 100000 (run later held)
        ≡ (err funding_mismatch, run later held))
funded_once_example =
    funded_once before later "f" "token" "tx" "late" "tx" "tx2" 3 100000 70000 recorded refl

abbrev formats : Formats
formats = record {
  lender_account_id = "0.0.9";
  acceptance_hash = λ s. "h";
  funding_id = λ id. "f";
  loan_id = λ id. "loan";
  is_registration = λ r. true;
  is_response = λ t. true;
}

abbrev answers : Answers
answers = record {
  reconciliation = ok Reconciliation.pending;
  prepared = some "tx";
  transfer = ok "tx";
  registration = ok tt;
  token = "token";
  now = 5;
}

abbrev funding : FundingRow
funding = record {
  id = "f";
  offer_id = "o";
  acceptance_hash = "h";
  acceptance = signed;
  transaction_id = some "tx";
  submission_token = some "token";
  status = FundingStatus.pending;
  updated_at = 3;
}

abbrev uncertain : Lender
uncertain = record {
  db = record { policies = []; offers = []; fundings = funding ∷ []; registrations = [] };
  transfers = transfer_for formats request offer "f" ∷ [];
}

no_second_transfer_example :
    (accept formats 30000 answers request offer signed uncertain).1.transfers
    ≡ transfer_for formats request offer "f" ∷ []
no_second_transfer_example =
    no_second_transfer formats 30000 answers request offer signed uncertain funding "tx" refl refl

abbrev server : Server String
server = record {
  policy = record { max_principal_tinybar = pos 500; fee_bps = 200; max_term_seconds = 600 };
  lender_account_id = "0.0.9";
  lender_key = "lender";
  operator_credential = "secret";
  borrower_key = λ id. some "borrower";
  is_trusted = λ id. true;
  is_zk = false;
  proof_verifier = none;
  verifier = record {
    offer_signed = λ key o signature. true;
    acceptance_signed = λ key a signature. true;
    terms_hash = λ o. "hash";
    is_after = λ a b. true;
  };
  request_signed = λ key r signature. true;
  sign_offer = λ o. "00";
  offer_id = λ r. "o";
  purpose_hash = λ m t. "purpose";
  policy_hash = λ p. p.mission_id;
  request_hash = λ r. r.id;
  intent_hash = λ i. i.nonce;
  bundle_hash = λ b. b.commitment;
  is_offer = λ o. true;
  is_response = λ t. true;
  funding = formats;
  lease_ms = 30000;
}

abbrev body : AcceptBody
body = record {
  acceptance = signed.acceptance;
  signature = "22";
  payment_intent = none;
  payment_proof_bundle = none;
}

-- The lender after the registration of a policy and a quote.
abbrev quoted : Lender
quoted =
    (quote server (some request) "t9"
      (register_mission server (some "Bearer secret") (some (policy_of "a"))
        (record { db = empty; transfers = [] })).1).1

accepted : (accept_credit server (some body) answers "t1" "t2" quoted).0 ≡ ok "tx"
unfolding accept_credit quote register_mission check_accept matching_policy make_offer
    evaluate_lender_policy check_stored check_terms validate_credit_offer validate_credit_acceptance
    validate_acceptance_evidence check_evidence fund accept reserve_funding claim_funding_submission
    set_funding_transaction mark_funding_confirmed enqueue_registration pending_registration
    mark_registered
accepted = refl

-- The lender before the quote.
abbrev ready : Lender
ready =
    (register_mission server (some "Bearer secret") (some (policy_of "a"))
      (record { db = empty; transfers = [] })).1

own_key : IsOwnKey server
own_key = record { hash_of_terms = λ t h. refl; signs = λ t. refl }

nothing_offered : IsNew server request "t9" ready
unfolding register_mission
nothing_offered = record { new_request = refl; new_id = refl }

-- The fee of 1.2 tinybar is rounded up.
abbrev quoted_offer : CreditOffer
quoted_offer = record {
  unsigned = record {
    id = "o";
    request_id = "r";
    lender_account_id = "0.0.9";
    principal_tinybar = pos 60;
    fee_tinybar = pos 2;
    term_seconds = 600;
    expires_at = "t9";
    terms_hash = "hash";
  };
  signature = "00";
}

offered : quote server (some request) "t9" ready ≡ (ok (some quoted_offer), quoted)
unfolding quote register_mission make_offer matching_policy evaluate_lender_policy
offered = refl

quote-IsSound_example :
    ((policy : MissionPolicy) × (get_mission_policy "a" ready.db ≡ (ok (some policy), ready.db))
      × (pos 60 ≤ℤ pos policy.spending_cap_tinybar))
    × IsSound server.verifier quoted_offer request "lender" "t1"
quote-IsSound_example =
    quote-IsSound server request "t9" quoted_offer "t1" ready quoted own_key nothing_offered refl
      offered
