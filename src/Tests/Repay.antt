-- ===== src/Tests/Repay.antt =====
-- A repayment whose submission is uncertain, and one that is confirmed.
use koven.Prelude.{arith, ◌≡◌, refl, some, none, true, [], ◌∷◌, ◌⊎◌}
use koven.Domain.Credit.{funded}
use koven.Exec.{ok, err}
use koven.Persistence.Db.{LoanRow}
use koven.Persistence.Db
use koven.Signer.Types.{
  SignerDb, StoredRepayment, RepaymentStatus, pending, confirmed, StoredCompletion,
}
use koven.Signer.Types
use koven.Signer.Store.Loan.{get_loan}
use koven.Signer.Store.Completion.{get_completion}
use koven.Signer.Store.Repayment.{get_repayment, update_repayment}
use koven.Signer.Repay.{Service, Answers, Formats, RepayRequest, uncertain, repay, unconfirmed}
use koven.Signer.Repay.Flight.{repay-in_flight}

abbrev formats : Formats
formats = record {
  texts = record { is_sha256_hex = λ s. true; json_bytes = λ e. 200; parse_date = λ s. some 5 };
  payload_hash = λ loan_id tx. "ab";
  payload_json = λ loan_id tx. "{}";
  is_response = λ tx. true;
}

abbrev loan : LoanRow
loan = record {
  id = "loan-1";
  offer_id = "offer-1";
  mission_id = "m";
  lender_account_id = "0.0.9";
  principal = 60;
  fee = 3;
  state = funded;
  funding_tx_id = some "0.0.9@1.000000000";
  repayment_tx_id = none;
}

abbrev stored : RepaymentStatus → StoredRepayment
stored status = record {
  loan_id = "loan-1";
  transaction_id = "0.0.5@2.000000000";
  transaction_base64 = "AAAA";
  valid_until = 100;
  status = status;
  attempts = 1;
  last_error = none;
}

abbrev completion : StoredCompletion
completion = record {
  mission_id = "m";
  report_sha256 = "cd";
  settlement_tx_id = "0.0.5@1.500000000";
  accepted_at = "t2";
}

abbrev service : RepaymentStatus → Service
service status = record {
  store = record Types.empty {
    db = record Db.empty { loans = loan ∷ [] };
    completions = completion ∷ [];
    repayments = stored status ∷ [];
  };
  built = [];
  sent = [];
}

abbrev answers : Answers
answers = record {
  confirmation = err unconfirmed;
  preparation = err unconfirmed;
  submission = ok uncertain;
  now = 50;
  now_text = "2026-01-01T00:00:00Z";
  event_id = "event-1";
}

abbrev request : RepayRequest
request = record { mission_id = "m"; loan_id = "loan-1" }

-- The stored bytes go out again.
resent : (repay formats "0.0.5" answers request (service pending)).1.sent ≡ "AAAA" ∷ []
unfolding repay get_loan get_completion get_repayment update_repayment
resent = refl

repay-in_flight_example :
    let c = repay formats "0.0.5" answers request (service pending) in
    (c.1.built ≡ []) × ((c.1.sent ≡ []) ⊎ (c.1.sent ≡ "AAAA" ∷ []))
repay-in_flight_example =
    repay-in_flight formats "0.0.5" answers request (service pending) {r = stored pending} refl refl
      (omega arith)
