-- ===== src/Signer/Credit/Funded.antt =====
-- What services/restricted-signer/src/credit.ts registers as a funded loan.
use koven.Prelude.{◌≡◌, refl, subst, String, some, not, arith, eq_iff, Option-cases, inl, inr}
use koven.Domain.Errors.{zod_error}
use koven.Domain.Credit.{Loan}
use koven.Exec.{Exec, Result, ok, err, pure, lift, throw_if, ◌>>=◌, ◌>>◌}
use koven.Exec.Laws.{>>=-eq-ok}
use koven.Sql.{select, has_key}
use koven.Signer.Types.{StoredCreditRequest, StoredAcceptance, SignerDb}
use koven.Signer.Complete.{TransferExpectation}
use koven.Signer.Store.Credit.{request_key, acceptance_key, get_credit_request, get_acceptance}
use koven.Signer.Store.Loan.{register_funded_loan}
use koven.Signer.Credit.{RegistrationRequest, CreditService}
use koven.Signer.Credit.Registration.{check_documents, funding_expectation, loan_of, register_loan}

module _ {Key : Type 0} (c : CreditService Key) (lender : String) (body : RegistrationRequest) where
  -- The documents are those that the signer has stored, and are of this lender.
  pub record IsOnRecord (s : SignerDb) : Type 0 where
    pub request : StoredCreditRequest
    pub acceptance : StoredAcceptance
    pub request_found : get_credit_request body.request.id s ≡ (ok (some request), s)
    pub acceptance_found : get_acceptance body.acceptance.mission_id s ≡ (ok (some acceptance), s)
    pub same_request : c.request_json body.request.unsigned ≡ c.request_json request.request
    pub same_acceptance :
        c.acceptance_json body.acceptance ≡ c.acceptance_json acceptance.acceptance
    pub same_offer : c.offer_json body.offer ≡ c.offer_json acceptance.offer
    pub own_signature : body.acceptance_signature ≡ acceptance.signature
    pub of_lender : body.offer.lender_account_id ≡ lender
    pub of_request : body.offer.request_id ≡ body.request.id
    pub of_offer : body.acceptance.offer_id ≡ body.offer.id

  check_documents-IsOnRecord :
      (s s' : SignerDb) → check_documents c lender body s ≡ (ok tt, s') → (s' ≡ s) × IsOnRecord s
  unfolding check_documents get_credit_request get_acceptance
  check_documents-IsOnRecord s s' h =
      elim (Option-cases (select (has_key request_key body.request.id) s.credit_requests)) [
        | inl missing ↦ absurd (ground arith)
        | inr (request, found) ↦
            elim (Option-cases
              (select (has_key acceptance_key body.acceptance.mission_id) s.acceptances)) [
                | inl missing ↦ absurd (ground arith)
                | inr (acceptance, stored) ↦ (
                  ground arith,
                  record {
                    request = request;
                    acceptance = acceptance;
                    request_found = ground arith;
                    acceptance_found = ground arith;
                    same_request = ground (
                      arith,
                      eq_iff (c.request_json body.request.unsigned)
                          (c.request_json request.request),
                    );
                    same_acceptance = ground (
                      arith,
                      eq_iff (c.acceptance_json body.acceptance)
                          (c.acceptance_json acceptance.acceptance),
                    );
                    same_offer =
                        ground
                          (arith, eq_iff (c.offer_json body.offer) (c.offer_json acceptance.offer));
                    own_signature =
                        ground (arith, eq_iff body.acceptance_signature acceptance.signature);
                    of_lender = ground (arith, eq_iff body.offer.lender_account_id lender);
                    of_request = ground (arith, eq_iff body.offer.request_id body.request.id);
                    of_offer = ground (arith, eq_iff body.acceptance.offer_id body.offer.id);
                  },
                )
              ]
      ]

  abbrev after_documents :
      (TransferExpectation → Result (Unit {0})) → Unit {0} → Exec SignerDb String
  after_documents confirm u = do
    confirmed ← lift (confirm (funding_expectation c lender body))
    loan ← register_funded_loan (loan_of c lender body) body.funding_tx_id
    throw_if (not (c.is_loan_id loan.id)) zod_error
    pure loan.id

  after_documents-ok :
      (confirm : TransferExpectation → Result (Unit {0})) (id : String) (s s' : SignerDb)
      → after_documents confirm tt s ≡ (ok id, s')
      → (confirm (funding_expectation c lender body) ≡ ok tt)
        × ((loan : Loan) × (register_funded_loan (loan_of c lender body) body.funding_tx_id s
              ≡ (ok loan, s')))
  after_documents-ok confirm id s s' h =
      registered (register_funded_loan (loan_of c lender body) body.funding_tx_id s) refl
    where
      registered :
          (o : Result Loan × SignerDb)
          → register_funded_loan (loan_of c lender body) body.funding_tx_id s ≡ o
          → (confirm (funding_expectation c lender body) ≡ ok tt)
            × ((loan : Loan) × (register_funded_loan (loan_of c lender body) body.funding_tx_id s
                  ≡ (ok loan, s')))
      registered (ok loan, t) e = (ground arith, (loan, ground arith))
      registered (err x, t) e = absurd (ground arith)

  -- A loan is registered only for the lender who is authenticated, when its request, acceptance and offer have the canonical
  -- form of those that the signer has stored, and after the ledger has confirmed the transfer of the principal from that lender
  -- to the borrower; what is stored then is the loan of these documents with that transaction.
  pub register_loan-IsOnRecord :
      (confirm : TransferExpectation → Result (Unit {0})) (id : String) (s s' : SignerDb)
      → register_loan c confirm lender body s ≡ (ok id, s')
      → IsOnRecord s
        × (confirm (funding_expectation c lender body) ≡ ok tt)
        × ((loan : Loan) × (register_funded_loan (loan_of c lender body) body.funding_tx_id s
              ≡ (ok loan, s')))
  unfolding register_loan
  register_loan-IsOnRecord confirm id s s' h =
      let (u, t, e, rest) =
        >>=-eq-ok (check_documents c lender body) (after_documents confirm) s h in
      let (kept, on_record) = check_documents-IsOnRecord s t e in
      let (confirmed, registered) =
        after_documents-ok confirm id s s'
          (subst (λ v. after_documents confirm tt v ≡ (ok id, s')) kept rest) in
      (on_record, confirmed, registered)
