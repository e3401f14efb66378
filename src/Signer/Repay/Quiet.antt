-- ===== src/Signer/Repay/Quiet.antt =====
-- The parts of a call of services/restricted-signer/src/repay.ts that build and send nothing.
use koven.Prelude.{
  ◌≡◌, refl, sym, subst, String, Option, none, some, not, ◌==◌, arith, Bool-cases, Option-cases,
  inl, inr,
}
use koven.Domain.Credit.{Loan, funded, repaid, same_loan_state}
use koven.Exec.{Exec, Result, ok, err, continue, ◌>>=◌, ◌>>◌, or_throw, throw_if}
use koven.Domain.Errors.{ErrorCode, signer_error}
use koven.Sql.{select, has_key}
use koven.Sql.Laws.{select-key}
use koven.Persistence.Loans.{find_loan, loan_key}
use koven.Signer.Types.{StoredRepayment, SignerDb}
use koven.Signer.Store.Loan.{get_loan}
use koven.Signer.Store.Completion.{get_completion, completion_key}
use koven.Signer.Store.Repayment.{find_repayment, get_repayment}
use koven.Signer.Repay.{
  Service, Answers, Formats, RepayRequest, SubmissionOutcome, success, uncertain, put_store, emit,
  respond, settle, after_submission, confirm_and_settle, with_repayment, repay_funded, repay_loan,
  repay,
}

-- Nothing has been built or sent.
abbrev pub Quiet : {A : Type 0} → Service → Result A × Service → Type 0
Quiet s r = (r.1.built ≡ s.built) × (r.1.sent ≡ s.sent)

module _ (f : Formats) (account_id : String) (x : Answers) where
  pub settle-Quiet : (l : Loan) (tx : String) (s : Service) → Quiet s (settle f account_id x l tx s)
  unfolding settle emit respond
  settle-Quiet l tx s = (ground arith, ground arith)

  pub after_submission-Quiet :
      (l : Loan) (r : StoredRepayment) (o : SubmissionOutcome) (s : Service)
      → Quiet s (after_submission f account_id x l r o s)
  unfolding after_submission
  after_submission-Quiet l r success s = settle-Quiet l r.transaction_id s
  after_submission-Quiet l r SubmissionOutcome.failed s = (ground arith, ground arith)
  after_submission-Quiet l r uncertain s = (ground arith, ground arith)

  pub confirm_and_settle-Quiet :
      (l : Loan) (r : StoredRepayment) (s : Service)
      → Quiet s (confirm_and_settle f account_id x l r s)
  unfolding confirm_and_settle
  confirm_and_settle-Quiet l r s = go x.confirmation
    where
      go :
          (o : Result (Unit {0}))
          → Quiet s (continue (λ u. settle f account_id x l r.transaction_id) (o, s))
      go (ok u) = settle-Quiet l r.transaction_id s
      go (err e) = (refl, refl)

  -- The loan that is found, with the state as it was.
  get_loan-found :
      (id : String) (t t' : SignerDb) {l : Loan}
      → get_loan id t ≡ (ok (some l), t')
      → (l.id ≡ id) × (t' ≡ t)
  unfolding get_loan
  get_loan-found id t t' h = elim (Option-cases (find_loan id t.db)) [
    | inl e ↦ cc (rw e at h)
    | inr (row, e) ↦
        let same = select-key loan_key id t.db.loans e in
        (ground (arith, same, rw e at h), ground (arith, rw e at h))
  ]

  -- What holds of a call that has built and sent nothing, and of what follows the lookups, holds of a call.
  module _ {κ} (P : Result String × Service → Type κ) (s : Service)
      (quiet : (c : Result String × Service) → Quiet s c → P c) where
    pub repay_funded-P :
        (l : Loan) (o : Option StoredRepayment)
        → find_repayment l.id s.store ≡ o
        → P (with_repayment f account_id x l o s)
        → P (repay_funded f account_id x l s)
    unfolding repay_funded get_completion get_repayment
    repay_funded-P l o found h = elim (Bool-cases (same_loan_state l.state funded)) [
      | inr t ↦ rw t (quiet _ (refl, refl))
      | inl t ↦
          elim (Option-cases (select (has_key completion_key l.mission_id) s.store.completions)) [
            | inl u ↦ rw (t, u) (quiet _ (refl, refl))
            | inr (c, u) ↦ rw (t, u, found) h
          ]
    ]

    repay_loan-P :
        (l : Loan) (o : Option String)
        → P (repay_funded f account_id x l s)
        → P (repay_loan f account_id x l o s)
    unfolding repay_loan emit respond
    repay_loan-P l none h = h
    repay_loan-P l (some tx) h = elim (Bool-cases (same_loan_state l.state repaid)) [
      | inl t ↦ rw t (quiet _ (ground arith, ground arith))
      | inr t ↦ rw t h
    ]

    pub repay-P :
        (q : RepayRequest)
        → ((l : Loan) → l.id ≡ q.loan_id → P (repay_funded f account_id x l s))
        → P (repay f account_id x q s)
    unfolding repay
    repay-P q h = go (get_loan q.loan_id s.store) refl
      where
        body : Option Loan → Exec Service String
        body found = do
          l ← or_throw found (signer_error ErrorCode.not_found)
          throw_if (not (l.mission_id == q.mission_id)) (signer_error ErrorCode.request_invalid)
          repay_loan f account_id x l l.repayment_tx_id

        checked : (l : Loan) → l.id ≡ q.loan_id → P (body (some l) s)
        checked l same = elim (Bool-cases (l.mission_id == q.mission_id)) [
          | inl t ↦ rw t (repay_loan-P l l.repayment_tx_id (h l same))
          | inr t ↦ rw t (quiet _ (refl, refl))
        ]

        go :
            (c : Result (Option Loan) × SignerDb)
            → get_loan q.loan_id s.store ≡ c
            → P (continue body (put_store s c))
        go (err e, t) k = quiet _ (refl, refl)
        go (ok none, t) k = quiet _ (refl, refl)
        go (ok (some l), t) k =
            let (same, eq) = get_loan-found q.loan_id s.store t {l = l} k in
            subst (λ (t : SignerDb). P (body (some l) (record s { store = t }))) (sym eq)
              (checked l same)
