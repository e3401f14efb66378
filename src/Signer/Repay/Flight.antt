-- ===== src/Signer/Repay/Flight.antt =====
-- What one call of the repayment service of services/restricted-signer/src/repay.ts sends to the ledger
-- while the transaction that is stored for its loan may still execute.
use koven.Prelude.{
  ◌+◌, ◌<◌, ◌≡◌, refl, ap, ◌∙◌, String, some, Bool, true, false, ◌∷◌, leb, arith, inl, inr, ◌⊎◌,
}
use koven.Domain.Credit.{Loan}
use koven.Exec.{Result, ok, err, continue}
use koven.Signer.Types.{StoredRepayment, RepaymentStatus, pending, confirmed}
use koven.Signer.Store.Repayment.{find_repayment}
use koven.Signer.Repay.Quiet.{
  Quiet, settle-Quiet, after_submission-Quiet, confirm_and_settle-Quiet, repay_funded-P, repay-P,
}
use koven.Signer.Repay.{
  Service, Answers, Formats, RepayRequest, SubmissionOutcome, repayment_failure_grace,
  after_submission, send, confirm_and_settle, on_unseen, unseen, on_error, caught, with_status,
  with_repayment, repay, is_unconfirmed,
}

-- Nothing has been built, and at most these bytes have been sent, once.
abbrev pub Once : {A : Type 0} → String → Service → Result A × Service → Type 0
Once b s r = (r.1.built ≡ s.built) × ((r.1.sent ≡ s.sent) ⊎ (r.1.sent ≡ b ∷ s.sent))

module _ (f : Formats) (account_id : String) (x : Answers) where
  send-Once :
      (l : Loan) (r : StoredRepayment) (s : Service)
      → Once r.transaction_base64 s (send f account_id x l r s)
  unfolding send
  send-Once l r s = go x.submission
    where
      t : Service
      t = record s { sent = r.transaction_base64 ∷ s.sent }

      go :
          (o : Result SubmissionOutcome)
          → Once r.transaction_base64 s (continue (after_submission f account_id x l r) (o, t))
      go (ok o) = let (u, v) = after_submission-Quiet f account_id x l r o t in (u, inr v)
      go (err e) = (refl, inr refl)

  -- A transaction that may execute is not replaced.
  module _ (l : Loan) (r : StoredRepayment)
      (alive : x.now < r.valid_until + repayment_failure_grace) where
    on_unseen-Once :
        (s : Service) (dead late : Bool)
        → dead ≡ false
        → Once r.transaction_base64 s (on_unseen f account_id x l r dead late s)
    unfolding on_unseen
    on_unseen-Once s true late e = cc
    on_unseen-Once s false true e = (refl, inl refl)
    on_unseen-Once s false false e = send-Once l r s

    unseen-Once : (s : Service) → Once r.transaction_base64 s (unseen f account_id x l r s)
    unfolding unseen
    unseen-Once s =
        on_unseen-Once s (leb (r.valid_until + repayment_failure_grace) x.now)
          (leb r.valid_until x.now) (ground arith)

    caught-Once :
        (s : Service) (c : Result String × Service)
        → Quiet s c
        → Once r.transaction_base64 s (caught f account_id x l r c)
    unfolding caught on_error
    caught-Once s (ok tx, t) (u, v) = (u, inl v)
    caught-Once s (err e, t) (u, v) = go (is_unconfirmed e)
      where
        after :
            (c : Result String × Service)
            → Once r.transaction_base64 t c
            → Once r.transaction_base64 s c
        after c (w, inl z) = (w ∙ u, inl (z ∙ v))
        after c (w, inr z) = (w ∙ u, inr (z ∙ ap (λ b. r.transaction_base64 ∷ b) v))

        go : (b : Bool) → Once r.transaction_base64 s (on_error f account_id x l r e b t)
        go true = after (unseen f account_id x l r t) (unseen-Once t)
        go false = (u, inl v)

    pending-Once :
        (s : Service)
        → r.status ≡ pending
        → Once r.transaction_base64 s (with_repayment f account_id x l (some r) s)
    unfolding with_repayment with_status
    pending-Once s e = go r.status e
      where
        go :
            (status : RepaymentStatus)
            → status ≡ pending
            → Once r.transaction_base64 s (with_status f account_id x l r status s)
        go pending e =
            caught-Once s (confirm_and_settle f account_id x l r s)
              (confirm_and_settle-Quiet f account_id x l r s)
        go confirmed e = cc
        go RepaymentStatus.failed e = cc

  confirmed-Quiet :
      (l : Loan) (r : StoredRepayment) (s : Service)
      → r.status ≡ confirmed
      → Quiet s (with_repayment f account_id x l (some r) s)
  unfolding with_repayment with_status
  confirmed-Quiet l r s e = go r.status e
    where
      go :
          (status : RepaymentStatus)
          → status ≡ confirmed
          → Quiet s (with_status f account_id x l r status s)
      go confirmed e = settle-Quiet f account_id x l r.transaction_id s
      go pending e = cc
      go RepaymentStatus.failed e = cc

  -- While the stored transaction of a loan is pending and its validity and the grace have not passed, a call builds no
  -- other transaction, and sends nothing or these same bytes, once, whatever the ledger answers.
  pub repay-in_flight :
      (q : RepayRequest) (s : Service) {r : StoredRepayment}
      → find_repayment q.loan_id s.store ≡ some r
      → r.status ≡ pending
      → x.now < r.valid_until + repayment_failure_grace
      → ((repay f account_id x q s).1.built ≡ s.built)
        × (((repay f account_id x q s).1.sent ≡ s.sent)
            ⊎ ((repay f account_id x q s).1.sent ≡ r.transaction_base64 ∷ s.sent))
  repay-in_flight q s {r} found e alive =
      repay-P f account_id x (Once r.transaction_base64 s) s (λ c k. (k.0, inl k.1)) q
        λ l same.
          repay_funded-P f account_id x (Once r.transaction_base64 s) s (λ c k. (k.0, inl k.1)) l
            (some r) (rw same found) (pending-Once l r alive s e)

  -- Once the repayment is confirmed, a call builds and sends nothing more.
  pub repay-confirmed :
      (q : RepayRequest) (s : Service) {r : StoredRepayment}
      → find_repayment q.loan_id s.store ≡ some r
      → r.status ≡ confirmed
      → ((repay f account_id x q s).1.built ≡ s.built)
        × ((repay f account_id x q s).1.sent ≡ s.sent)
  repay-confirmed q s {r} found e =
      repay-P f account_id x (Quiet s) s (λ c k. k) q
        λ l same.
          repay_funded-P f account_id x (Quiet s) s (λ c k. k) l (some r) (rw same found)
            (confirmed-Quiet l r s e)
