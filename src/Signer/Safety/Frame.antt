-- ===== src/Signer/Safety/Frame.antt =====
-- The calls of the store that leave policies, budgets and authorizations alone.
use koven.Prelude.{◌≡◌, String, Option, arith}
use koven.Domain.Credit.{Loan, UnsignedCreditRequest, CreditAcceptance, CreditOffer}
use koven.Signer.Types.{SignerDb, StoredCompletion, RepaymentStatus}
use koven.Signer.Store.Credit.{save_credit_request, save_acceptance}
use koven.Signer.Store.Loan.{register_funded_loan, mark_loan_repaid}
use koven.Signer.Store.Completion.{record_completion}
use koven.Signer.Store.Repayment.{PreparedRepayment, save_repayment, update_repayment}

pub record Frame (s s' : SignerDb) : Type 0 where
  pub missions : s'.db.missions ≡ s.db.missions
  pub sessions : s'.db.sessions ≡ s.db.sessions
  pub nonces : s'.db.nonces ≡ s.db.nonces
  pub policies : s'.policies ≡ s.policies
  pub authorizations : s'.authorizations ≡ s.authorizations

pub save_credit_request-Frame :
    (hash : UnsignedCreditRequest → String) (r : UnsignedCreditRequest) (sig : String)
    (s : SignerDb)
    → Frame s (save_credit_request hash r sig s).1
unfolding save_credit_request
save_credit_request-Frame hash r sig s = ground arith

pub save_acceptance-Frame :
    (hash : CreditAcceptance → String) (o : CreditOffer) (a : CreditAcceptance) (sig : String)
    (s : SignerDb)
    → Frame s (save_acceptance hash o a sig s).1
unfolding save_acceptance
save_acceptance-Frame hash o a sig s = ground arith

pub record_completion-Frame :
    (c : StoredCompletion) (key request_hash : String) (s : SignerDb)
    → Frame s (record_completion c key request_hash s).1
unfolding record_completion
record_completion-Frame c key request_hash s = ground arith

pub save_repayment-Frame :
    (loan_id : String) (p : PreparedRepayment) (s : SignerDb)
    → Frame s (save_repayment loan_id p s).1
unfolding save_repayment
save_repayment-Frame loan_id p s = ground arith

pub update_repayment-Frame :
    (loan_id : String) (status : RepaymentStatus) (detail : Option String) (s : SignerDb)
    → Frame s (update_repayment loan_id status detail s).1
unfolding update_repayment
update_repayment-Frame loan_id status detail s = ground arith

pub mark_loan_repaid-Frame :
    (loan_id tx : String) (s : SignerDb) → Frame s (mark_loan_repaid loan_id tx s).1
unfolding mark_loan_repaid
mark_loan_repaid-Frame loan_id tx s = ground arith

pub register_funded_loan-Frame :
    (l : Loan) (tx : String) (s : SignerDb) → Frame s (register_funded_loan l tx s).1
unfolding register_funded_loan
register_funded_loan-Frame l tx s = ground arith
