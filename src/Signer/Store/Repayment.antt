-- ===== src/Signer/Store/Repayment.antt =====
-- Repayments in services/restricted-signer/src/store.ts: the signed transaction of a loan, stored
-- before it is submitted.
use koven.Prelude.{
  ℕ, ◌+◌, String, Option, none, Bool, true, false, not, ◌∷◌, ◌==◌, ◌&&◌, if◌then◌else◌,
}
use koven.Domain.Errors.{unique_constraint}
use koven.Exec.{Exec, gets, throw_if, modify, ◌>>=◌, ◌>>◌}
use koven.Sql.{select, exists, has_key, update}
use koven.Signer.Types.{StoredRepayment, RepaymentStatus, pending, confirmed, failed, SignerDb}

-- `PreparedRepayment`
pub record PreparedRepayment : Type 0 where
  pub transaction_id : String
  pub transaction_base64 : String
  pub valid_until : ℕ

abbrev pub repayment_key : StoredRepayment → String
repayment_key r = r.loan_id

abbrev pub find_repayment : String → SignerDb → Option StoredRepayment
find_repayment loan_id s = select (has_key repayment_key loan_id) s.repayments

unfoldable pub get_repayment : String → Exec SignerDb (Option StoredRepayment)
get_repayment loan_id = gets (find_repayment loan_id)

abbrev pub is_failed : RepaymentStatus → Bool
is_failed failed = true
is_failed pending = false
is_failed confirmed = false

-- The row of a prepared transaction.
abbrev pub fresh_repayment : String → PreparedRepayment → StoredRepayment
fresh_repayment loan_id p = record {
  loan_id = loan_id;
  transaction_id = p.transaction_id;
  transaction_base64 = p.transaction_base64;
  valid_until = p.valid_until;
  status = pending;
  attempts = 0;
  last_error = none;
}

-- Another loan's row holds the transaction's id already.
abbrev taken : String → PreparedRepayment → StoredRepayment → Bool
taken loan_id p r = not (r.loan_id == loan_id) && r.transaction_id == p.transaction_id

-- The loan's row is not failed, so that the upsert does nothing.
abbrev is_kept : String → StoredRepayment → Bool
is_kept loan_id r = has_key repayment_key loan_id r && not (is_failed r.status)

-- `INSERT ... ON CONFLICT(loan_id) DO UPDATE ... WHERE status = 'failed'`
unfoldable pub save_repayment : String → PreparedRepayment → Exec SignerDb (Unit {0})
save_repayment loan_id p = do
  throw_if
      (← gets
        λ s. exists (taken loan_id p) s.repayments && not (exists (is_kept loan_id) s.repayments))
      unique_constraint
  modify λ s. record s {
    repayments =
        if exists (has_key repayment_key loan_id) s.repayments
        then update (λ r. has_key repayment_key loan_id r && is_failed r.status)
            (λ r. fresh_repayment r.loan_id p) s.repayments
        else fresh_repayment loan_id p ∷ s.repayments;
  }

unfoldable pub update_repayment :
    String → RepaymentStatus → Option String → Exec SignerDb (Unit {0})
update_repayment loan_id status detail = modify λ s. record s {
  repayments =
      update (has_key repayment_key loan_id)
        (λ r. record r { status = status; attempts = r.attempts + 1; last_error = detail })
        s.repayments;
}
