-- ===== src/Signer/Store/Loan.antt =====
-- Loans in services/restricted-signer/src/store.ts.
use koven.Prelude.{
  String, Option, none, some, Bool, true, false, not, ◌==◌, ◌&&◌, eqb_ℤ, same_text, if◌then◌else◌,
}
use koven.Domain.Credit.{Loan, funded, repaid, same_loan_state}
use koven.Domain.Errors.{Error, ErrorCode, signer_error}
use koven.Exec.{Exec, ok, err, pure, throw_if, transaction, ◌>>=◌, ◌>>◌}
use koven.Sql.{select}
use koven.Persistence.Db.{LoanRow}
use koven.Persistence.Loans
use koven.Persistence.Loans.{create_loan, update_loan_state}
use koven.Signer.Types.{SignerDb, on_db}
use koven.Signer.Store.Codes.{with_codes}

unfoldable pub get_loan : String → Exec SignerDb (Option Loan)
unfolding Loans.get_loan
get_loan id = on_db (Loans.get_loan id)

abbrev pub has_funding : String → LoanRow → Bool
has_funding tx r = same_text r.funding_tx_id (some tx)

abbrev pub of_mission : String → LoanRow → Bool
of_mission id r = r.mission_id == id

-- `getLoanByFundingTransaction`, `getLoanByMission`: the first row, read again by its key.
find_by : (LoanRow → Bool) → Exec SignerDb (Option Loan)
unfolding get_loan
find_by p s = elim (select p s.db.loans) [ none ↦ (ok none, s) | some r ↦ get_loan r.id s ]

unfoldable pub get_loan_by_funding_transaction : String → Exec SignerDb (Option Loan)
unfolding find_by
get_loan_by_funding_transaction tx = find_by (has_funding tx)

unfoldable pub get_loan_by_mission : String → Exec SignerDb (Option Loan)
unfolding find_by
get_loan_by_mission mission_id = find_by (of_mission mission_id)

-- `terms(a) === terms(b)`; the state and the repayment are no terms.
abbrev pub same_terms : Loan → Loan → Bool
same_terms a b =
    a.id == b.id
    && (a.offer_id == b.offer_id
        && (a.mission_id == b.mission_id
            && (a.lender_account_id == b.lender_account_id
                && (eqb_ℤ a.principal_tinybar b.principal_tinybar
                    && (eqb_ℤ a.fee_tinybar b.fee_tinybar
                        && same_text a.funding_tx_id b.funding_tx_id)))))

abbrev pub is_some : {A : Type 0} → Option A → Bool
is_some none = false
is_some (some a) = true

registration_conflict : Error
registration_conflict = signer_error ErrorCode.loan_registration_conflict

insert_loan : Loan → String → Exec SignerDb Loan
unfolding registration_conflict create_loan get_loan_by_funding_transaction get_loan_by_mission
insert_loan loan funding_tx_id = do
  throw_if (is_some (← get_loan_by_funding_transaction funding_tx_id)) registration_conflict
  throw_if (is_some (← get_loan_by_mission loan.mission_id)) registration_conflict
  on_db (create_loan loan)
  pure loan

register_existing : Loan → String → Option Loan → Exec SignerDb Loan
unfolding insert_loan registration_conflict
register_existing loan funding_tx_id (some existing) s =
    (if same_terms existing loan then ok existing else err registration_conflict, s)
register_existing loan funding_tx_id none s = insert_loan loan funding_tx_id s

-- `loan: Loan & { fundingTxId: string }`
unfoldable pub register_funded_loan : Loan → String → Exec SignerDb Loan
unfolding register_existing with_codes transaction get_loan
register_funded_loan loan funding_tx_id =
    let l = record loan { funding_tx_id = some funding_tx_id } in
    with_codes (transaction do existing ← get_loan l.id; register_existing l funding_tx_id existing)

repaid_by : String → Option Loan → Bool
repaid_by tx none = false
repaid_by tx (some l) = same_loan_state l.state repaid && same_text l.repayment_tx_id (some tx)

check_repaid : String → String → Bool → Exec SignerDb (Unit {0})
unfolding repaid_by get_loan
check_repaid loan_id tx true = pure tt
check_repaid loan_id tx false = do
  current ← get_loan loan_id
  throw_if (not (repaid_by tx current)) (signer_error ErrorCode.internal_error)

unfoldable pub mark_loan_repaid : String → String → Exec SignerDb (Unit {0})
unfolding check_repaid update_loan_state
mark_loan_repaid loan_id repayment_tx_id = do
  updated ← on_db (update_loan_state loan_id funded repaid none (some repayment_tx_id))
  check_repaid loan_id repayment_tx_id updated
