-- ===== src/Persistence/Loans.antt =====
-- packages/persistence/src/loans.ts.
use koven.Prelude.{
  String, Option, none, some, Bool, true, false, not, ltb, ◌==◌, ◌&&◌, ◌||◌, ◌∷◌, eqb, is_none,
  same_text, coalesce, if◌then◌else◌,
}
use koven.Domain.Credit.{Loan, LoanState, same_loan_state}
use koven.Domain.Errors.{
  Error, persistence_conflict, constraint, PersistenceConflict, repayment_transaction_conflict,
}
use koven.Exec.{Exec, Result, ok, err, pure, gets, lift, throw_if, modify, ◌>>=◌, ◌>>◌}
use koven.Sql.{select, exists, changes, update, has_key}
use koven.Persistence.Db.{Db, LoanRow, tinybar_to_text, tinybar_from_text}
use koven.Persistence.Missions.{mission_key, on_row}

abbrev pub loan_key : LoanRow → String
loan_key r = r.id

abbrev pub find_loan : String → Db → Option LoanRow
find_loan id db = select (has_key loan_key id) db.loans

abbrev pub loan_conflict : Error
loan_conflict = persistence_conflict PersistenceConflict.loan_registration_conflict

unfoldable pub create_loan : Loan → Exec Db (Unit {0})
create_loan l = do
  principal ← lift (tinybar_to_text l.principal_tinybar)
  fee ← lift (tinybar_to_text l.fee_tinybar)
  throw_if (← gets λ db. exists (has_key loan_key l.id) db.loans) loan_conflict
  throw_if (← gets λ db. not (exists (has_key mission_key l.mission_id) db.missions)) constraint
  modify λ db. record db {
    loans =
        (record {
          id = l.id;
          offer_id = l.offer_id;
          mission_id = l.mission_id;
          lender_account_id = l.lender_account_id;
          principal = principal;
          fee = fee;
          state = l.state;
          funding_tx_id = l.funding_tx_id;
          repayment_tx_id = l.repayment_tx_id;
        })
        ∷ db.loans;
  }

loan_of_row : LoanRow → Exec Db (Option Loan)
loan_of_row row = do
  principal ← lift (tinybar_from_text row.principal)
  fee ← lift (tinybar_from_text row.fee)
  pure (
      some (record {
        id = row.id;
        offer_id = row.offer_id;
        mission_id = row.mission_id;
        lender_account_id = row.lender_account_id;
        principal_tinybar = principal;
        fee_tinybar = fee;
        state = row.state;
        funding_tx_id = row.funding_tx_id;
        repayment_tx_id = row.repayment_tx_id;
      }))

unfoldable pub get_loan : String → Exec Db (Option Loan)
unfolding loan_of_row
get_loan id = do row ← gets (find_loan id); on_row loan_of_row row

-- `@id IS NULL OR column IS NULL OR column = @id`
abbrev fits : Option String → Option String → Bool
fits given column = is_none given || is_none column || same_text given column

-- The `WHERE` of `updateLoanState` behind `id = @id`.
abbrev pub may_update : LoanState → Option String → Option String → LoanRow → Bool
may_update from funding repayment r =
    same_loan_state r.state from && fits funding r.funding_tx_id && fits repayment r.repayment_tx_id

abbrev pub set_loan : LoanState → Option String → Option String → LoanRow → LoanRow
set_loan to funding repayment r = record r {
  state = to;
  funding_tx_id = coalesce funding r.funding_tx_id;
  repayment_tx_id = coalesce repayment r.repayment_tx_id;
}

-- Why the update changed no row.
refused_update : Option LoanRow → LoanState → Option String → Option String → Result Bool
refused_update none from funding repayment = ok false
refused_update (some r) from funding repayment =
    if not (same_loan_state r.state from)
    then ok false
    else (if not (fits funding r.funding_tx_id)
        then err loan_conflict
        else (if not (fits repayment r.repayment_tx_id)
            then err (persistence_conflict repayment_transaction_conflict)
            else ok false))

unfoldable pub update_loan_state :
    String → LoanState → LoanState → Option String → Option String → Exec Db Bool
unfolding refused_update
update_loan_state id from to funding repayment db =
    let hit = λ (r : LoanRow). has_key loan_key id r && may_update from funding repayment r in
    let db' = record db { loans = update hit (set_loan to funding repayment) db.loans } in
    if eqb (changes hit db.loans) 1
    then (ok true, db')
    else (refused_update (find_loan id db') from funding repayment, db')

abbrev for_mission : String → LoanRow → Bool
for_mission id r = r.mission_id == id

unfoldable first_loan : Option LoanRow → Exec Db (Option Loan)
unfolding get_loan
first_loan none = pure none
first_loan (some row) = get_loan row.id

-- `getLoanByMission`: the row of the one loan.
unfoldable pub loan_of_mission : String → Exec Db (Option Loan)
unfolding first_loan
loan_of_mission id = do
  throw_if (ltb 1 (← gets λ db. changes (for_mission id) db.loans)) loan_conflict
  row ← gets λ db. select (for_mission id) db.loans
  first_loan row
