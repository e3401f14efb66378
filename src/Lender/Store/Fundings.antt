-- ===== src/Lender/Store/Fundings.antt =====
-- The fundings of agents/lenders/src/store.ts and their registrations. A funding is claimed by a token,
-- which alone may record a transaction.
pub mod History
pub mod Once
use koven.Prelude.{
  ℕ, suc, String, Option, none, some, Bool, true, false, not, List, ◌∷◌, ◌&&◌, ◌||◌, ◌==◌, eqb, leb,
  is_none, same_text, if◌then◌else◌,
}
use koven.Domain.Errors.{Error, ErrorCode, credit_protocol_error, unique_constraint, constraint}
use koven.Exec.{Exec, ok, err, pure, gets, throw, throw_if, modify, transaction, ◌>>=◌, ◌>>◌}
use koven.Sql.{select, exists, changes, update, has_key}
use koven.Lender.Store.{
  LenderDb, FundingRow, FundingStatus, reserved, preparing, pending, confirmed, RegistrationRow,
  LoanRegistration, SignedCreditAcceptance,
}

abbrev pub funding_key : FundingRow → String
funding_key r = r.id

abbrev pub funded_offer : FundingRow → String
funded_offer r = r.offer_id

abbrev pub find_funding : String → LenderDb → Option FundingRow
find_funding id s = select (has_key funding_key id) s.fundings

abbrev pub funding_of : String → LenderDb → Option FundingRow
funding_of offer_id s = select (has_key funded_offer offer_id) s.fundings

unfoldable pub get_funding_by_offer : String → Exec LenderDb (Option FundingRow)
get_funding_by_offer offer_id = gets (funding_of offer_id)

abbrev pub acceptance_conflict : Error
acceptance_conflict = credit_protocol_error ErrorCode.credit_acceptance_conflict

abbrev pub fresh_funding : String → String → String → SignedCreditAcceptance → ℕ → FundingRow
fresh_funding id offer_id hash signed now = record {
  id = id;
  offer_id = offer_id;
  acceptance_hash = hash;
  acceptance = signed;
  transaction_id = none;
  submission_token = none;
  status = reserved;
  updated_at = now;
}

-- The INSERT. Its error is thrown again, since there is no funding of the offer that would explain it.
unfoldable pub insert_funding : FundingRow → Exec LenderDb FundingRow
insert_funding row = do
  throw_if (← gets λ s. exists (has_key funding_key row.id) s.fundings) unique_constraint
  modify λ s. record s { fundings = row ∷ s.fundings }
  pure row

unfoldable pub reserve_beside : FundingRow → Option FundingRow → Exec LenderDb FundingRow
unfolding insert_funding
reserve_beside row none = insert_funding row
reserve_beside row (some existing) =
    if existing.acceptance_hash == row.acceptance_hash
    then pure existing
    else throw acceptance_conflict

-- `funding_id` is the id that is derived from the hash of the offer's.
unfoldable pub reserve_funding :
    (String → String) → String → String → SignedCreditAcceptance → ℕ → Exec LenderDb FundingRow
unfolding reserve_beside get_funding_by_offer
reserve_funding funding_id offer_id hash signed now = do
  existing ← get_funding_by_offer offer_id
  reserve_beside (fresh_funding (funding_id offer_id) offer_id hash signed now) existing

abbrev pub is_reserved : FundingStatus → Bool
is_reserved reserved = true
is_reserved _ = false

abbrev pub is_preparing : FundingStatus → Bool
is_preparing preparing = true
is_preparing _ = false

abbrev pub is_pending : FundingStatus → Bool
is_pending pending = true
is_pending _ = false

abbrev pub is_confirmed : FundingStatus → Bool
is_confirmed confirmed = true
is_confirmed _ = false

-- An update of fundings by id and a condition, and whether it changed one row.
abbrev pub update_funding :
    String → (FundingRow → Bool) → (FundingRow → FundingRow) → Exec LenderDb Bool
update_funding id q f s =
    let hit = λ (r : FundingRow). has_key funding_key id r && q r in
    (ok (eqb (changes hit s.fundings) 1), record s { fundings = update hit f s.fundings })

-- `transaction_id IS NULL AND (status = 'reserved' OR (status = 'preparing' AND updated_at <= ?))`
abbrev pub claimable : ℕ → FundingRow → Bool
claimable stale_before r =
    is_none r.transaction_id
    && (is_reserved r.status || (is_preparing r.status && leb r.updated_at stale_before))

unfoldable pub claim_funding_submission : String → String → ℕ → ℕ → Exec LenderDb Bool
claim_funding_submission id token now stale_before =
    update_funding id (claimable stale_before)
      (λ r. record r { status = preparing; submission_token = some token; updated_at = now })

abbrev pub releasable : String → FundingRow → Bool
releasable token r =
    is_preparing r.status && (is_none r.transaction_id && same_text r.submission_token (some token))

unfoldable pub release_funding_submission : String → String → ℕ → Exec LenderDb Bool
release_funding_submission id token now =
    update_funding id (releasable token)
      (λ r. record r { status = reserved; submission_token = none; updated_at = now })

abbrev pub funding_mismatch : Error
funding_mismatch = credit_protocol_error ErrorCode.funding_mismatch

-- Another funding has the transaction, which is unique, and the update would write it.
abbrev transaction_taken : String → (FundingRow → Bool) → String → LenderDb → Bool
transaction_taken id q tx s =
    exists (λ r. has_key funding_key id r && q r) s.fundings
    && exists (λ r. not (has_key funding_key id r) && same_text r.transaction_id (some tx))
        s.fundings

-- A write of the transaction's id, under a condition.
unfoldable pub write_transaction :
    String → (FundingRow → Bool) → (FundingRow → FundingRow) → String → Exec LenderDb (Unit {0})
write_transaction id q f tx = do
  throw_if (← gets (transaction_taken id q tx)) unique_constraint
  done ← update_funding id q f
  throw_if (not done) funding_mismatch

-- `status IN ('preparing', 'pending') AND submission_token = ?`
abbrev pub in_submission : String → FundingRow → Bool
in_submission token r =
    (is_preparing r.status || is_pending r.status) && same_text r.submission_token (some token)

abbrev pub settable : String → String → FundingRow → Bool
settable token tx r =
    in_submission token r && (is_none r.transaction_id || same_text r.transaction_id (some tx))

unfoldable pub set_funding_transaction : String → String → String → ℕ → Exec LenderDb (Unit {0})
unfolding write_transaction
set_funding_transaction id token tx now =
    write_transaction id (settable token tx)
      (λ r. record r { transaction_id = some tx; status = pending; updated_at = now }) tx

abbrev pub replaceable : String → String → FundingRow → Bool
replaceable token expected r = in_submission token r && same_text r.transaction_id (some expected)

unfoldable pub replace_funding_transaction :
    String → String → String → String → ℕ → Exec LenderDb (Unit {0})
unfolding write_transaction
replace_funding_transaction id token expected tx now =
    write_transaction id (replaceable token expected)
      (λ r. record r { transaction_id = some tx; updated_at = now }) tx

abbrev pub confirmable : String → FundingRow → Bool
confirmable tx r =
    same_text r.transaction_id (some tx) && (is_pending r.status || is_confirmed r.status)

unfoldable pub mark_funding_confirmed : String → String → ℕ → Exec LenderDb (Unit {0})
mark_funding_confirmed id tx now = do
  done ← update_funding id (confirmable tx) (λ r. record r { status = confirmed; updated_at = now })
  throw_if (not done) funding_mismatch

abbrev pub registration_key : RegistrationRow → String
registration_key r = r.funding_id

-- `INSERT OR IGNORE`, which does not ignore a foreign key.
unfoldable pub enqueue_registration : String → LoanRegistration → Exec LenderDb (Unit {0})
enqueue_registration id payload s =
    if exists (has_key registration_key id) s.registrations
    then (ok tt, s)
    else (if exists (has_key funding_key id) s.fundings
        then (
          ok tt,
          record s {
            registrations =
                (record { funding_id = id; payload = payload; attempts = 0; is_delivered = false })
                ∷ s.registrations;
          },
        )
        else (err constraint, s))

abbrev pub undelivered : String → RegistrationRow → Bool
undelivered id r = has_key registration_key id r && not r.is_delivered

abbrev payload_in : Option RegistrationRow → Option LoanRegistration
payload_in none = none
payload_in (some r) = some r.payload

unfoldable pub pending_registration : String → Exec LenderDb (Option LoanRegistration)
pending_registration id = gets λ s. payload_in (select (undelivered id) s.registrations)

-- The message of the failure is a column that no code reads.
unfoldable pub record_registration_failure : String → Exec LenderDb (Unit {0})
record_registration_failure id = modify λ s. record s {
  registrations =
      update (undelivered id) (λ r. record r { attempts = suc r.attempts }) s.registrations;
}

unfoldable pub mark_registered : String → ℕ → Exec LenderDb (Unit {0})
unfolding transaction
mark_registered id now = transaction do
  modify λ s. record s {
    registrations =
        update (undelivered id) (λ r. record r { attempts = suc r.attempts; is_delivered = true })
          s.registrations;
  }
  modify λ s. record s {
    fundings =
        update (has_key funding_key id)
          (λ r. record r { status = FundingStatus.registered; updated_at = now }) s.fundings;
  }
