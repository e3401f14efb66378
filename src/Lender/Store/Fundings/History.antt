-- ===== src/Lender/Store/Fundings/History.antt =====
-- Histories of the fundings of agents/lenders/src/store.ts, by any number of concurrent callers.
use koven.Prelude.{
  ℕ, ◌≡◌, refl, sym, subst, String, Option, none, some, Bool, true, false, List, [], ◌∷◌, ◌&&◌,
  ◌==◌, is_none, arith, Bool-cases, Option-cases, inl, inr,
}
use koven.Sql.{select, update, has_key}
use koven.Lender.Store.{LenderDb, FundingRow, SignedCreditAcceptance, LoanRegistration}
use koven.Lender.Store.Fundings.{
  funding_key, find_funding, funding_of, reserve_funding, claim_funding_submission,
  release_funding_submission, set_funding_transaction, replace_funding_transaction,
  mark_funding_confirmed, enqueue_registration, record_registration_failure, mark_registered,
  write_transaction, transaction_taken, settable, replaceable, get_funding_by_offer, reserve_beside,
  insert_funding, fresh_funding,
}

-- A call that writes to the tables of fundings.
pub data Call : Type 0 where
  reserve : (String → String) → String → String → SignedCreditAcceptance → ℕ → Call
  claim : String → String → ℕ → ℕ → Call
  release : String → String → ℕ → Call
  set : String → String → String → ℕ → Call
  replace : String → String → String → String → ℕ → Call
  confirm : String → String → ℕ → Call
  enqueue : String → LoanRegistration → Call
  fail : String → Call
  register : String → ℕ → Call

unfoldable pub step : Call → LenderDb → LenderDb
step (reserve funding_id offer hash signed now) s =
    (reserve_funding funding_id offer hash signed now s).1
step (claim id token now stale) s = (claim_funding_submission id token now stale s).1
step (release id token now) s = (release_funding_submission id token now s).1
step (set id token tx now) s = (set_funding_transaction id token tx now s).1
step (replace id token old tx now) s = (replace_funding_transaction id token old tx now s).1
step (confirm id tx now) s = (mark_funding_confirmed id tx now s).1
step (enqueue id payload) s = (enqueue_registration id payload s).1
step (fail id) s = (record_registration_failure id s).1
step (register id now) s = (mark_registered id now s).1

unfoldable pub run : List Call → LenderDb → LenderDb
run [] s = s
run (c ∷ cs) s = run cs (step c s)

-- The registration leaves the fundings.
enqueue_registration-fundings :
    (id : String) (payload : LoanRegistration) (s : LenderDb)
    → (enqueue_registration id payload s).1.fundings ≡ s.fundings
unfolding enqueue_registration
enqueue_registration-fundings id payload s = ground arith

-- What holds of the fundings as they are and after every kind of statement holds after a call.
module _ {κ} (P : List FundingRow → Type κ)
    (inserted : (row : FundingRow) (rs : List FundingRow)
      → select (has_key funding_key row.id) rs ≡ none
      → P rs
      → P (row ∷ rs))
    (updated : (p : FundingRow → Bool) (f : FundingRow → FundingRow) (rs : List FundingRow)
      → ((r : FundingRow) → (f r).id ≡ r.id)
      → ((r : FundingRow) (t : String)
          → p r ≡ true
          → r.submission_token ≡ some t
          → is_none r.transaction_id ≡ false
          → ((f r).submission_token ≡ some t) × (is_none (f r).transaction_id ≡ false))
      → P rs
      → P (update p f rs)) where
  insert_funding-P :
      (row : FundingRow) (s : LenderDb) → P s.fundings → P (insert_funding row s).1.fundings
  unfolding insert_funding
  insert_funding-P row s h = elim (Option-cases (find_funding row.id s)) [
    | inl e ↦ rw e (inserted row s.fundings e h)
    | inr (r, e) ↦ rw e h
  ]

  reserve_beside-P :
      (row : FundingRow) (o : Option FundingRow) (s : LenderDb)
      → P s.fundings
      → P (reserve_beside row o s).1.fundings
  unfolding reserve_beside
  reserve_beside-P row none s h = insert_funding-P row s h
  reserve_beside-P row (some r) s h = elim (Bool-cases (r.acceptance_hash == row.acceptance_hash)) [
    | inl t ↦ rw t h
    | inr t ↦ rw t h
  ]

  write_transaction-P :
      (id : String) (q : FundingRow → Bool) (f : FundingRow → FundingRow) (tx : String)
      (s : LenderDb)
      → P (update (λ r. has_key funding_key id r && q r) f s.fundings)
      → P s.fundings
      → P (write_transaction id q f tx s).1.fundings
  unfolding write_transaction
  write_transaction-P id q f tx s u h = elim (Bool-cases (transaction_taken id q tx s)) [
    | inl t ↦ rw t h
    | inr t ↦ rw t u
  ]

  step-P : (c : Call) (s : LenderDb) → P s.fundings → P (step c s).fundings
  unfolding step reserve_funding get_funding_by_offer claim_funding_submission
      release_funding_submission set_funding_transaction replace_funding_transaction
      mark_funding_confirmed enqueue_registration record_registration_failure mark_registered
  step-P (reserve funding_id offer hash signed now) s h =
      reserve_beside-P (fresh_funding (funding_id offer) offer hash signed now) (funding_of offer s)
        s h
  step-P (claim id token now stale) s h =
      updated _ _ s.fundings (λ r. refl) (λ r t a b c. ground arith) h
  step-P (release id token now) s h =
      updated _ _ s.fundings (λ r. refl) (λ r t a b c. ground arith) h
  step-P (set id token tx now) s h =
      write_transaction-P id (settable token tx) _ tx s
        (updated _ _ s.fundings (λ r. refl) (λ r t a b c. (b, refl)) h) h
  step-P (replace id token old tx now) s h =
      write_transaction-P id (replaceable token old) _ tx s
        (updated _ _ s.fundings (λ r. refl) (λ r t a b c. (b, refl)) h) h
  step-P (confirm id tx now) s h = updated _ _ s.fundings (λ r. refl) (λ r t a b c. (b, c)) h
  step-P (enqueue id payload) s h = subst P (sym (enqueue_registration-fundings id payload s)) h
  step-P (fail id) s h = h
  step-P (register id now) s h = updated _ _ s.fundings (λ r. refl) (λ r t a b c. (b, c)) h

  pub run-P : (cs : List Call) (s : LenderDb) → P s.fundings → P (run cs s).fundings
  unfolding run
  run-P [] s h = h
  run-P (c ∷ cs) s h = run-P cs (step c s) (step-P c s h)
