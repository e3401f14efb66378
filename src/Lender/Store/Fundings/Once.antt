-- ===== src/Lender/Store/Fundings/Once.antt =====
-- A funding of agents/lenders/src/store.ts is submitted by one holder of its token: once a transaction is
-- recorded, no other token is granted and none records another transaction.
use koven.Prelude.{
  ℕ, ◌≡◌, refl, ◌∙◌, String, some, Bool, true, false, List, ◌&&◌, ◌==◌, is_none, eq_of_same_text,
  arith, eq_iff, Bool-cases, inl, inr,
}
use koven.Exec.{ok, err}
use koven.Sql.{select, changes, update, has_key, IsKeyed}
use koven.Sql.Laws.{select-update, IsKeyed-update, changes-found, select-key}
use koven.Sql.Counts.{exists-eq-false, update-eq, found_of_changes}
use koven.Lender.Store.{LenderDb, FundingRow, pending, empty}
use koven.Lender.Store.Fundings.History.{Call, run, run-P}
use koven.Lender.Store.Fundings.{
  funding_key, claim_funding_submission, set_funding_transaction, claimable, settable, replaceable,
  replace_funding_transaction, funding_mismatch,
}

-- A transaction is recorded for the funding, by the holder of this token.
pub record Held (id token : String) (rs : List FundingRow) : Type 0 where
  pub row : FundingRow
  pub found : select (has_key funding_key id) rs ≡ some row
  pub holder : row.submission_token ≡ some token
  pub recorded : is_none row.transaction_id ≡ false

-- An update that leaves a held row, or keeps what makes it held, keeps the funding held.
module _ (id token : String) (p : FundingRow → Bool) (f : FundingRow → FundingRow)
    (same_id : (r : FundingRow) → (f r).id ≡ r.id) where
  update-Held :
      (rs : List FundingRow)
      → ((r : FundingRow)
          → r.id ≡ id
          → r.submission_token ≡ some token
          → is_none r.transaction_id ≡ false
          → p r ≡ true
          → ((f r).submission_token ≡ some token) × (is_none (f r).transaction_id ≡ false))
      → Held id token rs
      → Held id token (update p f rs)
  update-Held rs keeps h =
      let after = select-update funding_key p f id rs same_id in
      let key : h.row.id ≡ id = select-key funding_key id rs h.found in
      elim (Bool-cases (p h.row)) [
        | inl t ↦
            let (holder, recorded) = keeps h.row key h.holder h.recorded t in
            record {
              row = f h.row;
              found = after ∙ rw (h.found, t) refl;
              holder = holder;
              recorded = recorded;
            }
        | inr t ↦ record {
          row = h.row;
          found = after ∙ rw (h.found, t) refl;
          holder = h.holder;
          recorded = h.recorded;
        }
      ]

-- Whatever is done afterwards, a held funding stays held by the same token.
run-Held :
    (id token : String) (cs : List Call) (s : LenderDb)
    → Held id token s.fundings
    → Held id token (run cs s).fundings
run-Held id token cs s h =
    run-P (Held id token)
      (λ row rs new k. record {
        row = k.row;
        found = elim (Bool-cases (row.id == id)) [
          | inl t ↦ cc (rw ((eq_iff row.id id).0 t, k.found) at new)
          | inr t ↦ rw t k.found
        ];
        holder = k.holder;
        recorded = k.recorded;
      })
      (λ p f rs same keeps k. update-Held id token p f same rs (λ r i a b t. keeps r token t a b) k)
      cs s h

run-IsKeyed :
    (cs : List Call) (s : LenderDb)
    → IsKeyed funding_key s.fundings
    → IsKeyed funding_key (run cs s).fundings
run-IsKeyed cs s h =
    run-P (IsKeyed funding_key) (λ row rs new k. (new, k))
      (λ p f rs same keeps k. IsKeyed-update funding_key p f rs same k) cs s h

-- Of a held funding no token is granted.
claim-Held :
    (id token t : String) (now stale : ℕ) (s : LenderDb)
    → IsKeyed funding_key s.fundings
    → Held id token s.fundings
    → claim_funding_submission id t now stale s ≡ (ok false, s)
unfolding claim_funding_submission
claim-Held id token t now stale s keyed h =
    let n = changes-found funding_key id (claimable stale) s.fundings keyed h.found in
    let none : changes (λ r. has_key funding_key id r && claimable stale r) s.fundings ≡ 0 =
      ground (arith, n, h.recorded) in
    rw (none, update-eq (λ r. has_key funding_key id r && claimable stale r) _ s.fundings none) refl

-- Of a held funding no other token records a transaction.
set-Held :
    (id token t tx : String) (now : ℕ) (s : LenderDb)
    → IsKeyed funding_key s.fundings
    → token == t ≡ false
    → Held id token s.fundings
    → set_funding_transaction id t tx now s ≡ (err funding_mismatch, s)
unfolding set_funding_transaction
set-Held id token t tx now s keyed d h =
    let n = changes-found funding_key id (settable t tx) s.fundings keyed h.found in
    let none : changes (λ r. has_key funding_key id r && settable t tx r) s.fundings ≡ 0 =
      ground (arith, n, h.holder, d) in
    rw
      (
        exists-eq-false (λ r. has_key funding_key id r && settable t tx r) s.fundings none,
        none,
        update-eq (λ r. has_key funding_key id r && settable t tx r) _ s.fundings none,
      )
      refl

-- Of a held funding no other token replaces the transaction, whichever it expects.
replace-Held :
    (id token t expected tx : String) (now : ℕ) (s : LenderDb)
    → IsKeyed funding_key s.fundings
    → token == t ≡ false
    → Held id token s.fundings
    → replace_funding_transaction id t expected tx now s ≡ (err funding_mismatch, s)
unfolding replace_funding_transaction
replace-Held id token t expected tx now s keyed d h =
    let n = changes-found funding_key id (replaceable t expected) s.fundings keyed h.found in
    let none : changes (λ r. has_key funding_key id r && replaceable t expected r) s.fundings ≡ 0 =
      ground (arith, n, h.holder, d) in
    rw
      (
        exists-eq-false (λ r. has_key funding_key id r && replaceable t expected r) s.fundings none,
        none,
        update-eq (λ r. has_key funding_key id r && replaceable t expected r) _ s.fundings none,
      )
      refl

module _ (id token tx : String) (now : ℕ) (s : LenderDb) where
  abbrev hit : FundingRow → Bool
  hit r = has_key funding_key id r && settable token tx r

  abbrev submit : FundingRow → FundingRow
  submit r = record r { transaction_id = some tx; status = pending; updated_at = now }

  set-steps :
      {s' : LenderDb}
      → set_funding_transaction id token tx now s ≡ (ok tt, s')
      → (changes hit s.fundings ≡ 1) × (s' ≡ record s { fundings = update hit submit s.fundings })
  unfolding set_funding_transaction
  set-steps h = (ground arith, ground arith)

  holder_of : (r : FundingRow) → settable token tx r ≡ true → r.submission_token ≡ some token
  holder_of r h = eq_of_same_text r.submission_token token (ground arith)

  -- Recording a transaction holds the funding.
  set-eq-ok :
      {s' : LenderDb}
      → IsKeyed funding_key s.fundings
      → set_funding_transaction id token tx now s ≡ (ok tt, s')
      → Held id token s'.fundings
  set-eq-ok {s'} keyed h =
      let (one, eq) = set-steps {s' = s'} h in
      let (row, found, fits) =
        found_of_changes funding_key id (settable token tx) s.fundings keyed one in
      let same : row.id ≡ id = select-key funding_key id s.fundings found in
      let hits : hit row ≡ true = ground (arith, fits, (eq_iff row.id id).1 same) in
      rw eq (record {
        row = submit row;
        found =
            select-update funding_key hit submit id s.fundings (λ r. refl) ∙ rw (found, hits) refl;
        holder = holder_of row fits;
        recorded = refl;
      })

-- A funding is submitted under one token. Once a transaction has been recorded for it, then whatever any callers do,
-- in any order, no token is granted for it again, and no other token records a transaction, neither as the first
-- nor in the place of any other.
pub funded_once :
    (before after : List Call) (id token tx t expected tx' : String) (now now' stale : ℕ)
    {s : LenderDb}
    → set_funding_transaction id token tx now (run before empty) ≡ (ok tt, s)
    → token == t ≡ false
    → (claim_funding_submission id t now' stale (run after s) ≡ (ok false, run after s))
      × (set_funding_transaction id t tx' now' (run after s) ≡ (err funding_mismatch, run after s))
      × (replace_funding_transaction id t expected tx' now' (run after s)
          ≡ (err funding_mismatch, run after s))
funded_once before after id token tx t expected tx' now now' stale {s} h d =
    let keyed : IsKeyed funding_key (run before empty).fundings = run-IsKeyed before empty tt in
    let held : Held id token s.fundings =
      set-eq-ok id token tx now (run before empty) {s' = s} keyed h in
    let keyed' : IsKeyed funding_key s.fundings =
      rw (set-steps id token tx now (run before empty) {s' = s} h).1 (
        IsKeyed-update funding_key (hit id token tx now (run before empty)) _
          (run before empty).fundings (λ r. refl) keyed) in
    let held' : Held id token (run after s).fundings = run-Held id token after s held in
    let keyed'' : IsKeyed funding_key (run after s).fundings = run-IsKeyed after s keyed' in
    (
      claim-Held id token t now' stale (run after s) keyed'' held',
      set-Held id token t tx' now' (run after s) keyed'' d held',
      replace-Held id token t expected tx' now' (run after s) keyed'' d held',
    )
