-- ===== src/Lender/Fund/Transfer.antt =====
-- How often `FundingService.accept` of agents/lenders/src/fund.ts asks for a transfer.
use koven.Prelude.{
  ℕ, ◌≡◌, refl, String, Option, none, some, ◌∷◌, ◌==◌, arith, Bool-cases, inl, inr, ◌⊎◌,
}
use koven.Domain.Credit.{CreditRequest, CreditOffer}
use koven.Exec.{Result, ok, err}
use koven.Lender.Store.{LenderDb, FundingRow, FundingStatus, SignedCreditAcceptance}
use koven.Lender.Store.Fundings.{
  reserve_funding, reserve_beside, get_funding_by_offer, funding_of, acceptance_conflict,
}
use koven.Lender.Fund.{
  transfer_for, Lender, Answers, Formats, Reconciliation, respond, register, register_pending,
  registered, reconciled, with_transaction, with_funding, without_transaction, transfer, try_submit,
  submit, caught, on_error, prepare, record_result, accept,
}

module _ (f : Formats) (lease_ms : ℕ) (x : Answers) (request : CreditRequest) (offer : CreditOffer)
    (signed : SignedCreditAcceptance) where
  register-transfers :
      (id : String) (o : Option String) (s : Lender)
      → (register f lease_ms x request offer signed id o s).1.transfers ≡ s.transfers
  unfolding register register_pending respond registered
  register-transfers id none s = refl
  register-transfers id (some tx) s = ground arith

  reconciled-transfers :
      (r : FundingRow) (tx : String) (y : Reconciliation) (s : Lender)
      → (reconciled f lease_ms x request offer signed r tx y s).1.transfers ≡ s.transfers
  unfolding reconciled
  reconciled-transfers r tx y s = let kept = register-transfers r.id (some tx) in ground arith

  with_transaction-transfers :
      (r : FundingRow) (tx : String) (y : FundingStatus) (s : Lender)
      → (with_transaction f lease_ms x request offer signed r tx y s).1.transfers ≡ s.transfers
  unfolding with_transaction respond
  with_transaction-transfers r tx y s =
      let kept = register-transfers r.id (some tx) in
      let read = reconciled-transfers r tx in ground arith

  -- A new acceptance, or the one that is stored for the offer.
  reserve-existing :
      (s : LenderDb) (r : FundingRow)
      → funding_of offer.id s ≡ some r
      → (reserve_funding f.funding_id offer.id (f.acceptance_hash signed) signed x.now s
          ≡ (ok r, s))
        ⊎ (reserve_funding f.funding_id offer.id (f.acceptance_hash signed) signed x.now s
            ≡ (err acceptance_conflict, s))
  unfolding reserve_funding reserve_beside get_funding_by_offer
  reserve-existing s r found = elim (Bool-cases (r.acceptance_hash == f.acceptance_hash signed)) [
    | inl t ↦ inl (rw (found, t) refl)
    | inr t ↦ inr (rw (found, t) refl)
  ]

  -- An acceptance of an offer whose funding has a transaction asks the gateway for no transfer, whatever the
  -- gateway, the signer and the clock answer.
  pub no_second_transfer :
      (s : Lender) (r : FundingRow) (tx : String)
      → funding_of offer.id s.db ≡ some r
      → r.transaction_id ≡ some tx
      → (accept f lease_ms x request offer signed s).1.transfers ≡ s.transfers
  unfolding accept with_funding
  no_second_transfer s r tx found recorded =
      let kept = with_transaction-transfers r tx in
      elim (reserve-existing s.db r found) [
        | inl e ↦ rw (e, recorded) (kept r.status s)
        | inr e ↦ rw e refl
      ]

  submit-transfers :
      (id : String) (s : Lender)
      → (submit f lease_ms x request offer signed id s).1.transfers
        ≡ (transfer_for f request offer id ∷ s.transfers)
  unfolding submit prepare record_result
  submit-transfers id s = ground arith

  caught-transfers :
      (id : String) (o : Result String × Lender)
      → (caught f lease_ms x request offer signed id o).1.transfers ≡ o.1.transfers
  unfolding caught on_error
  caught-transfers id o = ground arith

  transfer-transfers :
      (id : String) (s : Lender)
      → ((transfer f lease_ms x request offer signed id s).1.transfers ≡ s.transfers)
        ⊎ ((transfer f lease_ms x request offer signed id s).1.transfers
            ≡ (transfer_for f request offer id ∷ s.transfers))
  unfolding transfer try_submit
  transfer-transfers id s =
      let sent = submit-transfers id in
      let kept = caught-transfers id in
      let after = λ (o : String). register-transfers id (some o) in ground arith

  with_funding-transfers :
      (r : FundingRow) (o : Option String) (s : Lender)
      → ((with_funding f lease_ms x request offer signed r o s).1.transfers ≡ s.transfers)
        ⊎ ((with_funding f lease_ms x request offer signed r o s).1.transfers
            ≡ (transfer_for f request offer r.id ∷ s.transfers))
  unfolding with_funding without_transaction respond
  with_funding-transfers r (some tx) s = inl (with_transaction-transfers r tx r.status s)
  with_funding-transfers r none s = let sent = transfer-transfers r.id s in ground arith

  -- One acceptance asks the gateway for at most one transfer, and that is for the funding of its offer.
  pub at_most_one_transfer :
      (s : Lender)
      → ((accept f lease_ms x request offer signed s).1.transfers ≡ s.transfers)
        ⊎ ((r : FundingRow) × ((accept f lease_ms x request offer signed s).1.transfers
              ≡ (transfer_for f request offer r.id ∷ s.transfers)))
  unfolding accept
  at_most_one_transfer s =
      reserved (reserve_funding f.funding_id offer.id (f.acceptance_hash signed) signed x.now s.db)
        refl
    where
      reserved :
          (o : Result FundingRow × LenderDb)
          → reserve_funding f.funding_id offer.id (f.acceptance_hash signed) signed x.now s.db ≡ o
          → ((accept f lease_ms x request offer signed s).1.transfers ≡ s.transfers)
            ⊎ ((r : FundingRow) × ((accept f lease_ms x request offer signed s).1.transfers
                  ≡ (transfer_for f request offer r.id ∷ s.transfers)))
      reserved (ok r, db) e =
          elim (with_funding-transfers r r.transaction_id (record s { db = db })) [
            | inl none_sent ↦ inl (rw e none_sent)
            | inr one_sent ↦ inr (r, rw e one_sent)
          ]
      reserved (err failure, db) e = inl (rw e refl)
