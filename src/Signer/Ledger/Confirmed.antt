-- ===== src/Signer/Ledger/Confirmed.antt =====
-- What services/restricted-signer/src/ledger.ts has confirmed of a transfer.
use koven.Prelude.{
  ℤ, pos, ◌+ℤ◌, ◌≤ℤ◌, eqb_ℤ, ◌≡◌, refl, sym, subst, ap, ◌∙◌, String, Option, none, some, Bool, true,
  false, List, [], ◌∷◌, ◌==◌, arith, Bool-cases, Option-cases, inl, inr, eq_iff,
}
use koven.Exec.{Result, ok, err}
use koven.Signer.Complete.{TransferExpectation}
use koven.Signer.Ledger.{
  MirrorTransfer, MirrorTransaction, Mirror, Net, net_of, any_debit, is_expected, is_debited,
  sum_transfers, check_transfer, matching, only, confirm,
}
use koven.Signer.Ledger.Net.{total, net_of-sum_transfers, zero_+ℤ}

eq_of_eqb : (a b : ℤ) → eqb_ℤ a b ≡ true → a ≡ b
eq_of_eqb a b h = ground arith

-- Without a debit of another account, the others have not lost anything.
no_debit :
    (payer fee_payer a : String) (net : Net)
    → any_debit payer fee_payer net ≡ false
    → a == payer ≡ false
    → a == fee_payer ≡ false
    → pos 0 ≤ℤ net_of a net
no_debit payer fee_payer a [] h p f = omega arith
no_debit payer fee_payer a (e ∷ es) h p f = elim (Bool-cases (e.account == a)) [
  | inl same ↦
      let eq : e.account ≡ a = (eq_iff e.account a).0 same in
      let at_a = rw eq at h in rw same (ground arith)
  | inr other ↦ rw other (no_debit payer fee_payer a es (ground arith) p f)
]

-- A transfer of the amount from the payer to the recipient, with no other account debited but the one that
-- pays the fee.
pub record IsTransferred (x : TransferExpectation) (fee_payer : String)
    (ts : List (Option MirrorTransfer)) : Type 0 where
  pub credited : total x.recipient_account_id ts ≡ x.amount_tinybar
  pub debited : (total x.payer_account_id ts +ℤ x.amount_tinybar) ≤ℤ pos 0
  pub exact :
      x.payer_account_id == fee_payer ≡ false
      → total x.payer_account_id ts +ℤ x.amount_tinybar ≡ pos 0
  pub others :
      (a : String) → a == x.payer_account_id ≡ false → a == fee_payer ≡ false → pos 0 ≤ℤ total a ts

debit :
    (pays_fee : Bool) (n amount : ℤ) → is_debited pays_fee n amount ≡ true → (n +ℤ amount) ≤ℤ pos 0
debit true n amount h = ground arith
debit false n amount h = ground arith

exact_debit :
    (pays_fee : Bool) (n amount : ℤ)
    → pays_fee ≡ false
    → is_debited pays_fee n amount ≡ true
    → eqb_ℤ (n +ℤ amount) (pos 0) ≡ true
exact_debit true n amount e h = cc
exact_debit false n amount e h = h

expected-IsTransferred :
    (x : TransferExpectation) (fee_payer : String) (ts : List (Option MirrorTransfer)) (net : Net)
    → ((a : String) → net_of a net ≡ total a ts)
    → is_expected x fee_payer net ≡ true
    → IsTransferred x fee_payer ts
expected-IsTransferred x fee_payer ts net sums h =
    let payer = x.payer_account_id in
    let amount = x.amount_tinybar in
    let of_recipient : net_of x.recipient_account_id net ≡ amount =
      eq_of_eqb (net_of x.recipient_account_id net) amount (ground arith) in
    record {
      credited = sym (sums x.recipient_account_id) ∙ of_recipient;
      debited =
          subst (λ n. (n +ℤ amount) ≤ℤ pos 0) (sums payer)
            (debit (payer == fee_payer) (net_of payer net) amount (ground arith));
      exact = λ other.
          ap (λ n. n +ℤ amount) (sym (sums payer))
          ∙ eq_of_eqb (net_of payer net +ℤ amount) (pos 0)
              (exact_debit (payer == fee_payer) (net_of payer net) amount other (ground arith));
      others = λ a p f.
          subst (λ n. pos 0 ≤ℤ n) (sums a) (no_debit payer fee_payer a net (ground arith) p f);
    }

-- A check that goes through: the entries are there, and are such a transfer.
check_transfer-IsTransferred :
    (m : Mirror) (x : TransferExpectation) (r : MirrorTransaction) (at : String)
    → check_transfer m x r tt ≡ (ok at, tt)
    → (ts : List (Option MirrorTransfer)) × (r.transfers ≡ some ts)
      × IsTransferred x (m.fee_payer x.transaction_id) ts
unfolding check_transfer
check_transfer-IsTransferred m x r at h = elim (Option-cases r.transfers) [
  | inl missing ↦ absurd (ground arith)
  | inr (ts, given) ↦ (ts, given, summed ts given (sum_transfers ts [] tt) refl)
]
  where
    summed :
        (ts : List (Option MirrorTransfer))
        → r.transfers ≡ some ts
        → (o : Result Net × Unit {0}) → sum_transfers ts [] tt ≡ o
        → IsTransferred x (m.fee_payer x.transaction_id) ts
    summed ts given (ok net, u) e =
        expected-IsTransferred x (m.fee_payer x.transaction_id) ts net
          (λ a. net_of-sum_transfers a ts [] net e ∙ zero_+ℤ (total a ts)) (ground arith)
    summed ts given (err y, u) e = absurd (ground arith)

-- A transfer is confirmed only when the mirror has exactly one successful transfer with its id, in which the entries of
-- the recipient add up to the amount, those of the payer to its debit, which is exact unless the payer also pays the fee, and no other account
-- but the one that pays the fee loses anything.
pub confirm-IsTransferred :
    (m : Mirror) (rows : Option (List MirrorTransaction)) (x : TransferExpectation) (at : String)
    → confirm m rows x tt ≡ (ok at, tt)
    → (id : String) × (given : List MirrorTransaction) × (r : MirrorTransaction) × (m.mirror_id
          x.transaction_id
        ≡ some id)
      × (rows ≡ some given)
      × (only (matching id given) ≡ some r)
      × ((ts : List (Option MirrorTransfer)) × (r.transfers ≡ some ts)
          × IsTransferred x (m.fee_payer x.transaction_id) ts)
unfolding confirm
confirm-IsTransferred m none x at h = elim (Option-cases (m.mirror_id x.transaction_id)) [
  | inl missing ↦ absurd (ground arith)
  | inr (id, found) ↦ absurd (ground arith)
]
confirm-IsTransferred m (some given) x at h = elim (Option-cases (m.mirror_id x.transaction_id)) [
  | inl missing ↦ absurd (ground arith)
  | inr (id, found) ↦ elim (Option-cases (only (matching id given))) [
    | inl other ↦ absurd (cc (rw (found, other) at h))
    | inr (r, single) ↦ (
      id,
      given,
      r,
      found,
      refl,
      single,
      check_transfer-IsTransferred m x r at (rw (found, single) at h),
    )
  ]
]
