-- ===== src/Signer/Ledger.antt =====
-- services/restricted-signer/src/ledger.ts: the confirmation of a transfer from what a mirror node has
-- answered. A field of the answer is kept as what the code reads of it, none where it has another type.
pub mod Net
pub mod Confirmed
use koven.Prelude.{
  ℕ, ℤ, pos, ◌+ℤ◌, ◌-ℤ◌, eqb_ℤ, leb_ℤ, ltb_ℤ, String, Option, none, some, Bool, true, false, not,
  List, [], ◌∷◌, ◌==◌, ◌&&◌, ◌||◌, eqb, if◌then◌else◌,
}
use koven.Domain.Errors.{Error, ErrorCode, signer_error}
use koven.Exec.{Exec, pure, throw, throw_if, or_throw, ◌>>=◌, ◌>>◌}
use koven.X402.{Checked}
use koven.Signer.Complete.{TransferExpectation}

pub record MirrorTransfer : Type 0 where
  pub account : String
  pub amount : ℤ

-- An entry of `transfers` is none where it is no object, or its account, its amount or its approval is
-- not what is asked for; `other_transfers` counts those of tokens and of NFTs, none where they are no lists.
pub record MirrorTransaction : Type 0 where
  pub transaction_id : String
  pub is_success : Bool
  pub is_transfer : Bool
  pub nonce : ℕ
  pub is_scheduled : Bool
  pub transfers : Option (List (Option MirrorTransfer))
  pub other_transfers : Option ℕ

-- The id in the form of the mirror, the account before the `@`, and the time of consensus.
pub record Mirror : Type 0 where
  pub mirror_id : String → Option String
  pub fee_payer : String → String
  pub settled_at : MirrorTransaction → Option String

abbrev pub Net : Type 0
Net = List MirrorTransfer

-- `net.get(account) ?? 0n`
abbrev pub net_of : String → Net → ℤ
net_of account [] = pos 0
net_of account (e ∷ es) = if e.account == account then e.amount else net_of account es

-- `net.set(account, (net.get(account) ?? 0n) + amount)`
abbrev pub add_to : MirrorTransfer → Net → Net
add_to t [] = t ∷ []
add_to t (e ∷ es) =
    let rest = add_to t es in
    if e.account == t.account then record e { amount = e.amount +ℤ t.amount } ∷ es else e ∷ rest

abbrev mismatch : Error
mismatch = signer_error ErrorCode.funding_mismatch

abbrev unconfirmed : Error
unconfirmed = signer_error ErrorCode.settlement_unconfirmed

-- The loop.
unfoldable pub sum_transfers : List (Option MirrorTransfer) → Net → Checked Net
sum_transfers [] net u = pure net u
sum_transfers (none ∷ ts) net u = throw mismatch u
sum_transfers (some t ∷ ts) net u = sum_transfers ts (add_to t net) u

-- `[...net].some(...)`
abbrev pub any_debit : String → String → Net → Bool
any_debit payer fee_payer [] = false
any_debit payer fee_payer (e ∷ es) =
    (ltb_ℤ e.amount (pos 0) && not (e.account == payer) && not (e.account == fee_payer))
    || any_debit payer fee_payer es

abbrev pub has_account : String → Net → Bool
has_account account [] = false
has_account account (e ∷ es) = e.account == account || has_account account es

-- A payer who pays the fee is debited more.
abbrev pub is_debited : Bool → ℤ → ℤ → Bool
is_debited true net amount = leb_ℤ (net +ℤ amount) (pos 0)
is_debited false net amount = eqb_ℤ (net +ℤ amount) (pos 0)

abbrev pub is_expected : TransferExpectation → String → Net → Bool
is_expected x fee_payer net =
    is_debited (x.payer_account_id == fee_payer) (net_of x.payer_account_id net) x.amount_tinybar
    && (has_account x.recipient_account_id net
        && eqb_ℤ (net_of x.recipient_account_id net) x.amount_tinybar)
    && not (any_debit x.payer_account_id fee_payer net)

abbrev pub matches : String → MirrorTransaction → Bool
matches id r =
    r.transaction_id == id && r.is_success && r.is_transfer && eqb r.nonce 0 && not r.is_scheduled

abbrev pub matching : String → List MirrorTransaction → List MirrorTransaction
matching id [] = []
matching id (r ∷ rs) = let rest = matching id rs in if matches id r then r ∷ rest else rest

abbrev pub only : List MirrorTransaction → Option MirrorTransaction
only (r ∷ []) = some r
only _ = none

abbrev pub is_plain : Option ℕ → Bool
is_plain none = false
is_plain (some n) = eqb n 0

module _ (m : Mirror) where
  -- The transaction's own check.
  unfoldable pub check_transfer : TransferExpectation → MirrorTransaction → Checked String
  unfolding sum_transfers
  check_transfer x r = do
    entries ← or_throw r.transfers mismatch
    throw_if (not (is_plain r.other_transfers)) mismatch
    net ← sum_transfers entries []
    throw_if (not (is_expected x (m.fee_payer x.transaction_id) net)) mismatch
    or_throw (m.settled_at r) unconfirmed

  -- `rows` is what the node has answered, none where it has not answered with a list.
  unfoldable pub confirm : Option (List MirrorTransaction) → TransferExpectation → Checked String
  unfolding check_transfer
  confirm rows x = do
    id ← or_throw (m.mirror_id x.transaction_id) mismatch
    given ← or_throw rows unconfirmed
    transaction ← or_throw (only (matching id given)) unconfirmed
    check_transfer x transaction
