-- ===== src/Provider/Confirm.antt =====
-- `MirrorSettlementConfirmer.confirm` of services/resource-server/src/settlement.ts, from the answer of the
-- mirror node on. It reads the same answer as the signer's confirmation, and asks for the exact amounts.
use koven.Prelude.{ℤ, pos, ◌+ℤ◌, eqb_ℤ, String, Option, none, some, Bool, not, List, [], ◌∷◌, ◌&&◌}
use koven.Domain.Errors.{Error, ErrorCode, settlement_confirmation_error}
use koven.Exec.{pure, throw, throw_if, or_throw, ◌>>=◌, ◌>>◌}
use koven.X402.{Checked}
use koven.Signer.Complete.{TransferExpectation}
use koven.Signer.Ledger.{
  Mirror, MirrorTransaction, MirrorTransfer, Net, net_of, add_to, any_debit, has_account, matching,
  only, is_plain,
}

abbrev other_payment : Error
other_payment = settlement_confirmation_error ErrorCode.payment_authorization_mismatch

abbrev not_visible : Error
not_visible = settlement_confirmation_error ErrorCode.settlement_unconfirmed

-- The loop over the transfers.
unfoldable pub net_transfers : List (Option MirrorTransfer) → Net → Checked Net
net_transfers [] net u = pure net u
net_transfers (none ∷ ts) net u = throw other_payment u
net_transfers (some t ∷ ts) net u = net_transfers ts (add_to t net) u

abbrev pub total_of : Net → ℤ
total_of [] = pos 0
total_of (e ∷ es) = e.amount +ℤ total_of es

-- The payer is debited and the provider credited with the amount, and nobody else is debited but for the fee.
abbrev pub is_exact : TransferExpectation → String → Net → Bool
is_exact x fee_payer net =
    (has_account x.payer_account_id net
      && eqb_ℤ (net_of x.payer_account_id net +ℤ x.amount_tinybar) (pos 0))
    && (has_account x.recipient_account_id net
        && eqb_ℤ (net_of x.recipient_account_id net) x.amount_tinybar)
    && eqb_ℤ (total_of net) (pos 0)
    && not (any_debit x.payer_account_id fee_payer net)

module _ (m : Mirror) where
  unfoldable pub check_settlement : TransferExpectation → MirrorTransaction → Checked String
  unfolding net_transfers
  check_settlement x r = do
    entries ← or_throw r.transfers other_payment
    throw_if (not (is_plain r.other_transfers)) other_payment
    net ← net_transfers entries []
    throw_if (not (is_exact x (m.fee_payer x.transaction_id) net)) other_payment
    or_throw (m.settled_at r) not_visible

  -- `rows` is what the node has answered, none where it has not answered with a list.
  unfoldable pub confirm_settlement :
      Option (List MirrorTransaction) → TransferExpectation → Checked String
  unfolding check_settlement
  confirm_settlement rows x = do
    id ← or_throw (m.mirror_id x.transaction_id) other_payment
    given ← or_throw rows not_visible
    transaction ← or_throw (only (matching id given)) not_visible
    check_settlement x transaction
