-- ===== src/Tests/Ledger.antt =====
-- A transfer of 60 tinybar for which the payer also pays a fee of 2, in three entries.
use koven.Prelude.{ℤ, pos, negsuc, ◌≡◌, refl, String, Option, some, true, false, List, [], ◌∷◌}
use koven.Domain.Errors.{ErrorCode, settlement_confirmation_error}
use koven.Exec.{ok, err}
use koven.Provider.Confirm.{confirm_settlement}
use koven.Signer.Complete.{TransferExpectation}
use koven.Signer.Ledger.{MirrorTransfer, MirrorTransaction, Mirror, matching, only, confirm}
use koven.Signer.Ledger.Confirmed.{IsTransferred, confirm-IsTransferred}

abbrev mirror : Mirror
mirror = record {
  mirror_id = λ id. some "0.0.5-1-0";
  fee_payer = λ id. "0.0.5";
  settled_at = λ r. some "t1";
}

abbrev entry : String → ℤ → Option MirrorTransfer
entry account amount = some (record { account = account; amount = amount })

abbrev settled : MirrorTransaction
settled = record {
  transaction_id = "0.0.5-1-0";
  is_success = true;
  is_transfer = true;
  nonce = 0;
  is_scheduled = false;
  transfers = some (
      entry "0.0.5" (negsuc 59)
      ∷ entry "0.0.7" (pos 60)
      ∷ entry "0.0.5" (negsuc 1)
      ∷ entry "0.0.98" (pos 2)
      ∷ []);
  other_transfers = some 0;
}

abbrev expected : TransferExpectation
expected = record {
  transaction_id = "0.0.5@1.0";
  payer_account_id = "0.0.5";
  recipient_account_id = "0.0.7";
  amount_tinybar = pos 60;
}

confirmed : confirm mirror (some (settled ∷ [])) expected tt ≡ (ok "t1", tt)
unfolding confirm
confirmed = refl

confirm-IsTransferred_example :
    (id : String) × (given : List MirrorTransaction) × (r : MirrorTransaction) × (some "0.0.5-1-0"
      ≡ some id)
    × (some (settled ∷ []) ≡ some given)
    × (only (matching id given) ≡ some r)
    × ((ts : List (Option MirrorTransfer)) × (r.transfers ≡ some ts)
        × IsTransferred expected "0.0.5" ts)
confirm-IsTransferred_example =
    confirm-IsTransferred mirror (some (settled ∷ [])) expected "t1" confirmed

-- The provider's confirmation asks for the exact amount: it refuses the transfer above, whose payer pays a
-- fee, and confirms this one.
abbrev plain : MirrorTransaction
plain = record settled {
  transfers = some (entry "0.0.5" (negsuc 59) ∷ entry "0.0.7" (pos 60) ∷ []);
}

is_exactly_paid : confirm_settlement mirror (some (plain ∷ [])) expected tt ≡ (ok "t1", tt)
unfolding confirm_settlement
is_exactly_paid = refl

is_refused :
    confirm_settlement mirror (some (settled ∷ [])) expected tt
    ≡ (err (settlement_confirmation_error ErrorCode.payment_authorization_mismatch), tt)
unfolding confirm_settlement
is_refused = refl
