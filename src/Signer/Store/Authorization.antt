-- ===== src/Signer/Store/Authorization.antt =====
-- Payment authorizations in services/restricted-signer/src/store.ts.
use koven.Prelude.{pos, String, Option, Bool, ◌&&◌, ◌||◌, ◌∷◌, ◌==◌}
use koven.Domain.Errors.{unique_constraint}
use koven.Exec.{Exec, gets, throw_if, modify, transaction, ◌>>=◌, ◌>>◌}
use koven.Sql.{select, exists}
use koven.Persistence.Nonces.{SpendingReservation, reserve_spending}
use koven.Signer.Types.{StoredAuthorization, SignerDb, on_db}
use koven.Signer.Store.Codes.{with_codes}

-- The unique columns of `signer_authorizations`, one of which two rows share.
abbrev pub clashes : StoredAuthorization → StoredAuthorization → Bool
clashes a r =
    (r.mission_id == a.mission_id && r.nonce == a.nonce)
    || (r.commitment == a.commitment
        || (r.authorization.transaction_sha256 == a.authorization.transaction_sha256
            || r.authorization.transaction_id == a.authorization.transaction_id))

unfoldable pub insert_authorization : StoredAuthorization → Exec SignerDb (Unit {0})
insert_authorization a = do
  throw_if (← gets λ s. exists (clashes a) s.authorizations) unique_constraint
  modify λ s. record s { authorizations = a ∷ s.authorizations }

abbrev pub reservation : StoredAuthorization → String → SpendingReservation
reservation a now = record {
  mission_id = a.mission_id;
  nonce = a.nonce;
  payment_commitment = a.commitment;
  amount_tinybar = pos a.authorization.amount_tinybar;
  consumed_at = now;
}

-- The body of the transaction.
unfoldable pub reserve_body : StoredAuthorization → String → Exec SignerDb (Unit {0})
unfolding insert_authorization reserve_spending
reserve_body a now = do on_db (reserve_spending (reservation a now)); insert_authorization a

unfoldable pub reserve_authorization : StoredAuthorization → String → Exec SignerDb (Unit {0})
unfolding reserve_body with_codes transaction
reserve_authorization a now = with_codes (transaction (reserve_body a now))

unfoldable pub get_authorization_by_transaction_id :
    String → Exec SignerDb (Option StoredAuthorization)
get_authorization_by_transaction_id id =
    gets λ s. select (λ r. r.authorization.transaction_id == id) s.authorizations
