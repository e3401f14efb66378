-- ===== src/Signer/Store/Credit.antt =====
-- Credit requests and acceptances in services/restricted-signer/src/store.ts.
use koven.Prelude.{String, Option, none, some, ◌∷◌, ◌==◌, if◌then◌else◌}
use koven.Domain.Credit.{UnsignedCreditRequest, CreditOffer, CreditAcceptance}
use koven.Domain.Errors.{ErrorCode, signer_error, unique_constraint}
use koven.Exec.{Exec, ok, err, gets, transaction, ◌>>=◌}
use koven.Sql.{select, exists, has_key}
use koven.Signer.Types.{StoredCreditRequest, StoredAcceptance, SignerDb}

abbrev pub request_key : StoredCreditRequest → String
request_key r = r.request.id

abbrev pub acceptance_key : StoredAcceptance → String
acceptance_key r = r.acceptance.mission_id

unfoldable pub get_credit_request : String → Exec SignerDb (Option StoredCreditRequest)
get_credit_request id = gets λ s. select (has_key request_key id) s.credit_requests

unfoldable pub get_acceptance : String → Exec SignerDb (Option StoredAcceptance)
get_acceptance mission_id = gets λ s. select (has_key acceptance_key mission_id) s.acceptances

-- `canonicalHash` of a request.
module _ (hash : UnsignedCreditRequest → String) where
  keep_request :
      UnsignedCreditRequest
      → String
      → Option StoredCreditRequest
      → Exec SignerDb StoredCreditRequest
  keep_request r signature (some existing) s = (
    if hash existing.request == hash r
        then ok existing
        else err (signer_error ErrorCode.idempotency_conflict),
    s,
  )
  keep_request r signature none s =
      let row : StoredCreditRequest = record { request = r; signature = signature } in
      (ok row, record s { credit_requests = row ∷ s.credit_requests })

  unfoldable pub save_credit_request :
      UnsignedCreditRequest → String → Exec SignerDb StoredCreditRequest
  unfolding keep_request get_credit_request transaction
  save_credit_request r signature =
      transaction do existing ← get_credit_request r.id; keep_request r signature existing

-- `canonicalHash` of an acceptance.
module _ (hash : CreditAcceptance → String) where
  -- `offer_id` is a unique column too.
  keep_acceptance :
      CreditOffer
      → CreditAcceptance
      → String
      → Option StoredAcceptance
      → Exec SignerDb StoredAcceptance
  keep_acceptance offer a signature (some existing) s = (
    if hash existing.acceptance == hash a
        then ok existing
        else err (signer_error ErrorCode.credit_acceptance_conflict),
    s,
  )
  keep_acceptance offer a signature none s =
      let row : StoredAcceptance = record {
        acceptance = a;
        signature = signature;
        offer = offer;
      } in
      if exists (λ (r : StoredAcceptance). r.acceptance.offer_id == a.offer_id) s.acceptances
      then (err unique_constraint, s)
      else (ok row, record s { acceptances = row ∷ s.acceptances })

  unfoldable pub save_acceptance :
      CreditOffer → CreditAcceptance → String → Exec SignerDb StoredAcceptance
  unfolding keep_acceptance get_acceptance transaction
  save_acceptance offer a signature =
      transaction
        do existing ← get_acceptance a.mission_id; keep_acceptance offer a signature existing
