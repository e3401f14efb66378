-- ===== src/Signer/Store/Codes.antt =====
-- `conflictCode` of services/restricted-signer/src/store.ts: the signer's error for a conflict of the
-- persistence layer. Another error is thrown again as it is.
use koven.Domain.Errors.{Error, ErrorCode, PersistenceConflict, persistence_conflict, signer_error}
use koven.Exec.{Exec, Result, ok, err}

abbrev pub conflict_code : PersistenceConflict → ErrorCode
conflict_code PersistenceConflict.nonce_already_used = ErrorCode.nonce_already_used
conflict_code PersistenceConflict.payment_commitment_already_used = ErrorCode.nonce_already_used
conflict_code PersistenceConflict.cap_exceeded = ErrorCode.cap_exceeded
conflict_code PersistenceConflict.cumulative_budget_exceeded = ErrorCode.cumulative_budget_exceeded
conflict_code PersistenceConflict.loan_registration_conflict = ErrorCode.loan_registration_conflict
conflict_code PersistenceConflict.idempotency_conflict = ErrorCode.idempotency_conflict
conflict_code _ = ErrorCode.internal_error

abbrev pub signer_code : Error → Error
signer_code (persistence_conflict c) = signer_error (conflict_code c)
signer_code e = e

abbrev recode : {A : Type 0} → Result A → Result A
recode (ok a) = ok a
recode (err e) = err (signer_code e)

-- `try { m } catch (error) { throw conflictCode(error) ?? error; }`
unfoldable pub with_codes : {S A : Type 0} → Exec S A → Exec S A
with_codes m s = let (r, s') = m s in (recode r, s')
