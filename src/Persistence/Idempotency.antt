-- ===== src/Persistence/Idempotency.antt =====
-- packages/persistence/src/idempotency.ts: the first result for a key is kept.
use koven.Prelude.{String, Option, none, some, ◌∷◌, ◌==◌, if◌then◌else◌}
use koven.Domain.Errors.{persistence_conflict, PersistenceConflict}
use koven.Exec.{Exec, ok, err, gets, ◌>>=◌}
use koven.Sql.{select, has_key}
use koven.Persistence.Db.{Db, IdempotencyResult}

abbrev pub result_key : IdempotencyResult → String
result_key r = r.key

unfoldable pub get_idempotency_result : String → Exec Db (Option IdempotencyResult)
get_idempotency_result key = gets λ db. select (has_key result_key key) db.idempotency_results

-- The `catch` of the INSERT, with the row that holds the key already.
insert_result : IdempotencyResult → Option IdempotencyResult → Exec Db IdempotencyResult
insert_result r none db = (ok r, record db { idempotency_results = r ∷ db.idempotency_results })
insert_result r (some existing) db = (
  if existing.request_hash == r.request_hash
      then ok existing
      else err (persistence_conflict PersistenceConflict.idempotency_conflict),
  db,
)

unfoldable pub create_idempotency_result : IdempotencyResult → Exec Db IdempotencyResult
unfolding get_idempotency_result insert_result
create_idempotency_result r = do existing ← get_idempotency_result r.key; insert_result r existing
