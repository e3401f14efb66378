-- ===== src/Persistence.antt =====
-- packages/persistence/src: the SQLite tables and the functions that read and write them. Each
-- service has a database of its own with these tables.
pub mod Db
pub mod Missions
pub mod Nonces
pub mod Budget
pub mod Loans
pub mod Events
pub mod Outbox
pub mod Idempotency
pub mod Completions
