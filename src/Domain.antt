-- ===== src/Domain.antt =====
-- packages/domain/src: the types that every component shares.
pub mod Mission
pub mod Credit
pub mod Scan
pub mod Errors
pub mod Provider
