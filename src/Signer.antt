-- ===== src/Signer.antt =====
-- services/restricted-signer/src: the service that holds the borrower's key.
pub mod Types
pub mod Store
pub mod Safety
pub mod Repay
pub mod Gate
pub mod Complete
pub mod Credit
pub mod Ledger
