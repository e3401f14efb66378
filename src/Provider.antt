-- ===== src/Provider.antt =====
-- services/resource-server: the provider that scans for a payment, with its store, its checks of a
-- payment, its settlement and its callbacks.
pub mod Types
pub mod Payments
pub mod Settlements
pub mod Callbacks
pub mod Life
pub mod Authorization
pub mod Scan
pub mod Server
pub mod Dispatch
pub mod Confirm
