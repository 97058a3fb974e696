-- ===== src/Vault.antt =====
-- The crate aethel-vault (src/): the spend policy, settlement authorizations, receipts, and the
-- confidential ledger.
pub mod Policy
pub mod Core
pub mod Error
pub mod Settlement
pub mod Binding
pub mod Wallet
pub mod Ledger
pub mod Exports
pub mod Client
pub mod Helix
mod Examples
