-- ===== src/Auth.antt =====
-- The crate crates/aethel-auth: statements signed by a holder, and their verification by a relying
-- party.
pub mod Core
pub mod Error
pub mod Base64
pub mod Nonce
pub mod Envelope
pub mod Login
pub mod StepUp
pub mod Delegation
pub mod Approval
pub mod Statements
pub mod Holder
pub mod Fingerprint
pub mod Keys
pub mod Service
pub mod Replay
pub mod Toy
mod Examples
