-- ===== src/Cli.antt =====
-- crates/aethel-auth-cli/src: the terminal signer.
pub mod Host
pub mod Action
pub mod Laws
pub mod Passphrase
pub mod IdentityFile
pub mod Recovery
pub mod Run
pub mod Main
pub mod Toy
mod Examples
