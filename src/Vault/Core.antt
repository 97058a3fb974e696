-- ===== src/Vault/Core.antt =====
-- What the vault crate takes from outside the repository besides signing: Keccak-256 (`sha3`) and
-- the registered purposes of `aethel_core::signing::purpose`.
use aethel_runtime.Base.Bytes.{Bytes}
use aethel_runtime.Auth.Core.{Core}

pub record VaultCore (E I : Type 0) : Type 0 where
  pub core : Core E I
  pub keccak256 : Bytes → Bytes
  pub vault_hitl_approval_v1 : Bytes
  pub vault_spend_intent_v1 : Bytes
  pub vault_settlement_receipt_v1 : Bytes
  pub vault_wallet_bind_v1 : Bytes
