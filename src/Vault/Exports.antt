-- ===== src/Vault/Exports.antt =====
-- src/lib.rs, and the functions of src/vault.rs that it calls: what the module exports over byte slices.
pub mod Vaults
pub mod Identities
use aethel_runtime.Base.{ℕ}
use aethel_runtime.Base.Bytes.{Bytes}
use aethel_runtime.Vault.Ledger.{
  Ledger, Fhe, StateCodec, init_vault, register_vault_ciphertext, homomorphic_transfer,
  export_vault_state_inner, import_vault_state,
}
use aethel_runtime.Vault.Ledger.Access.{Plp, derive_vault_id}
use aethel_runtime.Vault.Ledger.Wasm.{
  wasm_vault_transfer_authenticated_bytes, wasm_vault_register_with_identity,
}

module _ {K C B Projection Proof : Type 0} (fhe : Fhe K C B) (codec : StateCodec)
    (shake256_32 : Bytes → Bytes) (plp : Plp Projection Proof) where
  unfoldable pub vault_init_from_bytes : Ledger → Bytes → ℕ × Ledger
  unfolding init_vault
  vault_init_from_bytes l server_key_bytes = init_vault fhe l server_key_bytes

  unfoldable pub vault_register_from_bytes : Ledger → Bytes → Bytes → ℕ × Ledger
  unfolding register_vault_ciphertext
  vault_register_from_bytes l vault_id initial_balance_ct =
      register_vault_ciphertext l vault_id initial_balance_ct

  unfoldable pub vault_transfer_from_bytes : Ledger → Bytes → Bytes → Bytes → ℕ × Ledger
  unfolding homomorphic_transfer
  vault_transfer_from_bytes l sender_id receiver_id transfer_ct =
      homomorphic_transfer fhe l sender_id receiver_id transfer_ct

  unfoldable pub vault_init : Ledger → Bytes → ℕ × Ledger
  unfolding vault_init_from_bytes
  vault_init l server_key_bytes = vault_init_from_bytes l server_key_bytes

  unfoldable pub vault_register : Ledger → Bytes → Bytes → ℕ × Ledger
  unfolding vault_register_from_bytes
  vault_register l vault_id initial_balance_ct =
      vault_register_from_bytes l vault_id initial_balance_ct

  unfoldable pub vault_transfer : Ledger → Bytes → Bytes → Bytes → ℕ × Ledger
  unfolding vault_transfer_from_bytes
  vault_transfer l sender_id receiver_id transfer_ct =
      vault_transfer_from_bytes l sender_id receiver_id transfer_ct

  unfoldable pub vault_transfer_authenticated_bytes :
      Ledger → Bytes → Bytes → Bytes → Bytes → Bytes → Bytes → ℕ × Ledger
  unfolding wasm_vault_transfer_authenticated_bytes
  vault_transfer_authenticated_bytes l sender_id receiver_id transfer_ct projection proof context =
      wasm_vault_transfer_authenticated_bytes fhe shake256_32 plp l sender_id receiver_id
        transfer_ct projection proof context

  unfoldable pub vault_register_with_identity : Ledger → Bytes → Bytes → Bytes × Ledger
  unfolding wasm_vault_register_with_identity
  vault_register_with_identity l projection initial_balance_ct =
      wasm_vault_register_with_identity fhe shake256_32 plp l projection initial_balance_ct

  unfoldable pub vault_export_state : Ledger → Bytes
  unfolding export_vault_state_inner
  vault_export_state l = export_vault_state_inner codec l

  unfoldable pub vault_import_state : Ledger → Bytes → ℕ × Ledger
  unfolding import_vault_state
  vault_import_state l state_bytes = import_vault_state codec l state_bytes

  unfoldable pub vault_derive_id : Bytes → Bytes
  unfolding derive_vault_id
  vault_derive_id projection_bytes = derive_vault_id shake256_32 projection_bytes
