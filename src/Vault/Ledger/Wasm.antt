-- ===== src/Vault/Ledger/Wasm.antt =====
-- src/vault.rs: the transfer on the wasm32 target, where the host computes on the serialized
-- ciphertexts, and the entry points for wasm.
pub mod Native
use aethel_runtime.Base.{ℕ, not, ◌||◌, Option, none, some, [], ◌==◌, if◌then◌else◌, length, ok, err}
use aethel_runtime.Base.Bytes.{Bytes}
use aethel_runtime.Base.Options.{◌>>=◌}
use aethel_runtime.Auth.Fingerprint.{take}
use aethel_runtime.Vault.Ledger.{
  err_deser, err_invalid_key, err_not_found, err_ok, Ledger, Fhe, entry_at, indices, state_or_new,
  write_back, with_state_mut, register_vault_ciphertext,
}
use aethel_runtime.Vault.Ledger.Access.{
  Plp, register_vault_with_identity, homomorphic_transfer_authenticated_bytes,
}

abbrev pub buf_size : ℕ
buf_size = 65536

-- The functions that the host provides: each is given its input bytes and the room for its answer, and
-- leaves a buffer and the length of the answer in it.
pub record HostFhe : Type 0 where
  pub host_fhe_ge : Bytes → Bytes → ℕ → Bytes × ℕ
  pub host_fhe_zero : ℕ → Bytes × ℕ
  pub host_fhe_select : Bytes → Bytes → Bytes → ℕ → Bytes × ℕ
  pub host_fhe_sub : Bytes → Bytes → ℕ → Bytes × ℕ
  pub host_fhe_add : Bytes → Bytes → ℕ → Bytes × ℕ

-- `if len == 0 { return None }` and `buf.truncate(len)`.
abbrev pub answered : Bytes × ℕ → Option Bytes
answered (buf, len) = if len == 0 then none else some (take len buf)

module _ (host : HostFhe) where
  unfoldable pub do_homomorphic_transfer_wasm : Bytes → Bytes → Bytes → Option (Bytes × Bytes)
  do_homomorphic_transfer_wasm sender_ct receiver_ct transfer_ct = do
    ge_buf ← answered (host.host_fhe_ge sender_ct transfer_ct buf_size)
    zero_buf ← answered (host.host_fhe_zero buf_size)
    deduction_buf ← answered (host.host_fhe_select ge_buf transfer_ct zero_buf buf_size)
    new_sender_buf ← answered (host.host_fhe_sub sender_ct deduction_buf buf_size)
    new_receiver_buf ← answered (host.host_fhe_add receiver_ct deduction_buf buf_size)
    some (new_sender_buf, new_receiver_buf)

  -- What follows the lookup of the indices, on wasm32.
  unfoldable pub transfer_between_wasm : Ledger → ℕ → ℕ → Bytes → ℕ × Ledger
  unfolding do_homomorphic_transfer_wasm entry_at with_state_mut write_back
  transfer_between_wasm l si ri transfer_ct =
      let balances = (state_or_new l.state).balances in
      elim (do_homomorphic_transfer_wasm (entry_at balances si) (entry_at balances ri)
        transfer_ct) [
          | none ↦ (err_deser, l)
          | some (new_sender, new_receiver) ↦
              (err_ok, with_state_mut (write_back si ri new_sender new_receiver) l)
        ]

  -- `homomorphic_transfer` as it is compiled for wasm32: no server key is asked for.
  unfoldable pub homomorphic_transfer_wasm : Ledger → Bytes → Bytes → Bytes → ℕ × Ledger
  unfolding indices transfer_between_wasm
  homomorphic_transfer_wasm l sender receiver transfer_ct =
      if not (length sender == 32) || not (length receiver == 32)
      then (err_deser, l)
      else elim (indices l sender receiver) [
        | none ↦ (err_not_found, l)
        | some (si, ri) ↦ transfer_between_wasm l si ri transfer_ct
      ]

-- The entry points without the `fhe-state` feature, which keep no state.
abbrev pub init_vault_absent : Bytes → ℕ
init_vault_absent server_key_bytes = err_deser

abbrev pub register_vault_ciphertext_absent : Bytes → Bytes → ℕ
register_vault_ciphertext_absent vault_id initial_ct = err_deser

abbrev pub homomorphic_transfer_absent : Bytes → Bytes → Bytes → ℕ
homomorphic_transfer_absent sender receiver transfer_ct = err_invalid_key

abbrev pub import_vault_state_absent : Bytes → ℕ
import_vault_state_absent state_bytes = err_deser

module _ {K C B Projection Proof : Type 0} (fhe : Fhe K C B) (shake256_32 : Bytes → Bytes)
    (plp : Plp Projection Proof) where
  unfoldable pub wasm_vault_register : Ledger → Bytes → Bytes → ℕ × Ledger
  unfolding register_vault_ciphertext
  wasm_vault_register l vault_id initial_balance_ct =
      register_vault_ciphertext l vault_id initial_balance_ct

  unfoldable pub wasm_vault_transfer_authenticated_bytes :
      Ledger → Bytes → Bytes → Bytes → Bytes → Bytes → Bytes → ℕ × Ledger
  unfolding homomorphic_transfer_authenticated_bytes
  wasm_vault_transfer_authenticated_bytes l sender receiver transfer_ct projection proof context =
      if not (length sender == 32) || not (length receiver == 32)
      then (err_deser, l)
      else homomorphic_transfer_authenticated_bytes shake256_32 plp fhe l sender receiver
          transfer_ct projection proof context

  -- The new ID, or no bytes where the projection does not decode.
  unfoldable pub wasm_vault_register_with_identity : Ledger → Bytes → Bytes → Bytes × Ledger
  unfolding register_vault_with_identity
  wasm_vault_register_with_identity l projection initial_balance_ct =
      let (r, l') = register_vault_with_identity shake256_32 plp l projection initial_balance_ct in
      (elim r [ ok id ↦ id | err e ↦ [] ], l')
