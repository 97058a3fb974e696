-- ===== src/Vault/Ledger/Custody.antt =====
-- What is persisted and restored, and what registering a vault does to the others.
use aethel_runtime.Base.{
  ◌≡◌, refl, ◌≢◌, inl, inr, none, some, [], ◌∷◌, arith, if◌then◌else◌, Option-cases, length,
}
use aethel_runtime.Base.Bytes.{Bytes, bytes_eq}
use aethel_runtime.Vault.Ledger.{
  err_ok, Ledger, VaultState, Fhe, StateCodec, find_entry, with_state_mut, vault_get_balance,
  transfer_between, homomorphic_transfer, export_vault_state_inner, import_vault_state,
  register_vault_ciphertext,
}
use aethel_runtime.Vault.Ledger.Cells.{find_entry-append}

module _ (codec : StateCodec) where
  -- An exported ledger, imported into any other, restores the balances and the identity bindings, and
  -- leaves the other's server key as it was, where the codec reads back what it writes of this state.
  pub import-export :
      (l other : Ledger) (s : VaultState) (b : Bytes)
      → l.state ≡ some s
      → codec.serialize s ≡ some b
      → codec.deserialize b ≡ some s
      → import_vault_state codec other (export_vault_state_inner codec l)
        ≡ (err_ok, record other { state = some s })
  unfolding import_vault_state export_vault_state_inner
  import-export l other s b h hs hd = rw (h, hs, hd) refl

  -- Whatever bytes are imported into a ledger that has no server key, no transfer succeeds on it, and
  -- none changes it.
  pub import-no_transfer :
      {K C B : Type 0} (fhe : Fhe K C B) (l : Ledger) (b sender receiver transfer_ct : Bytes)
      → l.server_key_bytes ≡ none
      → ((homomorphic_transfer fhe (import_vault_state codec l b).1 sender receiver transfer_ct).0
          ≢ err_ok)
        × ((homomorphic_transfer fhe (import_vault_state codec l b).1 sender receiver transfer_ct).1
            ≡ (import_vault_state codec l b).1)
  unfolding import_vault_state homomorphic_transfer transfer_between
  import-no_transfer fhe l [] sender receiver transfer_ct h = ground arith
  import-no_transfer fhe l (v ∷ b) sender receiver transfer_ct h = ground arith

-- Registering a vault under an ID of 32 bytes succeeds and leaves every balance that a lookup finds
-- as it was, its own too if the ID was registered before; an ID that was not registered has the new
-- ciphertext.
pub register-get_balance :
    (l : Ledger) (vault_id ct v : Bytes)
    → length vault_id ≡ 32
    → ((register_vault_ciphertext l vault_id ct).0 ≡ err_ok)
      × (vault_get_balance (register_vault_ciphertext l vault_id ct).1 v
          ≡ elim (vault_get_balance l v) [
            | none ↦ if bytes_eq vault_id v then some ct else none
            | some u ↦ some u
          ])
unfolding register_vault_ciphertext vault_get_balance with_state_mut
register-get_balance l vault_id ct v h = (
  ground arith,
  elim (Option-cases l.state) [
    | inl e ↦ rw (h, e) (unfold find_entry in refl)
    | inr (s, e) ↦ rw (h, e) (find_entry-append v vault_id ct s.balances)
  ],
)
