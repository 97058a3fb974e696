-- ===== src/Vault/Ledger/Wasm/Native.antt =====
-- src/vault.rs: the transfer on wasm32 is the native one, over a host that serves the operations.
use aethel_runtime.Base.{ℕ, ◌≡◌, not, ◌||◌, Option, none, some, ◌==◌, if◌then◌else◌, length}
use aethel_runtime.Base.Bytes.{Bytes}
use aethel_runtime.Base.Options.{◌>>=◌}
use aethel_runtime.Vault.Ledger.{
  err_deser, err_ok, err_not_found, with_state_mut, write_back, Ledger, Fhe, indices,
}
use aethel_runtime.Vault.Ledger.Wasm.{buf_size, HostFhe, answered}

-- The host serves the operations of `tfhe` under a server key: it answers with the serialized result
-- where its inputs decode, in the room given, and with no bytes where they do not.
pub record Serves {K C B : Type 0} (fhe : Fhe K C B) (key : K) (host : HostFhe) : Type 0 where
  pub encode_bool : B → Bytes
  pub compares :
      (a b : Bytes)
      → answered (host.host_fhe_ge a b buf_size) ≡ (do
        x ← fhe.deserialize_ct a
        y ← fhe.deserialize_ct b
        some (encode_bool (fhe.ge key x y)))
  pub zero_served :
      answered (host.host_fhe_zero buf_size) ≡ fhe.serialize_ct (fhe.encrypt_trivial 0)
  pub selects :
      (c : B) (a b : Bytes)
      → answered (host.host_fhe_select (encode_bool c) a b buf_size) ≡ (do
        x ← fhe.deserialize_ct a
        y ← fhe.deserialize_ct b
        fhe.serialize_ct (fhe.if_then_else key c x y))
  pub subtracts :
      (a b : Bytes)
      → answered (host.host_fhe_sub a b buf_size) ≡ (do
        x ← fhe.deserialize_ct a
        y ← fhe.deserialize_ct b
        fhe.serialize_ct (fhe.sub key x y))
  pub adds :
      (a b : Bytes)
      → answered (host.host_fhe_add a b buf_size) ≡ (do
        x ← fhe.deserialize_ct a
        y ← fhe.deserialize_ct b
        fhe.serialize_ct (fhe.add key x y))
  pub survives :
      (c : C) → (b : Bytes) × (fhe.serialize_ct c ≡ some b) × (fhe.deserialize_ct b ≡ some c)

module _ {K C B : Type 0} (fhe : Fhe K C B) (key : K) (host : HostFhe)
    (serves : Serves fhe key host) where
  -- What the transfer does with the two new ciphertexts.
  abbrev after_transfer : Ledger → ℕ → ℕ → Option (Bytes × Bytes) → ℕ × Ledger
  after_transfer l si ri r = elim r [
    | none ↦ (err_deser, l)
    | some (new_sender, new_receiver) ↦
        (err_ok, with_state_mut (write_back si ri new_sender new_receiver) l)
  ]

  -- The guard on the IDs and the lookup, before what is done between two indices.
  abbrev after_lookup : Ledger → Bytes → Bytes → (ℕ → ℕ → ℕ × Ledger) → ℕ × Ledger
  after_lookup l sender receiver k =
      if not (length sender == 32) || not (length receiver == 32)
      then (err_deser, l)
      else elim (indices l sender receiver) [ none ↦ (err_not_found, l) | some (si, ri) ↦ k si ri ]
