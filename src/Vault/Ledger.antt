-- ===== src/Vault/Ledger.antt =====
-- src/vault.rs: the confidential ledger, on the native target with the `fhe-state` feature.
pub mod Cells
pub mod Balances
pub mod Transfer
pub mod Custody
pub mod Access
pub mod Bindings
pub mod Identity
pub mod Wasm
use aethel_runtime.Base.{
  ℕ, zero, suc, not, ◌||◌, Option, none, some, List, [], ◌∷◌, ◌++◌, ◌==◌, if◌then◌else◌, length,
}
use aethel_runtime.Base.Bytes.{Bytes, bytes_eq}
use aethel_runtime.Base.Options.{◌>>=◌, map}

abbrev pub err_ok : ℕ
err_ok = 0

abbrev pub err_not_found : ℕ
err_not_found = 1

abbrev pub err_deser : ℕ
err_deser = 3

abbrev pub err_invalid_key : ℕ
err_invalid_key = 4

abbrev pub vault_state_version : ℕ
vault_state_version = 2

-- Vault IDs with bytes: a ciphertext, or a projection.
abbrev pub Entries : Type 0
Entries = List (Bytes × Bytes)

pub record VaultState : Type 0 where
  pub balances : Entries
  pub identity_projections : Entries

-- The thread-locals `STATE`, `RUNTIME_KEYS` and `EXPORT_BUFFER`.
pub record Ledger : Type 0 where
  pub state : Option VaultState
  pub server_key_bytes : Option Bytes
  pub export_buffer : Bytes

-- `tfhe` and `bincode`: a server key, ciphertexts of a `u64` and of a Boolean. The operations take the
-- key that `set_server_key` has set.
pub record Fhe (K C B : Type 0) : Type 0 where
  pub deserialize_key : Bytes → Option K
  pub deserialize_ct : Bytes → Option C
  pub serialize_ct : C → Option Bytes
  pub encrypt_trivial : ℕ → C
  pub ge : K → C → C → B
  pub if_then_else : K → B → C → C → C
  pub sub : K → C → C → C
  pub add : K → C → C → C

-- `bincode` of the persisted state.
pub record StateCodec : Type 0 where
  pub serialize : VaultState → Option Bytes
  pub deserialize : Bytes → Option VaultState

-- `.iter().position(|(id, _)| *id == key)`
unfoldable pub position : Bytes → Entries → Option ℕ
position key [] = none
position key ((id, v) ∷ m) =
    let rest = position key m in if bytes_eq id key then some 0 else map suc rest

-- `.iter().find(|(id, _)| id == key).map(|(_, v)| v.clone())`
unfoldable pub find_entry : Bytes → Entries → Option Bytes
find_entry key [] = none
find_entry key ((id, v) ∷ m) =
    let rest = find_entry key m in if bytes_eq id key then some v else rest

-- `entries[i].1`, at an index that `position` has found.
unfoldable pub entry_at : Entries → ℕ → Bytes
entry_at [] i = []
entry_at ((id, v) ∷ m) zero = v
entry_at ((id, v) ∷ m) (suc i) = entry_at m i

-- `entries[i].1 = new`, at such an index.
unfoldable pub set_entry : ℕ → Bytes → Entries → Entries
set_entry i new [] = []
set_entry zero new ((id, v) ∷ m) = (id, new) ∷ m
set_entry (suc i) new ((id, v) ∷ m) = (id, v) ∷ set_entry i new m

abbrev pub empty_state : VaultState
empty_state = record { balances = []; identity_projections = [] }

abbrev pub state_or_new : Option VaultState → VaultState
state_or_new none = empty_state
state_or_new (some s) = s

unfoldable pub with_state_mut : (VaultState → VaultState) → Ledger → Ledger
with_state_mut f l = record l { state = some (f (state_or_new l.state)) }

unfoldable pub register_vault_ciphertext : Ledger → Bytes → Bytes → ℕ × Ledger
unfolding with_state_mut
register_vault_ciphertext l vault_id ct = if not (length vault_id == 32) then (err_deser, l) else (
  err_ok,
  with_state_mut (λ s. record s { balances = s.balances ++ ((vault_id, ct) ∷ []) }) l,
)

unfoldable pub vault_get_balance : Ledger → Bytes → Option Bytes
unfolding find_entry
vault_get_balance l vault_id = do s ← l.state; find_entry vault_id s.balances

-- The indices of the sender and of the receiver.
unfoldable pub indices : Ledger → Bytes → Bytes → Option (ℕ × ℕ)
unfolding position
indices l sender receiver = do
  s ← l.state
  si ← position sender s.balances
  ri ← position receiver s.balances
  some (si, ri)

-- The two writes of a transfer, in their order.
unfoldable pub write_back : ℕ → ℕ → Bytes → Bytes → VaultState → VaultState
unfolding set_entry
write_back si ri new_sender new_receiver s = record s {
  balances = set_entry ri new_receiver (set_entry si new_sender s.balances);
}

module _ {K C B : Type 0} (fhe : Fhe K C B) where
  -- The native `do_homomorphic_transfer`.
  unfoldable pub do_homomorphic_transfer : Bytes → Bytes → Bytes → Bytes → Option (Bytes × Bytes)
  do_homomorphic_transfer sender_ct receiver_ct transfer_ct server_key_bytes = do
    key ← fhe.deserialize_key server_key_bytes
    sender_balance ← fhe.deserialize_ct sender_ct
    receiver_balance ← fhe.deserialize_ct receiver_ct
    transfer_amount ← fhe.deserialize_ct transfer_ct
    let is_sufficient = fhe.ge key sender_balance transfer_amount
    let actual_deduction =
        fhe.if_then_else key is_sufficient transfer_amount (fhe.encrypt_trivial 0)
    new_sender ← fhe.serialize_ct (fhe.sub key sender_balance actual_deduction)
    new_receiver ← fhe.serialize_ct (fhe.add key receiver_balance actual_deduction)
    some (new_sender, new_receiver)

  unfoldable pub init_vault : Ledger → Bytes → ℕ × Ledger
  init_vault l key_bytes = elim (fhe.deserialize_key key_bytes) [
    | none ↦ (err_deser, l)
    | some _ ↦ (err_ok, record l { server_key_bytes = some key_bytes })
  ]

  -- What follows the lookup of the indices.
  unfoldable pub transfer_between : Ledger → ℕ → ℕ → Bytes → Option Bytes → ℕ × Ledger
  unfolding do_homomorphic_transfer with_state_mut write_back entry_at
  transfer_between l si ri transfer_ct none = (err_invalid_key, l)
  transfer_between l si ri transfer_ct (some key_bytes) =
      let balances = (state_or_new l.state).balances in
      elim (do_homomorphic_transfer (entry_at balances si) (entry_at balances ri) transfer_ct
        key_bytes) [
          | none ↦ (err_deser, l)
          | some (new_sender, new_receiver) ↦
              (err_ok, with_state_mut (write_back si ri new_sender new_receiver) l)
        ]

  unfoldable pub homomorphic_transfer : Ledger → Bytes → Bytes → Bytes → ℕ × Ledger
  unfolding indices transfer_between
  homomorphic_transfer l sender receiver transfer_ct =
      if not (length sender == 32) || not (length receiver == 32)
      then (err_deser, l)
      else elim (indices l sender receiver) [
        | none ↦ (err_not_found, l)
        | some (si, ri) ↦ transfer_between l si ri transfer_ct l.server_key_bytes
      ]

module _ (codec : StateCodec) where
  -- `unwrap_or_default` of the serialized state.
  abbrev pub or_empty : Option Bytes → Bytes
  or_empty none = []
  or_empty (some b) = b

  unfoldable pub export_vault_state_inner : Ledger → Bytes
  export_vault_state_inner l = elim l.state [
    | none ↦ []
    | some s ↦ vault_state_version ∷ or_empty (codec.serialize s)
  ]

  -- The length, with the bytes left in the buffer that `export_vault_state_ptr` points to.
  unfoldable pub export_vault_state_len : Ledger → ℕ × Ledger
  unfolding export_vault_state_inner
  export_vault_state_len l =
      let bytes = export_vault_state_inner l in (length bytes, record l { export_buffer = bytes })

  unfoldable pub import_vault_state : Ledger → Bytes → ℕ × Ledger
  import_vault_state l [] = (err_deser, l)
  import_vault_state l (version ∷ bytes) =
      if not (version == vault_state_version)
      then (err_deser, l)
      else elim (codec.deserialize bytes) [
        | none ↦ (err_deser, l)
        | some s ↦ (err_ok, record l { state = some s })
      ]
