-- ===== src/Vault/Client.antt =====
-- src/client.rs: the holder's side of the confidential ledger. `none` is an error of `tfhe` or of
-- `bincode`.
pub mod Keys
pub mod Session
use aethel_runtime.Base.{ℕ, not, Option, some, ◌==◌, if◌then◌else◌, length, Result, err, ok_or}
use aethel_runtime.Base.Bytes.{Bytes}
use aethel_runtime.Base.Options.{◌>>=◌}
use aethel_runtime.Vault.Ledger.{Fhe}

pub record LedgerPayload : Type 0 where
  pub context_tag : Bytes
  pub encrypted_amount : Bytes
  pub encrypted_target : Bytes

-- The client side of `tfhe`, and `bincode` of a server key and of a payload: `CK` is a client key, `PK`
-- a public key, `K` a server key, `C` a ciphertext, and `R` the randomness that a call draws.
pub record Tfhe (R CK PK K C : Type 0) : Type 0 where
  pub generate_keys : R → CK × K
  pub new_public_key : R → CK → PK
  pub try_encrypt : R → ℕ → CK → Option C
  pub decrypt : C → CK → ℕ
  pub serialize_key : K → Option Bytes
  pub serialize_payload : LedgerPayload → Option Bytes

pub record NativeVaultClient (CK PK K : Type 0) : Type 0 where
  pub client_key : CK
  pub public_key : PK
  pub server_key : K

-- The two errors of `build_payload_from_ciphertexts`.
pub data PayloadError : Type 0 where
  bad_tag assembly_failed : PayloadError

module _ {R CK PK K C B : Type 0} (tfhe : Tfhe R CK PK K C) (fhe : Fhe K C B) where
  unfoldable pub new : R → R → NativeVaultClient CK PK K
  new r r' =
      let (client_key, server_key) = tfhe.generate_keys r in
      record {
        client_key = client_key;
        public_key = tfhe.new_public_key r' client_key;
        server_key = server_key;
      }

  unfoldable pub encrypt_u64_balance : R → NativeVaultClient CK PK K → ℕ → Option Bytes
  encrypt_u64_balance r client amount = do
    ct ← tfhe.try_encrypt r amount client.client_key
    fhe.serialize_ct ct

  unfoldable pub decrypt_u64_balance : NativeVaultClient CK PK K → Bytes → Option ℕ
  decrypt_u64_balance client encrypted_bytes = do
    ct ← fhe.deserialize_ct encrypted_bytes
    some (tfhe.decrypt ct client.client_key)

  unfoldable pub export_server_key : NativeVaultClient CK PK K → Option Bytes
  export_server_key client = tfhe.serialize_key client.server_key

  unfoldable pub build_payload :
      R → R → NativeVaultClient CK PK K → Bytes → ℕ → ℕ → Option LedgerPayload
  unfolding encrypt_u64_balance
  build_payload r r' client context_tag amount target_account = do
    encrypted_amount ← encrypt_u64_balance r client amount
    encrypted_target ← encrypt_u64_balance r' client target_account
    some (record {
      context_tag = context_tag;
      encrypted_amount = encrypted_amount;
      encrypted_target = encrypted_target;
    })

  -- The method of the `wasm` client, which uses none of its key bytes.
  unfoldable pub build_payload_from_ciphertexts : Bytes → Bytes → Bytes → Result PayloadError Bytes
  build_payload_from_ciphertexts context_tag encrypted_amount encrypted_target =
      if not (length context_tag == 32)
      then err bad_tag
      else ok_or
          (tfhe.serialize_payload (record {
            context_tag = context_tag;
            encrypted_amount = encrypted_amount;
            encrypted_target = encrypted_target;
          }))
          assembly_failed
