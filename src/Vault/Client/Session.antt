-- ===== src/Vault/Client/Session.antt =====
-- src/client.rs with src/vault.rs: a client's session with its ledger, from encryption to decryption.
use aethel_runtime.Base.{ℕ, ◌^◌, ◌<◌, ◌≡◌, ◌≢◌, none, some, length}
use aethel_runtime.Base.Bytes.{Bytes}
use aethel_runtime.Vault.Ledger.{Ledger, Fhe, vault_get_balance}
use aethel_runtime.Vault.Ledger.Balances.{Decrypts}
use aethel_runtime.Vault.Client.{
  LedgerPayload, Tfhe, NativeVaultClient, new, encrypt_u64_balance, export_server_key,
  build_payload,
}
use aethel_runtime.Vault.Client.Keys.{Belongs, Settles, session_of_keys}

module _ {R CK PK K C B : Type 0} (tfhe : Tfhe R CK PK K C) (fhe : Fhe K C B) where
  -- What `tfhe` and `bincode` document of the keys that one call of `generate_keys` returns: the server
  -- key computes on what the client key decrypts, encryption never fails, and the server key survives
  -- its serialization.
  pub record Documents : Type 0 where
    pub computes : (r : R) → Decrypts fhe (tfhe.generate_keys r).1
    pub decrypts :
        (r : R) (c : C) → tfhe.decrypt c (tfhe.generate_keys r).0 ≡ (computes r).decrypt c
    pub encrypts :
        (r r' : R) (n : ℕ)
        → n < 2 ^ 64
        → (c : C) × (tfhe.try_encrypt r' n (tfhe.generate_keys r).0 ≡ some c)
          × ((computes r).decrypt c ≡ n)
    pub key_survives :
        (r : R)
        → (b : Bytes) × (tfhe.serialize_key (tfhe.generate_keys r).1 ≡ some b)
          × (fhe.deserialize_key b ≡ some (tfhe.generate_keys r).1)

  module _ (documents : Documents) where
    -- The keys of a new client are those of one call of `generate_keys`.
    abbrev pub new_client : R → R → NativeVaultClient CK PK K
    new_client r r' = new tfhe fhe r r'

    pub new_keys : (r r' : R) → Decrypts fhe (new_client r r').server_key
    unfolding new
    new_keys r r' = documents.computes r

    pub new-Belongs : (r r' : R) → Belongs tfhe fhe (new_client r r') (new_keys r r')
    unfolding new new_keys
    new-Belongs r r' = record {
      decrypts = documents.decrypts r;
      encrypts = documents.encrypts r;
      key_survives = documents.key_survives r;
    }

    -- A newly generated client that sets its server key, registers two fresh vaults with encrypted
    -- balances, and transfers the encrypted amount of a payload that it built, gets each of its bytes
    -- from its own calls without an error, and reads back the sender's balance less the amount and the
    -- receiver's with it, modulo 2 ^ 64, or both unchanged where the sender has less. The numbers are
    -- below 2 ^ 64, the two IDs differ and have 32 bytes, and `tfhe` does what it documents of the keys
    -- that it generates together.
    pub session-read_back :
        (r r' : R) (l : Ledger) (a b context_tag : Bytes) (m n t target : ℕ) (r₁ r₂ r₃ r₄ : R)
        → length a ≡ 32
        → length b ≡ 32
        → a ≢ b
        → vault_get_balance l a ≡ none
        → vault_get_balance l b ≡ none
        → m < 2 ^ 64
        → n < 2 ^ 64
        → t < 2 ^ 64
        → target < 2 ^ 64
        → (key_bytes ct_a ct_b : Bytes) × (payload : LedgerPayload) × (export_server_key tfhe fhe
              (new_client r r')
            ≡ some key_bytes)
          × (encrypt_u64_balance tfhe fhe r₁ (new_client r r') m ≡ some ct_a)
          × (encrypt_u64_balance tfhe fhe r₂ (new_client r r') n ≡ some ct_b)
          × (build_payload tfhe fhe r₃ r₄ (new_client r r') context_tag t target ≡ some payload)
          × Settles tfhe fhe
              (new_client r r')
              (new_keys r r')
              (new-Belongs r r')
              l
              key_bytes
              a
              ct_a
              b
              ct_b
              payload.encrypted_amount
              m
              n
              t
    session-read_back r r' =
        session_of_keys tfhe fhe (new_client r r') (new_keys r r') (new-Belongs r r')
