-- ===== src/Vault/Client/Keys.antt =====
-- src/client.rs with src/vault.rs: a session of a client to which its keys belong with its ledger, from
-- encryption to decryption.
use aethel_runtime.Base.{
  ℕ, ◌+◌, ◌-◌, ◌%◌, ◌^◌, ◌<◌, ◌≡◌, refl, sym, ap, ◌∙◌, ◌≢◌, inl, inr, Option, none, some, [], arith,
  Bool-cases, Option-cases, length,
}
use aethel_runtime.Base.Bytes.{Bytes, bytes_eq, bytes_eq_iff}
use aethel_runtime.Base.Options.{◌>>=◌}
use aethel_runtime.Vault.Ledger.{
  err_ok, Ledger, Fhe, init_vault, with_state_mut, register_vault_ciphertext, homomorphic_transfer,
  vault_get_balance,
}
use aethel_runtime.Vault.Ledger.Balances.{Decrypts, balance, plain, moved}
use aethel_runtime.Vault.Ledger.Transfer.{Ready, homomorphic_transfer-balances}
use aethel_runtime.Vault.Ledger.Custody.{register-get_balance}
use aethel_runtime.Vault.Client.{
  LedgerPayload, Tfhe, NativeVaultClient, encrypt_u64_balance, decrypt_u64_balance,
  export_server_key, build_payload,
}

register-fresh :
    (l : Ledger) (id ct : Bytes)
    → length id ≡ 32
    → vault_get_balance l id ≡ none
    → vault_get_balance (register_vault_ciphertext l id ct).1 id ≡ some ct
register-fresh l id ct h fresh =
    (register-get_balance l id ct id h).1 ∙ rw (fresh, (bytes_eq_iff id id).1 refl) refl

register-other :
    (l : Ledger) (id ct v : Bytes)
    → length id ≡ 32
    → id ≢ v
    → vault_get_balance (register_vault_ciphertext l id ct).1 v ≡ vault_get_balance l v
register-other l id ct v h apart = elim (Option-cases (vault_get_balance l v)) [
  | inl e ↦ elim (Bool-cases (bytes_eq id v)) [
    | inl same ↦ absurd (apart ((bytes_eq_iff id v).0 same))
    | inr differ ↦ (register-get_balance l id ct v h).1 ∙ rw (e, differ) refl
  ]
  | inr (u, e) ↦ (register-get_balance l id ct v h).1 ∙ rw e refl
]

register-server_key_bytes :
    (l : Ledger) (id ct : Bytes)
    → (register_vault_ciphertext l id ct).1.server_key_bytes ≡ l.server_key_bytes
unfolding register_vault_ciphertext with_state_mut
register-server_key_bytes l id ct = ground arith

module _ {R CK PK K C B : Type 0} (tfhe : Tfhe R CK PK K C) (fhe : Fhe K C B) where
  -- What `tfhe` and `bincode` document of a client's keys: the client key decrypts what it encrypted
  -- and what the server key computed, and the server key survives its serialization.
  pub record Belongs (client : NativeVaultClient CK PK K) (d : Decrypts fhe client.server_key)
      : Type 0 where
    pub decrypts : (c : C) → tfhe.decrypt c client.client_key ≡ d.decrypt c
    pub encrypts :
        (r : R) (n : ℕ)
        → n < 2 ^ 64
        → (c : C) × (tfhe.try_encrypt r n client.client_key ≡ some c) × (d.decrypt c ≡ n)
    pub key_survives :
        (b : Bytes) × (tfhe.serialize_key client.server_key ≡ some b)
        × (fhe.deserialize_key b ≡ some client.server_key)

  module _ (client : NativeVaultClient CK PK K) (d : Decrypts fhe client.server_key)
      (keys : Belongs client d) where
    -- An encrypted number, serialized, is that number to the ledger.
    pub encrypted :
        (r : R) (n : ℕ)
        → n < 2 ^ 64
        → (b : Bytes) × (encrypt_u64_balance tfhe fhe r client n ≡ some b)
          × (plain fhe client.server_key d b ≡ some n)
    unfolding encrypt_u64_balance
    encrypted r n h =
        let (c, e, is) = keys.encrypts r n h in
        let (b, s, back) = d.serializes c in (b, rw e s, rw (back, is) refl)

    decrypted :
        (bytes : Bytes)
        → decrypt_u64_balance tfhe fhe client bytes ≡ plain fhe client.server_key d bytes
    unfolding decrypt_u64_balance
    decrypted bytes = elim (Option-cases (fhe.deserialize_ct bytes)) [
      | inl e ↦ rw e refl
      | inr (c, e) ↦ rw (e, keys.decrypts c) refl
    ]

    -- What the client reads of a vault's balance.
    abbrev pub read_back : Ledger → Bytes → Option ℕ
    read_back l vault_id = do
      bytes ← vault_get_balance l vault_id
      decrypt_u64_balance tfhe fhe client bytes

    read_back-balance :
        (l : Ledger) (vault_id : Bytes)
        → read_back l vault_id ≡ balance fhe client.server_key d l vault_id
    unfolding balance
    read_back-balance l vault_id = elim (Option-cases (vault_get_balance l vault_id)) [
      | inl e ↦ rw e refl
      | inr (bytes, e) ↦ rw e (decrypted bytes)
    ]

    -- The ledger after two vaults are registered.
    abbrev pub registered : Ledger → Bytes → Bytes → Bytes → Bytes → Ledger
    registered l a ct_a b ct_b =
        (register_vault_ciphertext (register_vault_ciphertext l a ct_a).1 b ct_b).1

    registered-Ready :
        (l : Ledger) (key_bytes a ct_a b ct_b amount_ct : Bytes) (m n t : ℕ)
        → l.server_key_bytes ≡ some key_bytes
        → fhe.deserialize_key key_bytes ≡ some client.server_key
        → length a ≡ 32
        → length b ≡ 32
        → a ≢ b
        → vault_get_balance l a ≡ none
        → vault_get_balance l b ≡ none
        → plain fhe client.server_key d ct_a ≡ some m
        → plain fhe client.server_key d ct_b ≡ some n
        → plain fhe client.server_key d amount_ct ≡ some t
        → Ready fhe client.server_key d (registered l a ct_a b ct_b) a b amount_ct m n t
    unfolding balance
    registered-Ready l key_bytes a ct_a b ct_b amount_ct m n t has is_key ha hb ne fresh_a fresh_b
          pa pb pt =
        let l₁ = (register_vault_ciphertext l a ct_a).1 in
        record {
          key_bytes = key_bytes;
          has_key =
              register-server_key_bytes l₁ b ct_b ∙ (register-server_key_bytes l a ct_a ∙ has);
          is_key = is_key;
          sender_length = ha;
          receiver_length = hb;
          sender_balance =
              rw
                (
                  register-other l₁ b ct_b a hb (λ e. ne (sym e)),
                  register-fresh l a ct_a ha fresh_a,
                )
                pa;
          receiver_balance =
              rw (register-fresh l₁ b ct_b hb (register-other l a ct_a b ha ne ∙ fresh_b)) pb;
          amount = pt;
        }

    init_vault-sets :
        (l : Ledger) (key_bytes : Bytes)
        → fhe.deserialize_key key_bytes ≡ some client.server_key
        → init_vault fhe l key_bytes ≡ (err_ok, record l { server_key_bytes = some key_bytes })
    unfolding init_vault
    init_vault-sets l key_bytes h = ground arith

    -- What the client finds after the transfer on the ledger that it has set up.
    pub record Settles (l : Ledger) (key_bytes a ct_a b ct_b amount_ct : Bytes) (m n t : ℕ)
        : Type 0 where
      pub is_set : (init_vault fhe l key_bytes).0 ≡ err_ok
      pub settled :
          (homomorphic_transfer fhe
            (registered (init_vault fhe l key_bytes).1 a ct_a b ct_b)
            a
            b
            amount_ct).0
          ≡ err_ok
      pub sender_left :
          read_back
            (homomorphic_transfer fhe
              (registered (init_vault fhe l key_bytes).1 a ct_a b ct_b)
              a
              b
              amount_ct).1
            a
          ≡ some (m - moved m t)
      pub receiver_has :
          read_back
            (homomorphic_transfer fhe
              (registered (init_vault fhe l key_bytes).1 a ct_a b ct_b)
              a
              b
              amount_ct).1
            b
          ≡ some ((n + moved m t) % 2 ^ 64)

    registered-Settles :
        (l : Ledger) (key_bytes a ct_a b ct_b amount_ct : Bytes) (m n t : ℕ)
        → fhe.deserialize_key key_bytes ≡ some client.server_key
        → length a ≡ 32
        → length b ≡ 32
        → a ≢ b
        → vault_get_balance l a ≡ none
        → vault_get_balance l b ≡ none
        → plain fhe client.server_key d ct_a ≡ some m
        → plain fhe client.server_key d ct_b ≡ some n
        → plain fhe client.server_key d amount_ct ≡ some t
        → Settles l key_bytes a ct_a b ct_b amount_ct m n t
    unfolding vault_get_balance
    registered-Settles l key_bytes a ct_a b ct_b amount_ct m n t is_key ha hb ne fresh_a fresh_b pa
          pb pt =
        let l₀ : Ledger = record l { server_key_bytes = some key_bytes } in
        let set : init_vault fhe l key_bytes ≡ (err_ok, l₀) = init_vault-sets l key_bytes is_key in
        let ready =
          registered-Ready l₀ key_bytes a ct_a b ct_b amount_ct m n t refl is_key ha hb ne fresh_a
            fresh_b pa pb pt in
        let (done, left, has, _) =
          homomorphic_transfer-balances fhe client.server_key d (registered l₀ a ct_a b ct_b) a b
            amount_ct [] m n t ready (λ e. ne (sym e))
            (λ e. absurd (omega (arith, ha, ap (λ (x : Bytes). length x) e)))
            (λ e. absurd (omega (arith, hb, ap (λ (x : Bytes). length x) e))) in
        record {
          is_set = rw set refl;
          settled = rw set done;
          sender_left = rw set (read_back-balance _ a ∙ left);
          receiver_has = rw set (read_back-balance _ b ∙ has);
        }

    -- The session of a client to which its keys belong.
    pub session_of_keys :
        (l : Ledger) (a b context_tag : Bytes) (m n t target : ℕ) (r₁ r₂ r₃ r₄ : R)
        → length a ≡ 32
        → length b ≡ 32
        → a ≢ b
        → vault_get_balance l a ≡ none
        → vault_get_balance l b ≡ none
        → m < 2 ^ 64
        → n < 2 ^ 64
        → t < 2 ^ 64
        → target < 2 ^ 64
        → (key_bytes ct_a ct_b : Bytes) × (payload : LedgerPayload) × (export_server_key tfhe fhe
              client
            ≡ some key_bytes)
          × (encrypt_u64_balance tfhe fhe r₁ client m ≡ some ct_a)
          × (encrypt_u64_balance tfhe fhe r₂ client n ≡ some ct_b)
          × (build_payload tfhe fhe r₃ r₄ client context_tag t target ≡ some payload)
          × Settles l key_bytes a ct_a b ct_b payload.encrypted_amount m n t
    unfolding export_server_key build_payload
    session_of_keys l a b context_tag m n t target r₁ r₂ r₃ r₄ ha hb ne fresh_a fresh_b hm hn ht
          hx =
        let (key_bytes, exported, is_key) = keys.key_survives in
        let (ct_a, ea, pa) = encrypted r₁ m hm in
        let (ct_b, eb, pb) = encrypted r₂ n hn in
        let (ct_t, et, pt) = encrypted r₃ t ht in
        let (ct_x, ex, px) = encrypted r₄ target hx in
        (
          key_bytes,
          ct_a,
          ct_b,
          record { context_tag = context_tag; encrypted_amount = ct_t; encrypted_target = ct_x },
          exported,
          ea,
          eb,
          rw (et, ex) refl,
          registered-Settles l key_bytes a ct_a b ct_b ct_t m n t is_key ha hb ne fresh_a fresh_b pa
              pb pt,
        )
