-- ===== src/Vault/Examples/Ledgers.antt =====
-- The theorems about the confidential ledger at concrete inputs: a ciphertext is its number.
use aethel_runtime.Base.{
  ℕ, ◌+◌, ◌-◌, ◌%◌, ◌^◌, ◌≡◌, refl, ◌≢◌, ◌⊎◌, Bool, true, false, Option, none, some, [], ◌∷◌, arith,
  leb, if◌then◌else◌, length,
}
use aethel_runtime.Base.Bytes.{Bytes, bytes_eq, replicate}
use aethel_runtime.Vault.Ledger.{
  err_ok, Ledger, Fhe, StateCodec, find_entry, homomorphic_transfer, vault_get_balance,
  register_vault_ciphertext,
}
use aethel_runtime.Vault.Ledger.Balances.{Decrypts, balance}
use aethel_runtime.Vault.Ledger.Transfer.{
  Ready, homomorphic_transfer-balances, transfer_to_self-mints,
}
use aethel_runtime.Vault.Ledger.Custody.{register-get_balance}
use aethel_runtime.Vault.Ledger.Access.{
  err_unauthorized, err_wire_verify_failed, Plp, homomorphic_transfer_authenticated,
  homomorphic_transfer_authenticated_bytes,
}
use aethel_runtime.Vault.Ledger.Identity.{
  Proves, ProvesBytes, authenticated-Proves, authenticated_bytes-Proves,
}

abbrev pub number : Bytes → Option ℕ
number [] = none
number (n ∷ rest) = some n

abbrev pub toy_fhe : Fhe (Unit {0}) ℕ Bool
toy_fhe = record {
  deserialize_key = λ b. some tt;
  deserialize_ct = number;
  serialize_ct = λ c. some (c ∷ []);
  encrypt_trivial = λ n. n;
  ge = λ k a b. leb (b % 2 ^ 64) (a % 2 ^ 64);
  if_then_else = λ k c a b. if c then a else b;
  sub = λ k a b. a % 2 ^ 64 + (2 ^ 64 - b % 2 ^ 64);
  add = λ k a b. a % 2 ^ 64 + b % 2 ^ 64;
}

pub selects :
    (c : Bool) (a b : ℕ) → (if c then a else b) % 2 ^ 64 ≡ (if c then a % 2 ^ 64 else b % 2 ^ 64)
selects true a b = refl
selects false a b = refl

abbrev pub decrypts : Decrypts toy_fhe tt
decrypts = record {
  decrypt = λ c. c % 2 ^ 64;
  decrypt_bool = λ b. b;
  in_range = λ c. omega arith;
  encrypts_zero = refl;
  compares = λ a b. refl;
  selects = selects;
  subtracts = λ a b. refl;
  adds = λ a b. refl;
  serializes = λ c. (c ∷ [], refl, refl);
}

abbrev pub id : ℕ → Bytes
id b = replicate 32 b

abbrev pub funded : Ledger
funded = record {
  state = some (record {
    balances = (id 1, 50 ∷ []) ∷ (id 2, 5 ∷ []) ∷ (id 3, 9 ∷ []) ∷ [];
    identity_projections = (id 1, 77 ∷ []) ∷ [];
  });
  server_key_bytes = some [];
  export_buffer = [];
}

pub ids_differ : (a b : ℕ) → a ≢ b → id a ≢ id b
ids_differ a b h e = ground (arith, h, e)

ready : Ready toy_fhe tt decrypts funded (id 1) (id 2) (20 ∷ []) 50 5 20
unfolding balance vault_get_balance find_entry bytes_eq
ready = record {
  key_bytes = [];
  has_key = refl;
  is_key = refl;
  sender_length = refl;
  receiver_length = refl;
  sender_balance = refl;
  receiver_balance = refl;
  amount = refl;
}

homomorphic_transfer-balances_example :
    ((homomorphic_transfer toy_fhe funded (id 1) (id 2) (20 ∷ [])).0 ≡ err_ok)
    × (balance toy_fhe tt decrypts
          (homomorphic_transfer toy_fhe funded (id 1) (id 2) (20 ∷ [])).1
          (id 1)
        ≡ some 30)
    × (balance toy_fhe tt decrypts
          (homomorphic_transfer toy_fhe funded (id 1) (id 2) (20 ∷ [])).1
          (id 2)
        ≡ some 25)
    × (balance toy_fhe tt decrypts
          (homomorphic_transfer toy_fhe funded (id 1) (id 2) (20 ∷ [])).1
          (id 3)
        ≡ balance toy_fhe tt decrypts funded (id 3))
homomorphic_transfer-balances_example =
    homomorphic_transfer-balances toy_fhe tt decrypts funded (id 1) (id 2) (20 ∷ []) (id 3) 50 5 20
      ready (ids_differ 2 1 (λ e. omega arith)) (ids_differ 3 1 (λ e. omega arith))
      (ids_differ 3 2 (λ e. omega arith))

Ready-self : Ready toy_fhe tt decrypts funded (id 1) (id 1) (20 ∷ []) 50 50 20
unfolding balance vault_get_balance find_entry bytes_eq
Ready-self = record {
  key_bytes = [];
  has_key = refl;
  is_key = refl;
  sender_length = refl;
  receiver_length = refl;
  sender_balance = refl;
  receiver_balance = refl;
  amount = refl;
}

transfer_to_self-mints_example :
    ((homomorphic_transfer toy_fhe funded (id 1) (id 1) (20 ∷ [])).0 ≡ err_ok)
    × (balance toy_fhe tt decrypts
          (homomorphic_transfer toy_fhe funded (id 1) (id 1) (20 ∷ [])).1
          (id 1)
        ≡ some 70)
transfer_to_self-mints_example =
    transfer_to_self-mints toy_fhe tt decrypts funded (id 1) (20 ∷ []) 50 20 Ready-self

abbrev pub codec : StateCodec
codec = record {
  serialize = λ s. some (length s.balances ∷ []);
  deserialize = λ b. some (record {
    balances = (id 1, 50 ∷ []) ∷ (id 2, 5 ∷ []) ∷ (id 3, 9 ∷ []) ∷ [];
    identity_projections = (id 1, 77 ∷ []) ∷ [];
  });
}

abbrev fresh : Ledger
fresh = record { state = none; server_key_bytes = none; export_buffer = [] }

register-get_balance_example :
    ((register_vault_ciphertext funded (id 4) (6 ∷ [])).0 ≡ err_ok)
    × (vault_get_balance (register_vault_ciphertext funded (id 4) (6 ∷ [])).1 (id 4)
        ≡ some (6 ∷ []))
unfolding vault_get_balance find_entry bytes_eq
register-get_balance_example = register-get_balance funded (id 4) (6 ∷ []) (id 4) refl

abbrev pub plp : Plp Bytes Bytes
plp = record {
  from_bytes = λ b. some b;
  to_bytes = λ b. b;
  verify = λ p q. bytes_eq p q;
  decode_projection = λ b. some b;
  verify_projection = λ p q c. some (bytes_eq p q);
}

abbrev hashed : Bytes → Bytes
hashed b = replicate 32 4

authenticated-Proves_example :
    (Proves hashed plp funded (id 1) (77 ∷ []) (77 ∷ [])
      × (homomorphic_transfer_authenticated hashed plp toy_fhe funded
            (id 1)
            (id 2)
            (20 ∷ [])
            (77 ∷ [])
            (77 ∷ [])
          ≡ homomorphic_transfer toy_fhe funded (id 1) (id 2) (20 ∷ [])))
    ⊎ (¬ Proves hashed plp funded (id 1) (77 ∷ []) (77 ∷ [])
        × (homomorphic_transfer_authenticated hashed plp toy_fhe funded
              (id 1)
              (id 2)
              (20 ∷ [])
              (77 ∷ [])
              (77 ∷ [])
            ≡ (err_unauthorized, funded)))
authenticated-Proves_example =
    authenticated-Proves hashed plp toy_fhe funded (id 1) (id 2) (20 ∷ []) (77 ∷ []) (77 ∷ [])

authenticated_bytes-Proves_example :
    (ProvesBytes hashed plp funded (id 1) (77 ∷ []) (77 ∷ []) []
      × (homomorphic_transfer_authenticated_bytes hashed plp toy_fhe funded
            (id 1)
            (id 2)
            (20 ∷ [])
            (77 ∷ [])
            (77 ∷ [])
            []
          ≡ homomorphic_transfer toy_fhe funded (id 1) (id 2) (20 ∷ [])))
    ⊎ (¬ ProvesBytes hashed plp funded (id 1) (77 ∷ []) (77 ∷ []) []
        × ((homomorphic_transfer_authenticated_bytes hashed plp toy_fhe funded
                (id 1)
                (id 2)
                (20 ∷ [])
                (77 ∷ [])
                (77 ∷ [])
                []
              ≡ (err_unauthorized, funded))
            ⊎ (homomorphic_transfer_authenticated_bytes hashed plp toy_fhe funded
                  (id 1)
                  (id 2)
                  (20 ∷ [])
                  (77 ∷ [])
                  (77 ∷ [])
                  []
                ≡ (err_wire_verify_failed, funded))))
authenticated_bytes-Proves_example =
    authenticated_bytes-Proves hashed plp toy_fhe funded (id 1) (id 2) (20 ∷ []) (77 ∷ []) (77 ∷ [])
      []
