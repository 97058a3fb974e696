-- ===== src/Vault/Ledger/Balances.antt =====
-- What a transfer does to the balances behind the ciphertexts.
use aethel_runtime.Base.{
  ℕ, ◌+◌, ◌-◌, ◌%◌, ◌^◌, ◌≤◌, ◌<◌, ◌≡◌, refl, inl, inr, Bool, Option, some, arith, leb,
  if◌then◌else◌, Option-cases,
}
use aethel_runtime.Base.Bytes.{Bytes}
use aethel_runtime.Base.Options.{◌>>=◌}
use aethel_runtime.Vault.Ledger.{
  VaultState, Ledger, Fhe, position, find_entry, entry_at, vault_get_balance,
  do_homomorphic_transfer,
}
use aethel_runtime.Vault.Ledger.Cells.{position_of_found}

-- What the homomorphic operations document, under the server key `key` and the client key that belongs
-- to it: each computes on the encrypted 64-bit numbers, and ciphertexts survive their serialization.
pub record Decrypts {K C B : Type 0} (fhe : Fhe K C B) (key : K) : Type 0 where
  pub decrypt : C → ℕ
  pub decrypt_bool : B → Bool
  pub in_range : (c : C) → decrypt c < 2 ^ 64
  pub encrypts_zero : decrypt (fhe.encrypt_trivial 0) ≡ 0
  pub compares : (a b : C) → decrypt_bool (fhe.ge key a b) ≡ leb (decrypt b) (decrypt a)
  pub selects :
      (c : B) (a b : C)
      → decrypt (fhe.if_then_else key c a b) ≡ (if decrypt_bool c then decrypt a else decrypt b)
  pub subtracts :
      (a b : C) → decrypt (fhe.sub key a b) ≡ (decrypt a + (2 ^ 64 - decrypt b)) % 2 ^ 64
  pub adds : (a b : C) → decrypt (fhe.add key a b) ≡ (decrypt a + decrypt b) % 2 ^ 64
  pub serializes :
      (c : C) → (b : Bytes) × (fhe.serialize_ct c ≡ some b) × (fhe.deserialize_ct b ≡ some c)

-- The amount that leaves a balance of `a` when `t` is asked for.
abbrev pub moved : ℕ → ℕ → ℕ
moved a t = if leb t a then t else 0

moved-le : (a t : ℕ) → moved a t ≤ a
moved-le a t = ground arith

sub_wraps : (a d : ℕ) → a < 2 ^ 64 → d ≤ a → (a + (2 ^ 64 - d)) % 2 ^ 64 ≡ a - d
sub_wraps a d h k = omega arith

module _ {K C B : Type 0} (fhe : Fhe K C B) (key : K) (d : Decrypts fhe key) where
  -- The number behind stored bytes.
  abbrev pub plain : Bytes → Option ℕ
  plain bytes = do c ← fhe.deserialize_ct bytes; some (d.decrypt c)

  -- The balance of a vault.
  unfoldable pub balance : Ledger → Bytes → Option ℕ
  unfolding vault_get_balance
  balance l vault_id = do bytes ← vault_get_balance l vault_id; plain bytes

  pub computed :
      (sender receiver transfer key_bytes : Bytes) (s r t : C) (a b n : ℕ)
      → fhe.deserialize_key key_bytes ≡ some key
      → fhe.deserialize_ct sender ≡ some s
      → fhe.deserialize_ct receiver ≡ some r
      → fhe.deserialize_ct transfer ≡ some t
      → d.decrypt s ≡ a
      → d.decrypt r ≡ b
      → d.decrypt t ≡ n
      → (new : Bytes × Bytes) × (do_homomorphic_transfer fhe sender receiver transfer key_bytes
          ≡ some new)
        × (plain new.0 ≡ some (a - moved a n))
        × (plain new.1 ≡ some ((b + moved a n) % 2 ^ 64))
  unfolding do_homomorphic_transfer
  computed sender receiver transfer key_bytes s r t a b n hk hs hr ht ea eb en =
      let deduction = fhe.if_then_else key (fhe.ge key s t) t (fhe.encrypt_trivial 0) in
      let amount : d.decrypt deduction ≡ moved (d.decrypt s) (d.decrypt t) =
        rw (d.selects (fhe.ge key s t) t (fhe.encrypt_trivial 0), d.compares s t, d.encrypts_zero)
          refl in
      let (bs, ss, ds) = d.serializes (fhe.sub key s deduction) in
      let (br, sr, dr) = d.serializes (fhe.add key r deduction) in
      (
        (bs, br),
        rw (hk, hs, hr, ht, ss, sr) refl,
        rw
            (
              ← ea,
              ← en,
              ds,
              d.subtracts s deduction,
              amount,
              sub_wraps _ _ (d.in_range s) (moved-le (d.decrypt s) (d.decrypt t)),
            )
            refl,
        rw (← ea, ← eb, ← en, dr, d.adds r deduction, amount) refl,
      )

  -- A vault with a balance, down to its ciphertext.
  pub record Stored (s : VaultState) (vault_id : Bytes) (n : ℕ) : Type 0 where
    pub bytes : Bytes
    pub ct : C
    pub index : ℕ
    pub at : position vault_id s.balances ≡ some index
    pub entry : entry_at s.balances index ≡ bytes
    pub decodes : fhe.deserialize_ct bytes ≡ some ct
    pub amount : d.decrypt ct ≡ n

  pub plain-ct :
      (bytes : Bytes) (n : ℕ)
      → plain bytes ≡ some n
      → (c : C) × (fhe.deserialize_ct bytes ≡ some c) × (d.decrypt c ≡ n)
  plain-ct bytes n h = elim (Option-cases (fhe.deserialize_ct bytes)) [
    | inl e ↦ absurd (ground arith)
    | inr (c, e) ↦ (c, e, ground arith)
  ]

  pub stored :
      (l : Ledger) (s : VaultState) (vault_id : Bytes) (n : ℕ)
      → l.state ≡ some s
      → balance l vault_id ≡ some n
      → Stored s vault_id n
  unfolding balance vault_get_balance
  stored l s vault_id n hs h = elim (Option-cases (find_entry vault_id s.balances)) [
    | inl e ↦ absurd (ground arith)
    | inr (v, e) ↦
        let (c, decodes, amount) = plain-ct v n (ground arith) in
        let (i, p, q) = position_of_found vault_id v s.balances e in
        record {
          bytes = v;
          ct = c;
          index = i;
          at = p;
          entry = q;
          decodes = decodes;
          amount = amount;
        }
  ]

  pub has_state :
      (l : Ledger) (vault_id : Bytes) (n : ℕ)
      → balance l vault_id ≡ some n
      → (s : VaultState) × (l.state ≡ some s)
  unfolding balance vault_get_balance
  has_state l vault_id n h = elim (Option-cases l.state) [
    | inl e ↦ absurd (ground arith)
    | inr r ↦ r
  ]
