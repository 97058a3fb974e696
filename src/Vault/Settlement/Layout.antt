-- ===== src/Vault/Settlement/Layout.antt =====
-- An EIP-712 digest commits to the authorization and the chain, up to a collision of the hash.
use aethel_runtime.Base.{
  ℕ, zero, suc, ◌-◌, ◌^◌, ◌<◌, ◌≡◌, refl, sym, ap, ◌∙◌, ◌≢◌, ◌⊎◌, inl, inr, [], ◌∷◌, ◌++◌,
  append_assoc, arith, Bool-cases, length, tail, append-inj,
}
use aethel_runtime.Base.Bytes.{replicate, Bytes, bytes_eq, bytes_eq_iff}
use aethel_runtime.Wire.{to_be_bytes, length-to_be_bytes}
use aethel_runtime.Wire.Unique.{to_be_bytes_unique}
use aethel_runtime.Vault.Settlement.{
  pad_left_32, abi_u128, abi_u64_as_u256, Chain, chain_id, domain_bytes, domain_separator,
  TransferWithAuthorization, struct_bytes, struct_hash, eip712_digest, transfer_type, domain_type,
  domain_name, domain_version,
}

length-replicate : (n b : ℕ) → length (replicate n b) ≡ n
length-replicate zero b = refl
length-replicate (suc n) b = ap suc (length-replicate n b)

-- Two padded words of one length before padding are equal only for equal arguments.
pad_left_32_unique :
    (a b x y : Bytes)
    → length a ≡ length b
    → pad_left_32 a ++ x ≡ pad_left_32 b ++ y
    → (a ≡ b) × (x ≡ y)
unfolding pad_left_32
pad_left_32_unique a b x y h e =
    let za = replicate (32 - length a) 0 in
    let zb = replicate (32 - length b) 0 in
    let same : length za ≡ length zb =
      omega (arith, length-replicate (32 - length a) 0, length-replicate (32 - length b) 0) in
    let r =
      append-inj za (a ++ x) zb (b ++ y) same
        (sym (append_assoc za a x) ∙ e ∙ append_assoc zb b y) in
    append-inj a x b y h r.1

abi_u128_unique :
    (m n : ℕ) (x y : Bytes)
    → m < 2 ^ 128
    → n < 2 ^ 128
    → abi_u128 m ++ x ≡ abi_u128 n ++ y
    → (m ≡ n) × (x ≡ y)
unfolding abi_u128
abi_u128_unique m n x y hm hn e =
    let r =
      pad_left_32_unique (to_be_bytes 16 m) (to_be_bytes 16 n) x y
        (length-to_be_bytes 16 m ∙ sym (length-to_be_bytes 16 n)) e in
    ((to_be_bytes_unique 16 m n [] [] hm hn (ap (λ z. z ++ []) r.0)).0, r.1)

abi_u64_unique :
    (m n : ℕ) (x y : Bytes)
    → m < 2 ^ 64
    → n < 2 ^ 64
    → abi_u64_as_u256 m ++ x ≡ abi_u64_as_u256 n ++ y
    → (m ≡ n) × (x ≡ y)
unfolding abi_u64_as_u256
abi_u64_unique m n x y hm hn e =
    let r =
      pad_left_32_unique (to_be_bytes 8 m) (to_be_bytes 8 n) x y
        (length-to_be_bytes 8 m ∙ sym (length-to_be_bytes 8 n)) e in
    ((to_be_bytes_unique 8 m n [] [] hm hn (ap (λ z. z ++ []) r.0)).0, r.1)

-- The ranges of the fields' Rust types.
pub record IsWellFormed (a : TransferWithAuthorization) : Type 0 where
  pub from_20 : length a.from ≡ 20
  pub to_20 : length a.to ≡ 20
  pub value_u128 : a.value < 2 ^ 128
  pub after_u64 : a.valid_after < 2 ^ 64
  pub before_u64 : a.valid_before < 2 ^ 64
  pub nonce_32 : length a.nonce ≡ 32

pub record SameTransfer (a b : TransferWithAuthorization) : Type 0 where
  pub from : a.from ≡ b.from
  pub to : a.to ≡ b.to
  pub value : a.value ≡ b.value
  pub valid_after : a.valid_after ≡ b.valid_after
  pub valid_before : a.valid_before ≡ b.valid_before
  pub nonce : a.nonce ≡ b.nonce

chain_id-inj : (c d : Chain) → chain_id c ≡ chain_id d → c ≡ d
unfolding chain_id
chain_id-inj c d h = ground arith

chain_id_u64 : (c : Chain) → chain_id c < 2 ^ 64
unfolding chain_id
chain_id_u64 c = ground arith

module _ (keccak256 : Bytes → Bytes)
    (length-keccak256 : (x : Bytes) → length (keccak256 x) ≡ 32) where
  same_length : (x y : Bytes) → length (keccak256 x) ≡ length (keccak256 y)
  same_length x y = length-keccak256 x ∙ sym (length-keccak256 y)

  domain_bytes-inj : (c d : Chain) → domain_bytes keccak256 c ≡ domain_bytes keccak256 d → c ≡ d
  unfolding domain_bytes
  domain_bytes-inj c d e =
      let t = append-inj (keccak256 domain_type) _ (keccak256 domain_type) _ refl e in
      let n =
        append-inj (keccak256 (domain_name c)) _ (keccak256 (domain_name d)) _ (same_length _ _)
          t.1 in
      let v =
        append-inj (keccak256 (domain_version c)) _ (keccak256 (domain_version d)) _
          (same_length _ _) n.1 in
      let i = abi_u64_unique (chain_id c) (chain_id d) _ _ (chain_id_u64 c) (chain_id_u64 d) v.1 in
      chain_id-inj c d i.0

  struct_bytes-inj :
      (a b : TransferWithAuthorization)
      → IsWellFormed a
      → IsWellFormed b
      → struct_bytes keccak256 a ≡ struct_bytes keccak256 b
      → SameTransfer a b
  unfolding struct_bytes
  struct_bytes-inj a b ha hb e =
      let t = append-inj (keccak256 transfer_type) _ (keccak256 transfer_type) _ refl e in
      let f = pad_left_32_unique a.from b.from _ _ (ha.from_20 ∙ sym hb.from_20) t.1 in
      let o = pad_left_32_unique a.to b.to _ _ (ha.to_20 ∙ sym hb.to_20) f.1 in
      let v = abi_u128_unique a.value b.value _ _ ha.value_u128 hb.value_u128 o.1 in
      let p = abi_u64_unique a.valid_after b.valid_after _ _ ha.after_u64 hb.after_u64 v.1 in
      let q = abi_u64_unique a.valid_before b.valid_before _ _ ha.before_u64 hb.before_u64 p.1 in
      record {
        from = f.0;
        to = o.0;
        value = v.0;
        valid_after = p.0;
        valid_before = q.0;
        nonce = q.1;
      }

  abbrev pub KeccakCollision : Type 0
  KeccakCollision = (x : Bytes) × (y : Bytes) × (x ≢ y) × (keccak256 x ≡ keccak256 y)

  same_or_collide : (x y : Bytes) → keccak256 x ≡ keccak256 y → (x ≡ y) ⊎ KeccakCollision
  same_or_collide x y h = elim (Bool-cases (bytes_eq x y)) [
    | inl same ↦ inl ((bytes_eq_iff x y).0 same)
    | inr differ ↦ inr (x, y, (λ e. cc (differ, (bytes_eq_iff x y).1 e)), h)
  ]

  -- Two authorizations on two chains have one digest only if they are the same transfer, in every
  -- field, on the same chain, or Keccak-256 has a collision. Their fields are in the ranges of
  -- their types, and Keccak-256 gives 32 bytes.
  pub eip712_digest_separates :
      (a b : TransferWithAuthorization) (c d : Chain)
      → IsWellFormed a
      → IsWellFormed b
      → eip712_digest keccak256 a c ≡ eip712_digest keccak256 b d
      → (SameTransfer a b × (c ≡ d)) ⊎ KeccakCollision
  unfolding eip712_digest domain_separator struct_hash
  eip712_digest_separates a b c d ha hb h =
      elim (same_or_collide
        (0x19 ∷ 0x01 ∷ (domain_separator keccak256 c ++ struct_hash keccak256 a))
        (0x19 ∷ 0x01 ∷ (domain_separator keccak256 d ++ struct_hash keccak256 b)) h) [
          | inr col ↦ inr col
          | inl same ↦
              let r =
                append-inj (domain_separator keccak256 c) (struct_hash keccak256 a)
                  (domain_separator keccak256 d) (struct_hash keccak256 b) (same_length _ _)
                  (ap (λ z. tail (tail z)) same) in
              elim (same_or_collide (domain_bytes keccak256 c) (domain_bytes keccak256 d) r.0) [
                | inr col ↦ inr col
                | inl chains ↦
                    elim (same_or_collide (struct_bytes keccak256 a) (struct_bytes keccak256 b)
                      r.1) [
                        | inr col ↦ inr col
                        | inl bytes ↦
                            inl (struct_bytes-inj a b ha hb bytes, domain_bytes-inj c d chains)
                      ]
              ]
        ]
