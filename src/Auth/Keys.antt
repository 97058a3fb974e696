-- ===== src/Auth/Keys.antt =====
-- The keys that the stores go by, `nonce_key` and `Delegation::id`, up to a collision of the hash.
use aethel_runtime.Base.{◌^◌, ◌<◌, ◌≡◌, ap, ◌≢◌, ◌⊎◌, inl, inr, [], ◌++◌, arith, Bool-cases, length}
use aethel_runtime.Base.Bytes.{Bytes, bytes_eq, bytes_eq_iff}
use aethel_runtime.Wire.Unique.{len_prefixed_unique}
use aethel_runtime.Auth.Core.{Core}
use aethel_runtime.Auth.Envelope.{nonce_key_label, nonce_key_input, nonce_key}
use aethel_runtime.Auth.Delegation.{
  Delegation, signing_input, delegation_id_label, id_input, delegation_id,
}
use aethel_runtime.Auth.Delegation.Layout.{IsWellFormed, SameTerms, delegation-SameTerms}

module _ {E I : Type 0} (core : Core E I) where
  -- Two inputs that the hash takes to one output.
  abbrev pub Collision : Type 0
  Collision = (x : Bytes) × (y : Bytes) × (x ≢ y) × (core.shake256_32 x ≡ core.shake256_32 y)

  same_or_collide : (x y : Bytes) → core.shake256_32 x ≡ core.shake256_32 y → (x ≡ y) ⊎ Collision
  same_or_collide x y h = elim (Bool-cases (bytes_eq x y)) [
    | inl same ↦ inl ((bytes_eq_iff x y).0 same)
    | inr differ ↦ inr (x, y, (λ e. cc (differ, (bytes_eq_iff x y).1 e)), h)
  ]

nonce_key_input-inj :
    (p k n q l m : Bytes)
    → length p < 2 ^ 32
    → length k < 2 ^ 32
    → length n ≡ 32
    → length q < 2 ^ 32
    → length l < 2 ^ 32
    → length m ≡ 32
    → nonce_key_input p k n ≡ nonce_key_input q l m
    → (p ≡ q) × (k ≡ l) × (n ≡ m)
unfolding nonce_key_input
nonce_key_input-inj p k n q l m hp hk hn hq hl hm e =
    let a = len_prefixed_unique nonce_key_label nonce_key_label _ _ (omega arith) (omega arith) e in
    let b = len_prefixed_unique p q _ _ hp hq a.1 in
    let c = len_prefixed_unique k l _ _ hk hl b.1 in
    let d = len_prefixed_unique n m [] [] (omega arith) (omega arith) (ap (λ z. z ++ []) c.1) in
    (b.0, c.0, d.0)

module _ {E I : Type 0} (core : Core E I) where
  -- Two nonces share a key in the store only if they are the same nonce, of the same signer and for
  -- the same purpose, or SHAKE-256 has a collision. Purposes and keys are shorter than 4 GiB, nonces
  -- are 32 bytes.
  pub nonce_key_separates :
      (p k n q l m : Bytes)
      → length p < 2 ^ 32
      → length k < 2 ^ 32
      → length n ≡ 32
      → length q < 2 ^ 32
      → length l < 2 ^ 32
      → length m ≡ 32
      → nonce_key core p k n ≡ nonce_key core q l m
      → ((p ≡ q) × (k ≡ l) × (n ≡ m)) ⊎ Collision core
  unfolding nonce_key
  nonce_key_separates p k n q l m hp hk hn hq hl hm e =
      elim (same_or_collide core (nonce_key_input p k n) (nonce_key_input q l m) e) [
        | inl same ↦ inl (nonce_key_input-inj p k n q l m hp hk hn hq hl hm same)
        | inr c ↦ inr c
      ]

  -- Two delegations share an id only if they have the same principal, the same terms and the same
  -- signature, or SHAKE-256 has a collision. Their fields are in the ranges of their types, and
  -- all their byte strings and action lists are shorter than 4 Gi.
  pub delegation_id_separates :
      (d e : Delegation)
      → IsWellFormed d
      → IsWellFormed e
      → length d.principal_key < 2 ^ 32
      → length e.principal_key < 2 ^ 32
      → length (signing_input d) < 2 ^ 32
      → length (signing_input e) < 2 ^ 32
      → length d.signature < 2 ^ 32
      → length e.signature < 2 ^ 32
      → delegation_id core d ≡ delegation_id core e
      → ((d.principal_key ≡ e.principal_key) × SameTerms d e × (d.signature ≡ e.signature))
        ⊎ Collision core
  unfolding delegation_id id_input
  delegation_id_separates d e wd we kd ke id ie sd se h =
      elim (same_or_collide core (id_input d) (id_input e) h) [
        | inl same ↦
            let a =
              len_prefixed_unique delegation_id_label delegation_id_label _ _ (omega arith)
                (omega arith) same in
            let b = len_prefixed_unique d.principal_key e.principal_key _ _ kd ke a.1 in
            let c = len_prefixed_unique (signing_input d) (signing_input e) _ _ id ie b.1 in
            let s =
              len_prefixed_unique d.signature e.signature [] [] sd se (ap (λ z. z ++ []) c.1) in
            inl (b.0, delegation-SameTerms d e wd we c.0, s.0)
        | inr c ↦ inr c
      ]
