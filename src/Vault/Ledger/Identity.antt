-- ===== src/Vault/Ledger/Identity.antt =====
-- Transfers that ask for a proof of the sender's identity.
use aethel_runtime.Base.{◌≡◌, some, sym, ap, ◌∙◌, ◌⊎◌, inl, inr, true, none, arith, Option-cases}
use aethel_runtime.Base.Bytes.{Bytes, bytes_eq_iff}
use aethel_runtime.Vault.Ledger.{Ledger, Fhe, homomorphic_transfer, with_state_mut}
use aethel_runtime.Vault.Ledger.Access.{
  err_unauthorized, err_wire_verify_failed, Plp, bound_projection,
  homomorphic_transfer_authenticated, homomorphic_transfer_authenticated_bytes, after_wire_check,
  register_vault_with_identity, derive_vault_id,
}
use aethel_runtime.Vault.Ledger.Bindings.{Bound, bound_projection_iff}
use aethel_runtime.Vault.Ledger.Cells.{find_entry-append}

module _ {Projection Proof : Type 0} (shake256_32 : Bytes → Bytes)
    (plp : Plp Projection Proof) where
  -- The two predicates as the code looks the binding up.
  record Finds (l : Ledger) (sender : Bytes) (projection : Projection) (proof : Proof)
      : Type 0 where
    bound : bound_projection shake256_32 plp l sender ≡ some (plp.to_bytes projection)
    verifies : plp.verify projection proof ≡ true

  record FindsBytes (l : Ledger) (sender projection proof context : Bytes) : Type 0 where
    decoded : Projection
    decodes : plp.decode_projection projection ≡ some decoded
    bound : bound_projection shake256_32 plp l sender ≡ some (plp.to_bytes decoded)
    verifies : plp.verify_projection projection proof context ≡ some true

  -- The sender's vault is bound to this projection, and the proof verifies against it.
  pub record Proves (l : Ledger) (sender : Bytes) (projection : Projection) (proof : Proof)
      : Type 0 where
    pub bound : Bound l sender (plp.to_bytes projection)
    pub verifies : plp.verify projection proof ≡ true

  -- The sender's vault is bound to the projection that the envelope decodes to, and the two envelopes
  -- verify in this context.
  pub record ProvesBytes (l : Ledger) (sender projection proof context : Bytes) : Type 0 where
    pub decoded : Projection
    pub decodes : plp.decode_projection projection ≡ some decoded
    pub bound : Bound l sender (plp.to_bytes decoded)
    pub verifies : plp.verify_projection projection proof context ≡ some true

  registered-bound :
      (l : Ledger) (bytes ct : Bytes) (projection : Projection)
      → plp.from_bytes bytes ≡ some projection
      → bound_projection shake256_32 plp l (derive_vault_id shake256_32 bytes) ≡ none
      → bound_projection shake256_32 plp
          (register_vault_with_identity shake256_32 plp l bytes ct).1
          (derive_vault_id shake256_32 bytes)
        ≡ some bytes
  unfolding bound_projection register_vault_with_identity with_state_mut
  registered-bound l bytes ct projection hd hn =
      let id = derive_vault_id shake256_32 bytes in
      elim (Option-cases l.state) [
        | inl e ↦ ground (arith, bytes_eq_iff id id)
        | inr (s, e) ↦
            ground (arith, bytes_eq_iff id id, find_entry-append id id bytes s.identity_projections)
      ]

  module _ {K C B : Type 0} (fhe : Fhe K C B) where
    authenticated-Finds :
        (l : Ledger) (sender receiver transfer_ct : Bytes) (projection : Projection) (proof : Proof)
        → (Finds l sender projection proof
            × (homomorphic_transfer_authenticated shake256_32 plp fhe l sender receiver transfer_ct
                  projection proof
                ≡ homomorphic_transfer fhe l sender receiver transfer_ct))
          ⊎ (¬ Finds l sender projection proof
              × (homomorphic_transfer_authenticated shake256_32 plp fhe l sender receiver
                    transfer_ct projection proof
                  ≡ (err_unauthorized, l)))
    unfolding homomorphic_transfer_authenticated
    authenticated-Finds l sender receiver transfer_ct projection proof =
        elim (Option-cases (bound_projection shake256_32 plp l sender)) [
          | inl e ↦ ground arith
          | inr (k, e) ↦ ground (arith, bytes_eq_iff k (plp.to_bytes projection))
        ]

    authenticated_bytes-Finds :
        (l : Ledger) (sender receiver transfer_ct projection proof context : Bytes)
        → (FindsBytes l sender projection proof context
            × (homomorphic_transfer_authenticated_bytes shake256_32 plp fhe l sender receiver
                  transfer_ct projection proof context
                ≡ homomorphic_transfer fhe l sender receiver transfer_ct))
          ⊎ (¬ FindsBytes l sender projection proof context
              × ((homomorphic_transfer_authenticated_bytes shake256_32 plp fhe l sender receiver
                      transfer_ct projection proof context
                    ≡ (err_unauthorized, l))
                  ⊎ (homomorphic_transfer_authenticated_bytes shake256_32 plp fhe l sender receiver
                        transfer_ct projection proof context
                      ≡ (err_wire_verify_failed, l))))
    unfolding homomorphic_transfer_authenticated_bytes after_wire_check
    authenticated_bytes-Finds l sender receiver transfer_ct projection proof context =
        elim (Option-cases (bound_projection shake256_32 plp l sender)) [
          | inl e ↦ ground arith
          | inr (k, e) ↦ elim (Option-cases (plp.decode_projection projection)) [
            | inl g ↦ ground arith
            | inr (p, g) ↦ ground (arith, bytes_eq_iff (plp.to_bytes p) k)
          ]
        ]

    -- An authenticated transfer is the plain one where the ledger's first binding of the sender's ID is to
    -- the projection presented and the proof verifies against it, and otherwise
    -- is refused as unauthorized and leaves the ledger as it was.
    pub authenticated-Proves :
        (l : Ledger) (sender receiver transfer_ct : Bytes) (projection : Projection) (proof : Proof)
        → (Proves l sender projection proof
            × (homomorphic_transfer_authenticated shake256_32 plp fhe l sender receiver transfer_ct
                  projection proof
                ≡ homomorphic_transfer fhe l sender receiver transfer_ct))
          ⊎ (¬ Proves l sender projection proof
              × (homomorphic_transfer_authenticated shake256_32 plp fhe l sender receiver
                    transfer_ct projection proof
                  ≡ (err_unauthorized, l)))
    authenticated-Proves l sender receiver transfer_ct projection proof =
        let iff = bound_projection_iff shake256_32 plp l sender (plp.to_bytes projection) in
        elim (authenticated-Finds l sender receiver transfer_ct projection proof) [
          | inl (f, same) ↦ inl (record { bound = iff.0 f.bound; verifies = f.verifies }, same)
          | inr (none_found, refused) ↦
              inr
                (λ p. none_found (record { bound = iff.1 p.bound; verifies = p.verifies }), refused)
        ]

    -- An authenticated transfer from wire bytes is the plain one where the envelope decodes to the
    -- projection that the ledger's first binding of the sender's ID holds, and it verifies in this context,
    -- and otherwise is refused with one of the two codes for that and leaves the ledger as it was.
    pub authenticated_bytes-Proves :
        (l : Ledger) (sender receiver transfer_ct projection proof context : Bytes)
        → (ProvesBytes l sender projection proof context
            × (homomorphic_transfer_authenticated_bytes shake256_32 plp fhe l sender receiver
                  transfer_ct projection proof context
                ≡ homomorphic_transfer fhe l sender receiver transfer_ct))
          ⊎ (¬ ProvesBytes l sender projection proof context
              × ((homomorphic_transfer_authenticated_bytes shake256_32 plp fhe l sender receiver
                      transfer_ct projection proof context
                    ≡ (err_unauthorized, l))
                  ⊎ (homomorphic_transfer_authenticated_bytes shake256_32 plp fhe l sender receiver
                        transfer_ct projection proof context
                      ≡ (err_wire_verify_failed, l))))
    authenticated_bytes-Proves l sender receiver transfer_ct projection proof context =
        elim (authenticated_bytes-Finds l sender receiver transfer_ct projection proof context) [
          | inl (f, same) ↦ inl (
            record {
              decoded = f.decoded;
              decodes = f.decodes;
              bound =
                  (bound_projection_iff shake256_32 plp l sender (plp.to_bytes f.decoded)).0
                    f.bound;
              verifies = f.verifies;
            },
            same,
          )
          | inr (none_found, refused) ↦ inr (
            λ p. none_found (record {
              decoded = p.decoded;
              decodes = p.decodes;
              bound =
                  (bound_projection_iff shake256_32 plp l sender (plp.to_bytes p.decoded)).1
                    p.bound;
              verifies = p.verifies;
            }),
            refused,
          )
        ]

    -- A vault registered with an identity is bound to that projection: on a ledger where its derived ID
    -- was not bound before, an authenticated transfer from it with a proof that verifies is the plain
    -- transfer. The projection's bytes are those that its decoded value encodes to.
    pub registered-authenticates :
        (l : Ledger) (bytes ct receiver transfer_ct : Bytes) (projection : Projection)
        (proof : Proof)
        → plp.from_bytes bytes ≡ some projection
        → plp.to_bytes projection ≡ bytes
        → plp.verify projection proof ≡ true
        → bound_projection shake256_32 plp l (derive_vault_id shake256_32 bytes) ≡ none
        → homomorphic_transfer_authenticated shake256_32 plp fhe
            (register_vault_with_identity shake256_32 plp l bytes ct).1
            (derive_vault_id shake256_32 bytes)
            receiver
            transfer_ct
            projection
            proof
          ≡ homomorphic_transfer fhe
              (register_vault_with_identity shake256_32 plp l bytes ct).1
              (derive_vault_id shake256_32 bytes)
              receiver
              transfer_ct
    registered-authenticates l bytes ct receiver transfer_ct projection proof hd he hv hn =
        elim (authenticated-Proves (register_vault_with_identity shake256_32 plp l bytes ct).1
          (derive_vault_id shake256_32 bytes) receiver transfer_ct projection proof) [
            | inl (_, same) ↦ same
            | inr (refused, _) ↦ absurd (
                refused (record {
                  bound =
                      (bound_projection_iff shake256_32 plp _ _ _).0
                        (registered-bound l bytes ct projection hd hn ∙ ap some (sym he));
                  verifies = hv;
                }))
          ]
