-- ===== src/Vault/Ledger/Access.antt =====
-- src/vault.rs: vaults bound to an identity, and the transfers that ask for a proof of it.
use aethel_runtime.Base.{
  ℕ, Bool, true, false, not, Option, none, some, [], ◌∷◌, ◌++◌, if◌then◌else◌, Result, ok, err,
}
use aethel_runtime.Base.Bytes.{Bytes, bytes_eq, codes}
use aethel_runtime.Base.Options.{◌>>=◌}
use aethel_runtime.Vault.Ledger.{
  err_deser, Ledger, Fhe, find_entry, with_state_mut, homomorphic_transfer,
}

abbrev pub err_unauthorized : ℕ
err_unauthorized = 5

abbrev pub err_wire_verify_failed : ℕ
err_wire_verify_failed = 6

-- `derive_vault_id`, over 32 bytes of SHAKE-256.
unfoldable pub derive_vault_id : (Bytes → Bytes) → Bytes → Bytes
derive_vault_id shake256_32 projection = shake256_32 (codes "AETHEL_VAULT_ID_V1" ++ projection)

-- `aethel_core`'s PLP projections and proofs, and their wire envelopes; `none` is an `Err`.
pub record Plp (Projection Proof : Type 0) : Type 0 where
  pub from_bytes : Bytes → Option Projection
  pub to_bytes : Projection → Bytes
  pub verify : Projection → Proof → Bool
  pub decode_projection : Bytes → Option Projection
  pub verify_projection : Bytes → Bytes → Bytes → Option Bool

module _ {Projection Proof : Type 0} (shake256_32 : Bytes → Bytes)
    (plp : Plp Projection Proof) where
  unfoldable pub register_vault_with_identity : Ledger → Bytes → Bytes → Result ℕ Bytes × Ledger
  unfolding derive_vault_id with_state_mut
  register_vault_with_identity l projection ct = elim (plp.from_bytes projection) [
    | none ↦ (err err_deser, l)
    | some _ ↦
        let vault_id = derive_vault_id shake256_32 projection in
        (
          ok vault_id,
          with_state_mut
              (λ s. record {
                balances = s.balances ++ ((vault_id, ct) ∷ []);
                identity_projections = s.identity_projections ++ ((vault_id, projection) ∷ []);
              })
              l,
        )
  ]

  -- The projection that a vault was registered under.
  unfoldable pub bound_projection : Ledger → Bytes → Option Bytes
  unfolding find_entry
  bound_projection l sender = do s ← l.state; find_entry sender s.identity_projections

  module _ {K C B : Type 0} (fhe : Fhe K C B) where
    unfoldable pub homomorphic_transfer_authenticated :
        Ledger → Bytes → Bytes → Bytes → Projection → Proof → ℕ × Ledger
    unfolding bound_projection homomorphic_transfer
    homomorphic_transfer_authenticated l sender receiver transfer_ct projection proof =
        elim (bound_projection l sender) [
          | none ↦ (err_unauthorized, l)
          | some bound ↦
              if not (bytes_eq bound (plp.to_bytes projection))
              then (err_unauthorized, l)
              else if not (plp.verify projection proof)
              then (err_unauthorized, l)
              else homomorphic_transfer fhe l sender receiver transfer_ct
        ]

    -- The last check and the transfer behind it.
    unfoldable pub after_wire_check : Option Bool → ℕ × Ledger → Ledger → ℕ × Ledger
    after_wire_check (some true) transferred l = transferred
    after_wire_check (some false) transferred l = (err_wire_verify_failed, l)
    after_wire_check none transferred l = (err_wire_verify_failed, l)

    unfoldable pub homomorphic_transfer_authenticated_bytes :
        Ledger → Bytes → Bytes → Bytes → Bytes → Bytes → Bytes → ℕ × Ledger
    unfolding bound_projection homomorphic_transfer after_wire_check
    homomorphic_transfer_authenticated_bytes l sender receiver transfer_ct projection proof
          context =
        elim (bound_projection l sender) [
          | none ↦ (err_unauthorized, l)
          | some bound ↦ elim (plp.decode_projection projection) [
            | none ↦ (err_wire_verify_failed, l)
            | some decoded ↦
                if not (bytes_eq (plp.to_bytes decoded) bound)
                then (err_unauthorized, l)
                else after_wire_check (plp.verify_projection projection proof context)
                    (homomorphic_transfer fhe l sender receiver transfer_ct) l
          ]
        ]
