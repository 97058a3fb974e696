-- ===== src/Vault/Exports/Identities.antt =====
-- src/lib.rs: whose vault an authenticated call can debit, whatever calls were made before it.
use aethel_runtime.Base.{
  ℕ, ◌≡◌, ◌≢◌, refl, sym, subst, true, not, ◌||◌, Option, none, some, [], ◌∷◌, ◌++◌, ◌==◌, length,
  Option-cases, Bool-cases, inl, inr, arith,
}
use aethel_runtime.Base.Bytes.{Bytes, codes}
use aethel_runtime.Vault.Ledger.{
  Ledger, Entries, Fhe, StateCodec, state_or_new, with_state_mut, entry_at, write_back, indices,
  do_homomorphic_transfer, transfer_between, init_vault, register_vault_ciphertext,
  homomorphic_transfer,
}
use aethel_runtime.Vault.Ledger.Access.{
  Plp, derive_vault_id, after_wire_check, homomorphic_transfer_authenticated_bytes,
  register_vault_with_identity,
}
use aethel_runtime.Vault.Ledger.Bindings.{First}
use aethel_runtime.Vault.Ledger.Identity.{ProvesBytes, authenticated_bytes-Proves}
use aethel_runtime.Vault.Ledger.Wasm.{wasm_vault_transfer_authenticated_bytes}
use aethel_runtime.Vault.Exports.{
  vault_init, vault_register, vault_transfer, vault_transfer_authenticated_bytes,
  vault_register_with_identity,
}
use aethel_runtime.Vault.Exports.Vaults.{
  Step, inits, registers, registers_identity, transfers, transfers_authenticated, Reach, none_yet,
  one_more,
}

-- The bindings of the ledger, in their order.
abbrev pub bindings : Ledger → Entries
bindings l = (state_or_new l.state).identity_projections

-- Each ID is the hash of the projection that it is bound to.
abbrev pub AllDerived : (Bytes → Bytes) → Entries → Type 0
AllDerived shake256_32 [] = Unit {0}
AllDerived shake256_32 ((id, k) ∷ m) =
    (id ≡ shake256_32 (codes "AETHEL_VAULT_ID_V1" ++ k)) × AllDerived shake256_32 m

AllDerived-append :
    (f : Bytes → Bytes) (a b : Entries) → AllDerived f a → AllDerived f b → AllDerived f (a ++ b)
AllDerived-append f [] b h k = k
AllDerived-append f ((id, u) ∷ a) b h k = (h.0, AllDerived-append f a b h.1 k)

AllDerived-at :
    (f : Bytes → Bytes) (before after : Entries) (id k : Bytes)
    → AllDerived f (before ++ ((id, k) ∷ after))
    → id ≡ f (codes "AETHEL_VAULT_ID_V1" ++ k)
AllDerived-at f [] after id k h = h.0
AllDerived-at f ((j, u) ∷ before) after id k h = AllDerived-at f before after id k h.1

First-derived :
    (f : Bytes → Bytes) (id k : Bytes) (m : Entries)
    → First id k m
    → AllDerived f m
    → id ≡ f (codes "AETHEL_VAULT_ID_V1" ++ k)
First-derived f id k m (before, after, split, absent) h =
    AllDerived-at f before after id k (subst (AllDerived f) split h)

module _ {K C B Projection Proof : Type 0} (fhe : Fhe K C B) (codec : StateCodec)
    (shake256_32 : Bytes → Bytes) (plp : Plp Projection Proof) where
  bindings-transfer_between :
      (l : Ledger) (si ri : ℕ) (transfer_ct : Bytes) (key : Option Bytes)
      → bindings (transfer_between fhe l si ri transfer_ct key).1 ≡ bindings l
  unfolding transfer_between with_state_mut write_back
  bindings-transfer_between l si ri transfer_ct none = refl
  bindings-transfer_between l si ri transfer_ct (some key) =
      let balances = (state_or_new l.state).balances in
      elim (Option-cases (
        do_homomorphic_transfer fhe (entry_at balances si) (entry_at balances ri) transfer_ct
          key)) [
            | inl n ↦ rw (n, transfer_between) refl
            | inr (r, e) ↦ rw (e, transfer_between) refl
          ]

  bindings-homomorphic_transfer :
      (l : Ledger) (sender receiver transfer_ct : Bytes)
      → bindings (homomorphic_transfer fhe l sender receiver transfer_ct).1 ≡ bindings l
  unfolding homomorphic_transfer
  bindings-homomorphic_transfer l sender receiver transfer_ct =
      elim (Bool-cases (not (length sender == 32) || not (length receiver == 32))) [
        | inl t ↦ rw t refl
        | inr f ↦ elim (Option-cases (indices l sender receiver)) [
          | inl n ↦ rw (f, n) refl
          | inr (r, e) ↦
              rw (f, e) (bindings-transfer_between l r.0 r.1 transfer_ct l.server_key_bytes)
        ]
      ]

  bindings-authenticated_bytes :
      (l : Ledger) (sender receiver transfer_ct projection proof context : Bytes)
      → bindings
          (homomorphic_transfer_authenticated_bytes shake256_32 plp fhe l sender receiver
            transfer_ct projection proof context).1
        ≡ bindings l
  unfolding homomorphic_transfer_authenticated_bytes after_wire_check
  bindings-authenticated_bytes l sender receiver transfer_ct projection proof context =
      ground (arith, bindings-homomorphic_transfer l sender receiver transfer_ct)

  bindings-transfer_authenticated :
      (l : Ledger) (sender receiver ct projection proof context : Bytes)
      → bindings
          (vault_transfer_authenticated_bytes fhe codec shake256_32 plp l sender receiver ct
            projection proof context).1
        ≡ bindings l
  unfolding vault_transfer_authenticated_bytes wasm_vault_transfer_authenticated_bytes
  bindings-transfer_authenticated l sender receiver ct projection proof context =
      elim (Bool-cases (not (length sender == 32) || not (length receiver == 32))) [
        | inl t ↦ rw t refl
        | inr f ↦ rw f (bindings-authenticated_bytes l sender receiver ct projection proof context)
      ]

  bindings-init_vault : (l : Ledger) (key : Bytes) → bindings (init_vault fhe l key).1 ≡ bindings l
  unfolding init_vault
  bindings-init_vault l key = ground arith

  bindings-register_vault_ciphertext :
      (l : Ledger) (id ct : Bytes) → bindings (register_vault_ciphertext l id ct).1 ≡ bindings l
  unfolding register_vault_ciphertext with_state_mut
  bindings-register_vault_ciphertext l id ct = ground arith

  register_vault_with_identity-AllDerived :
      (l : Ledger) (projection ct : Bytes)
      → AllDerived shake256_32 (bindings l)
      → AllDerived shake256_32
          (bindings (register_vault_with_identity shake256_32 plp l projection ct).1)
  unfolding register_vault_with_identity derive_vault_id with_state_mut
  register_vault_with_identity-AllDerived l projection ct h =
      elim (Option-cases (plp.from_bytes projection)) [
        | inl n ↦ rw (n, register_vault_with_identity) h
        | inr (p, e) ↦
            rw (e, register_vault_with_identity)
              (AllDerived-append shake256_32 (bindings l) _ h (refl, tt))
      ]

  kept :
      (l m : Ledger)
      → bindings m ≡ bindings l
      → AllDerived shake256_32 (bindings l)
      → AllDerived shake256_32 (bindings m)
  kept l m same h = subst (AllDerived shake256_32) (sym same) h

  Step-AllDerived :
      (l l' : Ledger)
      → Step fhe codec shake256_32 plp l l'
      → AllDerived shake256_32 (bindings l)
      → AllDerived shake256_32 (bindings l')
  unfolding vault_init vault_register vault_register_with_identity vault_transfer
  Step-AllDerived l l' (inits k) h = kept l (init_vault fhe l k).1 (bindings-init_vault l k) h
  Step-AllDerived l l' (registers id ct) h =
      kept l (register_vault_ciphertext l id ct).1 (bindings-register_vault_ciphertext l id ct) h
  Step-AllDerived l l' (registers_identity projection ct) h =
      register_vault_with_identity-AllDerived l projection ct h
  Step-AllDerived l l' (transfers sender receiver ct) h =
      kept l (homomorphic_transfer fhe l sender receiver ct).1
        (bindings-homomorphic_transfer l sender receiver ct) h
  Step-AllDerived l l' (transfers_authenticated sender receiver ct projection proof context) h =
      kept l
        (vault_transfer_authenticated_bytes fhe codec shake256_32 plp l sender receiver ct
          projection proof context).1
        (bindings-transfer_authenticated l sender receiver ct projection proof context) h

  Reach-AllDerived :
      (l l' : Ledger)
      → Reach fhe codec shake256_32 plp l l'
      → AllDerived shake256_32 (bindings l)
      → AllDerived shake256_32 (bindings l')
  Reach-AllDerived l l' none_yet h = h
  Reach-AllDerived l l' (one_more {m = m} before step) h =
      Step-AllDerived m l' step (Reach-AllDerived l m before h)

  -- The sender's ID is the hash of a projection that the envelope decodes to and that it verifies.
  pub record Owns (sender projection proof context : Bytes) : Type 0 where
    pub decoded : Projection
    pub decodes : plp.decode_projection projection ≡ some decoded
    pub derived : sender ≡ shake256_32 (codes "AETHEL_VAULT_ID_V1" ++ plp.to_bytes decoded)
    pub verifies : plp.verify_projection projection proof context ≡ some true

  ProvesBytes-Owns :
      (l : Ledger) (sender projection proof context : Bytes)
      → AllDerived shake256_32 (bindings l)
      → ProvesBytes shake256_32 plp l sender projection proof context
      → Owns sender projection proof context
  ProvesBytes-Owns l sender projection proof context h p =
      let (s, is, first) = p.bound in
      record {
        decoded = p.decoded;
        decodes = p.decodes;
        derived =
            First-derived shake256_32 sender (plp.to_bytes p.decoded) s.identity_projections first
              (subst (λ o. AllDerived shake256_32 (state_or_new o).identity_projections) is h);
        verifies = p.verifies;
      }

  -- Whatever calls were made before on a ledger that began with no bindings, imports left out: an
  -- authenticated call that changes the ledger at all has a sender whose ID is the labelled hash of the
  -- projection that its envelope decodes to, and the proof verifies for it in this context.
  pub authenticated_call-Owns :
      (start l : Ledger) (sender receiver ct projection proof context : Bytes)
      → bindings start ≡ []
      → Reach fhe codec shake256_32 plp start l
      → (vault_transfer_authenticated_bytes fhe codec shake256_32 plp l sender receiver ct
          projection proof context).1
        ≢ l
      → Owns sender projection proof context
  unfolding vault_transfer_authenticated_bytes wasm_vault_transfer_authenticated_bytes
  authenticated_call-Owns start l sender receiver ct projection proof context empty reached
        changed =
      let derived =
        Reach-AllDerived start l reached (subst (AllDerived shake256_32) (sym empty) tt) in
      elim (Bool-cases (not (length sender == 32) || not (length receiver == 32))) [
        | inl t ↦ absurd (changed (rw t refl))
        | inr f ↦
            elim (authenticated_bytes-Proves shake256_32 plp fhe l sender receiver ct projection
              proof context) [
                | inl (p, _) ↦ ProvesBytes-Owns l sender projection proof context derived p
                | inr (_, inl refused) ↦ absurd (changed (rw (f, refused) refl))
                | inr (_, inr refused) ↦ absurd (changed (rw (f, refused) refl))
              ]
      ]
