-- ===== src/Vault/Exports/Vaults.antt =====
-- src/lib.rs: the vaults that the exported calls leave in the ledger, in any order of the calls.
use aethel_runtime.Base.{
  ℕ, zero, suc, ◌≡◌, refl, sym, ap, ◌∙◌, not, ◌||◌, Option, none, some, List, [], ◌∷◌, ◌++◌,
  append_assoc, append-nil, ◌==◌, length, Option-cases, Bool-cases, inl, inr, arith, ==_iff,
}
use aethel_runtime.Base.Bytes.{Bytes}
use aethel_runtime.Vault.Ledger.{
  Ledger, Entries, VaultState, Fhe, StateCodec, state_or_new, with_state_mut, set_entry, entry_at,
  write_back, indices, do_homomorphic_transfer, transfer_between, init_vault,
  register_vault_ciphertext, homomorphic_transfer,
}
use aethel_runtime.Vault.Ledger.Access.{
  Plp, derive_vault_id, after_wire_check, homomorphic_transfer_authenticated_bytes,
  register_vault_with_identity,
}
use aethel_runtime.Vault.Ledger.Wasm.{wasm_vault_transfer_authenticated_bytes}
use aethel_runtime.Vault.Exports.{
  vault_init, vault_register, vault_transfer, vault_transfer_authenticated_bytes,
  vault_register_with_identity,
}

abbrev pub keys : Entries → List Bytes
keys [] = []
keys ((id, v) ∷ m) = id ∷ keys m

-- The IDs of the vaults, in the order of the ledger.
abbrev pub ids : Ledger → List Bytes
ids l = keys (state_or_new l.state).balances

abbrev pub All32 : List Bytes → Type 0
All32 [] = Unit {0}
All32 (id ∷ rest) = (length id ≡ 32) × All32 rest

-- Every vault of `l` is still there, in its place, and the vaults behind them have IDs of 32 bytes.
abbrev pub Extends : Ledger → Ledger → Type 0
Extends l l' = (added : List Bytes) × (ids l' ≡ ids l ++ added) × All32 added

All32-append : (a b : List Bytes) → All32 a → All32 b → All32 (a ++ b)
All32-append [] b ha hb = hb
All32-append (x ∷ a) b ha hb = (ha.0, All32-append a b ha.1 hb)

Same-Extends : (l l' : Ledger) → ids l' ≡ ids l → Extends l l'
Same-Extends l l' h = ([], h ∙ sym (append-nil (ids l)), tt)

Extends-trans : (l m n : Ledger) → Extends l m → Extends m n → Extends l n
Extends-trans l m n (a, ha, wa) (b, hb, wb) = (
  a ++ b,
  hb ∙ ap (λ (x : List Bytes). x ++ b) ha ∙ append_assoc (ids l) a b,
  All32-append a b wa wb,
)

keys-set_entry : (i : ℕ) (v : Bytes) (m : Entries) → keys (set_entry i v m) ≡ keys m
unfolding set_entry
keys-set_entry i v [] = refl
keys-set_entry zero v ((id, u) ∷ m) = refl
keys-set_entry (suc i) v ((id, u) ∷ m) = ap (λ (x : List Bytes). id ∷ x) (keys-set_entry i v m)

keys-append : (m : Entries) (id v : Bytes) → keys (m ++ ((id, v) ∷ [])) ≡ keys m ++ (id ∷ [])
keys-append [] id v = refl
keys-append ((j, u) ∷ m) id v = ap (λ (x : List Bytes). j ∷ x) (keys-append m id v)

ids-write_back :
    (si ri : ℕ) (a b : Bytes) (l : Ledger) → ids (with_state_mut (write_back si ri a b) l) ≡ ids l
unfolding with_state_mut write_back
ids-write_back si ri a b l = keys-set_entry ri b _ ∙ keys-set_entry si a _

module _ {K C B Projection Proof : Type 0} (fhe : Fhe K C B) (codec : StateCodec)
    (shake256_32 : Bytes → Bytes) (plp : Plp Projection Proof) where
  ids-transfer_between :
      (l : Ledger) (si ri : ℕ) (transfer_ct : Bytes) (key : Option Bytes)
      → ids (transfer_between fhe l si ri transfer_ct key).1 ≡ ids l
  unfolding transfer_between
  ids-transfer_between l si ri transfer_ct none = refl
  ids-transfer_between l si ri transfer_ct (some key) =
      let balances = (state_or_new l.state).balances in
      elim (Option-cases (
        do_homomorphic_transfer fhe (entry_at balances si) (entry_at balances ri) transfer_ct
          key)) [
            | inl n ↦ rw (n, transfer_between) refl
            | inr (r, e) ↦ rw (e, transfer_between) (ids-write_back si ri r.0 r.1 l)
          ]

  ids-homomorphic_transfer :
      (l : Ledger) (sender receiver transfer_ct : Bytes)
      → ids (homomorphic_transfer fhe l sender receiver transfer_ct).1 ≡ ids l
  unfolding homomorphic_transfer
  ids-homomorphic_transfer l sender receiver transfer_ct =
      elim (Bool-cases (not (length sender == 32) || not (length receiver == 32))) [
        | inl t ↦ rw t refl
        | inr f ↦ elim (Option-cases (indices l sender receiver)) [
          | inl n ↦ rw (f, n) refl
          | inr (r, e) ↦ rw (f, e) (ids-transfer_between l r.0 r.1 transfer_ct l.server_key_bytes)
        ]
      ]

  ids-authenticated_bytes :
      (l : Ledger) (sender receiver transfer_ct projection proof context : Bytes)
      → ids
          (homomorphic_transfer_authenticated_bytes shake256_32 plp fhe l sender receiver
            transfer_ct projection proof context).1
        ≡ ids l
  unfolding homomorphic_transfer_authenticated_bytes after_wire_check
  ids-authenticated_bytes l sender receiver transfer_ct projection proof context =
      ground (arith, ids-homomorphic_transfer l sender receiver transfer_ct)

  ids-init_vault : (l : Ledger) (key : Bytes) → ids (init_vault fhe l key).1 ≡ ids l
  unfolding init_vault
  ids-init_vault l key = ground arith

  -- A vault behind the others.
  with_state_mut-Extends :
      (l : Ledger) (id ct : Bytes) (projections : VaultState → Entries)
      → length id ≡ 32
      → Extends l (
          with_state_mut
            (λ s. record {
              balances = s.balances ++ ((id, ct) ∷ []);
              identity_projections = projections s;
            })
            l)
  unfolding with_state_mut
  with_state_mut-Extends l id ct projections h =
      (id ∷ [], keys-append (state_or_new l.state).balances id ct, (h, tt))

  register_vault_ciphertext-Extends :
      (l : Ledger) (id ct : Bytes) → Extends l (register_vault_ciphertext l id ct).1
  unfolding register_vault_ciphertext
  register_vault_ciphertext-Extends l id ct = elim (Bool-cases (length id == 32)) [
    | inl t ↦
        rw t (
          with_state_mut-Extends l id ct (λ s. s.identity_projections)
            ((==_iff (length id) 32).0 t))
    | inr f ↦ rw f (Same-Extends l l refl)
  ]

  -- What an exported call does to the ledger; `vault_import_state`, which replaces it, is left out, and
  -- the calls that only read it change nothing.
  pub data Step (l : Ledger) : Ledger → Type 0 where
    inits :
        (server_key_bytes : Bytes)
        → Step l (vault_init fhe codec shake256_32 plp l server_key_bytes).1
    registers :
        (vault_id ct : Bytes) → Step l (vault_register fhe codec shake256_32 plp l vault_id ct).1
    registers_identity :
        (projection ct : Bytes)
        → Step l (vault_register_with_identity fhe codec shake256_32 plp l projection ct).1
    transfers :
        (sender receiver ct : Bytes)
        → Step l (vault_transfer fhe codec shake256_32 plp l sender receiver ct).1
    transfers_authenticated :
        (sender receiver ct projection proof context : Bytes)
        → Step l
            (vault_transfer_authenticated_bytes fhe codec shake256_32 plp l sender receiver ct
              projection proof context).1

  pub data Reach (l : Ledger) : Ledger → Type 0 where
    none_yet : Reach l l
    one_more : {m n : Ledger} → Reach l m → Step m n → Reach l n

  module _ (shake256_32-length : (x : Bytes) → length (shake256_32 x) ≡ 32) where
    register_vault_with_identity-Extends :
        (l : Ledger) (projection ct : Bytes)
        → Extends l (register_vault_with_identity shake256_32 plp l projection ct).1
    unfolding register_vault_with_identity derive_vault_id
    register_vault_with_identity-Extends l projection ct =
        elim (Option-cases (plp.from_bytes projection)) [
          | inl n ↦ rw (n, register_vault_with_identity) (Same-Extends l l refl)
          | inr (p, e) ↦
              let id = derive_vault_id shake256_32 projection in
              rw (e, register_vault_with_identity)
                (with_state_mut-Extends l id ct
                  (λ s. s.identity_projections ++ ((id, projection) ∷ [])) (shake256_32-length _))
        ]

    transfer_authenticated-Extends :
        (l : Ledger) (sender receiver ct projection proof context : Bytes)
        → Extends l
            (vault_transfer_authenticated_bytes fhe codec shake256_32 plp l sender receiver ct
              projection proof context).1
    unfolding vault_transfer_authenticated_bytes wasm_vault_transfer_authenticated_bytes
    transfer_authenticated-Extends l sender receiver ct projection proof context =
        elim (Bool-cases (not (length sender == 32) || not (length receiver == 32))) [
          | inl t ↦ rw t (Same-Extends l l refl)
          | inr f ↦ rw f (
              Same-Extends l
                (homomorphic_transfer_authenticated_bytes shake256_32 plp fhe l sender receiver ct
                  projection proof context).1
                (ids-authenticated_bytes l sender receiver ct projection proof context))
        ]

    Step-Extends : (l l' : Ledger) → Step l l' → Extends l l'
    unfolding vault_init vault_register vault_register_with_identity vault_transfer
        vault_transfer_authenticated_bytes
    Step-Extends l l' (inits k) = Same-Extends l (init_vault fhe l k).1 (ids-init_vault l k)
    Step-Extends l l' (registers id ct) = register_vault_ciphertext-Extends l id ct
    Step-Extends l l' (registers_identity projection ct) =
        register_vault_with_identity-Extends l projection ct
    Step-Extends l l' (transfers sender receiver ct) =
        Same-Extends l (homomorphic_transfer fhe l sender receiver ct).1
          (ids-homomorphic_transfer l sender receiver ct)
    Step-Extends l l' (transfers_authenticated sender receiver ct projection proof context) =
        transfer_authenticated-Extends l sender receiver ct projection proof context

    -- Whatever calls are made, in any order, with any arguments, and whether they succeed or not: each
    -- vault of the ledger is still there, in its place, and the vaults that were added stand behind them
    -- and have IDs of 32 bytes, which is what SHAKE-256 is asked for. Imports are left out.
    pub Reach-Extends : (l l' : Ledger) → Reach l l' → Extends l l'
    Reach-Extends l l' none_yet = Same-Extends l l refl
    Reach-Extends l l' (one_more {m = m} before step) =
        Extends-trans l m l' (Reach-Extends l m before) (Step-Extends m l' step)
