-- ===== src/Vault/Ledger/Bindings.antt =====
-- src/vault.rs: the projection that a vault is bound to, as the first binding of its ID.
use aethel_runtime.Base.{
  ◌≡◌, ◌≢◌, ◌↔◌, refl, ap, ap₂, inl, inr, some, [], ◌∷◌, ◌++◌, arith, Bool-cases, Option-cases,
}
use aethel_runtime.Base.Bytes.{Bytes, bytes_eq, bytes_eq_iff}
use aethel_runtime.Vault.Ledger.{Ledger, Entries, VaultState, find_entry}
use aethel_runtime.Vault.Ledger.Access.{Plp, bound_projection}

-- `id` is none of the IDs of these entries.
abbrev pub Absent : Bytes → Entries → Type 0
Absent id [] = Unit {0}
Absent id ((j, u) ∷ m) = (j ≢ id) × Absent id m

-- The first of these entries with the ID `id` holds `k`.
abbrev pub First : Bytes → Bytes → Entries → Type 0
First id k m = (before after : Entries) × (m ≡ before ++ ((id, k) ∷ after)) × Absent id before

-- The vault of this ID is bound to the projection `k`: the ledger's first binding of the ID.
abbrev pub Bound : Ledger → Bytes → Bytes → Type 0
Bound l id k = (s : VaultState) × (l.state ≡ some s) × First id k s.identity_projections

find_entry-First : (id k : Bytes) (m : Entries) → find_entry id m ≡ some k → First id k m
unfolding find_entry
find_entry-First id k [] h = absurd (cc)
find_entry-First id k ((j, u) ∷ m) h = elim (Bool-cases (bytes_eq j id)) [
  | inl same ↦
      let here : (j ≡ id) × (u ≡ k) = ((bytes_eq_iff j id).0 same, ground (arith, same, h)) in
      ([], m, ap₂ (λ (a b : Bytes). (a, b) ∷ m) here.0 here.1, tt)
  | inr differ ↦
      let (before, after, split, absent) = find_entry-First id k m (ground (arith, differ, h)) in
      (
        (j, u) ∷ before,
        after,
        ap (λ (l : Entries). (j, u) ∷ l) split,
        (ground (arith, differ, bytes_eq_iff j id), absent),
      )
]

find_entry-split :
    (id k : Bytes) (before after : Entries)
    → Absent id before
    → find_entry id (before ++ ((id, k) ∷ after)) ≡ some k
unfolding find_entry
find_entry-split id k [] after h = rw ((bytes_eq_iff id id).1 refl) refl
find_entry-split id k ((j, u) ∷ before) after h = elim (Bool-cases (bytes_eq j id)) [
  | inl same ↦ absurd (h.0 ((bytes_eq_iff j id).0 same))
  | inr differ ↦ rw differ (find_entry-split id k before after h.1)
]

find_entry_iff : (id k : Bytes) (m : Entries) → (find_entry id m ≡ some k) ↔ First id k m
find_entry_iff id k m = (
  find_entry-First id k m,
  λ (before, after, split, absent). rw split (find_entry-split id k before after absent),
)

-- The lookup of the code finds this binding.
module _ {Projection Proof : Type 0} (shake256_32 : Bytes → Bytes)
    (plp : Plp Projection Proof) where
  pub bound_projection_iff :
      (l : Ledger) (sender k : Bytes)
      → (bound_projection shake256_32 plp l sender ≡ some k) ↔ Bound l sender k
  unfolding bound_projection
  bound_projection_iff l sender k = elim (Option-cases l.state) [
    | inl e ↦ (λ h. absurd (ground arith), λ (s, e', first). absurd (cc))
    | inr (s, e) ↦ (
      λ h. (s, e, (find_entry_iff sender k s.identity_projections).0 (ground arith)),
      λ (s', e', first). rw e' ((find_entry_iff sender k s'.identity_projections).1 first),
    )
  ]
