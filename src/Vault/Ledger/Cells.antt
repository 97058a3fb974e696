-- ===== src/Vault/Ledger/Cells.antt =====
-- The list of vault entries as a map: what a lookup finds after a write.
use aethel_runtime.Base.{
  ℕ, zero, suc, ◌≡◌, refl, ◌≢◌, inl, inr, true, false, none, some, [], ◌∷◌, ◌++◌, arith,
  if◌then◌else◌, Bool-cases,
}
use aethel_runtime.Base.Bytes.{Bytes, bytes_eq, bytes_eq_iff}
use aethel_runtime.Vault.Ledger.{Entries, position, find_entry, entry_at, set_entry}

-- An entry that is found stands at the position of its key.
pub position_of_found :
    (k v : Bytes) (m : Entries)
    → find_entry k m ≡ some v
    → (i : ℕ) × (position k m ≡ some i) × (entry_at m i ≡ v)
unfolding find_entry position entry_at
position_of_found k v [] h = absurd (ground arith)
position_of_found k v ((j, u) ∷ m) h = elim (Bool-cases (bytes_eq j k)) [
  | inl e ↦ (0, ground arith, ground arith)
  | inr e ↦ let (i, p, q) = position_of_found k v m (ground arith) in (suc i, rw (e, p) refl, q)
]

at_head : (k j u : Bytes) (m : Entries) → position k ((j, u) ∷ m) ≡ some 0 → bytes_eq j k ≡ true
unfolding position
at_head k j u m h = ground arith

past_head :
    (k j u : Bytes) (m : Entries) (i : ℕ)
    → position k ((j, u) ∷ m) ≡ some (suc i)
    → (bytes_eq j k ≡ false) × (position k m ≡ some i)
unfolding position
past_head k j u m i h = ground arith

pub find_entry-set_entry :
    (k v : Bytes) (m : Entries) (i : ℕ)
    → position k m ≡ some i
    → find_entry k (set_entry i v m) ≡ some v
unfolding find_entry position set_entry
find_entry-set_entry k v [] i h = absurd (ground arith)
find_entry-set_entry k v ((j, u) ∷ m) zero h = ground (arith, at_head k j u m h)
find_entry-set_entry k v ((j, u) ∷ m) (suc i) h =
    let (e, p) = past_head k j u m i h in rw (e, find_entry-set_entry k v m i p) refl

pub find_entry-set_entry_ne :
    (k l v : Bytes) (m : Entries) (i : ℕ)
    → position k m ≡ some i
    → l ≢ k
    → find_entry l (set_entry i v m) ≡ find_entry l m
unfolding find_entry position set_entry
find_entry-set_entry_ne k l v [] i h ne = refl
find_entry-set_entry_ne k l v ((j, u) ∷ m) zero h ne =
    ground (arith, bytes_eq_iff j k, bytes_eq_iff j l, at_head k j u m h)
find_entry-set_entry_ne k l v ((j, u) ∷ m) (suc i) h ne =
    let (e, p) = past_head k j u m i h in rw (find_entry-set_entry_ne k l v m i p ne) refl

pub position-set_entry :
    (k v : Bytes) (m : Entries) (i : ℕ) → position k (set_entry i v m) ≡ position k m
unfolding position set_entry
position-set_entry k v [] i = refl
position-set_entry k v ((j, u) ∷ m) zero = refl
position-set_entry k v ((j, u) ∷ m) (suc i) = rw (position-set_entry k v m i) refl

pub find_entry-append :
    (k l v : Bytes) (m : Entries)
    → find_entry k (m ++ ((l, v) ∷ []))
      ≡ elim (find_entry k m) [ none ↦ if bytes_eq l k then some v else none | some u ↦ some u ]
unfolding find_entry
find_entry-append k l v [] = ground arith
find_entry-append k l v ((j, u) ∷ m) = ground (arith, find_entry-append k l v m)
