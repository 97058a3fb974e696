-- ===== src/Vault/Helix.antt =====
-- src/storage/helixdb.rs: the adapter to the vector database, which is not wired yet, and the queue of
-- nodes that the wasm32 build keeps for its host. `F` is `f32`.
pub mod Queue
pub mod Centred
use aethel_runtime.Base.{
  ℕ, suc, ◌+◌, ◌-◌, ◌/◌, ◌%◌, ◌^◌, Bool, true, false, not, Option, none, some, List, [], ◌∷◌, ◌++◌,
  ltb, ◌==◌, if◌then◌else◌, Result, err,
}
use aethel_runtime.Base.Bytes.{Bytes, codes}
use aethel_runtime.Vault.Binding.{display_u64}

pub data HelixError : Type 0 where
  transport serialization invalid_argument not_found not_implemented : Bytes → HelixError

-- An `i32`, by its value.
pub data ℤ : Type 0 where
  pos negsuc : ℕ → ℤ

-- `z as i32` of a difference, which wraps in a release build: from the difference of two naturals.
abbrev pub wrapped_sub : ℕ → ℕ → ℤ
wrapped_sub a b =
    let r = (a + 2 ^ 33 - b) % 2 ^ 32 in if ltb r (2 ^ 31) then pos r else negsuc (2 ^ 32 - 1 - r)

-- `c - q` on `i32`.
abbrev pub sub_i32 : ℤ → ℤ → ℤ
sub_i32 (pos a) (pos b) = wrapped_sub a b
sub_i32 (pos a) (negsuc b) = wrapped_sub (a + suc b) 0
sub_i32 (negsuc a) (pos b) = wrapped_sub 0 (suc a + b)
sub_i32 (negsuc a) (negsuc b) = wrapped_sub (suc b) (suc a)

-- `a > b`.
abbrev pub gtb : ℤ → ℤ → Bool
gtb (pos a) (pos b) = ltb b a
gtb (pos a) (negsuc b) = true
gtb (negsuc a) (pos b) = false
gtb (negsuc a) (negsuc b) = ltb a b

-- `q / 2`, which rounds to zero.
abbrev pub half : ℤ → ℤ
half (pos a) = pos (a / 2)
half (negsuc a) = let h = suc a / 2 in if h == 0 then pos 0 else negsuc (h - 1)

-- The closure of `from_mlwe_coeffs`, before the division.
unfoldable pub centred : ℤ → ℤ → ℤ
centred c q = if gtb c (half q) then sub_i32 c q else c

abbrev pub size : {F : Type 0} → List F → ℕ
size [] = 0
size (x ∷ xs) = suc (size xs)

pub record Vector256 (F : Type 0) : Type 0 where
  pub elements : List F

-- `none` is the panic of `assert_eq!`.
unfoldable pub new_vector : {F : Type 0} → List F → Option (Vector256 F)
new_vector elements = if size elements == 256 then some (record { elements = elements }) else none

pub record StateNodePayload (F : Type 0) : Type 0 where
  pub vault_id : Bytes
  pub ciphertext : Bytes
  pub timestamp : ℕ
  pub vector_embedding : Vector256 F
  pub previous_node_id : Option Bytes
  pub geodesic_distance : F

pub record ScoredStateNode (F : Type 0) : Type 0 where
  pub node_id : Bytes
  pub distance : F

-- `coeffs.iter().map(..)`; `ratio c h` is `c as f32 / h as f32`.
unfoldable pub ratios : {F : Type 0} → (ℤ → ℤ → F) → ℤ → List ℤ → List F
unfolding centred
ratios ratio q [] = []
ratios ratio q (c ∷ coeffs) = ratio (centred c q) (half q) ∷ ratios ratio q coeffs

unfoldable pub from_mlwe_coeffs : {F : Type 0} → (ℤ → ℤ → F) → List ℤ → ℤ → Option (Vector256 F)
unfolding ratios
from_mlwe_coeffs ratio coeffs q =
    if size coeffs == 256 then some (record { elements = ratios ratio q coeffs }) else none

pub record HelixDbAdapter : Type 0 where
  pub endpoint : Bytes

module _ {F : Type 0} where
  unfoldable pub upsert_state_node : HelixDbAdapter → StateNodePayload F → Result HelixError Bytes
  upsert_state_node adapter node = err (
      not_implemented
        (codes "upsert_state_node not yet wired to gRPC endpoint: " ++ adapter.endpoint))

unfoldable pub traverse_temporal_trajectory :
    {F : Type 0}
    → HelixDbAdapter
    → Bytes
    → ℕ
    → ℕ
    → ℕ
    → Result HelixError (List (StateNodePayload F))
traverse_temporal_trajectory adapter vault_id from_timestamp to_timestamp max_hops =
    err (not_implemented (codes "traverse_temporal_trajectory not yet wired to gRPC"))

unfoldable pub vector_proximity_search :
    {F : Type 0}
    → HelixDbAdapter
    → Vector256 F
    → ℕ
    → ℕ
    → ℕ
    → Result HelixError (List (ScoredStateNode F))
unfolding display_u64
vector_proximity_search adapter query_vector top_k min_timestamp max_timestamp =
    if not (size query_vector.elements == 256)
    then err (
        invalid_argument (
          codes "query_vector must have 256 elements, got "
          ++ display_u64 (size query_vector.elements)))
    else err (not_implemented (codes "vector_proximity_search not yet wired to gRPC"))

unfoldable pub prune_temporal_node : HelixDbAdapter → Bytes → ℕ → Bytes → Result HelixError ℕ
prune_temporal_node adapter vault_id before_timestamp revocation_proof =
    err (not_implemented (codes "prune_temporal_node not yet wired to gRPC"))
