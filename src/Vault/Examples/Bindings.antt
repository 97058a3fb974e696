-- ===== src/Vault/Examples/Bindings.antt =====
-- The theorem about wallet bindings at a concrete input, with a DID that needs escapes.
use aethel_runtime.Base.{ℕ, zero, suc, ◌<◌, ◌≡◌, refl, ◌∷◌, ◌++◌, arith}
use aethel_runtime.Base.Bytes.{Bytes, codes, replicate}
use aethel_runtime.Vault.Settlement.{base}
use aethel_runtime.Vault.Binding.{json_escape, display_u64}
use aethel_runtime.Vault.Binding.Layout.{AreBytes, wallet_bind_canonical_json-inj}

constant_bytes : (n b : ℕ) → b < 256 → AreBytes (replicate n b)
constant_bytes zero b h = tt
constant_bytes (suc n) b h = (h, constant_bytes n b h)

abbrev did : Bytes
did = 34 ∷ 10 ∷ 92 ∷ 1 ∷ codes "did"

wallet_bind_canonical_json-inj_example :
    (did ≡ did)
    × (base ≡ base)
    × (replicate 20 7 ≡ replicate 20 7)
    × (replicate 32 9 ≡ replicate 32 9)
wallet_bind_canonical_json-inj_example =
    wallet_bind_canonical_json-inj did did base base (replicate 20 7) (replicate 20 7)
      (replicate 32 9) (replicate 32 9) (constant_bytes 20 7 (omega arith))
      (constant_bytes 20 7 (omega arith)) refl refl (constant_bytes 32 9 (omega arith))
      (constant_bytes 32 9 (omega arith)) refl refl refl

-- A quote, a line end, a backslash and a control character.
escapes : json_escape did ≡ 92 ∷ 34 ∷ 92 ∷ 110 ∷ 92 ∷ 92 ∷ (codes "\\u0001" ++ codes "did")
unfolding json_escape
escapes = refl

digits : display_u64 42161 ≡ codes "42161"
unfolding display_u64
digits = refl
