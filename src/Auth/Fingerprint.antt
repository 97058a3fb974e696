-- ===== src/Auth/Fingerprint.antt =====
-- crates/aethel-auth/src/proof.rs: `key_fingerprint`, a short name for a public key.
use aethel_runtime.Base.{ℕ, zero, suc, [], ◌∷◌, ◌++◌}
use aethel_runtime.Base.Bytes.{Bytes}
use aethel_runtime.Vault.Binding.{to_hex_lower}
use aethel_runtime.Auth.Core.{Core}

-- `d[..n]`.
abbrev pub take : ℕ → Bytes → Bytes
take zero d = []
take (suc n) [] = []
take (suc n) (b ∷ d) = b ∷ take n d

-- `d.chunks(2)` in lower-case hexadecimal, joined by dashes. The digest has 32 bytes, so that the
-- chunks are four pairs.
unfoldable pub dashed : Bytes → Bytes
unfolding to_hex_lower
dashed [] = []
dashed (a ∷ []) = to_hex_lower (a ∷ [])
dashed (a ∷ b ∷ []) = to_hex_lower (a ∷ b ∷ [])
dashed (a ∷ b ∷ c ∷ d) = to_hex_lower (a ∷ b ∷ []) ++ (45 ∷ dashed (c ∷ d))

unfoldable pub key_fingerprint : {E I : Type 0} → Core E I → Bytes → Bytes
unfolding dashed
key_fingerprint core public_key = dashed (take 8 (core.shake256_32 public_key))
