-- ===== src/Wire.antt =====
-- How the signed bytes are laid out: fixed-width big-endian numbers, and fields framed by their
-- length (`push_len_prefixed` of crates/aethel-auth/src/proof.rs).
pub mod Unique
use aethel_runtime.Base.{
  ℕ, zero, suc, ◌/◌, ◌%◌, ◌^◌, ◌≡◌, List, [], ◌∷◌, ◌++◌, Option, none, some, arith, length,
  length-append,
}
use aethel_runtime.Base.Bytes.{Bytes}

-- `to_be_bytes` of a `w`-byte number.
unfoldable pub to_be_bytes : ℕ → ℕ → Bytes
to_be_bytes zero n = []
to_be_bytes (suc w) n = to_be_bytes w (n / 256) ++ n % 256 ∷ []

-- The bytes that `push_len_prefixed` appends: the length as a `u32`, then the field.
unfoldable pub len_prefixed : Bytes → Bytes
unfolding to_be_bytes
len_prefixed bytes = to_be_bytes 4 (length bytes % 2 ^ 32) ++ bytes

-- A loop of `push_len_prefixed` over a list of fields.
unfoldable pub all_len_prefixed : List Bytes → Bytes
unfolding len_prefixed
all_len_prefixed [] = []
all_len_prefixed (x ∷ xs) = len_prefixed x ++ all_len_prefixed xs

-- A tag byte, then the number if there is one.
unfoldable pub tagged : ℕ → Option ℕ → Bytes
unfolding to_be_bytes
tagged w none = 0 ∷ []
tagged w (some v) = 1 ∷ to_be_bytes w v

pub length-to_be_bytes : (w n : ℕ) → length (to_be_bytes w n) ≡ w
unfolding to_be_bytes
length-to_be_bytes zero n = omega arith
length-to_be_bytes (suc w) n =
    omega (
      arith,
      length-append (to_be_bytes w (n / 256)) (n % 256 ∷ []),
      length-to_be_bytes w (n / 256),
    )
