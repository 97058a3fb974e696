-- ===== src/Auth/Base64.antt =====
-- crates/aethel-auth/src/b64.rs: bytes as base64url text, the text as its bytes.
pub mod RoundTrip
pub mod Serde
use aethel_runtime.Base.{
  ℕ, zero, suc, ◌*◌, ◌/◌, ◌%◌, ◌^◌, Option, none, some, [], ◌∷◌, ◌==◌, if◌then◌else◌, length,
}
use aethel_runtime.Base.Bytes.{Bytes, bytes_eq, codes}
use Prim.Native.Nat.{bit_or}
use aethel_runtime.Base.Options.{◌>>=◌, map}

abbrev pub alphabet : Bytes
alphabet = codes "ABCDEFGHIJKLMNOPQRSTUVWXYZabcdefghijklmnopqrstuvwxyz0123456789-_"

-- `ALPHABET[i]`; the indices are below 64.
abbrev pub get : Bytes → ℕ → ℕ
get [] i = 0
get (c ∷ cs) zero = c
get (c ∷ cs) (suc i) = get cs i

-- `.iter().position(|&a| a == c)`
abbrev pub index_of : Bytes → ℕ → Option ℕ
index_of [] c = none
index_of (a ∷ cs) c = let rest = index_of cs c in if a == c then some 0 else map suc rest

-- The closure `value`.
unfoldable pub value : ℕ → Option ℕ
value c = index_of alphabet c

-- Three bytes as one number; a missing byte is 0.
unfoldable pub word : ℕ → ℕ → ℕ → ℕ
word a b c = bit_or (bit_or (a * 2 ^ 16) (b * 2 ^ 8)) c

-- `ALPHABET[((n >> shift) & 63) as usize]`
unfoldable pub symbol : ℕ → ℕ → ℕ
symbol n shift = get alphabet ((n / 2 ^ shift) % 64)

-- One chunk of three bytes or fewer at a time: one symbol more than bytes.
unfoldable pub encode : Bytes → Bytes
encode [] = []
encode (a ∷ []) = let n = word a 0 0 in symbol n 18 ∷ symbol n 12 ∷ []
encode (a ∷ b ∷ []) = let n = word a b 0 in symbol n 18 ∷ symbol n 12 ∷ symbol n 6 ∷ []
encode (a ∷ b ∷ c ∷ rest) =
    let n = word a b c in symbol n 18 ∷ symbol n 12 ∷ symbol n 6 ∷ symbol n 0 ∷ encode rest

-- `n |= value(c)? << shift`
abbrev pub or_symbol : ℕ → ℕ → ℕ → ℕ
or_symbol n v shift = bit_or n (v * 2 ^ shift)

-- `(n >> shift) as u8`
abbrev pub byte : ℕ → ℕ → ℕ
byte n shift = (n / 2 ^ shift) % 256

-- One chunk of four symbols or fewer at a time: one byte fewer than symbols.
unfoldable pub decode_chunks : Bytes → Option Bytes
decode_chunks [] = some []
decode_chunks (w ∷ []) = do a ← value w; some []
decode_chunks (w ∷ x ∷ []) = do
  a ← value w
  b ← value x
  let n = or_symbol (or_symbol 0 a 18) b 12
  some (byte n 16 ∷ [])
decode_chunks (w ∷ x ∷ y ∷ []) = do
  a ← value w
  b ← value x
  c ← value y
  let n = or_symbol (or_symbol (or_symbol 0 a 18) b 12) c 6
  some (byte n 16 ∷ byte n 8 ∷ [])
decode_chunks (w ∷ x ∷ y ∷ z ∷ rest) = do
  a ← value w
  b ← value x
  c ← value y
  d ← value z
  let n = or_symbol (or_symbol (or_symbol (or_symbol 0 a 18) b 12) c 6) d 0
  out ← decode_chunks rest
  some (byte n 16 ∷ byte n 8 ∷ byte n 0 ∷ out)

unfoldable pub decode_any : Bytes → Option Bytes
unfolding decode_chunks
decode_any text = if length text % 4 == 1 then none else decode_chunks text

unfoldable pub decode : Bytes → Option Bytes
unfolding decode_any encode
decode text = do out ← decode_any text; if bytes_eq (encode out) text then some out else none
