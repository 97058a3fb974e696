-- ===== src/Auth/Examples/Texts.antt =====
-- The theorem about base64url at a concrete input, and some texts that are refused.
use aethel_runtime.Base.{◌≡◌, refl, none, some, arith, ℕ, zero, suc, false, ok, inl}
use aethel_runtime.Base.Bytes.{bytes_eq, codes, replicate}
use aethel_runtime.Auth.Base64.Serde.{text, deserialize_array32, serialize_array32}
use aethel_runtime.Auth.Base64.Serde.Canonical.{array32_iff}
use aethel_runtime.Auth.Base64.{encode, decode, decode_any, decode_chunks, value, word, symbol}
use aethel_runtime.Auth.Base64.RoundTrip.{AreBytes, decode_iff}

decode_iff_example : decode (codes "YWJjZA") ≡ some (codes "abcd")
unfolding encode word symbol
decode_iff_example =
    (decode_iff (codes "YWJjZA") (codes "abcd")
        (omega arith, (omega arith, (omega arith, (omega arith, tt))))).1
      refl

-- Padding, a second spelling of one byte, and a lone symbol.
padded_refused : decode (codes "YWJjZA==") ≡ none
unfolding decode decode_any decode_chunks value
padded_refused = refl

respelled_refused : decode (codes "YWJjZB") ≡ none
unfolding decode decode_any decode_chunks value encode word symbol bytes_eq
respelled_refused = refl

lone_refused : decode (codes "YWJjZ") ≡ none
unfolding decode decode_any
lone_refused = refl

replicate-AreBytes : (n : ℕ) → AreBytes (replicate n 7)
replicate-AreBytes zero = tt
replicate-AreBytes (suc n) = (omega arith, replicate-AreBytes n)

array32_iff_example :
    deserialize_array32 false (text (codes "BwcHBwcHBwcHBwcHBwcHBwcHBwcHBwcHBwcHBwcHBwc"))
    ≡ ok (replicate 32 7)
unfolding encode word symbol serialize_array32
array32_iff_example =
    (array32_iff (text (codes "BwcHBwcHBwcHBwcHBwcHBwcHBwcHBwcHBwcHBwcHBwc")) (replicate 32 7)
        (replicate-AreBytes 32)).1
      (refl, inl refl)
