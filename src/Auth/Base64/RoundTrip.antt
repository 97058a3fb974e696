-- ===== src/Auth/Base64/RoundTrip.antt =====
-- Encoding and decoding, and the one spelling of each value.
use aethel_runtime.Base.{
  ℕ, zero, suc, ◌+◌, ◌*◌, ◌/◌, ◌%◌, ◌^◌, ◌<◌, ◌≡◌, refl, sym, ap, ap₂, ◌∙◌, ◌↔◌, inl, inr, Bool,
  true, false, ◌&&◌, Option, none, some, [], ◌∷◌, arith, ◌==◌, if◌then◌else◌, ==_iff, Bool-cases,
  Option-cases, length,
}
use aethel_runtime.Base.Bytes.{Bytes, bytes_eq, bytes_eq_iff}
use aethel_runtime.Base.Bits.{bit_or_disjoint}
use aethel_runtime.Auth.Base64.{
  alphabet, get, index_of, value, word, symbol, encode, or_symbol, decode_chunks, decode_any,
  decode,
}

-- Every element is a byte.
abbrev pub AreBytes : Bytes → Type 0
AreBytes [] = Unit {0}
AreBytes (b ∷ bs) = (b < 256) × AreBytes bs

abbrev every_below : (ℕ → Bool) → ℕ → Bool
every_below p zero = true
every_below p (suc n) = p n && every_below p n

every_below-at : (p : ℕ → Bool) (n i : ℕ) → every_below p n ≡ true → i < n → p i ≡ true
every_below-at p zero i h lt = absurd (omega arith)
every_below-at p (suc n) i h lt = elim (Bool-cases (i == n)) [
  | inl e ↦ let same = (==_iff i n).0 e in rw same (ground arith)
  | inr e ↦ every_below-at p n i (ground arith) (ground arith)
]

abbrev is_at : Option ℕ → ℕ → Bool
is_at none i = false
is_at (some j) i = j == i

is_at-some : (o : Option ℕ) (i : ℕ) → is_at o i ≡ true → o ≡ some i
is_at-some none i h = absurd (ground arith)
is_at-some (some j) i h = ap some ((==_iff j i).0 h)

-- The 64 symbols are different.
value-get : (i : ℕ) → i < 64 → value (get alphabet i) ≡ some i
unfolding value
value-get i h =
    is_at-some (index_of alphabet (get alphabet i)) i
      (every_below-at (λ i. is_at (index_of alphabet (get alphabet i)) i) 64 i refl h)

parts : (a b : ℕ) → a * 65536 + b * 256 ≡ (a * 256 + b) * 256
parts a b = omega arith

word-sum : (a b c : ℕ) → a < 256 → b < 256 → c < 256 → word a b c ≡ a * 65536 + b * 256 + c
unfolding word
word-sum a b c ha hb hc =
    rw (bit_or_disjoint 16 a (b * 256) (omega arith), parts a b)
      (bit_or_disjoint 8 (a * 256 + b) c hc ∙ omega arith)

value-symbol : (n s : ℕ) → value (symbol n s) ≡ some ((n / 2 ^ s) % 64)
unfolding symbol
value-symbol n s = value-get ((n / 2 ^ s) % 64) (omega arith)

or_first : (v : ℕ) → v < 64 → or_symbol 0 v 18 ≡ v * 262144
or_first v h = bit_or_disjoint 24 0 (v * 262144) (omega arith) ∙ omega arith

or_second : (m v : ℕ) → v < 64 → or_symbol (m * 262144) v 12 ≡ (m * 64 + v) * 4096
or_second m v h = bit_or_disjoint 18 m (v * 4096) (omega arith) ∙ omega arith

or_third : (m v : ℕ) → v < 64 → or_symbol (m * 4096) v 6 ≡ (m * 64 + v) * 64
or_third m v h = bit_or_disjoint 12 m (v * 64) (omega arith) ∙ omega arith

or_fourth : (m v : ℕ) → v < 64 → or_symbol (m * 64) v 0 ≡ m * 64 + v
or_fourth m v h = bit_or_disjoint 6 m (v * 1) (omega arith) ∙ omega arith

joined_two : (a b : ℕ) → a < 64 → b < 64 → or_symbol (or_symbol 0 a 18) b 12 ≡ (a * 64 + b) * 4096
joined_two a b ha hb = rw (or_first a ha) (or_second a b hb)

joined_three :
    (a b c : ℕ)
    → a < 64
    → b < 64
    → c < 64
    → or_symbol (or_symbol (or_symbol 0 a 18) b 12) c 6 ≡ ((a * 64 + b) * 64 + c) * 64
joined_three a b c ha hb hc = rw (joined_two a b ha hb) (or_third (a * 64 + b) c hc)

joined_four :
    (a b c d : ℕ)
    → a < 64
    → b < 64
    → c < 64
    → d < 64
    → or_symbol (or_symbol (or_symbol (or_symbol 0 a 18) b 12) c 6) d 0
      ≡ ((a * 64 + b) * 64 + c) * 64 + d
joined_four a b c d ha hb hc hd =
    rw (joined_three a b c ha hb hc) (or_fourth ((a * 64 + b) * 64 + c) d hd)

-- The symbols of a number below 2 ^ 24, put together again: all four, and the first three or two where
-- the number's last 8 or 16 binary digits are 0.
abbrev six : ℕ → ℕ → ℕ
six n s = (n / 2 ^ s) % 64

back_four :
    (n : ℕ)
    → n < 16777216
    → or_symbol
        (or_symbol (or_symbol (or_symbol 0 (six n 18) 18) (six n 12) 12) (six n 6) 6)
        (six n 0)
        0
      ≡ n
back_four n h =
    joined_four (six n 18) (six n 12) (six n 6) (six n 0) (omega arith) (omega arith) (omega arith)
      (omega arith)
    ∙ omega arith

back_three :
    (m : ℕ)
    → m < 65536
    → or_symbol
        (or_symbol (or_symbol 0 (six (m * 256) 18) 18) (six (m * 256) 12) 12)
        (six (m * 256) 6)
        6
      ≡ m * 256
back_three m h =
    joined_three (six (m * 256) 18) (six (m * 256) 12) (six (m * 256) 6) (omega arith) (omega arith)
      (omega arith)
    ∙ omega arith

back_two :
    (m : ℕ)
    → m < 256
    → or_symbol (or_symbol 0 (six (m * 65536) 18) 18) (six (m * 65536) 12) 12 ≡ m * 65536
back_two m h =
    joined_two (six (m * 65536) 18) (six (m * 65536) 12) (omega arith) (omega arith) ∙ omega arith

top_byte : (a : ℕ) → a < 256 → ((a * 65536) / 2 ^ 16) % 256 ≡ a
top_byte a h = omega arith

decode_chunks-encode : (b : Bytes) → AreBytes b → decode_chunks (encode b) ≡ some b
unfolding decode_chunks encode
decode_chunks-encode [] h = refl
decode_chunks-encode (a ∷ []) h =
    let n : word a 0 0 ≡ a * 65536 = word-sum a 0 0 h.0 (omega arith) (omega arith) ∙ omega arith in
    rw (n, value-symbol (a * 65536) 18, value-symbol (a * 65536) 12, back_two a h.0)
      (ap (λ x. some (x ∷ [])) (top_byte a h.0))
decode_chunks-encode (a ∷ b ∷ []) h =
    let m = a * 256 + b in
    let n : word a b 0 ≡ m * 256 = word-sum a b 0 h.0 h.1.0 (omega arith) ∙ omega arith in
    rw
      (
        n,
        value-symbol (m * 256) 18,
        value-symbol (m * 256) 12,
        value-symbol (m * 256) 6,
        back_three m (omega (arith, h.0, h.1.0)),
      )
      (ap₂ (λ x y. some (x ∷ y ∷ [])) (omega (arith, h.0, h.1.0)) (omega (arith, h.0, h.1.0)))
decode_chunks-encode (a ∷ b ∷ c ∷ rest) h =
    let n = word a b c in
    let sum = word-sum a b c h.0 h.1.0 h.1.1.0 in
    let first : (n / 2 ^ 16) % 256 ≡ a = omega (arith, sum, h.0, h.1.0, h.1.1.0) in
    let second : (n / 2 ^ 8) % 256 ≡ b = omega (arith, sum, h.0, h.1.0, h.1.1.0) in
    let third : (n / 2 ^ 0) % 256 ≡ c = omega (arith, sum, h.0, h.1.0, h.1.1.0) in
    rw
      (
        value-symbol n 18,
        value-symbol n 12,
        value-symbol n 6,
        value-symbol n 0,
        back_four n (omega (arith, sum, h.0, h.1.0, h.1.1.0)),
        decode_chunks-encode rest h.1.1.1,
        first,
        second,
        third,
      )
      refl

length-encode : (b : Bytes) → (length (encode b) % 4 == 1) ≡ false
unfolding encode
length-encode [] = refl
length-encode (a ∷ []) = refl
length-encode (a ∷ b ∷ []) = refl
length-encode (a ∷ b ∷ c ∷ rest) = ground (arith, length-encode rest)

decode_any-encode : (b : Bytes) → AreBytes b → decode_any (encode b) ≡ some b
unfolding decode_any
decode_any-encode b h = rw (length-encode b) (decode_chunks-encode b h)

checked_spelling :
    (spelled text out b : Bytes)
    → (if bytes_eq spelled text then some out else none) ≡ some b
    → (spelled ≡ text) × (out ≡ b)
checked_spelling spelled text out b h = ground (arith, bytes_eq_iff spelled text)

none-some : (b : Bytes) → ¬ Path (Option Bytes) none (some b)
none-some b h = cc

-- Text decodes to some bytes exactly when it is the encoding of these bytes: what is encoded is read
-- back, and no other spelling of it is accepted. The elements are bytes.
pub decode_iff : (text b : Bytes) → AreBytes b → (decode text ≡ some b) ↔ (text ≡ encode b)
unfolding decode
decode_iff text b h = (
  λ e. elim (Option-cases (decode_any text)) [
    | inl n ↦ absurd (none-some b (rw (n, decode) at e))
    | inr (out, s) ↦
        let (spelled, same) = checked_spelling (encode out) text out b (rw (s, decode) at e) in
        sym spelled ∙ ap encode same
  ],
  λ e. rw (e, decode_any-encode b h, (bytes_eq_iff (encode b) (encode b)).1 refl) refl,
)
