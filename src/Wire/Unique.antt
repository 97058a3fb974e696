-- ===== src/Wire/Unique.antt =====
-- No two values share an encoding, whatever follows: each piece can be read back off the front.
use native.Mathlib.Nat.{pow-suc}
use aethel_runtime.Base.{
  ℕ, zero, suc, ◌/◌, ◌%◌, ◌^◌, ◌<◌, ◌≡◌, refl, List, [], ◌∷◌, ◌++◌, append_assoc, Option, none,
  some, arith, length, append-inj, sym, ◌∙◌, ap,
}
use aethel_runtime.Base.Bytes.{Bytes}
use aethel_runtime.Wire.{to_be_bytes, len_prefixed, all_len_prefixed, tagged, length-to_be_bytes}

to_be_bytes_inj :
    (w m n : ℕ) → m < 256 ^ w → n < 256 ^ w → to_be_bytes w m ≡ to_be_bytes w n → m ≡ n
unfolding to_be_bytes
to_be_bytes_inj zero m n hm hn e = omega arith
to_be_bytes_inj (suc w) m n hm hn e =
    let parts =
      append-inj (to_be_bytes w (m / 256)) (m % 256 ∷ []) (to_be_bytes w (n / 256)) (n % 256 ∷ [])
        (length-to_be_bytes w (m / 256) ∙ sym (length-to_be_bytes w (n / 256))) e in
    let low : m % 256 ≡ n % 256 = cc (parts.1) in
    let high =
      to_be_bytes_inj w (m / 256) (n / 256) (omega (arith, pow-suc 256 w))
        (omega (arith, pow-suc 256 w)) parts.0 in
    omega arith

pub to_be_bytes_unique :
    (w m n : ℕ) (x y : Bytes)
    → m < 256 ^ w
    → n < 256 ^ w
    → to_be_bytes w m ++ x ≡ to_be_bytes w n ++ y
    → (m ≡ n) × (x ≡ y)
to_be_bytes_unique w m n x y hm hn e =
    let parts =
      append-inj (to_be_bytes w m) x (to_be_bytes w n) y
        (length-to_be_bytes w m ∙ sym (length-to_be_bytes w n)) e in
    (to_be_bytes_inj w m n hm hn parts.0, parts.1)

pub len_prefixed_unique :
    (a b x y : Bytes)
    → length a < 2 ^ 32
    → length b < 2 ^ 32
    → len_prefixed a ++ x ≡ len_prefixed b ++ y
    → (a ≡ b) × (x ≡ y)
unfolding len_prefixed
len_prefixed_unique a b x y ha hb e =
    let e' =
      sym (append_assoc (to_be_bytes 4 (length a % 2 ^ 32)) a x)
      ∙ e
      ∙ append_assoc (to_be_bytes 4 (length b % 2 ^ 32)) b y in
    let parts =
      to_be_bytes_unique 4 (length a % 2 ^ 32) (length b % 2 ^ 32) (a ++ x) (b ++ y) (omega arith)
        (omega arith) e' in
    append-inj a x b y (omega (arith, parts.0)) parts.1

abbrev pub AllShort : List Bytes → Type 0
AllShort [] = Unit {0}
AllShort (x ∷ xs) = (length x < 2 ^ 32) × AllShort xs

pub all_len_prefixed_unique :
    (xs ys : List Bytes) (u v : Bytes)
    → length xs ≡ length ys
    → AllShort xs
    → AllShort ys
    → all_len_prefixed xs ++ u ≡ all_len_prefixed ys ++ v
    → (xs ≡ ys) × (u ≡ v)
unfolding all_len_prefixed
all_len_prefixed_unique [] [] u v h sx sy e = (refl, e)
all_len_prefixed_unique [] (y ∷ ys) u v h sx sy e = absurd (omega arith)
all_len_prefixed_unique (x ∷ xs) [] u v h sx sy e = absurd (omega arith)
all_len_prefixed_unique (x ∷ xs) (y ∷ ys) u v h sx sy e =
    let e' =
      sym (append_assoc (len_prefixed x) (all_len_prefixed xs) u)
      ∙ e
      ∙ append_assoc (len_prefixed y) (all_len_prefixed ys) v in
    let first = len_prefixed_unique x y _ _ sx.0 sy.0 e' in
    let rest = all_len_prefixed_unique xs ys u v (omega arith) sx.1 sy.1 first.1 in
    (cc (first.0, rest.0), rest.1)

abbrev pub OptionBelow : ℕ → Option ℕ → Type 0
OptionBelow bound none = Unit {0}
OptionBelow bound (some v) = v < bound

pub tagged_unique :
    (w : ℕ) (a b : Option ℕ) (x y : Bytes)
    → OptionBelow (256 ^ w) a
    → OptionBelow (256 ^ w) b
    → tagged w a ++ x ≡ tagged w b ++ y
    → (a ≡ b) × (x ≡ y)
unfolding tagged
tagged_unique w none none x y ha hb e = (refl, cc)
tagged_unique w none (some b) x y ha hb e = ground arith
tagged_unique w (some a) none x y ha hb e = ground arith
tagged_unique w (some a) (some b) x y ha hb e =
    let r = to_be_bytes_unique w a b x y ha hb (cc) in (ap some r.0, r.1)
