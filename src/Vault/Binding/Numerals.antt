-- ===== src/Vault/Binding/Numerals.antt =====
-- The decimal text of a `u64` reads back as the number: twenty digits are enough.
use aethel_runtime.Base.{
  ℕ, zero, suc, ◌+◌, ◌-◌, ◌*◌, ◌/◌, ◌%◌, ◌^◌, ◌<◌, ◌≡◌, ◌∙◌, inl, inr, [], ◌∷◌, ◌++◌, arith, ltb,
  Bool-cases,
}
use aethel_runtime.Base.Bytes.{Bytes}
use native.Mathlib.Nat.{pow-suc}
use aethel_runtime.Vault.Binding.{decimal, display_u64}

-- The number that decimal digits denote, after digits that denote `acc`.
abbrev pub read_from : ℕ → Bytes → ℕ
read_from acc [] = acc
read_from acc (d ∷ ds) = read_from (acc * 10 + (d - 48)) ds

read_from-snoc :
    (acc : ℕ) (ds : Bytes) (e : ℕ)
    → read_from acc (ds ++ ((48 + e) ∷ [])) ≡ read_from acc ds * 10 + e
read_from-snoc acc [] e = omega arith
read_from-snoc acc (d ∷ ds) e = read_from-snoc (acc * 10 + (d - 48)) ds e

read_from-decimal : (digits n : ℕ) → n < 10 ^ digits → read_from 0 (decimal digits n) ≡ n
read_from-decimal zero n h = omega arith
read_from-decimal (suc digits) n h =
    let ih = read_from-decimal digits (n / 10) (omega (arith, pow-suc 10 digits)) in
    elim (Bool-cases (ltb n 10)) [
      | inl e ↦ rw e (omega arith)
      | inr e ↦ rw e (read_from-snoc 0 (decimal digits (n / 10)) (n % 10) ∙ omega (arith, ih))
    ]

pub read_from-display_u64 : (n : ℕ) → n < 2 ^ 64 → read_from 0 (display_u64 n) ≡ n
unfolding display_u64
read_from-display_u64 n h = read_from-decimal 20 n (omega arith)
