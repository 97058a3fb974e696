-- ===== src/Vault/Helix/Centred.antt =====
-- src/storage/helixdb.rs, `from_mlwe_coeffs`: the centred reduction stays within half the modulus.
use aethel_runtime.Base.{
  ℕ, suc, ◌+◌, ◌-◌, ◌/◌, ◌^◌, ◌≤◌, ◌<◌, ◌≡◌, refl, ◌⊎◌, inl, inr, arith, ltb, Bool-cases,
}
use aethel_runtime.Vault.Helix.{ℤ, pos, negsuc, centred}

-- The distance from zero.
abbrev pub magnitude : ℤ → ℕ
magnitude (pos n) = n
magnitude (negsuc n) = suc n

-- A coefficient below the modulus is centred to a number of the same class, at most half the modulus
-- away from zero, so that the quotient that is stored lies between -1 and 1. The modulus is positive
-- and fits an `i32`.
pub centred-Bounded :
    (c q : ℕ)
    → c < q
    → q < 2 ^ 31
    → (magnitude (centred (pos c) (pos q)) ≤ q / 2)
      × ((centred (pos c) (pos q) ≡ pos c)
          ⊎ ((d : ℕ) × (centred (pos c) (pos q) ≡ negsuc d) × (c + suc d ≡ q)))
unfolding centred
centred-Bounded c q h k = elim (Bool-cases (ltb (q / 2) c)) [
  | inr e ↦ (rw e (ground (arith, e)), inl (rw e refl))
  | inl e ↦
      let is : centred (pos c) (pos q) ≡ negsuc (q - c - 1) = ground (arith, e, h, k) in
      (rw is (ground (arith, e, h)), inr (q - c - 1, is, omega (arith, h)))
]
