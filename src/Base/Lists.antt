-- ===== src/Base/Lists.antt =====
-- Lists measured by native numbers, and the two facts about appending that framing rests on.
use Prim.Native.Nat.{ℕ, suc, ◌+◌}
use mathlib.Core.Path.{◌≡◌, refl}
use mathlib.Core.Bool.{Bool, true, false}
use mathlib.Core.List.{List, [], ◌∷◌, ◌++◌}
use mathlib.Core.Option.{Option, none, some}
use native.Mathlib.Omega.{arith}

module _ {ℓ} {A : Type ℓ} where
  abbrev pub length : List A → ℕ
  length [] = 0
  length (x ∷ xs) = suc (length xs)

  abbrev pub is_empty : List A → Bool
  is_empty [] = true
  is_empty (x ∷ xs) = false

  abbrev pub head? : List A → Option A
  head? [] = none
  head? (x ∷ xs) = some x

  abbrev pub tail : List A → List A
  tail [] = []
  tail (x ∷ xs) = xs

  pub length-append : (xs ys : List A) → length (xs ++ ys) ≡ length xs + length ys
  length-append [] ys = omega arith
  length-append (x ∷ xs) ys = omega (arith, length-append xs ys)

  -- Two appended lists with first parts of one length agree part by part.
  pub append-inj :
      (xs ys us vs : List A) → length xs ≡ length us → xs ++ ys ≡ us ++ vs → (xs ≡ us) × (ys ≡ vs)
  append-inj [] ys [] vs h e = (refl, e)
  append-inj [] ys (u ∷ us) vs h e = absurd (omega arith)
  append-inj (x ∷ xs) ys [] vs h e = absurd (omega arith)
  append-inj (x ∷ xs) ys (u ∷ us) vs h e =
      let r = append-inj xs ys us vs (omega arith) (cc) in (cc (r.0), r.1)
