-- ===== src/Cli/Action/Steps.antt =====
-- Partial correctness of steps: what holds where a step has returned a value.
use aethel_runtime.Base.{
  ◌≡◌, refl, sym, subst, ap, ◌∙◌, Bool, true, false, Option, none, some, Result, ok, err, ok_or,
  if◌then◌else◌,
}
use aethel_runtime.Cli.Host.{CliError}
use aethel_runtime.Cli.Action.{
  World, Exit, returned, failed, panicked, Action, pure, raise, lift, or_panic, continue, ◌>>=◌,
  refuse_if,
}
use aethel_runtime.Cli.Action.Keeps.{Fixes}

pub ok_or-ok : {A E : Type 0} (o : Option A) (e : E) (a : A) → ok_or o e ≡ ok a → o ≡ some a
ok_or-ok none e a h = absurd (cc)
ok_or-ok (some b) e a h = cc

-- Started where `P` holds, `m` ends where `Q` holds of the value that it returned.
pub record Hoare {S A : Type 0} (P : World S → Type 0) (m : Action S A) (Q : A → World S → Type 0)
    : Type 0 where
  pub at : (w v : World S) (a : A) → P w → m w ≡ (returned a, v) → Q a v

module _ {S A : Type 0} {P : World S → Type 0} where
  pub Hoare-pure :
      {Q : A → World S → Type 0} (a : A) → ((w : World S) → P w → Q a w) → Hoare P (pure a) Q
  unfolding pure
  Hoare-pure {Q} a h = record {
    at = λ w v b p e.
        let same : a ≡ b = cc in
        let there : w ≡ v = cc in
        subst (λ (b' : A). Q b' v) same (subst (λ (v' : World S). Q a v') there (h w p));
  }

  pub Hoare-any : (m : Action S A) → Hoare P m (λ a v. Unit {0})
  Hoare-any m = record { at = λ w v a p e. tt }

  pub Hoare-raise : {Q : A → World S → Type 0} (e : CliError) → Hoare P (raise e) Q
  unfolding raise
  Hoare-raise e = record { at = λ w v b p h. absurd (cc) }

  pub Hoare-lift : (r : Result CliError A) → Hoare P (lift r) (λ a v. (r ≡ ok a) × P v)
  unfolding lift
  Hoare-lift (ok a) = record { at = λ w v b p e. (cc, subst P (cc) p) }
  Hoare-lift (err e) = record { at = λ w v b p h. absurd (cc) }

  pub Hoare-or_panic : (o : Option A) → Hoare P (or_panic o) (λ a v. (o ≡ some a) × P v)
  unfolding or_panic
  Hoare-or_panic (some a) = record { at = λ w v b p e. (cc, subst P (cc) p) }
  Hoare-or_panic none = record { at = λ w v b p h. absurd (cc) }

  pub Hoare-if :
      {Q : A → World S → Type 0} (b : Bool) (m n : Action S A)
      → (b ≡ true → Hoare P m Q)
      → (b ≡ false → Hoare P n Q)
      → Hoare P (if b then m else n) Q
  Hoare-if true m n h k = h refl
  Hoare-if false m n h k = k refl

-- The test that a refusal made did not hold where the step returned.
pub Hoare-refuse_if :
    {S : Type 0} {P : World S → Type 0} (b : Bool) (e : CliError)
    → Hoare P (refuse_if b e) (λ a v. (b ≡ false) × P v)
unfolding refuse_if
Hoare-refuse_if {P} false e = record { at = λ w v a p h. (refl, subst P (cc) p) }
Hoare-refuse_if {P} true e = record { at = λ w v a p h. absurd (cc) }

module _ {S A B : Type 0} {Q : A → World S → Type 0} {R : B → World S → Type 0} where
  continue-Hoare :
      (r : Exit A) (k : A → Action S B) (w v : World S) (b : B)
      → ((a : A) → r ≡ returned a → Q a w)
      → ((a : A) → Hoare (Q a) (k a) R)
      → continue r k w ≡ (returned b, v)
      → R b v
  unfolding continue
  continue-Hoare (returned a) k w v b q h e = (h a).at w v b (q a refl) e
  continue-Hoare (failed x) k w v b q h e = absurd (cc)
  continue-Hoare panicked k w v b q h e = absurd (cc)

  pub Hoare-bind :
      {P : World S → Type 0} (m : Action S A) (k : A → Action S B)
      → Hoare P m Q
      → ((a : A) → Hoare (Q a) (k a) R)
      → Hoare P (m >>= k) R
  unfolding ◌>>=◌
  Hoare-bind m k hm hk = record {
    at = λ w v b p e.
        let (r, u) = m w in continue-Hoare r k u v b (λ a s. hm.at w u a p (rw (← s) refl)) hk e;
  }

module _ {S A : Type 0} {K : Type 0} where
  -- What does not depend on the surroundings holds after any step.
  pub Hoare-keep : (m : Action S A) → Hoare (λ w. K) m (λ a v. K)
  Hoare-keep m = record { at = λ w v a p e. p }

module _ {S A X : Type 0} {f : World S → X} where
  -- What a step leaves alone, it leaves alone.
  pub Hoare-Fixes : (m : Action S A) (x : X) → Fixes f m → Hoare (λ w. f w ≡ x) m (λ a v. f v ≡ x)
  Hoare-Fixes m x h = record {
    at = λ w v a p e. ap f (ap (λ (o : Exit A × World S). o.1) (sym e)) ∙ (h.at w ∙ p);
  }

module _ {S A : Type 0} {P P' : World S → Type 0} {Q Q' : A → World S → Type 0} where
  pub Hoare-both :
      (m : Action S A)
      → Hoare P m Q
      → Hoare P' m Q'
      → Hoare (λ w. P w × P' w) m (λ a v. Q a v × Q' a v)
  Hoare-both m h h' = record { at = λ w v a p e. (h.at w v a p.0 e, h'.at w v a p.1 e) }

  pub Hoare-change :
      (m : Action S A)
      → ((w : World S) → P' w → P w)
      → ((a : A) (v : World S) → Q a v → Q' a v)
      → Hoare P m Q
      → Hoare P' m Q'
  Hoare-change m f g h = record { at = λ w v a p e. g a v (h.at w v a (f w p) e) }

module _ {S A : Type 0} {K : Type 0} {P : World S → Type 0} {Q : A → World S → Type 0} where
  -- What does not depend on the surroundings is carried along.
  pub Hoare-under : (m : Action S A) → Hoare P m Q → Hoare (λ w. P w × K) m (λ a v. Q a v × K)
  Hoare-under m h = Hoare-both m h (Hoare-keep m)

module _ {S A : Type 0} {K : Type 0} {Q : A → World S → Type 0} where
  -- A fact that holds before a step may be used for it, and holds after it.
  pub Hoare-from :
      (m : Action S A) → (K → Hoare (λ w. Unit {0}) m Q) → Hoare (λ w. K) m (λ a v. Q a v × K)
  Hoare-from m h = record { at = λ w v a p e. ((h p).at w v a tt e, p) }
