-- ===== src/Cli/Action/Keeps.antt =====
-- What a step leaves alone, one rule for each way to build a step.
use aethel_runtime.Base.{
  ℕ, ◌≡◌, refl, ◌∙◌, Bool, true, false, Option, none, some, List, if◌then◌else◌, Result,
}
use aethel_runtime.Cli.Host.{CliError}
use aethel_runtime.Cli.Action.{
  World, Exit, returned, failed, panicked, Action, pure, raise, lift, or_panic, continue, ◌>>=◌,
  refuse_if, println, eprintln, now,
}

-- `m` leaves the part `f` of the surroundings as it is, however it ends.
pub record Fixes {S A X : Type 0} (f : World S → X) (m : Action S A) : Type 0 where
  pub at : (w : World S) → f (m w).1 ≡ f w

-- A step that does not return a value.
abbrev pub Stops : {A : Type 0} → Exit A → Type 0
Stops (returned a) = ⊥
Stops (failed e) = Unit
Stops panicked = Unit

-- `m` leaves the part `f` as it is unless it returns a value.
pub record FixesUnlessDone {S A X : Type 0} (f : World S → X) (m : Action S A) : Type 0 where
  pub at : (w : World S) → Stops (m w).0 → f (m w).1 ≡ f w

module _ {S A X : Type 0} {f : World S → X} where
  pub Fixes-pure : (a : A) → Fixes f (pure a)
  unfolding pure
  Fixes-pure a = record { at = λ w. refl }

  pub Fixes-raise : (e : CliError) → Fixes f (raise {A = A} e)
  unfolding raise
  Fixes-raise e = record { at = λ w. refl }

  pub Fixes-lift : (r : Result CliError A) → Fixes f (lift r)
  unfolding lift
  Fixes-lift r = record { at = λ w. refl }

  pub Fixes-or_panic : (o : Option A) → Fixes f (or_panic o)
  unfolding or_panic
  Fixes-or_panic none = record { at = λ w. refl }
  Fixes-or_panic (some a) = record { at = λ w. refl }

  pub Fixes-if :
      (b : Bool) (m n : Action S A) → Fixes f m → Fixes f n → Fixes f (if b then m else n)
  Fixes-if true m n h k = h
  Fixes-if false m n h k = k

  pub Fixes-done : (m : Action S A) → Fixes f m → FixesUnlessDone f m
  Fixes-done m h = record { at = λ w s. h.at w }

module _ {S A B X : Type 0} {f : World S → X} where
  Fixes-continue :
      (r : Exit A) (k : A → Action S B) (w : World S)
      → ((a : A) → Fixes f (k a))
      → f (continue r k w).1 ≡ f w
  unfolding continue
  Fixes-continue (returned a) k w h = (h a).at w
  Fixes-continue (failed e) k w h = refl
  Fixes-continue panicked k w h = refl

  pub Fixes-bind :
      (m : Action S A) (k : A → Action S B)
      → Fixes f m
      → ((a : A) → Fixes f (k a))
      → Fixes f (m >>= k)
  unfolding ◌>>=◌
  Fixes-bind m k hm hk = record { at = λ w. let (r, v) = m w in Fixes-continue r k v hk ∙ hm.at w }

  FixesUnlessDone-continue :
      (r : Exit A) (k : A → Action S B) (w : World S)
      → ((a : A) → FixesUnlessDone f (k a))
      → Stops (continue r k w).0
      → f (continue r k w).1 ≡ f w
  unfolding continue
  FixesUnlessDone-continue (returned a) k w h s = (h a).at w s
  FixesUnlessDone-continue (failed e) k w h s = refl
  FixesUnlessDone-continue panicked k w h s = refl

  pub FixesUnlessDone-bind :
      (m : Action S A) (k : A → Action S B)
      → Fixes f m
      → ((a : A) → FixesUnlessDone f (k a))
      → FixesUnlessDone f (m >>= k)
  unfolding ◌>>=◌
  FixesUnlessDone-bind m k hm hk = record {
    at = λ w s. let (r, v) = m w in FixesUnlessDone-continue r k v hk s ∙ hm.at w;
  }

module _ {S : Type 0} where
  pub Fixes-refuse_if :
      {X : Type 0} {f : World S → X} (b : Bool) (e : CliError) → Fixes f (refuse_if b e)
  unfolding refuse_if
  Fixes-refuse_if true e = record { at = λ w. refl }
  Fixes-refuse_if false e = record { at = λ w. refl }

  pub Fixes-now : {X : Type 0} {f : World S → X} → Fixes f now
  unfolding now
  Fixes-now = record { at = λ w. refl }

  pub eprintln-stdout : (line : List ℕ) → Fixes World.stdout (eprintln {S = S} line)
  unfolding eprintln
  eprintln-stdout line = record { at = λ w. refl }

  pub eprintln-fs : (line : List ℕ) → Fixes World.fs (eprintln {S = S} line)
  unfolding eprintln
  eprintln-fs line = record { at = λ w. refl }

  pub println-fs : (line : List ℕ) → Fixes World.fs (println {S = S} line)
  unfolding println
  println-fs line = record { at = λ w. refl }

  pub println-done : (line : List ℕ) → FixesUnlessDone World.stdout (println {S = S} line)
  unfolding println
  println-done line = record { at = λ w s. absurd s }

pub ruleset fixes_rules = (
  Fixes-pure, Fixes-raise, Fixes-lift, Fixes-or_panic, Fixes-if, Fixes-bind, Fixes-refuse_if,
  Fixes-now,
)
