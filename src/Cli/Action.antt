-- ===== src/Cli/Action.antt =====
-- A step of the terminal signer: a function from the process's surroundings to how it ends and the
-- surroundings, with `?` as its bind; and what it leaves alone.
pub mod Keeps
pub mod Steps
use aethel_runtime.Base.{
  ℕ, Bool, true, false, List, [], ◌∷◌, ◌++◌, Result, ok, err, Option, none, some,
}
use aethel_runtime.Base.Bytes.{Bytes}
use aethel_runtime.Cli.Host.{CliError}

-- `S` is what the file system keeps. `drawn` counts the draws from `OsRng`, and `clock` is the time
-- in seconds, which a command reads once.
pub record World (S : Type 0) : Type 0 where
  pub fs : S
  pub stdin : Result Bytes Bytes
  pub stdout : List Bytes
  pub stderr : List Bytes
  pub drawn : ℕ
  pub clock : ℕ

-- How a step ends: with a value, with an error, or with a panic.
pub data Exit (A : Type 0) : Type 0 where
  returned : A → Exit A
  failed : CliError → Exit A
  panicked : Exit A

abbrev pub exit : {A : Type 0} → Result CliError A → Exit A
exit (ok a) = returned a
exit (err e) = failed e

abbrev pub Action : Type 0 → Type 0 → Type 0
Action S A = World S → Exit A × World S

module _ {S A : Type 0} where
  unfoldable pub pure : A → Action S A
  pure a w = (returned a, w)

  unfoldable pub raise : CliError → Action S A
  raise e w = (failed e, w)

  -- a result that no surroundings decide
  unfoldable pub lift : Result CliError A → Action S A
  lift r w = (exit r, w)

  -- a value whose `none` is a panic
  unfoldable pub or_panic : Option A → Action S A
  or_panic none w = (panicked, w)
  or_panic (some a) w = (returned a, w)

module _ {S A B : Type 0} where
  unfoldable pub continue : Exit A → (A → Action S B) → Action S B
  continue (returned a) f w = f a w
  continue (failed e) f w = (failed e, w)
  continue panicked f w = (panicked, w)

  infixl 10 ◌>>=◌ ◌>>◌
  unfoldable pub ◌>>=◌ : Action S A → (A → Action S B) → Action S B
  unfolding continue
  ◌>>=◌ m f w = let (r, v) = m w in continue r f v

  abbrev pub ◌>>◌ : Action S A → Action S B → Action S B
  m >> k = m >>= λ _. k

module _ {S : Type 0} where
  unfoldable pub refuse_if : Bool → CliError → Action S (Unit {0})
  refuse_if true e w = (failed e, w)
  refuse_if false e w = (returned tt, w)

  -- `println!`, and `emit`'s
  unfoldable pub println : Bytes → Action S (Unit {0})
  println line w = (returned tt, record w { stdout = w.stdout ++ (line ∷ []) })

  unfoldable pub eprintln : Bytes → Action S (Unit {0})
  eprintln line w = (returned tt, record w { stderr = w.stderr ++ (line ∷ []) })

  unfoldable pub now : Action S ℕ
  now w = (returned w.clock, w)
