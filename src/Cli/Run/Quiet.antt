-- ===== src/Cli/Run/Quiet.antt =====
-- crates/aethel-auth-cli/src: the parts of the surroundings that the steps of a command leave alone.
use aethel_runtime.Base.{ℕ, suc, ◌≡◌, refl, List, [], ◌∷◌, ◌++◌, Result, ok}
use aethel_runtime.Base.Bytes.{Bytes}
use aethel_runtime.Cli.Host.{Host}
use aethel_runtime.Cli.Action.{World, eprintln}
use aethel_runtime.Cli.Action.Keeps.{Fixes, fixes_rules, Fixes-bind}
use aethel_runtime.Cli.Passphrase.{
  read_bytes, read_stdin, read_to_string, fill_bytes, read_passphrase,
}
use aethel_runtime.Cli.IdentityFile.Disk.{create, from_entropy, read_identity}
use aethel_runtime.Cli.Recovery.Disk.{split, read_share}
use aethel_runtime.Cli.Run.{open_identity, announce_actions}
use aethel_runtime.Cli.Run.Command.{read_shares}

-- A part of the surroundings that reading the input, drawing and `eprintln!` do not reach.
abbrev pub Blind : {S X : Type 0} → (World S → X) → Type 0
Blind {S} f =
    (w : World S) (stdin : Result Bytes Bytes) (stderr : List Bytes) (drawn : ℕ)
    → f (record w { stdin = stdin; stderr = stderr; drawn = drawn }) ≡ f w

module _ {E I S X : Type 0} (host : Host E I S) (f : World S → X) (blind : Blind f) where
  pub eprintln-Fixes : (line : Bytes) → Fixes f (eprintln line)
  unfolding eprintln
  eprintln-Fixes line = record { at = λ w. blind w w.stdin (w.stderr ++ (line ∷ [])) w.drawn }

  read_stdin-Fixes : Fixes f (read_stdin host)
  unfolding read_stdin
  read_stdin-Fixes = record { at = λ w. blind w (ok []) w.stderr w.drawn }

  pub fill_bytes-Fixes : (n : ℕ) → Fixes f (fill_bytes host n)
  unfolding fill_bytes
  fill_bytes-Fixes n = record { at = λ w. blind w w.stdin w.stderr (suc w.drawn) }

  read_bytes-Fixes : (p : Bytes) → Fixes f (read_bytes host p)
  unfolding read_bytes
  read_bytes-Fixes p = record { at = λ w. refl }

  ruleset quiet_rules =
      (fixes_rules, eprintln-Fixes, read_stdin-Fixes, fill_bytes-Fixes, read_bytes-Fixes)

  pub read_passphrase-Fixes : (p : Bytes) → Fixes f (read_passphrase host p)
  unfolding read_passphrase
  read_passphrase-Fixes p = search quiet_rules

  pub read_to_string-Fixes : (p : Bytes) → Fixes f (read_to_string host p)
  unfolding read_to_string
  read_to_string-Fixes p = search quiet_rules

  pub read_identity-Fixes : (p : Bytes) → Fixes f (read_identity host p)
  unfolding read_identity
  read_identity-Fixes p = search (fixes_rules, read_to_string-Fixes)

  pub open_identity-Fixes : (p q : Bytes) → Fixes f (open_identity host p q)
  unfolding open_identity
  open_identity-Fixes p q =
      search (fixes_rules, read_identity-Fixes, read_passphrase-Fixes, eprintln-Fixes)

  pub read_share-Fixes : (p : Bytes) → Fixes f (read_share host p)
  unfolding read_share
  read_share-Fixes p = search (fixes_rules, read_to_string-Fixes)

  pub read_shares-Fixes : (paths : List Bytes) → Fixes f (read_shares host paths)
  unfolding read_shares
  read_shares-Fixes [] = search fixes_rules
  read_shares-Fixes (p ∷ paths) = search (fixes_rules, read_share-Fixes p, read_shares-Fixes paths)

  pub create-Fixes : (audience passphrase : Bytes) → Fixes f (create host audience passphrase)
  unfolding create
  create-Fixes audience passphrase = search (fixes_rules, fill_bytes-Fixes)

  pub from_entropy-Fixes :
      (audience entropy passphrase : Bytes)
      → Fixes f (from_entropy host audience entropy passphrase)
  unfolding from_entropy
  from_entropy-Fixes audience entropy passphrase = search (fixes_rules, fill_bytes-Fixes)

  pub split-Fixes : (entropy audience : Bytes) → Fixes f (split host entropy audience)
  unfolding split
  split-Fixes entropy audience = search (fixes_rules, fill_bytes-Fixes)

  pub announce_actions-Fixes : (actions : List Bytes) → Fixes f (announce_actions host actions)
  unfolding announce_actions
  announce_actions-Fixes [] = search fixes_rules
  announce_actions-Fixes (a ∷ actions) =
      Fixes-bind _ _ (eprintln-Fixes _) (λ _. announce_actions-Fixes actions)
