-- ===== src/Cli/Run/Files.antt =====
-- crates/aethel-auth-cli/src/main.rs: the commands that leave every file alone.
use aethel_runtime.Base.{ℕ, ◌≡◌, refl, Option, none, some, List, Result}
use aethel_runtime.Base.Bytes.{Bytes}
use aethel_runtime.Cli.Host.{
  Host, Statement, IdentityFile, Command, new, show, login, step_up, delegate, revoke, succeed,
  recover,
}
use aethel_runtime.Auth.Delegation.{Bounds}
use aethel_runtime.Cli.Action.{World}
use aethel_runtime.Cli.Action.Keeps.{Fixes, println-fs, fixes_rules, eprintln-fs}
use aethel_runtime.Cli.Passphrase.{fill_bytes}
use aethel_runtime.Cli.IdentityFile.Disk.{read_identity}
use aethel_runtime.Cli.Run.{
  open_identity, announce_actions, emit, run_login, run_step_up, run_delegate, revoke_subject,
  run_revoke, run_succeed,
}
use aethel_runtime.Cli.Run.Command.{run_show, run}
use aethel_runtime.Cli.Run.Quiet.{
  read_identity-Fixes, fill_bytes-Fixes, open_identity-Fixes, announce_actions-Fixes,
}

-- Commands that make no identity and rebuild none.
abbrev pub Signs : Command → Type 0
Signs (new audience out passphrase_file dir skip) = ⊥
Signs (recover shares root audience out passphrase_file) = ⊥
Signs c = Unit

module _ {E I S : Type 0} (host : Host E I S) where
  fs_blind :
      (w : World S) (stdin : Result Bytes Bytes) (stderr : List Bytes) (drawn : ℕ)
      → (record w { stdin = stdin; stderr = stderr; drawn = drawn }).fs ≡ w.fs
  fs_blind w stdin stderr drawn = refl

  open_identity-fs : (p q : Bytes) → Fixes World.fs (open_identity host p q)
  open_identity-fs = open_identity-Fixes host World.fs fs_blind

  read_identity-fs : (p : Bytes) → Fixes World.fs (read_identity host p)
  read_identity-fs = read_identity-Fixes host World.fs fs_blind

  fill_bytes-fs : (n : ℕ) → Fixes World.fs (fill_bytes host n)
  fill_bytes-fs = fill_bytes-Fixes host World.fs fs_blind

  announce_actions-fs : (actions : List Bytes) → Fixes World.fs (announce_actions host actions)
  announce_actions-fs = announce_actions-Fixes host World.fs fs_blind

  emit-fs : (v : Statement) → Fixes World.fs (emit host v)
  unfolding emit
  emit-fs v = search (fixes_rules, println-fs)

  ruleset fs_rules = (
    fixes_rules, open_identity-fs, read_identity-fs, fill_bytes-fs, eprintln-fs, println-fs,
    announce_actions-fs, emit-fs,
  )

  run_show-fs : (identity : Bytes) → Fixes World.fs (run_show host identity)
  unfolding run_show
  run_show-fs identity = search fs_rules depth 40 fits 4000

  run_login-fs :
      (identity passphrase_file : Bytes) (valid_for : ℕ)
      → Fixes World.fs (run_login host identity passphrase_file valid_for)
  unfolding run_login
  run_login-fs identity passphrase_file valid_for = search fs_rules depth 40 fits 4000

  run_step_up-fs :
      (identity passphrase_file action_digest action_says : Bytes) (valid_for : ℕ)
      → Fixes World.fs
          (run_step_up host identity passphrase_file action_digest action_says valid_for)
  unfolding run_step_up
  run_step_up-fs identity passphrase_file action_digest action_says valid_for =
      search fs_rules depth 40 fits 4000

  run_delegate-fs :
      (identity passphrase_file to : Bytes) (bounds : Bounds) (valid_for : ℕ)
      → Fixes World.fs (run_delegate host identity passphrase_file to bounds valid_for)
  unfolding run_delegate
  run_delegate-fs identity passphrase_file to bounds valid_for = search fs_rules depth 40 fits 4000

  revoke_subject-fs :
      (subject : Option Bytes) (file : IdentityFile) (id : I)
      → Fixes World.fs (revoke_subject host subject file id)
  unfolding revoke_subject
  revoke_subject-fs none file id = search fs_rules depth 40 fits 4000
  revoke_subject-fs (some hex_key) file id = search fs_rules depth 40 fits 4000

  run_revoke-fs :
      (identity passphrase_file : Bytes) (subject : Option Bytes)
      → Fixes World.fs (run_revoke host identity passphrase_file subject)
  unfolding run_revoke
  run_revoke-fs identity passphrase_file subject =
      search (fs_rules, revoke_subject-fs) depth 40 fits 4000

  run_succeed-fs :
      (identity passphrase_file to : Bytes)
      → Fixes World.fs (run_succeed host identity passphrase_file to)
  unfolding run_succeed
  run_succeed-fs identity passphrase_file to = search fs_rules depth 40 fits 4000

  -- A command that signs or shows leaves every file as it is, however it ends.
  pub run-fs : (c : Command) (w : World S) → Signs c → (run host c w).1.fs ≡ w.fs
  unfolding run
  run-fs (new audience out passphrase_file dir skip) w n = absurd n
  run-fs (show identity) w n = (run_show-fs identity).at w
  run-fs (login identity passphrase_file valid_for) w n =
      (run_login-fs identity passphrase_file valid_for).at w
  run-fs (step_up identity passphrase_file action_digest action_says valid_for) w n =
      (run_step_up-fs identity passphrase_file action_digest action_says valid_for).at w
  run-fs (delegate identity passphrase_file to actions per total window above valid_for) w n =
      (run_delegate-fs identity passphrase_file to _ valid_for).at w
  run-fs (revoke identity passphrase_file subject) w n =
      (run_revoke-fs identity passphrase_file subject).at w
  run-fs (succeed identity passphrase_file to) w n =
      (run_succeed-fs identity passphrase_file to).at w
  run-fs (recover shares root audience out passphrase_file) w n = absurd n
