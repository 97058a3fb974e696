-- ===== src/Cli/Run/Output.antt =====
-- crates/aethel-auth-cli/src/main.rs: which commands reach the standard output and which the file
-- system, and what a failed command has printed.
use aethel_runtime.Base.{ℕ, ◌≡◌, refl, Bool, true, false, Option, none, some, List, [], ◌∷◌, Result}
use aethel_runtime.Base.Bytes.{Bytes}
use aethel_runtime.Cli.Host.{
  Host, Statement, IdentityFile, ShareFile, Command, new, show, login, step_up, delegate, revoke,
  succeed, recover,
}
use aethel_runtime.Auth.Delegation.{Bounds}
use aethel_runtime.Cli.Action.{World, eprintln}
use aethel_runtime.Cli.Action.Keeps.{
  Fixes, Stops, FixesUnlessDone, FixesUnlessDone-bind, println-done, fixes_rules, Fixes-bind,
}
use aethel_runtime.Cli.Passphrase.{fill_bytes, write_bytes, create_dir_all}
use aethel_runtime.Cli.IdentityFile.Disk.{write_identity}
use aethel_runtime.Cli.Recovery.Disk.{write_share}
use aethel_runtime.Cli.Run.{
  open_identity, announce_actions, emit, run_login, run_step_up, run_delegate, revoke_subject,
  run_revoke, run_succeed,
}
use aethel_runtime.Cli.Run.Command.{write_shares, arrange_recovery, run_new, run_recover, run}
use aethel_runtime.Cli.Run.Quiet.{
  eprintln-Fixes, read_passphrase-Fixes, fill_bytes-Fixes, open_identity-Fixes, read_shares-Fixes,
  create-Fixes, from_entropy-Fixes, split-Fixes, announce_actions-Fixes,
}

abbrev pub NotShow : Command → Type 0
NotShow (show identity) = ⊥
NotShow c = Unit

module _ {E I S : Type 0} (host : Host E I S) where
  stdout_blind :
      (w : World S) (stdin : Result Bytes Bytes) (stderr : List Bytes) (drawn : ℕ)
      → (record w { stdin = stdin; stderr = stderr; drawn = drawn }).stdout ≡ w.stdout
  stdout_blind w stdin stderr drawn = refl

  eprintln-stdout : (line : Bytes) → Fixes World.stdout (eprintln {S = S} line)
  eprintln-stdout = eprintln-Fixes host World.stdout stdout_blind

  -- Steps over files leave the standard output alone.
  write_bytes-Fixes : (p text : Bytes) → Fixes World.stdout (write_bytes host p text)
  unfolding write_bytes
  write_bytes-Fixes p text = record { at = λ w. refl }

  create_dir_all-Fixes : (p : Bytes) → Fixes World.stdout (create_dir_all host p)
  unfolding create_dir_all
  create_dir_all-Fixes p = record { at = λ w. refl }

  write_identity-Fixes :
      (file : IdentityFile) (p : Bytes) → Fixes World.stdout (write_identity host file p)
  unfolding write_identity
  write_identity-Fixes file p = search (fixes_rules, write_bytes-Fixes)

  write_share-Fixes : (s : ShareFile) (p : Bytes) → Fixes World.stdout (write_share host s p)
  unfolding write_share
  write_share-Fixes s p = search (fixes_rules, write_bytes-Fixes)

  write_shares-Fixes :
      (dir : Bytes) (shares : List ShareFile) → Fixes World.stdout (write_shares host dir shares)
  unfolding write_shares
  write_shares-Fixes dir [] = search fixes_rules
  write_shares-Fixes dir (s ∷ shares) =
      Fixes-bind _ _ (write_share-Fixes s _) (λ _. write_shares-Fixes dir shares)

  arrange_recovery-Fixes :
      (skip : Bool) (file : IdentityFile) (entropy audience dir : Bytes)
      → Fixes World.stdout (arrange_recovery host skip file entropy audience dir)
  unfolding arrange_recovery
  arrange_recovery-Fixes true file entropy audience dir = search (fixes_rules, eprintln-stdout)
  arrange_recovery-Fixes false file entropy audience dir = search (
    fixes_rules,
    eprintln-stdout,
    split-Fixes host World.stdout stdout_blind,
    create_dir_all-Fixes,
    write_shares-Fixes,
  )

  run_new-Fixes :
      (audience out passphrase_file dir : Bytes) (skip : Bool)
      → Fixes World.stdout (run_new host audience out passphrase_file dir skip)
  unfolding run_new
  run_new-Fixes audience out passphrase_file dir skip =
      search
        (
          fixes_rules,
          eprintln-stdout,
          read_passphrase-Fixes host World.stdout stdout_blind,
          create-Fixes host World.stdout stdout_blind,
          arrange_recovery-Fixes,
          write_identity-Fixes,
        )
        depth 40 fits 4000

  run_recover-Fixes :
      (shares : List Bytes) (root audience out passphrase_file : Bytes)
      → Fixes World.stdout (run_recover host shares root audience out passphrase_file)
  unfolding run_recover
  run_recover-Fixes shares root audience out passphrase_file =
      search
        (
          fixes_rules,
          eprintln-stdout,
          read_shares-Fixes host World.stdout stdout_blind,
          read_passphrase-Fixes host World.stdout stdout_blind,
          from_entropy-Fixes host World.stdout stdout_blind,
          write_identity-Fixes,
        )
        depth 40 fits 4000

  emit-done : (v : Statement) → FixesUnlessDone World.stdout (emit host v)
  unfolding emit
  emit-done v = search (FixesUnlessDone-bind, println-done, fixes_rules)

  open_identity-stdout : (p q : Bytes) → Fixes World.stdout (open_identity host p q)
  open_identity-stdout = open_identity-Fixes host World.stdout stdout_blind

  fill_bytes-stdout : (n : ℕ) → Fixes World.stdout (fill_bytes host n)
  fill_bytes-stdout = fill_bytes-Fixes host World.stdout stdout_blind

  announce_actions-stdout :
      (actions : List Bytes) → Fixes World.stdout (announce_actions host actions)
  announce_actions-stdout = announce_actions-Fixes host World.stdout stdout_blind

  ruleset done_rules = (
    FixesUnlessDone-bind, emit-done, fixes_rules, open_identity-stdout, fill_bytes-stdout,
    eprintln-stdout, announce_actions-stdout,
  )

  run_login-done :
      (identity passphrase_file : Bytes) (valid_for : ℕ)
      → FixesUnlessDone World.stdout (run_login host identity passphrase_file valid_for)
  unfolding run_login
  run_login-done identity passphrase_file valid_for = search done_rules depth 40 fits 4000

  run_step_up-done :
      (identity passphrase_file action_digest action_says : Bytes) (valid_for : ℕ)
      → FixesUnlessDone World.stdout
          (run_step_up host identity passphrase_file action_digest action_says valid_for)
  unfolding run_step_up
  run_step_up-done identity passphrase_file action_digest action_says valid_for =
      search done_rules depth 40 fits 4000

  run_delegate-done :
      (identity passphrase_file to : Bytes) (bounds : Bounds) (valid_for : ℕ)
      → FixesUnlessDone World.stdout
          (run_delegate host identity passphrase_file to bounds valid_for)
  unfolding run_delegate
  run_delegate-done identity passphrase_file to bounds valid_for =
      search done_rules depth 40 fits 4000

  revoke_subject-done :
      (subject : Option Bytes) (file : IdentityFile) (id : I)
      → FixesUnlessDone World.stdout (revoke_subject host subject file id)
  unfolding revoke_subject
  revoke_subject-done none file id = search done_rules depth 40 fits 4000
  revoke_subject-done (some hex_key) file id = search done_rules depth 40 fits 4000

  run_revoke-done :
      (identity passphrase_file : Bytes) (subject : Option Bytes)
      → FixesUnlessDone World.stdout (run_revoke host identity passphrase_file subject)
  unfolding run_revoke
  run_revoke-done identity passphrase_file subject =
      search (done_rules, revoke_subject-done) depth 40 fits 4000

  run_succeed-done :
      (identity passphrase_file to : Bytes)
      → FixesUnlessDone World.stdout (run_succeed host identity passphrase_file to)
  unfolding run_succeed
  run_succeed-done identity passphrase_file to = search done_rules depth 40 fits 4000

  -- A command other than `show` that fails or panics has printed nothing on the standard output.
  pub run_stopped :
      (c : Command) (w : World S)
      → NotShow c
      → Stops (run host c w).0
      → (run host c w).1.stdout ≡ w.stdout
  unfolding run
  run_stopped (new audience out passphrase_file dir skip) w n s =
      (run_new-Fixes audience out passphrase_file dir skip).at w
  run_stopped (show identity) w n s = absurd n
  run_stopped (login identity passphrase_file valid_for) w n s =
      (run_login-done identity passphrase_file valid_for).at w s
  run_stopped (step_up identity passphrase_file action_digest action_says valid_for) w n s =
      (run_step_up-done identity passphrase_file action_digest action_says valid_for).at w s
  run_stopped (delegate identity passphrase_file to actions per total window above valid_for) w n
        s =
      (run_delegate-done identity passphrase_file to _ valid_for).at w s
  run_stopped (revoke identity passphrase_file subject) w n s =
      (run_revoke-done identity passphrase_file subject).at w s
  run_stopped (succeed identity passphrase_file to) w n s =
      (run_succeed-done identity passphrase_file to).at w s
  run_stopped (recover shares root audience out passphrase_file) w n s =
      (run_recover-Fixes shares root audience out passphrase_file).at w
