-- ===== src/Cli/Run/Command.antt =====
-- crates/aethel-auth-cli/src/main.rs: the commands that make an identity or show one, and `run`.
use aethel_runtime.Base.{
  ℕ, ◌%◌, ◌^◌, Bool, true, false, ◌||◌, Option, none, some, List, [], ◌∷◌, ◌++◌, ltb, ◌==◌,
  if◌then◌else◌, length, is_empty, Result, ok, err,
}
use aethel_runtime.Base.Bytes.{Bytes, bytes_eq, codes}
use aethel_runtime.Vault.Binding.{display_u64}
use aethel_runtime.Cli.Host.{
  CliError, usage, not_enough_shares, IdentityFile, RecoveryRecord, ShareFile, Host, Command, new,
  show, login, step_up, delegate, revoke, succeed, recover,
}
use aethel_runtime.Cli.Action.{Action, pure, lift, ◌>>=◌, ◌>>◌, refuse_if, println, eprintln}
use aethel_runtime.Cli.Passphrase.{read_passphrase, create_dir_all}
use aethel_runtime.Cli.IdentityFile.{fingerprint}
use aethel_runtime.Cli.IdentityFile.Disk.{create, from_entropy, read_identity, write_identity}
use aethel_runtime.Cli.Recovery.{combine}
use aethel_runtime.Cli.Recovery.Disk.{split, read_share, write_share}
use aethel_runtime.Cli.Run.{run_login, run_step_up, run_delegate, run_revoke, run_succeed}

-- The last byte of a path is a slash; 47 is a slash.
unfoldable pub ends_in_slash : Bytes → Bool
ends_in_slash [] = false
ends_in_slash (b ∷ []) = b == 47
ends_in_slash (b ∷ c ∷ bs) = ends_in_slash (c ∷ bs)

-- `dir.join(name)`, for a relative name.
unfoldable pub join : Bytes → Bytes → Bytes
unfolding ends_in_slash
join dir name = if is_empty dir || ends_in_slash dir then dir ++ name else dir ++ (47 ∷ name)

-- `shares_dir.join(format!("share-{}.json", share.index))`.
unfoldable pub share_path : Bytes → ℕ → Bytes
unfolding join display_u64
share_path dir index = join dir (codes "share-" ++ (display_u64 index ++ codes ".json"))

unfoldable pub no_recovery_warning : Bytes
no_recovery_warning =
    codes
      "\nWARNING: no recovery shares were made.\nShares can only be created now, while the entropy exists. Once this\nidentity is sealed the entropy is gone, and losing the passphrase means\nlosing this relationship. There is no operator who can restore it.\n"

unfoldable pub shares_notice : ℕ → Bytes → Bytes → Bytes
unfolding display_u64
shares_notice count dir root =
    codes "\n"
    ++ (display_u64 count
        ++ (codes " recovery shares written to "
            ++ (dir
                ++ (codes
                      ".\nGive them to people you trust, separately. Any 3 can rebuild this identity.\n\nRecovery root: "
                    ++ (root
                        ++ codes
                            "\nRecord that somewhere other than this machine. Reconstruction needs it and\nthe shares deliberately do not carry it.\n")))))

unfoldable pub recovery_line : Option RecoveryRecord → Bytes
unfolding display_u64
recovery_line none = codes "recovery:   NONE. This identity cannot be recovered."
recovery_line (some r) =
    codes "recovery:   "
    ++ (display_u64 r.shares_issued
        ++ (codes " shares, " ++ (display_u64 r.threshold ++ (codes " needed, root " ++ r.root))))

unfoldable pub check_fingerprint_notice : Bytes
check_fingerprint_notice =
    codes
      "\nCheck that fingerprint against the one the relying party knows. If it differs,\nthese shares belong to a different identity.\n"

-- `files.iter().find(|f| f.audience != audience)`.
unfoldable pub find_mismatched : List ShareFile → Bytes → Option ShareFile
find_mismatched [] audience = none
find_mismatched (f ∷ files) audience =
    let rest = find_mismatched files audience in
    if bytes_eq f.audience audience then rest else some f

-- The refusal of a share for another audience.
unfoldable pub refuse_mismatched : Option ShareFile → Bytes → Result CliError (Unit {0})
unfolding display_u64
refuse_mismatched none audience = ok tt
refuse_mismatched (some f) audience = err (
    usage (
      codes "share "
      ++ (display_u64 f.index
          ++ (codes " is for " ++ (f.audience ++ (codes ", not " ++ audience))))))

module _ {E I S : Type 0} (host : Host E I S) where
  unfoldable pub write_shares : Bytes → List ShareFile → Action S (Unit {0})
  write_shares dir [] = pure tt
  write_shares dir (s ∷ shares) = do
    write_share host s (share_path dir s.index)
    write_shares dir shares

  -- The recovery that `new` arranges, and the file with its record.
  unfoldable pub arrange_recovery :
      Bool → IdentityFile → Bytes → Bytes → Bytes → Action S IdentityFile
  arrange_recovery true file entropy audience shares_dir = do
    eprintln no_recovery_warning
    pure file
  arrange_recovery false file entropy audience shares_dir = do
    (shares, root) ← split host entropy audience
    create_dir_all host shares_dir
    write_shares shares_dir shares
    eprintln (shares_notice (length shares) shares_dir root)
    pure (record file {
      recovery =
          some (record { root = root; shares_issued = length shares % 2 ^ 8; threshold = 3 });
    })

  unfoldable pub run_new : Bytes → Bytes → Bytes → Bytes → Bool → Action S (Unit {0})
  run_new audience out passphrase_file shares_dir no_recovery = do
    passphrase ← read_passphrase host passphrase_file
    (created, entropy) ← create host audience passphrase
    file ← arrange_recovery no_recovery created entropy audience shares_dir
    write_identity host file out
    eprintln (codes "identity written to " ++ out)
    name ← lift (fingerprint host file)
    eprintln (codes "key: " ++ name)

  unfoldable pub run_show : Bytes → Action S (Unit {0})
  run_show identity = do
    file ← read_identity host identity
    println (codes "audience:   " ++ file.audience)
    name ← lift (fingerprint host file)
    println (codes "key:        " ++ name)
    println (codes "full key:   " ++ file.public_key)
    println (recovery_line file.recovery)

  unfoldable pub read_shares : List Bytes → Action S (List ShareFile)
  read_shares [] = pure []
  read_shares (p ∷ paths) = do f ← read_share host p; files ← read_shares paths; pure (f ∷ files)

  unfoldable pub run_recover : List Bytes → Bytes → Bytes → Bytes → Bytes → Action S (Unit {0})
  run_recover shares root audience out passphrase_file = do
    refuse_if (ltb (length shares) 3) not_enough_shares
    files ← read_shares shares
    lift (refuse_mismatched (find_mismatched files audience) audience)
    entropy ← lift (combine host files root)
    passphrase ← read_passphrase host passphrase_file
    file ← from_entropy host audience entropy passphrase
    write_identity host file out
    eprintln (codes "identity rebuilt at " ++ out)
    name ← lift (fingerprint host file)
    eprintln (codes "key: " ++ name)
    eprintln check_fingerprint_notice

  unfoldable pub run : Command → Action S (Unit {0})
  run (new audience out passphrase_file shares_dir no_recovery) =
      run_new audience out passphrase_file shares_dir no_recovery
  run (show identity) = run_show identity
  run (login identity passphrase_file valid_for) = run_login host identity passphrase_file valid_for
  run (step_up identity passphrase_file action_digest action_says valid_for) =
      run_step_up host identity passphrase_file action_digest action_says valid_for
  run (delegate identity passphrase_file to actions per total window above valid_for) =
      run_delegate host identity passphrase_file to
        (record {
          actions = actions;
          max_per_invocation = per;
          max_total = total;
          window_secs = window;
          approval_required_above = above;
        })
        valid_for
  run (revoke identity passphrase_file subject) = run_revoke host identity passphrase_file subject
  run (succeed identity passphrase_file to) = run_succeed host identity passphrase_file to
  run (recover shares root audience out passphrase_file) =
      run_recover shares root audience out passphrase_file
