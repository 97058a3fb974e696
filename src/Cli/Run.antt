-- ===== src/Cli/Run.antt =====
-- crates/aethel-auth-cli/src/main.rs: opening an identity, and the commands that sign.
pub mod Command
pub mod Quiet
pub mod Output
pub mod Files
pub mod Signed
pub mod Printing
pub mod Statements
pub mod Login
pub mod Making
pub mod Paths
pub mod Created
pub mod Rebuilt
use aethel_runtime.Base.{
  ℕ, ◌+◌, ◌%◌, ◌^◌, Bool, true, false, not, Option, none, some, List, [], ◌∷◌, ◌++◌, ◌==◌, is_some,
  length, is_empty, Result, ok_or,
}
use aethel_runtime.Base.Bytes.{Bytes, codes}
use aethel_runtime.Auth.Delegation.{Bounds}
use aethel_runtime.Auth.Holder.{
  Holder, step_up, delegate_to, revoke_self, revoke_as_authority, name_successor,
}
use aethel_runtime.Auth.Holder
use aethel_runtime.Cli.Host.{
  CliError, corrupt, crypto, usage, IdentityFile, Host, Statement, login_proof, step_up_proof,
  delegated, revoked, succeeded,
}
use aethel_runtime.Cli.Action.{
  Action, pure, lift, or_panic, ◌>>=◌, ◌>>◌, refuse_if, println, eprintln, now,
}
use aethel_runtime.Cli.Passphrase.{fill_bytes, read_passphrase}
use aethel_runtime.Cli.IdentityFile.{open_file}
use aethel_runtime.Cli.IdentityFile.Disk.{read_identity}

-- `==` on `bool`.
abbrev pub bool_eq : Bool → Bool → Bool
bool_eq true b = b
bool_eq false b = not b

unfoldable pub unpaired_message : Bytes
unpaired_message =
    codes "--max-total and --window-secs go together: a total needs the window it applies over"

unfoldable pub no_action_message : Bytes
no_action_message =
    codes "no --action given, which would grant nothing; say what the delegate may do"

module _ {E I S : Type 0} (host : Host E I S) where
  unfoldable pub open_identity : Bytes → Bytes → Action S (IdentityFile × I)
  open_identity path passphrase_file = do
    file ← read_identity host path
    passphrase ← read_passphrase host passphrase_file
    identity ← lift (open_file host file passphrase)
    eprintln (codes "acting at: " ++ file.audience)
    pure (file, identity)

  unfoldable pub emit : Statement → Action S (Unit {0})
  emit value = do
    text ← lift (ok_or (host.statement_json value) (crypto (codes "encode")))
    println text

  unfoldable pub decode_key : Bytes → Bytes → Result CliError Bytes
  decode_key hex_str what = ok_or (host.hex_decode hex_str) (corrupt what)

  -- `Holder::new(&id, file.audience_bytes())`.
  abbrev pub holder_of : IdentityFile → I → Holder host.core
  holder_of file identity = record { identity = identity; audience = file.audience }

  unfoldable pub run_login : Bytes → Bytes → ℕ → Action S (Unit {0})
  run_login identity passphrase_file valid_for = do
    (file, id) ← open_identity identity passphrase_file
    nonce ← fill_bytes host 32
    time ← now
    proof ← or_panic (Holder.login host.core (holder_of file id) nonce time valid_for)
    emit (login_proof proof)

  unfoldable pub run_step_up : Bytes → Bytes → Bytes → Bytes → ℕ → Action S (Unit {0})
  run_step_up identity passphrase_file action_digest action_says valid_for = do
    digest ← lift (decode_key action_digest (codes "action digest"))
    refuse_if (not (length digest == 32)) (corrupt (codes "action digest is not 32 bytes"))
    (file, id) ← open_identity identity passphrase_file
    eprintln (codes "you are authorising: " ++ action_says)
    nonce ← fill_bytes host 32
    time ← now
    proof ← or_panic (step_up host.core (holder_of file id) nonce time valid_for digest)
    emit (step_up_proof proof)

  unfoldable pub announce_actions : List Bytes → Action S (Unit {0})
  announce_actions [] = pure tt
  announce_actions (a ∷ actions) = do eprintln (codes "  may: " ++ a); announce_actions actions

  -- `start + valid_for`, which wraps in a release build.
  abbrev pub wrapping_add64 : ℕ → ℕ → ℕ
  wrapping_add64 a b = (a + b) % 2 ^ 64

  unfoldable pub run_delegate : Bytes → Bytes → Bytes → Bounds → ℕ → Action S (Unit {0})
  run_delegate identity passphrase_file to bounds valid_for = do
    refuse_if (not (bool_eq (is_some bounds.max_total) (is_some bounds.window_secs)))
        (usage unpaired_message)
    refuse_if (is_empty bounds.actions) (usage no_action_message)
    delegate_key ← lift (decode_key to (codes "delegate public key"))
    (file, id) ← open_identity identity passphrase_file
    eprintln (codes "delegating to: " ++ to)
    announce_actions bounds.actions
    start ← now
    d ← or_panic (
        delegate_to host.core (holder_of file id) delegate_key bounds start
          (wrapping_add64 start valid_for))
    emit (delegated d)

  -- The two arms of `match subject`.
  unfoldable pub revoke_subject : Option Bytes → IdentityFile → I → Action S (Unit {0})
  revoke_subject none file id = do
    time ← now
    r ← or_panic (revoke_self host.core (holder_of file id) time)
    emit (revoked r)
  revoke_subject (some hex_key) file id = do
    subject ← lift (decode_key hex_key (codes "subject public key"))
    time ← now
    r ← or_panic (revoke_as_authority host.core id subject file.audience time)
    emit (revoked r)

  unfoldable pub run_revoke : Bytes → Bytes → Option Bytes → Action S (Unit {0})
  run_revoke identity passphrase_file subject = do
    (file, id) ← open_identity identity passphrase_file
    revoke_subject subject file id

  unfoldable pub run_succeed : Bytes → Bytes → Bytes → Action S (Unit {0})
  run_succeed identity passphrase_file to = do
    successor ← lift (decode_key to (codes "successor public key"))
    (file, id) ← open_identity identity passphrase_file
    time ← now
    s ← or_panic (name_successor host.core (holder_of file id) successor time)
    emit (succeeded s)
