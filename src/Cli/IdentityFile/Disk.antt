-- ===== src/Cli/IdentityFile/Disk.antt =====
-- crates/aethel-auth-cli/src/identity_file.rs: making an identity file, and keeping it on disk.
use aethel_runtime.Base.{ok_or}
use aethel_runtime.Base.Bytes.{Bytes, codes}
use aethel_runtime.Cli.Host.{corrupt, crypto, IdentityFile, Host}
use aethel_runtime.Cli.Action.{Action, pure, lift, ◌>>=◌}
use aethel_runtime.Cli.Passphrase.{read_to_string, write_bytes, fill_bytes}
use aethel_runtime.Cli.IdentityFile.{seal, generated}

module _ {E I S : Type 0} (host : Host E I S) where
  -- The file, and the entropy that it was made from.
  unfoldable pub create : Bytes → Bytes → Action S (IdentityFile × Bytes)
  create audience passphrase = do
    entropy ← fill_bytes host 32
    salt ← fill_bytes host 16
    identity ← lift (generated host entropy)
    file ← lift (seal host audience identity salt passphrase)
    pure (file, entropy)

  unfoldable pub from_entropy : Bytes → Bytes → Bytes → Action S IdentityFile
  from_entropy audience entropy passphrase = do
    identity ← lift (generated host entropy)
    salt ← fill_bytes host 16
    lift (seal host audience identity salt passphrase)

  unfoldable pub read_identity : Bytes → Action S IdentityFile
  read_identity path = do
    text ← read_to_string host path
    lift (ok_or (host.parse_identity_file text) (corrupt (codes "identity file")))

  unfoldable pub write_identity : IdentityFile → Bytes → Action S (Unit {0})
  write_identity file path = do
    text ← lift (ok_or (host.identity_file_json file) (crypto (codes "encode")))
    write_bytes host path text
