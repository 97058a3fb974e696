-- ===== src/Cli/Recovery/Disk.antt =====
-- crates/aethel-auth-cli/src/recovery.rs: splitting with a fresh nonce, and share files on disk.
use aethel_runtime.Base.{List, ok_or}
use aethel_runtime.Base.Bytes.{Bytes, codes}
use aethel_runtime.Cli.Host.{corrupt, crypto, ShareFile, Host}
use aethel_runtime.Cli.Action.{Action, lift, ◌>>=◌}
use aethel_runtime.Cli.Passphrase.{read_to_string, write_bytes, fill_bytes}
use aethel_runtime.Cli.Recovery.{split_with}

module _ {E I S : Type 0} (host : Host E I S) where
  unfoldable pub split : Bytes → Bytes → Action S (List ShareFile × Bytes)
  split entropy audience = do
    nonce ← fill_bytes host 32
    lift (split_with host nonce entropy audience)

  unfoldable pub read_share : Bytes → Action S ShareFile
  read_share path = do
    text ← read_to_string host path
    lift (ok_or (host.parse_share text) (corrupt (codes "share file")))

  unfoldable pub write_share : ShareFile → Bytes → Action S (Unit {0})
  write_share share path = do
    text ← lift (ok_or (host.share_json share) (crypto (codes "encode")))
    write_bytes host path text
