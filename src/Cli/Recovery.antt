-- ===== src/Cli/Recovery.antt =====
-- crates/aethel-auth-cli/src/recovery.rs: one file for each recovery share.
pub mod Disk
pub mod Rebuild
use aethel_runtime.Base.{
  not, List, [], ◌∷◌, ◌==◌, if◌then◌else◌, length, Result, ok, ◌>>=◌, ◌>>◌, refuse_if, map_err,
  ok_or,
}
use aethel_runtime.Base.Bytes.{Bytes, codes}
use aethel_runtime.Cli.Host.{
  CliError, corrupt, crypto, not_enough_shares, ShareFile, HtssShare, Host,
}

module _ {E I S : Type 0} (host : Host E I S) where
  -- The file of one share.
  unfoldable pub share_file : Bytes → HtssShare → ShareFile
  share_file audience s = record {
    version = 1;
    audience = audience;
    index = s.index;
    value = host.hex_encode s.value;
    path = host.hex_encode s.path;
  }

  unfoldable pub share_files : Bytes → List HtssShare → List ShareFile
  unfolding share_file
  share_files audience [] = []
  share_files audience (s ∷ shares) = share_file audience s ∷ share_files audience shares

  -- `split`, after it has drawn its nonce.
  unfoldable pub split_with : Bytes → Bytes → Bytes → Result CliError (List ShareFile × Bytes)
  unfolding share_files
  split_with nonce entropy audience = do
    (shares, root) ←
        map_err (λ e. crypto (codes "htss split")) (host.split_key_material entropy nonce)
    ok (share_files audience shares, host.hex_encode root)

  -- The share of one file.
  unfoldable pub share_of : ShareFile → Result CliError HtssShare
  share_of f = do
    value ← ok_or (host.hex_decode f.value) (corrupt (codes "share value"))
    path ← ok_or (host.hex_decode f.path) (corrupt (codes "share path"))
    ok (record { index = f.index; value = value; path = path })

  unfoldable pub shares_of : List ShareFile → Result CliError (List HtssShare)
  unfolding share_of
  shares_of [] = ok []
  shares_of (f ∷ files) = do share ← share_of f; shares ← shares_of files; ok (share ∷ shares)

  -- The error of a failed reconstruction.
  unfoldable pub reconstruct_error : E → CliError
  reconstruct_error e =
      if host.is_threshold_not_met e then not_enough_shares else crypto (codes "htss reconstruct")

  unfoldable pub combine : List ShareFile → Bytes → Result CliError Bytes
  unfolding shares_of reconstruct_error
  combine files root_hex = do
    root ← ok_or (host.hex_decode root_hex) (corrupt (codes "root"))
    refuse_if (not (length root == 32)) (corrupt (codes "root is not 32 bytes"))
    shares ← shares_of files
    map_err reconstruct_error (host.reconstruct_key_material shares root)
