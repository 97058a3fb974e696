-- ===== src/Cli/Run/Rebuilt.antt =====
-- crates/aethel-auth-cli/src/main.rs: `recover` rebuilds what `new` made.
use aethel_runtime.Base.{
  suc, ◌≤◌, ◌≡◌, refl, sym, ap, ◌∙◌, false, none, some, List, [], ◌∷◌, arith, ltb, length, ok,
}
use aethel_runtime.Base.Bytes.{Bytes, bytes_eq_iff}
use aethel_runtime.Auth.Fingerprint.{key_fingerprint}
use aethel_runtime.Cli.Host.{IdentityFile, ShareFile, HtssShare, Host}
use aethel_runtime.Cli.Laws.{Hex, Sealing, Sharing, Files, Json, Picked}
use aethel_runtime.Cli.Action.{
  World, Exit, returned, pure, lift, continue, ◌>>=◌, refuse_if, eprintln,
}
use aethel_runtime.Cli.Passphrase.{
  read_bytes, read_to_string, write_bytes, fill_bytes, read_passphrase,
}
use aethel_runtime.Cli.IdentityFile.{seal, generated, fingerprint, open_file}
use aethel_runtime.Cli.IdentityFile.Disk.{from_entropy, write_identity}
use aethel_runtime.Cli.IdentityFile.Opening.{IsMade, IsMade-Opens, open_file_iff}
use aethel_runtime.Cli.Recovery.{share_file, share_files}
use aethel_runtime.Cli.Recovery.Disk.{read_share}
use aethel_runtime.Cli.Recovery.Rebuild.{IsSplit, combine-split}
use aethel_runtime.Cli.Run.Command.{find_mismatched, refuse_mismatched, read_shares, run_recover}

module _ {E I S : Type 0} (host : Host E I S) where
  -- Each path holds the text of the share file of a share.
  abbrev pub Delivered : Bytes → List HtssShare → List Bytes → World S → Type 0
  Delivered audience [] [] u = Unit
  Delivered audience (s ∷ picked) (p ∷ paths) u =
      ((text : Bytes) × (host.share_json (share_file host audience s) ≡ some text)
        × (host.read u.fs p ≡ ok text))
      × Delivered audience picked paths u
  Delivered audience [] (p ∷ paths) u = ⊥
  Delivered audience (s ∷ picked) [] u = ⊥

  read_share_step :
      Json host
      → (audience path text : Bytes) (s : HtssShare) (u : World S)
      → host.share_json (share_file host audience s) ≡ some text
      → host.read u.fs path ≡ ok text
      → read_share host path u ≡ (returned (share_file host audience s), u)
  unfolding read_share read_to_string read_bytes ◌>>=◌ continue lift pure
  read_share_step json audience path text s u encodes held =
      rw
        (
          held,
          json.share_utf8 (share_file host audience s) text encodes,
          json.parse-print_share (share_file host audience s) text encodes,
        )
        refl

  read_shares_step :
      Json host
      → (audience : Bytes) (picked : List HtssShare) (paths : List Bytes) (u : World S)
      → Delivered audience picked paths u
      → read_shares host paths u ≡ (returned (share_files host audience picked), u)
  unfolding read_shares share_files ◌>>=◌ continue pure
  read_shares_step json audience [] [] u h = refl
  read_shares_step json audience (s ∷ picked) (p ∷ paths) u h =
      rw
        (
          read_share_step json audience p h.0.0 s u h.0.1 h.0.2,
          read_shares_step json audience picked paths u h.1,
        )
        refl
  read_shares_step json audience [] (p ∷ paths) u h = absurd h
  read_shares_step json audience (s ∷ picked) [] u h = absurd h

  length-Delivered :
      (audience : Bytes) (picked : List HtssShare) (paths : List Bytes) (u : World S)
      → Delivered audience picked paths u
      → length paths ≡ length picked
  length-Delivered audience [] [] u h = refl
  length-Delivered audience (s ∷ picked) (p ∷ paths) u h =
      ap suc (length-Delivered audience picked paths u h.1)
  length-Delivered audience [] (p ∷ paths) u h = absurd h
  length-Delivered audience (s ∷ picked) [] u h = absurd h

  find_mismatched-none :
      (audience : Bytes) (picked : List HtssShare)
      → find_mismatched (share_files host audience picked) audience ≡ none
  unfolding find_mismatched share_files share_file
  find_mismatched-none audience [] = refl
  find_mismatched-none audience (s ∷ picked) =
      rw ((bytes_eq_iff audience audience).1 refl, find_mismatched-none audience picked) refl

  from_entropy_step :
      (audience entropy passphrase : Bytes) (identity : I) (file : IdentityFile) (u : World S)
      → host.generate entropy ≡ ok identity
      → seal host audience identity (host.os_rng u.drawn 16) passphrase ≡ ok file
      → from_entropy host audience entropy passphrase u
        ≡ (returned file, record u { drawn = suc u.drawn })
  unfolding from_entropy generated fill_bytes ◌>>=◌ continue lift
  from_entropy_step audience entropy passphrase identity file u g s = rw (g, s) refl

  write_identity_step :
      (file : IdentityFile) (path text : Bytes) (u : World S)
      → host.identity_file_json file ≡ some text
      → (host.write u.fs path text).0 ≡ ok tt
      → write_identity host file path u
        ≡ (returned tt, record u { fs = (host.write u.fs path text).1 })
  unfolding write_identity write_bytes ◌>>=◌ continue lift
  write_identity_step file path text u encodes written = rw (encodes, written) refl

  -- Opens under a passphrase to an identity, at an audience, and publishes the identity's key.
  pub record Restores (file : IdentityFile) (audience passphrase : Bytes) (identity : I)
      : Type 0 where
    pub opens : open_file host file passphrase ≡ ok identity
    pub audience_kept : file.audience ≡ audience
    pub key_kept : file.public_key ≡ host.hex_encode (host.core.public_key identity)

  IsMade-Restores :
      Hex host
      → Sealing host
      → (audience passphrase entropy : Bytes) (file : IdentityFile)
      → (m : IsMade host audience passphrase entropy file)
      → Restores file audience passphrase m.identity
  IsMade-Restores hex sealing audience passphrase entropy file m =
      let (opens, at, key) =
        IsMade-Opens host hex sealing audience passphrase entropy file file.recovery m in
      record {
        opens = (open_file_iff host file passphrase m.identity).1 opens;
        audience_kept = at;
        key_kept = key;
      }

  -- A run that returned, and what it has left at a path.
  abbrev pub Left : (Exit (Unit {0}) × World S) → Bytes → Bytes → Type 0
  Left r out text = (r.0 ≡ returned tt) × (host.read r.1.fs out ≡ ok text)

  fingerprint_step :
      Hex host
      → (file : IdentityFile) (key : Bytes) → file.public_key ≡ host.hex_encode key
      → (name : Bytes) × (fingerprint host file ≡ ok name)
  unfolding fingerprint
  fingerprint_step hex file key h =
      (key_fingerprint host.core key, rw (h, hex.decode_encode key) refl)

  -- Given the files of at least three different shares of a split of what `new` drew, in any order,
  -- and the split's root, `recover` returns, and has written at `out` a file that opens under the new
  -- passphrase to the very identity that `new` made, at the same audience and with the same published
  -- key. The passphrase can be read, the identity sealed under it, the file encoded and `out` written;
  -- and the crates do what they document.
  pub run_recover-Restores :
      Hex host
      → Sealing host
      → Sharing host
      → Files host
      → Json host
      → (audience passphrase entropy root out passphrase_file passphrase' text : Bytes)
        (file file' : IdentityFile) (shares : List ShareFile)
      → (made : IsMade host audience passphrase entropy file)
      → (split : IsSplit host entropy audience shares root)
      → (picked : List HtssShare) (paths : List Bytes) (u v : World S) → Picked picked split.shares
      → 3 ≤ length picked
      → Delivered audience picked paths u
      → read_passphrase host passphrase_file u ≡ (returned passphrase', v)
      → seal host audience made.identity (host.os_rng v.drawn 16) passphrase' ≡ ok file'
      → host.identity_file_json file' ≡ some text
      → (host.write v.fs out text).0 ≡ ok tt
      → Left (run_recover host paths root audience out passphrase_file u) out text
        × Restores file' audience passphrase' made.identity
        × (file'.public_key ≡ file.public_key)
  unfolding run_recover ◌>>=◌ continue lift refuse_if eprintln refuse_mismatched
  run_recover-Restores hex sealing sharing files json audience passphrase entropy root out
        passphrase_file passphrase' text file file' shares made split picked paths u v from enough
        delivered read sealed encodes written =
      let restores = IsMade-Restores hex sealing audience passphrase' entropy file' (record {
        identity = made.identity;
        salt = host.os_rng v.drawn 16;
        generate = made.generate;
        made = sealed;
      }) in
      let before = IsMade-Restores hex sealing audience passphrase entropy file made in
      let (name, named) =
        fingerprint_step hex file' (host.core.public_key made.identity) restores.key_kept in
      let enough_paths : ltb (length paths) 3 ≡ false =
        rw (length-Delivered audience picked paths u delivered) (ground (arith, enough)) in
      (
        rw
            (
              enough_paths,
              read_shares_step json audience picked paths u delivered,
              find_mismatched-none audience picked,
              combine-split host hex sharing entropy audience shares root split picked from enough,
              read,
              from_entropy_step audience entropy passphrase' made.identity file' v made.generate
                  sealed,
              write_identity_step file' out text (record v { drawn = suc v.drawn }) encodes written,
              named,
            )
            (refl, files.read-write v.fs out text written),
        restores,
        restores.key_kept ∙ sym before.key_kept,
      )
