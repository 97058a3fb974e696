-- ===== src/Cli/Recovery/Rebuild.antt =====
-- crates/aethel-auth-cli/src/recovery.rs: an identity split at its creation is rebuilt from enough
-- of its share files.
use aethel_runtime.Base.{◌≤◌, ◌≡◌, refl, inl, inr, List, [], ◌∷◌, arith, length, ok, Result-cases}
use aethel_runtime.Base.Bytes.{Bytes}
use aethel_runtime.Cli.Host.{ShareFile, HtssShare, Host}
use aethel_runtime.Cli.Laws.{Hex, Sharing, Picked}
use aethel_runtime.Cli.Action.Steps.{Hoare, Hoare-bind, Hoare-lift, Hoare-any, Hoare-change}
use aethel_runtime.Cli.Recovery.{share_file, share_files, split_with, share_of, shares_of, combine}
use aethel_runtime.Cli.Recovery.Disk.{split}

module _ {E I S : Type 0} (host : Host E I S) where
  share_of-share_file :
      Hex host
      → (audience : Bytes) (s : HtssShare) → share_of host (share_file host audience s) ≡ ok s
  unfolding share_of share_file
  share_of-share_file hex audience s = rw (hex.decode_encode s.value, hex.decode_encode s.path) refl

  pub shares_of-share_files :
      Hex host
      → (audience : Bytes) (shares : List HtssShare)
      → shares_of host (share_files host audience shares) ≡ ok shares
  unfolding shares_of share_files
  shares_of-share_files hex audience [] = refl
  shares_of-share_files hex audience (s ∷ shares) =
      rw (share_of-share_file hex audience s, shares_of-share_files hex audience shares) refl

  -- What `split` made.
  pub record IsSplit (entropy audience : Bytes) (files : List ShareFile) (root_hex : Bytes)
      : Type 0 where
    pub nonce : Bytes
    pub shares : List HtssShare
    pub root : Bytes
    pub is_split : host.split_key_material entropy nonce ≡ ok (shares, root)
    pub files_are : files ≡ share_files host audience shares
    pub root_is : root_hex ≡ host.hex_encode root

  split_with-IsSplit :
      (nonce entropy audience : Bytes) (files : List ShareFile) (root_hex : Bytes)
      → split_with host nonce entropy audience ≡ ok (files, root_hex)
      → IsSplit entropy audience files root_hex
  unfolding split_with
  split_with-IsSplit nonce entropy audience files root_hex h =
      elim (Result-cases (host.split_key_material entropy nonce)) [
        | inl ((shares, root), s) ↦ record {
          nonce = nonce;
          shares = shares;
          root = root;
          is_split = s;
          files_are = ground (arith, s, h);
          root_is = ground (arith, s, h);
        }
        | inr (e, s) ↦ absurd (ground (arith, s, h))
      ]

  pub split-IsSplit :
      (entropy audience : Bytes)
      → Hoare
          (λ w. Unit {0})
          (split host entropy audience)
          (λ (p : List ShareFile × Bytes) v. IsSplit entropy audience p.0 p.1)
  unfolding split
  split-IsSplit entropy audience = Hoare-bind _ _ (Hoare-any _) λ nonce.
      Hoare-change _ (λ w h. h) (λ p v h. split_with-IsSplit nonce entropy audience p.0 p.1 h.0)
        (Hoare-lift _)

  -- The files of shares picked out of a split, in any order, at least three and no two with one
  -- index, combine under the split's root to what was split.
  pub combine-split :
      Hex host
      → Sharing host
      → (entropy audience : Bytes) (files : List ShareFile) (root_hex : Bytes)
      → (s : IsSplit entropy audience files root_hex) → (picked : List HtssShare)
      → Picked picked s.shares
      → 3 ≤ length picked
      → combine host (share_files host audience picked) root_hex ≡ ok entropy
  unfolding combine
  combine-split hex sharing entropy audience files root_hex s picked from enough =
      rw
        (
          s.root_is,
          hex.decode_encode s.root,
          sharing.root_length s.is_split,
          shares_of-share_files hex audience picked,
          sharing.reassembles picked s.is_split from enough,
        )
        refl
