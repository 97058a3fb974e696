-- ===== src/Cli/Laws.antt =====
-- What the tool relies on of the crates that it takes: `hex` decodes what it encoded, `aethel_core`
-- unseals what it sealed and reassembles a secret from enough of its shares, and the two codecs read
-- back what they wrote.
use aethel_runtime.Base.{◌≡◌, ◌≢◌, ◌≤◌, ◌<◌, ◌^◌, ◌⊎◌, true, some, List, [], ◌∷◌, length, ok}
use aethel_runtime.Base.Bytes.{Bytes}
use aethel_runtime.Cli.Host.{IdentityFile, ShareFile, HtssShare, Host}

-- `s` is one of the shares.
abbrev pub Issued : HtssShare → List HtssShare → Type 0
Issued s [] = ⊥
Issued s (x ∷ xs) = (x ≡ s) ⊎ Issued s xs

-- Shares out of those issued, no two with one index.
abbrev pub Distinct : HtssShare → List HtssShare → Type 0
Distinct s [] = Unit
Distinct s (x ∷ xs) = (s.index ≢ x.index) × Distinct s xs

abbrev pub Picked : List HtssShare → List HtssShare → Type 0
Picked [] shares = Unit
Picked (s ∷ picked) shares = Issued s shares × Distinct s picked × Picked picked shares

-- Indices that fit a byte, no two alike.
abbrev pub Numbered : List HtssShare → Type 0
Numbered [] = Unit
Numbered (s ∷ shares) = (s.index < 2 ^ 8) × Distinct s shares × Numbered shares

module _ {E I S : Type 0} (host : Host E I S) where
  pub record Hex : Type 0 where
    pub decode_encode : (b : Bytes) → host.hex_decode (host.hex_encode b) ≡ some b

  pub record Sealing : Type 0 where
    pub import-export :
        (identity : I) (key sealed : Bytes)
        → host.export_sealed identity key ≡ ok sealed
        → host.import_sealed sealed key ≡ ok identity

  -- The scheme's 3-of-5.
  pub record Sharing : Type 0 where
    pub root_length :
        {secret nonce root : Bytes} {shares : List HtssShare}
        → host.split_key_material secret nonce ≡ ok (shares, root)
        → length root ≡ 32
    pub numbered :
        {secret nonce root : Bytes} {shares : List HtssShare}
        → host.split_key_material secret nonce ≡ ok (shares, root)
        → Numbered shares
    pub reassembles :
        {secret nonce root : Bytes} {shares : List HtssShare}
        → (picked : List HtssShare) → host.split_key_material secret nonce ≡ ok (shares, root)
        → Picked picked shares
        → 3 ≤ length picked
        → host.reconstruct_key_material picked root ≡ ok secret

  -- A file system on which a write that succeeds is read back, in a text that is UTF-8, and other
  -- paths keep what they have.
  pub record Files : Type 0 where
    pub read-write :
        (s : S) (p text : Bytes)
        → (host.write s p text).0 ≡ ok tt
        → host.read (host.write s p text).1 p ≡ ok text
    pub read-other :
        (s : S) (p q text : Bytes) → p ≢ q → host.read (host.write s p text).1 q ≡ host.read s q

  pub record Json : Type 0 where
    pub utf8 :
        (file : IdentityFile) (text : Bytes)
        → host.identity_file_json file ≡ some text
        → host.is_utf8 text ≡ true
    pub parse-print :
        (file : IdentityFile) (text : Bytes)
        → host.identity_file_json file ≡ some text
        → host.parse_identity_file text ≡ some file
    pub share_utf8 :
        (f : ShareFile) (text : Bytes) → host.share_json f ≡ some text → host.is_utf8 text ≡ true
    pub parse-print_share :
        (f : ShareFile) (text : Bytes)
        → host.share_json f ≡ some text
        → host.parse_share text ≡ some f
