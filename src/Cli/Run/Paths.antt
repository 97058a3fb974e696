-- ===== src/Cli/Run/Paths.antt =====
-- crates/aethel-auth-cli/src/main.rs: shares with different indices are written to different paths.
use aethel_runtime.Base.{
  ℕ, ◌^◌, ◌<◌, ◌≡◌, refl, sym, ap, ◌∙◌, inl, inr, ◌||◌, List, [], ◌∷◌, ◌++◌, arith, Bool-cases,
  length, is_empty, tail, length-append, append-inj,
}
use aethel_runtime.Base.Bytes.{Bytes, codes}
use aethel_runtime.Vault.Binding.{display_u64}
use aethel_runtime.Vault.Binding.Numerals.{read_from, read_from-display_u64}
use aethel_runtime.Cli.Host.{HtssShare, Host}
use aethel_runtime.Cli.Laws.{Distinct, Numbered}
use aethel_runtime.Cli.Recovery.{share_file, share_files}
use aethel_runtime.Cli.Run.Command.{ends_in_slash, join, share_path}
use aethel_runtime.Cli.Run.Making.{Apart, PathsDistinct}

append-cancel : (xs ys zs : Bytes) → xs ++ ys ≡ xs ++ zs → ys ≡ zs
append-cancel xs ys zs h = (append-inj xs ys xs zs refl h).1

append-cancel_right : (xs ys zs : Bytes) → xs ++ zs ≡ ys ++ zs → xs ≡ ys
append-cancel_right xs ys zs h =
    (append-inj xs zs ys zs
      (omega (arith, length-append xs zs, length-append ys zs, ap (λ (l : Bytes). length l) h)) h).0

display_u64-inj : (a b : ℕ) → a < 2 ^ 64 → b < 2 ^ 64 → display_u64 a ≡ display_u64 b → a ≡ b
display_u64-inj a b ha hb h =
    sym (read_from-display_u64 a ha)
    ∙ (ap (λ (l : Bytes). read_from 0 l) h ∙ read_from-display_u64 b hb)

join-inj : (dir a b : Bytes) → join dir a ≡ join dir b → a ≡ b
unfolding join
join-inj dir a b h = elim (Bool-cases (is_empty dir || ends_in_slash dir)) [
  | inl e ↦ append-cancel dir a b (rw e at h)
  | inr e ↦ ap (λ (l : Bytes). tail l) (append-cancel dir (47 ∷ a) (47 ∷ b) (rw e at h))
]

pub share_path-inj :
    (dir : Bytes) (a b : ℕ) → a < 2 ^ 64 → b < 2 ^ 64 → share_path dir a ≡ share_path dir b → a ≡ b
unfolding share_path
share_path-inj dir a b ha hb h = display_u64-inj a b ha hb (
    append-cancel_right (display_u64 a) (display_u64 b) (codes ".json")
      (append-cancel (codes "share-") _ _ (join-inj dir _ _ h)))

module _ {E I S : Type 0} (host : Host E I S) (audience dir : Bytes) where
  share_files-Apart :
      (s : HtssShare) (shares : List HtssShare)
      → s.index < 2 ^ 8
      → Distinct s shares
      → Numbered shares
      → Apart (share_path dir s.index) dir (share_files host audience shares)
  unfolding share_files share_file
  share_files-Apart s [] b d n = tt
  share_files-Apart s (x ∷ xs) b d n = (
    λ e. d.0 (sym (share_path-inj dir x.index s.index (omega (arith, n.0)) (omega (arith, b)) e)),
    share_files-Apart s xs b d.1 n.2,
  )

  -- The share files of one split have different paths.
  pub share_files-PathsDistinct :
      (shares : List HtssShare)
      → Numbered shares
      → PathsDistinct dir (share_files host audience shares)
  unfolding share_files share_file
  share_files-PathsDistinct [] n = tt
  share_files-PathsDistinct (s ∷ shares) n =
      (share_files-Apart s shares n.0 n.1 n.2, share_files-PathsDistinct shares n.2)
