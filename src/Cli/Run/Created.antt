-- ===== src/Cli/Run/Created.antt =====
-- crates/aethel-auth-cli/src/main.rs: what `new` has left on disk when it returns.
use aethel_runtime.Base.{
  ℕ, ◌%◌, ◌^◌, ◌≡◌, refl, sym, ap, ◌∙◌, subst, ◌≢◌, false, some, List, length,
}
use aethel_runtime.Base.Bytes.{Bytes}
use aethel_runtime.Cli.Host.{IdentityFile, ShareFile, Host}
use aethel_runtime.Cli.Laws.{Sharing, Files}
use aethel_runtime.Cli.Action.{World, Exit, returned, Action, eprintln}
use aethel_runtime.Cli.Action.Keeps.{Fixes, Fixes-lift}
use aethel_runtime.Cli.Action.Steps.{
  Hoare, Hoare-bind, Hoare-pure, Hoare-both, Hoare-change, Hoare-keep, Hoare-under, Hoare-from,
}
use aethel_runtime.Cli.Passphrase.{read_passphrase}
use aethel_runtime.Cli.IdentityFile.Disk.{write_identity}
use aethel_runtime.Cli.IdentityFile.Opening.{IsMade, create-IsMade}
use aethel_runtime.Cli.Recovery.Rebuild.{IsSplit, split-IsSplit}
use aethel_runtime.Cli.Run.Command.{share_path, arrange_recovery, run_new}
use aethel_runtime.Cli.Run.Quiet.{eprintln-Fixes}
use aethel_runtime.Cli.Run.Making.{
  at_path, at_path_blind, Holds, held_text, Holds-Fixes, written_elsewhere, Written,
  write_shares-Written, Written-other, PathsDistinct,
}
use aethel_runtime.Cli.Run.Paths.{share_files-PathsDistinct}

module _ {E I S : Type 0} (host : Host E I S) (laws : Files host) (sharing : Sharing host) where
  -- The file with the record of its recovery.
  abbrev pub recorded : IdentityFile → List ShareFile → Bytes → IdentityFile
  recorded file shares root = record file {
    recovery = some (record { root = root; shares_issued = length shares % 2 ^ 8; threshold = 3 });
  }

  paths :
      (dir entropy audience : Bytes) (shares : List ShareFile) (root : Bytes)
      → IsSplit host entropy audience shares root
      → PathsDistinct dir shares
  paths dir entropy audience shares root s =
      subst (PathsDistinct dir) (sym s.files_are)
        (share_files-PathsDistinct host audience dir s.shares (sharing.numbered s.is_split))

  eprintln-Written :
      (dir : Bytes) (shares : List ShareFile) (line : Bytes)
      → Hoare
          (λ w. Written host laws dir shares w)
          (eprintln {S = S} line)
          (λ a v. Written host laws dir shares v)
  eprintln-Written dir shares line =
      Written-other host laws dir shares _
        (λ s. eprintln-Fixes host _ (at_path_blind host laws (share_path dir s.index)) line)

  -- The recovery that was arranged.
  pub record Arranged (created : IdentityFile) (entropy audience dir : Bytes) (file : IdentityFile)
      (v : World S) : Type 0 where
    pub shares : List ShareFile
    pub root : Bytes
    pub split : IsSplit host entropy audience shares root
    pub is : file ≡ recorded created shares root
    pub written : Written host laws dir shares v

  arrange_recovery-Arranged :
      (created : IdentityFile) (entropy audience dir : Bytes)
      → Hoare
          (λ w. Unit {0})
          (arrange_recovery host false created entropy audience dir)
          (λ file v. Arranged created entropy audience dir file v)
  unfolding arrange_recovery
  arrange_recovery-Arranged created entropy audience dir =
      Hoare-bind _ _ (split-IsSplit host entropy audience) λ p. Hoare-bind _ _ (Hoare-keep _) λ _.
        Hoare-bind _ _
          (Hoare-from _ (λ (s : IsSplit host entropy audience p.0 p.1).
            write_shares-Written host laws dir p.0 (paths dir entropy audience p.0 p.1 s)))
          λ _. Hoare-bind _ _ (Hoare-under _ (eprintln-Written dir p.0 _)) λ _.
            Hoare-pure _
              (λ w h. record { shares = p.0; root = p.1; split = h.1; is = refl; written = h.0 })

  Arranged-other :
      {A : Type 0} (created : IdentityFile) (entropy audience dir : Bytes) (file : IdentityFile)
      (m : Action S A)
      → ((s : ShareFile) → Fixes (at_path host laws (share_path dir s.index)) m)
      → Hoare
          (λ w. Arranged created entropy audience dir file w)
          m
          (λ a v. Arranged created entropy audience dir file v)
  Arranged-other created entropy audience dir file m h = record {
    at = λ w v a p e. record {
      shares = p.shares;
      root = p.root;
      split = p.split;
      is = p.is;
      written = (Written-other host laws dir p.shares m h).at w v a p.written e;
    };
  }

  -- The shares and the file are in place.
  abbrev InPlace : IdentityFile → Bytes → Bytes → Bytes → IdentityFile → Bytes → World S → Type 0
  InPlace created entropy audience dir file out v =
      Arranged created entropy audience dir file v
      × Holds host laws (host.identity_file_json file) out v

  InPlace-other :
      {A : Type 0} {K : Type 0} (created : IdentityFile) (entropy audience dir : Bytes)
      (file : IdentityFile) (out : Bytes) (m : Action S A)
      → ((q : Bytes) → Fixes (at_path host laws q) m)
      → Hoare
          (λ w. InPlace created entropy audience dir file out w × K)
          m
          (λ a v. InPlace created entropy audience dir file out v × K)
  InPlace-other created entropy audience dir file out m h = Hoare-under m (
      Hoare-both m
        (Arranged-other created entropy audience dir file m (λ s. h (share_path dir s.index)))
        (Holds-Fixes host laws _ out m (h out)))

  write_identity-InPlace :
      {K : Type 0} (created : IdentityFile) (entropy audience dir : Bytes) (file : IdentityFile)
      (out : Bytes)
      → ((n : ℕ) → share_path dir n ≢ out)
      → Hoare
          (λ w. Arranged created entropy audience dir file w × K)
          (write_identity host file out)
          (λ a v. InPlace created entropy audience dir file out v × K)
  unfolding write_identity
  write_identity-InPlace created entropy audience dir file out apart = Hoare-under _ (
      Hoare-change _ (λ w p. (p, tt)) (λ a v p. p)
        (Hoare-both _
          (Arranged-other created entropy audience dir file _ (λ s.
            written_elsewhere host laws (host.identity_file_json file) out (share_path dir s.index)
              (λ e. apart s.index (sym e))))
          (held_text host laws (host.identity_file_json file) out)))

  eprintln-at_path : (line q : Bytes) → Fixes (at_path host laws q) (eprintln {S = S} line)
  eprintln-at_path line q = eprintln-Fixes host _ (at_path_blind host laws q) line

  -- What `new` has left: the passphrase that it read, an identity file sealed under it from fresh
  -- entropy, its shares at their paths, and at the path `out` the file with their root on record.
  pub record Created (audience out passphrase_file dir : Bytes) (w v : World S) : Type 0 where
    pub passphrase : Bytes
    pub read : (read_passphrase host passphrase_file w).0 ≡ returned passphrase
    pub entropy : Bytes
    pub file : IdentityFile
    pub made : IsMade host audience passphrase entropy file
    pub shares : List ShareFile
    pub root : Bytes
    pub split : IsSplit host entropy audience shares root
    pub written : Written host laws dir shares v
    pub held : Holds host laws (host.identity_file_json (recorded file shares root)) out v

  read_passphrase-here :
      (path : Bytes) (w : World S)
      → Hoare
          (λ u. u ≡ w)
          (read_passphrase host path)
          (λ passphrase v. (read_passphrase host path w).0 ≡ returned passphrase)
  read_passphrase-here path w = record {
    at = λ u v passphrase p e.
        ap (λ (u' : World S). (read_passphrase host path u').0) (sym p)
        ∙ ap (λ (o : Exit Bytes × World S). o.0) e;
  }

  run_new_from :
      (audience out passphrase_file dir : Bytes) (w : World S)
      → ((n : ℕ) → share_path dir n ≢ out)
      → Hoare
          (λ u. u ≡ w)
          (run_new host audience out passphrase_file dir false)
          (λ a v. Created audience out passphrase_file dir w v)
  unfolding run_new
  run_new_from audience out passphrase_file dir w apart =
      Hoare-bind _ _ (read_passphrase-here passphrase_file w) λ passphrase.
        Hoare-bind _ _ (Hoare-from _ (λ _. create-IsMade host audience passphrase)) λ p.
          Hoare-bind _ _ (Hoare-from _ (λ _. arrange_recovery-Arranged p.0 p.1 audience dir))
            λ file. Hoare-bind _ _ (write_identity-InPlace p.0 p.1 audience dir file out apart) λ _.
              Hoare-bind _ _ (InPlace-other p.0 p.1 audience dir file out _ (eprintln-at_path _))
                λ _.
                  Hoare-bind _ _ (InPlace-other p.0 p.1 audience dir file out _ (λ q. Fixes-lift _))
                    λ name.
                      Hoare-change _ (λ u h. h)
                        (λ a u h. record {
                          passphrase = passphrase;
                          read = h.1.1;
                          entropy = p.1;
                          file = p.0;
                          made = h.1.0;
                          shares = h.0.0.shares;
                          root = h.0.0.root;
                          split = h.0.0.split;
                          written = h.0.0.written;
                          held =
                              subst
                                (λ (f : IdentityFile).
                                  Holds host laws (host.identity_file_json f) out u)
                                h.0.0.is h.0.1;
                        })
                        (InPlace-other p.0 p.1 audience dir file out _ (eprintln-at_path _))

  -- If `new` returns, with recovery, it has read a passphrase and made an identity file from fresh
  -- entropy, sealed under this passphrase; it has split the entropy into shares, each of which is read
  -- back at its own path; and at the path `out` is the text of that identity file with the shares' root,
  -- their number and the threshold of three on record. The path of the identity file is not that of a
  -- share, a write is read back and leaves other paths alone, and the shares of a split have indices
  -- that differ and fit a byte.
  pub run_new-Created :
      (audience out passphrase_file dir : Bytes) (w v : World S)
      → ((n : ℕ) → share_path dir n ≢ out)
      → run_new host audience out passphrase_file dir false w ≡ (returned tt, v)
      → Created audience out passphrase_file dir w v
  run_new-Created audience out passphrase_file dir w v apart e =
      (run_new_from audience out passphrase_file dir w apart).at w v tt refl e
