-- ===== src/Cli/Run/Making.antt =====
-- crates/aethel-auth-cli/src: what writing an identity file and share files leaves on disk.
use aethel_runtime.Base.{
  ℕ, ◌≡◌, refl, sym, ap, ◌∙◌, ◌≢◌, Option, some, List, [], ◌∷◌, Result, ok, err, map_err, ok_or,
}
use aethel_runtime.Base.Bytes.{Bytes, codes}
use aethel_runtime.Cli.Host.{io, crypto, ShareFile, Host}
use aethel_runtime.Cli.Laws.{Files}
use aethel_runtime.Cli.Action.{World, Exit, returned, exit, Action, lift, ◌>>=◌}
use aethel_runtime.Cli.Action.Keeps.{Fixes, Fixes-pure, Fixes-lift, Fixes-bind}
use aethel_runtime.Cli.Action.Steps.{
  Hoare, Hoare-bind, Hoare-lift, Hoare-both, Hoare-change, Hoare-keep, Hoare-under, Hoare-any,
  ok_or-ok,
}
use aethel_runtime.Cli.Passphrase.{write_bytes}
use aethel_runtime.Cli.Recovery.Disk.{write_share}
use aethel_runtime.Cli.Run.Command.{share_path, write_shares}

-- The path of no share is `q`.
abbrev pub Apart : Bytes → Bytes → List ShareFile → Type 0
Apart q dir [] = Unit
Apart q dir (s ∷ shares) = (share_path dir s.index ≢ q) × Apart q dir shares

-- No two shares have one path.
abbrev pub PathsDistinct : Bytes → List ShareFile → Type 0
PathsDistinct dir [] = Unit
PathsDistinct dir (s ∷ shares) =
    Apart (share_path dir s.index) dir shares × PathsDistinct dir shares

exit_io : {A : Type 0} (r : Result Bytes A) (a : A) → exit (map_err io r) ≡ returned a → r ≡ ok a
exit_io (ok b) a h = cc
exit_io (err e) a h = absurd (cc)

module _ {E I S : Type 0} (host : Host E I S) (files : Files host) where
  -- What a path holds.
  abbrev pub at_path : Bytes → World S → Result Bytes Bytes
  at_path q w = host.read w.fs q

  pub at_path_blind :
      (q : Bytes) (w : World S) (stdin : Result Bytes Bytes) (stderr : List Bytes) (drawn : ℕ)
      → at_path q (record w { stdin = stdin; stderr = stderr; drawn = drawn }) ≡ at_path q w
  at_path_blind q w stdin stderr drawn = refl

  write_bytes-read :
      (p text : Bytes)
      → Hoare (λ w. Unit {0}) (write_bytes host p text) (λ a v. at_path p v ≡ ok text)
  unfolding write_bytes
  write_bytes-read p text = record {
    at = λ w v a u e.
        let wrote : exit (map_err io (host.write w.fs p text).0) ≡ returned a =
          ap (λ (o : Exit (Unit {0}) × World S). o.0) e in
        ap (λ (o : Exit (Unit {0}) × World S). at_path p o.1) (sym e)
        ∙ files.read-write w.fs p text (exit_io (host.write w.fs p text).0 a wrote);
  }

  write_bytes-other : (p q text : Bytes) → p ≢ q → Fixes (at_path q) (write_bytes host p text)
  unfolding write_bytes
  write_bytes-other p q text apart = record { at = λ w. files.read-other w.fs p q text apart }

  -- A path holds a text.
  pub record Holds (encoded : Option Bytes) (path : Bytes) (v : World S) : Type 0 where
    pub text : Bytes
    pub encodes : encoded ≡ some text
    pub held : at_path path v ≡ ok text

  pub held_text :
      (encoded : Option Bytes) (p : Bytes)
      → Hoare
          (λ w. Unit {0})
          (lift (ok_or encoded (crypto (codes "encode"))) >>= λ text. write_bytes host p text)
          (λ a v. Holds encoded p v)
  held_text encoded p = Hoare-bind _ _ (Hoare-lift _) λ text.
      Hoare-change _ (λ w h. (tt, h.0))
        (λ a v h. record { text = text; encodes = ok_or-ok encoded _ text h.1; held = h.0 })
        (Hoare-under _ (write_bytes-read p text))

  pub written_elsewhere :
      (encoded : Option Bytes) (p q : Bytes)
      → p ≢ q
      → Fixes
          (at_path q)
          (lift (ok_or encoded (crypto (codes "encode"))) >>= λ text. write_bytes host p text)
  written_elsewhere encoded p q apart =
      Fixes-bind _ _ (Fixes-lift _) (λ text. write_bytes-other p q text apart)

  pub Holds-Fixes :
      {A : Type 0} (encoded : Option Bytes) (q : Bytes) (m : Action S A)
      → Fixes (at_path q) m
      → Hoare (λ w. Holds encoded q w) m (λ a v. Holds encoded q v)
  Holds-Fixes encoded q m h = record {
    at = λ w v a p e. record {
      text = p.text;
      encodes = p.encodes;
      held = ap (λ (o : Exit _ × World S). at_path q o.1) (sym e) ∙ (h.at w ∙ p.held);
    };
  }

  -- Every share is at its path.
  abbrev pub Written : Bytes → List ShareFile → World S → Type 0
  Written dir [] v = Unit
  Written dir (s ∷ shares) v =
      Holds (host.share_json s) (share_path dir s.index) v × Written dir shares v

  pub write_shares-other :
      (q dir : Bytes) (shares : List ShareFile)
      → Apart q dir shares
      → Fixes (at_path q) (write_shares host dir shares)
  unfolding write_shares write_share
  write_shares-other q dir [] h = Fixes-pure tt
  write_shares-other q dir (s ∷ shares) h =
      Fixes-bind _ _ (written_elsewhere (host.share_json s) _ q h.0)
        (λ _. write_shares-other q dir shares h.1)

  pub write_shares-Written :
      (dir : Bytes) (shares : List ShareFile)
      → PathsDistinct dir shares
      → Hoare (λ w. Unit {0}) (write_shares host dir shares) (λ a v. Written dir shares v)
  unfolding write_shares write_share
  write_shares-Written dir [] h = Hoare-any _
  write_shares-Written dir (s ∷ shares) h = Hoare-bind _ _ (held_text (host.share_json s) _) λ _.
      Hoare-change _ (λ w p. (p, tt)) (λ a v p. p)
        (Hoare-both _ (Holds-Fixes _ _ _ (write_shares-other _ dir shares h.0))
          (write_shares-Written dir shares h.1))

  -- The shares stay where they are when another path is written.
  pub Written-other :
      {A : Type 0} (dir : Bytes) (shares : List ShareFile) (m : Action S A)
      → ((s : ShareFile) → Fixes (at_path (share_path dir s.index)) m)
      → Hoare (λ w. Written dir shares w) m (λ a v. Written dir shares v)
  Written-other dir [] m h = Hoare-keep m
  Written-other dir (s ∷ shares) m h =
      Hoare-both m (Holds-Fixes _ _ m (h s)) (Written-other dir shares m h)
