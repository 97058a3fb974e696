-- ===== src/Cli/Run/Statements.antt =====
-- crates/aethel-auth-cli/src/main.rs: what a command that signs prints.
use aethel_runtime.Base.{ℕ, ◌≡◌, refl, subst, Option, none, some}
use aethel_runtime.Base.Bytes.{Bytes}
use aethel_runtime.Auth.Delegation.{Bounds}
use aethel_runtime.Cli.Host.{
  Host, login_proof, step_up_proof, delegated, revoked, succeeded, IdentityFile, Command, new, show,
  login, step_up, delegate, revoke, succeed, recover,
}
use aethel_runtime.Cli.Action.{World, returned}
use aethel_runtime.Cli.Action.Keeps.{Fixes-now}
use aethel_runtime.Cli.Action.Steps.{
  Hoare, Hoare-bind, Hoare-lift, Hoare-or_panic, Hoare-refuse_if, Hoare-change,
}
use aethel_runtime.Cli.Run.{
  run_login, run_step_up, run_delegate, revoke_subject, run_revoke, run_succeed,
}
use aethel_runtime.Cli.Run.Command.{run}
use aethel_runtime.Cli.Run.Quiet.{eprintln-Fixes, fill_bytes-Fixes, announce_actions-Fixes}
use aethel_runtime.Cli.Run.Signed.{
  step_up-By, login-By, delegate_to-By, revoke_self-By, revoke_as_authority-By, name_successor-By,
}
use aethel_runtime.Cli.Run.Printing.{
  Printed, stdout_blind, quiet, emit-Printed, Opened, open_identity-Opened,
}

-- The path of the identity file that a signing command is given.
abbrev pub signs_with : Command → Option Bytes
signs_with (login identity passphrase_file valid_for) = some identity
signs_with (step_up identity passphrase_file digest says valid_for) = some identity
signs_with (delegate identity passphrase_file to actions per total window above valid_for) =
    some identity
signs_with (revoke identity passphrase_file subject) = some identity
signs_with (succeed identity passphrase_file to) = some identity
signs_with c = none

module _ {E I S : Type 0} (host : Host E I S) where
  run_login-Printed :
      (path passphrase_file : Bytes) (valid_for : ℕ) (w : World S)
      → Hoare
          (λ u. u ≡ w)
          (run_login host path passphrase_file valid_for)
          (λ a v. Printed host path w v)
  unfolding run_login
  run_login-Printed path passphrase_file valid_for w =
      Hoare-bind _ _ (open_identity-Opened host path passphrase_file w) λ p.
        Hoare-bind _ _
          (quiet host w.stdout (fill_bytes-Fixes host World.stdout (stdout_blind host) 32))
          λ nonce. Hoare-bind _ _ (quiet host w.stdout Fixes-now) λ time.
            Hoare-bind _ _ (Hoare-or_panic _) λ proof.
              Hoare-change _
                (λ u h. (
                  (
                    login-By host p.0 p.1 nonce time valid_for proof h.1.1.published h.0,
                    h.1.1.read,
                  ),
                  h.1.0,
                ))
                (λ a v h. h) (emit-Printed host path w p.0 (login_proof proof))

  run_step_up-Printed :
      (path passphrase_file digest says : Bytes) (valid_for : ℕ) (w : World S)
      → Hoare
          (λ u. u ≡ w)
          (run_step_up host path passphrase_file digest says valid_for)
          (λ a v. Printed host path w v)
  unfolding run_step_up
  run_step_up-Printed path passphrase_file digest_hex says valid_for w =
      Hoare-bind _ _ (Hoare-lift _) λ digest. Hoare-bind _ _ (Hoare-refuse_if _ _) λ _.
        Hoare-bind _ _
          (Hoare-change _ (λ u h. h.1.1) (λ a v h. h)
            (open_identity-Opened host path passphrase_file w))
          λ p.
            Hoare-bind _ _
              (quiet host w.stdout (eprintln-Fixes host World.stdout (stdout_blind host) _))
              λ _.
                Hoare-bind _ _
                  (quiet host w.stdout (fill_bytes-Fixes host World.stdout (stdout_blind host) 32))
                  λ nonce. Hoare-bind _ _ (quiet host w.stdout Fixes-now) λ time.
                    Hoare-bind _ _ (Hoare-or_panic _) λ proof.
                      Hoare-change _
                        (λ u h. (
                          (
                            step_up-By host p.0 p.1 nonce time valid_for digest proof
                                h.1.1.published h.0,
                            h.1.1.read,
                          ),
                          h.1.0,
                        ))
                        (λ a v h. h) (emit-Printed host path w p.0 (step_up_proof proof))

  run_delegate-Printed :
      (path passphrase_file to : Bytes) (bounds : Bounds) (valid_for : ℕ) (w : World S)
      → Hoare
          (λ u. u ≡ w)
          (run_delegate host path passphrase_file to bounds valid_for)
          (λ a v. Printed host path w v)
  unfolding run_delegate
  run_delegate-Printed path passphrase_file to bounds valid_for w =
      Hoare-bind _ _ (Hoare-refuse_if _ _) λ _. Hoare-bind _ _ (Hoare-refuse_if _ _) λ _.
        Hoare-bind _ _ (Hoare-lift _) λ key.
          Hoare-bind _ _
            (Hoare-change _ (λ u h. h.1.1.1) (λ a v h. h)
              (open_identity-Opened host path passphrase_file w))
            λ p.
              Hoare-bind _ _
                (quiet host w.stdout (eprintln-Fixes host World.stdout (stdout_blind host) _))
                λ _.
                  Hoare-bind _ _
                    (quiet host w.stdout
                      (announce_actions-Fixes host World.stdout (stdout_blind host) bounds.actions))
                    λ _. Hoare-bind _ _ (quiet host w.stdout Fixes-now) λ time.
                      Hoare-bind _ _ (Hoare-or_panic _) λ d.
                        Hoare-change _
                          (λ u h. (
                            (
                              delegate_to-By host p.0 p.1 key bounds _ _ d h.1.1.published h.0,
                              h.1.1.read,
                            ),
                            h.1.0,
                          ))
                          (λ a v h. h) (emit-Printed host path w p.0 (delegated d))

  revoke_subject-Printed :
      (subject : Option Bytes) (path : Bytes) (w : World S) (p : IdentityFile × I)
      → Hoare
          (λ u. (u.stdout ≡ w.stdout) × Opened host path w p.0 p.1)
          (revoke_subject host subject p.0 p.1)
          (λ a v. Printed host path w v)
  unfolding revoke_subject
  revoke_subject-Printed none path w p = Hoare-bind _ _ (quiet host w.stdout Fixes-now) λ time.
      Hoare-bind _ _ (Hoare-or_panic _) λ r.
        Hoare-change _
          (λ u h. ((revoke_self-By host p.0 p.1 time r h.1.1.published h.0, h.1.1.read), h.1.0))
          (λ a v h. h) (emit-Printed host path w p.0 (revoked r))
  revoke_subject-Printed (some hex_key) path w p = Hoare-bind _ _ (Hoare-lift _) λ subject.
      Hoare-bind _ _ (Hoare-change _ (λ u h. h.1) (λ a v h. h) (quiet host w.stdout Fixes-now))
        λ time. Hoare-bind _ _ (Hoare-or_panic _) λ r.
          Hoare-change _
            (λ u h. (
              (revoke_as_authority-By host p.0 p.1 subject time r h.1.1.published h.0, h.1.1.read),
              h.1.0,
            ))
            (λ a v h. h) (emit-Printed host path w p.0 (revoked r))

  run_revoke-Printed :
      (path passphrase_file : Bytes) (subject : Option Bytes) (w : World S)
      → Hoare
          (λ u. u ≡ w)
          (run_revoke host path passphrase_file subject)
          (λ a v. Printed host path w v)
  unfolding run_revoke
  run_revoke-Printed path passphrase_file subject w =
      Hoare-bind _ _ (open_identity-Opened host path passphrase_file w)
        λ p. revoke_subject-Printed subject path w p

  run_succeed-Printed :
      (path passphrase_file to : Bytes) (w : World S)
      → Hoare (λ u. u ≡ w) (run_succeed host path passphrase_file to) (λ a v. Printed host path w v)
  unfolding run_succeed
  run_succeed-Printed path passphrase_file to w = Hoare-bind _ _ (Hoare-lift _) λ key.
      Hoare-bind _ _
        (Hoare-change _ (λ u h. h.1) (λ a v h. h)
          (open_identity-Opened host path passphrase_file w))
        λ p. Hoare-bind _ _ (quiet host w.stdout Fixes-now) λ time.
          Hoare-bind _ _ (Hoare-or_panic _) λ s.
            Hoare-change _
              (λ u h. (
                (name_successor-By host p.0 p.1 key time s h.1.1.published h.0, h.1.1.read),
                h.1.0,
              ))
              (λ a v h. h) (emit-Printed host path w p.0 (succeeded s))

  -- A signing command that returns has printed exactly one line, and it is the text of a statement at
  -- the audience of the identity file that it was given, in the name of the key that this file publishes,
  -- with the signature that the identity of this key gives for the statement's bytes under the purpose
  -- of its kind.
  pub run-Printed :
      (c : Command) (path : Bytes) (w v : World S)
      → signs_with c ≡ some path
      → run host c w ≡ (returned tt, v)
      → Printed host path w v
  unfolding run
  run-Printed (login identity passphrase_file valid_for) path w v h e =
      subst (λ (q : Bytes). Printed host q w v) (cc)
        ((run_login-Printed identity passphrase_file valid_for w).at w v tt refl e)
  run-Printed (step_up identity passphrase_file digest says valid_for) path w v h e =
      subst (λ (q : Bytes). Printed host q w v) (cc)
        ((run_step_up-Printed identity passphrase_file digest says valid_for w).at w v tt refl e)
  run-Printed (delegate identity passphrase_file to actions per total window above valid_for) path w
        v h e =
      subst (λ (q : Bytes). Printed host q w v) (cc)
        ((run_delegate-Printed identity passphrase_file to _ valid_for w).at w v tt refl e)
  run-Printed (revoke identity passphrase_file subject) path w v h e =
      subst (λ (q : Bytes). Printed host q w v) (cc)
        ((run_revoke-Printed identity passphrase_file subject w).at w v tt refl e)
  run-Printed (succeed identity passphrase_file to) path w v h e =
      subst (λ (q : Bytes). Printed host q w v) (cc)
        ((run_succeed-Printed identity passphrase_file to w).at w v tt refl e)
  run-Printed (new audience out passphrase_file dir skip) path w v h e = absurd (cc)
  run-Printed (show identity) path w v h e = absurd (cc)
  run-Printed (recover shares root audience out passphrase_file) path w v h e = absurd (cc)
