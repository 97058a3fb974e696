-- ===== src/Cli/Run/Login.antt =====
-- crates/aethel-auth-cli/src/main.rs with crates/aethel-auth/src: a login that the tool prints is one
-- that a relying party accepts.
use aethel_runtime.Base.{ℕ, suc, ◌≡◌, refl, true, none, some, [], ◌∷◌, ◌++◌, saturating_add64, ok}
use aethel_runtime.Base.Bytes.{Bytes}
use aethel_runtime.Auth.Core.{Signs}
use aethel_runtime.Auth.Nonce.{NonceStore}
use aethel_runtime.Auth.Envelope.{VerifyParams, InEnvelope}
use aethel_runtime.Auth.Login.{LoginProof, proven, AuthMethod, verify_login}
use aethel_runtime.Auth.Holder.{Holder}
use aethel_runtime.Auth.Holder
use aethel_runtime.Auth.Holder.Proofs.{own_claim, build_login-accepted}
use aethel_runtime.Cli.Host.{Host, Statement, login_proof, IdentityFile}
use aethel_runtime.Cli.Action.{World, returned, ◌>>=◌, continue, lift, or_panic, println, now}
use aethel_runtime.Cli.Passphrase.{fill_bytes}
use aethel_runtime.Cli.Run.{open_identity, emit, holder_of, run_login}

module _ {E I S N : Type 0} (host : Host E I S) (ns : NonceStore N) where
  -- Where the tool opens an identity whose signer works under the login purpose, `login` returns; it
  -- appends one line to the standard output, a login proof's text, and draws one nonce, and leaves all
  -- else as it is; and the relying party at the file's audience accepts this proof, as
  -- proven by a login proof of the file's key at the file's audience, if its clock is in the proof's window and its store grants the claim of the nonce. The
  -- proof's text is what `serde_json` gives.
  pub run_login-accepted :
      (path passphrase_file : Bytes) (valid_for : ℕ) (w u : World S) (file : IdentityFile) (id : I)
      (encode : Statement → Bytes) (params : VerifyParams) (s : N)
      → open_identity host path passphrase_file w ≡ (returned (file, id), u)
      → Signs host.core id host.core.auth_login_v1
      → InEnvelope file.audience u.clock (saturating_add64 u.clock valid_for) params
      → own_claim host.core ns
          (holder_of host file id)
          host.core.auth_login_v1
          (host.os_rng u.drawn 32)
          u.clock
          valid_for
          s
        ≡ ok true
      → ((v : Statement) → host.statement_json v ≡ some (encode v))
      → (p : LoginProof) × (run_login host path passphrase_file valid_for w ≡ (
        returned tt,
        record u { drawn = suc u.drawn; stdout = u.stdout ++ (encode (login_proof p) ∷ []) },
      ))
        × ((verify_login host.core ns p params s).0
            ≡ ok (record {
              public_key = host.core.public_key id;
              audience = file.audience;
              strength = proven;
              method = AuthMethod.login_proof;
              session_commitment = none;
            }))
  unfolding run_login emit fill_bytes println now lift or_panic ◌>>=◌ continue Holder.login
      verify_login
  run_login-accepted path passphrase_file valid_for w u file id encode params s opened signs window
        granted encodes =
      let (p, made, accepted) =
        build_login-accepted host.core ns (holder_of host file id) (host.os_rng u.drawn 32) u.clock
          valid_for none params s signs window granted in
      (p, rw (opened, made, encodes (login_proof p)) refl, accepted)
