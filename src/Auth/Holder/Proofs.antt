-- ===== src/Auth/Holder/Proofs.antt =====
-- The login proofs, step-ups and approvals that the holder builds, the verifier accepts.
use aethel_runtime.Base.{
  ℕ, ◌≡◌, refl, Bool, true, Option, none, some, List, [], saturating_add64, Result, ok,
}
use aethel_runtime.Base.Bytes.{Bytes}
use aethel_runtime.Auth.Core.{Core, Signs}
use aethel_runtime.Auth.Nonce.{NonceStore}
use aethel_runtime.Auth.Envelope.{VerifyParams, InEnvelope, nonce_key, nonce_retention}
use aethel_runtime.Auth.Login.{LoginProof, proven, login_proof, AuthMethod, verify_login_inner}
use aethel_runtime.Auth.Login
use aethel_runtime.Auth.Error.{StoreError}
use aethel_runtime.Auth.Login.Verdict.{login_by_claim}
use aethel_runtime.Auth.StepUp.{StepUpProof, verify_step_up}
use aethel_runtime.Auth.StepUp
use aethel_runtime.Auth.StepUp.Verdict.{step_up_by_claim}
use aethel_runtime.Auth.Delegation.{Delegation}
use aethel_runtime.Auth.Delegation
use aethel_runtime.Auth.Delegation.Verdict.{IsLive, Stands}
use aethel_runtime.Auth.Approval.{Approval, Request, auth_approval_v1, check_approval}
use aethel_runtime.Auth.Approval
use aethel_runtime.Auth.Approval.Verdict.{check_approval-accepts}
use aethel_runtime.Auth.Holder.{Holder, build_login, step_up, approve}

module _ {E I S : Type 0} (core : Core E I) (ns : NonceStore S) (h : Holder core) where
  -- The claim of a nonce that a statement of this holder makes, under a purpose.
  abbrev pub own_claim : Bytes → Bytes → ℕ → ℕ → S → Result StoreError Bool
  own_claim purpose nonce issued_at valid s =
      (ns.claim s (nonce_key core purpose (core.public_key h.identity) nonce)
        (nonce_retention issued_at (saturating_add64 issued_at valid))).0

  -- A login proof that a holder builds is accepted, with the proof's own identity, by a verifier of
  -- the holder's audience whose clock is in the window and which expects the same request digest, if
  -- the store grants the claim of its nonce. The holder's signer works under the login purpose.
  pub build_login-accepted :
      (nonce : Bytes) (issued_at valid : ℕ) (digest : Option Bytes) (params : VerifyParams) (s : S)
      → Signs core h.identity core.auth_login_v1
      → InEnvelope h.audience issued_at (saturating_add64 issued_at valid) params
      → own_claim core.auth_login_v1 nonce issued_at valid s ≡ ok true
      → (p : LoginProof) × (build_login core h nonce issued_at valid digest ≡ some p)
        × ((verify_login_inner core ns p params digest s).0
            ≡ ok (record {
              public_key = core.public_key h.identity;
              audience = h.audience;
              strength = proven;
              method = login_proof;
              session_commitment = none;
            }))
  unfolding build_login Login.signing_input
  build_login-accepted nonce issued_at valid digest params s signs window granted =
      let unsigned : LoginProof = record {
        public_key = core.public_key h.identity;
        audience = h.audience;
        nonce = nonce;
        issued_at = issued_at;
        expires_at = saturating_add64 issued_at valid;
        session_commitment = none;
        request_digest = digest;
        signature = [];
      } in
      let m = Login.signing_input unsigned in
      let p : LoginProof = record unsigned { signature = signs.signature_of m } in
      (
        p,
        rw (signs.signs m),
        (login_by_claim core ns p params digest s _).1 (
          record {
            key_present = signs.key_present;
            signature_present = signs.signature_present m;
            envelope = window;
            digest = refl;
            signed = signs.verifies m;
          },
          granted,
          refl,
        ),
      )

  -- A step-up that a holder builds for an action is accepted for that action, with the step-up's
  -- own identity, by a verifier of the holder's audience whose clock is in the window, if the
  -- store grants the claim of its nonce. The holder's signer works under the step-up purpose.
  pub step_up-accepted :
      (nonce : Bytes) (issued_at valid : ℕ) (action : Bytes) (params : VerifyParams) (s : S)
      → Signs core h.identity core.auth_step_up_v1
      → InEnvelope h.audience issued_at (saturating_add64 issued_at valid) params
      → own_claim core.auth_step_up_v1 nonce issued_at valid s ≡ ok true
      → (p : StepUpProof) × (step_up core h nonce issued_at valid action ≡ some p)
        × ((verify_step_up core ns p params action s).0
            ≡ ok (record {
              public_key = core.public_key h.identity;
              audience = h.audience;
              strength = proven;
              method = AuthMethod.step_up;
              session_commitment = none;
            }))
  unfolding step_up StepUp.signing_input
  step_up-accepted nonce issued_at valid action params s signs window granted =
      let unsigned : StepUpProof = record {
        public_key = core.public_key h.identity;
        audience = h.audience;
        nonce = nonce;
        issued_at = issued_at;
        expires_at = saturating_add64 issued_at valid;
        action_digest = action;
        signature = [];
      } in
      let m = StepUp.signing_input unsigned in
      let p : StepUpProof = record unsigned { signature = signs.signature_of m } in
      (
        p,
        rw (signs.signs m),
        (step_up_by_claim core ns p params action s _).1 (
          record {
            key_present = signs.key_present;
            signature_present = signs.signature_present m;
            envelope = window;
            action = refl;
            signed = signs.verifies m;
          },
          granted,
          refl,
        ),
      )

  -- An approval that the delegation's own principal builds for a request is accepted for that
  -- request, if the delegation stands and is live at the verifier, the verifier is of the holder's
  -- audience with a clock in the approval's window, and the store grants the claim of its nonce.
  -- The holder's signer works under the approval purpose.
  pub approve-accepted :
      (d : Delegation) (request : Request) (nonce : Bytes) (issued_at valid : ℕ)
      (params : VerifyParams) (principals : List Bytes) (is_revoked : Bytes → Bool) (s : S)
      → Signs core h.identity auth_approval_v1
      → core.public_key h.identity ≡ d.principal_key
      → Stands d principals is_revoked
      → IsLive core d params.expected_audience params.now
      → InEnvelope h.audience issued_at (saturating_add64 issued_at valid) params
      → own_claim auth_approval_v1 nonce issued_at valid s ≡ ok true
      → (a : Approval) × (approve core h d request.request_digest request.action request.amount
            nonce issued_at valid
          ≡ some a)
        × ((check_approval core ns d a params principals is_revoked request s).0 ≡ ok tt)
  unfolding approve Approval.signing_input
  approve-accepted d request nonce issued_at valid params principals is_revoked s signs own stands
        live window granted =
      let unsigned : Approval = record {
        principal_key = core.public_key h.identity;
        audience = h.audience;
        delegation_id = Delegation.delegation_id core d;
        request_digest = request.request_digest;
        action = request.action;
        amount = request.amount;
        nonce = nonce;
        issued_at = issued_at;
        expires_at = saturating_add64 issued_at valid;
        signature = [];
      } in
      let m = Approval.signing_input unsigned in
      let a : Approval = record unsigned { signature = signs.signature_of m } in
      (
        a,
        rw (signs.signs m),
        (check_approval-accepts core ns d a params principals is_revoked request s).1 (
          record {
            stands = stands;
            live = live;
            key_present = signs.key_present;
            signature_present = signs.signature_present m;
            by_principal = own;
            envelope = window;
            this_delegation = refl;
            this_request = refl;
            this_action = refl;
            this_amount = refl;
            signed = signs.verifies m;
          },
          granted,
        ),
      )
