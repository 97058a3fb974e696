-- ===== src/Auth/Holder.antt =====
-- crates/aethel-auth/src/holder.rs: producing statements. `none` is the panic of `expect` where
-- signing fails.
pub mod Proofs
pub mod Grants
use aethel_runtime.Base.{ℕ, Option, none, some, [], saturating_add64, Result, ok, err}
use aethel_runtime.Base.Bytes.{Bytes}
use aethel_runtime.Auth.Core.{Core}
use aethel_runtime.Auth.Login
use aethel_runtime.Auth.Login.{LoginProof}
use aethel_runtime.Auth.StepUp
use aethel_runtime.Auth.StepUp.{StepUpProof}
use aethel_runtime.Auth.Delegation
use aethel_runtime.Auth.Delegation.{Bounds, Delegation, delegation_id}
use aethel_runtime.Auth.Approval
use aethel_runtime.Auth.Approval.{Approval, auth_approval_v1}
use aethel_runtime.Auth.Statements.{
  Revocation, holder, authority, revocation_input, Succession, succession_input,
}

-- `.expect(..)` of a signature.
abbrev pub ok_or_panic : {E : Type 0} → Result E Bytes → Option Bytes
ok_or_panic (ok s) = some s
ok_or_panic (err e) = none

-- `proof.signature = self.sign(..); proof`
abbrev pub with_signature {ℓ} : {A : Type ℓ} → (Bytes → A) → Option Bytes → Option A
with_signature f none = none
with_signature f (some s) = some (f s)

module _ {E I : Type 0} (core : Core E I) where
  pub record Holder : Type 0 where
    pub identity : I
    pub audience : Bytes

  unfoldable pub sign : Holder → Bytes → Bytes → Option Bytes
  sign h purpose message = ok_or_panic (core.sign_with_purpose h.identity purpose message)

  unfoldable pub build_login : Holder → Bytes → ℕ → ℕ → Option Bytes → Option LoginProof
  unfolding sign
  build_login h nonce issued_at valid_for_secs request_digest =
      let unsigned : LoginProof = record {
        public_key = core.public_key h.identity;
        audience = h.audience;
        nonce = nonce;
        issued_at = issued_at;
        expires_at = saturating_add64 issued_at valid_for_secs;
        session_commitment = none;
        request_digest = request_digest;
        signature = [];
      } in
      with_signature (λ s. record unsigned { signature = s })
        (sign h core.auth_login_v1 (Login.signing_input unsigned))

  unfoldable pub login : Holder → Bytes → ℕ → ℕ → Option LoginProof
  unfolding build_login
  login h nonce issued_at valid_for_secs = build_login h nonce issued_at valid_for_secs none

  unfoldable pub login_for_request : Holder → Bytes → ℕ → ℕ → Bytes → Option LoginProof
  unfolding build_login
  login_for_request h nonce issued_at valid_for_secs digest =
      build_login h nonce issued_at valid_for_secs (some digest)

  unfoldable pub step_up : Holder → Bytes → ℕ → ℕ → Bytes → Option StepUpProof
  unfolding sign
  step_up h nonce issued_at valid_for_secs action_digest =
      let unsigned : StepUpProof = record {
        public_key = core.public_key h.identity;
        audience = h.audience;
        nonce = nonce;
        issued_at = issued_at;
        expires_at = saturating_add64 issued_at valid_for_secs;
        action_digest = action_digest;
        signature = [];
      } in
      with_signature (λ s. record unsigned { signature = s })
        (sign h core.auth_step_up_v1 (StepUp.signing_input unsigned))

  unfoldable pub approve : Holder → Delegation → Bytes → Bytes → ℕ → Bytes → ℕ → ℕ → Option Approval
  unfolding sign
  approve h d request_digest action amount nonce issued_at valid_for_secs =
      let unsigned : Approval = record {
        principal_key = core.public_key h.identity;
        audience = h.audience;
        delegation_id = delegation_id core d;
        request_digest = request_digest;
        action = action;
        amount = amount;
        nonce = nonce;
        issued_at = issued_at;
        expires_at = saturating_add64 issued_at valid_for_secs;
        signature = [];
      } in
      with_signature (λ s. record unsigned { signature = s })
        (sign h auth_approval_v1 (Approval.signing_input unsigned))

  unfoldable pub delegate_to : Holder → Bytes → Bounds → ℕ → ℕ → Option Delegation
  unfolding sign
  delegate_to h delegate_key bounds not_before expires_at =
      let unsigned : Delegation = record {
        principal_key = core.public_key h.identity;
        delegate_key = delegate_key;
        audience = h.audience;
        bounds = bounds;
        not_before = not_before;
        expires_at = expires_at;
        signature = [];
      } in
      with_signature (λ s. record unsigned { signature = s })
        (sign h core.auth_delegation_v1 (Delegation.signing_input unsigned))

  unfoldable pub revoke_self : Holder → ℕ → Option Revocation
  unfolding sign
  revoke_self h issued_at =
      let unsigned : Revocation = record {
        subject_key = core.public_key h.identity;
        signer_key = core.public_key h.identity;
        by = holder;
        audience = h.audience;
        issued_at = issued_at;
        signature = [];
      } in
      with_signature (λ s. record unsigned { signature = s })
        (sign h core.auth_revocation_v1 (revocation_input unsigned))

  unfoldable pub name_successor : Holder → Bytes → ℕ → Option Succession
  unfolding sign
  name_successor h to_key issued_at =
      let unsigned : Succession = record {
        from_key = core.public_key h.identity;
        to_key = to_key;
        audience = h.audience;
        issued_at = issued_at;
        signature = [];
      } in
      with_signature (λ s. record unsigned { signature = s })
        (sign h core.auth_succession_v1 (succession_input unsigned))

  unfoldable pub revoke_as_authority : I → Bytes → Bytes → ℕ → Option Revocation
  revoke_as_authority signer subject_key audience issued_at =
      let unsigned : Revocation = record {
        subject_key = subject_key;
        signer_key = core.public_key signer;
        by = authority;
        audience = audience;
        issued_at = issued_at;
        signature = [];
      } in
      with_signature (λ s. record unsigned { signature = s })
        (ok_or_panic
          (core.sign_with_purpose signer core.auth_revocation_v1 (revocation_input unsigned)))
