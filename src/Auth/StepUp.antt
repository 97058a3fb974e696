-- ===== src/Auth/StepUp.antt =====
-- crates/aethel-auth/src/proof.rs: the step-up, a proof of control bound to one action.
pub mod Layout
pub mod Verdict
use aethel_runtime.Base.{ℕ, not, ◌||◌, none, ◌++◌, is_empty, Result, ◌>>=◌, ◌>>◌, refuse_if}
use aethel_runtime.Base.Bytes.{Bytes, bytes_eq}
use aethel_runtime.Wire.{len_prefixed, to_be_bytes}
use aethel_runtime.Auth.Core.{Core}
use aethel_runtime.Auth.Error.{AuthError, action_mismatch, malformed, Exec, checked, returning}
use aethel_runtime.Auth.Nonce.{NonceStore}
use aethel_runtime.Auth.Envelope.{VerifyParams, check_envelope, check_signature, claim_nonce}
use aethel_runtime.Auth.Login.{AuthenticatedIdentity, proven, step_up}

pub record StepUpProof : Type 0 where
  pub public_key : Bytes
  pub audience : Bytes
  pub nonce : Bytes
  pub issued_at : ℕ
  pub expires_at : ℕ
  pub action_digest : Bytes
  pub signature : Bytes

unfoldable pub signing_input : StepUpProof → Bytes
unfolding len_prefixed to_be_bytes
signing_input p =
    len_prefixed p.audience
    ++ (to_be_bytes 8 p.issued_at
        ++ (to_be_bytes 8 p.expires_at ++ (len_prefixed p.nonce ++ len_prefixed p.action_digest)))

abbrev pub identity_of : StepUpProof → AuthenticatedIdentity
identity_of p = record {
  public_key = p.public_key;
  audience = p.audience;
  strength = proven;
  method = step_up;
  session_commitment = none;
}

module _ {E I : Type 0} (core : Core E I) where
  -- The checks of `verify_step_up` that need no store, in their order.
  unfoldable pub check_step_up : StepUpProof → VerifyParams → Bytes → Result AuthError (Unit {0})
  check_step_up p params expected = do
    refuse_if (is_empty p.public_key || is_empty p.signature) malformed
    check_envelope p.audience p.issued_at p.expires_at params
    refuse_if (not (bytes_eq p.action_digest expected)) action_mismatch
    check_signature core p.public_key core.auth_step_up_v1 (signing_input p) p.signature

module _ {E I S : Type 0} (core : Core E I) (ns : NonceStore S) where
  unfoldable pub verify_step_up : StepUpProof → VerifyParams → Bytes → Exec S AuthenticatedIdentity
  verify_step_up p params expected = checked (check_step_up core p params expected) (
      returning
        (claim_nonce core ns core.auth_step_up_v1 p.public_key p.nonce p.issued_at p.expires_at)
        (identity_of p))
