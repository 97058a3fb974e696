-- ===== src/Auth/Login.antt =====
-- crates/aethel-auth/src/proof.rs: the login proof, its signed bytes and its verification.
pub mod Layout
pub mod Verdict
use aethel_runtime.Base.{
  ℕ, not, ◌||◌, Option, none, some, [], ◌++◌, is_empty, Result, ok, err, ◌>>=◌, ◌>>◌, refuse_if,
}
use aethel_runtime.Base.Bytes.{Bytes, bytes_eq}
use aethel_runtime.Wire.{len_prefixed, to_be_bytes}
use aethel_runtime.Auth.Core.{Core}
use aethel_runtime.Auth.Error.{
  AuthError, request_mismatch, request_digest_not_checked, malformed, Exec, checked, returning,
}
use aethel_runtime.Auth.Nonce.{NonceStore}
use aethel_runtime.Auth.Envelope.{VerifyParams, check_envelope, check_signature, claim_nonce}

pub data AuthStrength : Type 0 where
  proven claimed : AuthStrength

pub data AuthMethod : Type 0 where
  login_proof step_up : AuthMethod

pub record AuthenticatedIdentity : Type 0 where
  pub public_key : Bytes
  pub audience : Bytes
  pub strength : AuthStrength
  pub method : AuthMethod
  pub session_commitment : Option Bytes

pub record LoginProof : Type 0 where
  pub public_key : Bytes
  pub audience : Bytes
  pub nonce : Bytes
  pub issued_at : ℕ
  pub expires_at : ℕ
  pub session_commitment : Option Bytes
  pub request_digest : Option Bytes
  pub signature : Bytes

-- An absent commitment is framed as the empty field.
abbrev pub commitment_bytes : Option Bytes → Bytes
commitment_bytes none = []
commitment_bytes (some c) = c

-- An absent digest adds nothing.
abbrev pub digest_bytes : Option Bytes → Bytes
digest_bytes none = []
digest_bytes (some d) = len_prefixed d

unfoldable pub signing_input : LoginProof → Bytes
unfolding len_prefixed to_be_bytes
signing_input p =
    len_prefixed p.audience
    ++ (to_be_bytes 8 p.issued_at
        ++ (to_be_bytes 8 p.expires_at
            ++ (len_prefixed p.nonce
                ++ (len_prefixed (commitment_bytes p.session_commitment)
                    ++ digest_bytes p.request_digest))))

-- The match on the expected digest and the proof's.
unfoldable pub check_request_digest : Option Bytes → Option Bytes → Result AuthError (Unit {0})
check_request_digest none none = ok tt
check_request_digest none (some signed) = err request_digest_not_checked
check_request_digest (some expected) none = err request_mismatch
check_request_digest (some expected) (some signed) =
    refuse_if (not (bytes_eq signed expected)) request_mismatch

abbrev pub identity_of : LoginProof → AuthenticatedIdentity
identity_of p = record {
  public_key = p.public_key;
  audience = p.audience;
  strength = proven;
  method = login_proof;
  session_commitment = p.session_commitment;
}

module _ {E I : Type 0} (core : Core E I) where
  -- The checks of `verify_login_inner` that need no store, in their order.
  unfoldable pub check_login :
      LoginProof → VerifyParams → Option Bytes → Result AuthError (Unit {0})
  unfolding check_request_digest
  check_login p params expected = do
    refuse_if (is_empty p.public_key || is_empty p.signature) malformed
    check_envelope p.audience p.issued_at p.expires_at params
    check_request_digest expected p.request_digest
    check_signature core p.public_key core.auth_login_v1 (signing_input p) p.signature

module _ {E I S : Type 0} (core : Core E I) (ns : NonceStore S) where
  unfoldable pub verify_login_inner :
      LoginProof → VerifyParams → Option Bytes → Exec S AuthenticatedIdentity
  verify_login_inner p params expected = checked (check_login core p params expected) (
      returning
        (claim_nonce core ns core.auth_login_v1 p.public_key p.nonce p.issued_at p.expires_at)
        (identity_of p))

  unfoldable pub verify_login : LoginProof → VerifyParams → Exec S AuthenticatedIdentity
  unfolding verify_login_inner
  verify_login p params = verify_login_inner p params none

  unfoldable pub verify_login_for_request :
      LoginProof → VerifyParams → Bytes → Exec S AuthenticatedIdentity
  unfolding verify_login_inner
  verify_login_for_request p params digest = verify_login_inner p params (some digest)
