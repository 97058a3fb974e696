-- ===== src/Auth/Statements.antt =====
-- crates/aethel-auth/src/statements.rs: succession and revocation.
pub mod Layout
pub mod Verdict
use aethel_runtime.Base.{
  ℕ, not, ◌||◌, List, ◌∷◌, ◌++◌, is_empty, Result, ok, ◌>>=◌, ◌>>◌, refuse_if,
}
use aethel_runtime.Base.Bytes.{Bytes, bytes_eq, contains}
use aethel_runtime.Wire.{len_prefixed, to_be_bytes}
use aethel_runtime.Auth.Core.{Core}
use aethel_runtime.Auth.Error.{AuthError, audience_mismatch, not_authorised, malformed}
use aethel_runtime.Auth.Envelope.{check_signature}

pub data RevokedBy : Type 0 where
  holder authority : RevokedBy

pub record Revocation : Type 0 where
  pub subject_key : Bytes
  pub signer_key : Bytes
  pub by : RevokedBy
  pub audience : Bytes
  pub issued_at : ℕ
  pub signature : Bytes

abbrev pub by_tag : RevokedBy → ℕ
by_tag holder = 0
by_tag authority = 1

unfoldable pub revocation_input : Revocation → Bytes
unfolding len_prefixed to_be_bytes
revocation_input r =
    len_prefixed r.subject_key
    ++ (len_prefixed r.audience ++ (by_tag r.by ∷ to_be_bytes 8 r.issued_at))

pub record Succession : Type 0 where
  pub from_key : Bytes
  pub to_key : Bytes
  pub audience : Bytes
  pub issued_at : ℕ
  pub signature : Bytes

unfoldable pub succession_input : Succession → Bytes
unfolding len_prefixed to_be_bytes
succession_input s =
    len_prefixed s.from_key
    ++ (len_prefixed s.to_key ++ (len_prefixed s.audience ++ to_be_bytes 8 s.issued_at))

-- The match on who revokes.
unfoldable pub check_signer : RevokedBy → Revocation → List Bytes → Result AuthError (Unit {0})
unfolding contains
check_signer holder r authority_keys =
    refuse_if (not (bytes_eq r.signer_key r.subject_key)) not_authorised
check_signer authority r authority_keys =
    refuse_if (not (contains authority_keys r.signer_key)) not_authorised

module _ {E I : Type 0} (core : Core E I) where
  unfoldable pub verify_revocation : Revocation → Bytes → List Bytes → Result AuthError (Unit {0})
  unfolding check_signer
  verify_revocation r expected_audience authority_keys = do
    refuse_if
        (is_empty r.subject_key
          || is_empty r.signer_key
          || is_empty r.signature
          || is_empty r.audience)
        malformed
    refuse_if (not (bytes_eq r.audience expected_audience)) audience_mismatch
    check_signer r.by r authority_keys
    check_signature core r.signer_key core.auth_revocation_v1 (revocation_input r) r.signature

  unfoldable pub verify_succession : Succession → Bytes → Result AuthError (Unit {0})
  verify_succession s expected_audience = do
    refuse_if
        (is_empty s.from_key || is_empty s.to_key || is_empty s.signature || is_empty s.audience)
        malformed
    refuse_if (not (bytes_eq s.audience expected_audience)) audience_mismatch
    refuse_if (bytes_eq s.from_key s.to_key) malformed
    check_signature core s.from_key core.auth_succession_v1 (succession_input s) s.signature

  unfoldable pub retired_key : Succession → Bytes → Result AuthError Bytes
  unfolding verify_succession
  retired_key s expected_audience = do verify_succession s expected_audience; ok s.from_key
