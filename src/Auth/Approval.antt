-- ===== src/Auth/Approval.antt =====
-- crates/aethel-auth/src/approval.rs: the principal's approval of one request under one delegation.
pub mod Layout
pub mod Verdict
use aethel_runtime.Base.{
  ℕ, Bool, not, ◌&&◌, ◌||◌, List, ◌++◌, ◌==◌, is_empty, Result, ◌>>=◌, ◌>>◌, refuse_if,
}
use aethel_runtime.Base.Bytes.{codes, Bytes, bytes_eq}
use aethel_runtime.Wire.{len_prefixed, to_be_bytes}
use aethel_runtime.Auth.Core.{Core}
use aethel_runtime.Auth.Error.{AuthError, action_mismatch, malformed, not_authorised, Exec, checked}
use aethel_runtime.Auth.Nonce.{NonceStore}
use aethel_runtime.Auth.Envelope.{VerifyParams, check_envelope, check_signature, claim_nonce}
use aethel_runtime.Auth.Delegation.{Delegation, delegation_id, verify_delegation, check_standing}

abbrev pub auth_approval_v1 : Bytes
auth_approval_v1 = codes "aethel-auth/approval/v1"

pub record Approval : Type 0 where
  pub principal_key : Bytes
  pub audience : Bytes
  pub delegation_id : Bytes
  pub request_digest : Bytes
  pub action : Bytes
  pub amount : ℕ
  pub nonce : Bytes
  pub issued_at : ℕ
  pub expires_at : ℕ
  pub signature : Bytes

unfoldable pub signing_input : Approval → Bytes
unfolding len_prefixed to_be_bytes
signing_input a =
    len_prefixed a.audience
    ++ (to_be_bytes 8 a.issued_at
        ++ (to_be_bytes 8 a.expires_at
            ++ (len_prefixed a.nonce
                ++ (len_prefixed a.delegation_id
                    ++ (len_prefixed a.request_digest
                        ++ (len_prefixed a.action ++ to_be_bytes 16 a.amount))))))

-- What the relying party is about to perform, computed from the request that it received.
pub record Request : Type 0 where
  pub request_digest : Bytes
  pub action : Bytes
  pub amount : ℕ

module _ {E I : Type 0} (core : Core E I) where
  -- The checks of `check_approval` that need no store, in their order.
  unfoldable pub check_terms :
      Delegation
      → Approval
      → VerifyParams
      → List Bytes
      → (Bytes → Bool)
      → Request
      → Result AuthError (Unit {0})
  check_terms d a params principals is_revoked request = do
    check_standing d principals is_revoked
    verify_delegation core d params.expected_audience params.now
    refuse_if (is_empty a.principal_key || is_empty a.signature) malformed
    refuse_if (not (bytes_eq a.principal_key d.principal_key)) not_authorised
    check_envelope a.audience a.issued_at a.expires_at params
    refuse_if
        (not (
            bytes_eq a.delegation_id (delegation_id core d)
            && bytes_eq a.request_digest request.request_digest)
          || not (bytes_eq a.action request.action)
          || not (a.amount == request.amount))
        action_mismatch
    check_signature core a.principal_key auth_approval_v1 (signing_input a) a.signature

module _ {E I S : Type 0} (core : Core E I) (ns : NonceStore S) where
  unfoldable pub check_approval :
      Delegation
      → Approval
      → VerifyParams
      → List Bytes
      → (Bytes → Bool)
      → Request
      → Exec S (Unit {0})
  check_approval d a params principals is_revoked request =
      checked (check_terms core d a params principals is_revoked request)
        (claim_nonce core ns auth_approval_v1 a.principal_key a.nonce a.issued_at a.expires_at)
