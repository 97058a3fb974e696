-- ===== src/Auth/Core.antt =====
-- What the crates take from outside the repository: ML-DSA-65 signing under a purpose
-- (`aethel_core::signing`) and SHAKE-256 (`sha3`), as operations and the behaviour they document.
use aethel_runtime.Base.{is_empty, false, ◌≡◌, Bool, true, Result, ok}
use aethel_runtime.Base.Bytes.{Bytes}

-- `E` is `aethel_core::IdentityError` and `I` is `aethel_core::signing::Identity`.
pub record Core (E I : Type 0) : Type 0 where
  -- public key, purpose, message, signature
  pub verify_with_purpose : Bytes → Bytes → Bytes → Bytes → Result E Bool
  pub public_key : I → Bytes
  -- identity, purpose, message
  pub sign_with_purpose : I → Bytes → Bytes → Result E Bytes
  -- 32 bytes of SHAKE-256
  pub shake256_32 : Bytes → Bytes
  pub auth_login_v1 : Bytes
  pub auth_step_up_v1 : Bytes
  pub auth_delegation_v1 : Bytes
  pub auth_revocation_v1 : Bytes
  pub auth_succession_v1 : Bytes

-- A signature made under a purpose verifies under that purpose and the signer's key, and neither it
-- nor the key is the empty string.
pub record Signs {E I : Type 0} (core : Core E I) (identity : I) (purpose : Bytes) : Type 0 where
  pub signature_of : Bytes → Bytes
  pub signs : (m : Bytes) → core.sign_with_purpose identity purpose m ≡ ok (signature_of m)
  pub verifies :
      (m : Bytes)
      → core.verify_with_purpose (core.public_key identity) purpose m (signature_of m) ≡ ok true
  pub key_present : is_empty (core.public_key identity) ≡ false
  pub signature_present : (m : Bytes) → is_empty (signature_of m) ≡ false
