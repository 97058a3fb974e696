-- ===== src/Auth/Envelope.antt =====
-- crates/aethel-auth/src/proof.rs: what every client-asserted proof shares. The checks of audience
-- and clock, the signature check, and the claim of the nonce.
use aethel_runtime.Base.{
  ℕ, ◌+◌, ◌-◌, ◌≤◌, ◌<◌, min, ◌≡◌, Bool, true, false, not, ◌++◌, arith, ltb, leb, saturating_add64,
  is_empty, Result, ok, err, ◌>>=◌, ◌>>◌, refuse_if, map_err,
}
use aethel_runtime.Base.Bytes.{codes, Bytes, bytes_eq, bytes_eq_iff}
use aethel_runtime.Wire.{len_prefixed}
use aethel_runtime.Auth.Core.{Core}
use aethel_runtime.Auth.Error.{
  AuthError, audience_mismatch, stale_or_future_proof, expired, bad_signature, nonce_already_used,
  malformed, store, StoreError, Exec,
}
use aethel_runtime.Auth.Nonce.{NonceStore}

pub record VerifyParams : Type 0 where
  pub expected_audience : Bytes
  pub now : ℕ
  pub max_age_secs : ℕ

abbrev pub max_age_ceiling_secs : ℕ
max_age_ceiling_secs = 3600

abbrev pub nonce_skew_secs : ℕ
nonce_skew_secs = 300

-- `params.now.saturating_sub(issued_at)` is the difference of natural numbers.
unfoldable pub check_envelope : Bytes → ℕ → ℕ → VerifyParams → Result AuthError (Unit {0})
check_envelope audience issued_at expires_at params = do
  refuse_if (is_empty audience) malformed
  refuse_if (not (bytes_eq audience params.expected_audience)) audience_mismatch
  refuse_if (ltb params.now issued_at) stale_or_future_proof
  refuse_if (ltb (min params.max_age_secs max_age_ceiling_secs) (params.now - issued_at))
      stale_or_future_proof
  refuse_if (leb expires_at params.now) expired
  ok tt

-- The envelope is for this audience, not from the future, not too old and not expired.
pub record InEnvelope (audience : Bytes) (issued_at expires_at : ℕ) (params : VerifyParams)
    : Type 0 where
  pub named : is_empty audience ≡ false
  pub for_us : audience ≡ params.expected_audience
  pub not_future : issued_at ≤ params.now
  pub fresh : params.now ≤ issued_at + params.max_age_secs
  pub under_ceiling : params.now ≤ issued_at + 3600
  pub live : params.now < expires_at

pub check_envelope-InEnvelope :
    (audience : Bytes) (issued_at expires_at : ℕ) (params : VerifyParams)
    → check_envelope audience issued_at expires_at params ≡ ok tt
    → InEnvelope audience issued_at expires_at params
unfolding check_envelope
check_envelope-InEnvelope audience issued_at expires_at params h =
    ground (arith, bytes_eq_iff audience params.expected_audience)

pub InEnvelope-check_envelope :
    (audience : Bytes) (issued_at expires_at : ℕ) (params : VerifyParams)
    → InEnvelope audience issued_at expires_at params
    → check_envelope audience issued_at expires_at params ≡ ok tt
unfolding check_envelope
InEnvelope-check_envelope audience issued_at expires_at params h =
    ground (arith, bytes_eq_iff audience params.expected_audience)

unfoldable pub nonce_retention : ℕ → ℕ → ℕ
nonce_retention issued_at expires_at =
    saturating_add64 (min expires_at (saturating_add64 issued_at max_age_ceiling_secs))
      nonce_skew_secs

abbrev pub nonce_key_label : Bytes
nonce_key_label = codes "aethel-auth/nonce-key/v1"

-- The bytes that `nonce_key` hashes.
unfoldable pub nonce_key_input : Bytes → Bytes → Bytes → Bytes
unfolding len_prefixed
nonce_key_input purpose public_key nonce =
    len_prefixed nonce_key_label
    ++ (len_prefixed purpose ++ (len_prefixed public_key ++ len_prefixed nonce))

module _ {E I : Type 0} (core : Core E I) where
  unfoldable pub nonce_key : Bytes → Bytes → Bytes → Bytes
  unfolding nonce_key_input
  nonce_key purpose public_key nonce = core.shake256_32 (nonce_key_input purpose public_key nonce)

  -- `verify_with_purpose(..).map_err(|_| Malformed)?` and the refusal of a false verdict.
  unfoldable pub check_signature : Bytes → Bytes → Bytes → Bytes → Result AuthError (Unit {0})
  check_signature public_key purpose message signature = do
    verified ←
        map_err (λ _. malformed) (core.verify_with_purpose public_key purpose message signature)
    refuse_if (not verified) bad_signature

  pub check_signature-eq-ok :
      (k p m s : Bytes)
      → check_signature k p m s ≡ ok tt
      → core.verify_with_purpose k p m s ≡ ok true
  unfolding check_signature
  check_signature-eq-ok k p m s h = ground arith

  pub check_signature-of-verify :
      (k p m s : Bytes)
      → core.verify_with_purpose k p m s ≡ ok true
      → check_signature k p m s ≡ ok tt
  unfolding check_signature
  check_signature-of-verify k p m s h = ground arith

-- The store's answer as the verdict of the claim.
abbrev pub claim_verdict : Result StoreError Bool → Result AuthError (Unit {0})
claim_verdict (ok true) = ok tt
claim_verdict (ok false) = err nonce_already_used
claim_verdict (err e) = err (store e)

module _ {E I S : Type 0} (core : Core E I) (ns : NonceStore S) where
  unfoldable pub claim_nonce : Bytes → Bytes → Bytes → ℕ → ℕ → Exec S (Unit {0})
  unfolding nonce_key nonce_retention
  claim_nonce purpose public_key nonce issued_at expires_at s =
      let (r, s') =
        ns.claim s (nonce_key core purpose public_key nonce)
          (nonce_retention issued_at expires_at) in
      (claim_verdict r, s')
