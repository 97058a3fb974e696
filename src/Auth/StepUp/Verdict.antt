-- ===== src/Auth/StepUp/Verdict.antt =====
-- When a step-up is accepted, and what happens to the store when it is not.
use aethel_runtime.Base.{◌≡◌, ◌↔◌, ◌⊎◌, Bool, true, false, none, arith, is_empty, Result, ok}
use aethel_runtime.Base.Bytes.{Bytes, bytes_eq_iff}
use aethel_runtime.Auth.Core.{Core}
use aethel_runtime.Auth.Error.{StoreError}
use aethel_runtime.Auth.Nonce.{NonceStore}
use aethel_runtime.Auth.Envelope.{
  VerifyParams, InEnvelope, check_envelope-InEnvelope, InEnvelope-check_envelope,
  check_signature-eq-ok, check_signature-of-verify, claim_nonce, nonce_key, nonce_key_input,
  nonce_retention,
}
use aethel_runtime.Auth.Login.{AuthenticatedIdentity, proven, step_up}
use aethel_runtime.Auth.Login.Verdict.{ClaimsNonce}
use aethel_runtime.Auth.StepUp.{StepUpProof, signing_input, check_step_up, verify_step_up}

module _ {E I : Type 0} (core : Core E I) where
  -- What a step-up must satisfy before its nonce is claimed.
  pub record IsGenuine (p : StepUpProof) (params : VerifyParams) (expected : Bytes) : Type 0 where
    pub key_present : is_empty p.public_key ≡ false
    pub signature_present : is_empty p.signature ≡ false
    pub envelope : InEnvelope p.audience p.issued_at p.expires_at params
    pub action : p.action_digest ≡ expected
    pub signed :
        core.verify_with_purpose p.public_key core.auth_step_up_v1 (signing_input p) p.signature
        ≡ ok true

  pub check_step_up-IsGenuine :
      (p : StepUpProof) (params : VerifyParams) (expected : Bytes)
      → check_step_up core p params expected ≡ ok tt
      → IsGenuine p params expected
  unfolding check_step_up
  check_step_up-IsGenuine p params expected h = ground (
    arith,
    check_envelope-InEnvelope p.audience p.issued_at p.expires_at params,
    bytes_eq_iff p.action_digest expected,
    check_signature-eq-ok core p.public_key core.auth_step_up_v1 (signing_input p) p.signature,
  )

  pub IsGenuine-check_step_up :
      (p : StepUpProof) (params : VerifyParams) (expected : Bytes)
      → IsGenuine p params expected
      → check_step_up core p params expected ≡ ok tt
  unfolding check_step_up
  IsGenuine-check_step_up p params expected h =
      rw
        (
          h.key_present,
          h.signature_present,
          InEnvelope-check_envelope _ _ _ params h.envelope,
          (bytes_eq_iff p.action_digest expected).1 h.action,
        )
        (check_signature-of-verify core _ _ _ _ h.signed)

module _ {E I S : Type 0} (core : Core E I) (ns : NonceStore S) where
  -- The claim that an accepted step-up makes.
  abbrev pub step_up_claim : StepUpProof → S → Result StoreError Bool × S
  step_up_claim p s =
      ns.claim s (nonce_key core core.auth_step_up_v1 p.public_key p.nonce)
        (nonce_retention p.issued_at p.expires_at)

  -- The same, by the names that the code has for the store's key and the retention.
  pub step_up_by_claim :
      (p : StepUpProof) (params : VerifyParams) (expected : Bytes) (s : S)
      (id : AuthenticatedIdentity)
      → ((verify_step_up core ns p params expected s).0 ≡ ok id) ↔ (
          IsGenuine core p params expected
          × ((step_up_claim p s).0 ≡ ok true)
          × (id ≡ record {
            public_key = p.public_key;
            audience = p.audience;
            strength = proven;
            method = step_up;
            session_commitment = none;
          }))
  unfolding verify_step_up claim_nonce
  step_up_by_claim p params expected s id = (
    λ h. ground (arith, check_step_up-IsGenuine core p params expected),
    λ g. rw (IsGenuine-check_step_up core p params expected g.0) (ground arith),
  )

  -- A step-up is accepted with identity `id` exactly when it is genuine for this verifier and this
  -- clock, it was signed for the very action that the server expects, the
  -- store grants its nonce for the key under the step-up purpose, until 300 seconds after its end, or
  -- after an hour from its issue if that is sooner, and `id` is the proof's own key and audience, as proven by a step-up.
  pub verify_step_up-accepts :
      (p : StepUpProof) (params : VerifyParams) (expected : Bytes) (s : S)
      (id : AuthenticatedIdentity)
      → ((verify_step_up core ns p params expected s).0 ≡ ok id) ↔ (
          IsGenuine core p params expected
          × ClaimsNonce core ns core.auth_step_up_v1 p.public_key p.nonce p.issued_at p.expires_at s
          × (id ≡ record {
            public_key = p.public_key;
            audience = p.audience;
            strength = proven;
            method = step_up;
            session_commitment = none;
          }))
  unfolding nonce_key nonce_key_input nonce_retention
  verify_step_up-accepts p params expected s id = step_up_by_claim p params expected s id

  pub verify_step_up-after :
      (p : StepUpProof) (params : VerifyParams) (expected : Bytes) (s : S)
      → (verify_step_up core ns p params expected s).1 ≡ s
        ⊎ (verify_step_up core ns p params expected s).1 ≡ (step_up_claim p s).1
  unfolding verify_step_up claim_nonce
  verify_step_up-after p params expected s = ground arith

  pub verify_step_up-claims :
      (p : StepUpProof) (params : VerifyParams) (expected : Bytes) (s : S)
      (id : AuthenticatedIdentity)
      → (verify_step_up core ns p params expected s).0 ≡ ok id
      → (verify_step_up core ns p params expected s).1 ≡ (step_up_claim p s).1
  unfolding verify_step_up claim_nonce
  verify_step_up-claims p params expected s id h = ground arith
