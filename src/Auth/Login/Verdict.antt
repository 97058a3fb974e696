-- ===== src/Auth/Login/Verdict.antt =====
-- When a login proof is accepted, and what happens to the store when it is not.
use aethel_runtime.Base.{
  ◌≡◌, refl, ◌≢◌, ◌↔◌, ◌⊎◌, Bool, true, false, Option, none, some, arith, is_empty, Result, ok, ℕ,
  ◌+◌, ◌++◌, min, u64_max,
}
use aethel_runtime.Base.Bytes.{Bytes, bytes_eq_iff, codes}
use aethel_runtime.Wire.{len_prefixed}
use aethel_runtime.Auth.Core.{Core}
use aethel_runtime.Auth.Error.{StoreError}
use aethel_runtime.Auth.Nonce.{NonceStore}
use aethel_runtime.Auth.Envelope.{
  VerifyParams, InEnvelope, check_envelope-InEnvelope, InEnvelope-check_envelope,
  check_signature-eq-ok, check_signature-of-verify, claim_nonce, nonce_key, nonce_key_input,
  nonce_retention,
}
use aethel_runtime.Auth.Login.{
  LoginProof, signing_input, check_request_digest, check_login, verify_login_inner,
  AuthenticatedIdentity, proven, login_proof,
}

check_request_digest-eq : (a b : Option Bytes) → check_request_digest a b ≡ ok tt → a ≡ b
unfolding check_request_digest
check_request_digest-eq none none h = refl
check_request_digest-eq none (some b) h = cc
check_request_digest-eq (some a) none h = cc
check_request_digest-eq (some a) (some b) h = ground (arith, bytes_eq_iff b a)

check_request_digest_self : (a : Option Bytes) → check_request_digest a a ≡ ok tt
unfolding check_request_digest
check_request_digest_self none = refl
check_request_digest_self (some a) = ground (arith, bytes_eq_iff a a)

module _ {E I : Type 0} (core : Core E I) where
  -- What a login proof must satisfy before its nonce is claimed.
  pub record IsGenuine (p : LoginProof) (params : VerifyParams) (expected : Option Bytes)
      : Type 0 where
    pub key_present : is_empty p.public_key ≡ false
    pub signature_present : is_empty p.signature ≡ false
    pub envelope : InEnvelope p.audience p.issued_at p.expires_at params
    pub digest : expected ≡ p.request_digest
    pub signed :
        core.verify_with_purpose p.public_key core.auth_login_v1 (signing_input p) p.signature
        ≡ ok true

  pub check_login-IsGenuine :
      (p : LoginProof) (params : VerifyParams) (expected : Option Bytes)
      → check_login core p params expected ≡ ok tt
      → IsGenuine p params expected
  unfolding check_login
  check_login-IsGenuine p params expected h = ground (
    arith,
    check_envelope-InEnvelope p.audience p.issued_at p.expires_at params,
    check_request_digest-eq expected p.request_digest,
    check_signature-eq-ok core p.public_key core.auth_login_v1 (signing_input p) p.signature,
  )

  pub IsGenuine-check_login :
      (p : LoginProof) (params : VerifyParams) (expected : Option Bytes)
      → IsGenuine p params expected
      → check_login core p params expected ≡ ok tt
  unfolding check_login
  IsGenuine-check_login p params expected h =
      rw
        (
          h.key_present,
          h.signature_present,
          InEnvelope-check_envelope _ _ _ params h.envelope,
          h.digest,
          check_request_digest_self p.request_digest,
        )
        (check_signature-of-verify core _ _ _ _ h.signed)

module _ {E I S : Type 0} (core : Core E I) (ns : NonceStore S) where
  -- The store grants the claim of a nonce: under the hash of the framed label, purpose, key and nonce,
  -- until 300 seconds after the statement's end or, if that is sooner, after an hour from its issue, with
  -- sums that stop at the largest `u64`.
  abbrev pub ClaimsNonce : Bytes → Bytes → Bytes → ℕ → ℕ → S → Type 0
  ClaimsNonce purpose public_key nonce issued_at expires_at s =
      (ns.claim s
        (core.shake256_32 (
          len_prefixed (codes "aethel-auth/nonce-key/v1")
          ++ (len_prefixed purpose ++ (len_prefixed public_key ++ len_prefixed nonce))))
        (min (min expires_at (min (issued_at + 3600) u64_max) + 300) u64_max)).0
      ≡ ok true

  -- The claim that an accepted proof makes.
  abbrev pub login_claim : LoginProof → S → Result StoreError Bool × S
  login_claim p s =
      ns.claim s (nonce_key core core.auth_login_v1 p.public_key p.nonce)
        (nonce_retention p.issued_at p.expires_at)

  -- The same, by the names that the code has for the store's key and the retention.
  pub login_by_claim :
      (p : LoginProof) (params : VerifyParams) (expected : Option Bytes) (s : S)
      (id : AuthenticatedIdentity)
      → ((verify_login_inner core ns p params expected s).0 ≡ ok id) ↔ (
          IsGenuine core p params expected
          × ((login_claim p s).0 ≡ ok true)
          × (id ≡ record {
            public_key = p.public_key;
            audience = p.audience;
            strength = proven;
            method = login_proof;
            session_commitment = p.session_commitment;
          }))
  unfolding verify_login_inner claim_nonce
  login_by_claim p params expected s id = (
    λ h. ground (arith, check_login-IsGenuine core p params expected),
    λ g. rw (IsGenuine-check_login core p params expected g.0) (ground arith),
  )

  -- A login is accepted with identity `id` exactly when key and signature are present, the proof
  -- is for this verifier, in its window by this clock and signed by its key under the login
  -- purpose, its request digest is the expected one (or both are absent), the store
  -- grants its nonce for the key under the login purpose, until 300 seconds after its end, or after an
  -- hour from its issue if that is sooner, and `id` is the proof's own key, audience and commitment, as proven by a login
  -- proof.
  pub verify_login_inner-accepts :
      (p : LoginProof) (params : VerifyParams) (expected : Option Bytes) (s : S)
      (id : AuthenticatedIdentity)
      → ((verify_login_inner core ns p params expected s).0 ≡ ok id) ↔ (
          IsGenuine core p params expected
          × ClaimsNonce core.auth_login_v1 p.public_key p.nonce p.issued_at p.expires_at s
          × (id ≡ record {
            public_key = p.public_key;
            audience = p.audience;
            strength = proven;
            method = login_proof;
            session_commitment = p.session_commitment;
          }))
  unfolding nonce_key nonce_key_input nonce_retention
  verify_login_inner-accepts p params expected s id = login_by_claim p params expected s id

  -- A call that leaves the nonce store different has verified a genuine proof first: nobody without
  -- a valid signature, in its window and for this audience, writes to the store.
  pub verify_login_inner-writes :
      (p : LoginProof) (params : VerifyParams) (expected : Option Bytes) (s : S)
      → (verify_login_inner core ns p params expected s).1 ≢ s
      → IsGenuine core p params expected
  unfolding verify_login_inner
  verify_login_inner-writes p params expected s h =
      ground (arith, check_login-IsGenuine core p params expected)

  -- The store after an accepted login is the store after its claim.
  pub verify_login_inner-after :
      (p : LoginProof) (params : VerifyParams) (expected : Option Bytes) (s : S)
      → (verify_login_inner core ns p params expected s).1 ≡ s
        ⊎ (verify_login_inner core ns p params expected s).1 ≡ (login_claim p s).1
  unfolding verify_login_inner claim_nonce
  verify_login_inner-after p params expected s = ground arith

  pub verify_login_inner-claims :
      (p : LoginProof) (params : VerifyParams) (expected : Option Bytes) (s : S)
      (id : AuthenticatedIdentity)
      → (verify_login_inner core ns p params expected s).0 ≡ ok id
      → (verify_login_inner core ns p params expected s).1 ≡ (login_claim p s).1
  unfolding verify_login_inner claim_nonce
  verify_login_inner-claims p params expected s id h = ground arith
