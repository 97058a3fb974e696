-- ===== src/Auth/Statements/Verdict.antt =====
-- Who can end an identity, and who can name its successor.
use aethel_runtime.Base.{◌≡◌, ◌≢◌, ◌↔◌, true, false, List, arith, is_empty, ok}
use aethel_runtime.Base.Bytes.{Bytes, bytes_eq_iff, Among, contains_iff}
use aethel_runtime.Auth.Core.{Core}
use aethel_runtime.Auth.Envelope.{check_signature-eq-ok, check_signature-of-verify}
use aethel_runtime.Auth.Statements.{
  Revocation, RevokedBy, holder, authority, revocation_input, check_signer, verify_revocation,
  Succession, succession_input, retired_key,
}

-- A holder revokes only its own key; an authority is one that the relying party recognises.
abbrev pub Entitled : RevokedBy → Revocation → List Bytes → Type 0
Entitled holder r authority_keys = r.signer_key ≡ r.subject_key
Entitled authority r authority_keys = Among r.signer_key authority_keys

check_signer_iff :
    (by : RevokedBy) (r : Revocation) (keys : List Bytes)
    → (check_signer by r keys ≡ ok tt) ↔ Entitled by r keys
unfolding check_signer
check_signer_iff holder r keys = ground (arith, bytes_eq_iff r.signer_key r.subject_key)
check_signer_iff authority r keys = ground (arith, contains_iff keys r.signer_key)

module _ {E I : Type 0} (core : Core E I) where
  pub record IsRevocation (r : Revocation) (aud : Bytes) (keys : List Bytes) : Type 0 where
    pub subject_present : is_empty r.subject_key ≡ false
    pub signer_present : is_empty r.signer_key ≡ false
    pub signature_present : is_empty r.signature ≡ false
    pub audience_present : is_empty r.audience ≡ false
    pub for_us : r.audience ≡ aud
    pub entitled : Entitled r.by r keys
    pub signed :
        core.verify_with_purpose r.signer_key core.auth_revocation_v1
          (revocation_input r)
          r.signature
        ≡ ok true

  -- A revocation is accepted exactly when nothing in it is empty, it is for this audience, its
  -- signer is the subject itself or, for an authority's, one of the keys that the relying party
  -- recognises, and the signer's signature verifies.
  pub verify_revocation_iff :
      (r : Revocation) (aud : Bytes) (keys : List Bytes)
      → (verify_revocation core r aud keys ≡ ok tt) ↔ IsRevocation r aud keys
  unfolding verify_revocation
  verify_revocation_iff r aud keys = (
    λ h.
        let entitled = (check_signer_iff r.by r keys).0 (ground arith) in
        record {
          subject_present = ground arith;
          signer_present = ground arith;
          signature_present = ground arith;
          audience_present = ground arith;
          for_us = ground (arith, bytes_eq_iff r.audience aud);
          entitled = entitled;
          signed = check_signature-eq-ok core _ _ _ _ (ground arith);
        },
    λ h.
        rw
          (
            h.subject_present,
            h.signer_present,
            h.signature_present,
            h.audience_present,
            (bytes_eq_iff r.audience aud).1 h.for_us,
            (check_signer_iff r.by r keys).1 h.entitled,
          )
          (check_signature-of-verify core _ _ _ _ h.signed),
  )

  pub record IsSuccession (s : Succession) (aud : Bytes) : Type 0 where
    pub from_present : is_empty s.from_key ≡ false
    pub to_present : is_empty s.to_key ≡ false
    pub signature_present : is_empty s.signature ≡ false
    pub audience_present : is_empty s.audience ≡ false
    pub for_us : s.audience ≡ aud
    pub rotates : s.from_key ≢ s.to_key
    pub signed :
        core.verify_with_purpose s.from_key core.auth_succession_v1 (succession_input s) s.signature
        ≡ ok true

  -- A succession retires a key exactly when nothing in it is empty, it is for this audience, it names
  -- another key than its own, and the outgoing key signed it; and the key that it retires is that
  -- outgoing key.
  pub retired_key_iff :
      (s : Succession) (aud k : Bytes)
      → (retired_key core s aud ≡ ok k) ↔ (IsSuccession s aud × (s.from_key ≡ k))
  unfolding retired_key
  retired_key_iff s aud k = (
    λ h. ground (
      arith,
      bytes_eq_iff s.audience aud,
      bytes_eq_iff s.from_key s.to_key,
      check_signature-eq-ok core s.from_key core.auth_succession_v1 (succession_input s)
          s.signature,
    ),
    λ h. ground (
      arith,
      bytes_eq_iff s.audience aud,
      bytes_eq_iff s.from_key s.to_key,
      check_signature-of-verify core s.from_key core.auth_succession_v1 (succession_input s)
          s.signature,
    ),
  )
