-- ===== src/Auth/Login/Layout.antt =====
-- The signed bytes of a login proof determine its signed fields.
use aethel_runtime.Base.{◌^◌, ◌<◌, ◌≡◌, refl, ap, Option, none, some, [], ◌++◌, arith, length}
use aethel_runtime.Base.Bytes.{Bytes}
use aethel_runtime.Wire.{len_prefixed}
use aethel_runtime.Wire.Unique.{len_prefixed_unique, to_be_bytes_unique}
use aethel_runtime.Auth.Login.{LoginProof, signing_input, commitment_bytes, digest_bytes}

-- A digest or a commitment, where present, is 32 bytes.
abbrev pub Is32 : Option Bytes → Type 0
Is32 none = Unit {0}
Is32 (some d) = length d ≡ 32

-- The ranges of the fields' Rust types, and an audience shorter than 4 GiB.
pub record IsWellFormed (p : LoginProof) : Type 0 where
  pub audience_short : length p.audience < 2 ^ 32
  pub nonce_32 : length p.nonce ≡ 32
  pub issued_u64 : p.issued_at < 2 ^ 64
  pub expires_u64 : p.expires_at < 2 ^ 64
  pub commitment_32 : Is32 p.session_commitment
  pub digest_32 : Is32 p.request_digest

-- The fields that the signature covers.
pub record SameSigned (p q : LoginProof) : Type 0 where
  pub audience : p.audience ≡ q.audience
  pub issued_at : p.issued_at ≡ q.issued_at
  pub expires_at : p.expires_at ≡ q.expires_at
  pub nonce : p.nonce ≡ q.nonce
  pub session_commitment : p.session_commitment ≡ q.session_commitment
  pub request_digest : p.request_digest ≡ q.request_digest

commitment_bytes-inj :
    (a b : Option Bytes) → Is32 a → Is32 b → commitment_bytes a ≡ commitment_bytes b → a ≡ b
commitment_bytes-inj none none ha hb e = refl
commitment_bytes-inj none (some b) ha hb e = absurd (omega (arith, ap length e))
commitment_bytes-inj (some a) none ha hb e = absurd (omega (arith, ap length e))
commitment_bytes-inj (some a) (some b) ha hb e = ap some e

length-commitment_bytes : (a : Option Bytes) → Is32 a → length (commitment_bytes a) < 2 ^ 32
length-commitment_bytes none h = omega arith
length-commitment_bytes (some a) h = omega arith

digest_bytes-inj : (a b : Option Bytes) → Is32 a → Is32 b → digest_bytes a ≡ digest_bytes b → a ≡ b
unfolding len_prefixed
digest_bytes-inj none none ha hb e = refl
digest_bytes-inj none (some b) ha hb e = absurd (cc e)
digest_bytes-inj (some a) none ha hb e = absurd (cc e)
digest_bytes-inj (some a) (some b) ha hb e =
    ap some (len_prefixed_unique a b [] [] (omega arith) (omega arith) (ap (λ x. x ++ []) e)).0

-- Two login proofs with the same signed bytes have the same audience, window, nonce, commitment
-- and request digest, present or absent. Their fields are in the ranges of their types, and
-- audiences are shorter than 4 GiB.
pub signing_input-SameSigned :
    (p q : LoginProof)
    → IsWellFormed p
    → IsWellFormed q
    → signing_input p ≡ signing_input q
    → SameSigned p q
unfolding signing_input
signing_input-SameSigned p q hp hq e =
    let a = len_prefixed_unique p.audience q.audience _ _ hp.audience_short hq.audience_short e in
    let i = to_be_bytes_unique 8 p.issued_at q.issued_at _ _ hp.issued_u64 hq.issued_u64 a.1 in
    let x = to_be_bytes_unique 8 p.expires_at q.expires_at _ _ hp.expires_u64 hq.expires_u64 i.1 in
    let n = len_prefixed_unique p.nonce q.nonce _ _ (omega arith) (omega arith) x.1 in
    let c =
      len_prefixed_unique (commitment_bytes p.session_commitment)
        (commitment_bytes q.session_commitment) _ _
        (length-commitment_bytes p.session_commitment hp.commitment_32)
        (length-commitment_bytes q.session_commitment hq.commitment_32) n.1 in
    record {
      audience = a.0;
      issued_at = i.0;
      expires_at = x.0;
      nonce = n.0;
      session_commitment = commitment_bytes-inj _ _ hp.commitment_32 hq.commitment_32 c.0;
      request_digest = digest_bytes-inj _ _ hp.digest_32 hq.digest_32 c.1;
    }
