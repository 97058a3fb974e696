-- ===== src/Auth/StepUp/Layout.antt =====
-- The signed bytes of a step-up determine its signed fields.
use aethel_runtime.Base.{◌^◌, ◌<◌, ◌≡◌, ap, [], ◌++◌, arith, length}
use aethel_runtime.Wire.Unique.{len_prefixed_unique, to_be_bytes_unique}
use aethel_runtime.Auth.StepUp.{StepUpProof, signing_input}

-- The ranges of the fields' Rust types, and an audience shorter than 4 GiB.
pub record IsWellFormed (p : StepUpProof) : Type 0 where
  pub audience_short : length p.audience < 2 ^ 32
  pub nonce_32 : length p.nonce ≡ 32
  pub issued_u64 : p.issued_at < 2 ^ 64
  pub expires_u64 : p.expires_at < 2 ^ 64
  pub digest_32 : length p.action_digest ≡ 32

-- The fields that the signature covers.
pub record SameSigned (p q : StepUpProof) : Type 0 where
  pub audience : p.audience ≡ q.audience
  pub issued_at : p.issued_at ≡ q.issued_at
  pub expires_at : p.expires_at ≡ q.expires_at
  pub nonce : p.nonce ≡ q.nonce
  pub action_digest : p.action_digest ≡ q.action_digest

-- Two well-formed step-ups with the same signed bytes have the same audience, window, nonce and
-- action digest.
pub step_up-SameSigned :
    (p q : StepUpProof)
    → IsWellFormed p
    → IsWellFormed q
    → signing_input p ≡ signing_input q
    → SameSigned p q
unfolding signing_input
step_up-SameSigned p q hp hq e =
    let a = len_prefixed_unique p.audience q.audience _ _ hp.audience_short hq.audience_short e in
    let i = to_be_bytes_unique 8 p.issued_at q.issued_at _ _ hp.issued_u64 hq.issued_u64 a.1 in
    let x = to_be_bytes_unique 8 p.expires_at q.expires_at _ _ hp.expires_u64 hq.expires_u64 i.1 in
    let n = len_prefixed_unique p.nonce q.nonce _ _ (omega arith) (omega arith) x.1 in
    let d =
      len_prefixed_unique p.action_digest q.action_digest [] [] (omega arith) (omega arith)
        (ap (λ t. t ++ []) n.1) in
    record { audience = a.0; issued_at = i.0; expires_at = x.0; nonce = n.0; action_digest = d.0 }
