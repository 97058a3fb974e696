-- ===== src/Auth/Statements/Layout.antt =====
-- The signed bytes of a revocation and of a succession determine their fields.
use aethel_runtime.Base.{◌^◌, ◌<◌, ◌≡◌, ap, [], ◌++◌, arith, length}
use aethel_runtime.Wire.{to_be_bytes}
use aethel_runtime.Wire.Unique.{len_prefixed_unique, to_be_bytes_unique}
use aethel_runtime.Auth.Statements.{
  Revocation, RevokedBy, by_tag, revocation_input, Succession, succession_input,
}

pub record IsShortRevocation (r : Revocation) : Type 0 where
  pub subject_short : length r.subject_key < 2 ^ 32
  pub audience_short : length r.audience < 2 ^ 32
  pub issued_u64 : r.issued_at < 2 ^ 64

by_tag-inj : (a b : RevokedBy) → by_tag a ≡ by_tag b → a ≡ b
by_tag-inj a b h = ground arith

-- Two revocations with the same signed bytes name the same subject, audience and time, and the
-- same kind of revoker. Their byte strings are shorter than 4 GiB and their times are `u64`.
pub revocation_input-inj :
    (r s : Revocation)
    → IsShortRevocation r
    → IsShortRevocation s
    → revocation_input r ≡ revocation_input s
    → (r.subject_key ≡ s.subject_key)
      × (r.audience ≡ s.audience)
      × (r.by ≡ s.by)
      × (r.issued_at ≡ s.issued_at)
unfolding revocation_input
revocation_input-inj r s hr hs e =
    let k =
      len_prefixed_unique r.subject_key s.subject_key _ _ hr.subject_short hs.subject_short e in
    let a = len_prefixed_unique r.audience s.audience _ _ hr.audience_short hs.audience_short k.1 in
    let tag : by_tag r.by ≡ by_tag s.by = cc (a.1) in
    let times : to_be_bytes 8 r.issued_at ≡ to_be_bytes 8 s.issued_at = cc (a.1) in
    let t =
      to_be_bytes_unique 8 r.issued_at s.issued_at [] [] hr.issued_u64 hs.issued_u64
        (ap (λ z. z ++ []) times) in
    (k.0, a.0, by_tag-inj _ _ tag, t.0)

pub record IsShortSuccession (s : Succession) : Type 0 where
  pub from_short : length s.from_key < 2 ^ 32
  pub to_short : length s.to_key < 2 ^ 32
  pub audience_short : length s.audience < 2 ^ 32
  pub issued_u64 : s.issued_at < 2 ^ 64

-- Two successions with the same signed bytes name the same outgoing and incoming keys, audience
-- and time. Their byte strings are shorter than 4 GiB and their times are `u64`.
pub succession_input-inj :
    (r s : Succession)
    → IsShortSuccession r
    → IsShortSuccession s
    → succession_input r ≡ succession_input s
    → (r.from_key ≡ s.from_key)
      × (r.to_key ≡ s.to_key)
      × (r.audience ≡ s.audience)
      × (r.issued_at ≡ s.issued_at)
unfolding succession_input
succession_input-inj r s hr hs e =
    let f = len_prefixed_unique r.from_key s.from_key _ _ hr.from_short hs.from_short e in
    let k = len_prefixed_unique r.to_key s.to_key _ _ hr.to_short hs.to_short f.1 in
    let a = len_prefixed_unique r.audience s.audience _ _ hr.audience_short hs.audience_short k.1 in
    let t =
      to_be_bytes_unique 8 r.issued_at s.issued_at [] [] hr.issued_u64 hs.issued_u64
        (ap (λ z. z ++ []) a.1) in
    (f.0, k.0, a.0, t.0)
