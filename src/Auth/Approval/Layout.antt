-- ===== src/Auth/Approval/Layout.antt =====
-- The signed bytes of an approval determine its signed fields.
use aethel_runtime.Base.{◌^◌, ◌<◌, ◌≡◌, ap, [], ◌++◌, arith, length}
use aethel_runtime.Wire.Unique.{len_prefixed_unique, to_be_bytes_unique}
use aethel_runtime.Auth.Approval.{Approval, signing_input}

-- The ranges of the fields' Rust types, and byte strings shorter than 4 GiB.
pub record IsWellFormed (a : Approval) : Type 0 where
  pub audience_short : length a.audience < 2 ^ 32
  pub issued_u64 : a.issued_at < 2 ^ 64
  pub expires_u64 : a.expires_at < 2 ^ 64
  pub nonce_32 : length a.nonce ≡ 32
  pub id_32 : length a.delegation_id ≡ 32
  pub digest_32 : length a.request_digest ≡ 32
  pub action_short : length a.action < 2 ^ 32
  pub amount_u128 : a.amount < 2 ^ 128

-- The fields that the signature covers.
pub record SameSigned (a b : Approval) : Type 0 where
  pub audience : a.audience ≡ b.audience
  pub issued_at : a.issued_at ≡ b.issued_at
  pub expires_at : a.expires_at ≡ b.expires_at
  pub nonce : a.nonce ≡ b.nonce
  pub delegation_id : a.delegation_id ≡ b.delegation_id
  pub request_digest : a.request_digest ≡ b.request_digest
  pub action : a.action ≡ b.action
  pub amount : a.amount ≡ b.amount

-- Two approvals with the same signed bytes approve the same amount for the same action and request
-- under the same delegation, at the same audience, in the same window, with one nonce. Their
-- fields are in the ranges of their types, and audiences and actions are shorter than 4 GiB.
pub approval-SameSigned :
    (a b : Approval)
    → IsWellFormed a
    → IsWellFormed b
    → signing_input a ≡ signing_input b
    → SameSigned a b
unfolding signing_input
approval-SameSigned a b ha hb e =
    let u = len_prefixed_unique a.audience b.audience _ _ ha.audience_short hb.audience_short e in
    let i = to_be_bytes_unique 8 a.issued_at b.issued_at _ _ ha.issued_u64 hb.issued_u64 u.1 in
    let x = to_be_bytes_unique 8 a.expires_at b.expires_at _ _ ha.expires_u64 hb.expires_u64 i.1 in
    let n = len_prefixed_unique a.nonce b.nonce _ _ (omega arith) (omega arith) x.1 in
    let d =
      len_prefixed_unique a.delegation_id b.delegation_id _ _ (omega arith) (omega arith) n.1 in
    let r =
      len_prefixed_unique a.request_digest b.request_digest _ _ (omega arith) (omega arith) d.1 in
    let t = len_prefixed_unique a.action b.action _ _ ha.action_short hb.action_short r.1 in
    let m =
      to_be_bytes_unique 16 a.amount b.amount [] [] ha.amount_u128 hb.amount_u128
        (ap (λ z. z ++ []) t.1) in
    record {
      audience = u.0;
      issued_at = i.0;
      expires_at = x.0;
      nonce = n.0;
      delegation_id = d.0;
      request_digest = r.0;
      action = t.0;
      amount = m.0;
    }
