-- ===== src/Auth/Delegation.antt =====
-- crates/aethel-auth/src/delegation.rs: a principal grants a delegate bounded authority.
pub mod Layout
pub mod Verdict
use aethel_runtime.Base.{
  ℕ, ◌%◌, ◌^◌, Bool, false, not, ◌&&◌, ◌||◌, Option, none, some, List, [], ◌++◌, ltb, leb, is_some,
  length, is_empty, Result, ok, err, ◌>>=◌, ◌>>◌, refuse_if,
}
use aethel_runtime.Base.Bytes.{codes, Bytes, bytes_eq, contains}
use aethel_runtime.Wire.{len_prefixed, all_len_prefixed, tagged, to_be_bytes}
use aethel_runtime.Auth.Core.{Core}
use aethel_runtime.Auth.Error.{
  AuthError, audience_mismatch, expired, not_authorised, not_delegated, revoked, malformed,
}
use aethel_runtime.Auth.Envelope.{check_signature}

pub record Bounds : Type 0 where
  pub actions : List Bytes
  pub max_per_invocation : Option ℕ
  pub max_total : Option ℕ
  pub window_secs : Option ℕ
  pub approval_required_above : Option ℕ

pub record Delegation : Type 0 where
  pub principal_key : Bytes
  pub delegate_key : Bytes
  pub audience : Bytes
  pub bounds : Bounds
  pub not_before : ℕ
  pub expires_at : ℕ
  pub signature : Bytes

unfoldable pub signing_input : Delegation → Bytes
unfolding len_prefixed all_len_prefixed tagged to_be_bytes
signing_input d =
    len_prefixed d.delegate_key
    ++ (len_prefixed d.audience
        ++ (to_be_bytes 8 d.not_before
            ++ (to_be_bytes 8 d.expires_at
                ++ (to_be_bytes 4 (length d.bounds.actions % 2 ^ 32)
                    ++ (all_len_prefixed d.bounds.actions
                        ++ (tagged 16 d.bounds.max_per_invocation
                            ++ (tagged 16 d.bounds.max_total
                                ++ (tagged 16 d.bounds.approval_required_above
                                    ++ tagged 8 d.bounds.window_secs))))))))

abbrev pub delegation_id_label : Bytes
delegation_id_label = codes "aethel-auth/delegation-id/v1"

-- The bytes that `Delegation::id` hashes.
unfoldable pub id_input : Delegation → Bytes
unfolding signing_input
id_input d =
    len_prefixed delegation_id_label
    ++ (len_prefixed d.principal_key
        ++ (len_prefixed (signing_input d) ++ len_prefixed d.signature))

pub record RemainingObligations : Type 0 where
  pub cumulative_ceiling : Option ℕ
  pub window_secs : Option ℕ
  pub human_approval_required : Bool

unfoldable pub is_clear : RemainingObligations → Bool
is_clear o = not (is_some o.cumulative_ceiling) && not o.human_approval_required

-- `Bounds::default()`.
abbrev pub default_bounds : Bounds
default_bounds = record {
  actions = [];
  max_per_invocation = none;
  max_total = none;
  window_secs = none;
  approval_required_above = none;
}

-- `amount.is_none() && sets_an_amount_bound`.
unfoldable pub unsaid_amount : Bounds → Option ℕ → Bool
unsaid_amount b amount =
    not (is_some amount)
    && (is_some b.max_per_invocation || is_some b.max_total || is_some b.approval_required_above)

-- The match of an amount with the ceiling on one invocation.
unfoldable pub check_ceiling : Option ℕ → Option ℕ → Result AuthError (Unit {0})
check_ceiling none ceiling = ok tt
check_ceiling (some amount) none = err not_delegated
check_ceiling (some amount) (some ceiling) = refuse_if (ltb ceiling amount) not_delegated

unfoldable pub needs_approval : Option ℕ → Option ℕ → Bool
needs_approval (some amount) (some threshold) = ltb threshold amount
needs_approval (some amount) none = false
needs_approval none threshold = false

-- The tests of principal and revocation that `authorise` and `check_approval` both begin with.
-- `is_revoked` is the caller's `RevokedKeys`.
unfoldable pub check_standing :
    Delegation → List Bytes → (Bytes → Bool) → Result AuthError (Unit {0})
unfolding contains
check_standing d principals is_revoked = do
  refuse_if (not (contains principals d.principal_key)) not_authorised
  refuse_if (is_revoked d.principal_key || is_revoked d.delegate_key) revoked

module _ {E I : Type 0} (core : Core E I) where
  unfoldable pub delegation_id : Delegation → Bytes
  unfolding id_input
  delegation_id d = core.shake256_32 (id_input d)

  unfoldable pub verify_delegation : Delegation → Bytes → ℕ → Result AuthError (Unit {0})
  verify_delegation d expected_audience now = do
    refuse_if
        (is_empty d.principal_key
          || is_empty d.delegate_key
          || is_empty d.signature
          || is_empty d.audience)
        malformed
    refuse_if (not (bytes_eq d.audience expected_audience)) audience_mismatch
    refuse_if (ltb now d.not_before || leb d.expires_at now) expired
    check_signature core d.principal_key core.auth_delegation_v1 (signing_input d) d.signature

  unfoldable pub authorise :
      Delegation
      → Bytes
      → List Bytes
      → (Bytes → Bool)
      → Bytes
      → Bytes
      → Option ℕ
      → ℕ
      → Result AuthError RemainingObligations
  unfolding check_standing unsaid_amount check_ceiling needs_approval
  authorise d expected_audience principals is_revoked delegate_key action amount now = do
    check_standing d principals is_revoked
    verify_delegation d expected_audience now
    refuse_if (not (bytes_eq d.delegate_key delegate_key)) not_delegated
    refuse_if (not (contains d.bounds.actions action)) not_delegated
    refuse_if (unsaid_amount d.bounds amount) not_delegated
    check_ceiling amount d.bounds.max_per_invocation
    ok (record {
      cumulative_ceiling = d.bounds.max_total;
      window_secs = d.bounds.window_secs;
      human_approval_required = needs_approval amount d.bounds.approval_required_above;
    })
