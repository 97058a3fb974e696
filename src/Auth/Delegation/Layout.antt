-- ===== src/Auth/Delegation/Layout.antt =====
-- The signed bytes of a delegation determine its terms.
use aethel_runtime.Base.{◌%◌, ◌^◌, ◌<◌, ◌≡◌, ap, [], ◌++◌, arith, length}
use aethel_runtime.Wire.Unique.{
  len_prefixed_unique, to_be_bytes_unique, all_len_prefixed_unique, tagged_unique, AllShort,
  OptionBelow,
}
use aethel_runtime.Auth.Delegation.{Delegation, signing_input}

-- The ranges of the fields' Rust types, and byte strings and an action list shorter than 4 Gi.
pub record IsWellFormed (d : Delegation) : Type 0 where
  pub delegate_short : length d.delegate_key < 2 ^ 32
  pub audience_short : length d.audience < 2 ^ 32
  pub not_before_u64 : d.not_before < 2 ^ 64
  pub expires_u64 : d.expires_at < 2 ^ 64
  pub few_actions : length d.bounds.actions < 2 ^ 32
  pub actions_short : AllShort d.bounds.actions
  pub max_per_invocation_u128 : OptionBelow (2 ^ 128) d.bounds.max_per_invocation
  pub max_total_u128 : OptionBelow (2 ^ 128) d.bounds.max_total
  pub approval_u128 : OptionBelow (2 ^ 128) d.bounds.approval_required_above
  pub window_u64 : OptionBelow (2 ^ 64) d.bounds.window_secs

-- The terms of a delegation: all its fields but the signer's key and the signature.
pub record SameTerms (d e : Delegation) : Type 0 where
  pub delegate_key : d.delegate_key ≡ e.delegate_key
  pub audience : d.audience ≡ e.audience
  pub not_before : d.not_before ≡ e.not_before
  pub expires_at : d.expires_at ≡ e.expires_at
  pub actions : d.bounds.actions ≡ e.bounds.actions
  pub max_per_invocation : d.bounds.max_per_invocation ≡ e.bounds.max_per_invocation
  pub max_total : d.bounds.max_total ≡ e.bounds.max_total
  pub approval_required_above : d.bounds.approval_required_above ≡ e.bounds.approval_required_above
  pub window_secs : d.bounds.window_secs ≡ e.bounds.window_secs

-- Two delegations with the same signed bytes have the same terms: delegate, audience, window,
-- action list and every bound, an absent bound told from a bound of zero. Their fields are in the
-- ranges of their types, and byte strings and action lists are shorter than 4 Gi.
pub delegation-SameTerms :
    (d e : Delegation)
    → IsWellFormed d
    → IsWellFormed e
    → signing_input d ≡ signing_input e
    → SameTerms d e
unfolding signing_input
delegation-SameTerms d e hd he eq =
    let k =
      len_prefixed_unique d.delegate_key e.delegate_key _ _ hd.delegate_short he.delegate_short
        eq in
    let a = len_prefixed_unique d.audience e.audience _ _ hd.audience_short he.audience_short k.1 in
    let b =
      to_be_bytes_unique 8 d.not_before e.not_before _ _ hd.not_before_u64 he.not_before_u64 a.1 in
    let x = to_be_bytes_unique 8 d.expires_at e.expires_at _ _ hd.expires_u64 he.expires_u64 b.1 in
    let n =
      to_be_bytes_unique 4 (length d.bounds.actions % 2 ^ 32) (length e.bounds.actions % 2 ^ 32) _ _
        (omega arith) (omega arith) x.1 in
    let l =
      all_len_prefixed_unique d.bounds.actions e.bounds.actions _ _
        (omega (arith, n.0, hd.few_actions, he.few_actions)) hd.actions_short he.actions_short
        n.1 in
    let m =
      tagged_unique 16 d.bounds.max_per_invocation e.bounds.max_per_invocation _ _
        hd.max_per_invocation_u128 he.max_per_invocation_u128 l.1 in
    let t =
      tagged_unique 16 d.bounds.max_total e.bounds.max_total _ _ hd.max_total_u128 he.max_total_u128
        m.1 in
    let h =
      tagged_unique 16 d.bounds.approval_required_above e.bounds.approval_required_above _ _
        hd.approval_u128 he.approval_u128 t.1 in
    let w =
      tagged_unique 8 d.bounds.window_secs e.bounds.window_secs [] [] hd.window_u64 he.window_u64
        (ap (λ z. z ++ []) h.1) in
    record {
      delegate_key = k.0;
      audience = a.0;
      not_before = b.0;
      expires_at = x.0;
      actions = l.0;
      max_per_invocation = m.0;
      max_total = t.0;
      approval_required_above = h.0;
      window_secs = w.0;
    }
