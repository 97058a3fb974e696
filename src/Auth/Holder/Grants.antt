-- ===== src/Auth/Holder/Grants.antt =====
-- The delegations, revocations and successions that the holder builds, the verifier accepts.
use aethel_runtime.Base.{
  ℕ, ◌≤◌, ◌<◌, ◌≡◌, refl, ◌≢◌, Bool, false, Option, some, List, [], is_empty, ok,
}
use aethel_runtime.Base.Bytes.{Bytes, Among}
use aethel_runtime.Auth.Core.{Core, Signs}
use aethel_runtime.Auth.Delegation.{Bounds, Delegation, RemainingObligations, authorise}
use aethel_runtime.Auth.Delegation
use aethel_runtime.Auth.Delegation.Verdict.{
  AmountAllowed, Leaves, obligations, obligations_iff, authorise_iff,
}
use aethel_runtime.Auth.Statements
use aethel_runtime.Auth.Statements.{
  Revocation, revocation_input, Succession, succession_input, verify_revocation, retired_key,
}
use aethel_runtime.Auth.Statements.Verdict.{verify_revocation_iff, retired_key_iff}
use aethel_runtime.Auth.Holder.{Holder, delegate_to, revoke_self, name_successor}

module _ {E I : Type 0} (core : Core E I) (h : Holder core) where
  -- A delegation that a holder grants authorises, at the holder's audience and inside its window,
  -- the delegate that it names, for each listed action with an allowed amount, as long as the
  -- relying party recognises the holder and has seen neither key revoked; and what is left to
  -- enforce are the total and the window granted, and an approval exactly where the amount is above the
  -- threshold granted. Neither the delegate's key nor the audience is empty, and the
  -- holder's signer works under the delegation purpose.
  pub delegate_to-authorises :
      (delegate_key : Bytes) (bounds : Bounds) (not_before expires_at now : ℕ)
      (principals : List Bytes) (is_revoked : Bytes → Bool) (action : Bytes) (amount : Option ℕ)
      → Signs core h.identity core.auth_delegation_v1
      → is_empty delegate_key ≡ false
      → is_empty h.audience ≡ false
      → not_before ≤ now
      → now < expires_at
      → Among (core.public_key h.identity) principals
      → is_revoked (core.public_key h.identity) ≡ false
      → is_revoked delegate_key ≡ false
      → Among action bounds.actions
      → AmountAllowed bounds amount
      → (d : Delegation) × (o : RemainingObligations) × (delegate_to core h delegate_key bounds
            not_before expires_at
          ≡ some d)
        × (authorise core d h.audience principals is_revoked delegate_key action amount now ≡ ok o)
        × Leaves bounds amount o
  unfolding delegate_to Delegation.signing_input
  delegate_to-authorises delegate_key bounds not_before expires_at now principals is_revoked action
        amount signs named at_someone started not_ended known principal_stands delegate_stands
        listed allowed =
      let unsigned : Delegation = record {
        principal_key = core.public_key h.identity;
        delegate_key = delegate_key;
        audience = h.audience;
        bounds = bounds;
        not_before = not_before;
        expires_at = expires_at;
        signature = [];
      } in
      let leaves = (obligations_iff bounds amount (obligations bounds amount)).0 refl in
      let m = Delegation.signing_input unsigned in
      let d : Delegation = record unsigned { signature = signs.signature_of m } in
      (
        d,
        obligations bounds amount,
        rw (signs.signs m),
        (authorise_iff core d h.audience principals is_revoked delegate_key action amount now
              (obligations bounds amount)).1
            (
              record {
                stands = record {
                  recognised = known;
                  principal_stands = principal_stands;
                  delegate_stands = delegate_stands;
                };
                live = record {
                  principal_present = signs.key_present;
                  delegate_present = named;
                  signature_present = signs.signature_present m;
                  audience_present = at_someone;
                  for_us = refl;
                  started = started;
                  not_ended = not_ended;
                  signed = signs.verifies m;
                };
                delegate = refl;
                allowed = listed;
                amount_allowed = allowed;
              },
              leaves,
            ),
        leaves,
      )

  -- A self-revocation that a holder builds names the holder's key as its subject and is accepted
  -- at the holder's audience, whatever authorities the relying party recognises. The audience is
  -- not empty, and the holder's signer works under the revocation purpose.
  pub revoke_self-accepted :
      (issued_at : ℕ) (authority_keys : List Bytes)
      → Signs core h.identity core.auth_revocation_v1
      → is_empty h.audience ≡ false
      → (r : Revocation) × (revoke_self core h issued_at ≡ some r)
        × (r.subject_key ≡ core.public_key h.identity)
        × (verify_revocation core r h.audience authority_keys ≡ ok tt)
  unfolding revoke_self revocation_input
  revoke_self-accepted issued_at authority_keys signs at_someone =
      let unsigned : Revocation = record {
        subject_key = core.public_key h.identity;
        signer_key = core.public_key h.identity;
        by = Statements.holder;
        audience = h.audience;
        issued_at = issued_at;
        signature = [];
      } in
      let m = revocation_input unsigned in
      let r : Revocation = record unsigned { signature = signs.signature_of m } in
      (
        r,
        rw (signs.signs m),
        refl,
        (verify_revocation_iff core r h.audience authority_keys).1 (record {
          subject_present = signs.key_present;
          signer_present = signs.key_present;
          signature_present = signs.signature_present m;
          audience_present = at_someone;
          for_us = refl;
          entitled = refl;
          signed = signs.verifies m;
        }),
      )

  -- A succession to another key that a holder builds is accepted at the holder's audience, and
  -- retires the holder's own key. Neither the new key nor the audience is empty, and the holder's
  -- signer works under the succession purpose.
  pub name_successor-accepted :
      (to_key : Bytes) (issued_at : ℕ)
      → Signs core h.identity core.auth_succession_v1
      → is_empty h.audience ≡ false
      → is_empty to_key ≡ false
      → core.public_key h.identity ≢ to_key
      → (s : Succession) × (name_successor core h to_key issued_at ≡ some s)
        × (retired_key core s h.audience ≡ ok (core.public_key h.identity))
  unfolding name_successor succession_input
  name_successor-accepted to_key issued_at signs at_someone named rotates =
      let unsigned : Succession = record {
        from_key = core.public_key h.identity;
        to_key = to_key;
        audience = h.audience;
        issued_at = issued_at;
        signature = [];
      } in
      let m = succession_input unsigned in
      let s : Succession = record unsigned { signature = signs.signature_of m } in
      (
        s,
        rw (signs.signs m),
        (retired_key_iff core s h.audience (core.public_key h.identity)).1 (
          record {
            from_present = signs.key_present;
            to_present = named;
            signature_present = signs.signature_present m;
            audience_present = at_someone;
            for_us = refl;
            rotates = rotates;
            signed = signs.verifies m;
          },
          refl,
        ),
      )
