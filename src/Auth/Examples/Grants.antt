-- ===== src/Auth/Examples/Grants.antt =====
-- The theorems about delegations, holders, revocations and successions at concrete inputs.
use aethel_runtime.Base.{ℕ, ◌≡◌, refl, ◌≢◌, inl, true, some, [], ◌∷◌, arith, ok}
use aethel_runtime.Base.Bytes.{Bytes}
use aethel_runtime.Auth.Nonce.{new, in_memory, find, claim}
use aethel_runtime.Auth.Delegation
use aethel_runtime.Auth.Delegation.{Delegation, RemainingObligations, authorise}
use aethel_runtime.Auth.Delegation.Verdict.{Stands, IsLive, Leaves, authorise_iff}
use aethel_runtime.Auth.Statements.{
  Revocation, Succession, verify_revocation, retired_key, revocation_input, succession_input,
}
use aethel_runtime.Auth.Statements
use aethel_runtime.Auth.Statements.Verdict.{verify_revocation_iff, retired_key_iff}
use aethel_runtime.Auth.Holder.{Holder, delegate_to}
use aethel_runtime.Auth.Holder.Grants.{delegate_to-authorises}
use aethel_runtime.Auth.Toy.{
  toy, sealed, sealed-verifies, toy-Signs, alice, bob, shop, buy, bounds, nobody, delegation,
}

stands : Stands delegation (alice ∷ []) nobody
stands = record { recognised = inl refl; principal_stands = refl; delegate_stands = refl }

live : IsLive toy delegation shop 1200
unfolding Delegation.signing_input
live = record {
  principal_present = refl;
  delegate_present = refl;
  signature_present = refl;
  audience_present = refl;
  for_us = refl;
  started = omega arith;
  not_ended = omega arith;
  signed = sealed-verifies alice toy.auth_delegation_v1 (Delegation.signing_input delegation);
}

abbrev left : RemainingObligations
left = record {
  cumulative_ceiling = some 1000;
  window_secs = some 86400;
  human_approval_required = true;
}

leaves : Leaves bounds (some 80) left
leaves = record { ceiling = refl; window = refl; approval = (λ e. omega arith, λ h. refl) }

authorise_iff_example :
    authorise toy delegation shop (alice ∷ []) nobody bob buy (some 80) 1200 ≡ ok left
authorise_iff_example =
    (authorise_iff toy delegation shop (alice ∷ []) nobody bob buy (some 80) 1200 left).1 (
      record {
        stands = stands;
        live = live;
        delegate = refl;
        allowed = inl refl;
        amount_allowed = (100, refl, omega arith);
      },
      leaves,
    )

abbrev alice_at_shop : Holder toy
alice_at_shop = record { identity = 11; audience = shop }

granted : (k : Bytes) (e : ℕ) → (in_memory.claim new k e).0 ≡ ok true
unfolding claim find
granted k e = refl

delegate_to-authorises_example :
    (d : Delegation) × (o : RemainingObligations) × (delegate_to toy alice_at_shop bob bounds 500
        9000
      ≡ some d)
    × (authorise toy d shop (alice ∷ []) nobody bob buy (some 80) 1200 ≡ ok o)
    × Leaves bounds (some 80) o
delegate_to-authorises_example =
    delegate_to-authorises toy alice_at_shop bob bounds 500 9000 1200 (alice ∷ []) nobody buy
      (some 80) (toy-Signs 11 toy.auth_delegation_v1) refl refl (omega arith) (omega arith)
      (inl refl) refl refl (inl refl) (100, refl, omega arith)

others : alice ≢ bob
others h = ground (arith, h)

abbrev unsigned_revocation : Revocation
unsigned_revocation = record {
  subject_key = alice;
  signer_key = bob;
  by = Statements.authority;
  audience = shop;
  issued_at = 1000;
  signature = [];
}

abbrev revocation : Revocation
revocation = record unsigned_revocation {
  signature = sealed bob toy.auth_revocation_v1 (revocation_input unsigned_revocation);
}

verify_revocation_iff_example : verify_revocation toy revocation shop (bob ∷ []) ≡ ok tt
unfolding revocation_input
verify_revocation_iff_example = (verify_revocation_iff toy revocation shop (bob ∷ [])).1 (record {
  subject_present = refl;
  signer_present = refl;
  signature_present = refl;
  audience_present = refl;
  for_us = refl;
  entitled = inl refl;
  signed = sealed-verifies bob toy.auth_revocation_v1 (revocation_input revocation);
})

abbrev unsigned_succession : Succession
unsigned_succession = record {
  from_key = alice;
  to_key = bob;
  audience = shop;
  issued_at = 1000;
  signature = [];
}

abbrev succession : Succession
succession = record unsigned_succession {
  signature = sealed alice toy.auth_succession_v1 (succession_input unsigned_succession);
}

retired_key_iff_example : retired_key toy succession shop ≡ ok alice
unfolding succession_input
retired_key_iff_example = (retired_key_iff toy succession shop alice).1 (
  record {
    from_present = refl;
    to_present = refl;
    signature_present = refl;
    audience_present = refl;
    for_us = refl;
    rotates = others;
    signed = sealed-verifies alice toy.auth_succession_v1 (succession_input succession);
  },
  refl,
)
