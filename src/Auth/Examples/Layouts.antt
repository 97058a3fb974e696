-- ===== src/Auth/Examples/Layouts.antt =====
-- The theorems about signed bytes and hashed keys at concrete inputs.
use aethel_runtime.Base.{◌^◌, ◌<◌, refl, [], ◌∷◌, arith, length}
use aethel_runtime.Base.Bytes.{Bytes, replicate}
use aethel_runtime.Auth.Login
use aethel_runtime.Auth.Login.Layout as LoginLayout
use aethel_runtime.Auth.Login.Layout.{signing_input-SameSigned}
use aethel_runtime.Auth.Delegation.{Delegation, delegation_id}
use aethel_runtime.Auth.Delegation
use aethel_runtime.Auth.Delegation.Layout as DelegationLayout
use aethel_runtime.Auth.Delegation.Layout.{SameTerms, delegation-SameTerms}
use aethel_runtime.Auth.Approval.{Approval}
use aethel_runtime.Auth.Approval.Layout as ApprovalLayout
use aethel_runtime.Auth.Statements.{Revocation, Succession}
use aethel_runtime.Auth.Statements
use aethel_runtime.Auth.Statements.Layout.{IsShortRevocation, IsShortSuccession}
use aethel_runtime.Auth.Toy.{alice, bob, shop, login_proof, delegation, approval}

short_login : (s : Bytes) → LoginLayout.IsWellFormed (record login_proof { signature = s })
short_login s = record {
  audience_short = omega arith;
  nonce_32 = refl;
  issued_u64 = omega arith;
  expires_u64 = omega arith;
  commitment_32 = tt;
  digest_32 = tt;
}

signing_input-SameSigned_example :
    LoginLayout.SameSigned login_proof (record login_proof { signature = [] })
unfolding Login.signing_input
signing_input-SameSigned_example =
    signing_input-SameSigned login_proof (record login_proof { signature = [] }) (short_login _)
      (short_login _) refl

short_delegation : (s : Bytes) → DelegationLayout.IsWellFormed (record delegation { signature = s })
short_delegation s = record {
  delegate_short = omega arith;
  audience_short = omega arith;
  not_before_u64 = omega arith;
  expires_u64 = omega arith;
  few_actions = omega arith;
  actions_short = (omega arith, (omega arith, tt));
  max_per_invocation_u128 = omega arith;
  max_total_u128 = omega arith;
  approval_u128 = omega arith;
  window_u64 = omega arith;
}

delegation-SameTerms_example : SameTerms delegation (record delegation { signature = [] })
unfolding Delegation.signing_input
delegation-SameTerms_example =
    delegation-SameTerms delegation (record delegation { signature = [] }) (short_delegation _)
      (short_delegation _) refl

short_approval :
    (s : Bytes)
    → ApprovalLayout.IsWellFormed
        (record approval { delegation_id = replicate 32 6; signature = s })
short_approval s = record {
  audience_short = omega arith;
  issued_u64 = omega arith;
  expires_u64 = omega arith;
  nonce_32 = refl;
  id_32 = refl;
  digest_32 = refl;
  action_short = omega arith;
  amount_u128 = omega arith;
}

abbrev fixed_id : Approval
fixed_id = record approval { delegation_id = replicate 32 6 }

abbrev revocation : Bytes → Revocation
revocation s = record {
  subject_key = alice;
  signer_key = alice;
  by = Statements.holder;
  audience = shop;
  issued_at = 1000;
  signature = s;
}

short_revocation : (s : Bytes) → IsShortRevocation (revocation s)
short_revocation s = record {
  subject_short = omega arith;
  audience_short = omega arith;
  issued_u64 = omega arith;
}

abbrev succession : Bytes → Succession
succession s = record {
  from_key = alice;
  to_key = bob;
  audience = shop;
  issued_at = 1000;
  signature = s;
}

short_succession : (s : Bytes) → IsShortSuccession (succession s)
short_succession s = record {
  from_short = omega arith;
  to_short = omega arith;
  audience_short = omega arith;
  issued_u64 = omega arith;
}

-- A fixed signature of two bytes, so that the lengths compute.
abbrev signed_twice : Delegation
signed_twice = record delegation { signature = 1 ∷ 2 ∷ [] }

input_short : length (Delegation.signing_input signed_twice) < 2 ^ 32
unfolding Delegation.signing_input
input_short = omega arith
