-- ===== src/Auth/Toy.antt =====
-- A concrete core for the examples: a signature lists what was signed, and the hash is the identity.
use aethel_runtime.Base.{
  ℕ, ◌≤◌, ◌≡◌, refl, ap, Bool, true, false, none, some, [], ◌∷◌, ◌++◌, arith, ok,
}
use aethel_runtime.Base.Bytes.{Bytes, bytes_eq, bytes_eq_iff, codes, replicate}
use aethel_runtime.Auth.Core.{Core, Signs}
use aethel_runtime.Auth.Envelope.{VerifyParams, InEnvelope}
use aethel_runtime.Auth.Login.{LoginProof}
use aethel_runtime.Auth.StepUp.{StepUpProof}
use aethel_runtime.Auth.Delegation.{Bounds, Delegation}
use aethel_runtime.Auth.Approval.{Approval, Request, auth_approval_v1}
use aethel_runtime.Auth.Login
use aethel_runtime.Auth.StepUp
use aethel_runtime.Auth.Delegation
use aethel_runtime.Auth.Approval

abbrev pub sealed : Bytes → Bytes → Bytes → Bytes
sealed k p m = 7 ∷ (k ++ (p ++ m))

abbrev pub toy : Core (Unit {0}) ℕ
toy = record {
  verify_with_purpose = λ k p m s. ok (bytes_eq s (sealed k p m));
  public_key = λ i. i ∷ [];
  sign_with_purpose = λ i p m. ok (sealed (i ∷ []) p m);
  shake256_32 = λ x. x;
  auth_login_v1 = 1 ∷ [];
  auth_step_up_v1 = 2 ∷ [];
  auth_delegation_v1 = 3 ∷ [];
  auth_revocation_v1 = 4 ∷ [];
  auth_succession_v1 = 5 ∷ [];
}

pub sealed-verifies : (k p m : Bytes) → toy.verify_with_purpose k p m (sealed k p m) ≡ ok true
sealed-verifies k p m = ap ok ((bytes_eq_iff (sealed k p m) (sealed k p m)).1 refl)

pub toy-Signs : (i : ℕ) (p : Bytes) → Signs toy i p
toy-Signs i p = record {
  signature_of = λ m. sealed (i ∷ []) p m;
  signs = λ m. refl;
  verifies = λ m. sealed-verifies (i ∷ []) p m;
  key_present = refl;
  signature_present = λ m. refl;
}

abbrev pub alice : Bytes
alice = 11 ∷ []

abbrev pub bob : Bytes
bob = 12 ∷ []

abbrev pub shop : Bytes
shop = codes "shop"

abbrev pub nobody : Bytes → Bool
nobody k = false

abbrev pub at_time : ℕ → VerifyParams
at_time now = record { expected_audience = shop; now = now; max_age_secs = 9999 }

-- A window of an hour from second 1000 on.
pub window : (now : ℕ) → 1000 ≤ now → now ≤ 4600 → InEnvelope shop 1000 9000 (at_time now)
window now h k = record {
  named = refl;
  for_us = refl;
  not_future = h;
  fresh = omega arith;
  under_ceiling = k;
  live = omega arith;
}

abbrev unsigned_login : LoginProof
unsigned_login = record {
  public_key = alice;
  audience = shop;
  nonce = replicate 32 9;
  issued_at = 1000;
  expires_at = 9000;
  session_commitment = none;
  request_digest = none;
  signature = [];
}

abbrev pub login_proof : LoginProof
login_proof = record unsigned_login {
  signature = sealed alice toy.auth_login_v1 (Login.signing_input unsigned_login);
}

abbrev unsigned_step_up : StepUpProof
unsigned_step_up = record {
  public_key = alice;
  audience = shop;
  nonce = replicate 32 8;
  issued_at = 1000;
  expires_at = 9000;
  action_digest = replicate 32 1;
  signature = [];
}

abbrev pub step_up_proof : StepUpProof
step_up_proof = record unsigned_step_up {
  signature = sealed alice toy.auth_step_up_v1 (StepUp.signing_input unsigned_step_up);
}

abbrev pub buy : Bytes
buy = codes "buy"

abbrev pub bounds : Bounds
bounds = record {
  actions = buy ∷ codes "sell" ∷ [];
  max_per_invocation = some 100;
  max_total = some 1000;
  window_secs = some 86400;
  approval_required_above = some 50;
}

abbrev unsigned_delegation : Delegation
unsigned_delegation = record {
  principal_key = alice;
  delegate_key = bob;
  audience = shop;
  bounds = bounds;
  not_before = 500;
  expires_at = 9000;
  signature = [];
}

abbrev pub delegation : Delegation
delegation = record unsigned_delegation {
  signature = sealed alice toy.auth_delegation_v1 (Delegation.signing_input unsigned_delegation);
}

abbrev pub request : Request
request = record { request_digest = replicate 32 1; action = buy; amount = 80 }

abbrev unsigned_approval : Approval
unsigned_approval = record {
  principal_key = alice;
  audience = shop;
  delegation_id = Delegation.delegation_id toy delegation;
  request_digest = request.request_digest;
  action = request.action;
  amount = request.amount;
  nonce = replicate 32 7;
  issued_at = 1000;
  expires_at = 9000;
  signature = [];
}

abbrev pub approval : Approval
approval = record unsigned_approval {
  signature = sealed alice auth_approval_v1 (Approval.signing_input unsigned_approval);
}
