-- ===== src/Vault/Examples.antt =====
-- The theorems about the policy, the wallet and the settlement digest at concrete inputs.
mod Clients
mod Calls
mod Wallets
mod Bindings
mod Ledgers
use aethel_runtime.Base.{ℕ, suc, ◌+◌, ◌≡◌, refl, inl, true, some, [], ◌∷◌, arith, length, ok}
use aethel_runtime.Base.Bytes.{Bytes, replicate}
use aethel_runtime.Auth.Toy.{toy, sealed, sealed-verifies, alice}
use aethel_runtime.Vault.Core.{VaultCore}
use aethel_runtime.Vault.Policy.{
  SpendPolicy, SpendRequest, allow, check, HitlApproval, verify, hitl_approval_message,
  effective_spent_today, eip3009_base, allows_rail, default_state,
}
use aethel_runtime.Vault.Policy.Verdict.{Admits, check_iff, verify_iff, hitl_approval_message-inj}
use aethel_runtime.Vault.Policy.Window.{total, Admitted, Within, burst, burst-Admitted}
use aethel_runtime.Vault.Settlement.{eip712_digest}
use aethel_runtime.Vault.Wallet.{SettlementSigner, Bincode, Wallet, new}

-- A hash of 32 bytes, so that the lengths compute.
abbrev pub vault_core : VaultCore (Unit {0}) ℕ
vault_core = record {
  core = toy;
  keccak256 = λ x. replicate 32 (length x);
  vault_hitl_approval_v1 = 21 ∷ [];
  vault_spend_intent_v1 = 22 ∷ [];
  vault_settlement_receipt_v1 = 23 ∷ [];
  vault_wallet_bind_v1 = 24 ∷ [];
}

-- A signer that counts its signatures.
abbrev pub counting : SettlementSigner ℕ
counting = record {
  sign_digest = λ n digest. (ok (n ∷ digest), suc n);
  address = λ n. replicate 20 1;
}

abbrev pub bin : Bincode
bin = record {
  serialize_intent = λ i. some (i.value ∷ i.eip712_digest);
  serialize_receipt = λ r. some (r.amount ∷ r.auth_hash);
}

abbrev pub policy : SpendPolicy
policy = record {
  max_per_call = 200;
  daily_cap = 200;
  allow_rails = eip3009_base ∷ [];
  hitl_above = 100;
  ttl_secs = 600;
  hitl_approver_pk = some alice;
}

abbrev pub wallet : Wallet ℕ ℕ
wallet = new 0 11 policy

abbrev pub payee : Bytes
payee = replicate 20 2

abbrev pub nonce : Bytes
nonce = replicate 32 3

abbrev asked : SpendRequest
asked = record { rail = eip3009_base; amount = 80; to = payee }

check_iff_example : Admits policy default_state asked 1000 allow
unfolding check allows_rail effective_spent_today
check_iff_example = (check_iff policy default_state asked 1000 allow (omega arith)).0 refl

abbrev hitl : HitlApproval
hitl = record {
  approver_pk = alice;
  signature = sealed alice (21 ∷ []) (hitl_approval_message nonce 150 2000);
  intent_hash = nonce;
  amount = 150;
  expiry_unix = 2000;
}

verify_iff_example : verify toy (21 ∷ []) hitl nonce 150 (some alice) 1000 ≡ ok true
verify_iff_example = (verify_iff toy (21 ∷ []) hitl nonce 150 (some alice) 1000).1 (record {
  live = omega arith;
  same_intent = refl;
  same_amount = refl;
  by_approver = refl;
  signed = sealed-verifies alice (21 ∷ []) (hitl_approval_message nonce 150 2000);
})

hitl_approval_message-inj_example : (nonce ≡ nonce) × Path ℕ 150 150 × Path ℕ 2000 2000
hitl_approval_message-inj_example =
    hitl_approval_message-inj nonce nonce 150 150 2000 2000 refl refl (omega arith) (omega arith)
      (omega arith) (omega arith) refl

burst-Admitted_example :
    Admitted policy (record { day_start_unix = 7; spent_today = 0 }) (burst policy eip3009_base 7)
    × Within (7 + 86399) (burst policy eip3009_base 7)
    × (total (burst policy eip3009_base 7) ≡ 200 + 200)
burst-Admitted_example = burst-Admitted policy eip3009_base 7 (inl refl) (omega arith) (omega arith)
