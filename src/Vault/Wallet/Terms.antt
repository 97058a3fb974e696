-- ===== src/Vault/Wallet/Terms.antt =====
-- src/settlement.rs: the terms under which the wallet signs, and what an accepted call grants.
use aethel_runtime.Base.{
  ℕ, ◌<◌, ◌≡◌, refl, Option, some, arith, min, ◌+◌, ◌≤◌, u128_max, saturating_add64, ok,
}
use aethel_runtime.Base.Bytes.{Bytes}
use aethel_runtime.Vault.Core.{VaultCore}
use aethel_runtime.Vault.Policy.{
  Rail, eip3009_base, eip3009_ethereum, eip3009_arbitrum, PolicyState, Decision, require_hitl,
  record_spend, HitlApproval,
}
use aethel_runtime.Vault.Policy.Verdict.{Admits, Satisfies}
use aethel_runtime.Vault.Settlement.{
  TransferWithAuthorization, Chain, base, ethereum, arbitrum_one, chain_id, rail_of, eip712_digest,
}
use aethel_runtime.Vault.Wallet.{
  SpendIntent, SettlementSigner, SettlementAuthorization, Bincode, Wallet,
}

-- The rail and the EIP-155 number of a chain.
abbrev pub rail_on : Chain → Rail
rail_on base = eip3009_base
rail_on ethereum = eip3009_ethereum
rail_on arbitrum_one = eip3009_arbitrum

abbrev pub eip155_number : Chain → ℕ
eip155_number base = 8453
eip155_number ethereum = 1
eip155_number arbitrum_one = 42161

pub rail_of-rail_on : (c : Chain) → rail_of c ≡ rail_on c
unfolding rail_of
rail_of-rail_on base = refl
rail_of-rail_on ethereum = refl
rail_of-rail_on arbitrum_one = refl

pub chain_id-eip155_number : (c : Chain) → chain_id c ≡ eip155_number c
unfolding chain_id
chain_id-eip155_number base = refl
chain_id-eip155_number ethereum = refl
chain_id-eip155_number arbitrum_one = refl

-- The record `t` of the policy is `s` with the spend of `value` at `now`: added up, to the largest
-- `u128` at most, in the day that runs, or the first of the day that starts now.
pub record Spent (s t : PolicyState) (value now : ℕ) : Type 0 where
  pub day_running :
      now < s.day_start_unix + 86400
      → (t.day_start_unix ≡ s.day_start_unix)
        × (t.spent_today ≡ min (s.spent_today + value) u128_max)
  pub day_over :
      s.day_start_unix + 86400 ≤ now
      → (t.day_start_unix ≡ now) × (t.spent_today ≡ min value u128_max)

-- The intent that repeats a transfer, with this digest and on the chain of this number.
abbrev pub repeats : TransferWithAuthorization → Bytes → ℕ → SpendIntent
repeats t digest number = record {
  chain_id = number;
  from = t.from;
  to = t.to;
  value = t.value;
  valid_after = t.valid_after;
  valid_before = t.valid_before;
  nonce = t.nonce;
  eip712_digest = digest;
}

pub record_spend-Spent :
    (s : PolicyState) (value now : ℕ) → Spent s (record_spend s value now) value now
unfolding record_spend
record_spend-Spent s value now = record {
  day_running = λ h. ground arith;
  day_over = λ h. ground arith;
}

module _ {E I S : Type 0} (vc : VaultCore E I) (sg : SettlementSigner S) (bin : Bincode) where
  -- A request within the policy, and above its threshold approved for this amount and for the digest of
  -- the transfer from the signer's address to the payee that is valid from now for the policy's lifetime.
  pub record Permits (w : Wallet S I) (to : Bytes) (value : ℕ) (nonce : Bytes) (chain : Chain)
      (now : ℕ) (hitl : Option HitlApproval) : Type 0 where
    pub decision : Decision
    pub admits :
        Admits w.policy w.policy_state
          (record { rail = rail_on chain; amount = value; to = to })
          now
          decision
    pub escalated :
        decision ≡ require_hitl
        → (a : HitlApproval) × (hitl ≡ some a)
          × Satisfies vc.core vc.vault_hitl_approval_v1 a
              (eip712_digest vc.keccak256
                (record {
                  from = sg.address w.signer;
                  to = to;
                  value = value;
                  valid_after = now;
                  valid_before = saturating_add64 now w.policy.ttl_secs;
                  nonce = nonce;
                })
                chain)
              value
              w.policy.hitl_approver_pk
              now

  -- What an accepted call returns, and the spend and the receipt that it leaves behind.
  pub record Grants (w : Wallet S I) (to : Bytes) (value : ℕ) (nonce : Bytes) (chain : Chain)
      (now : ℕ) (a : SettlementAuthorization) (v : Wallet S I) : Type 0 where
    pub transfer : a.authorization ≡ record {
      from = sg.address w.signer;
      to = to;
      value = value;
      valid_after = now;
      valid_before = saturating_add64 now w.policy.ttl_secs;
      nonce = nonce;
    }
    pub digest : a.eip712_digest ≡ eip712_digest vc.keccak256 a.authorization chain
    pub signed : (sg.sign_digest w.signer a.eip712_digest).0 ≡ ok a.external_signature
    pub intent : a.intent ≡ repeats a.authorization a.eip712_digest (eip155_number chain)
    pub intent_signed :
        (bytes : Bytes) × (bin.serialize_intent a.intent ≡ some bytes)
        × (vc.core.sign_with_purpose w.identity vc.vault_spend_intent_v1 bytes
            ≡ ok a.intent_signature)
    pub same_chain : a.chain ≡ chain
    pub intent_signer : a.intent_signer_pk ≡ vc.core.public_key w.identity
    pub spent : Spent w.policy_state v.policy_state value now
    pub receipt :
        v.last_receipt
        ≡ some (record {
          auth_hash = a.eip712_digest;
          amount = value;
          dst = to;
          ts = now;
          chain_id = eip155_number chain;
        })
