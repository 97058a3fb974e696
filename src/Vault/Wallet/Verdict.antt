-- ===== src/Vault/Wallet/Verdict.antt =====
-- What the wallet signs, and what it leaves alone when it does not.
use aethel_runtime.Base.{
  ℕ, ◌<◌, ◌≡◌, refl, ◌≢◌, inl, inr, Option, none, some, arith, Option-cases, ap, ap₂, ◌∙◌, sym,
  subst, u128_max, ok, err, Result-cases,
}
use aethel_runtime.Base.Bytes.{Bytes}
use aethel_runtime.Vault.Core.{VaultCore}
use aethel_runtime.Vault.Error.{VaultError}
use aethel_runtime.Vault.Policy.{
  Rail, PolicyState, Decision, allow, require_hitl, check, record_spend, HitlApproval,
}
use aethel_runtime.Vault.Policy.Verdict.{Admits, check_iff, Satisfies, verify_iff}
use aethel_runtime.Vault.Settlement.{TransferWithAuthorization, Chain, chain_id, eip712_digest}
use aethel_runtime.Vault.Wallet.{
  SpendIntent, SettlementSigner, SettlementAuthorization, Bincode, Wallet, transfer_of, digest_of,
  request_of, approved, permitted, intent_of, sign_intent, recorded, concluded, authorize_eip3009,
}
use aethel_runtime.Vault.Wallet.Terms.{
  rail_of-rail_on, chain_id-eip155_number, Spent, repeats, record_spend-Spent, Permits, Grants,
}

module _ {E I S : Type 0} (vc : VaultCore E I) (sg : SettlementSigner S) (bin : Bincode) where
  approved-escalated :
      (w : Wallet S I) (digest : Bytes) (value now : ℕ) (hitl : Option HitlApproval) (d : Decision)
      → approved vc sg bin w digest value now hitl d ≡ ok tt
      → d ≡ require_hitl
      → (a : HitlApproval) × (hitl ≡ some a)
        × Satisfies vc.core vc.vault_hitl_approval_v1 a digest value w.policy.hitl_approver_pk now
  unfolding approved
  approved-escalated w digest value now hitl allow h r = cc
  approved-escalated w digest value now none require_hitl h r = cc
  approved-escalated w digest value now (some a) require_hitl h r = (
    a,
    refl,
    (verify_iff vc.core vc.vault_hitl_approval_v1 a digest value w.policy.hitl_approver_pk now).0
        (ground arith),
  )

  permitted-Permits :
      (w : Wallet S I) (to : Bytes) (value : ℕ) (nonce : Bytes) (chain : Chain) (now : ℕ)
      (hitl : Option HitlApproval)
      → w.policy.daily_cap < u128_max
      → permitted vc sg bin w to value nonce chain now hitl ≡ ok tt
      → Permits vc sg bin w to value nonce chain now hitl
  unfolding permitted digest_of transfer_of
  permitted-Permits w to value nonce chain now hitl c h =
      elim (Result-cases (check w.policy w.policy_state (request_of to value chain) now)) [
        | inl (d, e) ↦ record {
          decision = d;
          admits =
              subst
                (λ (r : Rail).
                  Admits w.policy w.policy_state (record { rail = r; amount = value; to = to }) now
                    d)
                (rail_of-rail_on chain)
                ((check_iff w.policy w.policy_state (request_of to value chain) now d c).0 e);
          escalated =
              approved-escalated w (digest_of vc sg bin w to value nonce chain now) value now hitl d
                (ground arith);
        }
        | inr (v, e) ↦ absurd (ground arith)
      ]

  -- Whatever a call changes in the wallet, be it the state of the external signer, the spend
  -- record or the receipt, it changes only for a request within the policy and, where that demands
  -- a human, with an approval by the pinned approver of this amount and of the EIP-712 digest of the
  -- transfer from the signer's address to the payee, valid from now for the policy's lifetime. The cap is
  -- below the largest `u128`.
  pub authorize_eip3009-changes :
      (w : Wallet S I) (to : Bytes) (value : ℕ) (nonce : Bytes) (chain : Chain) (now : ℕ)
      (hitl : Option HitlApproval)
      → w.policy.daily_cap < u128_max
      → (authorize_eip3009 vc sg bin w to value nonce chain now hitl).1 ≢ w
      → Permits vc sg bin w to value nonce chain now hitl
  unfolding authorize_eip3009
  authorize_eip3009-changes w to value nonce chain now hitl c h =
      elim (Result-cases (permitted vc sg bin w to value nonce chain now hitl)) [
        | inl (_, e) ↦ permitted-Permits w to value nonce chain now hitl c e
        | inr (v, e) ↦ absurd (h (rw (e, authorize_eip3009) refl))
      ]

  pub accepted_parts :
      (w : Wallet S I) (to : Bytes) (value : ℕ) (nonce : Bytes) (chain : Chain) (now : ℕ)
      (hitl : Option HitlApproval) (a : SettlementAuthorization)
      → (authorize_eip3009 vc sg bin w to value nonce chain now hitl).0 ≡ ok a
      → (permitted vc sg bin w to value nonce chain now hitl ≡ ok tt)
        × ((authorize_eip3009 vc sg bin w to value nonce chain now hitl).1.policy_state
            ≡ record_spend w.policy_state value now)
        × ((authorize_eip3009 vc sg bin w to value nonce chain now hitl).1.last_receipt
            ≡ some (record {
              auth_hash = digest_of vc sg bin w to value nonce chain now;
              amount = value;
              dst = to;
              ts = now;
              chain_id = chain_id chain;
            }))
        × (a.authorization ≡ transfer_of vc sg bin w to value nonce now)
        × (a.eip712_digest ≡ digest_of vc sg bin w to value nonce chain now)
        × (a.intent ≡ intent_of vc sg bin (transfer_of vc sg bin w to value nonce now) chain)
        × ((sg.sign_digest w.signer (digest_of vc sg bin w to value nonce chain now)).0
            ≡ ok a.external_signature)
        × (sign_intent vc sg bin w a.intent ≡ ok a.intent_signature)
        × (a.intent_signer_pk ≡ vc.core.public_key w.identity)
        × (a.chain ≡ chain)
  unfolding authorize_eip3009 concluded recorded transfer_of
  accepted_parts w to value nonce chain now hitl a h = ground arith

  -- A call that fails records no spend and no receipt.
  pub authorize_eip3009-fails :
      (w : Wallet S I) (to : Bytes) (value : ℕ) (nonce : Bytes) (chain : Chain) (now : ℕ)
      (hitl : Option HitlApproval) (e : VaultError E)
      → (authorize_eip3009 vc sg bin w to value nonce chain now hitl).0 ≡ err e
      → ((authorize_eip3009 vc sg bin w to value nonce chain now hitl).1.policy_state
          ≡ w.policy_state)
        × ((authorize_eip3009 vc sg bin w to value nonce chain now hitl).1.last_receipt
            ≡ w.last_receipt)
  unfolding authorize_eip3009 concluded
  authorize_eip3009-fails w to value nonce chain now hitl e h = ground arith

  pub policy-authorize_eip3009 :
      (w : Wallet S I) (to : Bytes) (value : ℕ) (nonce : Bytes) (chain : Chain) (now : ℕ)
      (hitl : Option HitlApproval)
      → (authorize_eip3009 vc sg bin w to value nonce chain now hitl).1.policy ≡ w.policy
  unfolding authorize_eip3009 concluded recorded
  policy-authorize_eip3009 w to value nonce chain now hitl = ground arith

  sign_intent-ok :
      (w : Wallet S I) (intent : SpendIntent) (signature : Bytes)
      → sign_intent vc sg bin w intent ≡ ok signature
      → (bytes : Bytes) × (bin.serialize_intent intent ≡ some bytes)
        × (vc.core.sign_with_purpose w.identity vc.vault_spend_intent_v1 bytes ≡ ok signature)
  unfolding sign_intent
  sign_intent-ok w intent signature h = elim (Option-cases (bin.serialize_intent intent)) [
    | inl e ↦ absurd (ground arith)
    | inr (bytes, e) ↦ (bytes, e, ground arith)
  ]

  -- An accepted call was within the policy, and approved where that demands a human; what it returns
  -- is the transfer from the signer's address to the payee, for this value and nonce, valid from now
  -- for the policy's lifetime, with its EIP-712 digest, the external signer's signature of that very
  -- digest, and an intent that repeats the transfer, its digest and the chain's number and that the
  -- vault's identity signed under the intent's purpose; and it leaves the spend recorded, in the
  -- record's day or as the first of a new one, and the receipt of that digest. The cap is below the
  -- largest `u128`.
  pub authorize_eip3009-accepts :
      (w : Wallet S I) (to : Bytes) (value : ℕ) (nonce : Bytes) (chain : Chain) (now : ℕ)
      (hitl : Option HitlApproval) (a : SettlementAuthorization)
      → w.policy.daily_cap < u128_max
      → (authorize_eip3009 vc sg bin w to value nonce chain now hitl).0 ≡ ok a
      → Permits vc sg bin w to value nonce chain now hitl
        × Grants vc sg bin w to value nonce chain now a
            (authorize_eip3009 vc sg bin w to value nonce chain now hitl).1
  unfolding transfer_of digest_of intent_of
  authorize_eip3009-accepts w to value nonce chain now hitl a c h =
      let p = accepted_parts w to value nonce chain now hitl a h in
      let number = chain_id-eip155_number chain in
      (
        permitted-Permits w to value nonce chain now hitl c p.0,
        record {
          transfer = p.3;
          digest =
              p.4
              ∙ ap (λ (t : TransferWithAuthorization). eip712_digest vc.keccak256 t chain)
                  (sym p.3);
          signed =
              subst (λ (d : Bytes). (sg.sign_digest w.signer d).0 ≡ ok a.external_signature)
                (sym p.4) p.6;
          intent =
              p.5
              ∙ (ap₂ (λ (t : TransferWithAuthorization) (d : Bytes). repeats t d (chain_id chain))
                    (sym p.3) (sym p.4)
                  ∙ ap (repeats a.authorization a.eip712_digest) number);
          intent_signed = sign_intent-ok w a.intent a.intent_signature p.7;
          intent_signer = p.8;
          same_chain = p.9;
          spent =
              subst (λ (t : PolicyState). Spent w.policy_state t value now) (sym p.1)
                (record_spend-Spent w.policy_state value now);
          receipt =
              p.2
              ∙ ap₂
                  (λ (d : Bytes) (k : ℕ).
                    some
                      (record { auth_hash = d; amount = value; dst = to; ts = now; chain_id = k }))
                  (sym p.4) number;
        },
      )
