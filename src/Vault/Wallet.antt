-- ===== src/Vault/Wallet.antt =====
-- src/settlement.rs and src/receipt.rs: the wallet, which asks an external signer for an authorization
-- under the policy, and the receipt of it.
pub mod Terms
pub mod Verdict
pub mod Receipts
pub mod Spending
use aethel_runtime.Base.{
  ℕ, Bool, not, Option, none, some, saturating_add64, Result, ok, err, ◌>>=◌, ◌>>◌, refuse_if,
  map_err,
}
use aethel_runtime.Base.Bytes.{Bytes}
use aethel_runtime.Auth.Core.{Core}
use aethel_runtime.Vault.Core.{VaultCore}
use aethel_runtime.Vault.Error.{
  VaultError, policy_denied, hitl_required, signer_failure, identity_error, serialization_error,
  SettlementError,
}
use aethel_runtime.Vault.Policy.{
  SpendPolicy, PolicyState, SpendRequest, Decision, allow, require_hitl, check, record_spend,
  HitlApproval, verify, default_state,
}
use aethel_runtime.Vault.Settlement.{
  Chain, chain_id, rail_of, TransferWithAuthorization, eip712_digest,
}

-- The trait `SettlementSigner`, with whatever state the external wallet keeps.
pub record SettlementSigner (S : Type 0) : Type 0 where
  pub sign_digest : S → Bytes → Result SettlementError Bytes × S
  pub address : S → Bytes

pub record SpendIntent : Type 0 where
  pub chain_id : ℕ
  pub from : Bytes
  pub to : Bytes
  pub value : ℕ
  pub valid_after : ℕ
  pub valid_before : ℕ
  pub nonce : Bytes
  pub eip712_digest : Bytes

pub record SettlementAuthorization : Type 0 where
  pub authorization : TransferWithAuthorization
  pub chain : Chain
  pub eip712_digest : Bytes
  pub external_signature : Bytes
  pub intent : SpendIntent
  pub intent_signature : Bytes
  pub intent_signer_pk : Bytes

pub record Receipt : Type 0 where
  pub auth_hash : Bytes
  pub amount : ℕ
  pub dst : Bytes
  pub ts : ℕ
  pub chain_id : ℕ

pub record SignedReceipt : Type 0 where
  pub receipt : Receipt
  pub signer_pk : Bytes
  pub signature : Bytes

-- `bincode::serialize` of the two signed structures; `none` is its error.
pub record Bincode : Type 0 where
  pub serialize_intent : SpendIntent → Option Bytes
  pub serialize_receipt : Receipt → Option Bytes

pub record Wallet (S I : Type 0) : Type 0 where
  pub signer : S
  pub identity : I
  pub policy : SpendPolicy
  pub policy_state : PolicyState
  pub last_receipt : Option Receipt

abbrev pub new : {S I : Type 0} → S → I → SpendPolicy → Wallet S I
new signer identity policy = record {
  signer = signer;
  identity = identity;
  policy = policy;
  policy_state = default_state;
  last_receipt = none;
}

-- `.map_err(|_| VaultError::SerializationError)`
abbrev pub serialized : {E : Type 0} → Option Bytes → Result (VaultError E) Bytes
serialized none = err serialization_error
serialized (some b) = ok b

-- The request that the policy checks.
abbrev pub request_of : Bytes → ℕ → Chain → SpendRequest
request_of to value chain = record { rail = rail_of chain; amount = value; to = to }

module _ {E I S : Type 0} (vc : VaultCore E I) (sg : SettlementSigner S) (bin : Bincode) where
  -- The message that a call authorizes.
  unfoldable pub transfer_of : Wallet S I → Bytes → ℕ → Bytes → ℕ → TransferWithAuthorization
  transfer_of w to value nonce now_unix = record {
    from = sg.address w.signer;
    to = to;
    value = value;
    valid_after = now_unix;
    valid_before = saturating_add64 now_unix w.policy.ttl_secs;
    nonce = nonce;
  }

  unfoldable pub digest_of : Wallet S I → Bytes → ℕ → Bytes → Chain → ℕ → Bytes
  unfolding transfer_of eip712_digest
  digest_of w to value nonce chain now_unix =
      eip712_digest vc.keccak256 (transfer_of w to value nonce now_unix) chain

  -- The match on the approval handed in, where one is required.
  unfoldable pub approved :
      Wallet S I → Bytes → ℕ → ℕ → Option HitlApproval → Decision → Result (VaultError E) (Unit {0})
  approved w digest value now_unix hitl allow = ok tt
  approved w digest value now_unix none require_hitl = err hitl_required
  approved w digest value now_unix (some a) require_hitl = do
    verdict ←
        map_err identity_error (
          verify vc.core vc.vault_hitl_approval_v1 a digest value w.policy.hitl_approver_pk
            now_unix)
    refuse_if (not verdict) hitl_required

  -- All that precedes the first signature.
  unfoldable pub permitted :
      Wallet S I
      → Bytes
      → ℕ
      → Bytes
      → Chain
      → ℕ
      → Option HitlApproval
      → Result (VaultError E) (Unit {0})
  unfolding approved digest_of
  permitted w to value nonce chain now_unix hitl = do
    decision ←
        map_err policy_denied (check w.policy w.policy_state (request_of to value chain) now_unix)
    approved w (digest_of w to value nonce chain now_unix) value now_unix hitl decision

  -- `SpendIntent::from_authorization`.
  unfoldable pub intent_of : TransferWithAuthorization → Chain → SpendIntent
  unfolding eip712_digest chain_id
  intent_of a chain = record {
    chain_id = chain_id chain;
    from = a.from;
    to = a.to;
    value = a.value;
    valid_after = a.valid_after;
    valid_before = a.valid_before;
    nonce = a.nonce;
    eip712_digest = eip712_digest vc.keccak256 a chain;
  }

  -- The vault's own signature over the intent.
  unfoldable pub sign_intent : Wallet S I → SpendIntent → Result (VaultError E) Bytes
  sign_intent w intent = do
    bytes ← serialized (bin.serialize_intent intent)
    map_err identity_error (vc.core.sign_with_purpose w.identity vc.vault_spend_intent_v1 bytes)

  -- The record of the spend and of its receipt.
  unfoldable pub recorded : Wallet S I → Bytes → ℕ → Bytes → Chain → ℕ → Wallet S I
  unfolding record_spend chain_id
  recorded w to value digest chain now_unix = record w {
    policy_state = record_spend w.policy_state value now_unix;
    last_receipt = some (record {
      auth_hash = digest;
      amount = value;
      dst = to;
      ts = now_unix;
      chain_id = chain_id chain;
    });
  }

  -- What follows the external signature, on the wallet whose signer has made it.
  unfoldable pub concluded :
      Wallet S I
      → TransferWithAuthorization
      → Bytes
      → Chain
      → Result SettlementError Bytes
      → Result (VaultError E) SettlementAuthorization × Wallet S I
  unfolding sign_intent recorded intent_of
  concluded w a digest chain (err e) = (err (signer_failure e), w)
  concluded w a digest chain (ok external) = elim (sign_intent w (intent_of a chain)) [
    | err e ↦ (err e, w)
    | ok signature ↦ (
      ok (record {
        authorization = a;
        chain = chain;
        eip712_digest = digest;
        external_signature = external;
        intent = intent_of a chain;
        intent_signature = signature;
        intent_signer_pk = vc.core.public_key w.identity;
      }),
      recorded w a.to a.value digest chain a.valid_after,
    )
  ]

  unfoldable pub authorize_eip3009 :
      Wallet S I
      → Bytes
      → ℕ
      → Bytes
      → Chain
      → ℕ
      → Option HitlApproval
      → Result (VaultError E) SettlementAuthorization × Wallet S I
  unfolding permitted concluded
  authorize_eip3009 w to value nonce chain now_unix hitl =
      elim (permitted w to value nonce chain now_unix hitl) [
        | err e ↦ (err e, w)
        | ok _ ↦
            let digest = digest_of w to value nonce chain now_unix in
            let (external, signer) = sg.sign_digest w.signer digest in
            concluded (record w { signer = signer }) (transfer_of w to value nonce now_unix) digest
              chain external
      ]

  -- `Receipt::sign`, and `Wallet::sign_receipt` with the wallet's identity.
  unfoldable pub sign_receipt_as : I → Receipt → Result (VaultError E) SignedReceipt
  sign_receipt_as identity receipt = do
    bytes ← serialized (bin.serialize_receipt receipt)
    signature ←
        map_err identity_error
          (vc.core.sign_with_purpose identity vc.vault_settlement_receipt_v1 bytes)
    ok (record {
      receipt = receipt;
      signer_pk = vc.core.public_key identity;
      signature = signature;
    })

  unfoldable pub sign_receipt : Wallet S I → Receipt → Result (VaultError E) SignedReceipt
  unfolding sign_receipt_as
  sign_receipt w receipt = sign_receipt_as w.identity receipt

  -- `SignedReceipt::verify`.
  unfoldable pub verify_receipt : SignedReceipt → Result (VaultError E) Bool
  verify_receipt r = do
    bytes ← serialized (bin.serialize_receipt r.receipt)
    map_err identity_error
        (vc.core.verify_with_purpose r.signer_pk vc.vault_settlement_receipt_v1 bytes r.signature)
