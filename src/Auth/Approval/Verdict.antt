-- ===== src/Auth/Approval/Verdict.antt =====
-- What an accepted approval establishes.
use aethel_runtime.Base.{
  ◌≡◌, ◌↔◌, ◌⊎◌, Bool, true, false, List, arith, ==_iff, is_empty, Result, ok,
}
use aethel_runtime.Base.Bytes.{Bytes, bytes_eq_iff}
use aethel_runtime.Auth.Core.{Core}
use aethel_runtime.Auth.Error.{StoreError}
use aethel_runtime.Auth.Nonce.{NonceStore}
use aethel_runtime.Auth.Envelope.{
  VerifyParams, InEnvelope, check_envelope-InEnvelope, InEnvelope-check_envelope,
  check_signature-eq-ok, check_signature-of-verify, claim_nonce, nonce_key, nonce_retention,
}
use aethel_runtime.Auth.Delegation.{Delegation, delegation_id}
use aethel_runtime.Auth.Delegation.Verdict.{
  IsLive, Stands, check_standing_iff, verify_delegation-IsLive, IsLive-verify_delegation,
}
use aethel_runtime.Auth.Approval.{
  Approval, Request, auth_approval_v1, signing_input, check_terms, check_approval,
}

module _ {E I : Type 0} (core : Core E I) where
  -- What an approval must satisfy before its nonce is claimed.
  pub record Approves (d : Delegation) (a : Approval) (params : VerifyParams)
      (principals : List Bytes) (is_revoked : Bytes → Bool) (request : Request) : Type 0 where
    pub stands : Stands d principals is_revoked
    pub live : IsLive core d params.expected_audience params.now
    pub key_present : is_empty a.principal_key ≡ false
    pub signature_present : is_empty a.signature ≡ false
    pub by_principal : a.principal_key ≡ d.principal_key
    pub envelope : InEnvelope a.audience a.issued_at a.expires_at params
    pub this_delegation : a.delegation_id ≡ delegation_id core d
    pub this_request : a.request_digest ≡ request.request_digest
    pub this_action : a.action ≡ request.action
    pub this_amount : a.amount ≡ request.amount
    pub signed :
        core.verify_with_purpose a.principal_key auth_approval_v1 (signing_input a) a.signature
        ≡ ok true

  check_terms-Approves :
      (d : Delegation) (a : Approval) (params : VerifyParams) (principals : List Bytes)
      (is_revoked : Bytes → Bool) (request : Request)
      → check_terms core d a params principals is_revoked request ≡ ok tt
      → Approves d a params principals is_revoked request
  unfolding check_terms
  check_terms-Approves d a params principals is_revoked request h =
      let stands = (check_standing_iff d principals is_revoked).0 (ground arith) in
      let live =
        verify_delegation-IsLive core d params.expected_audience params.now (ground arith) in
      ground (
        arith,
        stands,
        live,
        check_envelope-InEnvelope a.audience a.issued_at a.expires_at params,
        bytes_eq_iff a.principal_key d.principal_key,
        bytes_eq_iff a.delegation_id (delegation_id core d),
        bytes_eq_iff a.request_digest request.request_digest,
        bytes_eq_iff a.action request.action,
        check_signature-eq-ok core a.principal_key auth_approval_v1 (signing_input a) a.signature,
      )

  Approves-check_terms :
      (d : Delegation) (a : Approval) (params : VerifyParams) (principals : List Bytes)
      (is_revoked : Bytes → Bool) (request : Request)
      → Approves d a params principals is_revoked request
      → check_terms core d a params principals is_revoked request ≡ ok tt
  unfolding check_terms
  Approves-check_terms d a params principals is_revoked request h =
      rw
        (
          (check_standing_iff d principals is_revoked).1 h.stands,
          IsLive-verify_delegation core d params.expected_audience params.now h.live,
          h.key_present,
          h.signature_present,
          (bytes_eq_iff a.principal_key d.principal_key).1 h.by_principal,
          InEnvelope-check_envelope _ _ _ params h.envelope,
          (bytes_eq_iff a.delegation_id (delegation_id core d)).1 h.this_delegation,
          (bytes_eq_iff a.request_digest request.request_digest).1 h.this_request,
          (bytes_eq_iff a.action request.action).1 h.this_action,
          (==_iff a.amount request.amount).1 h.this_amount,
        )
        (check_signature-of-verify core _ _ _ _ h.signed)

module _ {E I S : Type 0} (core : Core E I) (ns : NonceStore S) where
  -- The claim that an accepted approval makes.
  abbrev pub approval_claim : Approval → S → Result StoreError Bool × S
  approval_claim a s =
      ns.claim s (nonce_key core auth_approval_v1 a.principal_key a.nonce)
        (nonce_retention a.issued_at a.expires_at)

  -- An approval is accepted exactly when the delegation stands and is live, the approval is well
  -- signed by the delegation's own principal in its window, it names this delegation, request,
  -- action and amount, each exactly, and its nonce is claimed by this call.
  pub check_approval-accepts :
      (d : Delegation) (a : Approval) (params : VerifyParams) (principals : List Bytes)
      (is_revoked : Bytes → Bool) (request : Request) (s : S)
      → ((check_approval core ns d a params principals is_revoked request s).0 ≡ ok tt) ↔ (
          Approves core d a params principals is_revoked request
          × ((approval_claim a s).0 ≡ ok true))
  unfolding check_approval claim_nonce
  check_approval-accepts d a params principals is_revoked request s = (
    λ h. ground (arith, check_terms-Approves core d a params principals is_revoked request),
    λ g. rw (Approves-check_terms core d a params principals is_revoked request g.0) (ground arith),
  )

  pub check_approval-after :
      (d : Delegation) (a : Approval) (params : VerifyParams) (principals : List Bytes)
      (is_revoked : Bytes → Bool) (request : Request) (s : S)
      → (check_approval core ns d a params principals is_revoked request s).1 ≡ s
        ⊎ (check_approval core ns d a params principals is_revoked request s).1
          ≡ (approval_claim a s).1
  unfolding check_approval claim_nonce
  check_approval-after d a params principals is_revoked request s = ground arith

  pub check_approval-claims :
      (d : Delegation) (a : Approval) (params : VerifyParams) (principals : List Bytes)
      (is_revoked : Bytes → Bool) (request : Request) (s : S)
      → (check_approval core ns d a params principals is_revoked request s).0 ≡ ok tt
      → (check_approval core ns d a params principals is_revoked request s).1
        ≡ (approval_claim a s).1
  unfolding check_approval claim_nonce
  check_approval-claims d a params principals is_revoked request s h = ground arith
