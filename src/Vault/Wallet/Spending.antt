-- ===== src/Vault/Wallet/Spending.antt =====
-- What a wallet authorizes over a history of calls, whatever the callers ask for.
use aethel_runtime.Base.{
  ℕ, ◌+◌, ◌≤◌, ◌<◌, ◌≡◌, subst, inl, inr, Option, List, [], ◌∷◌, arith, u128_max, Result, ok, err,
  Result-cases,
}
use aethel_runtime.Base.Bytes.{Bytes}
use aethel_runtime.Vault.Core.{VaultCore}
use aethel_runtime.Vault.Error.{VaultError}
use aethel_runtime.Vault.Policy.{Rail, Decision, check, HitlApproval}
use aethel_runtime.Vault.Policy.Window.{History, total, Admitted, Within, total-le-twice_cap}
use aethel_runtime.Vault.Settlement.{Chain}
use aethel_runtime.Vault.Wallet.{
  SettlementSigner, SettlementAuthorization, Bincode, Wallet, request_of, permitted,
  authorize_eip3009,
}
use aethel_runtime.Vault.Wallet.Terms.{rail_on, rail_of-rail_on}
use aethel_runtime.Vault.Wallet.Verdict.{
  accepted_parts, authorize_eip3009-fails, policy-authorize_eip3009,
}

pub record Call : Type 0 where
  pub to : Bytes
  pub value : ℕ
  pub nonce : Bytes
  pub chain : Chain
  pub now : ℕ
  pub hitl : Option HitlApproval

module _ {E I S : Type 0} (vc : VaultCore E I) (sg : SettlementSigner S) (bin : Bincode) where
  abbrev pub answer : Wallet S I → Call → Result (VaultError E) SettlementAuthorization
  answer w c = (authorize_eip3009 vc sg bin w c.to c.value c.nonce c.chain c.now c.hitl).0

  abbrev pub after : Wallet S I → Call → Wallet S I
  after w c = (authorize_eip3009 vc sg bin w c.to c.value c.nonce c.chain c.now c.hitl).1

  -- The spends that the calls were granted, with their times.
  unfoldable pub settled : Wallet S I → List Call → History
  settled w [] = []
  settled w (c ∷ cs) = elim (answer w c) [
    | ok a ↦
        (record { rail = rail_on c.chain; amount = c.value; to = c.to }, c.now)
        ∷ settled (after w c) cs
    | err e ↦ settled (after w c) cs
  ]

  permitted-check :
      (w : Wallet S I) (c : Call)
      → permitted vc sg bin w c.to c.value c.nonce c.chain c.now c.hitl ≡ ok tt
      → (d : Decision) × (check w.policy w.policy_state
            (record { rail = rail_on c.chain; amount = c.value; to = c.to })
            c.now
          ≡ ok d)
  unfolding permitted
  permitted-check w c h =
      subst
        (λ (r : Rail).
          (d : Decision) × (check w.policy w.policy_state
              (record { rail = r; amount = c.value; to = c.to }) c.now
            ≡ ok d))
        (rail_of-rail_on c.chain)
        (elim (Result-cases
          (check w.policy w.policy_state (request_of c.to c.value c.chain) c.now)) [
            | inl r ↦ r
            | inr (v, e) ↦ absurd (ground arith)
          ])

  -- The granted spends are a history that the policy admits from the wallet's state.
  settled-Admitted :
      (w : Wallet S I) (cs : List Call) → Admitted w.policy w.policy_state (settled w cs)
  unfolding settled
  settled-Admitted w [] = tt
  settled-Admitted w (c ∷ cs) =
      let same = policy-authorize_eip3009 vc sg bin w c.to c.value c.nonce c.chain c.now c.hitl in
      let rest : Admitted w.policy (after w c).policy_state (settled (after w c) cs) =
        subst (λ p. Admitted p (after w c).policy_state (settled (after w c) cs)) same
          (settled-Admitted (after w c) cs) in
      elim (Result-cases (answer w c)) [
        | inl (a, e) ↦
            let parts = accepted_parts vc sg bin w c.to c.value c.nonce c.chain c.now c.hitl a e in
            rw (e, settled)
              (
                permitted-check w c parts.0,
                subst (λ s. Admitted w.policy s (settled (after w c) cs)) parts.1 rest,
              )
        | inr (v, e) ↦
            let kept =
              authorize_eip3009-fails vc sg bin w c.to c.value c.nonce c.chain c.now c.hitl v e in
            rw (e, settled) (subst (λ s. Admitted w.policy s (settled (after w c) cs)) kept.0 rest)
      ]

  -- Whatever calls a wallet is given, in whatever order and with whatever approvals, if the transfers
  -- that it authorizes stand at times within 86,400 consecutive seconds, they sum to at most twice
  -- the daily cap. The cap is below the largest `u128`, and what the wallet's record has spent is
  -- within the cap at the start.
  pub settled-le-twice_cap :
      (w : Wallet S I) (t : ℕ) (cs : List Call)
      → w.policy.daily_cap < u128_max
      → w.policy_state.spent_today ≤ w.policy.daily_cap
      → Within t (settled w cs)
      → total (settled w cs) ≤ w.policy.daily_cap + w.policy.daily_cap
  settled-le-twice_cap w t cs c h e =
      total-le-twice_cap w.policy w.policy_state t (settled w cs) c h (settled-Admitted w cs) e
