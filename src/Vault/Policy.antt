-- ===== src/Vault/Policy.antt =====
-- src/policy.rs: the standing spend policy and the human-in-the-loop approval.
pub mod Verdict
pub mod Window
use aethel_runtime.Base.{
  ℕ, ◌-◌, Bool, true, false, not, ◌||◌, Option, none, some, List, [], ◌∷◌, ◌++◌, ltb, leb, ◌==◌,
  if◌then◌else◌, saturating_add128, Result, ok, ◌>>=◌, ◌>>◌, refuse_if,
}
use aethel_runtime.Base.Bytes.{Bytes, bytes_eq}
use aethel_runtime.Wire.{to_be_bytes}
use aethel_runtime.Auth.Core.{Core}

pub data Rail : Type 0 where
  eip3009_base eip3009_ethereum eip3009_arbitrum fhe_internal : Rail

pub record SpendPolicy : Type 0 where
  pub max_per_call : ℕ
  pub daily_cap : ℕ
  pub allow_rails : List Rail
  pub hitl_above : ℕ
  pub ttl_secs : ℕ
  pub hitl_approver_pk : Option Bytes

pub record PolicyState : Type 0 where
  pub day_start_unix : ℕ
  pub spent_today : ℕ

-- `PolicyState::default()`.
abbrev pub default_state : PolicyState
default_state = record { day_start_unix = 0; spent_today = 0 }

pub record SpendRequest : Type 0 where
  pub rail : Rail
  pub amount : ℕ
  pub to : Bytes

pub data Decision : Type 0 where
  allow require_hitl : Decision

pub data PolicyViolation : Type 0 where
  exceeds_max_per_call exceeds_daily_cap rail_not_allowed : PolicyViolation

abbrev pub day_seconds : ℕ
day_seconds = 86400

-- The derived equality of `Rail`.
unfoldable pub rail_eq : Rail → Rail → Bool
rail_eq eip3009_base eip3009_base = true
rail_eq eip3009_ethereum eip3009_ethereum = true
rail_eq eip3009_arbitrum eip3009_arbitrum = true
rail_eq fhe_internal fhe_internal = true
rail_eq _ _ = false

-- `self.allow_rails.contains(&req.rail)`.
unfoldable pub allows_rail : List Rail → Rail → Bool
unfolding rail_eq
allows_rail [] r = false
allows_rail (x ∷ xs) r = rail_eq x r || allows_rail xs r

unfoldable pub effective_spent_today : PolicyState → ℕ → ℕ
effective_spent_today state now_unix =
    if leb day_seconds (now_unix - state.day_start_unix) then 0 else state.spent_today

-- `SpendPolicy::check`.
unfoldable pub check :
    SpendPolicy → PolicyState → SpendRequest → ℕ → Result PolicyViolation Decision
unfolding allows_rail effective_spent_today
check policy state req now_unix = do
  refuse_if (not (allows_rail policy.allow_rails req.rail)) rail_not_allowed
  refuse_if (ltb policy.max_per_call req.amount) exceeds_max_per_call
  let projected = saturating_add128 (effective_spent_today state now_unix) req.amount
  refuse_if (ltb policy.daily_cap projected) exceeds_daily_cap
  ok (if ltb policy.hitl_above req.amount then require_hitl else allow)

-- `PolicyState::record`: the first test and its two writes, then the addition.
unfoldable pub rolled : PolicyState → ℕ → PolicyState
rolled state now_unix =
    if leb day_seconds (now_unix - state.day_start_unix)
    then record { day_start_unix = now_unix; spent_today = 0 }
    else state

unfoldable pub record_spend : PolicyState → ℕ → ℕ → PolicyState
unfolding rolled
record_spend state amount now_unix =
    let s = rolled state now_unix in
    record s { spent_today = saturating_add128 s.spent_today amount }

unfoldable pub hitl_approval_message : Bytes → ℕ → ℕ → Bytes
unfolding to_be_bytes
hitl_approval_message intent_hash amount expiry_unix =
    intent_hash ++ (to_be_bytes 16 amount ++ to_be_bytes 8 expiry_unix)

pub record HitlApproval : Type 0 where
  pub approver_pk : Bytes
  pub signature : Bytes
  pub intent_hash : Bytes
  pub amount : ℕ
  pub expiry_unix : ℕ

-- The match of the approver with the policy's: no pinned key satisfies nothing.
unfoldable pub pinned : Option Bytes → Bytes → Bool
pinned none pk = false
pinned (some expected) pk = bytes_eq pk expected

-- `purpose` is `VAULT_HITL_APPROVAL_V1`.
module _ {E I : Type 0} (core : Core E I) (purpose : Bytes) where
  -- `HitlApproval::verify`.
  unfoldable pub verify : HitlApproval → Bytes → ℕ → Option Bytes → ℕ → Result E Bool
  unfolding pinned
  verify a expected_intent_hash expected_amount expected_approver_pk now_unix =
      if leb a.expiry_unix now_unix
      then ok false
      else if not (bytes_eq a.intent_hash expected_intent_hash) || not (a.amount == expected_amount)
      then ok false
      else if not (pinned expected_approver_pk a.approver_pk)
      then ok false
      else core.verify_with_purpose a.approver_pk purpose
          (hitl_approval_message a.intent_hash a.amount a.expiry_unix) a.signature
