-- ===== src/Vault/Policy/Verdict.antt =====
-- What the policy admits, and what an approval must be to unblock a request.
use aethel_runtime.Base.{
  ℕ, ◌+◌, ◌^◌, ◌≤◌, ◌<◌, ◌≡◌, sym, ap, ◌∙◌, ◌↔◌, ◌⊎◌, true, Option, none, some, List, [], ◌∷◌, ◌++◌,
  arith, u128_max, length, append-inj, ok,
}
use aethel_runtime.Base.Bytes.{Bytes, bytes_eq_iff}
use aethel_runtime.Wire.Unique.{to_be_bytes_unique}
use aethel_runtime.Auth.Core.{Core}
use aethel_runtime.Vault.Policy.{
  Rail, SpendPolicy, PolicyState, SpendRequest, Decision, allow, require_hitl, rail_eq, allows_rail,
  effective_spent_today, check, hitl_approval_message, HitlApproval, pinned, verify,
}

rail_eq_iff : (a b : Rail) → (rail_eq a b ≡ true) ↔ (a ≡ b)
unfolding rail_eq
rail_eq_iff a b = ground arith

abbrev pub Allowed : Rail → List Rail → Type 0
Allowed r [] = ⊥
Allowed r (x ∷ xs) = (x ≡ r) ⊎ Allowed r xs

pub allows_rail_iff : (xs : List Rail) (r : Rail) → (allows_rail xs r ≡ true) ↔ Allowed r xs
unfolding allows_rail
allows_rail_iff [] r = ground arith
allows_rail_iff (x ∷ xs) r = ground (arith, rail_eq_iff x r, allows_rail_iff xs r)

-- The limits that an admitted request keeps. The record's day lasts 86,400 seconds; what was spent in
-- it counts while it runs, and not once it is over.
pub record Admits (p : SpendPolicy) (s : PolicyState) (req : SpendRequest) (now : ℕ) (d : Decision)
    : Type 0 where
  pub rail : Allowed req.rail p.allow_rails
  pub per_call : req.amount ≤ p.max_per_call
  pub day_running : now < s.day_start_unix + 86400 → s.spent_today + req.amount ≤ p.daily_cap
  pub day_over : s.day_start_unix + 86400 ≤ now → req.amount ≤ p.daily_cap
  pub escalates : p.hitl_above < req.amount → d ≡ require_hitl
  pub passes : req.amount ≤ p.hitl_above → d ≡ allow

-- A request is admitted with decision `d` exactly when its rail is listed, it is within the limit per
-- call, it is within the daily cap together with what the record's day has seen, if this day of
-- 86,400 seconds still runs, and alone if it is over, and `d` is to require a human exactly above the
-- threshold. The cap is below the largest `u128`.
pub check_iff :
    (p : SpendPolicy) (s : PolicyState) (req : SpendRequest) (now : ℕ) (d : Decision)
    → p.daily_cap < u128_max
    → (check p s req now ≡ ok d) ↔ Admits p s req now d
unfolding check effective_spent_today
check_iff p s req now d h = (
  λ e. ground (arith, allows_rail_iff p.allow_rails req.rail),
  λ a. ground (arith, allows_rail_iff p.allow_rails req.rail),
)

module _ {E I : Type 0} (core : Core E I) (purpose : Bytes) where
  -- What an approval must be to satisfy a request.
  pub record Satisfies (a : HitlApproval) (intent_hash : Bytes) (amount : ℕ)
      (approver : Option Bytes) (now : ℕ) : Type 0 where
    pub live : now < a.expiry_unix
    pub same_intent : a.intent_hash ≡ intent_hash
    pub same_amount : a.amount ≡ amount
    pub by_approver : approver ≡ some a.approver_pk
    pub signed :
        core.verify_with_purpose a.approver_pk purpose
          (hitl_approval_message a.intent_hash a.amount a.expiry_unix)
          a.signature
        ≡ ok true

  pinned_iff : (e : Option Bytes) (k : Bytes) → (pinned e k ≡ true) ↔ (e ≡ some k)
  unfolding pinned
  pinned_iff none k = ground arith
  pinned_iff (some e) k = ground (arith, bytes_eq_iff k e)

  -- An approval satisfies a request exactly when it has not expired, is for this very intent and
  -- amount, is by the approver that the policy pins, and is signed by that key under the approval
  -- purpose.
  pub verify_iff :
      (a : HitlApproval) (intent_hash : Bytes) (amount : ℕ) (approver : Option Bytes) (now : ℕ)
      → (verify core purpose a intent_hash amount approver now ≡ ok true)
        ↔ Satisfies a intent_hash amount approver now
  unfolding verify
  verify_iff a intent_hash amount approver now = (
    λ h. ground (arith, bytes_eq_iff a.intent_hash intent_hash, pinned_iff approver a.approver_pk),
    λ h. ground (arith, bytes_eq_iff a.intent_hash intent_hash, pinned_iff approver a.approver_pk),
  )

-- Two approval messages over 32-byte hashes, `u128` amounts and `u64` expiries are equal only for the
-- same hash, amount and expiry.
pub hitl_approval_message-inj :
    (h k : Bytes) (a b x y : ℕ)
    → length h ≡ 32
    → length k ≡ 32
    → a < 2 ^ 128
    → b < 2 ^ 128
    → x < 2 ^ 64
    → y < 2 ^ 64
    → hitl_approval_message h a x ≡ hitl_approval_message k b y
    → (h ≡ k) × (a ≡ b) × (x ≡ y)
unfolding hitl_approval_message
hitl_approval_message-inj h k a b x y hh hk ha hb hx hy e =
    let r = append-inj h _ k _ (hh ∙ sym hk) e in
    let m = to_be_bytes_unique 16 a b _ _ ha hb r.1 in
    let t = to_be_bytes_unique 8 x y [] [] hx hy (ap (λ z. z ++ []) m.1) in (r.0, m.0, t.0)
