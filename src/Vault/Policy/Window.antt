-- ===== src/Vault/Policy/Window.antt =====
-- What the daily cap bounds over a history of spends.
use aethel_runtime.Base.{
  ℕ, ◌+◌, ◌≤◌, ◌<◌, ◌≡◌, inl, inr, List, [], ◌∷◌, arith, ltb, leb, if◌then◌else◌, Bool-cases,
  u128_max, ok,
}
use aethel_runtime.Vault.Policy.{
  Rail, SpendPolicy, PolicyState, SpendRequest, Decision, allow, require_hitl,
  effective_spent_today, check, record_spend,
}
use aethel_runtime.Vault.Policy.Verdict.{Allowed, allows_rail_iff}

-- Requests with the times of their spends, oldest first.
abbrev pub History : Type 0
History = List (SpendRequest × ℕ)

abbrev pub total : History → ℕ
total [] = 0
total ((req, now) ∷ rest) = req.amount + total rest

-- Each request of the history was admitted and then recorded, from this state on.
abbrev pub Admitted : SpendPolicy → PolicyState → History → Type 0
Admitted p s [] = Unit {0}
Admitted p s ((req, now) ∷ rest) =
    ((d : Decision) × (check p s req now ≡ ok d)) × Admitted p (record_spend s req.amount now) rest

-- Every time of the history is in the day that starts at `t`.
abbrev pub Within : ℕ → History → Type 0
Within t [] = Unit {0}
Within t ((req, now) ∷ rest) = (t ≤ now) × (now < t + 86400) × Within t rest

-- Every time of the history is before the day that starts at `t` is over.
abbrev Until : ℕ → History → Type 0
Until t [] = Unit {0}
Until t ((req, now) ∷ rest) = (now < t + 86400) × Until t rest

Until-later : (t u : ℕ) (l : History) → t ≤ u → Within t l → Until u l
Until-later t u [] h w = tt
Until-later t u ((req, now) ∷ rest) h w = (omega arith, Until-later t u rest h w.2)

-- One admitted and recorded spend in a running day stays in the day and under the cap.
same_day :
    (p : SpendPolicy) (s : PolicyState) (req : SpendRequest) (now : ℕ) (d : Decision)
    → p.daily_cap < u128_max
    → check p s req now ≡ ok d
    → now < s.day_start_unix + 86400
    → ((record_spend s req.amount now).day_start_unix ≡ s.day_start_unix)
      × ((record_spend s req.amount now).spent_today ≡ s.spent_today + req.amount)
      × (s.spent_today + req.amount ≤ p.daily_cap)
unfolding check record_spend
same_day p s req now d c h t = ground arith

next_day :
    (p : SpendPolicy) (s : PolicyState) (req : SpendRequest) (now : ℕ) (d : Decision)
    → p.daily_cap < u128_max
    → check p s req now ≡ ok d
    → s.day_start_unix + 86400 ≤ now
    → ((record_spend s req.amount now).day_start_unix ≡ now)
      × ((record_spend s req.amount now).spent_today ≡ req.amount)
      × (req.amount ≤ p.daily_cap)
unfolding check record_spend
next_day p s req now d c h t = ground arith

-- In one day of the state, what was spent before and all that is admitted stay under the cap.
day_total :
    (p : SpendPolicy) (s : PolicyState) (l : History)
    → p.daily_cap < u128_max
    → s.spent_today ≤ p.daily_cap
    → Admitted p s l
    → Until s.day_start_unix l
    → s.spent_today + total l ≤ p.daily_cap
day_total p s [] c h a u = omega arith
day_total p s ((req, now) ∷ rest) c h a u =
    let (same, spent, under) = same_day p s req now a.0.0 c a.0.1 u.0 in
    let ih =
      day_total p (record_spend s req.amount now) rest c (omega (arith, spent, under)) a.1
        (rw same u.1) in
    omega (arith, ih, spent)

-- What was spent before in the state's day and all that is admitted from it on stay within the
-- daily cap, while every request stands in that day. The cap is below the largest `u128`, and what
-- the state has spent is within it.
pub total-le-daily_cap :
    (p : SpendPolicy) (s : PolicyState) (l : History)
    → p.daily_cap < u128_max
    → s.spent_today ≤ p.daily_cap
    → Admitted p s l
    → Within s.day_start_unix l
    → s.spent_today + total l ≤ p.daily_cap
total-le-daily_cap p s l c h a w = day_total p s l c h a (Until-later _ _ l (omega arith) w)

-- A history whose times all lie in some day, wherever the state's day began: it meets at most one
-- turn of the state's day, and spends at most the cap on each side of it.
any_day_total :
    (p : SpendPolicy) (s : PolicyState) (t : ℕ) (l : History)
    → p.daily_cap < u128_max
    → s.spent_today ≤ p.daily_cap
    → Admitted p s l
    → Within t l
    → s.spent_today + total l ≤ p.daily_cap + p.daily_cap
any_day_total p s t [] c h a w = omega arith
any_day_total p s t ((req, now) ∷ rest) c h a w =
    elim (Bool-cases (leb (s.day_start_unix + 86400) now)) [
      | inl over ↦
          let (start, spent, under) = next_day p s req now a.0.0 c a.0.1 (ground arith) in
          let later =
            day_total p (record_spend s req.amount now) rest c (omega (arith, spent, under)) a.1
              (Until-later t _ rest (omega (arith, start, w.0)) w.2) in
          omega (arith, later, spent)
      | inr running ↦
          let (same, spent, under) = same_day p s req now a.0.0 c a.0.1 (ground arith) in
          let ih =
            any_day_total p (record_spend s req.amount now) t rest c (omega (arith, spent, under))
              a.1 w.2 in
          omega (arith, ih, spent)
    ]

-- Whatever is admitted from any state, and whenever the state's day began, no 86,400 consecutive
-- seconds see more than twice the daily cap. The cap is below the largest `u128`, and what the state
-- has spent is within it.
pub total-le-twice_cap :
    (p : SpendPolicy) (s : PolicyState) (t : ℕ) (l : History)
    → p.daily_cap < u128_max
    → s.spent_today ≤ p.daily_cap
    → Admitted p s l
    → Within t l
    → total l ≤ p.daily_cap + p.daily_cap
total-le-twice_cap p s t l c h a w = omega (arith, any_day_total p s t l c h a w)

-- The request for the whole cap on this rail.
abbrev pub whole_cap : SpendPolicy → Rail → SpendRequest
whole_cap p r = record { rail = r; amount = p.daily_cap; to = [] }

-- The whole cap in the last second of a day of the state, and again a second later.
abbrev pub burst : SpendPolicy → Rail → ℕ → History
burst p r t = (whole_cap p r, t + 86399) ∷ (whole_cap p r, t + 86400) ∷ []

-- The verdict on that request, where nothing has been spent in its day.
abbrev verdict : SpendPolicy → Decision
verdict p = if ltb p.hitl_above p.daily_cap then require_hitl else allow

check-whole_cap :
    (p : SpendPolicy) (r : Rail) (s : PolicyState) (now : ℕ)
    → Allowed r p.allow_rails
    → p.daily_cap ≤ p.max_per_call
    → p.daily_cap < u128_max
    → effective_spent_today s now ≡ 0
    → check p s (whole_cap p r) now ≡ ok (verdict p)
unfolding check
check-whole_cap p r s now listed fits c fresh =
    rw ((allows_rail_iff p.allow_rails r).1 listed, fresh) (ground arith)

first_day :
    (t : ℕ) → effective_spent_today (record { day_start_unix = t; spent_today = 0 }) (t + 86399) ≡ 0
unfolding effective_spent_today
first_day t = ground arith

after_turn :
    (t n : ℕ)
    → effective_spent_today
        (record_spend (record { day_start_unix = t; spent_today = 0 }) n (t + 86399))
        (t + 86400)
      ≡ 0
unfolding effective_spent_today record_spend
after_turn t n = ground arith

-- The window is not a rolling one: under every policy that lists some rail and allows its whole
-- daily cap in one call, from a day with nothing spent, the cap can be spent twice within two
-- seconds. The cap is below the largest `u128`.
pub burst-Admitted :
    (p : SpendPolicy) (r : Rail) (t : ℕ)
    → Allowed r p.allow_rails
    → p.daily_cap ≤ p.max_per_call
    → p.daily_cap < u128_max
    → Admitted p (record { day_start_unix = t; spent_today = 0 }) (burst p r t)
      × Within (t + 86399) (burst p r t)
      × (total (burst p r t) ≡ p.daily_cap + p.daily_cap)
burst-Admitted p r t listed fits c = (
  (
    (verdict p, check-whole_cap p r _ _ listed fits c (first_day t)),
    ((verdict p, check-whole_cap p r _ _ listed fits c (after_turn t p.daily_cap)), tt),
  ),
  omega arith,
  omega arith,
)
