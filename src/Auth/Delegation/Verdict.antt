-- ===== src/Auth/Delegation/Verdict.antt =====
-- What `authorise` grants, and what it leaves to the caller.
use aethel_runtime.Base.{
  ℕ, ◌≤◌, ◌<◌, ◌≡◌, refl, sym, subst, ap, ◌∙◌, ◌↔◌, inl, inr, Bool, true, false, Option, none, some,
  List, arith, Option-cases, is_empty, Result, ok, ◌>>◌, refuse_if,
}
use aethel_runtime.Base.Bytes.{Bytes, bytes_eq_iff, Among, contains_iff}
use aethel_runtime.Auth.Core.{Core}
use aethel_runtime.Auth.Error.{AuthError}
use aethel_runtime.Auth.Envelope.{check_signature-eq-ok, check_signature-of-verify}
use aethel_runtime.Auth.Delegation.{
  Bounds, Delegation, signing_input, RemainingObligations, unsaid_amount, check_ceiling,
  needs_approval, verify_delegation, check_standing, authorise,
}

-- An amount is under a ceiling that the principal set; no amount needs a delegation with no amount
-- bound of any kind.
abbrev pub AmountAllowed : Bounds → Option ℕ → Type 0
AmountAllowed b none =
    (b.max_per_invocation ≡ none) × (b.max_total ≡ none) × (b.approval_required_above ≡ none)
AmountAllowed b (some a) = (c : ℕ) × (b.max_per_invocation ≡ some c) × (a ≤ c)

-- An amount that is above a threshold; there may be none of either.
abbrev pub Above : Option ℕ → Option ℕ → Type 0
Above (some a) (some threshold) = threshold < a
Above (some a) none = ⊥
Above none threshold = ⊥

-- What is left to the caller for an amount under these bounds: their total and its window, and an
-- approval exactly when the amount is above the threshold.
pub record Leaves (b : Bounds) (amount : Option ℕ) (o : RemainingObligations) : Type 0 where
  pub ceiling : o.cumulative_ceiling ≡ b.max_total
  pub window : o.window_secs ≡ b.window_secs
  pub approval : (o.human_approval_required ≡ true) ↔ Above amount b.approval_required_above

-- The obligations that `authorise` computes.
abbrev pub obligations : Bounds → Option ℕ → RemainingObligations
obligations b amount = record {
  cumulative_ceiling = b.max_total;
  window_secs = b.window_secs;
  human_approval_required = needs_approval amount b.approval_required_above;
}

needs_approval_iff :
    (amount threshold : Option ℕ)
    → (needs_approval amount threshold ≡ true) ↔ Above amount threshold
unfolding needs_approval
needs_approval_iff none threshold = ground arith
needs_approval_iff (some a) none = ground arith
needs_approval_iff (some a) (some t) = ground arith

same_answer : (a b : Bool) → ((a ≡ true) ↔ (b ≡ true)) → a ≡ b
same_answer true b h = sym (h.0 refl)
same_answer false true h = h.1 refl
same_answer false false h = refl

pub obligations_iff :
    (b : Bounds) (amount : Option ℕ) (o : RemainingObligations)
    → (obligations b amount ≡ o) ↔ Leaves b amount o
obligations_iff b amount o = (
  λ e. subst (Leaves b amount) e (record {
    ceiling = refl;
    window = refl;
    approval = needs_approval_iff amount b.approval_required_above;
  }),
  λ h.
      let approval = needs_approval_iff amount b.approval_required_above in
      let same : needs_approval amount b.approval_required_above ≡ o.human_approval_required =
        same_answer _ _ (λ e. h.approval.1 (approval.0 e), λ e. approval.1 (h.approval.0 e)) in
      rw (same, sym h.ceiling, sym h.window) refl,
)

-- The tests of `authorise` on an amount.
amount_tests : (b : Bounds) (amount : Option ℕ) → Result AuthError (Unit {0})
unfolding unsaid_amount check_ceiling
amount_tests b amount = do
  refuse_if (unsaid_amount b amount) AuthError.not_delegated
  check_ceiling amount b.max_per_invocation

amount_tests-AmountAllowed :
    (b : Bounds) (amount : Option ℕ) → amount_tests b amount ≡ ok tt → AmountAllowed b amount
unfolding amount_tests
amount_tests-AmountAllowed b none h = ground arith
amount_tests-AmountAllowed b (some a) h = elim (Option-cases b.max_per_invocation) [
  | inl e ↦ absurd (ground arith)
  | inr (c, e) ↦ (c, e, ground arith)
]

AmountAllowed-amount_tests :
    (b : Bounds) (amount : Option ℕ) → AmountAllowed b amount → amount_tests b amount ≡ ok tt
unfolding amount_tests
AmountAllowed-amount_tests b none h = ground arith
AmountAllowed-amount_tests b (some a) (c, e, le) = ground arith

-- A principal whom the relying party recognises, with neither key revoked.
pub record Stands (d : Delegation) (principals : List Bytes) (is_revoked : Bytes → Bool)
    : Type 0 where
  pub recognised : Among d.principal_key principals
  pub principal_stands : is_revoked d.principal_key ≡ false
  pub delegate_stands : is_revoked d.delegate_key ≡ false

pub check_standing_iff :
    (d : Delegation) (principals : List Bytes) (is_revoked : Bytes → Bool)
    → (check_standing d principals is_revoked ≡ ok tt) ↔ Stands d principals is_revoked
unfolding check_standing
check_standing_iff d principals is_revoked = (
  λ h. ground (arith, contains_iff principals d.principal_key),
  λ h. ground (arith, contains_iff principals d.principal_key),
)

module _ {E I : Type 0} (core : Core E I) where
  -- A delegation that is well signed by its own principal, for this audience, and live now.
  pub record IsLive (d : Delegation) (expected_audience : Bytes) (now : ℕ) : Type 0 where
    pub principal_present : is_empty d.principal_key ≡ false
    pub delegate_present : is_empty d.delegate_key ≡ false
    pub signature_present : is_empty d.signature ≡ false
    pub audience_present : is_empty d.audience ≡ false
    pub for_us : d.audience ≡ expected_audience
    pub started : d.not_before ≤ now
    pub not_ended : now < d.expires_at
    pub signed :
        core.verify_with_purpose d.principal_key core.auth_delegation_v1
          (signing_input d)
          d.signature
        ≡ ok true

  pub verify_delegation-IsLive :
      (d : Delegation) (aud : Bytes) (now : ℕ)
      → verify_delegation core d aud now ≡ ok tt
      → IsLive d aud now
  unfolding verify_delegation
  verify_delegation-IsLive d aud now h = ground (
    arith,
    bytes_eq_iff d.audience aud,
    check_signature-eq-ok core d.principal_key core.auth_delegation_v1 (signing_input d)
        d.signature,
  )

  pub IsLive-verify_delegation :
      (d : Delegation) (aud : Bytes) (now : ℕ)
      → IsLive d aud now
      → verify_delegation core d aud now ≡ ok tt
  unfolding verify_delegation
  IsLive-verify_delegation d aud now h = ground (
    arith,
    bytes_eq_iff d.audience aud,
    check_signature-of-verify core d.principal_key core.auth_delegation_v1 (signing_input d)
        d.signature,
  )

  -- What a request under a delegation must satisfy.
  pub record Authorises (d : Delegation) (aud : Bytes) (principals : List Bytes)
      (is_revoked : Bytes → Bool) (delegate_key action : Bytes) (amount : Option ℕ) (now : ℕ)
      : Type 0 where
    pub stands : Stands d principals is_revoked
    pub live : IsLive d aud now
    pub delegate : d.delegate_key ≡ delegate_key
    pub allowed : Among action d.bounds.actions
    pub amount_allowed : AmountAllowed d.bounds amount

  authorise-Authorises :
      (d : Delegation) (aud : Bytes) (principals : List Bytes) (is_revoked : Bytes → Bool)
      (delegate_key action : Bytes) (amount : Option ℕ) (now : ℕ) (o : RemainingObligations)
      → authorise core d aud principals is_revoked delegate_key action amount now ≡ ok o
      → Authorises d aud principals is_revoked delegate_key action amount now
        × (obligations d.bounds amount ≡ o)
  unfolding authorise amount_tests
  authorise-Authorises d aud principals is_revoked delegate_key action amount now o h =
      let stands = (check_standing_iff d principals is_revoked).0 (ground arith) in
      let live = verify_delegation-IsLive d aud now (ground arith) in
      let amount_allowed = amount_tests-AmountAllowed d.bounds amount (ground arith) in
      (
        record {
          stands = stands;
          live = live;
          delegate = ground (arith, bytes_eq_iff d.delegate_key delegate_key);
          allowed = ground (arith, contains_iff d.bounds.actions action);
          amount_allowed = amount_allowed;
        },
        ground arith,
      )

  Authorises-authorise :
      (d : Delegation) (aud : Bytes) (principals : List Bytes) (is_revoked : Bytes → Bool)
      (delegate_key action : Bytes) (amount : Option ℕ) (now : ℕ)
      → Authorises d aud principals is_revoked delegate_key action amount now
      → authorise core d aud principals is_revoked delegate_key action amount now
        ≡ ok (obligations d.bounds amount)
  unfolding authorise amount_tests
  Authorises-authorise d aud principals is_revoked delegate_key action amount now h =
      rw
        (
          (check_standing_iff d principals is_revoked).1 h.stands,
          IsLive-verify_delegation d aud now h.live,
          (bytes_eq_iff d.delegate_key delegate_key).1 h.delegate,
          (contains_iff d.bounds.actions action).1 h.allowed,
        )
        (ground (arith, AmountAllowed-amount_tests d.bounds amount h.amount_allowed))

  -- A request is authorised, leaving exactly the obligations `o`, if and only if: the principal is
  -- recognised and neither key is revoked; the delegation is well signed, for this audience and live
  -- now; it names the key that presented itself; it lists the action; the amount is under a ceiling
  -- that it sets, or no amount is given and it sets no amount bound; and `o` is its total and window,
  -- with approval demanded exactly when the amount is above the threshold.
  pub authorise_iff :
      (d : Delegation) (aud : Bytes) (principals : List Bytes) (is_revoked : Bytes → Bool)
      (delegate_key action : Bytes) (amount : Option ℕ) (now : ℕ) (o : RemainingObligations)
      → (authorise core d aud principals is_revoked delegate_key action amount now ≡ ok o) ↔ (
          Authorises d aud principals is_revoked delegate_key action amount now
          × Leaves d.bounds amount o)
  authorise_iff d aud principals is_revoked delegate_key action amount now o = (
    λ h.
        let g =
          authorise-Authorises d aud principals is_revoked delegate_key action amount now o h in
        (g.0, (obligations_iff d.bounds amount o).0 g.1),
    λ g.
        Authorises-authorise d aud principals is_revoked delegate_key action amount now g.0
        ∙ ap ok ((obligations_iff d.bounds amount o).1 g.1),
  )
