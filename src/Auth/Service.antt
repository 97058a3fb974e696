-- ===== src/Auth/Service.antt =====
-- A relying party at work: calls of the verifying functions over one in-process nonce store, with
-- evictions in between, in any order.
use aethel_runtime.Base.{ℕ, ◌<◌, ◌≡◌, ◌⊎◌, inl, inr, Bool, Option, List, [], ◌∷◌}
use aethel_runtime.Base.Bytes.{Bytes}
use aethel_runtime.Auth.Core.{Core}
use aethel_runtime.Auth.Nonce.{InMemoryNonceStore, evict_expired, in_memory}
use aethel_runtime.Auth.Nonce.Memory.{Held, in_memory-Remembers, evict_keeps}
use aethel_runtime.Auth.Envelope.{VerifyParams}
use aethel_runtime.Auth.Login.{LoginProof, verify_login_inner}
use aethel_runtime.Auth.Login.Verdict.{verify_login_inner-after}
use aethel_runtime.Auth.StepUp.{StepUpProof, verify_step_up}
use aethel_runtime.Auth.StepUp.Verdict.{verify_step_up-after}
use aethel_runtime.Auth.Delegation.{Delegation}
use aethel_runtime.Auth.Approval.{Approval, Request, check_approval}
use aethel_runtime.Auth.Approval.Verdict.{check_approval-after}

pub data Event : Type 0 where
  logs_in : LoginProof → VerifyParams → Option Bytes → Event
  steps_up : StepUpProof → VerifyParams → Bytes → Event
  approves : Delegation → Approval → VerifyParams → List Bytes → (Bytes → Bool) → Request → Event
  evicts : ℕ → Event

-- An eviction's clock reads less than `t`.
abbrev pub OnTime : ℕ → Event → Type 0
OnTime t (evicts now) = now < t
OnTime t (logs_in p params expected) = Unit {0}
OnTime t (steps_up p params expected) = Unit {0}
OnTime t (approves d a params principals is_revoked request) = Unit {0}

-- So does every eviction's in the list.
abbrev pub EvictsBefore : ℕ → List Event → Type 0
EvictsBefore t [] = Unit {0}
EvictsBefore t (e ∷ es) = OnTime t e × EvictsBefore t es

module _ {E I : Type 0} (core : Core E I) where
  unfoldable pub step : InMemoryNonceStore → Event → InMemoryNonceStore
  step s (logs_in p params expected) = (verify_login_inner core in_memory p params expected s).1
  step s (steps_up p params expected) = (verify_step_up core in_memory p params expected s).1
  step s (approves d a params principals is_revoked request) =
      (check_approval core in_memory d a params principals is_revoked request s).1
  step s (evicts now) = evict_expired s now

  unfoldable pub run : InMemoryNonceStore → List Event → InMemoryNonceStore
  unfolding step
  run s [] = s
  run s (e ∷ es) = run (step s e) es

  -- A store that is as it was, or as a claim leaves it, still holds what it held.
  Held-after :
      (s s' : InMemoryNonceStore) (k : Bytes) (e : ℕ) (j : Bytes) (f : ℕ)
      → (s' ≡ s) ⊎ (s' ≡ (in_memory.claim s j f).1)
      → Held s k e
      → Held s' k e
  Held-after s s' k e j f (inl same) h = rw same h
  Held-after s s' k e j f (inr after) h = rw after (in_memory-Remembers.keeps s k j e f h)

  step_keeps :
      (s : InMemoryNonceStore) (ev : Event) (k : Bytes) (e : ℕ)
      → OnTime e ev
      → Held s k e
      → Held (step s ev) k e
  unfolding step
  step_keeps s (logs_in p params expected) k e b h =
      Held-after s _ k e _ _ (verify_login_inner-after core in_memory p params expected s) h
  step_keeps s (steps_up p params expected) k e b h =
      Held-after s _ k e _ _ (verify_step_up-after core in_memory p params expected s) h
  step_keeps s (approves d a params principals is_revoked request) k e b h =
      Held-after s _ k e _ _
        (check_approval-after core in_memory d a params principals is_revoked request s) h
  step_keeps s (evicts now) k e b h = evict_keeps s k e now b h

  pub run_keeps :
      (s : InMemoryNonceStore) (es : List Event) (k : Bytes) (e : ℕ)
      → EvictsBefore e es
      → Held s k e
      → Held (run s es) k e
  unfolding run
  run_keeps s [] k e b h = h
  run_keeps s (ev ∷ es) k e b h = run_keeps (step s ev) es k e b.1 (step_keeps s ev k e b.0 h)
