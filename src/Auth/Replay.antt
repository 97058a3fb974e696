-- ===== src/Auth/Replay.antt =====
-- An accepted statement is not accepted again: the retention of the nonce outlasts every clock that
-- could still accept the statement, up to a skew of less than `NONCE_SKEW_SECS`.
pub mod Skew
use aethel_runtime.Base.{
  ℕ, ◌+◌, ◌≤◌, min, ◌≡◌, ◌≢◌, Bool, true, Option, List, [], ◌∷◌, arith, u64_max, ok,
}
use aethel_runtime.Base.Bytes.{Bytes}
use aethel_runtime.Auth.Core.{Core}
use aethel_runtime.Auth.Nonce.{InMemoryNonceStore, in_memory}
use aethel_runtime.Auth.Nonce.Memory.{in_memory-Remembers}
use aethel_runtime.Auth.Envelope.{
  VerifyParams, InEnvelope, nonce_retention, nonce_key, nonce_skew_secs,
}
use aethel_runtime.Auth.Login.{LoginProof, AuthenticatedIdentity, verify_login_inner}
use aethel_runtime.Auth.Login.Verdict.{login_by_claim, verify_login_inner-claims}
use aethel_runtime.Auth.Delegation.{Delegation}
use aethel_runtime.Auth.Approval.{Approval, Request, auth_approval_v1, check_approval}
use aethel_runtime.Auth.Approval.Verdict.{check_approval-accepts, check_approval-claims}
use aethel_runtime.Auth.Service.{Event, EvictsBefore, OnTime, run, run_keeps}

-- The bound on the clocks of evictions, for a verifier whose clock reads `now`.
abbrev pub eviction_bound : ℕ → ℕ
eviction_bound now = min (now + nonce_skew_secs) u64_max

retention_outlasts :
    (audience : Bytes) (issued_at expires_at : ℕ) (params : VerifyParams)
    → InEnvelope audience issued_at expires_at params
    → eviction_bound params.now ≤ nonce_retention issued_at expires_at
unfolding nonce_retention
retention_outlasts audience issued_at expires_at params h = omega (arith, h.under_ceiling, h.live)

OnTime-mono : (t u : ℕ) (e : Event) → t ≤ u → OnTime t e → OnTime u e
OnTime-mono t u (Event.evicts now) h b = omega arith
OnTime-mono t u (Event.logs_in p params expected) h b = tt
OnTime-mono t u (Event.steps_up p params expected) h b = tt
OnTime-mono t u (Event.approves d a params principals is_revoked request) h b = tt

EvictsBefore-mono : (t u : ℕ) (es : List Event) → t ≤ u → EvictsBefore t es → EvictsBefore u es
EvictsBefore-mono t u [] h b = tt
EvictsBefore-mono t u (e ∷ es) h b = (OnTime-mono t u e h b.0, EvictsBefore-mono t u es h b.1)

module _ {E I : Type 0} (core : Core E I) where
  -- A nonce that was claimed is not claimed again while evictions stay before its retention.
  no_second_claim :
      (s : InMemoryNonceStore) (es : List Event) (k : Bytes) (e f : ℕ)
      → (in_memory.claim s k e).0 ≡ ok true
      → EvictsBefore e es
      → (in_memory.claim (run core (in_memory.claim s k e).1 es) k f).0 ≢ ok true
  no_second_claim s es k e f h b =
      in_memory-Remembers.refuses _ k e f
        (run_keeps core _ es k e b (in_memory-Remembers.takes s k e h))

  -- A login that was accepted is never accepted again: not by any verifier, with any clock and
  -- maximum age, bound to any request or to none, nor with another signature of the same key over
  -- the same window and nonce, after whatever calls and evictions on the shared in-process store,
  -- provided that every eviction's clock is less than NONCE_SKEW_SECS ahead of the second
  -- verifier's (and before the last second that a `u64` can hold).
  pub login_no_replay :
      (p q : LoginProof) (first again : VerifyParams) (e f : Option Bytes) (s : InMemoryNonceStore)
      (es : List Event) (id id' : AuthenticatedIdentity)
      → q.public_key ≡ p.public_key
      → q.nonce ≡ p.nonce
      → q.issued_at ≡ p.issued_at
      → q.expires_at ≡ p.expires_at
      → (verify_login_inner core in_memory p first e s).0 ≡ ok id
      → EvictsBefore (eviction_bound again.now) es
      → (verify_login_inner core in_memory q again f
          (run core (verify_login_inner core in_memory p first e s).1 es)).0
        ≢ ok id'
  login_no_replay p q first again e f s es id id' hk hn hi hx h b h' =
      let accepted = (login_by_claim core in_memory p first e s id).0 h in
      let after = verify_login_inner-claims core in_memory p first e s id h in
      let second = (login_by_claim core in_memory q again f _ id').0 h' in
      let kept = retention_outlasts q.audience q.issued_at q.expires_at again second.0.envelope in
      no_second_claim s es (nonce_key core core.auth_login_v1 p.public_key p.nonce)
        (nonce_retention p.issued_at p.expires_at) (nonce_retention q.issued_at q.expires_at)
        accepted.1 (EvictsBefore-mono _ _ es (rw (← hi, ← hx) kept) b)
        (rw (after, hk, hn) at (second.1))

  -- An approval that was accepted is not accepted again, by any verifier, for any request under
  -- the same delegation and with any recognised principals and revoked keys, after whatever calls
  -- and evictions on the shared in-process store, provided that every eviction's clock is less
  -- than NONCE_SKEW_SECS ahead of the second verifier's (and before the last second that a `u64`
  -- can hold).
  pub approval_no_replay :
      (d : Delegation) (a : Approval) (first again : VerifyParams) (principals others : List Bytes)
      (is_revoked was_revoked : Bytes → Bool) (request other : Request) (s : InMemoryNonceStore)
      (es : List Event)
      → (check_approval core in_memory d a first principals is_revoked request s).0 ≡ ok tt
      → EvictsBefore (eviction_bound again.now) es
      → (check_approval core in_memory d a again others was_revoked other (
          run core
            (check_approval core in_memory d a first principals is_revoked request s).1
            es)).0
        ≢ ok tt
  approval_no_replay d a first again principals others is_revoked was_revoked request other s es h b
        h' =
      let accepted =
        (check_approval-accepts core in_memory d a first principals is_revoked request s).0 h in
      let after =
        check_approval-claims core in_memory d a first principals is_revoked request s h in
      let second =
        (check_approval-accepts core in_memory d a again others was_revoked other _).0 h' in
      let kept = retention_outlasts a.audience a.issued_at a.expires_at again second.0.envelope in
      no_second_claim s es (nonce_key core auth_approval_v1 a.principal_key a.nonce)
        (nonce_retention a.issued_at a.expires_at) (nonce_retention a.issued_at a.expires_at)
        accepted.1 (EvictsBefore-mono _ _ es kept b) (rw after at (second.1))
