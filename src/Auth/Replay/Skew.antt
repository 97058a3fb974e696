-- ===== src/Auth/Replay/Skew.antt =====
-- What happens at a lag of exactly `NONCE_SKEW_SECS`.
use aethel_runtime.Base.{
  ℕ, ◌+◌, ◌≤◌, ◌<◌, ◌≡◌, refl, true, Option, none, List, [], ◌∷◌, arith, u64_max, ok,
}
use aethel_runtime.Base.Bytes.{Bytes}
use aethel_runtime.Auth.Core.{Core}
use aethel_runtime.Auth.Nonce.{
  InMemoryNonceStore, in_memory, find, retain_after, evict_expired, claim,
}
use aethel_runtime.Auth.Envelope.{VerifyParams, nonce_retention, nonce_key, nonce_skew_secs}
use aethel_runtime.Auth.Login.{LoginProof, identity_of, verify_login_inner}
use aethel_runtime.Auth.Login.Verdict.{IsGenuine, login_by_claim, verify_login_inner-claims}

retain_after-none :
    (k : Bytes) (now : ℕ) (m : List (Bytes × ℕ))
    → find k m ≡ none
    → find k (retain_after now m) ≡ none
unfolding find retain_after
retain_after-none k now [] h = refl
retain_after-none k now ((j, e) ∷ m) h = ground (arith, retain_after-none k now m)

-- A fresh claim that is evicted at its retention is forgotten.
forgotten :
    (s : InMemoryNonceStore) (k : Bytes) (e t : ℕ)
    → find k s.seen ≡ none
    → e ≤ t
    → find k (evict_expired (in_memory.claim s k e).1 t).seen ≡ none
unfolding claim evict_expired
forgotten s k e t h le =
    rw h (unfold retain_after in ground (arith, retain_after-none k t s.seen h))

claim_fresh :
    (s : InMemoryNonceStore) (k : Bytes) (e : ℕ)
    → find k s.seen ≡ none
    → (in_memory.claim s k e).0 ≡ ok true
unfolding claim
claim_fresh s k e h = rw h

module _ {E I : Type 0} (core : Core E I) where
  -- A login proof is accepted a second time by a verifier whose clock reads exactly an hour after
  -- `issued_at`, if the store was evicted by a clock exactly NONCE_SKEW_SECS ahead of that
  -- verifier's. The proof is genuine for both verifiers, its nonce was not claimed before, and its
  -- times are far from the largest `u64`.
  pub replay_at_full_skew :
      (p : LoginProof) (first again : VerifyParams) (e f : Option Bytes) (s : InMemoryNonceStore)
      → IsGenuine core p first e
      → IsGenuine core p again f
      → again.now ≡ p.issued_at + 3600
      → p.issued_at + 3900 < u64_max
      → find (nonce_key core core.auth_login_v1 p.public_key p.nonce) s.seen ≡ none
      → (verify_login_inner core in_memory p again f (
          evict_expired
            (verify_login_inner core in_memory p first e s).1
            (again.now + nonce_skew_secs))).0
        ≡ ok (identity_of p)
  replay_at_full_skew p first again e f s g h t u fresh =
      let key = nonce_key core core.auth_login_v1 p.public_key p.nonce in
      let kept = nonce_retention p.issued_at p.expires_at in
      let taken = claim_fresh s key kept fresh in
      let accepted =
        (login_by_claim core in_memory p first e s (identity_of p)).1 (g, taken, refl) in
      let after = verify_login_inner-claims core in_memory p first e s (identity_of p) accepted in
      let gone =
        forgotten s key kept (again.now + nonce_skew_secs) fresh
          (unfold nonce_retention in omega arith) in
      rw after (
        (login_by_claim core in_memory p again f _ (identity_of p)).1
          (h, claim_fresh _ key kept gone, refl))
