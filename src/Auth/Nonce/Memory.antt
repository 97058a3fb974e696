-- ===== src/Auth/Nonce/Memory.antt =====
-- The in-process store keeps every claim until an eviction whose clock has reached its expiry.
use aethel_runtime.Base.{ℕ, ◌<◌, ◌≡◌, ◌≢◌, true, List, [], ◌∷◌, some, arith, ok}
use aethel_runtime.Base.Bytes.{Bytes, bytes_eq_iff}
use aethel_runtime.Auth.Nonce.{
  Remembers, InMemoryNonceStore, find, retain_after, evict_expired, claim, in_memory,
}

-- `k` is in the map, with this expiry.
abbrev pub Held : InMemoryNonceStore → Bytes → ℕ → Type 0
Held store k e = find k store.seen ≡ some e

claim_takes :
    (s : InMemoryNonceStore) (k : Bytes) (e : ℕ)
    → (claim s k e).0 ≡ ok true
    → Held (claim s k e).1 k e
unfolding claim
claim_takes s k e h = ground (arith, bytes_eq_iff k k)

claim_refuses :
    (s : InMemoryNonceStore) (k : Bytes) (e f : ℕ) → Held s k e → (claim s k f).0 ≢ ok true
unfolding claim
claim_refuses s k e f h = ground arith

claim_keeps :
    (s : InMemoryNonceStore) (k j : Bytes) (e f : ℕ) → Held s k e → Held (claim s j f).1 k e
unfolding claim
claim_keeps s k j e f h = ground (arith, bytes_eq_iff j k)

-- The in-process store meets the contract of the trait.
pub in_memory-Remembers : Remembers in_memory Held
in_memory-Remembers = record { takes = claim_takes; refuses = claim_refuses; keeps = claim_keeps }

find-retain_after :
    (k : Bytes) (e now : ℕ) (m : List (Bytes × ℕ))
    → now < e
    → find k m ≡ some e
    → find k (retain_after now m) ≡ some e
unfolding find retain_after
find-retain_after k e now [] lt h = h
find-retain_after k e now ((j, f) ∷ m) lt h = ground (arith, find-retain_after k e now m lt)

pub evict_keeps :
    (s : InMemoryNonceStore) (k : Bytes) (e now : ℕ)
    → now < e
    → Held s k e
    → Held (evict_expired s now) k e
unfolding evict_expired
evict_keeps s k e now lt h = find-retain_after k e now s.seen lt h
