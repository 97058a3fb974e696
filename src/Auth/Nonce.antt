-- ===== src/Auth/Nonce.antt =====
-- crates/aethel-auth/src/nonce.rs: the contract of a nonce store, and the in-process store.
pub mod Memory
use aethel_runtime.Base.{
  ℕ, ◌≡◌, ◌≢◌, Bool, true, false, List, [], ◌∷◌, Option, none, some, is_some, ltb, if◌then◌else◌,
  Result, ok, length,
}
use aethel_runtime.Base.Bytes.{Bytes, bytes_eq}
use aethel_runtime.Auth.Error.{StoreError}

-- The trait `NonceStore`: claim a nonce until a time, in seconds.
pub record NonceStore (S : Type 0) : Type 0 where
  pub claim : S → Bytes → ℕ → Result StoreError Bool × S

-- What the trait asks of `claim`, over a predicate "the nonce is held until at least this time":
-- a claim that succeeds holds the nonce, a held nonce is not claimed again, and no other claim
-- releases it.
pub record Remembers {S : Type 0} (ns : NonceStore S) (Held : S → Bytes → ℕ → Type 0) : Type 0 where
  pub takes :
      (s : S) (k : Bytes) (e : ℕ) → (ns.claim s k e).0 ≡ ok true → Held (ns.claim s k e).1 k e
  pub refuses : (s : S) (k : Bytes) (e f : ℕ) → Held s k e → (ns.claim s k f).0 ≢ ok true
  pub keeps : (s : S) (k j : Bytes) (e f : ℕ) → Held s k e → Held (ns.claim s j f).1 k e

-- `InMemoryNonceStore`: the map as an association list.
pub record InMemoryNonceStore : Type 0 where
  pub seen : List (Bytes × ℕ)

abbrev pub new : InMemoryNonceStore
new = record { seen = [] }

unfoldable pub find : Bytes → List (Bytes × ℕ) → Option ℕ
unfolding bytes_eq
find k [] = none
find k ((j, e) ∷ m) = if bytes_eq j k then some e else find k m

-- `retain(|_, expires_at| *expires_at > now)`
unfoldable pub retain_after : ℕ → List (Bytes × ℕ) → List (Bytes × ℕ)
retain_after now [] = []
retain_after now ((j, e) ∷ m) =
    let rest = retain_after now m in if ltb now e then (j, e) ∷ rest else rest

unfoldable pub evict_expired : InMemoryNonceStore → ℕ → InMemoryNonceStore
unfolding retain_after
evict_expired store now = record { seen = retain_after now store.seen }

unfoldable pub len : InMemoryNonceStore → ℕ
len store = length store.seen

unfoldable pub claim : InMemoryNonceStore → Bytes → ℕ → Result StoreError Bool × InMemoryNonceStore
unfolding find
claim store nonce expires_at =
    if is_some (find nonce store.seen)
    then (ok false, store)
    else (ok true, record { seen = (nonce, expires_at) ∷ store.seen })

abbrev pub in_memory : NonceStore InMemoryNonceStore
in_memory = record { claim = claim }
