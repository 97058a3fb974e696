-- ===== src/Auth/Error.antt =====
-- crates/aethel-auth/src/error.rs: why a check failed, and what may be said of it outside.
pub mod Public
use Prim.Native.String.{String}
use aethel_runtime.Base.{Bool, true, false, Result, ok, err}

pub record StoreError : Type 0 where
  pub message : String

pub data AuthError : Type 0 where
  audience_mismatch stale_or_future_proof expired bad_signature nonce_already_used : AuthError
  action_mismatch request_mismatch request_digest_not_checked not_delegated : AuthError
  not_authorised revoked malformed : AuthError
  store : StoreError → AuthError

unfoldable pub public_message : AuthError → String
public_message (store e) = "the request could not be processed"
public_message _ = "authentication failed"

unfoldable pub is_rejection : AuthError → Bool
is_rejection (store e) = false
is_rejection _ = true

-- `async fn` over a store: the result, and the store as the call leaves it.
abbrev pub Exec : Type 0 → Type 0 → Type 0
Exec S A = S → Result AuthError A × S

-- A pure check in front of an effect: its `?` returns before the effect.
abbrev pub checked : {S A : Type 0} → Result AuthError (Unit {0}) → Exec S A → Exec S A
checked (ok _) m s = m s
checked (err e) m s = (err e, s)

-- `effect.await?; Ok(value)`.
abbrev pub with_value : {E A : Type 0} → A → Result E (Unit {0}) → Result E A
with_value a (ok _) = ok a
with_value a (err e) = err e

abbrev pub returning : {S A : Type 0} → Exec S (Unit {0}) → A → Exec S A
returning m a s = let (r, s') = m s in (with_value a r, s')
