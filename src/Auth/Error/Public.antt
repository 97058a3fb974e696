-- ===== src/Auth/Error/Public.antt =====
-- crates/aethel-auth/src/error.rs: what the public message tells.
use aethel_runtime.Base.{◌≡◌, ap, ◌↔◌, arith}
use Prim.Native.String
use aethel_runtime.Auth.Error.{AuthError, public_message, is_rejection}

messages_differ :
    ¬ (Path String.String "the request could not be processed" "authentication failed")
messages_differ e = omega (arith, ap String.len e)

-- The public message of an error tells whether it was a rejection, and nothing else: two errors have
-- the same public message exactly when both are rejections or neither is.
pub public_message_iff :
    (e f : AuthError) → (public_message e ≡ public_message f) ↔ (is_rejection e ≡ is_rejection f)
unfolding public_message is_rejection
public_message_iff e f = ground (arith, messages_differ)
