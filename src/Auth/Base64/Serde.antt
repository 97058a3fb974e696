-- ===== src/Auth/Base64/Serde.antt =====
-- crates/aethel-auth/src/b64.rs: how `serde` writes and reads the byte fields of the statements.
pub mod Canonical
use aethel_runtime.Base.{
  ℕ, Bool, Option, none, some, List, [], ◌∷◌, ◌==◌, if◌then◌else◌, length, Result, ok, err, ok_or,
  ◌>>=◌,
}
use aethel_runtime.Base.Bytes.{Bytes}
use aethel_runtime.Auth.Base64.{encode, decode}

-- A value as `serde` hands it to a visitor: text, raw bytes, a sequence with `none` for an element that
-- is no `u8`, an absent value, or one of another kind.
pub data Input : Type 0 where
  text raw : Bytes → Input
  numbers : List (Option ℕ) → Input
  nothing : Input
  other : Input

-- What `E::custom`, `E::invalid_length` and the calls of `serde` itself report.
pub data DeError : Type 0 where
  not_canonical arrays_refused not_a_byte invalid_type : DeError
  invalid_length : ℕ → DeError

-- `while let Some(b) = seq.next_element::<u8>()?`
unfoldable pub next_elements : List (Option ℕ) → Result DeError Bytes
next_elements [] = ok []
next_elements (e ∷ seq) = do b ← ok_or e not_a_byte; out ← next_elements seq; ok (b ∷ out)

-- `cfg!(feature = "legacy-number-arrays")` is `legacy`. The kinds that `BytesVisitor` has no method for
-- are of the wrong type.
module _ (legacy : Bool) where
  unfoldable pub visit : Input → Result DeError Bytes
  unfolding next_elements
  visit (text v) = ok_or (decode v) not_canonical
  visit (raw v) = ok v
  visit (numbers seq) = if legacy then next_elements seq else err arrays_refused
  visit nothing = err invalid_type
  visit other = err invalid_type

  unfoldable pub to_array : Bytes → Result DeError Bytes
  to_array bytes = if length bytes == 32 then ok bytes else err (invalid_length (length bytes))

  unfoldable pub deserialize_bytes : Input → Result DeError Bytes
  deserialize_bytes d = visit d

  unfoldable pub deserialize_array32 : Input → Result DeError Bytes
  unfolding visit to_array
  deserialize_array32 d = do bytes ← visit d; to_array bytes

  unfoldable pub deserialize_opt_array32 : Input → Result DeError (Option Bytes)
  deserialize_opt_array32 nothing = ok none
  deserialize_opt_array32 d = do w ← deserialize_array32 d; ok (some w)

  -- The elements of the sequence, each of which is read as bytes.
  unfoldable pub deserialize_vec_bytes : List Input → Result DeError (List Bytes)
  unfolding deserialize_bytes
  deserialize_vec_bytes [] = ok []
  deserialize_vec_bytes (d ∷ ds) = do
    w ← deserialize_bytes d
    out ← deserialize_vec_bytes ds
    ok (w ∷ out)

unfoldable pub serialize_bytes : Bytes → Input
serialize_bytes value = text (encode value)

unfoldable pub serialize_array32 : Bytes → Input
serialize_array32 value = text (encode value)

unfoldable pub serialize_opt_array32 : Option Bytes → Input
serialize_opt_array32 none = nothing
serialize_opt_array32 (some v) = text (encode v)

unfoldable pub serialize_vec_bytes : List Bytes → List Input
serialize_vec_bytes [] = []
serialize_vec_bytes (item ∷ items) = text (encode item) ∷ serialize_vec_bytes items
