-- ===== src/Auth/Base64/Serde/Canonical.antt =====
-- crates/aethel-auth/src/b64.rs: what a byte field of a statement is read from.
use aethel_runtime.Base.{
  Bool, false, Option, none, some, List, [], ◌∷◌, length, Result, ok, err, ok_or, ◌>>=◌, ◌≡◌, refl,
  ap, ◌↔◌, ◌⊎◌, inl, inr, arith,
}
use aethel_runtime.Base.Bytes.{Bytes}
use aethel_runtime.Auth.Base64.{encode, decode}
use aethel_runtime.Auth.Base64.RoundTrip.{AreBytes, decode_iff}
use aethel_runtime.Auth.Base64.Serde.{
  Input, text, raw, numbers, nothing, other, DeError, not_canonical, visit, to_array,
  deserialize_bytes, deserialize_array32, deserialize_vec_bytes, serialize_bytes, serialize_array32,
  serialize_vec_bytes,
}

ok_or-ok : (r : Option Bytes) (e : DeError) (v : Bytes) → (ok_or r e ≡ ok v) ↔ (r ≡ some v)
ok_or-ok none e v = (λ h. cc, λ h. cc)
ok_or-ok (some a) e v = (λ h. cc, λ h. cc)

-- A reading under `to_array` succeeds where it read 32 bytes.
to_array-ok :
    (legacy : Bool) (r : Result DeError Bytes) (v : Bytes)
    → ((r >>= to_array legacy) ≡ ok v) ↔ ((length v ≡ 32) × (r ≡ ok v))
unfolding to_array
to_array-ok legacy (err e) v = (λ h. cc, λ h. cc)
to_array-ok legacy (ok b) v = (λ h. ground arith, λ h. ground arith)

-- Without the legacy feature, bytes are read from their one canonical text and from raw bytes.
visit-ok :
    (d : Input) (v : Bytes)
    → AreBytes v
    → (visit false d ≡ ok v) ↔ ((d ≡ text (encode v)) ⊎ (d ≡ raw v))
unfolding visit
visit-ok (text t) v bytes = (
  λ h. inl (ap text ((decode_iff t v bytes).0 ((ok_or-ok (decode t) not_canonical v).0 h))),
  λ h. elim h [
    | inl e ↦ (ok_or-ok (decode t) not_canonical v).1 ((decode_iff t v bytes).1 cc)
    | inr e ↦ absurd cc
  ],
)
visit-ok (raw b) v bytes = (λ h. inr cc, λ h. elim h [ inl e ↦ cc | inr e ↦ cc ])
visit-ok (numbers seq) v bytes = (λ h. cc, λ h. elim h [ inl e ↦ cc | inr e ↦ cc ])
visit-ok nothing v bytes = (λ h. cc, λ h. elim h [ inl e ↦ cc | inr e ↦ cc ])
visit-ok other v bytes = (λ h. cc, λ h. elim h [ inl e ↦ cc | inr e ↦ cc ])

-- Without the legacy feature, a field of 32 bytes is read from an input exactly when the value has 32
-- bytes and the input is its one canonical text, which `serialize` writes, or, in a binary format, the
-- bytes themselves: no other spelling, no array of numbers and no other length. The elements are bytes.
pub array32_iff :
    (d : Input) (v : Bytes)
    → AreBytes v
    → (deserialize_array32 false d ≡ ok v)
      ↔ ((length v ≡ 32) × ((d ≡ serialize_array32 v) ⊎ (d ≡ raw v)))
unfolding deserialize_array32 serialize_array32
array32_iff d v bytes = (
  λ h.
      let (long, read) = (to_array-ok false (visit false d) v).0 h in
      (long, (visit-ok d v bytes).0 read),
  λ (long, spelled). (to_array-ok false (visit false d) v).1 (long, (visit-ok d v bytes).1 spelled),
)

-- Values that `serialize` writes are read back, with the feature and without it.
pub bytes_read_back :
    (legacy : Bool) (v : Bytes) → AreBytes v → deserialize_bytes legacy (serialize_bytes v) ≡ ok v
unfolding deserialize_bytes serialize_bytes visit
bytes_read_back legacy v bytes =
    (ok_or-ok (decode (encode v)) not_canonical v).1 ((decode_iff (encode v) v bytes).1 refl)

abbrev pub AllBytes : List Bytes → Type 0
AllBytes [] = Unit {0}
AllBytes (v ∷ vs) = AreBytes v × AllBytes vs

pub vec_bytes_read_back :
    (legacy : Bool) (vs : List Bytes)
    → AllBytes vs
    → deserialize_vec_bytes legacy (serialize_vec_bytes vs) ≡ ok vs
unfolding deserialize_vec_bytes serialize_vec_bytes serialize_bytes
vec_bytes_read_back legacy [] all = refl
vec_bytes_read_back legacy (v ∷ vs) all =
    rw (bytes_read_back legacy v all.0, vec_bytes_read_back legacy vs all.1) refl
