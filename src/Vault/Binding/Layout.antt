-- ===== src/Vault/Binding/Layout.antt =====
-- The canonical JSON of a wallet binding determines what it binds.
use aethel_runtime.Base.{
  ℕ, ◌+◌, ◌-◌, ◌*◌, ◌/◌, ◌%◌, ◌<◌, ◌≡◌, refl, sym, ap, ap₂, ◌∙◌, subst, ◌≢◌, inl, inr, false,
  Option, none, some, [], ◌∷◌, ◌++◌, append_assoc, arith, ltb, ◌==◌, if◌then◌else◌, ==_iff,
  Bool-cases, length, head?, tail, append-inj,
}
use aethel_runtime.Base.Bytes.{Bytes, codes}
use aethel_runtime.Vault.Settlement.{Chain, chain_id}
use aethel_runtime.Vault.Binding.{
  hex_lower, to_hex_lower, display_u64, escape, json_escape, quoted, wallet_bind_canonical_json,
}

-- The value of a hexadecimal digit.
abbrev unhex : ℕ → ℕ
unhex h = if ltb h 58 then h - 48 else h - 87

unhex-hex_lower : (n : ℕ) → n < 16 → unhex (hex_lower n) ≡ n
unhex-hex_lower n h = ground arith

-- One character, read back from its escape.
abbrev hex_char : Bytes → Option (ℕ × Bytes)
hex_char (a ∷ b ∷ h ∷ l ∷ r) = some (unhex h * 16 + unhex l, r)
hex_char _ = none

abbrev plain : ℕ → ℕ
plain k = if k == 110 then 10 else if k == 114 then 13 else if k == 116 then 9 else k

abbrev escaped_char : Bytes → Option (ℕ × Bytes)
escaped_char [] = none
escaped_char (k ∷ r) = if k == 117 then hex_char r else some (plain k, r)

abbrev next_char : Bytes → Option (ℕ × Bytes)
next_char [] = none
next_char (c ∷ r) = if c == 92 then escaped_char r else some (c, r)

-- A control character that has no short escape.
next_char-control :
    (c : ℕ) (r : Bytes)
    → c < 32
    → next_char (92 ∷ 117 ∷ 48 ∷ 48 ∷ hex_lower (c / 16) ∷ hex_lower (c % 16) ∷ r) ≡ some (c, r)
next_char-control c r h =
    rw (unhex-hex_lower (c / 16) (omega arith), unhex-hex_lower (c % 16) (omega arith))
      (ap (λ x. some (x, r)) (omega arith))

next_char-long :
    (c : ℕ) (r : Bytes)
    → (c == 92) ≡ false
    → next_char (
        (if ltb c 32
          then 92 ∷ 117 ∷ 48 ∷ 48 ∷ hex_lower (c / 16) ∷ hex_lower (c % 16) ∷ []
          else c ∷ [])
        ++ r)
      ≡ some (c, r)
next_char-long c r h = elim (Bool-cases (ltb c 32)) [
  | inl e ↦ rw e (next_char-control c r (ground arith))
  | inr e ↦ rw (e, h) refl
]

next_char-escape : (c : ℕ) (r : Bytes) → next_char (escape c ++ r) ≡ some (c, r)
next_char-escape c r = elim (Bool-cases (c == 34)) [
  | inl e ↦ let q = (==_iff c 34).0 e in rw q refl
  | inr quote ↦ elim (Bool-cases (c == 92)) [
    | inl e ↦ let q = (==_iff c 92).0 e in rw q refl
    | inr slash ↦ elim (Bool-cases (c == 10)) [
      | inl e ↦ let q = (==_iff c 10).0 e in rw q refl
      | inr line ↦ elim (Bool-cases (c == 13)) [
        | inl e ↦ let q = (==_iff c 13).0 e in rw q refl
        | inr return ↦ elim (Bool-cases (c == 9)) [
          | inl e ↦ let q = (==_iff c 9).0 e in rw q refl
          | inr tab ↦ rw (quote, slash, line, return, tab) (next_char-long c r slash)
        ]
      ]
    ]
  ]
]

-- No escape begins with a quote.
escape-quote : (c : ℕ) (r x : Bytes) → escape c ++ r ≢ 34 ∷ x
escape-quote c r x h =
    let read : some (c, r) ≡ some (34, x) = sym (next_char-escape c r) ∙ ap next_char h in
    let q : c ≡ 34 = ground (arith, read) in
    let heads : some 92 ≡ some 34 = ap head? (subst (λ c. escape c ++ r ≡ 34 ∷ x) q h) in
    ground (arith, heads)

escape_unique : (c d : ℕ) (u v : Bytes) → escape c ++ u ≡ escape d ++ v → (c ≡ d) × (u ≡ v)
escape_unique c d u v h =
    let read : some (c, u) ≡ some (d, v) =
      sym (next_char-escape c u) ∙ ap next_char h ∙ next_char-escape d v in
    ground (arith, read)

json_escape_unique :
    (s t x y : Bytes) → json_escape s ++ (34 ∷ x) ≡ json_escape t ++ (34 ∷ y) → (s ≡ t) × (x ≡ y)
unfolding json_escape
json_escape_unique [] [] x y h = (refl, ap tail h)
json_escape_unique [] (d ∷ t) x y h =
    absurd
      (escape-quote d (json_escape t ++ (34 ∷ y)) x (sym (append_assoc (escape d) _ _) ∙ sym h))
json_escape_unique (c ∷ s) [] x y h =
    absurd (escape-quote c (json_escape s ++ (34 ∷ x)) y (sym (append_assoc (escape c) _ _) ∙ h))
json_escape_unique (c ∷ s) (d ∷ t) x y h =
    let r =
      escape_unique c d (json_escape s ++ (34 ∷ x)) (json_escape t ++ (34 ∷ y))
        (sym (append_assoc (escape c) _ _) ∙ h ∙ append_assoc (escape d) _ _) in
    let ih = json_escape_unique s t x y r.1 in (ap₂ ◌∷◌ r.0 ih.0, ih.1)

-- Every element is a byte.
abbrev pub AreBytes : Bytes → Type 0
AreBytes [] = Unit {0}
AreBytes (b ∷ bs) = (b < 256) × AreBytes bs

hex_lower-inj : (m n : ℕ) → m < 16 → n < 16 → hex_lower m ≡ hex_lower n → m ≡ n
hex_lower-inj m n hm hn h = ground arith

to_hex_lower_unique :
    (a b x y : Bytes)
    → AreBytes a
    → AreBytes b
    → length a ≡ length b
    → to_hex_lower a ++ x ≡ to_hex_lower b ++ y
    → (a ≡ b) × (x ≡ y)
unfolding to_hex_lower
to_hex_lower_unique [] [] x y ha hb n h = (refl, h)
to_hex_lower_unique [] (d ∷ b) x y ha hb n h = absurd (omega (arith, n))
to_hex_lower_unique (c ∷ a) [] x y ha hb n h = absurd (omega (arith, n))
to_hex_lower_unique (c ∷ a) (d ∷ b) x y ha hb n h =
    let heads : some (hex_lower (c / 16)) ≡ some (hex_lower (d / 16)) = ap head? h in
    let seconds : some (hex_lower (c % 16)) ≡ some (hex_lower (d % 16)) =
      ap (λ z. head? (tail z)) h in
    let high =
      hex_lower-inj (c / 16) (d / 16) (omega (arith, ha.0)) (omega (arith, hb.0)) (cc heads) in
    let low = hex_lower-inj (c % 16) (d % 16) (omega arith) (omega arith) (cc seconds) in
    let same : c ≡ d = omega (arith, high, low) in
    let rest =
      to_hex_lower_unique a b x y ha.1 hb.1 (omega (arith, n)) (ap (λ z. tail (tail z)) h) in
    (ap₂ ◌∷◌ same rest.0, rest.1)

-- The chain ids in decimal, before a comma.
display_chain_unique :
    (c d : Chain) (x y : Bytes)
    → display_u64 (chain_id c) ++ (44 ∷ x) ≡ display_u64 (chain_id d) ++ (44 ∷ y)
    → (c ≡ d) × (x ≡ y)
unfolding display_u64 chain_id
display_chain_unique c d x y h = ground arith

-- Two wallet bindings with the same canonical JSON bind the same agent, whatever characters its
-- DID has, on the same chain to the same address, with the same nonce. Addresses are 20 bytes and
-- nonces 32.
pub wallet_bind_canonical_json-inj :
    (p q : Bytes) (c d : Chain) (a b m n : Bytes)
    → AreBytes a
    → AreBytes b
    → length a ≡ 20
    → length b ≡ 20
    → AreBytes m
    → AreBytes n
    → length m ≡ 32
    → length n ≡ 32
    → wallet_bind_canonical_json p c a m ≡ wallet_bind_canonical_json q d b n
    → (p ≡ q) × (c ≡ d) × (a ≡ b) × (m ≡ n)
unfolding wallet_bind_canonical_json
wallet_bind_canonical_json-inj p q c d a b m n ha hb la lb hm hn lm ln h =
    let opened =
      append-inj (123 ∷ (quoted (codes "agent_did") ++ (58 ∷ 34 ∷ []))) _
        (123 ∷ (quoted (codes "agent_did") ++ (58 ∷ 34 ∷ []))) _ refl h in
    let did = json_escape_unique p q _ _ opened.1 in
    let to_chain =
      append-inj (44 ∷ (quoted (codes "chain_id") ++ (58 ∷ []))) _
        (44 ∷ (quoted (codes "chain_id") ++ (58 ∷ []))) _ refl did.1 in
    let chains = display_chain_unique c d _ _ to_chain.1 in
    let to_address =
      append-inj (quoted (codes "address") ++ (58 ∷ 34 ∷ codes "0x")) _
        (quoted (codes "address") ++ (58 ∷ 34 ∷ codes "0x")) _ refl chains.1 in
    let addresses = to_hex_lower_unique a b _ _ ha hb (la ∙ sym lb) to_address.1 in
    let to_nonce =
      append-inj (34 ∷ 44 ∷ (quoted (codes "nonce") ++ (58 ∷ 34 ∷ codes "0x"))) _
        (34 ∷ 44 ∷ (quoted (codes "nonce") ++ (58 ∷ 34 ∷ codes "0x"))) _ refl addresses.1 in
    let nonces = to_hex_lower_unique m n _ _ hm hn (lm ∙ sym ln) to_nonce.1 in
    (did.0, chains.0, addresses.0, nonces.0)
