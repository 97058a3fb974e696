-- ===== src/Vault/Binding.antt =====
-- src/settlement.rs: the messages that bind an external wallet to an agent. A text is its UTF-8 bytes:
-- all that is escaped is ASCII, and the bytes of other characters are 128 or more.
pub mod Layout
pub mod Numerals
use aethel_runtime.Base.{
  ℕ, zero, suc, ◌+◌, ◌/◌, ◌%◌, [], ◌∷◌, ◌++◌, ltb, ◌==◌, if◌then◌else◌, length, Result, map_err,
}
use aethel_runtime.Base.Bytes.{Bytes, codes}
use aethel_runtime.Auth.Core.{Core}
use aethel_runtime.Vault.Error.{VaultError, identity_error}
use aethel_runtime.Vault.Settlement.{Chain, chain_id}

-- A digit of `{:02x}`.
abbrev pub hex_lower : ℕ → ℕ
hex_lower n = if ltb n 10 then 48 + n else 87 + n

unfoldable pub to_hex_lower : Bytes → Bytes
to_hex_lower [] = []
to_hex_lower (b ∷ bs) = hex_lower (b / 16) ∷ hex_lower (b % 16) ∷ to_hex_lower bs

-- The `Display` of a number with at most `digits` decimal digits.
abbrev pub decimal : ℕ → ℕ → Bytes
decimal zero n = []
decimal (suc digits) n =
    let front = decimal digits (n / 10) in
    if ltb n 10 then (48 + n) ∷ [] else front ++ ((48 + n % 10) ∷ [])

-- A `u64` has at most 20 digits.
unfoldable pub display_u64 : ℕ → Bytes
display_u64 n = decimal 20 n

unfoldable pub wallet_bind_message : Bytes → Chain → Bytes → Bytes → Bytes
unfolding display_u64 to_hex_lower
wallet_bind_message agent_did chain address nonce =
    codes "SAGP wallet binding"
    ++ (10
        ∷ (codes "agent_did: "
            ++ (agent_did
                ++ (10
                    ∷ (codes "chain: "
                        ++ (display_u64 (chain_id chain)
                            ++ (10
                                ∷ (codes "address: 0x"
                                    ++ (to_hex_lower address
                                        ++ (10 ∷ (codes "nonce: 0x" ++ to_hex_lower nonce)))))))))))

unfoldable pub eip191_wallet_bind_digest : (Bytes → Bytes) → Bytes → Chain → Bytes → Bytes → Bytes
unfolding wallet_bind_message
eip191_wallet_bind_digest keccak256 agent_did chain address nonce =
    let msg = wallet_bind_message agent_did chain address nonce in
    keccak256
      ((0x19 ∷ (codes "Ethereum Signed Message:" ++ (10 ∷ display_u64 (length msg)))) ++ msg)

-- The escape of one character.
abbrev pub escape : ℕ → Bytes
escape c =
    if c == 34
    then 92 ∷ 34 ∷ []
    else if c == 92
    then 92 ∷ 92 ∷ []
    else if c == 10
    then 92 ∷ 110 ∷ []
    else if c == 13
    then 92 ∷ 114 ∷ []
    else if c == 9
    then 92 ∷ 116 ∷ []
    else if ltb c 32
    then 92 ∷ 117 ∷ 48 ∷ 48 ∷ hex_lower (c / 16) ∷ hex_lower (c % 16) ∷ []
    else c ∷ []

unfoldable pub json_escape : Bytes → Bytes
json_escape [] = []
json_escape (c ∷ s) = escape c ++ json_escape s

-- The fields' names, with the quotes and commas around them; 34 is a quote.
abbrev pub quoted : Bytes → Bytes
quoted name = 34 ∷ (name ++ (34 ∷ []))

unfoldable pub wallet_bind_canonical_json : Bytes → Chain → Bytes → Bytes → Bytes
unfolding json_escape display_u64 to_hex_lower
wallet_bind_canonical_json agent_did chain address nonce =
    (123 ∷ (quoted (codes "agent_did") ++ (58 ∷ 34 ∷ [])))
    ++ (json_escape agent_did
        ++ (34
            ∷ ((44 ∷ (quoted (codes "chain_id") ++ (58 ∷ [])))
                ++ (display_u64 (chain_id chain)
                    ++ ((44 ∷ (quoted (codes "address") ++ (58 ∷ 34 ∷ codes "0x")))
                        ++ (to_hex_lower address
                            ++ ((34 ∷ 44 ∷ (quoted (codes "nonce") ++ (58 ∷ 34 ∷ codes "0x")))
                                ++ (to_hex_lower nonce ++ (34 ∷ 125 ∷ [])))))))))

module _ {E I : Type 0} (core : Core E I) (purpose : Bytes) where
  -- `purpose` is `VAULT_WALLET_BIND_V1`.
  unfoldable pub sign_wallet_bind : I → Bytes → Chain → Bytes → Bytes → Result (VaultError E) Bytes
  unfolding wallet_bind_canonical_json
  sign_wallet_bind identity agent_did chain address nonce = map_err identity_error (
      core.sign_with_purpose identity purpose
        (wallet_bind_canonical_json agent_did chain address nonce))
