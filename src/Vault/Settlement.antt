-- ===== src/Vault/Settlement.antt =====
-- src/settlement.rs: the EIP-712 encoding of an EIP-3009 authorization.
pub mod Layout
use aethel_runtime.Base.{
  ℕ, zero, suc, ◌+◌, ◌-◌, ◌*◌, ◌≡◌, refl, ◌&&◌, Option, none, some, [], ◌∷◌, ◌++◌, leb, ◌==◌,
  if◌then◌else◌, length,
}
use aethel_runtime.Base.Bytes.{replicate, Bytes, codes}
use mathlib.Core.Option
use aethel_runtime.Wire.{to_be_bytes}
use aethel_runtime.Vault.Policy.{Rail, eip3009_base, eip3009_ethereum, eip3009_arbitrum}

-- A 32-byte big-endian ABI word. A longer argument is a panic in the source; none is passed.
unfoldable pub pad_left_32 : Bytes → Bytes
pad_left_32 bytes = replicate (32 - length bytes) 0 ++ bytes

abbrev pub abi_address : Bytes → Bytes
abi_address addr = pad_left_32 addr

unfoldable pub abi_u128 : ℕ → Bytes
unfolding to_be_bytes pad_left_32
abi_u128 v = pad_left_32 (to_be_bytes 16 v)

unfoldable pub abi_u64_as_u256 : ℕ → Bytes
unfolding to_be_bytes pad_left_32
abi_u64_as_u256 v = pad_left_32 (to_be_bytes 8 v)

-- One digit of `from_str_radix(.., 16)`.
unfoldable pub hex_digit : ℕ → Option ℕ
hex_digit c =
    if leb b'0' c && leb c b'9'
    then some (c - b'0')
    else if leb b'a' c && leb c b'f'
    then some (c - b'a' + 10)
    else if leb b'A' c && leb c b'F'
    then some (c - b'A' + 10)
    else none

-- `u8::from_str_radix` of two characters: two digits, or a plus sign and one.
unfoldable pub hex_pair : ℕ → ℕ → Option ℕ
unfolding hex_digit
hex_pair a b = if a == b'+' then hex_digit b else elim (hex_digit a) [
  | none ↦ none
  | some hi ↦ Option.map (λ lo. hi * 16 + lo) (hex_digit b)
]

abbrev cons_both : Option ℕ → Option Bytes → Option Bytes
cons_both none rest = none
cons_both (some b) none = none
cons_both (some b) (some rest) = some (b ∷ rest)

-- The loop over `out`: one byte from each two characters.
unfoldable pub hex_bytes : ℕ → Bytes → Option Bytes
unfolding hex_pair
hex_bytes zero s = some []
hex_bytes (suc n) [] = none
hex_bytes (suc n) (a ∷ []) = none
hex_bytes (suc n) (a ∷ b ∷ s) = cons_both (hex_pair a b) (hex_bytes n s)

-- `trim_start_matches("0x")`
unfoldable pub trim_0x : Bytes → Bytes
trim_0x [] = []
trim_0x (a ∷ []) = a ∷ []
trim_0x (a ∷ b ∷ s) = if a == b'0' && b == b'x' then trim_0x s else a ∷ b ∷ s

-- `none` is the panic on text that is too short or no hexadecimal.
unfoldable pub parse_hex_address : Bytes → Option Bytes
unfolding hex_bytes trim_0x
parse_hex_address hex_str = hex_bytes 20 (trim_0x hex_str)

pub data Chain : Type 0 where
  base ethereum arbitrum_one : Chain

unfoldable pub chain_id : Chain → ℕ
chain_id base = 8453
chain_id ethereum = 1
chain_id arbitrum_one = 42161

unfoldable pub domain_name : Chain → Bytes
domain_name c = codes "USD Coin"

unfoldable pub domain_version : Chain → Bytes
domain_version c = codes "2"

abbrev contract_text : Chain → Bytes
contract_text base = codes "0x833589fCD6eDb6E08f4c7C32D4f71b54bdA02913"
contract_text ethereum = codes "0xA0b86991c6218b36c1d19D4a2e9Eb0cE3606eB48"
contract_text arbitrum_one = codes "0xaf88d065e77c8cC2239327C5EDb3A432268e5831"

abbrev or_empty : Option Bytes → Bytes
or_empty none = []
or_empty (some b) = b

-- The panic of `parse_hex_address` is the empty address here; `length-usdc_contract` shows that none
-- of the three texts panics.
unfoldable pub usdc_contract : Chain → Bytes
unfolding parse_hex_address
usdc_contract c = or_empty (parse_hex_address (contract_text c))

unfoldable pub rail_of : Chain → Rail
rail_of base = eip3009_base
rail_of ethereum = eip3009_ethereum
rail_of arbitrum_one = eip3009_arbitrum

pub length-usdc_contract : (c : Chain) → length (usdc_contract c) ≡ 20
unfolding usdc_contract
length-usdc_contract base = refl
length-usdc_contract ethereum = refl
length-usdc_contract arbitrum_one = refl

pub record TransferWithAuthorization : Type 0 where
  pub from : Bytes
  pub to : Bytes
  pub value : ℕ
  pub valid_after : ℕ
  pub valid_before : ℕ
  pub nonce : Bytes

abbrev pub domain_type : Bytes
domain_type =
    codes "EIP712Domain(string name,string version,uint256 chainId,address verifyingContract)"

abbrev pub transfer_type : Bytes
transfer_type =
    codes
      "TransferWithAuthorization(address from,address to,uint256 value,uint256 validAfter,uint256 validBefore,bytes32 nonce)"

-- `keccak256` is the parameter of all hashing here.
module _ (keccak256 : Bytes → Bytes) where
  -- The bytes that `Chain::domain_separator` hashes.
  unfoldable pub domain_bytes : Chain → Bytes
  unfolding abi_u64_as_u256 usdc_contract domain_name domain_version chain_id
  domain_bytes c =
      keccak256 domain_type
      ++ (keccak256 (domain_name c)
          ++ (keccak256 (domain_version c)
              ++ (abi_u64_as_u256 (chain_id c) ++ abi_address (usdc_contract c))))

  unfoldable pub domain_separator : Chain → Bytes
  unfolding domain_bytes
  domain_separator c = keccak256 (domain_bytes c)

  -- The bytes that `struct_hash` hashes.
  unfoldable pub struct_bytes : TransferWithAuthorization → Bytes
  unfolding abi_u128 abi_u64_as_u256
  struct_bytes a =
      keccak256 transfer_type
      ++ (abi_address a.from
          ++ (abi_address a.to
              ++ (abi_u128 a.value
                  ++ (abi_u64_as_u256 a.valid_after
                      ++ (abi_u64_as_u256 a.valid_before ++ a.nonce)))))

  unfoldable pub struct_hash : TransferWithAuthorization → Bytes
  unfolding struct_bytes
  struct_hash a = keccak256 (struct_bytes a)

  unfoldable pub eip712_digest : TransferWithAuthorization → Chain → Bytes
  unfolding domain_separator struct_hash
  eip712_digest a c = keccak256 (0x19 ∷ 0x01 ∷ (domain_separator c ++ struct_hash a))
