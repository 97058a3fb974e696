-- ===== src/Vault/Examples/Wallets.antt =====
-- The theorems about the wallet and the settlement digest at concrete inputs.
use aethel_runtime.Base.{◌+◌, ◌≤◌, ◌≡◌, refl, ap, ◌≢◌, ◌⊎◌, none, [], ◌∷◌, arith, length, ok}
use aethel_runtime.Base.Bytes.{Bytes, replicate}
use aethel_runtime.Auth.Toy.{sealed, alice}
use aethel_runtime.Vault.Policy.{check, allows_rail, effective_spent_today}
use aethel_runtime.Vault.Policy.Window.{total}
use aethel_runtime.Vault.Settlement.{base, rail_of, TransferWithAuthorization}
use aethel_runtime.Vault.Settlement.Layout.{
  IsWellFormed, SameTransfer, KeccakCollision, eip712_digest_separates,
}
use aethel_runtime.Vault.Wallet.{
  SettlementAuthorization, Receipt, authorize_eip3009, digest_of, transfer_of, intent_of,
  sign_intent, permitted, approved, concluded, recorded,
}
use aethel_runtime.Vault.Wallet.Terms.{Permits, Grants}
use aethel_runtime.Vault.Wallet.Verdict.{authorize_eip3009-changes, authorize_eip3009-accepts}
use aethel_runtime.Vault.Wallet.Spending.{Call, settled, settled-le-twice_cap}
use aethel_runtime.Vault.Examples.{vault_core, counting, bin, wallet, payee, nonce}

abbrev transfer : TransferWithAuthorization
transfer = transfer_of vault_core counting bin wallet payee 80 nonce 1000

abbrev digest : Bytes
digest = digest_of vault_core counting bin wallet payee 80 nonce base 1000

abbrev authorization : SettlementAuthorization
authorization = record {
  authorization = transfer;
  chain = base;
  eip712_digest = digest;
  external_signature = 0 ∷ digest;
  intent = intent_of vault_core counting bin transfer base;
  intent_signature =
      sealed alice (22 ∷ []) (80 ∷ (intent_of vault_core counting bin transfer base).eip712_digest);
  intent_signer_pk = alice;
}

accepted :
    (authorize_eip3009 vault_core counting bin wallet payee 80 nonce base 1000 none).0
    ≡ ok authorization
unfolding authorize_eip3009 permitted approved check allows_rail effective_spent_today rail_of
    concluded sign_intent recorded intent_of transfer_of
accepted = refl

authorize_eip3009-accepts_example :
    Permits vault_core counting bin wallet payee 80 nonce base 1000 none
    × Grants vault_core counting bin wallet payee 80 nonce base 1000 authorization
        (authorize_eip3009 vault_core counting bin wallet payee 80 nonce base 1000 none).1
authorize_eip3009-accepts_example =
    authorize_eip3009-accepts vault_core counting bin wallet payee 80 nonce base 1000 none
      authorization (omega arith) accepted

signer_counts :
    (authorize_eip3009 vault_core counting bin wallet payee 80 nonce base 1000 none).1.signer ≡ 1
unfolding authorize_eip3009 permitted approved check allows_rail effective_spent_today rail_of
    concluded sign_intent recorded intent_of transfer_of
signer_counts = refl

changed :
    (authorize_eip3009 vault_core counting bin wallet payee 80 nonce base 1000 none).1 ≢ wallet
changed h =
    let same : (authorize_eip3009 vault_core counting bin wallet payee 80 nonce base 1000
          none).1.signer
        ≡ 0 =
      ap (λ w. w.signer) h in
    omega (arith, same, signer_counts)

authorize_eip3009-changes_example :
    Permits vault_core counting bin wallet payee 80 nonce base 1000 none
authorize_eip3009-changes_example =
    authorize_eip3009-changes vault_core counting bin wallet payee 80 nonce base 1000 none
      (omega arith) changed

abbrev call : Call
call = record { to = payee; value = 80; nonce = nonce; chain = base; now = 1000; hitl = none }

settled-le-twice_cap_example :
    total (settled vault_core counting bin wallet (call ∷ [])) ≤ 200 + 200
unfolding settled authorize_eip3009 permitted approved check allows_rail effective_spent_today
    rail_of concluded sign_intent recorded intent_of transfer_of
settled-le-twice_cap_example =
    settled-le-twice_cap vault_core counting bin wallet 900 (call ∷ []) (omega arith) (omega arith)
      (omega arith, omega arith, tt)

abbrev receipt : Receipt
receipt = record { auth_hash = nonce; amount = 5; dst = payee; ts = 1000; chain_id = 1 }

abbrev plain_transfer : TransferWithAuthorization
plain_transfer = record {
  from = payee;
  to = payee;
  value = 80;
  valid_after = 1000;
  valid_before = 1600;
  nonce = nonce;
}

transfer_formed : IsWellFormed plain_transfer
transfer_formed = record {
  from_20 = refl;
  to_20 = refl;
  value_u128 = omega arith;
  after_u64 = omega arith;
  before_u64 = omega arith;
  nonce_32 = refl;
}

constant_length : (x : Bytes) → length (replicate 32 (length x)) ≡ 32
constant_length x = refl

eip712_digest_separates_example :
    (SameTransfer plain_transfer plain_transfer × (base ≡ base))
    ⊎ KeccakCollision vault_core.keccak256 constant_length
eip712_digest_separates_example =
    eip712_digest_separates vault_core.keccak256 constant_length plain_transfer plain_transfer base
      base transfer_formed transfer_formed refl
