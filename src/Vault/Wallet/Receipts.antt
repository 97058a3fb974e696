-- ===== src/Vault/Wallet/Receipts.antt =====
-- src/receipt.rs: a receipt that the wallet signs is a receipt that verifies.
use aethel_runtime.Base.{◌≡◌, refl, true, some, ok}
use aethel_runtime.Base.Bytes.{Bytes}
use aethel_runtime.Auth.Core.{Signs}
use aethel_runtime.Vault.Core.{VaultCore}
use aethel_runtime.Vault.Wallet.{
  SettlementSigner, Receipt, SignedReceipt, Bincode, Wallet, sign_receipt, sign_receipt_as,
  verify_receipt,
}

module _ {E I S : Type 0} (vc : VaultCore E I) (sg : SettlementSigner S) (bin : Bincode) where
  -- A receipt that can be serialized is signed by the wallet whose identity can sign under the receipt
  -- purpose: the result holds this receipt and the wallet's key, and verifies.
  pub sign_receipt-verifies :
      (w : Wallet S I) (r : Receipt) (bytes : Bytes)
      → bin.serialize_receipt r ≡ some bytes
      → Signs vc.core w.identity vc.vault_settlement_receipt_v1
      → (signed : SignedReceipt) × (sign_receipt vc sg bin w r ≡ ok signed)
        × (signed.receipt ≡ r)
        × (signed.signer_pk ≡ vc.core.public_key w.identity)
        × (verify_receipt vc sg bin signed ≡ ok true)
  unfolding sign_receipt sign_receipt_as verify_receipt
  sign_receipt-verifies w r bytes h signs = (
    record {
      receipt = r;
      signer_pk = vc.core.public_key w.identity;
      signature = signs.signature_of bytes;
    },
    rw (h, signs.signs bytes) refl,
    refl,
    refl,
    rw (h, signs.verifies bytes) refl,
  )
