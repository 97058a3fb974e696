-- ===== src/Vault/Error.antt =====
-- src/error.rs: the error type of the wallet, the policy and the receipts.
use aethel_runtime.Vault.Policy.{PolicyViolation}

-- `SettlementError` of src/settlement.rs.
pub data SettlementError : Type 0 where
  signer_rejected : SettlementError

-- `E` is `aethel_core::IdentityError`.
pub data VaultError (E : Type 0) : Type 0 where
  policy_denied : PolicyViolation → VaultError E
  hitl_required : VaultError E
  signer_failure : SettlementError → VaultError E
  invalid_address rail_not_allowed : VaultError E
  identity_error : E → VaultError E
  serialization_error : VaultError E
