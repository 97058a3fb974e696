-- ===== src/Lib.antt =====
-- aethel-runtime: authentication of agents, spending under a policy, and a confidential ledger.
--
-- The repository has three crates that carry its logic. `aethel-auth` (crates/aethel-auth/src) builds and
-- verifies signed statements: a holder signs login proofs, step-ups, delegations, approvals, revocations
-- and successions, and a relying party checks them against its audience, its clock, its revoked keys
-- and a store of used nonces. `aethel-vault` (src) keeps a spend policy, asks an external wallet for
-- payment signatures within that policy, and holds a ledger of encrypted balances. `aethel-auth-cli`
-- (crates/aethel-auth-cli/src) is the holder's terminal: it keeps an identity sealed in a file, splits it
-- into recovery shares, and prints what the holder signs.
--
-- Files and code
-- - Base, Base/*: tests on natural numbers, lists, `Result` with `?`, `Option` with `?`, byte strings.
-- - Wire, Wire/Unique: the length-prefixed framing of crates/aethel-auth/src/proof.rs and delegation.rs
--   (`push_len_prefixed`, `to_be_bytes`), and how a framed field is read back.
-- - Auth/Core: the cryptography that the crates take from elsewhere. Signing and verification under a
--   purpose, SHAKE-256 and the registered purposes are fields of a record; `Signs` is what the signer
--   documents.
-- - Auth/Error, Auth/Error/Public: error.rs (`AuthError`, `public_message`, `is_rejection`). A call with
--   an effect is a function from the store to a result and the store.
-- - Auth/Base64, Auth/Base64/RoundTrip: b64.rs (`encode`, `decode_any`, `decode`), with the bitwise or of
--   Base/Bits. A text is its bytes.
-- - Auth/Base64/Serde, Auth/Base64/Serde/Canonical: b64.rs (`BytesVisitor`, `to_array`, and the `serialize`
--   and `deserialize` of its modules), over the kinds of value that `serde` hands to a visitor.
-- - Auth/Nonce, Auth/Nonce/Memory: nonce.rs (`NonceStore`, `InMemoryNonceStore`: `claim`,
--   `evict_expired`). The map is an association list; `Remembers` is the trait's contract.
-- - Auth/Envelope: proof.rs (`check_envelope`, `nonce_retention`, `nonce_key`, `claim_nonce`).
-- - Auth/Login, Auth/StepUp and their Layout and Verdict: proof.rs (`signing_input`, `verify_login`,
--   `verify_login_for_request`, `verify_step_up`).
-- - Auth/Delegation, Auth/Approval, Auth/Statements and their Layout and Verdict: delegation.rs
--   (`authorise`, `verify_delegation`, `id`), approval.rs (`check_approval`), statements.rs
--   (`verify_revocation`, `verify_succession`, `retired_key`).
-- - Auth/Holder, Auth/Holder/Proofs, Auth/Holder/Grants: holder.rs. A panic of `expect` is `none`.
-- - Auth/Keys: the store's keys and delegation ids as hashes of framed fields.
-- - Auth/Service, Auth/Replay, Auth/Replay/Skew: calls and evictions over one store, in any order.
-- - Vault/Policy and children: src/policy.rs (`check`, `record`, `HitlApproval::verify`).
-- - Vault/Settlement, Vault/Settlement/Layout: src/settlement.rs (ABI words, `Chain`, `eip712_digest`).
--   Keccak-256 is a parameter.
-- - Vault/Binding and children: src/settlement.rs (`wallet_bind_message`, `wallet_bind_canonical_json`,
--   `sign_wallet_bind`). A text is its UTF-8 bytes.
-- - Vault/Wallet and children: src/settlement.rs (`Wallet::authorize_eip3009`, `sign_receipt`) and
--   src/receipt.rs. The external signer is a record of operations on a state of its own; `bincode` of
--   the two signed structures is a parameter.
-- - Vault/Ledger and children: src/vault.rs on the native target with the `fhe-state` feature. The
--   thread-locals are the fields of `Ledger`; the homomorphic operations, the codec of the persisted
--   state and the PLP proofs of `aethel_core` are parameters, with what they document in `Decrypts`.
-- - Vault/Ledger/Wasm, Vault/Ledger/Wasm/Native: src/vault.rs on wasm32 (`do_homomorphic_transfer_wasm`
--   and `homomorphic_transfer` there), over the functions that the host provides.
-- - Vault/Exports and children: src/lib.rs (`vault_init`, `vault_register`, `vault_transfer` and the
--   others) and the functions of src/vault.rs behind them; sequences of these calls.
-- - Vault/Client, Vault/Client/Keys, Vault/Client/Session: src/client.rs (`NativeVaultClient`), over the client side of
--   `tfhe`; a whole session of a client with the ledger.
-- - Vault/Helix and children: src/storage/helixdb.rs (`Vector256::from_mlwe_coeffs`, `HelixDbAdapter`, and
--   the queue of nodes of `wasm_stub`). An `f32` and its division are parameters.
-- - Auth/Fingerprint: proof.rs (`key_fingerprint`).
-- - Cli/Host, Cli/Laws: the data of crates/aethel-auth-cli/src (`CliError`, `Command`, `IdentityFile`,
--   `ShareFile`), and as fields of a record what the tool takes from elsewhere: the file system, `OsRng`,
--   `hex`, `argon2`, `serde_json`, and the sealing and sharing of `aethel_core`; `Laws` is what they
--   document.
-- - Cli/Action, Cli/Action/Keeps, Cli/Action/Steps: a step of the tool, from the files, the standard
--   streams, the count of draws and the clock to how it ends (a value, an error or a panic); rules for
--   what a step leaves alone and for what holds where it has returned.
-- - Cli/Passphrase and its child: main.rs (`read_passphrase`, `fresh_nonce`, the reading and writing of
--   files).
-- - Cli/IdentityFile and children: identity_file.rs (`derive`, `create`, `from_entropy`, `open`, `read`,
--   `write`, `fingerprint`). Cli/Recovery and children: recovery.rs (`split`, `combine`, `read_share`,
--   `write_share`).
-- - Cli/Run and children: main.rs (`open_identity`, `emit`, `run`), one function for each command.
-- - Cli/Main, Cli/Main/Stopped: main.rs (`main`, the texts of `CliError`) and the exit code.
-- - Auth/Toy, Auth/Examples, Cli/Toy, Cli/Examples, Vault/Examples: the theorems at concrete inputs.
--
-- Numbers
-- A `u64` or `u128` is a natural number; the saturating additions of the source are written out, a
-- theorem that needs the range of a field has it as a condition, and `as u32` in a signed field is a
-- remainder. The loops of the source that are modelled go over lists; the decimal text of a `u64` has
-- fuel for twenty digits, and Vault/Binding/Numerals shows that they are enough; the loop that trims a
-- passphrase has a round for every byte. The tool's `start + valid_for` wraps, as in the release profile,
-- which turns overflow checks off.
--
-- Not modelled
-- The parsing of the command line (`clap`), feature guards and generated code (build.rs), the derived
-- serde implementations, the Display texts of the other errors, and the pointer arithmetic of the entry
-- points of src/vault.rs. Constant-time comparison is equality.
pub mod Base
pub mod Wire
pub mod Auth
pub mod Cli
pub mod Vault
