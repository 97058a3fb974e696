-- ===== src/Cli/Host.antt =====
-- The data of crates/aethel-auth-cli/src (`CliError`, the identity file, the share files, the
-- commands), and what the tool takes from elsewhere: the file system, the generator of the operating
-- system, `hex`, `argon2`, `serde_json`, and the sealing and sharing of `aethel_core`. A text is its
-- bytes.
use aethel_runtime.Base.{ℕ, Bool, Option, List, Result}
use aethel_runtime.Base.Bytes.{Bytes}
use aethel_runtime.Auth.Core.{Core}
use aethel_runtime.Auth.Login.{LoginProof}
use aethel_runtime.Auth.StepUp.{StepUpProof}
use aethel_runtime.Auth.Delegation.{Delegation}
use aethel_runtime.Auth.Statements.{Revocation, Succession}

pub data CliError : Type 0 where
  io : Bytes → CliError
  corrupt : Bytes → CliError
  crypto : Bytes → CliError
  wrong_passphrase : CliError
  not_enough_shares : CliError
  usage : Bytes → CliError

pub record KdfParams : Type 0 where
  pub salt : Bytes
  pub m_cost : ℕ
  pub t_cost : ℕ
  pub p_cost : ℕ

pub record RecoveryRecord : Type 0 where
  pub root : Bytes
  pub shares_issued : ℕ
  pub threshold : ℕ

pub record IdentityFile : Type 0 where
  pub version : ℕ
  pub audience : Bytes
  pub public_key : Bytes
  pub sealed : Bytes
  pub kdf : KdfParams
  pub recovery : Option RecoveryRecord

pub record ShareFile : Type 0 where
  pub version : ℕ
  pub audience : Bytes
  pub index : ℕ
  pub value : Bytes
  pub path : Bytes

-- `aethel_core::htss::HtssShare`, the fields that the tool reads and sets.
pub record HtssShare : Type 0 where
  pub index : ℕ
  pub value : Bytes
  pub path : Bytes

-- The values that `emit` is called with.
pub data Statement : Type 0 where
  login_proof : LoginProof → Statement
  step_up_proof : StepUpProof → Statement
  delegated : Delegation → Statement
  revoked : Revocation → Statement
  succeeded : Succession → Statement

pub data Command : Type 0 where
  new : (audience out passphrase_file shares_dir : Bytes) (no_recovery : Bool) → Command
  show : (identity : Bytes) → Command
  login : (identity passphrase_file : Bytes) (valid_for : ℕ) → Command
  step_up : (identity passphrase_file action_digest action_says : Bytes) (valid_for : ℕ) → Command
  delegate :
      (identity passphrase_file to : Bytes) (actions : List Bytes)
      (max_per_invocation max_total window_secs approval_required_above : Option ℕ) (valid_for : ℕ)
      → Command
  revoke : (identity passphrase_file : Bytes) (subject : Option Bytes) → Command
  succeed : (identity passphrase_file to : Bytes) → Command
  recover : (shares : List Bytes) (root audience out passphrase_file : Bytes) → Command

-- `E` is `aethel_core::IdentityError`, `I` is `aethel_core::signing::Identity`, and `S` is whatever
-- the file system keeps.
pub record Host (E I S : Type 0) : Type 0 where
  pub core : Core E I
  -- `std::fs::read`, `write` and `create_dir_all`; an error is its text
  pub read : S → Bytes → Result Bytes Bytes
  pub write : S → Bytes → Bytes → Result Bytes (Unit {0}) × S
  pub create_dir_all : S → Bytes → Result Bytes (Unit {0}) × S
  -- the test of `read_to_string`, and its error's text
  pub is_utf8 : Bytes → Bool
  pub not_utf8 : Bytes
  -- the n-th draw from `OsRng`, of this length
  pub os_rng : ℕ → ℕ → Bytes
  pub hex_encode : Bytes → Bytes
  pub hex_decode : Bytes → Option Bytes
  -- `Params::new` of the three costs and the output length, and the Argon2id of these parameters:
  -- passphrase, salt
  pub argon2id : ℕ → ℕ → ℕ → ℕ → Option (Bytes → Bytes → Option Bytes)
  pub default_m_cost : ℕ
  pub default_t_cost : ℕ
  pub default_p_cost : ℕ
  pub generate : Bytes → Result E I
  pub export_sealed : I → Bytes → Result E Bytes
  pub import_sealed : Bytes → Bytes → Result E I
  -- secret, nonce; shares and their root
  pub split_key_material : Bytes → Bytes → Result E (List HtssShare × Bytes)
  pub reconstruct_key_material : List HtssShare → Bytes → Result E Bytes
  pub is_threshold_not_met : E → Bool
  -- `serde_json::to_string_pretty` and `from_str` at each type
  pub identity_file_json : IdentityFile → Option Bytes
  pub parse_identity_file : Bytes → Option IdentityFile
  pub share_json : ShareFile → Option Bytes
  pub parse_share : Bytes → Option ShareFile
  pub statement_json : Statement → Option Bytes
