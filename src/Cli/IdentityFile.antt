-- ===== src/Cli/IdentityFile.antt =====
-- crates/aethel-auth-cli/src/identity_file.rs: an identity sealed under a passphrase, bound to one
-- audience.
pub mod Disk
pub mod Opening
use aethel_runtime.Base.{ℕ, not, none, ◌==◌, Result, ok, ◌>>=◌, ◌>>◌, refuse_if, map_err, ok_or}
use aethel_runtime.Base.Bytes.{Bytes, bytes_eq, codes}
use aethel_runtime.Auth.Fingerprint.{key_fingerprint}
use aethel_runtime.Cli.Host.{
  CliError, corrupt, crypto, wrong_passphrase, KdfParams, IdentityFile, Host,
}

abbrev pub seal_key_len : ℕ
seal_key_len = 32

module _ {E I S : Type 0} (host : Host E I S) where
  unfoldable pub fresh : Bytes → KdfParams
  fresh salt = record {
    salt = host.hex_encode salt;
    m_cost = host.default_m_cost;
    t_cost = host.default_t_cost;
    p_cost = host.default_p_cost;
  }

  unfoldable pub derive : KdfParams → Bytes → Result CliError Bytes
  derive kdf passphrase = do
    salt ← ok_or (host.hex_decode kdf.salt) (corrupt (codes "kdf salt"))
    argon ←
        ok_or (host.argon2id kdf.m_cost kdf.t_cost kdf.p_cost seal_key_len)
          (corrupt (codes "kdf parameters"))
    ok_or (argon passphrase salt) (corrupt (codes "kdf"))

  -- The file of an identity, under a salt: what `create` and `from_entropy` do after their draws.
  unfoldable pub seal : Bytes → I → Bytes → Bytes → Result CliError IdentityFile
  unfolding fresh derive
  seal audience identity salt passphrase = do
    let kdf = fresh salt
    key ← derive kdf passphrase
    sealed ← map_err (λ e. crypto (codes "seal")) (host.export_sealed identity key)
    ok (record {
      version = 1;
      audience = audience;
      public_key = host.hex_encode (host.core.public_key identity);
      sealed = host.hex_encode sealed;
      kdf = kdf;
      recovery = none;
    })

  unfoldable pub generated : Bytes → Result CliError I
  generated entropy = map_err (λ e. crypto (codes "generate")) (host.generate entropy)

  -- The unsealing, and the test of the published key after it.
  unfoldable pub unsealed : IdentityFile → Bytes → Bytes → Result CliError I
  unsealed file key sealed = do
    identity ← map_err (λ e. wrong_passphrase) (host.import_sealed sealed key)
    refuse_if (not (bytes_eq (host.hex_encode (host.core.public_key identity)) file.public_key))
        (corrupt (codes "public key does not match the sealed identity"))
    ok identity

  unfoldable pub open_file : IdentityFile → Bytes → Result CliError I
  unfolding derive unsealed
  open_file file passphrase = do
    refuse_if (not (file.version == 1)) (corrupt (codes "unsupported file version"))
    key ← derive file.kdf passphrase
    sealed ← ok_or (host.hex_decode file.sealed) (corrupt (codes "sealed blob"))
    unsealed file key sealed

  unfoldable pub fingerprint : IdentityFile → Result CliError Bytes
  unfolding key_fingerprint
  fingerprint file = do
    key ← ok_or (host.hex_decode file.public_key) (corrupt (codes "public key"))
    ok (key_fingerprint host.core key)
