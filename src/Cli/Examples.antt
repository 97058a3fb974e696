-- ===== src/Cli/Examples.antt =====
-- The theorems about the terminal signer, at concrete inputs.
mod Runs
use aethel_runtime.Base.{ℕ, ◌≡◌, refl, Option, none, some, [], ◌∷◌, ◌++◌, if◌then◌else◌, ok}
use aethel_runtime.Base.Bytes.{Bytes, bytes_eq, codes, replicate}
use aethel_runtime.Auth.Nonce
use aethel_runtime.Auth.Holder.{Holder}
use aethel_runtime.Auth.Holder
use aethel_runtime.Auth.Toy.{toy, shop}
use aethel_runtime.Cli.Host.{IdentityFile, RecoveryRecord}
use aethel_runtime.Cli.Action.{World, pure, lift, continue, ◌>>=◌}
use aethel_runtime.Cli.Passphrase.{
  ends_in_newline, pop, trim_loop, trim, read_bytes, fill_bytes, read_passphrase,
}
use aethel_runtime.Cli.Passphrase.Trim.{
  IsPassphrase, read_passphrase-IsPassphrase, Trimmed, trim-Trimmed,
}
use aethel_runtime.Cli.IdentityFile.{fresh, derive, seal, generated, open_file}
use aethel_runtime.Cli.IdentityFile.Disk.{create}
use aethel_runtime.Cli.IdentityFile.Opening.{create-open_file}
use aethel_runtime.Cli.Toy.{toy_host, toy-Hex, toy-Sealing, print_file}

abbrev pub secret : Bytes
secret = codes "pw"

-- Alice's file at the shop, as `new` makes it from the first two draws.
abbrev pub alice_file : IdentityFile
alice_file = record {
  version = 1;
  audience = shop;
  public_key = 11 ∷ [];
  sealed = 11 ∷ (secret ++ replicate 16 12);
  kdf = record { salt = replicate 16 12; m_cost = 19456; t_cost = 2; p_cost = 1 };
  recovery = none;
}

-- `pw` has the passphrase and a newline, `id` the identity.
abbrev pub files : Bytes → Option Bytes
files p =
    if bytes_eq p (codes "pw")
    then some (secret ++ (13 ∷ 10 ∷ []))
    else if bytes_eq p (codes "id")
    then some (print_file alice_file)
    else none

abbrev pub start : World (Bytes → Option Bytes)
start = record { fs = files; stdin = ok []; stdout = []; stderr = []; drawn = 0; clock = 1000 }

create-open_file_example :
    (identity : ℕ) × (toy_host.generate (replicate 32 11) ≡ ok identity)
    × (alice_file.audience ≡ shop)
    × (alice_file.public_key ≡ toy_host.hex_encode (toy.public_key identity))
    × ((recovery : Option RecoveryRecord)
        → open_file toy_host (record alice_file { recovery = recovery }) secret ≡ ok identity)
unfolding create fill_bytes generated seal fresh derive lift pure ◌>>=◌ continue
create-open_file_example =
    create-open_file toy_host toy-Hex toy-Sealing shop secret (replicate 32 11) start
      (record start { drawn = 2 }) alice_file refl

read_passphrase-IsPassphrase_example : IsPassphrase toy_host (codes "pw") start secret
unfolding read_passphrase trim trim_loop ends_in_newline pop read_bytes pure ◌>>=◌ continue bytes_eq
read_passphrase-IsPassphrase_example =
    read_passphrase-IsPassphrase toy_host (codes "pw") start start secret refl

trim-Trimmed_example : Trimmed (secret ++ (10 ∷ [])) (trim (secret ++ (10 ∷ [])))
trim-Trimmed_example = trim-Trimmed (secret ++ (10 ∷ []))
