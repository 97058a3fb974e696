-- ===== src/Cli/Examples/Runs.antt =====
-- The commands of the terminal signer, at concrete inputs.
use aethel_runtime.Base.{
  ℕ, ◌≡◌, ◌⊎◌, refl, ap, inl, inr, false, Option, none, some, List, [], ◌∷◌, ◌++◌, arith,
  if◌then◌else◌, ok,
}
use aethel_runtime.Base.Bytes.{Bytes, bytes_eq, codes, replicate}
use aethel_runtime.Auth.Nonce.{in_memory}
use aethel_runtime.Auth.Nonce
use aethel_runtime.Auth.Login.{LoginProof, proven, AuthMethod, verify_login}
use aethel_runtime.Auth.Holder.{Holder, build_login}
use aethel_runtime.Auth.Holder
use aethel_runtime.Auth.Toy.{toy, toy-Signs, shop, at_time}
use aethel_runtime.Cli.Host.{IdentityFile, HtssShare, Command, login, login_proof}
use aethel_runtime.Cli.Action.{
  World, returned, pure, lift, or_panic, continue, ◌>>=◌, println, eprintln, now,
}
use aethel_runtime.Cli.Passphrase.{
  ends_in_newline, pop, trim_loop, trim, read_bytes, write_bytes, read_to_string, create_dir_all,
  fill_bytes, read_passphrase,
}
use aethel_runtime.Cli.IdentityFile.{
  fresh, derive, seal, generated, unsealed, open_file, fingerprint,
}
use aethel_runtime.Cli.IdentityFile.Disk.{create, read_identity, write_identity}
use aethel_runtime.Cli.Recovery.{share_file, share_files, split_with}
use aethel_runtime.Cli.Recovery.Disk.{split, write_share}
use aethel_runtime.Cli.Run.{open_identity, emit, run_login}
use aethel_runtime.Cli.Run.Command.{
  ends_in_slash, join, share_path, shares_notice, write_shares, arrange_recovery, run_new,
  run_recover, run,
}
use aethel_runtime.Cli.Main.{exited, main}
use aethel_runtime.Cli.Main.Stopped.{Explained, main-Explained}
use aethel_runtime.Cli.Run.Statements.{run-Printed}
use aethel_runtime.Cli.Run.Printing.{Printed}
use aethel_runtime.Cli.Run.Login.{run_login-accepted}
use aethel_runtime.Cli.Run.Created.{Created, run_new-Created}
use aethel_runtime.Cli.Run.Rebuilt.{Restores, Left, run_recover-Restores}
use aethel_runtime.Cli.Toy.{
  toy_host, toy-Hex, toy-Sealing, toy-Files, toy-Json, toy-Sharing, print_file, print_share, five,
  share, encoded,
}
use aethel_runtime.Cli.Examples.{secret, alice_file, files, start}

-- The passphrase's file is not there.
abbrev no_passphrase : Command
no_passphrase = login (codes "id") (codes "nowhere") 60

main-Explained_example :
    (((run toy_host no_passphrase start).0 ≡ returned tt)
      × ((main toy_host no_passphrase start).0 ≡ exited 0))
    ⊎ (((main toy_host no_passphrase start).1.stdout ≡ [])
        × Explained (run toy_host no_passphrase start) (main toy_host no_passphrase start))
main-Explained_example = main-Explained toy_host no_passphrase start tt

run-Printed_example :
    Printed toy_host (codes "id") start (run toy_host (login (codes "id") (codes "pw") 60) start).1
unfolding run run_login open_identity read_identity read_to_string read_passphrase read_bytes trim
    trim_loop ends_in_newline pop open_file derive unsealed eprintln fill_bytes now or_panic
    Holder.login build_login Holder.sign emit println pure lift ◌>>=◌ continue bytes_eq
run-Printed_example =
    run-Printed toy_host (login (codes "id") (codes "pw") 60) (codes "id") start
      (run toy_host (login (codes "id") (codes "pw") 60) start).1 refl refl

abbrev head_of : Bytes → ℕ
head_of [] = 0
head_of (b ∷ bs) = b

-- The surroundings after `open_identity`.
abbrev opened : World (Bytes → Option Bytes)
opened = record start { stderr = (codes "acting at: " ++ shop) ∷ [] }

run_new-Created_example :
    Created toy_host toy-Files toy-Sharing shop
      (codes "me")
      (codes "pw")
      (codes "shares")
      start
      (run_new toy_host shop (codes "me") (codes "pw") (codes "shares") false start).1
unfolding run_new create arrange_recovery split split_with share_files share_file create_dir_all
    write_shares write_share write_identity write_bytes fingerprint shares_notice read_passphrase
    read_bytes trim trim_loop ends_in_newline pop derive fresh seal generated eprintln fill_bytes
    pure lift ◌>>=◌ continue bytes_eq share_path join ends_in_slash
run_new-Created_example =
    run_new-Created toy_host toy-Files toy-Sharing shop (codes "me") (codes "pw") (codes "shares")
      start (run_new toy_host shop (codes "me") (codes "pw") (codes "shares") false start).1
      (λ n h. absurd (omega (arith, ap (λ (l : Bytes). head_of l) h))) refl

abbrev picked : List HtssShare
picked = share (replicate 32 11) 5 ∷ share (replicate 32 11) 1 ∷ share (replicate 32 11) 3 ∷ []

-- The three share files are at `a`, `b` and `c`.
abbrev delivered : Bytes → Option Bytes
delivered p =
    if bytes_eq p (codes "a")
    then some (print_share (share_file toy_host shop (share (replicate 32 11) 5)))
    else if bytes_eq p (codes "b")
    then some (print_share (share_file toy_host shop (share (replicate 32 11) 1)))
    else if bytes_eq p (codes "c")
    then some (print_share (share_file toy_host shop (share (replicate 32 11) 3)))
    else files p

abbrev rebuilt_file : IdentityFile
rebuilt_file = record alice_file {
  sealed = 11 ∷ (secret ++ replicate 16 11);
  kdf = record { salt = replicate 16 11; m_cost = 19456; t_cost = 2; p_cost = 1 };
}

run_recover-Restores_example :
    Left toy_host
      (run_recover toy_host
        (codes "a" ∷ codes "b" ∷ codes "c" ∷ [])
        (replicate 32 0)
        shop
        (codes "new")
        (codes "pw")
        (record start { fs = delivered }))
      (codes "new")
      (print_file rebuilt_file)
    × Restores toy_host rebuilt_file shop secret 11
    × (rebuilt_file.public_key ≡ alice_file.public_key)
unfolding read_passphrase trim trim_loop ends_in_newline pop read_bytes pure ◌>>=◌ continue bytes_eq
    seal fresh derive share_files share_file
run_recover-Restores_example =
    run_recover-Restores toy_host toy-Hex toy-Sealing toy-Sharing toy-Files toy-Json shop secret
      (replicate 32 11) (replicate 32 0) (codes "new") (codes "pw") secret (print_file rebuilt_file)
      alice_file rebuilt_file (share_files toy_host shop (five (replicate 32 11)))
      (record { identity = 11; salt = replicate 16 12; generate = refl; made = refl })
      (record {
        nonce = [];
        shares = five (replicate 32 11);
        root = replicate 32 0;
        is_split = refl;
        files_are = refl;
        root_is = refl;
      })
      picked (codes "a" ∷ codes "b" ∷ codes "c" ∷ []) (record start { fs = delivered })
      (record start { fs = delivered })
      (
        inr (inr (inr (inr (inl refl)))),
        omega arith,
        (inl refl, omega arith, (inr (inr (inl refl)), tt, tt)),
      )
      (omega arith) ((_, refl, refl), ((_, refl, refl), ((_, refl, refl), tt))) refl refl refl refl

run_login-accepted_example :
    (p : LoginProof) × (run_login toy_host (codes "id") (codes "pw") 60 start
      ≡ (returned tt, record opened { drawn = 1; stdout = encoded (login_proof p) ∷ [] }))
    × ((verify_login toy in_memory p (at_time 1030) Nonce.new).0
        ≡ ok (record {
          public_key = toy.public_key 11;
          audience = shop;
          strength = proven;
          method = AuthMethod.login_proof;
          session_commitment = none;
        }))
unfolding open_identity read_identity read_to_string read_passphrase read_bytes trim trim_loop
    ends_in_newline pop open_file derive unsealed eprintln pure lift ◌>>=◌ continue bytes_eq
    Nonce.claim Nonce.find
run_login-accepted_example =
    run_login-accepted toy_host in_memory (codes "id") (codes "pw") 60 start opened alice_file 11
      encoded (at_time 1030) Nonce.new refl (toy-Signs 11 _)
      (record {
        named = refl;
        for_us = refl;
        not_future = omega arith;
        fresh = omega arith;
        under_ceiling = omega arith;
        live = omega arith;
      })
      refl (λ v. refl)
