-- ===== src/Cli/Main.antt =====
-- crates/aethel-auth-cli/src/main.rs: `main`, and the texts of `CliError`.
pub mod Stopped
use aethel_runtime.Base.{ℕ, ◌++◌}
use aethel_runtime.Base.Bytes.{Bytes, codes}
use aethel_runtime.Cli.Host.{
  Host, Command, CliError, io, corrupt, crypto, wrong_passphrase, not_enough_shares, usage,
}
use aethel_runtime.Cli.Action.{World, Exit, returned, failed, panicked, eprintln}
use aethel_runtime.Cli.Run.Command.{run}

abbrev pub display : CliError → Bytes
display (io e) = e
display (corrupt what) = what ++ codes " is malformed"
display (crypto what) = what ++ codes " failed"
display wrong_passphrase = codes "could not unseal: wrong passphrase, or the file was altered"
display not_enough_shares = codes "not enough shares to reconstruct; the scheme needs 3 of 5"
display (usage m) = m

-- How the process ends: with an exit code, or by a panic.
pub data Ending : Type 0 where
  exited : ℕ → Ending
  aborted : Ending

unfoldable pub report : {S : Type 0} → Exit (Unit {0}) × World S → Ending × World S
unfolding eprintln
report (returned u, w) = (exited 0, w)
report (failed e, w) = let (r, v) = eprintln (codes "error: " ++ display e) w in (exited 1, v)
report (panicked, w) = (aborted, w)

-- The command is what `Cli::parse()` gives.
unfoldable pub main : {E I S : Type 0} → Host E I S → Command → World S → Ending × World S
unfolding report
main host c w = report (run host c w)
