-- ===== src/Cli/Main/Stopped.antt =====
-- crates/aethel-auth-cli/src/main.rs: what the caller of the process sees where it does not succeed.
use aethel_runtime.Base.{◌≡◌, refl, ◌∙◌, ◌⊎◌, inl, inr, ◌++◌, [], ◌∷◌}
use aethel_runtime.Base.Bytes.{codes}
use aethel_runtime.Cli.Host.{Host, Command, CliError}
use aethel_runtime.Cli.Action.{World, Exit, returned, failed, panicked, eprintln}
use aethel_runtime.Cli.Action.Keeps.{Stops}
use aethel_runtime.Cli.Run.Command.{run}
use aethel_runtime.Cli.Run.Output.{NotShow, run_stopped}
use aethel_runtime.Cli.Main.{display, Ending, exited, aborted, report, main}

-- A process that ends as `ending` with the surroundings `v`, after its command ended as `r` with `u`: it
-- aborts on a panic, and else exits with 1 and says on its standard error why.
abbrev pub Explained : {S : Type 0} → Exit (Unit {0}) × World S → Ending × World S → Type 0
Explained (r, u) (ending, v) =
    ((r ≡ panicked) × (ending ≡ aborted))
    ⊎ ((e : CliError) × (r ≡ failed e)
        × (ending ≡ exited 1)
        × (v.stderr ≡ u.stderr ++ ((codes "error: " ++ display e) ∷ [])))

report-Explained :
    {S : Type 0} (r : Exit (Unit {0}) × World S)
    → ((r.0 ≡ returned tt) × ((report r).0 ≡ exited 0))
      ⊎ (Stops r.0 × ((report r).1.stdout ≡ r.1.stdout) × Explained r (report r))
unfolding report eprintln
report-Explained (returned u, w) = inl (refl, refl)
report-Explained (failed e, w) = inr (tt, refl, inr (e, refl, refl, refl))
report-Explained (panicked, w) = inr (tt, refl, inl (refl, refl))

-- A process that was started with a command other than `show` exits with 0 where the command returned.
-- Where it did not, the process has printed nothing on its standard output; it has aborted if the
-- command panicked, and else has exited with 1, the text of the error that the command failed with being
-- the last line of its standard error.
pub main-Explained :
    {E I S : Type 0} (host : Host E I S) (c : Command) (w : World S)
    → NotShow c
    → (((run host c w).0 ≡ returned tt) × ((main host c w).0 ≡ exited 0))
      ⊎ (((main host c w).1.stdout ≡ w.stdout) × Explained (run host c w) (main host c w))
unfolding main
main-Explained host c w n = elim (report-Explained (run host c w)) [
  | inl done ↦ inl done
  | inr (stops, same, explained) ↦ inr (same ∙ run_stopped host c w n stops, explained)
]
