-- ===== src/Startup/Shutdown/Final.antt =====
-- Startup.Shutdown: the process after `main` has cancelled the token.
use tari_vault.Base.{ℕ, zero, suc, List, [], ◌∷◌, Exec}
use tari_vault.Error.{VaultError}
use tari_vault.Domain.Chrono.{Instant}
use tari_vault.Cleanup.{CleanupTask}
use tari_vault.Startup.Shutdown.{
  Stage, Process, Event, answered, polls_main, polls_task, sweep_answered,
}

module _ {S : Type 0} (cleanup : Instant → Exec S VaultError ℕ) where
  abbrev down : Stage → CleanupTask S → Process S
  down stage t = record { stage = stage; in_flight = 0; task = t }

  -- Ctrl-C, the answers of the requests under way, and the polls of `main` and of the background task,
  -- whose sweep, if there is one, is answered.
  abbrev pub shut_down : ℕ → Instant → List (Event S)
  shut_down zero now = polls_main ∷ sweep_answered now ∷ polls_task ∷ polls_main ∷ []
  shut_down (suc n) now = answered ∷ shut_down n now
