-- ===== src/Startup/Shutdown/Order.antt =====
-- Startup.Shutdown: what is known of the process by where `main` stands.
use tari_vault.Base.{ℕ, zero, suc, ◌≡◌, refl, true, List, [], ◌∷◌, Exec, arith}
use tari_vault.Error.{VaultError}
use tari_vault.Domain.Chrono.{Instant}
use tari_vault.Cleanup.{
  Signal, tick, poll, answer, Phase, selecting, sweeping, ended, CleanupTask, is_cancelled, react,
}
use tari_vault.Cleanup.Stopping.{react-cancelled, react-ended, cancel_parent-cancels}
use tari_vault.Startup.Shutdown.{
  Stage, serving, stopping, winding_down, over, Process, Event, arrives, acts, answered, ctrl_c,
  polls_main, elapses, polls_task, sweep_answered, taken, touched, fewer, interrupted,
  server_stopped, task_stopped, main_on, happens, history,
}

module _ {S : Type 0} (cleanup : Instant → Exec S VaultError ℕ) where
  -- Once the token is cancelled no request is under way, and `main` is over only when the loop has
  -- ended.
  abbrev pub Sound : Stage → ℕ → CleanupTask S → Type 0
  Sound winding_down n t = (n ≡ 0) × (is_cancelled cleanup t ≡ true)
  Sound over n t = (n ≡ 0) × (is_cancelled cleanup t ≡ true) × (t.phase ≡ ended)
  Sound _ n t = Unit

  abbrev pub IsSound : Process S → Type 0
  IsSound p = Sound p.stage p.in_flight p.task

  Sound-react :
      (signal : Signal) (stage : Stage) (n : ℕ) (t : CleanupTask S)
      → Sound stage n t
      → Sound stage n (react cleanup signal t)
  Sound-react signal serving n t h = tt
  Sound-react signal stopping n t h = tt
  Sound-react signal winding_down n t h = (h.0, react-cancelled cleanup signal t h.1)
  Sound-react signal over n t h =
      (h.0, react-cancelled cleanup signal t h.1, react-ended cleanup signal t h.2)

  Sound-taken :
      (stage : Stage) (n : ℕ) (t : CleanupTask S)
      → Sound stage n t
      → Sound stage (taken cleanup stage n) t
  unfolding taken
  Sound-taken serving n t h = tt
  Sound-taken stopping n t h = tt
  Sound-taken winding_down n t h = h
  Sound-taken over n t h = h

  Sound-touched :
      (f : S → S) (stage : Stage) (n : ℕ) (t : CleanupTask S)
      → Sound stage n t
      → Sound stage n (touched cleanup f n t)
  unfolding touched
  Sound-touched f stage zero t h = h
  Sound-touched f serving (suc n) t h = tt
  Sound-touched f stopping (suc n) t h = tt
  Sound-touched f winding_down (suc n) t h = h
  Sound-touched f over (suc n) t h = h

  Sound-fewer :
      (stage : Stage) (n : ℕ) (t : CleanupTask S)
      → Sound stage n t
      → Sound stage (fewer cleanup n) t
  unfolding fewer
  Sound-fewer stage zero t h = h
  Sound-fewer serving (suc n) t h = tt
  Sound-fewer stopping (suc n) t h = tt
  Sound-fewer winding_down (suc n) t h = absurd (ground (arith, h.0))
  Sound-fewer over (suc n) t h = absurd (ground (arith, h.0))

  Sound-interrupted :
      (stage : Stage) (n : ℕ) (t : CleanupTask S)
      → Sound stage n t
      → Sound (interrupted cleanup stage) n t
  unfolding interrupted
  Sound-interrupted serving n t h = tt
  Sound-interrupted stopping n t h = tt
  Sound-interrupted winding_down n t h = h
  Sound-interrupted over n t h = h

  server_stopped-IsSound :
      (n : ℕ) (t : CleanupTask S)
      → IsSound (server_stopped cleanup n (record { stage = stopping; in_flight = n; task = t }))
  unfolding server_stopped
  server_stopped-IsSound zero t = (refl, cancel_parent-cancels cleanup t)
  server_stopped-IsSound (suc n) t = tt

  task_stopped-IsSound :
      (phase : Phase) (n : ℕ) (t : CleanupTask S)
      → t.phase ≡ phase
      → Sound winding_down n t
      → IsSound
          (task_stopped cleanup phase (record { stage = winding_down; in_flight = n; task = t }))
  unfolding task_stopped
  task_stopped-IsSound selecting n t e h = h
  task_stopped-IsSound sweeping n t e h = h
  task_stopped-IsSound ended n t e h = (h.0, h.1, e)

  main_on-IsSound :
      (stage : Stage) (n : ℕ) (t : CleanupTask S)
      → Sound stage n t
      → IsSound (main_on cleanup stage (record { stage = stage; in_flight = n; task = t }))
  unfolding main_on
  main_on-IsSound serving n t h = tt
  main_on-IsSound stopping n t h = server_stopped-IsSound n t
  main_on-IsSound winding_down n t h = task_stopped-IsSound t.phase n t refl h
  main_on-IsSound over n t h = h

  happens-IsSound :
      (event : Event S) (p : Process S) → IsSound p → IsSound (happens cleanup event p)
  unfolding happens
  happens-IsSound arrives p h = Sound-taken p.stage p.in_flight p.task h
  happens-IsSound (acts f) p h = Sound-touched f p.stage p.in_flight p.task h
  happens-IsSound answered p h = Sound-fewer p.stage p.in_flight p.task h
  happens-IsSound ctrl_c p h = Sound-interrupted p.stage p.in_flight p.task h
  happens-IsSound polls_main p h = main_on-IsSound p.stage p.in_flight p.task h
  happens-IsSound elapses p h = Sound-react tick p.stage p.in_flight p.task h
  happens-IsSound polls_task p h = Sound-react poll p.stage p.in_flight p.task h
  happens-IsSound (sweep_answered now) p h = Sound-react (answer now) p.stage p.in_flight p.task h

  pub history-IsSound :
      (events : List (Event S)) (p : Process S) → IsSound p → IsSound (history cleanup events p)
  unfolding history
  history-IsSound [] p h = h
  history-IsSound (event ∷ events) p h =
      history-IsSound events (happens cleanup event p) (happens-IsSound event p h)
