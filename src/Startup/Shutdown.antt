-- ===== src/Startup/Shutdown.antt =====
-- The end of `main` in src/main.rs, cut where it awaits: Ctrl-C, the end of the RPC server, the end of
-- the background task. Requests and sweeps work on one vault, whose state is `S`.
pub mod Order
pub mod Final
use tari_vault.Base.{
  ℕ, zero, suc, ◌≡◌, refl, sym, ap, ◌∙◌, subst, true, false, List, [], ◌∷◌, ◌++◌, Exec, arith,
}
use tari_vault.Error.{VaultError}
use tari_vault.Domain.Chrono.{Instant}
use tari_vault.Cleanup.{
  Signal, cancel_parent, stop, tick, poll, answer, Phase, selecting, sweeping, ended, CleanupTask,
  is_cancelled, react, run, standing, wound_up,
}

-- Where `main` stands: it awaits Ctrl-C, `stopped` of the server, or `stopped` of the background task;
-- or it is over.
pub data Stage : Type 0 where
  serving : Stage
  stopping : Stage
  winding_down : Stage
  over : Stage

-- How many requests the server has taken and not answered, and the task with the vault that it shares
-- with the server.
pub record Process (S : Type 0) : Type 0 where
  pub stage : Stage
  pub in_flight : ℕ
  pub task : CleanupTask S

-- What may happen, in any order: a request arrives, a request under way does something to the vault,
-- one is answered; Ctrl-C; `main` is polled; the background task gets a signal.
pub data Event (S : Type 0) : Type 0 where
  arrives : Event S
  acts : (S → S) → Event S
  answered : Event S
  ctrl_c : Event S
  polls_main : Event S
  elapses : Event S
  polls_task : Event S
  sweep_answered : Instant → Event S

-- With `interval_secs` zero `main` spawns no task: there is none to await.
unfoldable pub launched : {S : Type 0} → Phase → S → Process S
launched phase s = record {
  stage = serving;
  in_flight = 0;
  task = record { parent = false; child = false; due = true; phase = phase; store = s };
}

module _ {S : Type 0} (cleanup : Instant → Exec S VaultError ℕ) where
  taken : Stage → ℕ → ℕ
  taken serving n = suc n
  taken _ n = n

  touched : (S → S) → ℕ → CleanupTask S → CleanupTask S
  touched f zero t = t
  touched f (suc n) t = record t { store = f t.store }

  fewer : ℕ → ℕ
  fewer zero = zero
  fewer (suc n) = n

  -- `server_handle.stop()`: nothing is taken any more.
  interrupted : Stage → Stage
  interrupted serving = stopping
  interrupted stage = stage

  -- `server_handle.stopped()` returns when the server has answered what it had taken; then `main`
  -- cancels the token.
  server_stopped : ℕ → Process S → Process S
  server_stopped zero p = record p {
    stage = winding_down;
    task = react cleanup cancel_parent p.task;
  }
  server_stopped (suc n) p = p

  -- `task.stopped()` returns when the loop has ended.
  task_stopped : Phase → Process S → Process S
  task_stopped ended p = record p { stage = over }
  task_stopped _ p = p

  main_on : Stage → Process S → Process S
  unfolding server_stopped task_stopped
  main_on stopping p = server_stopped p.in_flight p
  main_on winding_down p = task_stopped p.task.phase p
  main_on _ p = p

  unfoldable pub happens : Event S → Process S → Process S
  unfolding taken touched fewer interrupted main_on
  happens arrives p = record p { in_flight = taken p.stage p.in_flight }
  happens (acts f) p = record p { task = touched f p.in_flight p.task }
  happens answered p = record p { in_flight = fewer p.in_flight }
  happens ctrl_c p = record p { stage = interrupted p.stage }
  happens polls_main p = main_on p.stage p
  happens elapses p = record p { task = react cleanup tick p.task }
  happens polls_task p = record p { task = react cleanup poll p.task }
  happens (sweep_answered now) p = record p { task = react cleanup (answer now) p.task }

  unfoldable pub history : List (Event S) → Process S → Process S
  history [] p = p
  history (event ∷ events) p = history events (happens event p)

  -- What the background task sees of the events.
  abbrev pub signals : List (Event S) → List Signal
  signals [] = []
  signals (elapses ∷ events) = tick ∷ signals events
  signals (polls_task ∷ events) = poll ∷ signals events
  signals (sweep_answered now ∷ events) = answer now ∷ signals events
  signals (_ ∷ events) = signals events

  -- `main` has cancelled the token.
  abbrev pub HasCancelled : Stage → Type 0
  HasCancelled winding_down = Unit
  HasCancelled over = Unit
  HasCancelled _ = ⊥
