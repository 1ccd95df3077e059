-- ===== src/Cleanup.antt =====
-- src/vault/cleanup.rs: the background task, over whatever `cleanup` does to a state `S`. The task is
-- cut at its two `.await`s, the `select!` and the sweep, so that signals can come in during a sweep.
pub mod Stopping
use tari_vault.Base.{
  ℕ, Bool, true, false, ◌||◌, ◌≡◌, refl, Option, none, some, List, [], ◌∷◌, ◌++◌, Result, ok, err,
  panic, Exec, if◌then◌else◌, arith, ◌∙◌,
}
use tari_vault.Error.{VaultError}
use tari_vault.Domain.Chrono.{Instant}

-- The host cancels its own token, somebody calls `CleanupTask::stop`, or the interval elapses. The
-- runtime polls the task, or the sweep under way is answered; the instant is its reading of the clock.
pub data Signal : Type 0 where
  cancel_parent : Signal
  stop : Signal
  tick : Signal
  poll : Signal
  answer : Instant → Signal

-- The task awaits the `select!` or the answer of a sweep, or its loop has ended.
pub data Phase : Type 0 where
  selecting : Phase
  sweeping : Phase
  ended : Phase

-- The two tokens, whether a tick is due, where the task stands, and the state that it sweeps. Ticks
-- that elapse before one of them is taken are one: `MissedTickBehavior::Skip`.
pub record CleanupTask (S : Type 0) : Type 0 where
  pub parent : Bool
  pub child : Bool
  pub due : Bool
  pub phase : Phase
  pub store : S

module _ {S : Type 0} (cleanup : Instant → Exec S VaultError ℕ) where
  -- A child token counts as cancelled when its parent is.
  abbrev pub is_cancelled : CleanupTask S → Bool
  is_cancelled t = t.parent || t.child

  -- The first tick of an interval is due at once.
  abbrev pub spawn_cleanup_task : Bool → S → CleanupTask S
  spawn_cleanup_task parent s = record {
    parent = parent;
    child = false;
    due = true;
    phase = selecting;
    store = s;
  }

  -- The top of the loop: the cancellation is looked at first.
  select : CleanupTask S → CleanupTask S
  select t =
      if is_cancelled t
      then record t { phase = ended }
      else if t.due
      then record t { due = false; phase = sweeping }
      else record t { phase = selecting }

  -- The answer of a sweep is logged only; a panic ends the task.
  swept : Result VaultError ℕ → CleanupTask S → CleanupTask S
  unfolding select
  swept (ok n) t = select t
  swept (err e) t = select t
  swept panic t = record t { phase = ended }

  on_poll : Phase → CleanupTask S → CleanupTask S
  unfolding select
  on_poll selecting t = select t
  on_poll _ t = t

  on_answer : Phase → Instant → CleanupTask S → CleanupTask S
  unfolding swept
  on_answer sweeping now t =
      swept (cleanup now t.store).0 (record t { store = (cleanup now t.store).1 })
  on_answer _ now t = t

  unfoldable pub react : Signal → CleanupTask S → CleanupTask S
  unfolding on_poll on_answer
  react cancel_parent t = record t { parent = true }
  react stop t = record t { child = true }
  react tick t = record t { due = true }
  react poll t = on_poll t.phase t
  react (answer now) t = on_answer t.phase now t

  unfoldable pub run : List Signal → CleanupTask S → CleanupTask S
  run [] t = t
  run (signal ∷ signals) t = run signals (react signal t)

  abbrev pub counts_as_cancel : Signal → Bool
  counts_as_cancel cancel_parent = true
  counts_as_cancel stop = true
  counts_as_cancel _ = false

  abbrev pub has_parent_cancel : List Signal → Bool
  has_parent_cancel [] = false
  has_parent_cancel (cancel_parent ∷ signals) = true
  has_parent_cancel (_ ∷ signals) = has_parent_cancel signals

  abbrev pub first_answer : List Signal → Option Instant
  first_answer [] = none
  first_answer (answer now ∷ signals) = some now
  first_answer (_ ∷ signals) = first_answer signals

  abbrev pub has_poll : List Signal → Bool
  has_poll [] = false
  has_poll (poll ∷ signals) = true
  has_poll (_ ∷ signals) = has_poll signals

  abbrev pub completed : Option Instant → S → Phase × S
  completed none s = (sweeping, s)
  completed (some now) s = (ended, (cleanup now s).1)

  -- What becomes of a task that is cancelled where it stands: it ends when it is polled next, or as
  -- soon as the sweep under way is answered, and sweeps no more.
  abbrev pub wound_up : Phase → List Signal → S → Phase × S
  wound_up ended signals s = (ended, s)
  wound_up selecting signals s = (if has_poll signals then ended else selecting, s)
  wound_up sweeping signals s = completed (first_answer signals) s

  abbrev pub standing : CleanupTask S → Phase × S
  standing t = (t.phase, t.store)

  abbrev pub at : Bool → Bool → Bool → Phase → S → CleanupTask S
  at parent child due phase s = record {
    parent = parent;
    child = child;
    due = due;
    phase = phase;
    store = s;
  }

  -- When the host does not cancel its token, no signal changes it: the task's own stop does not
  -- cancel it.
  pub run-parent :
      (signals : List Signal) (t : CleanupTask S)
      → has_parent_cancel signals ≡ false
      → (run signals t).parent ≡ t.parent
  unfolding run
  run-parent [] t h = refl
  run-parent (cancel_parent ∷ signals) t h = absurd (ground arith)
  run-parent (stop ∷ signals) t h = run-parent signals (react stop t) h ∙ unfold react in refl
  run-parent (tick ∷ signals) t h = run-parent signals (react tick t) h ∙ unfold react in refl
  run-parent (poll ∷ signals) t h =
      run-parent signals (react poll t) h ∙ unfold react on_poll select in ground arith
  run-parent (answer now ∷ signals) t h =
      run-parent signals (react (answer now) t) h
      ∙ unfold react on_answer swept select in ground arith

  -- A tick, the poll that takes it, and the answer of its sweep.
  abbrev pub ticks : List Instant → List Signal
  ticks [] = []
  ticks (now ∷ nows) = tick ∷ poll ∷ answer now ∷ ticks nows

  abbrev pub sweeps : List Instant → S → S
  sweeps [] s = s
  sweeps (now ∷ nows) s = sweeps nows (cleanup now s).1
