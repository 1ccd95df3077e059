-- ===== src/Cleanup/Stopping.antt =====
-- Cleanup: the background task once it is cancelled.
use tari_vault.Base.{
  ℕ, Bool, true, ◌||◌, ◌≡◌, refl, ap, List, [], ◌∷◌, ◌++◌, Result, ok, err, panic, Exec, arith, ◌∙◌,
}
use tari_vault.Error.{VaultError}
use tari_vault.Domain.Chrono.{Instant}
use tari_vault.Cleanup.{
  Signal, cancel_parent, stop, tick, poll, answer, Phase, selecting, sweeping, ended, CleanupTask,
  counts_as_cancel, is_cancelled, select, swept, on_poll, on_answer, react, run, wound_up, standing,
  at,
}

module _ {S : Type 0} (cleanup : Instant → Exec S VaultError ℕ) where
  select-cancelled :
      (t : CleanupTask S)
      → is_cancelled cleanup t ≡ true
      → select cleanup t ≡ record t { phase = ended }
  unfolding select
  select-cancelled t h = rw h refl

  swept-cancelled :
      (r : Result VaultError ℕ) (t : CleanupTask S)
      → is_cancelled cleanup t ≡ true
      → swept cleanup r t ≡ record t { phase = ended }
  unfolding swept
  swept-cancelled (ok n) t h = select-cancelled t h
  swept-cancelled (err e) t h = select-cancelled t h
  swept-cancelled panic t h = refl

  or_true : (b : Bool) → b || true ≡ true
  or_true b = ground arith

  run-ended :
      (signals : List Signal) (b c d : Bool) (s : S)
      → standing cleanup (run cleanup signals (at cleanup b c d ended s)) ≡ (ended, s)
  unfolding run react on_poll on_answer
  run-ended [] b c d s = refl
  run-ended (cancel_parent ∷ signals) b c d s = run-ended signals true c d s
  run-ended (stop ∷ signals) b c d s = run-ended signals b true d s
  run-ended (tick ∷ signals) b c d s = run-ended signals b c true s
  run-ended (poll ∷ signals) b c d s = run-ended signals b c d s
  run-ended (answer now ∷ signals) b c d s = run-ended signals b c d s

  run-selecting :
      (signals : List Signal) (b c d : Bool) (s : S)
      → b || c ≡ true
      → standing cleanup (run cleanup signals (at cleanup b c d selecting s))
        ≡ wound_up cleanup selecting signals s
  unfolding run react on_poll on_answer
  run-selecting [] b c d s h = refl
  run-selecting (cancel_parent ∷ signals) b c d s h = run-selecting signals true c d s refl
  run-selecting (stop ∷ signals) b c d s h = run-selecting signals b true d s (or_true b)
  run-selecting (tick ∷ signals) b c d s h = run-selecting signals b c true s h
  run-selecting (poll ∷ signals) b c d s h =
      ap (λ t. standing cleanup (run cleanup signals t))
        (select-cancelled (at cleanup b c d selecting s) h)
      ∙ run-ended signals b c d s
  run-selecting (answer now ∷ signals) b c d s h = run-selecting signals b c d s h

  run-sweeping :
      (signals : List Signal) (b c d : Bool) (s : S)
      → b || c ≡ true
      → standing cleanup (run cleanup signals (at cleanup b c d sweeping s))
        ≡ wound_up cleanup sweeping signals s
  unfolding run react on_poll on_answer
  run-sweeping [] b c d s h = refl
  run-sweeping (cancel_parent ∷ signals) b c d s h = run-sweeping signals true c d s refl
  run-sweeping (stop ∷ signals) b c d s h = run-sweeping signals b true d s (or_true b)
  run-sweeping (tick ∷ signals) b c d s h = run-sweeping signals b c true s h
  run-sweeping (poll ∷ signals) b c d s h = run-sweeping signals b c d s h
  run-sweeping (answer now ∷ signals) b c d s h =
      ap (λ t. standing cleanup (run cleanup signals t))
        (swept-cancelled (cleanup now s).0 (at cleanup b c d sweeping (cleanup now s).1) h)
      ∙ run-ended signals b c d (cleanup now s).1

  run-at :
      (phase : Phase) (signals : List Signal) (b c d : Bool) (s : S)
      → b || c ≡ true
      → standing cleanup (run cleanup signals (at cleanup b c d phase s))
        ≡ wound_up cleanup phase signals s
  run-at selecting signals b c d s h = run-selecting signals b c d s h
  run-at sweeping signals b c d s h = run-sweeping signals b c d s h
  run-at ended signals b c d s h = run-ended signals b c d s

  pub run-cancelled :
      (signals : List Signal) (t : CleanupTask S)
      → is_cancelled cleanup t ≡ true
      → standing cleanup (run cleanup signals t) ≡ wound_up cleanup t.phase signals t.store
  run-cancelled signals t h = run-at t.phase signals t.parent t.child t.due t.store h

  run-append :
      (before later : List Signal) (t : CleanupTask S)
      → run cleanup (before ++ later) t ≡ run cleanup later (run cleanup before t)
  unfolding run
  run-append [] later t = refl
  run-append (signal ∷ before) later t = run-append before later (react cleanup signal t)

  react-cancel :
      (signal : Signal) (later : List Signal) (t : CleanupTask S)
      → counts_as_cancel cleanup signal ≡ true
      → standing cleanup (run cleanup later (react cleanup signal t))
        ≡ wound_up cleanup t.phase later t.store
  unfolding react
  react-cancel cancel_parent later t h = run-cancelled later (record t { parent = true }) refl
  react-cancel stop later t h = run-cancelled later (record t { child = true }) (or_true t.parent)
  react-cancel tick later t h = absurd (ground arith)
  react-cancel poll later t h = absurd (ground arith)
  react-cancel (answer now) later t h = absurd (ground arith)

  -- A cancellation of either token, after any signals and before any others, ticks that are due among
  -- them: if the task awaits its `select!`, it ends when it is polled next, and the state stays as it
  -- was; if a sweep is under way, the task ends when that is answered, and the state is what that one
  -- sweep makes of it; if the task has ended it stays so.
  pub run-cancel :
      (before later : List Signal) (signal : Signal) (t : CleanupTask S)
      → counts_as_cancel cleanup signal ≡ true
      → standing cleanup (run cleanup (before ++ signal ∷ later) t)
        ≡ wound_up cleanup (run cleanup before t).phase later (run cleanup before t).store
  run-cancel before later signal t h =
      rw run-append (unfold run in react-cancel signal later (run cleanup before t) h)

  select-tokens :
      (t : CleanupTask S) → is_cancelled cleanup (select cleanup t) ≡ is_cancelled cleanup t
  unfolding select
  select-tokens t = ground arith

  swept-tokens :
      (r : Result VaultError ℕ) (t : CleanupTask S)
      → is_cancelled cleanup (swept cleanup r t) ≡ is_cancelled cleanup t
  unfolding swept
  swept-tokens (ok n) t = select-tokens t
  swept-tokens (err e) t = select-tokens t
  swept-tokens panic t = refl

  on_poll-tokens :
      (phase : Phase) (t : CleanupTask S)
      → is_cancelled cleanup (on_poll cleanup phase t) ≡ is_cancelled cleanup t
  unfolding on_poll
  on_poll-tokens selecting t = select-tokens t
  on_poll-tokens sweeping t = refl
  on_poll-tokens ended t = refl

  on_answer-tokens :
      (phase : Phase) (now : Instant) (t : CleanupTask S)
      → is_cancelled cleanup (on_answer cleanup phase now t) ≡ is_cancelled cleanup t
  unfolding on_answer
  on_answer-tokens selecting now t = refl
  on_answer-tokens sweeping now t = swept-tokens (cleanup now t.store).0 _
  on_answer-tokens ended now t = refl

  -- A task that is cancelled stays so.
  pub react-cancelled :
      (signal : Signal) (t : CleanupTask S)
      → is_cancelled cleanup t ≡ true
      → is_cancelled cleanup (react cleanup signal t) ≡ true
  unfolding react
  react-cancelled cancel_parent t h = refl
  react-cancelled stop t h = or_true t.parent
  react-cancelled tick t h = h
  react-cancelled poll t h = on_poll-tokens t.phase t ∙ h
  react-cancelled (answer now) t h = on_answer-tokens t.phase now t ∙ h

  pub cancel_parent-cancels :
      (t : CleanupTask S) → is_cancelled cleanup (react cleanup cancel_parent t) ≡ true
  unfolding react
  cancel_parent-cancels t = refl

  -- A task that has ended stays so.
  pub react-ended :
      (signal : Signal) (t : CleanupTask S)
      → t.phase ≡ ended
      → (react cleanup signal t).phase ≡ ended
  unfolding react on_poll on_answer
  react-ended cancel_parent t h = h
  react-ended stop t h = h
  react-ended tick t h = h
  react-ended poll t h = rw h refl
  react-ended (answer now) t h = rw h refl
