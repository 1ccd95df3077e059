-- ===== src/Vault/Tasks/Locked/Steps.antt =====
-- Vault.Tasks.Locked: the steps of a worker, of one that has the lock and of those that do not.
use tari_vault.Base.{
  ℕ, zero, suc, ◌≡◌, refl, sym, ap, subst, Bool, true, false, List, [], ◌∷◌, All, inl, inr,
  Option-cases,
}
use tari_vault.Storage.Backend.{StorageBackend}
use tari_vault.Storage.Backend.Ask.{Ask, asks, LockedParts}
use tari_vault.Vault.{Crypto}
use tari_vault.Vault.History.{Call}
use tari_vault.Vault.Tasks.{Task, begin, System, start, step, Reach, boot, later}
use tari_vault.Vault.Tasks.Asks.{ask_of, told}
use tari_vault.Vault.Tasks.Locked.{
  Worker, outside, holds, has_read, Floor, task_of, tasks_of, work, work_at, enters, works,
  LockedReach, opens, then, begin_turn, take_lock,
}
use tari_vault.Vault.Tasks.Locked.Exclusion.{
  IsOutside, IsInside, IsExclusive, Turned, suc-Turned, Moved, unasked-Turned, asked-Turned,
  IsExclusive-cons,
}

module _ {S : Type 0} (crypto : Crypto) (backend : StorageBackend S)
    (parts : LockedParts backend) where
  finish-whole :
      (a : Ask) (l : parts.Loaded) (e s : S)
      → l ≡ (parts.load e).0
      → s ≡ (parts.load e).1
      → asks backend a e ≡ parts.finish a l s
  finish-whole a l e s loaded left = rw (loaded, left) (parts.asks-finish a e)

  -- The one that has the lock goes on.
  inside_works :
      (w : Worker parts.Loaded) (ws : List (Worker parts.Loaded)) (e s : S)
      → IsInside crypto backend parts e s w
      → All (IsOutside crypto backend parts) ws
      → Moved crypto backend parts zero
          (task_of w ∷ tasks_of ws)
          e
          (work_at crypto backend parts zero (w ∷ ws) false s)
  unfolding work_at work
  inside_works (outside t) ws e s h outs = absurd h
  inside_works (holds a t) ws e s h outs = (
    e,
    inl ((ap (λ x. (parts.load x).0) h.0, ap (λ x. (parts.load x).1) h.0, h.1), outs),
    inl refl,
  )
  inside_works (has_read a t l) ws e s h outs = (
    (parts.finish a l s).1,
    (refl, (tt, outs)),
    subst
        (λ g.
          Turned crypto backend parts zero (t ∷ tasks_of ws) e (told crypto t g.0 ∷ tasks_of ws)
            g.1)
        (finish-whole a l e s h.0 h.1) (asked-Turned crypto backend parts t (tasks_of ws) e a h.2),
  )

  -- The lock is taken only when it is free, and without it nothing is done with the store.
  outside_works :
      (t : Task) (ws : List (Worker parts.Loaded)) (e s : S) (free : Bool)
      → IsExclusive crypto backend parts e free s (outside t ∷ ws)
      → Moved crypto backend parts zero
          (t ∷ tasks_of ws)
          e
          (work_at crypto backend parts zero (outside t ∷ ws) free s)
  unfolding work_at work begin_turn take_lock
  outside_works t ws e s true h = elim (Option-cases (ask_of crypto t)) [
    | inl nothing ↦ rw nothing (e, h, unasked-Turned crypto backend parts t (tasks_of ws) e nothing)
    | inr (a, awaits) ↦ rw awaits (e, inl ((h.0, awaits), h.1.1), inl refl)
  ]
  outside_works t ws e s false (inl h) = absurd h.0
  outside_works t ws e s false (inr h) = elim (Option-cases (ask_of crypto t)) [
    | inl nothing ↦
        rw nothing (e, inr h, unasked-Turned crypto backend parts t (tasks_of ws) e nothing)
    | inr (a, awaits) ↦ rw awaits (e, inr h, inl refl)
  ]

  abbrev Waited : ℕ → List Task → S → S → List (Worker parts.Loaded) × Bool × S → Type 0
  Waited i ts e s out =
      (out.1 ≡ false)
      × (out.2 ≡ s)
      × All (IsOutside crypto backend parts) out.0
      × Turned crypto backend parts i ts e (tasks_of out.0) e

  -- While another has the lock.
  one_waits :
      (t : Task) (ws : List (Worker parts.Loaded)) (e s : S)
      → All (IsOutside crypto backend parts) ws
      → Waited zero
          (t ∷ tasks_of ws)
          e
          s
          (work_at crypto backend parts zero (outside t ∷ ws) false s)
  unfolding work_at work begin_turn take_lock
  one_waits t ws e s outs = elim (Option-cases (ask_of crypto t)) [
    | inl nothing ↦
        rw nothing
          (refl, refl, (tt, outs), unasked-Turned crypto backend parts t (tasks_of ws) e nothing)
    | inr (a, awaits) ↦ rw awaits (refl, refl, (tt, outs), inl refl)
  ]

  all_wait :
      (i : ℕ) (ws : List (Worker parts.Loaded)) (e s : S)
      → All (IsOutside crypto backend parts) ws
      → Waited i (tasks_of ws) e s (work_at crypto backend parts i ws false s)
  unfolding work_at
  all_wait i [] e s outs = (refl, refl, tt, inl refl)
  all_wait zero (outside t ∷ ws) e s outs = one_waits t ws e s outs.1
  all_wait zero (holds a t ∷ ws) e s outs = absurd outs.0
  all_wait zero (has_read a t l ∷ ws) e s outs = absurd outs.0
  all_wait (suc i) (w ∷ ws) e s outs =
      let waited = all_wait i ws e s outs.1 in
      (
        waited.0,
        waited.1,
        (outs.0, waited.2),
        suc-Turned crypto backend parts i (task_of w) (tasks_of ws) e _ e waited.3,
      )

  moved_among :
      (i : ℕ) (w : Worker parts.Loaded) (ws : List (Worker parts.Loaded)) (e s : S) (free : Bool)
      → IsOutside crypto backend parts w
      → Moved crypto backend parts i (tasks_of ws) e (work_at crypto backend parts i ws free s)
      → Moved crypto backend parts
          (suc i)
          (task_of w ∷ tasks_of ws)
          e
          (work_at crypto backend parts (suc i) (w ∷ ws) free s)
  unfolding work_at
  moved_among i w ws e s free out moved = (
    moved.0,
    IsExclusive-cons crypto backend parts moved.0 _ _ w _ out moved.1,
    suc-Turned crypto backend parts i (task_of w) (tasks_of ws) e _ moved.0 moved.2,
  )

  pub moved :
      (i : ℕ) (ws : List (Worker parts.Loaded)) (e s : S) (free : Bool)
      → IsExclusive crypto backend parts e free s ws
      → Moved crypto backend parts i (tasks_of ws) e (work_at crypto backend parts i ws free s)
  unfolding work_at
  moved i [] e s free h = (e, h, inl refl)
  moved zero (outside t ∷ ws) e s free h = outside_works t ws e s free h
  moved zero (holds a t ∷ ws) e s true h = absurd h.1.0
  moved zero (holds a t ∷ ws) e s false (inl h) = inside_works (holds a t) ws e s h.0 h.1
  moved zero (holds a t ∷ ws) e s false (inr h) = absurd h.0
  moved zero (has_read a t l ∷ ws) e s true h = absurd h.1.0
  moved zero (has_read a t l ∷ ws) e s false (inl h) = inside_works (has_read a t l) ws e s h.0 h.1
  moved zero (has_read a t l ∷ ws) e s false (inr h) = absurd h.0
  moved (suc i) (w ∷ ws) e s true h =
      moved_among i w ws e s true h.1.0 (moved i ws e s true (h.0, h.1.1))
  moved (suc i) (w ∷ ws) e s false (inr h) =
      moved_among i w ws e s false h.0 (moved i ws e s false h.1)
  moved (suc i) (w ∷ ws) e s false (inl h) =
      let waited = all_wait i ws e s h.1 in
      (
        e,
        rw (waited.0, waited.1) (inl (h.0, waited.2)),
        suc-Turned crypto backend parts i (task_of w) (tasks_of ws) e _ e waited.3,
      )

  -- The calls as they stand, over a store that only whole operations work on.
  abbrev pub coarse : List (Worker parts.Loaded) → S → System S
  coarse ws e = record { tasks = tasks_of ws; state = e }

  Reach-turned :
      (P : Call → Type 0) (s : S) (i : ℕ) (ts : List Task) (e : S) (ts' : List Task) (e' : S)
      → Turned crypto backend parts i ts e ts' e'
      → Reach crypto backend P s (record { tasks = ts; state = e })
      → Reach crypto backend P s (record { tasks = ts'; state = e' })
  Reach-turned P s i ts e ts' e' (inl same) reached =
      subst (λ p. Reach crypto backend P s (record { tasks = p.0; state = p.1 })) (sym same) reached
  Reach-turned P s i ts e ts' e' (inr turned) reached =
      subst (λ p. Reach crypto backend P s (record { tasks = p.0; state = p.1 })) (sym turned)
        (later reached (step i))

  pub reached_under_lock :
      (P : Call → Type 0) (s : S) (x : Floor parts.Loaded S)
      → LockedReach crypto backend parts P s x
      → (e : S) × Reach crypto backend P s (coarse x.workers e)
        × IsExclusive crypto backend parts e x.free x.state x.workers
  unfolding begin
  reached_under_lock P s z opens = (s, boot, (refl, tt))
  reached_under_lock P s z (then {x} r (enters call allowed)) =
      let h = reached_under_lock P s x r in
      (
        h.0,
        later h.1 (start call allowed),
        IsExclusive-cons crypto backend parts h.0 x.free x.state (outside (begin call)) x.workers tt
            h.2,
      )
  reached_under_lock P s z (then {x} r (works i)) =
      let h = reached_under_lock P s x r in
      let m = moved i x.workers h.0 x.state x.free h.2 in
      (m.0, Reach-turned P s i _ h.0 _ m.0 m.2 h.1, m.1)
