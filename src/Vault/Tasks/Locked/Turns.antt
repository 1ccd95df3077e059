-- ===== src/Vault/Tasks/Locked/Turns.antt =====
-- Vault.Tasks.Locked: the calls under the lock against the turns of Vault/Tasks.antt.
use tari_vault.Base.{
  ℕ, zero, suc, ◌+◌, ◌≤◌, Bytes, IsArray, ◌≡◌, refl, Bool, true, false, List, [], ◌∷◌, arith, inl,
  inr, ◌⊎◌,
}
use tari_vault.Storage.Backend.{StorageBackend, Contract}
use tari_vault.Storage.Backend.Ask.{LockedParts}
use tari_vault.Vault.{Crypto}
use tari_vault.Vault.History.{Call, IsAdmissible}
use tari_vault.Vault.Tasks.{Reach}
use tari_vault.Vault.Tasks.Counts.{deletes, stores, present, deletes-le-stores}
use tari_vault.Vault.Tasks.Locked.{
  Worker, outside, holds, has_read, Floor, tasks_of, work, work_at, LockedReach,
}
use tari_vault.Vault.Tasks.Locked.Exclusion.{OneInside, IsExclusive}
use tari_vault.Vault.Tasks.Locked.Steps.{reached_under_lock, coarse}

module _ {S : Type 0} (crypto : Crypto) (backend : StorageBackend S)
    (parts : LockedParts backend) where
  -- The worker at the place gives the lock back at its first step or at its second.
  abbrev pub Releases : ℕ → List (Worker parts.Loaded) → S → Type 0
  Releases i ws s =
      let y = work_at crypto backend parts i ws false s in
      (y.1 ≡ true) ⊎ ((work_at crypto backend parts i y.0 y.1 y.2).1 ≡ true)

  inside-Releases :
      (ws : List (Worker parts.Loaded)) (e s : S)
      → OneInside crypto backend parts e s ws
      → (i : ℕ) × Releases i ws s
  unfolding work_at work
  inside-Releases [] e s h = absurd h
  inside-Releases (outside t ∷ ws) e s (inl h) = absurd h.0
  inside-Releases (holds a t ∷ ws) e s (inl h) = (zero, inr refl)
  inside-Releases (has_read a t l ∷ ws) e s (inl h) = (zero, inl refl)
  inside-Releases (w ∷ ws) e s (inr h) =
      let later = inside-Releases ws e s h.1 in (suc later.0, later.1)

  lock_released :
      (free : Bool) (ws : List (Worker parts.Loaded)) (e s : S)
      → IsExclusive crypto backend parts e free s ws
      → ((free ≡ true) × (s ≡ e)) ⊎ ((free ≡ false) × (i : ℕ) × Releases i ws s)
  lock_released true ws e s h = inl (refl, h.0)
  lock_released false ws e s h = let out = inside-Releases ws e s h in inr (refl, out.0, out.1)

  -- Whatever calls are started and however the workers take steps: the calls stand as turns over the
  -- backend of whole operations leave them; and either the lock is free and the store is what those
  -- turns leave, or it is taken and there is a worker that gives it back within two steps.
  pub locked_calls_are_turns :
      (P : Call → Type 0) (s : S) (x : Floor parts.Loaded S)
      → LockedReach crypto backend parts P s x
      → (e : S) × Reach crypto backend P s (coarse crypto backend parts x.workers e)
        × (((x.free ≡ true) × (x.state ≡ e))
            ⊎ ((x.free ≡ false) × (i : ℕ) × Releases i x.workers x.state))
  locked_calls_are_turns P s x r =
      let h = reached_under_lock crypto backend parts P s x r in
      (h.0, h.1, lock_released x.free x.workers h.0 x.state h.2)

  pub locked_deletes-le-stores :
      (c : Contract backend) (id : Bytes) (a : IsArray 16 id) (s : S) (x : Floor parts.Loaded S)
      → c.IsHealthy s
      → LockedReach crypto backend parts (IsAdmissible crypto backend c) s x
      → deletes crypto backend c id a (tasks_of x.workers)
        ≤ stores crypto backend c id a (tasks_of x.workers) + present crypto backend c id a s
  locked_deletes-le-stores c id a s x h r =
      let as_turns = locked_calls_are_turns _ s x r in
      omega (arith, deletes-le-stores crypto backend c id a h as_turns.1)
