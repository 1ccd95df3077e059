-- ===== src/Examples/Locks.antt =====
-- Calls of the vault at once over the file store, under its lock.
use tari_vault.Base.{ℕ, true, false, ◌≡◌, [], ◌∷◌, ◌⊎◌}
use tari_vault.Storage.LocalFile.{Disk, local_file}
use tari_vault.Storage.LocalFile.Locking.Parts.{parts}
use tari_vault.Vault.History.{Call, retrieve, delete}
use tari_vault.Vault.Tasks.{begin, Reach}
use tari_vault.Vault.Tasks.Locked.{outside, Floor, work_at, LockedReach, opens, then, enters, works}
use tari_vault.Vault.Tasks.Locked.Steps.{coarse}
use tari_vault.Vault.Tasks.Locked.Turns.{Releases, locked_calls_are_turns}
use tari_vault.Examples.Toy.{suite}
use tari_vault.Examples.Shop.{token}
use tari_vault.Examples.Files.{host, disk}

abbrev opened : Floor (parts host).Loaded Disk
opened = record { workers = []; free = true; state = disk }

abbrev entered : Call → Floor (parts host).Loaded Disk → Floor (parts host).Loaded Disk
entered call x = record x { workers = outside (begin call) ∷ x.workers }

abbrev worked : ℕ → Floor (parts host).Loaded Disk → Floor (parts host).Loaded Disk
worked i x =
    let out = work_at suite (local_file host) (parts host) i x.workers x.free x.state in
    record { workers = out.0; free = out.1; state = out.2 }

-- A retrieval and a delete of one token: the delete has the lock and has read when the retrieval asks
-- for it.
abbrev busy : Floor (parts host).Loaded Disk
busy =
    worked 1
      (worked 0 (worked 0 (entered (delete 5000 token) (entered (retrieve 5000 token) opened))))

busy-LockedReach : LockedReach suite (local_file host) (parts host) (λ call. Unit {0}) disk busy
busy-LockedReach =
    then
      (then
        (then (then (then opens (enters (retrieve 5000 token) tt)) (enters (delete 5000 token) tt))
          (works 0))
        (works 0))
      (works 1)

locked_calls_are_turns_example :
    (e : Disk) × Reach suite
      (local_file host)
      (λ call. Unit {0})
      disk
      (coarse suite (local_file host) (parts host) busy.workers e)
    × (((busy.free ≡ true) × (busy.state ≡ e))
        ⊎ ((busy.free ≡ false)
            × (i : ℕ) × Releases suite (local_file host) (parts host) i busy.workers busy.state))
locked_calls_are_turns_example =
    locked_calls_are_turns suite (local_file host) (parts host) (λ call. Unit {0}) disk busy
      busy-LockedReach
