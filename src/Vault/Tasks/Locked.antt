-- ===== src/Vault/Tasks/Locked.antt =====
-- Any number of calls at once over a backend whose calls are not one step: each takes an exclusive
-- lock, reads, and goes on with what it has read, as those of src/storage/local_file.rs do.
pub mod Exclusion
pub mod Steps
pub mod Turns
pub mod Alone
use tari_vault.Base.{ℕ, zero, suc, Bool, true, false, Option, none, some, List, [], ◌∷◌}
use tari_vault.Storage.Backend.{StorageBackend}
use tari_vault.Storage.Backend.Ask.{Ask, LockedParts}
use tari_vault.Vault.{Crypto}
use tari_vault.Vault.History.{Call}
use tari_vault.Vault.Tasks.{Task, begin}
use tari_vault.Vault.Tasks.Asks.{ask_of, told, unasked}

-- A task that does not have the lock, or that has it, before and after it has read.
pub data Worker (Loaded : Type 0) : Type 0 where
  outside : Task → Worker Loaded
  holds : Ask → Task → Worker Loaded
  has_read : Ask → Task → Loaded → Worker Loaded

pub record Floor (Loaded S : Type 0) : Type 0 where
  pub workers : List (Worker Loaded)
  pub free : Bool
  pub state : S

abbrev pub task_of : {Loaded : Type 0} → Worker Loaded → Task
task_of (outside t) = t
task_of (holds a t) = t
task_of (has_read a t l) = t

abbrev pub tasks_of : {Loaded : Type 0} → List (Worker Loaded) → List Task
tasks_of [] = []
tasks_of (w ∷ ws) = task_of w ∷ tasks_of ws

module _ {S : Type 0} (crypto : Crypto) (backend : StorageBackend S)
    (parts : LockedParts backend) where
  open parts use {Loaded, load, finish}

  -- The lock is taken if it is free; if not, the task waits.
  take_lock : Bool → Ask → Task → Worker Loaded × Bool
  take_lock true a t = (holds a t, false)
  take_lock false a t = (outside t, false)

  begin_turn : Option Ask → Task → Bool → S → Worker Loaded × Bool × S
  unfolding take_lock
  begin_turn none t free s = (outside (unasked crypto t), free, s)
  begin_turn (some a) t free s = ((take_lock free a t).0, (take_lock free a t).1, s)

  unfoldable pub work : Worker Loaded → Bool → S → Worker Loaded × Bool × S
  unfolding begin_turn
  work (outside t) free s = begin_turn (ask_of crypto t) t free s
  work (holds a t) free s = (has_read a t (load s).0, free, (load s).1)
  work (has_read a t l) free s = (outside (told crypto t (finish a l s).0), true, (finish a l s).1)

  unfoldable pub work_at : ℕ → List (Worker Loaded) → Bool → S → List (Worker Loaded) × Bool × S
  work_at i [] free s = ([], free, s)
  work_at zero (w ∷ ws) free s = ((work w free s).0 ∷ ws, (work w free s).1, (work w free s).2)
  work_at (suc i) (w ∷ ws) free s =
      (w ∷ (work_at i ws free s).0, (work_at i ws free s).1, (work_at i ws free s).2)

  pub data LockedStep (P : Call → Type 0) (x : Floor Loaded S) : Floor Loaded S → Type 0 where
    enters :
        (call : Call)
        → P call
        → LockedStep P x (record x { workers = outside (begin call) ∷ x.workers })
    works :
        (i : ℕ)
        → LockedStep P x (record {
          workers = (work_at i x.workers x.free x.state).0;
          free = (work_at i x.workers x.free x.state).1;
          state = (work_at i x.workers x.free x.state).2;
        })

  pub data LockedReach (P : Call → Type 0) (s : S) : Floor Loaded S → Type 0 where
    opens : LockedReach P s (record { workers = []; free = true; state = s })
    then : {x y : Floor Loaded S} → LockedReach P s x → LockedStep P x y → LockedReach P s y
