-- ===== src/Vault/Tasks/Locked/Alone.antt =====
-- Vault.Tasks.Locked: a worker that nobody gets in the way of.
use tari_vault.Base.{◌≡◌, refl, Bool, true, some}
use tari_vault.Storage.Backend.{StorageBackend}
use tari_vault.Storage.Backend.Ask.{Ask, LockedParts}
use tari_vault.Vault.{Crypto}
use tari_vault.Vault.Tasks.{Task, advance}
use tari_vault.Vault.Tasks.Asks.{ask_of, turn-asks}
use tari_vault.Vault.Tasks.Locked.{Worker, outside, work, begin_turn, take_lock}

module _ {S : Type 0} (crypto : Crypto) (backend : StorageBackend S)
    (parts : LockedParts backend) where
  abbrev pub onward : Worker parts.Loaded × Bool × S → Worker parts.Loaded × Bool × S
  onward p = work crypto backend parts p.0 p.1 p.2

  -- Taking the lock, reading and finishing are a turn of the task.
  pub three_steps :
      (t : Task) (s : S) (a : Ask)
      → ask_of crypto t ≡ some a
      → onward (onward (onward (outside t, true, s)))
        ≡ (outside (advance crypto backend t s).0, true, (advance crypto backend t s).1)
  unfolding work begin_turn take_lock
  three_steps t s a awaits = rw (turn-asks crypto backend t s, awaits, parts.asks-finish a s) refl
