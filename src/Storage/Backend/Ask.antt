-- ===== src/Storage/Backend/Ask.antt =====
-- A call of the trait `StorageBackend` of src/storage/backend.rs as a value, and its answer; and a
-- backend that makes each call in two parts.
use tari_vault.Base.{ℕ, Bytes, ◌≡◌, Bool, Result}
use tari_vault.Error.{StorageError}
use tari_vault.Domain.Chrono.{Instant}
use tari_vault.Domain.Record.{StoredRecord}
use tari_vault.Storage.Backend.{StorageBackend}

pub data Ask : Type 0 where
  inserts : Bytes → StoredRecord → Ask
  fetches : Bytes → Ask
  deletes : Bytes → Ask
  sweeps : Instant → Ask

pub data Got : Type 0 where
  inserted : Result StorageError (Unit {0}) → Got
  fetched : Result StorageError StoredRecord → Got
  removed : Result StorageError Bool → Got
  swept_away : Result StorageError ℕ → Got

abbrev pub asks : {S : Type 0} → StorageBackend S → Ask → S → Got × S
asks b (inserts id r) s = (inserted (b.insert id r s).0, (b.insert id r s).1)
asks b (fetches id) s = (fetched (b.fetch id s).0, (b.fetch id s).1)
asks b (deletes id) s = (removed (b.delete id s).0, (b.delete id s).1)
asks b (sweeps now) s = (swept_away (b.delete_expired now s).0, (b.delete_expired now s).1)

-- A call reads, which is the same for each, and then finishes.
pub record LockedParts {S : Type 0} (backend : StorageBackend S) : Type 1 where
  pub Loaded : Type 0
  pub load : S → Loaded × S
  pub finish : Ask → Loaded → S → Got × S
  pub asks-finish : (a : Ask) (s : S) → asks backend a s ≡ finish a (load s).0 (load s).1
