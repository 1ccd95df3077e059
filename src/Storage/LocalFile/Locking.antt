-- ===== src/Storage/LocalFile/Locking.antt =====
-- The operations of src/storage/local_file.rs behind the lock: each reads the vault file, and goes on with
-- what it has read.
pub mod Parts
use tari_vault.Base.{
  In, Bytes, ◌-◌, ltb, ok_or, lift, pure, ◌>>=◌, ◌>>◌, ℕ, zero, suc, length, ◌≡◌, refl, Bool, true,
  false, List, [], ◌∷◌, Result, Exec, continue, if◌then◌else◌,
}
use tari_vault.Error.{StorageError, not_found}
use tari_vault.Domain.Record.{StoredRecord}
use tari_vault.Storage.BTreeMap.{BTreeMap}
use tari_vault.Storage.LocalFile.{
  Disk, Host, read_state, write_atomic, key, insert, fetch, delete, delete_expired, spawn_blocking,
  lock_file,
}
use tari_vault.Storage.Backend.{unexpired, is_some}
use tari_vault.Domain.Chrono.{Instant}
use tari_vault.Storage.BTreeMap

-- An operation under the lock: it reads the file, and goes on with what it has read.
pub record Job (A : Type 0) : Type 0 where
  pub load : Exec Disk StorageError (BTreeMap StoredRecord)
  pub finish : BTreeMap StoredRecord → Exec Disk StorageError A

-- The operation when nobody comes between.
abbrev pub whole : {A : Type 0} → Job A → Exec Disk StorageError A
whole j d = continue (j.load d).0 j.finish (j.load d).1

-- The operations of the store, from the lock on.
module _ (host : Host) where
  abbrev pub insert_job : Bytes → StoredRecord → Job (Unit {0})
  insert_job record_id r = record {
    load = read_state host;
    finish = λ state. write_atomic host (BTreeMap.insert (key host record_id) r state);
  }

  abbrev pub fetch_job : Bytes → Job StoredRecord
  fetch_job record_id = record {
    load = read_state host;
    finish = λ state. lift (ok_or not_found (BTreeMap.get (key host record_id) state));
  }

  abbrev pub delete_rest : Bytes → BTreeMap StoredRecord → Exec Disk StorageError Bool
  delete_rest record_id state = do
    let existed = is_some (BTreeMap.get (key host record_id) state)
    if existed then write_atomic host (BTreeMap.remove (key host record_id) state) else pure tt
    pure existed

  abbrev pub delete_job : Bytes → Job Bool
  delete_job record_id = record { load = read_state host; finish = delete_rest record_id }

  abbrev pub delete_expired_rest : Instant → BTreeMap StoredRecord → Exec Disk StorageError ℕ
  delete_expired_rest now state = do
    let after = BTreeMap.retain (unexpired now) state
    let removed = length state - length after
    if ltb 0 removed then write_atomic host after else pure tt
    pure removed

  abbrev pub delete_expired_job : Instant → Job ℕ
  delete_expired_job now = record { load = read_state host; finish = delete_expired_rest now }

  -- Behind the lock each operation of the store is the job of its name.
  jobs_lem :
      (id : Bytes) (r : StoredRecord) (now : Instant)
      → (insert host id r ≡ spawn_blocking (lock_file >> whole (insert_job id r)))
        × (fetch host id ≡ spawn_blocking (lock_file >> whole (fetch_job id)))
        × (delete host id ≡ spawn_blocking (lock_file >> whole (delete_job id)))
        × (delete_expired host now ≡ spawn_blocking (lock_file >> whole (delete_expired_job now)))
  unfolding insert fetch delete delete_expired
  jobs_lem id r now = (refl, refl, refl, refl)
