-- ===== src/Storage/LocalFile/Locking/Parts.antt =====
-- The two parts of each operation of src/storage/local_file.rs: up to what it reads of the vault file,
-- and what it does with that. The lock is held from the one to the other.
use tari_vault.Base.{
  ◌≡◌, refl, ok, err, panic, Result, Exec, continue, ◌>>=◌, ◌>>◌, ap, Option, none, some, ◌∙◌,
  fun_ext,
}
use Prim.Native.String.{String}
use tari_vault.Storage.Faults.{outcome, later}
use tari_vault.Error.{StorageError}
use tari_vault.Domain.Record.{StoredRecord}
use tari_vault.Storage.BTreeMap.{BTreeMap}
use tari_vault.Storage.Backend.Ask.{
  Ask, inserts, fetches, deletes, sweeps, Got, inserted, fetched, removed, swept_away, asks,
  LockedParts,
}
use tari_vault.Storage.LocalFile.{
  Disk, Host, read_state, local_file, insert, fetch, delete, delete_expired, spawn_blocking,
  syscall, lock_file, caught, joined, answer,
}
use tari_vault.Storage.LocalFile.Locking.{
  Job, whole, insert_job, fetch_job, delete_job, delete_expired_job, delete_rest,
  delete_expired_rest,
}

-- A closure of which the one step is `m` and the next `f` leaves of `f` what the task answers.
after_spawn :
    {A B : Type 0} (o : Option String) (m : Exec Disk StorageError B)
    (f : B → Exec Disk StorageError A) (s : Disk)
    → continue (answer o) (λ x. caught (m >>= f)) s ≡ (
      joined (continue (continue (answer o) (λ x. m) s).0 f (continue (answer o) (λ x. m) s).1).0,
      (continue (continue (answer o) (λ x. m) s).0 f (continue (answer o) (λ x. m) s).1).1,
    )
unfolding answer caught joined
after_spawn none m f s = refl
after_spawn (some e) m f s = refl

same_steps :
    {A B C : Type 0} (r : Result StorageError C) (m : Exec Disk StorageError B)
    (f : B → Exec Disk StorageError A) (s : Disk)
    → continue r (λ x. m >>= f) s ≡ continue (continue r (λ x. m) s).0 f (continue r (λ x. m) s).1
same_steps (ok c) m f s = refl
same_steps (err e) m f s = refl
same_steps panic m f s = refl

module _ (host : Host) where
  -- Whether the closure runs and the lock file opens comes out when the lock is taken.
  pub load : Exec Disk StorageError (BTreeMap StoredRecord)
  unfolding syscall lock_file
  load = do syscall; lock_file; read_state host

  abbrev pub rest :
      {A : Type 0}
      → Job A
      → Result StorageError (BTreeMap StoredRecord)
      → Disk
      → Result StorageError A × Disk
  unfolding joined
  rest j l d = (joined (continue l j.finish d).0, (continue l j.finish d).1)

  rest-load :
      {A : Type 0} (f : BTreeMap StoredRecord → Exec Disk StorageError A) (d : Disk)
      → let j : Job A = record { load = read_state host; finish = f } in
        spawn_blocking (lock_file >> whole j) d ≡ rest j (load d).0 (load d).1
  unfolding spawn_blocking syscall load
  rest-load f d =
      ap
        (λ m.
          continue (answer (outcome d.faults)) (λ x. caught m)
            (record d { faults = later d.faults }))
        (fun_ext λ s. same_steps (lock_file s).0 (read_state host) f (lock_file s).1)
      ∙ after_spawn (outcome d.faults) (lock_file >> read_state host) f _

  abbrev pub finish : Ask → Result StorageError (BTreeMap StoredRecord) → Disk → Got × Disk
  finish (inserts id r) l d =
      (inserted (rest (insert_job host id r) l d).0, (rest (insert_job host id r) l d).1)
  finish (fetches id) l d =
      (fetched (rest (fetch_job host id) l d).0, (rest (fetch_job host id) l d).1)
  finish (deletes id) l d =
      (removed (rest (delete_job host id) l d).0, (rest (delete_job host id) l d).1)
  finish (sweeps now) l d = (
    swept_away (rest (delete_expired_job host now) l d).0,
    (rest (delete_expired_job host now) l d).1,
  )

  -- Each operation of the store is its two parts, one after the other.
  pub asks-finish :
      (a : Ask) (d : Disk) → asks (local_file host) a d ≡ finish a (load d).0 (load d).1
  unfolding insert fetch delete delete_expired
  asks-finish (inserts id r) d =
      ap (λ o. (inserted o.0, o.1)) (rest-load (insert_job host id r).finish d)
  asks-finish (fetches id) d = ap (λ o. (fetched o.0, o.1)) (rest-load (fetch_job host id).finish d)
  asks-finish (deletes id) d = ap (λ o. (removed o.0, o.1)) (rest-load (delete_rest host id) d)
  asks-finish (sweeps now) d =
      ap (λ o. (swept_away o.0, o.1)) (rest-load (delete_expired_rest host now) d)

  abbrev pub parts : LockedParts (local_file host)
  parts = record {
    Loaded = Result StorageError (BTreeMap StoredRecord);
    load = load;
    finish = finish;
    asks-finish = asks-finish;
  }
