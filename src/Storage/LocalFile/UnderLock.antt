-- ===== src/Storage/LocalFile/UnderLock.antt =====
-- Storage.LocalFile: what an operation does to the vault file, up to the point at which the environment
-- lets it get.
use tari_vault.Base.{
  Bytes, ◌≡◌, sym, ◌∙◌, some, Result, ok, err, panic, ◌⊎◌, inl, inr, arith, Exec, Result-cases,
  ◌>>=◌, ◌>>◌, ◌≢◌,
}
use tari_vault.Error.{StorageError}
use tari_vault.Domain.Record.{StoredRecord}
use tari_vault.Storage.BTreeMap.{BTreeMap}
use tari_vault.Storage.LocalFile.{
  Host, Disk, parse_state, print_state, read_state, write_atomic, syscall, spawn_blocking, joined,
  lock_file,
}

module _ (host : Host) where
  -- The whole image of `m` is in the file.
  abbrev pub Written : BTreeMap StoredRecord → Disk → Type 0
  Written m d = (b : Bytes) × (print_state host m ≡ ok b) × (d.contents ≡ some b)

  -- `write_atomic` replaces the file by the whole image of the state, or leaves its contents alone;
  -- and if it leaves them alone it says so by an error.
  pub write_atomic_all_or_nothing :
      (m : BTreeMap StoredRecord) (d : Disk)
      → Written m (write_atomic host m d).1
        ⊎ (((write_atomic host m d).1.contents ≡ d.contents) × ((write_atomic host m d).0 ≢ ok tt))
  unfolding write_atomic
  write_atomic_all_or_nothing m d = ground arith

  -- `d'` holds `f` of the state that `d` held.
  abbrev pub Updated : (BTreeMap StoredRecord → BTreeMap StoredRecord) → Disk → Disk → Type 0
  Updated f d d' =
      (old : Bytes) × (m : BTreeMap StoredRecord) × (d.contents ≡ some old)
      × (parse_state host old ≡ ok m)
      × Written (f m) d'

  -- Every operation takes the locks, reads the state and goes on by `k`; it may not get so far.
  unfoldable pub locked :
      {A : Type 0} → (BTreeMap StoredRecord → Exec Disk StorageError A) → Exec Disk StorageError A
  unfolding spawn_blocking lock_file read_state
  locked k = spawn_blocking (do lock_file; state ← read_state host; k state)

  abbrev pub Reached :
      {A : Type 0} → (BTreeMap StoredRecord → Exec Disk StorageError A) → Disk → Type 0
  Reached k d =
      (old : Bytes) × (m : BTreeMap StoredRecord) × (d' : Disk) × (d.contents ≡ some old)
      × (parse_state host old ≡ ok m)
      × (d'.contents ≡ d.contents)
      × (locked k d ≡ (joined (k m d').0, (k m d').1))

  abbrev pub StoppedBefore :
      {A : Type 0} → (BTreeMap StoredRecord → Exec Disk StorageError A) → Disk → Type 0
  StoppedBefore {A} k d = ((locked k d).1.contents ≡ d.contents) × ((a : A) → (locked k d).0 ≢ ok a)

  abbrev Fails : {A : Type 0} → Result StorageError A → Type 0
  Fails r = ((e : StorageError) × (r ≡ err e)) ⊎ (r ≡ panic)

  read_cases :
      (d : Disk) (m : BTreeMap StoredRecord)
      → (read_state host d).0 ≡ ok m
      → (old : Bytes) × (d.contents ≡ some old) × (parse_state host old ≡ ok m)
  unfolding read_state
  read_cases d m h = ground arith

  after_locks : (d : Disk) → Disk
  unfolding lock_file
  after_locks d = (lock_file (syscall d).1).1

  contents-after_locks : (d : Disk) → (after_locks d).contents ≡ d.contents
  unfolding after_locks
  contents-after_locks d = ground arith

  contents-read_state : (d : Disk) → (read_state host d).1.contents ≡ d.contents
  unfolding read_state
  contents-read_state d = ground arith

  module _ {A : Type 0} (k : BTreeMap StoredRecord → Exec Disk StorageError A) (d : Disk) where
    locked_none : Fails (syscall d).0 → StoppedBefore k d
    unfolding locked after_locks
    locked_none f = (ground arith, λ a h. ground arith)

    locked_some : (syscall d).0 ≡ ok tt → Fails (lock_file (syscall d).1).0 → StoppedBefore k d
    unfolding locked after_locks
    locked_some e f = (ground arith, λ a h. ground arith)

    locked_most :
        (syscall d).0 ≡ ok tt
        → (lock_file (syscall d).1).0 ≡ ok tt
        → Fails (read_state host (after_locks d)).0
        → StoppedBefore k d
    unfolding locked after_locks
    locked_most e e' f = (ground arith, λ a h. ground arith)

    locked_all :
        (m : BTreeMap StoredRecord)
        → (syscall d).0 ≡ ok tt
        → (lock_file (syscall d).1).0 ≡ ok tt
        → (read_state host (after_locks d)).0 ≡ ok m
        → locked k d ≡ (
          joined (k m (read_state host (after_locks d)).1).0,
          (k m (read_state host (after_locks d)).1).1,
        )
    unfolding locked after_locks
    locked_all m e e' e'' = ground arith

    pub locked_cases : Reached k d ⊎ StoppedBefore k d
    locked_cases = elim (Result-cases (syscall d).0) [
      | inr f ↦ inr (locked_none f)
      | inl (_, started) ↦ elim (Result-cases (lock_file (syscall d).1).0) [
        | inr f ↦ inr (locked_some started f)
        | inl (_, held) ↦ elim (Result-cases (read_state host (after_locks d)).0) [
          | inr f ↦ inr (locked_most started held f)
          | inl (m, read) ↦
              let (old, there, parsed) = read_cases (after_locks d) m read in
              let same = contents-read_state (after_locks d) ∙ contents-after_locks d in
              inl (
                old,
                m,
                (read_state host (after_locks d)).1,
                sym (contents-after_locks d) ∙ there,
                parsed,
                same,
                locked_all m started held read,
              )
        ]
      ]
    ]
