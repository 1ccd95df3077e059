-- ===== src/Storage/Sqlite/Opening.antt =====
-- `SqliteStore::new` of src/storage/sqlite.rs: what it does to the database file.
use Prim.Native.String.{String, ◌++◌ as append}
use tari_vault.Base.{
  ℕ, ◌≡◌, refl, Bool, true, false, Option, none, some, List, Result, ok, err, map_err, Exec, pure,
  ◌>>◌, Option-cases, inl, inr, ◌⊎◌,
}
use tari_vault.Error.{StorageError, io}
use tari_vault.Storage.Faults.{Faults, outcome, later}
use tari_vault.Storage.LocalFile.{owner_only}
use tari_vault.Storage.Sqlite.{Row}

-- The database file, if there is one: its mode, whether the table `proofs` is in it, and the rows of the table.
pub record DbFile : Type 0 where
  pub mode : Option ℕ
  pub migrated : Bool
  pub rows : List Row
  pub has_parent : Bool
  pub faults : Faults

abbrev Op : Type 0 → Type 0
Op A = Exec DbFile StorageError A

answer : Option String → Result StorageError (Unit {0})
answer none = ok tt
answer (some e) = err (io e)

-- A call that leaves the program, and changes the file if it works.
changed : (DbFile → DbFile) → Option String → DbFile → DbFile
changed f none d = f d
changed f (some e) d = d

call : (DbFile → DbFile) → Op (Unit {0})
unfolding answer changed
call f d =
    (answer (outcome d.faults), changed f (outcome d.faults) (record d { faults = later d.faults }))

-- `create_dir_all` of the parent, where the path has one
create_dir_all : Bool → Op (Unit {0})
unfolding call
create_dir_all true = call (λ d. d)
create_dir_all false = pure tt

existing_or : ℕ → Option ℕ → ℕ
existing_or default_mode none = default_mode
existing_or default_mode (some mode) = mode

-- SQLite makes a file that is not there, with the mode that the process makes files with.
opened : ℕ → DbFile → DbFile
unfolding existing_or
opened default_mode d = record d { mode = some (existing_or default_mode d.mode) }

migration_failed : StorageError → StorageError
migration_failed (io e) = io (append "Migration failed: " e)
migration_failed other = other

to_latest : Op (Unit {0})
unfolding call migration_failed
to_latest d =
    let out = call (λ d. record d { migrated = true }) d in (map_err migration_failed out.0, out.1)

-- The directory, the connection, the pragmas, the migrations, the permissions.
unfoldable pub new : ℕ → Op (Unit {0})
unfolding create_dir_all call opened to_latest
new default_mode d =
    (do
      create_dir_all d.has_parent
      call (opened default_mode)
      call (λ d. d)
      to_latest
      call (λ d. record d { mode = some owner_only }))
      d

-- The file after a start that failed.
abbrev pub Partly : ℕ → DbFile → DbFile → Type 0
Partly default_mode d d' = (d'.mode ≡ d.mode) ⊎ ((d.mode ≡ none) × (d'.mode ≡ some default_mode))

abbrev next : DbFile → DbFile
next d = record d { faults = later d.faults }

module _ (P : Result StorageError (Unit {0}) × DbFile → Type 0) where
  call-last :
      (f : DbFile → DbFile) (d : DbFile)
      → ((e : StorageError) → P (err e, next d))
      → P (ok tt, f (next d))
      → P (call f d)
  unfolding call answer changed
  call-last f d fails works = elim (Option-cases (outcome d.faults)) [
    | inl fine ↦ rw fine works
    | inr (e, bad) ↦ rw bad (fails (io e))
  ]

  call-then :
      (f : DbFile → DbFile) (k : Op (Unit {0})) (d : DbFile)
      → ((e : StorageError) → P (err e, next d))
      → P (k (f (next d)))
      → P ((call f >> k) d)
  unfolding call answer changed
  call-then f k d fails works = elim (Option-cases (outcome d.faults)) [
    | inl fine ↦ rw fine works
    | inr (e, bad) ↦ rw bad (fails (io e))
  ]

  to_latest-then :
      (k : Op (Unit {0})) (d : DbFile)
      → ((e : StorageError) → P (err e, next d))
      → P (k (record (next d) { migrated = true }))
      → P ((to_latest >> k) d)
  unfolding to_latest call answer changed migration_failed
  to_latest-then k d fails works = elim (Option-cases (outcome d.faults)) [
    | inl fine ↦ rw fine works
    | inr (e, bad) ↦ rw bad (fails (io (append "Migration failed: " e)))
  ]

-- What opening comes to, from a file `d` to an answer and a file.
abbrev Opens : ℕ → DbFile → Result StorageError (Unit {0}) × DbFile → Type 0
Opens default_mode d out =
    (((out.0 ≡ ok tt) × (out.1.mode ≡ some owner_only) × (out.1.migrated ≡ true))
      ⊎ (((e : StorageError) × (out.0 ≡ err e)) × Partly default_mode d out.1))
    × (out.1.rows ≡ d.rows)

opened-Partly :
    (default_mode : ℕ) (d d' : DbFile)
    → d'.mode ≡ d.mode
    → Partly default_mode d (opened default_mode d')
unfolding opened existing_or
opened-Partly default_mode d d' same = elim (Option-cases d.mode) [
  | inl absent ↦ inr (absent, rw (same, absent) refl)
  | inr (mode, there) ↦ inl (rw (same, there) refl)
]

abbrev permitted : DbFile → DbFile
permitted d = record d { mode = some owner_only }

-- After the connection has made or found the file.
connected-Opens :
    (default_mode : ℕ) (d d' : DbFile)
    → Partly default_mode d d'
    → d'.rows ≡ d.rows
    → Opens default_mode d ((call (λ d. d) >> (to_latest >> call permitted)) d')
connected-Opens default_mode d d' partly rows =
    call-then (Opens default_mode d) (λ d. d) (to_latest >> call permitted) d'
      (λ e. (inr ((e, refl), partly), rows))
      (to_latest-then (Opens default_mode d) (call permitted) (next d')
        (λ e. (inr ((e, refl), partly), rows))
        (call-last (Opens default_mode d) permitted (record (next (next d')) { migrated = true })
          (λ e. (inr ((e, refl), partly), rows)) (inl (refl, refl, refl), rows)))

directory-Opens :
    (default_mode : ℕ) (d d' : DbFile)
    → d'.mode ≡ d.mode
    → d'.rows ≡ d.rows
    → Opens default_mode d
        ((call (opened default_mode) >> (call (λ d. d) >> (to_latest >> call permitted))) d')
unfolding opened
directory-Opens default_mode d d' mode rows =
    call-then (Opens default_mode d) (opened default_mode)
      (call (λ d. d) >> (to_latest >> call permitted)) d' (λ e. (inr ((e, refl), inl mode), rows))
      (connected-Opens default_mode d (opened default_mode (next d'))
        (opened-Partly default_mode d (next d') mode) rows)

created-Opens :
    (has_parent : Bool) (default_mode : ℕ) (d : DbFile)
    → Opens default_mode d (
        (create_dir_all has_parent
            >> (call (opened default_mode) >> (call (λ d. d) >> (to_latest >> call permitted))))
          d)
unfolding create_dir_all
created-Opens false default_mode d = directory-Opens default_mode d d refl refl
created-Opens true default_mode d =
    call-then (Opens default_mode d) (λ d. d)
      (call (opened default_mode) >> (call (λ d. d) >> (to_latest >> call permitted))) d
      (λ e. (inr ((e, refl), inl refl), refl)) (directory-Opens default_mode d (next d) refl refl)

-- Whatever calls of the environment fail: opening succeeds, and then the table is there and the mode is 0600; or it
-- fails, and then the mode is what it was, or, of a file that was not there, the one that the process makes files with. The rows stay.
pub new_store :
    (default_mode : ℕ) (d : DbFile)
    → ((((new default_mode d).0 ≡ ok tt)
          × ((new default_mode d).1.mode ≡ some owner_only)
          × ((new default_mode d).1.migrated ≡ true))
        ⊎ (((e : StorageError) × ((new default_mode d).0 ≡ err e))
            × Partly default_mode d (new default_mode d).1))
      × ((new default_mode d).1.rows ≡ d.rows)
unfolding new
new_store default_mode d = created-Opens d.has_parent default_mode d
