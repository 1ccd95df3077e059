-- ===== src/Storage/LocalFile/Creation.antt =====
-- `LocalFileStore::new`: opening a store that is there, and one that is not.
use tari_vault.Base.{
  Bytes, ℕ, ◌≡◌, refl, Bool, true, false, none, some, [], Result, ok, err, panic, arith,
  if◌then◌else◌, pure,
}
use tari_vault.Error.{StorageError, not_found}
use tari_vault.Domain.Record.{StoredRecord}
use tari_vault.Storage.Backend.{is_some}
use tari_vault.Storage.LocalFile.{
  Host, Disk, owner_only, create, write_atomic, syscall, insert, fetch, key,
}
use tari_vault.Storage.BTreeMap
use tari_vault.Storage.LocalFile.Laws.{
  intact, image, print_state-image, parse_state-image, write_atomic-intact, insert-intact,
  fetch-intact,
}
use tari_vault.Storage.LocalFile.Holding.{Holds}

-- A host on which nothing has been stored at the path.
abbrev pub vacant : ℕ → Disk
vacant mode = record { contents = none; mode = mode; has_parent = true; faults = [] }

module _ (host : Host) where
  write_atomic-vacant :
      (mode : ℕ) → write_atomic host [] (vacant mode) ≡ (ok tt, intact (image host []) owner_only)
  unfolding write_atomic
  write_atomic-vacant mode = rw (print_state-image host [])

  -- Opening does not change the contents of a file that is there, whatever calls of the environment
  -- fail.
  pub create_preserves :
      (d : Disk) (b : Bytes) → d.contents ≡ some b → (create host d).1.contents ≡ some b
  unfolding create syscall
  create_preserves d b h = rw h (ground arith)

  -- When no call fails, opening a path without a file succeeds and makes one that holds the empty
  -- map, of mode 0600.
  pub create-Holds :
      (mode : ℕ)
      → ((create host (vacant mode)).0 ≡ ok tt)
        × Holds host (create host (vacant mode)).1 []
        × ((create host (vacant mode)).1.mode ≡ owner_only)
  unfolding create syscall
  create-Holds mode = rw (write_atomic-vacant mode) (
    refl,
    record {
      bytes = image host [];
      mode = owner_only;
      same = refl;
      parsed = parse_state-image host [] tt;
      sorted = tt;
      storable = tt;
    },
    refl,
  )

-- Where a call of `LocalFileStore::new` stands: before the check, about to write, or done. It takes no lock.
pub data Opening : Type 0 where
  checking : Opening
  creating : Opening
  opened : Result StorageError (Unit {0}) → Opening

module _ (host : Host) where
  seen : Result StorageError (Unit {0}) → Bool → Opening
  seen (ok _) true = opened (ok tt)
  seen (ok _) false = creating
  seen (err e) there = opened (err e)
  seen panic there = opened panic

  -- `create_dir_all` and `exists` in one turn, `write_atomic` in the next.
  unfoldable pub open_turn : Opening → Disk → Opening × Disk
  unfolding syscall seen
  open_turn checking d =
      let made = (if d.has_parent then syscall else pure tt) d in
      (seen made.0 (is_some d.contents), made.1)
  open_turn creating d = (opened (write_atomic host [] d).0, (write_atomic host [] d).1)
  open_turn (opened r) d = (opened r, d)

  -- Two turns in a row are `create`.
  open_turn-twice :
      (d : Disk)
      → let first = open_turn checking d in
        open_turn first.0 first.1 ≡ (opened (create host d).0, (create host d).1)
  unfolding open_turn create syscall
  open_turn-twice d = ground arith

  -- No call of the environment fails, and the path has no file: when a start finds that there is none, another process then opens
  -- the store and stores a record under an id, and the start goes on, then both report success and the record is gone.
  pub racing_create_loses :
      (mode : ℕ) (id : Bytes) (r : StoredRecord)
      → let first = open_turn checking (vacant mode) in
        let other = insert host id r (create host first.1).1 in
        let second = open_turn first.0 other.1 in
        (other.0 ≡ ok tt)
        × (second.0 ≡ opened (ok tt))
        × ((fetch host id second.1).0 ≡ err not_found)
  unfolding open_turn create syscall BTreeMap.get
  racing_create_loses mode id r =
      let parsed = parse_state-image host [] tt in
      let put = insert-intact host [] (image host []) owner_only parsed id r in
      let after = image host (BTreeMap.insert (key host id) r []) in
      let emptied = write_atomic-intact host [] after owner_only in
      rw
        (
          write_atomic-vacant host mode,
          put,
          emptied,
          fetch-intact host [] (image host []) owner_only parsed id,
        )
        (refl, refl, refl)
