-- ===== src/Storage/LocalFile/Refines.antt =====
-- src/storage/local_file.rs against the contract of a storage backend.
use tari_vault.Base.{◌-◌, Bytes, ◌≡◌, refl, Option, none, some, [], ok, ok_or, length}
use tari_vault.Error.{not_found}
use tari_vault.Domain.Chrono.{Instant}
use tari_vault.Domain.Record.{StoredRecord}
use tari_vault.Storage.BTreeMap
use tari_vault.Storage.BTreeMap.{BTreeMap, get-insert, get-remove, get-retain}
use tari_vault.Storage.Backend.{Contract, unexpired, is_some, swept}
use tari_vault.Storage.LocalFile.{Host, Disk, key}
use tari_vault.Storage.LocalFile.Holding.{
  Holds, IsIntact, view, view-Holds, key_eq, Accepted, file, insert-Holds, fetch-Holds,
  delete-Holds, delete_expired-Holds,
}

module _ (host : Host) where
  kept-swept :
      (now : Instant) (o : Option StoredRecord) → BTreeMap.kept (unexpired now) o ≡ swept now o
  unfolding BTreeMap.kept
  kept-swept now none = refl
  kept-swept now (some r) = refl

  -- Each operation does to the map what the contract says, whatever the file host held before.
  pub local_file_contract : Contract (file host)
  local_file_contract = record {
    view = view host;
    IsHealthy = IsIntact host;
    IsAccepted = Accepted host;
    IsClock = λ now. Unit {0};
    insert-ok = λ id r d _ a h. (insert-Holds host id r d h.0 a h.1).0;
    insert-IsHealthy = λ id r d _ a h. (_, (insert-Holds host id r d h.0 a h.1).1);
    view-insert = λ id r d _ a h j _.
        rw
          (
            view-Holds host _ _ (insert-Holds host id r d h.0 a h.1).1 j,
            get-insert,
            key_eq host,
            ← view-Holds host d h.0 h.1 j,
          )
          refl;
    fetch-view = λ id d _ h. rw (fetch-Holds host id d h.0 h.1, view-Holds host d h.0 h.1 id) refl;
    fetch-IsHealthy = λ id d h. rw (fetch-Holds host id d h.0 h.1) h;
    view-fetch = λ id d h j. rw (fetch-Holds host id d h.0 h.1) refl;
    delete-is_some =
        λ id d _ h. rw (view-Holds host d h.0 h.1 id) (delete-Holds host id d h.0 h.1).0;
    delete-IsHealthy = λ id d _ h. (_, (delete-Holds host id d h.0 h.1).1);
    view-delete = λ id d _ h j _.
        rw
          (
            view-Holds host _ _ (delete-Holds host id d h.0 h.1).1 j,
            get-remove _ _ h.0 h.1.sorted,
            key_eq host,
            ← view-Holds host d h.0 h.1 j,
          )
          refl;
    delete_expired-ok = λ now d _ h. (_, (delete_expired-Holds host now d h.0 h.1).0);
    delete_expired-IsHealthy = λ now d _ h. (_, (delete_expired-Holds host now d h.0 h.1).1);
    view-delete_expired = λ now d _ h j _.
        rw
          (
            view-Holds host _ _ (delete_expired-Holds host now d h.0 h.1).1 j,
            get-retain (unexpired now) _ h.0 h.1.sorted,
            kept-swept,
            ← view-Holds host d h.0 h.1 j,
          )
          refl;
  }

  -- What the contract's predicates come to.
  pub IsHealthy-of_intact : (d : Disk) → IsIntact host d → local_file_contract.IsHealthy d
  unfolding local_file_contract
  IsHealthy-of_intact d h = h

  pub accepted_of : (r : StoredRecord) → Accepted host r → local_file_contract.IsAccepted r
  unfolding local_file_contract
  accepted_of r h = h

  pub view-empty :
      (d : Disk) → Holds host d [] → (id : Bytes) → local_file_contract.view d id ≡ none
  unfolding local_file_contract BTreeMap.get
  view-empty d h id = view-Holds host d [] h id

  -- On an intact disk that holds the map `m`, for a record that can be serialized: an insert
  -- answers and puts the record into the map; a fetch answers what the map holds and changes
  -- nothing; a delete answers whether there was a record and removes it; a sweep keeps the records
  -- that have not expired and answers how many it removed. The disk holds the new map after each.
  pub local_file_refines :
      (id : Bytes) (r : StoredRecord) (now : Instant) (d : Disk) (m : BTreeMap StoredRecord)
      → Accepted host r
      → Holds host d m
      → ((((file host).insert id r d).0 ≡ ok tt)
          × Holds host ((file host).insert id r d).1 (BTreeMap.insert (key host id) r m))
        × ((file host).fetch id d ≡ (ok_or not_found (BTreeMap.get (key host id) m), d))
        × ((((file host).delete id d).0 ≡ ok (is_some (BTreeMap.get (key host id) m)))
            × Holds host ((file host).delete id d).1 (BTreeMap.remove (key host id) m))
        × ((((file host).delete_expired now d).0
              ≡ ok (length m - length (BTreeMap.retain (unexpired now) m)))
            × Holds host ((file host).delete_expired now d).1 (BTreeMap.retain (unexpired now) m))
  local_file_refines id r now d m a h = (
    insert-Holds host id r d m a h,
    fetch-Holds host id d m h,
    delete-Holds host id d m h,
    delete_expired-Holds host now d m h,
  )
