-- ===== src/Storage/AnyBackend.antt =====
-- `AnyBackend` of src/storage/mod.rs: the backend that was chosen at startup.
use tari_vault.Base.{
  ℕ, Bytes, IsArray, bytes_eq, ◌≡◌, Bool, Option, none, some, ok, Exec, ok_or, if◌then◌else◌,
}
use tari_vault.Error.{StorageError, not_found}
use tari_vault.Domain.Chrono.{Instant}
use tari_vault.Domain.Record.{StoredRecord}
use tari_vault.Storage.Backend.{StorageBackend, Contract, is_some, swept}
use tari_vault.Storage.LocalFile.{Host, Disk, local_file}
use tari_vault.Storage.LocalFile.Refines.{local_file_contract}
use tari_vault.Storage.Sqlite.{Database, sqlite}
use tari_vault.Storage.Sqlite.Refines.{sqlite_contract}

pub data AnyBackend : Type 0 where
  file : Disk → AnyBackend
  database : Database → AnyBackend

on {ℓ} : {S : Type 0} {A : Type ℓ} → (S → AnyBackend) → A × S → A × AnyBackend
on wrap (r, s) = (r, wrap s)

module _ (host : Host) where
  unfoldable pub insert : Bytes → StoredRecord → Exec AnyBackend StorageError (Unit {0})
  unfolding on
  insert id r (file s) = on file ((local_file host).insert id r s)
  insert id r (database s) = on database ((sqlite host.chrono).insert id r s)

  unfoldable pub fetch : Bytes → Exec AnyBackend StorageError StoredRecord
  unfolding on
  fetch id (file s) = on file ((local_file host).fetch id s)
  fetch id (database s) = on database ((sqlite host.chrono).fetch id s)

  unfoldable pub delete : Bytes → Exec AnyBackend StorageError Bool
  unfolding on
  delete id (file s) = on file ((local_file host).delete id s)
  delete id (database s) = on database ((sqlite host.chrono).delete id s)

  unfoldable pub delete_expired : Instant → Exec AnyBackend StorageError ℕ
  unfolding on
  delete_expired now (file s) = on file ((local_file host).delete_expired now s)
  delete_expired now (database s) = on database ((sqlite host.chrono).delete_expired now s)

  abbrev pub any_backend : StorageBackend AnyBackend
  any_backend = record {
    insert = insert;
    fetch = fetch;
    delete = delete;
    delete_expired = delete_expired;
  }

  abbrev f : Contract (local_file host)
  f = local_file_contract host

  abbrev q : Contract (sqlite host.chrono)
  q = sqlite_contract host.chrono

  view : AnyBackend → Bytes → Option StoredRecord
  view (file s) id = f.view s id
  view (database s) id = q.view s id

  abbrev pub IsHealthy : AnyBackend → Type 0
  IsHealthy (file s) = f.IsHealthy s
  IsHealthy (database s) = q.IsHealthy s

  abbrev Accepted : StoredRecord → Type 0
  Accepted r = f.IsAccepted r × q.IsAccepted r

  abbrev Clock : Instant → Type 0
  Clock now = f.IsClock now × q.IsClock now

  insert-ok :
      (id : Bytes) (r : StoredRecord) (s : AnyBackend)
      → IsArray 16 id
      → Accepted r
      → IsHealthy s
      → (insert id r s).0 ≡ ok tt
  unfolding insert
  insert-ok id r (file s) a p h = f.insert-ok id r s a p.0 h
  insert-ok id r (database s) a p h = q.insert-ok id r s a p.1 h

  insert-IsHealthy :
      (id : Bytes) (r : StoredRecord) (s : AnyBackend)
      → IsArray 16 id
      → Accepted r
      → IsHealthy s
      → IsHealthy (insert id r s).1
  unfolding insert
  insert-IsHealthy id r (file s) a p h = f.insert-IsHealthy id r s a p.0 h
  insert-IsHealthy id r (database s) a p h = q.insert-IsHealthy id r s a p.1 h

  view-insert :
      (id : Bytes) (r : StoredRecord) (s : AnyBackend)
      → IsArray 16 id
      → Accepted r
      → IsHealthy s
      → (j : Bytes) → IsArray 16 j
      → view (insert id r s).1 j ≡ (if bytes_eq id j then some r else view s j)
  unfolding insert view
  view-insert id r (file s) a p h = f.view-insert id r s a p.0 h
  view-insert id r (database s) a p h = q.view-insert id r s a p.1 h

  fetch-view :
      (id : Bytes) (s : AnyBackend)
      → IsArray 16 id
      → IsHealthy s
      → (fetch id s).0 ≡ ok_or not_found (view s id)
  unfolding fetch view
  fetch-view id (file s) a h = f.fetch-view id s a h
  fetch-view id (database s) a h = q.fetch-view id s a h

  fetch-IsHealthy : (id : Bytes) (s : AnyBackend) → IsHealthy s → IsHealthy (fetch id s).1
  unfolding fetch
  fetch-IsHealthy id (file s) h = f.fetch-IsHealthy id s h
  fetch-IsHealthy id (database s) h = q.fetch-IsHealthy id s h

  view-fetch :
      (id : Bytes) (s : AnyBackend) → IsHealthy s → (j : Bytes) → view (fetch id s).1 j ≡ view s j
  unfolding fetch view
  view-fetch id (file s) h = f.view-fetch id s h
  view-fetch id (database s) h = q.view-fetch id s h

  delete-is_some :
      (id : Bytes) (s : AnyBackend)
      → IsArray 16 id
      → IsHealthy s
      → (delete id s).0 ≡ ok (is_some (view s id))
  unfolding delete view
  delete-is_some id (file s) a h = f.delete-is_some id s a h
  delete-is_some id (database s) a h = q.delete-is_some id s a h

  delete-IsHealthy :
      (id : Bytes) (s : AnyBackend) → IsArray 16 id → IsHealthy s → IsHealthy (delete id s).1
  unfolding delete
  delete-IsHealthy id (file s) a h = f.delete-IsHealthy id s a h
  delete-IsHealthy id (database s) a h = q.delete-IsHealthy id s a h

  view-delete :
      (id : Bytes) (s : AnyBackend)
      → IsArray 16 id
      → IsHealthy s
      → (j : Bytes) → IsArray 16 j
      → view (delete id s).1 j ≡ (if bytes_eq id j then none else view s j)
  unfolding delete view
  view-delete id (file s) a h = f.view-delete id s a h
  view-delete id (database s) a h = q.view-delete id s a h

  delete_expired-ok :
      (now : Instant) (s : AnyBackend)
      → Clock now
      → IsHealthy s
      → (n : ℕ) × ((delete_expired now s).0 ≡ ok n)
  unfolding delete_expired
  delete_expired-ok now (file s) k h = f.delete_expired-ok now s k.0 h
  delete_expired-ok now (database s) k h = q.delete_expired-ok now s k.1 h

  delete_expired-IsHealthy :
      (now : Instant) (s : AnyBackend)
      → Clock now
      → IsHealthy s
      → IsHealthy (delete_expired now s).1
  unfolding delete_expired
  delete_expired-IsHealthy now (file s) k h = f.delete_expired-IsHealthy now s k.0 h
  delete_expired-IsHealthy now (database s) k h = q.delete_expired-IsHealthy now s k.1 h

  view-delete_expired :
      (now : Instant) (s : AnyBackend)
      → Clock now
      → IsHealthy s
      → (j : Bytes) → IsArray 16 j
      → view (delete_expired now s).1 j ≡ swept now (view s j)
  unfolding delete_expired view
  view-delete_expired now (file s) k h = f.view-delete_expired now s k.0 h
  view-delete_expired now (database s) k h = q.view-delete_expired now s k.1 h

  -- Whichever backend was chosen, the contract is kept, within the bounds of both.
  pub any_backend_contract : Contract any_backend
  any_backend_contract = record {
    view = view;
    IsHealthy = IsHealthy;
    IsAccepted = Accepted;
    IsClock = Clock;
    insert-ok = insert-ok;
    insert-IsHealthy = insert-IsHealthy;
    view-insert = view-insert;
    fetch-view = fetch-view;
    fetch-IsHealthy = fetch-IsHealthy;
    view-fetch = view-fetch;
    delete-is_some = delete-is_some;
    delete-IsHealthy = delete-IsHealthy;
    view-delete = view-delete;
    delete_expired-ok = delete_expired-ok;
    delete_expired-IsHealthy = delete_expired-IsHealthy;
    view-delete_expired = view-delete_expired;
  }
