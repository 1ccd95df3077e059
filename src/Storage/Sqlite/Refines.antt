-- ===== src/Storage/Sqlite/Refines.antt =====
-- src/storage/sqlite.rs against the contract of a storage backend.
use tari_vault.Base.{
  [], ◌-◌, ◌<◌, Bytes, bytes_eq, ◌≡◌, refl, sym, ap, none, some, ok, ok_or, if◌then◌else◌, length,
}
use tari_vault.Error.{not_found}
use tari_vault.Domain.Chrono.{Instant, Chrono, year_10000}
use tari_vault.Domain.Record.{StoredRecord}
use tari_vault.Storage.Backend.{Contract, is_some, swept}
use tari_vault.Storage.Sqlite.{read_row, Database, select, without_expired}
use tari_vault.Storage.Sqlite.Laws.{
  without-IsKeyed, without_expired-IsKeyed, All-without, All-without_expired,
  select-without_expired, Readable, Fits,
}
use tari_vault.Storage.Sqlite.Intact.{
  calm, insert-calm, fetch-calm, delete-calm, delete_expired-calm, read_row-record_of,
  is_some-record_of, record_of-surviving, Readable-select, IsIntact-insert, view-insert,
  view-without, table, view, record_of, IsIntact, IsIntact-calm,
}

module _ (chrono : Chrono) where
  -- Each operation does to the table what the contract says, for records that expire before the
  -- year 10000 and a clock that has not reached it.
  pub sqlite_contract : Contract (table chrono)
  sqlite_contract = record {
    view = view chrono;
    IsHealthy = IsIntact chrono;
    IsAccepted = Fits chrono;
    IsClock = λ now. now < year_10000;
    insert-ok = λ id r d _ f h. rw (insert-calm chrono id r d h) refl;
    insert-IsHealthy = λ id r d _ f h. IsIntact-insert chrono id r d f h;
    view-insert = λ id r d _ f h j _. view-insert chrono id r d f h j;
    fetch-view = λ id d _ h. rw (fetch-calm chrono id d h) (
        unfold view in
        read_row-record_of chrono (select id d.rows) (calm d.rows) (Readable-select chrono d h id));
    fetch-IsHealthy =
        λ id d h. rw (fetch-calm chrono id d h) (IsIntact-calm chrono d.rows h.keyed h.readable);
    view-fetch = λ id d h j. rw (fetch-calm chrono id d h) (unfold view in refl);
    delete-is_some = λ id d _ h.
        rw (delete-calm chrono id d h)
          (unfold view in ap ok (sym (is_some-record_of chrono _ (Readable-select chrono d h id))));
    delete-IsHealthy = λ id d _ h. rw (delete-calm chrono id d h) (
        IsIntact-calm chrono _ (without-IsKeyed id d.rows h.keyed)
          (All-without (Readable chrono) id d.rows h.readable));
    view-delete = λ id d _ h j _. rw (delete-calm chrono id d h) (view-without chrono id d j);
    delete_expired-ok = λ now d _ h. (
      length d.rows - length (without_expired (chrono.to_rfc3339 now) d.rows),
      rw (delete_expired-calm chrono now d h) refl,
    );
    delete_expired-IsHealthy = λ now d _ h. rw (delete_expired-calm chrono now d h) (
        IsIntact-calm chrono _ (without_expired-IsKeyed _ d.rows h.keyed)
          (All-without_expired (Readable chrono) _ d.rows h.readable));
    view-delete_expired = λ now d c h j _. rw (delete_expired-calm chrono now d h) (
        unfold view in
        rw (select-without_expired (chrono.to_rfc3339 now) j d.rows h.keyed)
          (record_of-surviving chrono now _ c (Readable-select chrono d h j)));
  }

  -- What the contract's predicates come to.
  pub IsHealthy-of_intact : (d : Database) → IsIntact chrono d → sqlite_contract.IsHealthy d
  unfolding sqlite_contract
  IsHealthy-of_intact d h = h

  pub accepted_of : (r : StoredRecord) → Fits chrono r → sqlite_contract.IsAccepted r
  unfolding sqlite_contract
  accepted_of r h = h

  pub clock_of : (now : Instant) → now < year_10000 → sqlite_contract.IsClock now
  unfolding sqlite_contract
  clock_of now h = h

  pub view_of :
      (d : Database) (id : Bytes) → sqlite_contract.view d id ≡ record_of chrono (select id d.rows)
  unfolding sqlite_contract view
  view_of d id = refl

  pub view-empty : (id : Bytes) → sqlite_contract.view (calm []) id ≡ none
  unfolding sqlite_contract view record_of read_row select
  view-empty id = refl

  -- On an intact table whose expiries, like that of the record, are before the year 10000, and with
  -- a clock that is too: an insert answers and replaces the record of its id alone; a fetch answers
  -- what the table holds and changes no record; a delete answers whether there was a record and
  -- removes it alone; a sweep removes the records that have expired and no other, and answers by
  -- how many rows the table has shrunk.
  pub sqlite_refines :
      (id j : Bytes) (r : StoredRecord) (now : Instant) (d : Database)
      → Fits chrono r
      → now < year_10000
      → IsIntact chrono d
      → ((((table chrono).insert id r d).0 ≡ ok tt)
          × (view chrono ((table chrono).insert id r d).1 j
              ≡ (if bytes_eq id j then some r else view chrono d j)))
        × ((((table chrono).fetch id d).0 ≡ ok_or not_found (view chrono d id))
            × (view chrono ((table chrono).fetch id d).1 j ≡ view chrono d j))
        × ((((table chrono).delete id d).0 ≡ ok (is_some (view chrono d id)))
            × (view chrono ((table chrono).delete id d).1 j
                ≡ (if bytes_eq id j then none else view chrono d j)))
        × ((((table chrono).delete_expired now d).0
              ≡ ok (length d.rows - length ((table chrono).delete_expired now d).1.rows))
            × (view chrono ((table chrono).delete_expired now d).1 j ≡ swept now (view chrono d j)))
  unfolding view
  sqlite_refines id j r now d f c h = (
    (rw (insert-calm chrono id r d h) refl, view-insert chrono id r d f h j),
    (
      rw (fetch-calm chrono id d h) (
          read_row-record_of chrono (select id d.rows) (calm d.rows)
            (Readable-select chrono d h id)),
      rw (fetch-calm chrono id d h) refl,
    ),
    (
      rw (delete-calm chrono id d h)
          (ap ok (sym (is_some-record_of chrono _ (Readable-select chrono d h id)))),
      rw (delete-calm chrono id d h) (view-without chrono id d j),
    ),
    (
      rw (delete_expired-calm chrono now d h) refl,
      rw
          (
            delete_expired-calm chrono now d h,
            select-without_expired (chrono.to_rfc3339 now) j d.rows h.keyed,
          )
          (record_of-surviving chrono now _ c (Readable-select chrono d h j)),
    ),
  )
