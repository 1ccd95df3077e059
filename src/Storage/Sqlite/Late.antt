-- ===== src/Storage/Sqlite/Late.antt =====
-- The sweep of src/storage/sqlite.rs on dates past the year 9999, whose texts start with a sign.
use tari_vault.Base.{
  bytes_eq_refl, ok, Result, ◌≤◌, ◌<◌, Bytes, ◌≡◌, refl, true, some, none, [], err, List, arith,
}
use Prim.Native.String.{String}
use tari_vault.Error.{StorageError, io, not_found}
use tari_vault.Domain.Chrono.{Instant, Chrono, year_10000}
use tari_vault.Domain.Record.{StoredRecord}
use tari_vault.Storage.Backend.{unexpired}
use tari_vault.Storage.Sqlite.{
  Database, joined, parse_datetime, parse_optional, date_text, invalid_datetime, Row, without,
  without_expired, select, row_of, insert_or_replace, insert, fetch, delete_expired, expired_by,
  read_row,
}
use tari_vault.Storage.Sqlite.Laws.{without-Differs, All-without_expired, select-Differs, Differs}

module _ (chrono : Chrono) where
  swept_away :
      (id : Bytes) (r : StoredRecord) (t now : Instant) (rows : List Row)
      → r.expires_at ≡ some t
      → year_10000 ≤ t
      → t ≤ chrono.latest
      → now < year_10000
      → select id
          (without_expired (chrono.to_rfc3339 now) (insert_or_replace (row_of chrono id r) rows))
        ≡ none
  unfolding without_expired insert_or_replace row_of expired_by
  swept_away id r t now rows e late fits c =
      rw (e, chrono.to_rfc3339_late t now late fits c)
        (select-Differs id _ (
          All-without_expired (Differs id) (chrono.to_rfc3339 now) (without id rows)
            (without-Differs id rows)))

  select-late :
      (id : Bytes) (r : StoredRecord) (rows : List Row)
      → select id (insert_or_replace (row_of chrono id r) rows) ≡ some (row_of chrono id r)
  unfolding select insert_or_replace row_of
  select-late id r rows = rw bytes_eq_refl refl

  read_row-late :
      (id : Bytes) (r : StoredRecord) (t : Instant) (d : Database)
      → r.expires_at ≡ some t
      → year_10000 ≤ t
      → t ≤ chrono.latest
      → r.stored_at ≤ chrono.latest
      → r.stored_at < year_10000
      → (e : String) × ((read_row chrono (some (row_of chrono id r)) d).0 ≡ err (io e))
  unfolding read_row row_of parse_datetime parse_optional date_text invalid_datetime
  read_row-late id r t d e late fits past early =
      let (x, refused) = chrono.parse-to_rfc3339_late t late fits in
      rw (chrono.parse-to_rfc3339 r.stored_at past early, e, refused) (_, refl)

  joined-io :
      {A : Type 0} (r : Result StorageError A)
      → ((e : String) × (r ≡ err (io e)))
      → (e : String) × (joined r ≡ err (io e))
  unfolding joined
  joined-io r (e, h) = rw h (e, refl)

  -- When no call fails: a record whose expiry is past the year 9999, and within the range of `chrono`,
  -- is inserted with success and has not expired in any year up to 9999; but no fetch finds it: before a
  -- sweep the fetch fails with an error of I/O, since the text of the expiry cannot be read back, and
  -- after one in those years the record is gone.
  pub late_expiry_lost :
      (id : Bytes) (r : StoredRecord) (t now : Instant) (rows : List Row)
      → r.expires_at ≡ some t
      → year_10000 ≤ t
      → t ≤ chrono.latest
      → r.stored_at ≤ chrono.latest
      → r.stored_at < year_10000
      → now < year_10000
      → let stored = insert chrono id r (record { rows = rows; faults = [] }) in
        let swept = (delete_expired chrono now stored.1).1 in
        (stored.0 ≡ ok tt)
        × (unexpired now r ≡ true)
        × ((e : String) × ((fetch chrono id stored.1).0 ≡ err (io e)))
        × ((fetch chrono id swept).0 ≡ err not_found)
  unfolding insert delete_expired fetch
  late_expiry_lost id r t now rows e late fits past early c = (
    refl,
    rw e (ground arith),
    joined-io _ (
        rw select-late (
          read_row-late id r t
            (record { rows = insert_or_replace (row_of chrono id r) rows; faults = [] }) e late fits
            past early)),
    rw (swept_away id r t now rows e late fits c) (unfold read_row in refl),
  )
