-- ===== src/Storage/Sqlite/Intact.antt =====
-- src/storage/sqlite.rs while no call fails: the tables that hold what the store wrote, and what
-- the operations do to them.
use tari_vault.Base.{
  ◌-◌, ◌<◌, Bytes, bytes_eq, ◌≡◌, refl, ◌∙◌, ap, not, Option, none, some, List, [], ◌∷◌, ok, ok_or,
  if◌then◌else◌, length, arith, All, Bool-cases, inl, inr,
}
use tari_vault.Error.{not_found}
use tari_vault.Domain.Chrono.{Instant, Chrono, year_10000}
use tari_vault.Domain.Record.{StoredRecord}
use tari_vault.Storage.Backend.{StorageBackend, future, is_some, swept}
use tari_vault.Storage.Sqlite.{
  Row, Database, without, select, without_expired, expired_by, row_of, read_row, date_text, insert,
  fetch, delete, delete_expired, sqlite, insert_or_replace, joined,
}
use tari_vault.Storage.Sqlite.Laws.{
  Differs, IsKeyed, select-without, without-Differs, without-IsKeyed, All-without, count-without,
  select-All, surviving, to_option, ExpiryFits, Readable, Fits, read_row-row_of, state-read_row,
}

abbrev pub calm : List Row → Database
calm rows = record { rows = rows; faults = [] }

module _ (chrono : Chrono) where
  abbrev pub table : StorageBackend Database
  table = sqlite chrono

  -- No call is going to fail, the ids are distinct, and every row is one that the store wrote.
  pub record IsIntact (d : Database) : Type 0 where
    pub same : d ≡ calm d.rows
    pub keyed : IsKeyed d.rows
    pub readable : All (Readable chrono) d.rows

  unfoldable pub record_of : Option Row → Option StoredRecord
  record_of o = to_option (read_row chrono o (calm [])).0

  unfoldable pub view : Database → Bytes → Option StoredRecord
  view d id = record_of (select id d.rows)

  pub IsIntact-calm :
      (rows : List Row) → IsKeyed rows → All (Readable chrono) rows → IsIntact (calm rows)
  IsIntact-calm rows k r = record { same = refl; keyed = k; readable = r }

  record_of-row_of :
      (id : Bytes) (r : StoredRecord)
      → Fits chrono r
      → record_of (some (row_of chrono id r)) ≡ some r
  unfolding record_of
  record_of-row_of id r h = rw (read_row-row_of chrono id r (calm []) h)

  pub insert-calm :
      (id : Bytes) (r : StoredRecord) (d : Database)
      → IsIntact d
      → table.insert id r d ≡ (ok tt, calm (row_of chrono id r ∷ without id d.rows))
  unfolding insert insert_or_replace row_of
  insert-calm id r d h = rw h.same

  pub fetch-calm :
      (id : Bytes) (d : Database)
      → IsIntact d
      → table.fetch id d
        ≡ (joined (read_row chrono (select id d.rows) (calm d.rows)).0, calm d.rows)
  unfolding fetch
  fetch-calm id d h = rw (h.same, state-read_row)

  pub delete-calm :
      (id : Bytes) (d : Database)
      → IsIntact d
      → table.delete id d ≡ (ok (is_some (select id d.rows)), calm (without id d.rows))
  unfolding delete
  delete-calm id d h = rw (h.same, count-without id d.rows)

  pub delete_expired-calm :
      (now : Instant) (d : Database)
      → IsIntact d
      → let after = without_expired (chrono.to_rfc3339 now) d.rows in
        table.delete_expired now d ≡ (ok (length d.rows - length after), calm after)
  unfolding delete_expired
  delete_expired-calm now d h = rw h.same

  pub read_row-record_of :
      (o : Option Row) (d : Database)
      → ((row : Row) → o ≡ some row → Readable chrono row)
      → joined (read_row chrono o d).0 ≡ ok_or not_found (record_of o)
  unfolding joined record_of
  read_row-record_of none d h = unfold read_row in refl
  read_row-record_of (some row) d h =
      let (r, same, fits) = h row refl in
      rw
        (
          same,
          read_row-row_of chrono row.record_id r d fits,
          read_row-row_of chrono row.record_id r (calm []) fits,
        )
        refl

  pub is_some-record_of :
      (o : Option Row)
      → ((row : Row) → o ≡ some row → Readable chrono row)
      → is_some (record_of o) ≡ is_some o
  is_some-record_of none h = unfold record_of read_row in refl
  is_some-record_of (some row) h =
      let (r, same, fits) = h row refl in rw (same, record_of-row_of row.record_id r fits)

  -- Up to the year 9999 the comparison of texts is that of instants.
  expired_by-future :
      (now : Instant) (o : Option Instant)
      → now < year_10000
      → ExpiryFits chrono o
      → expired_by (chrono.to_rfc3339 now) (date_text chrono o) ≡ not (future now o)
  unfolding expired_by date_text
  expired_by-future now none c h = refl
  expired_by-future now (some t) c h = rw (chrono.text_le-to_rfc3339 t now h.1 c) (ground arith)

  pub record_of-surviving :
      (now : Instant) (o : Option Row)
      → now < year_10000
      → ((row : Row) → o ≡ some row → Readable chrono row)
      → record_of (surviving (chrono.to_rfc3339 now) o) ≡ swept now (record_of o)
  unfolding surviving
  record_of-surviving now none c h = unfold record_of read_row in refl
  record_of-surviving now (some row) c h =
      let (r, same, fits) = h row refl in
      let test : expired_by (chrono.to_rfc3339 now) row.expires_at ≡ not (future now r.expires_at) =
        ap (λ (x : Row). expired_by (chrono.to_rfc3339 now) x.expires_at) same
        ∙ unfold row_of in expired_by-future now r.expires_at c fits.expiry_fits in
      let found : record_of (some row) ≡ some r = rw same (record_of-row_of row.record_id r fits) in
      elim (Bool-cases (future now r.expires_at)) [
        | inl stays ↦ rw (test, stays, found, stays) refl
        | inr goes ↦ rw (test, goes, found, goes) (unfold record_of read_row in refl)
      ]

  pub Readable-select :
      (d : Database)
      → IsIntact d
      → (id : Bytes) (row : Row) → select id d.rows ≡ some row
      → Readable chrono row
  Readable-select d h id row e = select-All (Readable chrono) id d.rows row h.readable e

  pub IsIntact-insert :
      (id : Bytes) (r : StoredRecord) (d : Database)
      → Fits chrono r
      → IsIntact d
      → IsIntact (table.insert id r d).1
  unfolding row_of
  IsIntact-insert id r d f h = rw (insert-calm id r d h) (
      IsIntact-calm _ (rows_differ, without-IsKeyed id d.rows h.keyed)
        ((r, refl, f), All-without (Readable chrono) id d.rows h.readable))
    where
      rows_differ : All (Differs (row_of chrono id r).record_id) (without id d.rows)
      rows_differ = without-Differs id d.rows

  select-row_of :
      (id j : Bytes) (r : StoredRecord) (rows : List Row)
      → select j (row_of chrono id r ∷ rows)
        ≡ (if bytes_eq id j then some (row_of chrono id r) else select j rows)
  unfolding select row_of
  select-row_of id j r rows = refl

  pub view-insert :
      (id : Bytes) (r : StoredRecord) (d : Database)
      → Fits chrono r
      → IsIntact d
      → (j : Bytes) → view (table.insert id r d).1 j ≡ (if bytes_eq id j then some r else view d j)
  unfolding view
  view-insert id r d f h j =
      rw (insert-calm id r d h, select-row_of, select-without)
        (elim (Bool-cases (bytes_eq id j)) [
          | inl same ↦ rw same (record_of-row_of id r f)
          | inr other ↦ rw other
        ])

  pub view-without :
      (id : Bytes) (d : Database) (j : Bytes)
      → view (calm (without id d.rows)) j ≡ (if bytes_eq id j then none else view d j)
  unfolding view
  view-without id d j = rw select-without (elim (Bool-cases (bytes_eq id j)) [
    | inl same ↦ rw same (unfold record_of read_row in refl)
    | inr other ↦ rw other
  ])
