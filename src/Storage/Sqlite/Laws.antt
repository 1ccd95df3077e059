-- ===== src/Storage/Sqlite/Laws.antt =====
-- The statements on the rows of the table, and the rows that the store writes.
use tari_vault.Base.{
  ◌-◌, ◌≤◌, ◌<◌, Bytes, bytes_eq, bytes_eq_iff, ◌≡◌, refl, subst, false, Option, none, some, List,
  [], ◌∷◌, Result, ok, err, panic, if◌then◌else◌, ltb, length, arith, All, Bool-cases, inl, inr,
}
use tari_vault.Error.{StorageError}
use tari_vault.Domain.Chrono.{Instant, Chrono, year_10000}
use tari_vault.Domain.Record.{StoredRecord}
use tari_vault.Storage.Backend.{is_some}
use tari_vault.Storage.Sqlite.{
  Row, Database, without, select, without_expired, expired_by, row_of, read_row, date_text,
  parse_datetime, parse_optional,
}

-- No two rows have one id: the primary key.
abbrev pub Differs : Bytes → Row → Type 0
Differs id row = bytes_eq row.record_id id ≡ false

abbrev pub IsKeyed : List Row → Type 0
IsKeyed [] = Unit
IsKeyed (row ∷ rows) = All (Differs row.record_id) rows × IsKeyed rows

pub select-without :
    (id j : Bytes) (rows : List Row)
    → select j (without id rows) ≡ (if bytes_eq id j then none else select j rows)
unfolding select without
select-without id j [] = ground arith
select-without id j (row ∷ rows) = ground (
  arith,
  bytes_eq_iff row.record_id id,
  bytes_eq_iff row.record_id j,
  bytes_eq_iff id j,
  select-without id j rows,
)

pub select-Differs : (id : Bytes) (rows : List Row) → All (Differs id) rows → select id rows ≡ none
unfolding select
select-Differs id [] h = refl
select-Differs id (row ∷ rows) h = ground (arith, select-Differs id rows h.1)

pub without-Differs : (id : Bytes) (rows : List Row) → All (Differs id) (without id rows)
unfolding without
without-Differs id [] = tt
without-Differs id (row ∷ rows) = elim (Bool-cases (bytes_eq row.record_id id)) [
  | inl same ↦ rw same (without-Differs id rows)
  | inr other ↦ rw other (other, without-Differs id rows)
]

module _ {κ} (P : Row → Type κ) where
  pub All-without : (id : Bytes) (rows : List Row) → All P rows → All P (without id rows)
  unfolding without
  All-without id [] h = tt
  All-without id (row ∷ rows) h = elim (Bool-cases (bytes_eq row.record_id id)) [
    | inl same ↦ rw same (All-without id rows h.1)
    | inr other ↦ rw other (h.0, All-without id rows h.1)
  ]

  pub All-without_expired :
      (now : Bytes) (rows : List Row) → All P rows → All P (without_expired now rows)
  unfolding without_expired
  All-without_expired now [] h = tt
  All-without_expired now (row ∷ rows) h = elim (Bool-cases (expired_by now row.expires_at)) [
    | inl gone ↦ rw gone (All-without_expired now rows h.1)
    | inr kept ↦ rw kept (h.0, All-without_expired now rows h.1)
  ]

pub without-IsKeyed : (id : Bytes) (rows : List Row) → IsKeyed rows → IsKeyed (without id rows)
unfolding without
without-IsKeyed id [] h = tt
without-IsKeyed id (row ∷ rows) h = elim (Bool-cases (bytes_eq row.record_id id)) [
  | inl same ↦ rw same (without-IsKeyed id rows h.1)
  | inr other ↦
      rw other (All-without (Differs row.record_id) id rows h.0, without-IsKeyed id rows h.1)
]

pub without_expired-IsKeyed :
    (now : Bytes) (rows : List Row) → IsKeyed rows → IsKeyed (without_expired now rows)
unfolding without_expired
without_expired-IsKeyed now [] h = tt
without_expired-IsKeyed now (row ∷ rows) h = elim (Bool-cases (expired_by now row.expires_at)) [
  | inl gone ↦ rw gone (without_expired-IsKeyed now rows h.1)
  | inr kept ↦ rw kept (
    All-without_expired (Differs row.record_id) now rows h.0,
    without_expired-IsKeyed now rows h.1,
  )
]

-- How many rows a delete by id removes.
length-without : (id : Bytes) (rows : List Row) → length (without id rows) ≤ length rows
unfolding without
length-without id [] = omega arith
length-without id (row ∷ rows) = ground (arith, length-without id rows)

pub count-without :
    (id : Bytes) (rows : List Row)
    → ltb 0 (length rows - length (without id rows)) ≡ is_some (select id rows)
unfolding without select
count-without id [] = ground arith
count-without id (row ∷ rows) = ground (arith, count-without id rows, length-without id rows)

unfoldable pub surviving : Bytes → Option Row → Option Row
surviving now none = none
surviving now (some row) = if expired_by now row.expires_at then none else some row

pub select-without_expired :
    (now j : Bytes) (rows : List Row)
    → IsKeyed rows
    → select j (without_expired now rows) ≡ surviving now (select j rows)
unfolding select without_expired surviving
select-without_expired now j [] h = refl
select-without_expired now j (row ∷ rows) h = ground (
  arith,
  bytes_eq_iff row.record_id j,
  select-Differs row.record_id rows h.0,
  select-without_expired now j rows h.1,
)

pub select-All {κ} :
    (P : Row → Type κ) (id : Bytes) (rows : List Row) (row : Row)
    → All P rows
    → select id rows ≡ some row
    → P row
unfolding select
select-All P id [] row h e = absurd (ground arith)
select-All P id (r ∷ rows) row h e = elim (Bool-cases (bytes_eq r.record_id id)) [
  | inl same ↦ let this_row : r ≡ row = cc (rw same at e) in subst P this_row h.0
  | inr other ↦ select-All P id rows row h.1 (rw other at e)
]

abbrev pub to_option : {A : Type 0} → Result StorageError A → Option A
to_option (ok a) = some a
to_option (err e) = none
to_option panic = none

module _ (chrono : Chrono) where
  abbrev pub ExpiryFits : Option Instant → Type 0
  ExpiryFits none = Unit
  ExpiryFits (some t) = (t ≤ chrono.latest) × (t < year_10000)

  -- The dates are ones that `chrono` has, of years up to 9999.
  pub record Fits (r : StoredRecord) : Type 0 where
    pub stored_fits : (r.stored_at ≤ chrono.latest) × (r.stored_at < year_10000)
    pub expiry_fits : ExpiryFits r.expires_at

  abbrev pub Readable : Row → Type 0
  Readable row = (r : StoredRecord) × (row ≡ row_of chrono row.record_id r) × Fits r

  parse_optional_lem :
      (o : Option Instant) (d : Database)
      → ExpiryFits o
      → parse_optional chrono (date_text chrono o) d ≡ (ok o, d)
  unfolding parse_optional parse_datetime date_text
  parse_optional_lem none d h = refl
  parse_optional_lem (some t) d h = rw (chrono.parse-to_rfc3339 t h.0 h.1)

  pub read_row-row_of :
      (id : Bytes) (r : StoredRecord) (d : Database)
      → Fits r
      → read_row chrono (some (row_of chrono id r)) d ≡ (ok r, d)
  unfolding read_row row_of parse_datetime
  read_row-row_of id r d h = rw (
    chrono.parse-to_rfc3339 r.stored_at h.stored_fits.0 h.stored_fits.1,
    parse_optional_lem r.expires_at d h.expiry_fits,
  )

  pub state-read_row : (o : Option Row) (d : Database) → (read_row chrono o d).1 ≡ d
  unfolding read_row
  state-read_row none d = refl
  state-read_row (some row) d = ground arith
