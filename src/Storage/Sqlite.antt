-- ===== src/Storage/Sqlite.antt =====
-- src/storage/sqlite.rs. `Database` is the table `proofs` of the open connection; the mutex lets one
-- operation at a time at it, so an operation is one step. SQLite runs a statement whole or not at all.
pub mod Laws
pub mod Intact
pub mod Refines
pub mod Late
pub mod Atomicity
pub mod Opening
use Prim.Native.String.{String, ◌++◌ as append}
use tari_vault.Base.{
  ℕ, ◌-◌, Bytes, bytes_eq, text_le, Bool, false, Option, none, some, List, [], ◌∷◌, Result, ok, err,
  panic, map_err, Exec, pure, lift, ◌>>=◌, ◌>>◌, if◌then◌else◌, ltb, length,
}
use tari_vault.Error.{StorageError, io, not_found}
use tari_vault.Domain.Chrono.{Instant, Chrono}
use tari_vault.Domain.Record.{StoredRecord}
use tari_vault.Storage.Backend.{StorageBackend}
use tari_vault.Storage.Faults.{Faults, outcome, later}

-- A row of `proofs`; the two dates are TEXT, and `expires_at` may be NULL.
pub record Row : Type 0 where
  pub record_id : Bytes
  pub nonce : Bytes
  pub ciphertext : Bytes
  pub stored_at : Bytes
  pub expires_at : Option Bytes

pub record Database : Type 0 where
  pub rows : List Row
  pub faults : Faults

abbrev Op : Type 0 → Type 0
Op A = Exec Database StorageError A

-- `db_error`, `mutex_error` and `join_error` make an `Io` of the text.
answer : Option String → Result StorageError (Unit {0})
answer none = ok tt
answer (some e) = err (io e)

call : Op (Unit {0})
unfolding answer
call d = (answer (outcome d.faults), record d { faults = later d.faults })

pub joined : {A : Type 0} → Result StorageError A → Result StorageError A
joined (ok a) = ok a
joined (err e) = err e
joined panic = err (io "task panicked")

-- The closure may never run; a panic in it is an error of the task.
spawn_blocking : {A : Type 0} → Op A → Op A
unfolding call joined
spawn_blocking m = do call; λ d. (joined (m d).0, (m d).1)

-- The statements. A primary key: no two rows have one `record_id`.
unfoldable pub without : Bytes → List Row → List Row
without id [] = []
without id (row ∷ rows) =
    let rest = without id rows in if bytes_eq row.record_id id then rest else row ∷ rest

unfoldable pub insert_or_replace : Row → List Row → List Row
unfolding without
insert_or_replace row rows = row ∷ without row.record_id rows

unfoldable pub select : Bytes → List Row → Option Row
select id [] = none
select id (row ∷ rows) = if bytes_eq row.record_id id then some row else select id rows

-- `expires_at IS NOT NULL AND expires_at <= ?1`, a comparison of texts
unfoldable pub expired_by : Bytes → Option Bytes → Bool
expired_by now none = false
expired_by now (some t) = text_le t now

unfoldable pub without_expired : Bytes → List Row → List Row
unfolding expired_by
without_expired now [] = []
without_expired now (row ∷ rows) =
    let rest = without_expired now rows in
    if expired_by now row.expires_at then rest else row ∷ rest

-- `conn.execute`: the number of rows that the statement changed
delete_where : (List Row → List Row) → Op ℕ
unfolding call
delete_where f = do
  call
  λ d. (ok (length d.rows - length (f d.rows)), record d { rows = f d.rows })

module _ (chrono : Chrono) where
  unfoldable pub date_text : Option Instant → Option Bytes
  date_text none = none
  date_text (some t) = some (chrono.to_rfc3339 t)

  unfoldable pub row_of : Bytes → StoredRecord → Row
  unfolding date_text
  row_of record_id r = record {
    record_id = record_id;
    nonce = r.nonce;
    ciphertext = r.ciphertext;
    stored_at = chrono.to_rfc3339 r.stored_at;
    expires_at = date_text r.expires_at;
  }

  -- The text that is quoted in the message is left out.
  invalid_datetime : String → StorageError
  invalid_datetime e = io (append "invalid datetime: " e)

  unfoldable pub parse_datetime : Bytes → Result StorageError Instant
  unfolding invalid_datetime
  parse_datetime s = map_err invalid_datetime (chrono.parse_from_rfc3339 s)

  unfoldable pub parse_optional : Option Bytes → Op (Option Instant)
  unfolding parse_datetime
  parse_optional none = pure none
  parse_optional (some s) = do t ← lift (parse_datetime s); pure (some t)

  unfoldable pub read_row : Option Row → Op StoredRecord
  unfolding parse_datetime parse_optional
  read_row none = lift (err not_found)
  read_row (some row) = do
    stored_at ← lift (parse_datetime row.stored_at)
    expires_at ← parse_optional row.expires_at
    pure (record {
      encrypted = record { nonce = row.nonce; ciphertext = row.ciphertext };
      stored_at = stored_at;
      expires_at = expires_at;
    })

  -- Each closure locks the connection and runs one statement.
  unfoldable pub insert : Bytes → StoredRecord → Op (Unit {0})
  unfolding spawn_blocking call row_of insert_or_replace
  insert record_id r =
      spawn_blocking do
        call
        call
        λ d. (ok tt, record d { rows = insert_or_replace (row_of record_id r) d.rows })

  unfoldable pub fetch : Bytes → Op StoredRecord
  unfolding spawn_blocking call
  fetch record_id = spawn_blocking do call; call; call; λ d. read_row (select record_id d.rows) d

  unfoldable pub delete : Bytes → Op Bool
  unfolding spawn_blocking call delete_where
  delete record_id =
      spawn_blocking do call; count ← delete_where (without record_id); pure (ltb 0 count)

  unfoldable pub delete_expired : Instant → Op ℕ
  unfolding spawn_blocking call delete_where
  delete_expired now =
      spawn_blocking do call; delete_where (without_expired (chrono.to_rfc3339 now))

  abbrev pub sqlite : StorageBackend Database
  sqlite = record {
    insert = insert;
    fetch = fetch;
    delete = delete;
    delete_expired = delete_expired;
  }
