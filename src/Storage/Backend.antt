-- ===== src/Storage/Backend.antt =====
-- The trait `StorageBackend` of src/storage/backend.rs, and its contract: a backend that nothing
-- disturbs holds a map from record ids to records. `S` is the state that the operations work on.
pub mod Ask
use tari_vault.Base.{
  ℕ, Bytes, IsArray, bytes_eq, ◌≡◌, Bool, true, false, Option, none, some, Exec, ok, ok_or, ltb,
  if◌then◌else◌,
}
use tari_vault.Error.{StorageError, not_found}
use tari_vault.Domain.Chrono.{Instant}
use tari_vault.Domain.Record.{StoredRecord}

-- `delete_expired` reads the clock: its argument is what `Utc::now()` returns.
pub record StorageBackend (S : Type 0) : Type 0 where
  pub insert : Bytes → StoredRecord → Exec S StorageError (Unit {0})
  pub fetch : Bytes → Exec S StorageError StoredRecord
  pub delete : Bytes → Exec S StorageError Bool
  pub delete_expired : Instant → Exec S StorageError ℕ

abbrev pub future : Instant → Option Instant → Bool
future now none = true
future now (some t) = ltb now t

-- A sweep at `now` leaves these records.
abbrev pub unexpired : Instant → StoredRecord → Bool
unexpired now r = future now r.expires_at

abbrev pub is_some {ℓ} : {A : Type ℓ} → Option A → Bool
is_some none = false
is_some (some a) = true

abbrev pub swept : Instant → Option StoredRecord → Option StoredRecord
swept now none = none
swept now (some r) = if unexpired now r then some r else none

-- `IsHealthy s`: the representation is intact and no call of the environment is going to fail.
-- `IsAccepted` and `IsClock` bound the records and the instants for which the contract is kept.
pub record Contract {S : Type 0} (b : StorageBackend S) : Type 1 where
  pub view : S → Bytes → Option StoredRecord
  pub IsHealthy : S → Type 0
  pub IsAccepted : StoredRecord → Type 0
  pub IsClock : Instant → Type 0
  pub insert-ok :
      (id : Bytes) (r : StoredRecord) (s : S)
      → IsArray 16 id
      → IsAccepted r
      → IsHealthy s
      → (b.insert id r s).0 ≡ ok tt
  pub insert-IsHealthy :
      (id : Bytes) (r : StoredRecord) (s : S)
      → IsArray 16 id
      → IsAccepted r
      → IsHealthy s
      → IsHealthy (b.insert id r s).1
  pub view-insert :
      (id : Bytes) (r : StoredRecord) (s : S)
      → IsArray 16 id
      → IsAccepted r
      → IsHealthy s
      → (j : Bytes) → IsArray 16 j
      → view (b.insert id r s).1 j ≡ (if bytes_eq id j then some r else view s j)
  pub fetch-view :
      (id : Bytes) (s : S)
      → IsArray 16 id
      → IsHealthy s
      → (b.fetch id s).0 ≡ ok_or not_found (view s id)
  pub fetch-IsHealthy : (id : Bytes) (s : S) → IsHealthy s → IsHealthy (b.fetch id s).1
  pub view-fetch :
      (id : Bytes) (s : S) → IsHealthy s → (j : Bytes) → view (b.fetch id s).1 j ≡ view s j
  pub delete-is_some :
      (id : Bytes) (s : S)
      → IsArray 16 id
      → IsHealthy s
      → (b.delete id s).0 ≡ ok (is_some (view s id))
  pub delete-IsHealthy :
      (id : Bytes) (s : S) → IsArray 16 id → IsHealthy s → IsHealthy (b.delete id s).1
  pub view-delete :
      (id : Bytes) (s : S)
      → IsArray 16 id
      → IsHealthy s
      → (j : Bytes) → IsArray 16 j
      → view (b.delete id s).1 j ≡ (if bytes_eq id j then none else view s j)
  pub delete_expired-ok :
      (now : Instant) (s : S)
      → IsClock now
      → IsHealthy s
      → (n : ℕ) × ((b.delete_expired now s).0 ≡ ok n)
  pub delete_expired-IsHealthy :
      (now : Instant) (s : S) → IsClock now → IsHealthy s → IsHealthy (b.delete_expired now s).1
  pub view-delete_expired :
      (now : Instant) (s : S)
      → IsClock now
      → IsHealthy s
      → (j : Bytes) → IsArray 16 j
      → view (b.delete_expired now s).1 j ≡ swept now (view s j)
