-- ===== src/Storage/LocalFile.antt =====
-- src/storage/local_file.rs. `Disk` is what the store finds at its path. The two locks let one
-- operation at a time at the file, in this process and among processes; so an operation is one step
-- here, and Vault/Tasks/Locked.antt has the steps inside it.
pub mod Laws
pub mod Holding
pub mod Refines
pub mod UnderLock
pub mod Atomicity
pub mod Creation
pub mod Locking
use Prim.Native.String.{String}
use tari_vault.Base.{
  ℕ, ◌-◌, Bytes, ◌≡◌, Bool, Option, none, some, [], ◌∷◌, Result, ok, err, panic, map_err, ok_or,
  Exec, pure, lift, ◌>>=◌, ◌>>◌, if◌then◌else◌, ltb, length,
}
use tari_vault.Error.{StorageError, io, json, not_found}
use tari_vault.Domain.Base64.{Base64}
use tari_vault.Domain.Chrono.{Instant, Chrono}
use tari_vault.Domain.Record.{StoredRecord}
use tari_vault.Domain.Record.Document.{Document, serialize, deserialize}
use tari_vault.Storage.BTreeMap
use tari_vault.Storage.BTreeMap.{BTreeMap}
use tari_vault.Storage.Backend.{StorageBackend, unexpired, is_some}
use tari_vault.Storage.Faults.{Faults, outcome, later}

-- `serde_json` on a map of objects: the text and what is read back from it.
pub record DocumentJson : Type 0 where
  pub to_vec_pretty : BTreeMap Document → Result String Bytes
  pub from_slice : Bytes → Result String (BTreeMap Document)
  pub to_vec_pretty-ok :
      (m : BTreeMap Document) → (b : Bytes) × (to_vec_pretty m ≡ ok b) × (from_slice b ≡ ok m)

-- `Uuid::from_bytes(id).hyphenated().to_string()`: no two ids have one text.
pub record Hyphenated : Type 0 where
  pub text : Bytes → Bytes
  pub text-injective : (a b : Bytes) → text a ≡ text b → a ≡ b

pub record Host : Type 0 where
  pub standard : Base64
  pub chrono : Chrono
  pub document_json : DocumentJson
  pub hyphenated : Hyphenated

-- The file at `vault_path`, its permission bits, and the outcomes of the calls to come. The path has
-- a parent directory unless it is a root or empty.
pub record Disk : Type 0 where
  pub contents : Option Bytes
  pub mode : ℕ
  pub has_parent : Bool
  pub faults : Faults

abbrev pub owner_only : ℕ
owner_only = 0o600

abbrev Op : Type 0 → Type 0
Op A = Exec Disk StorageError A

answer : Option String → Result StorageError (Unit {0})
answer none = ok tt
answer (some e) = err (io e)

-- One call of the operating system.
syscall : Op (Unit {0})
unfolding answer
syscall d = (answer (outcome d.faults), record d { faults = later d.faults })

-- The closure may never run; a panic in it is an error of the task.
pub joined {ℓ} : {A : Type ℓ} → Result StorageError A → Result StorageError A
joined (ok a) = ok a
joined (err e) = err e
joined panic = err (io "task panicked")

caught : {A : Type 0} → Op A → Op A
unfolding joined
caught m d = (joined (m d).0, (m d).1)

spawn_blocking : {A : Type 0} → Op A → Op A
unfolding syscall caught
spawn_blocking m = do syscall; caught m

-- Opens the `.lock` file beside the vault file, then takes the exclusive lock.
lock_file : Op (Unit {0})
unfolding syscall
lock_file = do syscall; syscall

read_contents : Option Bytes → Result StorageError Bytes
read_contents none = err (io "No such file or directory")
read_contents (some b) = ok b

file_contents : Op Bytes
unfolding read_contents
file_contents d = (read_contents d.contents, d)

persist : Bytes → Op (Unit {0})
unfolding syscall
persist b = do syscall; λ d. (ok tt, record d { contents = some b; mode = owner_only })

set_permissions : ℕ → Op (Unit {0})
unfolding syscall
set_permissions perms = do syscall; λ d. (ok tt, record d { mode = perms })

module _ (host : Host) where
  abbrev pub document_json : DocumentJson
  document_json = host.document_json

  abbrev pub key : Bytes → Bytes
  key id = host.hyphenated.text id

  unfoldable pub documents : BTreeMap StoredRecord → BTreeMap Document
  documents [] = []
  documents ((k, r) ∷ m) = (k, serialize host.standard host.chrono r) ∷ documents m

  add_entry :
      Bytes
      → Result String StoredRecord
      → Result String (BTreeMap StoredRecord)
      → Result String (BTreeMap StoredRecord)
  add_entry k (ok r) (ok m) = ok ((k, r) ∷ m)
  add_entry k (ok r) (err e) = err e
  add_entry k (ok r) panic = panic
  add_entry k (err e) rest = err e
  add_entry k panic rest = panic

  unfoldable pub records : BTreeMap Document → Result String (BTreeMap StoredRecord)
  unfolding add_entry
  records [] = ok []
  records ((k, d) ∷ m) = add_entry k (deserialize host.standard host.chrono d) (records m)

  typed : Result String (BTreeMap Document) → Result String (BTreeMap StoredRecord)
  unfolding records
  typed (ok m) = records m
  typed (err e) = err e
  typed panic = panic

  -- `serde_json::from_slice` at the type `DiskState`
  unfoldable pub parse_state : Bytes → Result StorageError (BTreeMap StoredRecord)
  unfolding typed
  parse_state b = map_err json (typed (document_json.from_slice b))

  unfoldable pub read_state : Op (BTreeMap StoredRecord)
  unfolding syscall file_contents
  read_state = do syscall; content ← file_contents; lift (parse_state content)

  unfoldable pub print_state : BTreeMap StoredRecord → Result StorageError Bytes
  unfolding documents
  print_state m = map_err json (document_json.to_vec_pretty (documents m))

  parent_of : Op (Unit {0})
  parent_of d = if d.has_parent then (ok tt, d) else (err (io "vault path has no parent"), d)

  -- A temporary file beside the vault file takes the bytes, and `persist` renames it. A temporary
  -- file that is not persisted is removed.
  unfoldable pub write_atomic : BTreeMap StoredRecord → Op (Unit {0})
  unfolding parent_of syscall persist set_permissions
  write_atomic m = do
    parent_of
    syscall
    bytes ← lift (print_state m)
    syscall
    syscall
    persist bytes
    set_permissions owner_only

  unfoldable pub create : Op (Unit {0})
  unfolding syscall
  create d =
      (do
        if d.has_parent then syscall else pure tt
        if is_some d.contents then pure tt else write_atomic [])
        d

  unfoldable pub insert : Bytes → StoredRecord → Op (Unit {0})
  unfolding spawn_blocking lock_file read_state
  insert record_id r =
      spawn_blocking
        do lock_file; state ← read_state; write_atomic (BTreeMap.insert (key record_id) r state)

  unfoldable pub fetch : Bytes → Op StoredRecord
  unfolding spawn_blocking lock_file read_state
  fetch record_id =
      spawn_blocking do
        lock_file
        state ← read_state
        lift (ok_or not_found (BTreeMap.get (key record_id) state))

  unfoldable pub delete : Bytes → Op Bool
  unfolding spawn_blocking lock_file read_state
  delete record_id = spawn_blocking do
    lock_file
    state ← read_state
    let existed = is_some (BTreeMap.get (key record_id) state)
    if existed then write_atomic (BTreeMap.remove (key record_id) state) else pure tt
    pure existed

  unfoldable pub delete_expired : Instant → Op ℕ
  unfolding spawn_blocking lock_file read_state
  delete_expired now = spawn_blocking do
    lock_file
    state ← read_state
    let after = BTreeMap.retain (unexpired now) state
    let removed = length state - length after
    if ltb 0 removed then write_atomic after else pure tt
    pure removed

  abbrev pub local_file : StorageBackend Disk
  local_file = record {
    insert = insert;
    fetch = fetch;
    delete = delete;
    delete_expired = delete_expired;
  }
