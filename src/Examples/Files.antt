-- ===== src/Examples/Files.antt =====
-- A text format for the state of the file store, and the file store at concrete inputs. A number is
-- written one higher, so that a zero ends a field; a record has five fields.
use Prim.Native.String.{String}
use tari_vault.Base.{
  ℕ, zero, suc, ◌-◌, Bytes, true, Option, none, some, List, [], ◌∷◌, ◌≡◌, ◌≢◌, refl, ap, Result, ok,
  err, ok_or, length, arith, ◌⊎◌,
}
use tari_vault.Error.{not_found}
use tari_vault.Domain.Record.{StoredRecord}
use tari_vault.Domain.Record.Document.{
  Document, IsStorable, serialize, deserialize, deserialize-serialize,
}
use tari_vault.Storage.BTreeMap
use tari_vault.Storage.BTreeMap.{BTreeMap}
use tari_vault.Storage.Backend.{unexpired, is_some}
use tari_vault.Storage.LocalFile.{Host, Disk, key, create, insert, fetch, delete}
use tari_vault.Storage.LocalFile.Laws.{intact, image, parse_state-image}
use tari_vault.Storage.LocalFile.Holding.{Holds, file}
use tari_vault.Storage.LocalFile.Refines.{local_file_refines}
use tari_vault.Storage.LocalFile.UnderLock.{Updated}
use tari_vault.Storage.LocalFile.Atomicity.{delete_atomic}
use tari_vault.Storage.LocalFile.Creation.{vacant, checking, opened, open_turn, racing_create_loses}
use tari_vault.Examples.Toy.{engine, calendar}
use tari_vault.Examples.Shop.{uuid, kept}

abbrev field : Bytes → Bytes → Bytes
field [] rest = 0 ∷ rest
field (b ∷ bs) rest = suc b ∷ field bs rest

abbrev pushed : ℕ → List Bytes → List Bytes
pushed b [] = (b ∷ []) ∷ []
pushed b (f ∷ fs) = (b ∷ f) ∷ fs

abbrev fields : Bytes → List Bytes
fields [] = []
fields (zero ∷ rest) = [] ∷ fields rest
fields (suc b ∷ rest) = pushed b (fields rest)

abbrev optional : Option Bytes → Bytes
optional none = []
optional (some s) = 0 ∷ s

abbrev read_optional : Bytes → Option Bytes
read_optional [] = none
read_optional (b ∷ s) = some s

abbrev write_map : BTreeMap Document → Bytes
write_map [] = []
write_map ((k, d) ∷ m) = field k (
    field d.nonce
      (field d.ciphertext (field d.stored_at (field (optional d.expires_at) (write_map m)))))

abbrev with_entry :
    Bytes × Document → Result String (BTreeMap Document) → Result String (BTreeMap Document)
with_entry e (ok m) = ok (e ∷ m)
with_entry e (err x) = err x
with_entry e Result.panic = Result.panic

abbrev grouped : List Bytes → Result String (BTreeMap Document)
grouped [] = ok []
grouped (k ∷ n ∷ c ∷ s ∷ e ∷ rest) =
    with_entry
      (k, record { nonce = n; ciphertext = c; stored_at = s; expires_at = read_optional e })
      (grouped rest)
grouped _ = err "missing field"

fields-field : (f rest : Bytes) → fields (field f rest) ≡ f ∷ fields rest
fields-field [] rest = refl
fields-field (b ∷ f) rest = ap (pushed b) (fields-field f rest)

read_optional_lem : (o : Option Bytes) → read_optional (optional o) ≡ o
read_optional_lem none = refl
read_optional_lem (some s) = refl

pub grouped-write_map : (m : BTreeMap Document) → grouped (fields (write_map m)) ≡ ok m
grouped-write_map [] = refl
grouped-write_map ((k, d) ∷ m) =
    rw
      (
        fields-field k,
        fields-field d.nonce,
        fields-field d.ciphertext,
        fields-field d.stored_at,
        fields-field (optional d.expires_at),
        grouped-write_map m,
        read_optional_lem d.expires_at,
      )
      refl

abbrev pub host : Host
host = record {
  standard = engine;
  chrono = calendar;
  document_json = record {
    to_vec_pretty = λ m. ok (write_map m);
    from_slice = λ b. grouped (fields b);
    to_vec_pretty-ok = λ m. (write_map m, refl, grouped-write_map m);
  };
  hyphenated = record { text = λ b. b; text-injective = λ a b h. h };
}

pub kept-IsStorable : IsStorable engine calendar kept
kept-IsStorable = record {
  nonce_bytes = ground arith;
  ciphertext_bytes = ground arith;
  stored_fits = ground arith;
  expiry_fits = ground arith;
}

deserialize-serialize_example :
    deserialize engine calendar (serialize engine calendar kept) ≡ ok kept
deserialize-serialize_example = deserialize-serialize engine calendar kept kept-IsStorable

abbrev one : BTreeMap StoredRecord
one = (uuid, kept) ∷ []

abbrev pub disk : Disk
disk = intact (image host one) 0o600

disk-Holds : Holds host disk one
disk-Holds = record {
  bytes = image host one;
  mode = 0o600;
  same = refl;
  parsed = parse_state-image host one (kept-IsStorable, tt);
  sorted = (tt, tt);
  storable = (kept-IsStorable, tt);
}

local_file_refines_example :
    ((((file host).insert uuid kept disk).0 ≡ ok tt)
      × Holds host ((file host).insert uuid kept disk).1 (BTreeMap.insert (key host uuid) kept one))
    × ((file host).fetch uuid disk ≡ (ok_or not_found (BTreeMap.get (key host uuid) one), disk))
    × ((((file host).delete uuid disk).0 ≡ ok (is_some (BTreeMap.get (key host uuid) one)))
        × Holds host ((file host).delete uuid disk).1 (BTreeMap.remove (key host uuid) one))
    × ((((file host).delete_expired 5000 disk).0
          ≡ ok (length one - length (BTreeMap.retain (unexpired 5000) one)))
        × Holds host
            ((file host).delete_expired 5000 disk).1
            (BTreeMap.retain (unexpired 5000) one))
local_file_refines_example =
    local_file_refines host uuid kept 5000 disk one kept-IsStorable disk-Holds

-- The same disk, in an environment in which the third call fails.
abbrev faulty : Disk
faulty = record disk { faults = none ∷ none ∷ some "Permission denied" ∷ [] }

delete_atomic_example :
    Updated host (BTreeMap.remove (key host uuid)) faulty (delete host uuid faulty).1
    ⊎ (((delete host uuid faulty).1.contents ≡ faulty.contents)
        × ((delete host uuid faulty).0 ≢ ok true))
delete_atomic_example = delete_atomic host uuid faulty

racing_create_loses_example :
    let first = open_turn host checking (vacant 0o644) in
    let other = insert host uuid kept (create host first.1).1 in
    let second = open_turn host first.0 other.1 in
    (other.0 ≡ ok tt) × (second.0 ≡ opened (ok tt)) × ((fetch host uuid second.1).0 ≡ err not_found)
racing_create_loses_example = racing_create_loses host 0o644 uuid kept
