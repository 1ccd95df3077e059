-- ===== src/Examples/Together.antt =====
-- The vault as a map, over the file store and the SQLite store side by side.
use mathlib.Core.Quot
use tari_vault.Base.{
  Bytes, IsArray, ◌≡◌, refl, sym, ◌∙◌, some, none, [], ◌∷◌, List, All, subst, bytes_eq,
  bytes_eq_iff, Bool-cases, inl, inr, ◌⊎◌, false, arith, replicate,
}
use tari_vault.Storage.Backend.{Contract}
use tari_vault.Storage.LocalFile.{Disk}
use tari_vault.Storage.LocalFile.Laws.{intact, image, parse_state-image}
use tari_vault.Storage.LocalFile.Holding.{Holds, file}
use tari_vault.Storage.LocalFile.Refines.{local_file_contract}
use tari_vault.Storage.LocalFile.Refines as FileRefines
use tari_vault.Storage.Sqlite.Intact.{table}
use tari_vault.Storage.Sqlite.Refines as TableRefines
use tari_vault.Vault.History.{Call, store, retrieve, IsAdmissible}
use tari_vault.Vault.Map.{Records, map_run, vault_run}
use tari_vault.Vault.Map.Refines.{vault_run_refines}
use tari_vault.Vault.Map.Refines as MapRefines
use tari_vault.Vault.Map.Agree.{
  backends_agree, AreApart, Contents, leaves, answers, apart_calls_commute,
}
use tari_vault.Examples.Toy.{calendar, suite}
use tari_vault.Examples.Files.{host, kept-IsStorable}
use tari_vault.Examples.Shop.{
  stocked, stocked-IsHealthy, decode-token, uuid, uuid-IsArray, draws, clock, proof, token, kept,
  kept_lem, kept-IsAccepted, contract, empty, empty-IsHealthy,
}

abbrev nothing : Disk
nothing = intact (image host []) 0o600

nothing-Holds : Holds host nothing []
nothing-Holds = record {
  bytes = image host [];
  mode = 0o600;
  same = refl;
  parsed = parse_state-image host [] tt;
  sorted = tt;
  storable = tt;
}

abbrev file_contract : Contract (file host)
file_contract = local_file_contract host

abbrev putting : Call
putting = store draws clock proof (some 60)

-- A store, two retrievals.
abbrev business : List Call
business = putting ∷ retrieve 5000 token ∷ retrieve 5000 token ∷ []

business-IsAdmissible : All (IsAdmissible suite (table calendar) contract) business
business-IsAdmissible = (
  (
    uuid-IsArray,
    λ r made.
        let same : kept ≡ r = cc (made, kept_lem) in subst contract.IsAccepted same kept-IsAccepted,
  ),
  (tt, (tt, tt)),
)

business-file : All (IsAdmissible suite (file host) file_contract) business
business-file = (
  (
    uuid-IsArray,
    λ r made.
        let same : kept ≡ r = cc (made, kept_lem) in
        subst file_contract.IsAccepted same (FileRefines.accepted_of host kept kept-IsStorable),
  ),
  (tt, (tt, tt)),
)

nothing-IsHealthy : file_contract.IsHealthy nothing
nothing-IsHealthy = FileRefines.IsHealthy-of_intact host nothing ([], nothing-Holds)

both_empty : (j : Bytes) → IsArray 16 j → contract.view empty j ≡ file_contract.view nothing j
both_empty j a =
    TableRefines.view-empty calendar j ∙ sym (FileRefines.view-empty host nothing nothing-Holds j)

backends_agree_example :
    let one = vault_run suite (table calendar) business empty in
    let two = vault_run suite (file host) business nothing in
    (one.0 ≡ two.0)
    × contract.IsHealthy one.1
    × file_contract.IsHealthy two.1
    × ((j : Bytes) → IsArray 16 j → contract.view one.1 j ≡ file_contract.view two.1 j)
backends_agree_example =
    backends_agree suite (table calendar) contract (file host) file_contract business empty nothing
      business-IsAdmissible business-file empty-IsHealthy nothing-IsHealthy both_empty

abbrev no_records : Records
no_records id = none

vault_run_refines_example :
    ((vault_run suite (table calendar) business empty).0 ≡ (map_run suite business no_records).0)
    × MapRefines.Holds suite
        (table calendar)
        contract
        (vault_run suite (table calendar) business empty).1
        (map_run suite business no_records).1
vault_run_refines_example =
    vault_run_refines suite (table calendar) contract business empty no_records
      business-IsAdmissible
      (record { healthy = empty-IsHealthy; views = λ j a. TableRefines.view-empty calendar j })

-- A retrieval beside a store under another id.
abbrev other_putting : Call
other_putting = store (record draws { uuid = replicate 16 8 }) clock proof (some 60)

other-IsAdmissible : IsAdmissible suite (table calendar) contract other_putting
other-IsAdmissible = (
  record { size = refl; bytes = ground arith },
  λ r made.
      let same : kept ≡ r = cc (made, kept_lem) in subst contract.IsAccepted same kept-IsAccepted,
)

ids_apart : (j : Bytes) → (bytes_eq uuid j ≡ false) ⊎ (bytes_eq (replicate 16 8) j ≡ false)
unfolding bytes_eq
ids_apart j = elim (Bool-cases (bytes_eq (replicate 16 8) j)) [
  | inr miss ↦ inr miss
  | inl hit ↦ inl (
      subst (λ (x : Bytes). bytes_eq uuid x ≡ false) ((bytes_eq_iff (replicate 16 8) j).0 hit) refl)
]

others-AreApart : AreApart suite (retrieve 5000 token) other_putting
others-AreApart j = rw decode-token (ids_apart j)

abbrev held : Contents suite (table calendar) contract
held = Quot.mk (stocked, stocked-IsHealthy)

apart_calls_commute_example :
    (leaves suite
        (table calendar)
        contract
        (retrieve 5000 token)
        tt
        (leaves suite (table calendar) contract other_putting other-IsAdmissible held)
      ≡ leaves suite
          (table calendar)
          contract
          other_putting
          other-IsAdmissible
          (leaves suite (table calendar) contract (retrieve 5000 token) tt held))
    × (answers suite
          (table calendar)
          contract
          (retrieve 5000 token)
          tt
          (leaves suite (table calendar) contract other_putting other-IsAdmissible held)
        ≡ answers suite (table calendar) contract (retrieve 5000 token) tt held)
    × (answers suite
          (table calendar)
          contract
          other_putting
          other-IsAdmissible
          (leaves suite (table calendar) contract (retrieve 5000 token) tt held)
        ≡ answers suite (table calendar) contract other_putting other-IsAdmissible held)
apart_calls_commute_example =
    apart_calls_commute suite (table calendar) contract (retrieve 5000 token) other_putting tt
      other-IsAdmissible others-AreApart held
