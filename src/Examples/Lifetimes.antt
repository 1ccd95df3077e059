-- ===== src/Examples/Lifetimes.antt =====
-- The lifetimes, the histories and the remaining properties of the vault at concrete inputs.
use Prim.Native.String.{String}
use tari_vault.Base.{ok, ◌+◌, ◌≤◌, true, some, List, [], ◌∷◌, ◌≡◌, refl, err, panic, arith}
use tari_vault.Error.{io, proof_expired, not_found}
use tari_vault.Domain.Chrono.{year_10000}
use tari_vault.Domain.Record.{StoredRecord}
use tari_vault.Storage.Backend.{unexpired}
use tari_vault.Storage.Sqlite.{insert, fetch, delete_expired}
use tari_vault.Storage.Sqlite.Intact.{table}
use tari_vault.Storage.Sqlite.Refines.{clock_of}
use tari_vault.Storage.Sqlite.Late.{late_expiry_lost}
use tari_vault.Vault.{store_proof, retrieve_proof}
use tari_vault.Vault.RoundTrip.{IsGone}
use tari_vault.Vault.Lifetime.{retrieve-lifetime}
use tari_vault.Vault.Storing.{store_proof_panics_on_long_ttl}
use tari_vault.Vault.History.{Call, retrieve, delete, sweep, redemptions}
use tari_vault.Vault.History.Redemptions.{redemptions-le-one}
use tari_vault.Examples.Toy.{calendar, suite}
use tari_vault.Examples.Shop.{
  uuid, draws-IsEntropy, kept-IsAccepted, empty-IsHealthy, draws, uuid-IsArray, clock, proof, token,
  kept, contract, empty, stocked, stocked-IsHealthy,
}

retrieve-lifetime_example :
    let got =
      retrieve_proof suite
        (table calendar)
        60000001001
        token
        (store_proof suite (table calendar) draws clock proof (some 60) empty).1 in
    (got.0 ≡ err proof_expired) × IsGone suite (table calendar) contract uuid got.1
retrieve-lifetime_example =
    retrieve-lifetime suite (table calendar) contract draws draws-IsEntropy clock proof 60
      proof.contents 60000001001 empty (omega arith) (omega arith) (ground arith) refl
      kept-IsAccepted empty-IsHealthy

-- Three hundred million years.
store_proof_panics_on_long_ttl_example :
    store_proof suite (table calendar) draws clock proof (some 9300000000000000) empty
    ≡ (panic, empty)
store_proof_panics_on_long_ttl_example =
    store_proof_panics_on_long_ttl suite (table calendar) draws clock proof 9300000000000000
      proof.contents empty (omega arith) (omega arith) refl

-- Two clients redeem, a third deletes, and a sweep comes between.
abbrev history : List Call
history = retrieve 5000 token ∷ sweep 5500 ∷ retrieve 6000 token ∷ delete 7000 token ∷ []

redemptions-le-one_example : redemptions suite (table calendar) uuid history stocked ≤ 1
redemptions-le-one_example =
    redemptions-le-one suite (table calendar) contract uuid uuid-IsArray history stocked
      (tt, (clock_of calendar 5500 (omega arith), (tt, (tt, tt)))) (tt, (tt, (tt, (tt, tt))))
      stocked-IsHealthy

abbrev late : StoredRecord
late = record { encrypted = kept.encrypted; stored_at = 1001; expires_at = some (year_10000 + 1) }

late_expiry_lost_example :
    let stored = insert calendar uuid late (record { rows = []; faults = [] }) in
    let swept = (delete_expired calendar 5000 stored.1).1 in
    (stored.0 ≡ ok tt)
    × (unexpired 5000 late ≡ true)
    × ((e : String) × ((fetch calendar uuid stored.1).0 ≡ err (io e)))
    × ((fetch calendar uuid swept).0 ≡ err not_found)
late_expiry_lost_example =
    late_expiry_lost calendar uuid late (year_10000 + 1) 5000 [] refl (omega arith) (ground arith)
      (ground arith) (omega arith) (omega arith)
