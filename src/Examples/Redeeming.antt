-- ===== src/Examples/Redeeming.antt =====
-- The properties of the vault, at the proof and the store of `Examples/Shop.antt`.
use tari_vault.Base.{true, false, some, [], ◌∷◌, ◌≡◌, refl, ok}
use tari_vault.Domain.Record.{is_expired}
use tari_vault.Storage.Sqlite.Intact.{table}
use tari_vault.Vault.{store_proof, retrieve_proof, delete_proof}
use tari_vault.Storage.Sqlite.{Database}
use tari_vault.Vault.Storing.{Stored, store_proof_refines}
use tari_vault.Vault.Spec.{retrieving}
use tari_vault.Vault.Refines.{Becomes, retrieve_proof_refines, delete_proof_refines}
use tari_vault.Vault.RoundTrip.{IsGone, retrieve-store, single_use}
use tari_vault.Vault.Race.{asked, finished, interleave}
use tari_vault.Vault.Race.Redemption.{IsRedeemable, double_redemption}
use tari_vault.Examples.Toy.{calendar, suite}
use tari_vault.Examples.Shop.{
  uuid, draws, draws-IsEntropy, uuid-IsArray, clock, proof, claim, token, decode-token, kept,
  kept_lem, kept_live, kept-IsAccepted, contract, empty, empty-IsHealthy, stocked,
  stocked-IsHealthy, view-stocked,
}

abbrev shelf : Database
shelf = (store_proof suite (table calendar) draws clock proof (some 60) empty).1

abbrev taken : Database
taken = (retrieve_proof suite (table calendar) 5000 token shelf).1

retrieve-store_example :
    ((store_proof suite (table calendar) draws clock proof (some 60) empty).0 ≡ ok token)
    × ((retrieve_proof suite (table calendar) 5000 token shelf).0 ≡ ok proof)
    × IsGone suite (table calendar) contract uuid taken
retrieve-store_example =
    retrieve-store suite (table calendar) contract draws draws-IsEntropy clock proof (some 60) empty
      kept 5000 kept_lem kept-IsAccepted empty-IsHealthy kept_live

shelf-Stored : Stored suite (table calendar) draws clock proof contract kept (some 60) empty
shelf-Stored =
    store_proof_refines suite (table calendar) draws clock proof contract (some 60) empty kept
      kept_lem uuid-IsArray kept-IsAccepted empty-IsHealthy

retrieved : (retrieve_proof suite (table calendar) 5000 token shelf).0 ≡ ok proof
retrieved =
    (retrieve-store suite (table calendar) contract draws draws-IsEntropy clock proof (some 60)
      empty kept 5000 kept_lem kept-IsAccepted empty-IsHealthy kept_live).1

taken-IsGone : IsGone suite (table calendar) contract uuid taken
taken-IsGone =
    single_use suite (table calendar) contract claim token shelf 5000 proof decode-token
      shelf-Stored.healthy retrieved

retrieve_proof_refines_example :
    let verdict = retrieving suite.aead 5000 claim (contract.view stocked uuid) in
    ((retrieve_proof suite (table calendar) 5000 token stocked).0 ≡ verdict.0)
    × Becomes suite
        (table calendar)
        contract
        uuid
        verdict.1
        stocked
        (retrieve_proof suite (table calendar) 5000 token stocked).1
retrieve_proof_refines_example =
    retrieve_proof_refines suite (table calendar) contract 5000 token claim stocked decode-token
      stocked-IsHealthy

delete-stocked : (delete_proof suite (table calendar) 5000 token stocked).0 ≡ ok tt
unfolding is_expired
delete-stocked =
    rw view-stocked at
      (delete_proof_refines suite (table calendar) contract 5000 token claim stocked decode-token
        stocked-IsHealthy).0

pub redeemable :
    IsRedeemable suite (table calendar) contract 5000 token claim decode-token proof.contents kept
redeemable = record { live = kept_live; whole = refl; opens = refl }

double_redemption_example :
    let (p, q, s) =
      interleave suite
        (table calendar)
        5000
        (true ∷ false ∷ true ∷ false ∷ [])
        (asked token)
        (asked token)
        stocked in
    (p ≡ finished (ok proof)) × (q ≡ finished (ok proof))
double_redemption_example =
    double_redemption suite (table calendar) contract 5000 token claim decode-token proof.contents
      kept stocked redeemable stocked-IsHealthy view-stocked
