-- ===== src/Vault/Map.antt =====
-- The vault of src/vault/proof_vault.rs as a machine on a map from record ids to records: what a call
-- answers, and what it leaves of the record under an id. No backend, no representation, no order of
-- operations. The number that a sweep answers is left out of its answer.
pub mod Refines
pub mod Agree
pub mod Turns
use tari_vault.Base.{
  Bytes, bytes_eq, ◌&&◌, Option, none, some, List, [], ◌∷◌, Result, ok, err, panic, if◌then◌else◌,
}
use tari_vault.Error.{VaultError}
use tari_vault.Domain.Chrono.{Instant}
use tari_vault.Domain.Record.{StoredRecord}
use tari_vault.Domain.Proof.{PlaintextProof}
use tari_vault.Domain.ClaimId.{ClaimId, new, encode, decode}
use tari_vault.Storage.Backend.{StorageBackend, swept}
use tari_vault.Vault.{Crypto, store_proof, retrieve_proof, delete_proof, cleanup}
use tari_vault.Vault.Spec.{storing, retrieving, deleting}
use tari_vault.Vault.History.{Call, store, retrieve, delete, sweep, after}

abbrev pub Records : Type 0
Records = Bytes → Option StoredRecord

pub data Answer : Type 0 where
  token : Result VaultError Bytes → Answer
  proof : Result VaultError PlaintextProof → Answer
  removal : Result VaultError (Unit {0}) → Answer
  swept_up : Result VaultError (Unit {0}) → Answer

-- `Ok(n)` without its number.
abbrev pub forget {ℓ} : {A : Type ℓ} → Result VaultError A → Result VaultError (Unit {0})
forget (ok a) = ok tt
forget (err e) = err e
forget panic = panic

abbrev pub stored_over : Result VaultError StoredRecord → Option StoredRecord → Option StoredRecord
stored_over (ok r) o = some r
stored_over (err e) o = o
stored_over panic o = o

-- What is answered once the record is made, or refused.
abbrev pub token_for : Bytes → Result VaultError StoredRecord → Result VaultError Bytes
token_for text (ok r) = ok text
token_for text (err e) = err e
token_for text panic = panic

module _ (crypto : Crypto) where
  abbrev pub retrieved_from :
      Instant → Result VaultError ClaimId → Records → Result VaultError PlaintextProof
  retrieved_from now (ok claim) m = (retrieving crypto.aead now claim (m claim.record_id)).0
  retrieved_from now (err e) m = err e
  retrieved_from now panic m = panic

  abbrev pub deleted_from :
      Instant → Result VaultError ClaimId → Records → Result VaultError (Unit {0})
  deleted_from now (ok claim) m = (deleting now (m claim.record_id)).0
  deleted_from now (err e) m = err e
  deleted_from now panic m = panic

  abbrev pub left_by_retrieval :
      Instant → Result VaultError ClaimId → Bytes → Option StoredRecord → Option StoredRecord
  left_by_retrieval now (ok claim) j o =
      if (retrieving crypto.aead now claim o).1 && bytes_eq claim.record_id j then none else o
  left_by_retrieval now _ j o = o

  abbrev pub left_by_delete :
      Instant → Result VaultError ClaimId → Bytes → Option StoredRecord → Option StoredRecord
  left_by_delete now (ok claim) j o =
      if (deleting now o).1 && bytes_eq claim.record_id j then none else o
  left_by_delete now _ j o = o

  -- What the map answers to a call.
  abbrev pub answered_by : Call → Records → Answer
  answered_by (store e clock p ttl) m =
      token (token_for (encode crypto.base64 (new e.uuid e.key)) (storing crypto e clock p ttl))
  answered_by (retrieve now claim_id) m =
      proof (retrieved_from now (decode crypto.base64 claim_id) m)
  answered_by (delete now claim_id) m = removal (deleted_from now (decode crypto.base64 claim_id) m)
  answered_by (sweep now) m = swept_up (ok tt)

  -- What a call leaves under an id depends only on what is there.
  abbrev pub left_by : Call → Bytes → Option StoredRecord → Option StoredRecord
  left_by (store e clock p ttl) j o =
      if bytes_eq e.uuid j then stored_over (storing crypto e clock p ttl) o else o
  left_by (retrieve now claim_id) j o = left_by_retrieval now (decode crypto.base64 claim_id) j o
  left_by (delete now claim_id) j o = left_by_delete now (decode crypto.base64 claim_id) j o
  left_by (sweep now) j o = swept now o

  unfoldable pub map_run : List Call → Records → List Answer × Records
  map_run [] m = ([], m)
  map_run (call ∷ calls) m =
      let rest = map_run calls (λ j. left_by call j (m j)) in (answered_by call m ∷ rest.0, rest.1)

module _ {S : Type 0} (crypto : Crypto) (backend : StorageBackend S) where
  -- What the vault answers.
  unfoldable pub answer : Call → S → Answer
  answer (store e clock p ttl) s = token (store_proof crypto backend e clock p ttl s).0
  answer (retrieve now claim_id) s = proof (retrieve_proof crypto backend now claim_id s).0
  answer (delete now claim_id) s = removal (delete_proof crypto backend now claim_id s).0
  answer (sweep now) s = swept_up (forget (cleanup crypto backend now s).0)

  unfoldable pub vault_run : List Call → S → List Answer × S
  vault_run [] s = ([], s)
  vault_run (call ∷ calls) s =
      let rest = vault_run calls (after crypto backend call s) in (answer call s ∷ rest.0, rest.1)
