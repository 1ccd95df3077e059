-- ===== src/Vault/Tasks/Alone.antt =====
-- A task that nobody comes between, against the call as one step.
use tari_vault.Base.{ℕ, Bytes, ◌≡◌, refl, Option, none, some, Result, arith}
use tari_vault.Error.{VaultError}
use tari_vault.Domain.Chrono.{Instant}
use tari_vault.Domain.Proof.{PlaintextProof}
use tari_vault.Storage.Backend.{StorageBackend}
use tari_vault.Vault.{Crypto, store_proof, retrieve_proof, delete_proof, cleanup}
use tari_vault.Vault.Race.{finished, advance-twice}
use tari_vault.Vault.History.{Call, store, retrieve, delete, sweep}
use tari_vault.Vault.Tasks.{
  DeletePhase, to_delete, refused, deleted, Task, stored, retrieving, deleting, begin, advance,
  advance_delete,
}

-- What a caller is answered.
pub data Outcome : Type 0 where
  token : Result VaultError Bytes → Outcome
  proof : Result VaultError PlaintextProof → Outcome
  removal : Result VaultError (Unit {0}) → Outcome
  count : Result VaultError ℕ → Outcome

abbrev pub delete_outcome : DeletePhase → Option Outcome
delete_outcome (refused r) = some (removal r)
delete_outcome (deleted id r) = some (removal r)
delete_outcome _ = none

-- The answer of a task, once it has one.
abbrev pub outcome : Task → Option Outcome
outcome (stored id r) = some (token r)
outcome (retrieving now t (finished r)) = some (proof r)
outcome (deleting now phase) = delete_outcome phase
outcome (Task.swept r) = some (count r)
outcome _ = none

module _ {S : Type 0} (crypto : Crypto) (backend : StorageBackend S) where
  -- The call as one step.
  abbrev pub at_once : Call → S → Outcome × S
  at_once (store e clock p ttl) s = (
    token (store_proof crypto backend e clock p ttl s).0,
    (store_proof crypto backend e clock p ttl s).1,
  )
  at_once (retrieve now t) s =
      (proof (retrieve_proof crypto backend now t s).0, (retrieve_proof crypto backend now t s).1)
  at_once (delete now t) s =
      (removal (delete_proof crypto backend now t s).0, (delete_proof crypto backend now t s).1)
  at_once (sweep now) s = (count (cleanup crypto backend now s).0, (cleanup crypto backend now s).1)

  delete_alone :
      (now : Instant) (t : Bytes) (s : S)
      → let first = advance_delete crypto backend now (to_delete t) s in
        let second = advance_delete crypto backend now first.0 first.1 in
        (delete_outcome second.0 ≡ some (removal (delete_proof crypto backend now t s).0))
        × (second.1 ≡ (delete_proof crypto backend now t s).1)
  unfolding advance_delete delete_proof
  delete_alone now t s = ground arith

  -- Over any backend, a task of any call that takes two turns in a row has the answer of the call, and
  -- leaves its state.
  pub begin-at_once :
      (call : Call) (s : S)
      → let first = advance crypto backend (begin call) s in
        let second = advance crypto backend first.0 first.1 in
        (outcome second.0 ≡ some (at_once call s).0) × (second.1 ≡ (at_once call s).1)
  unfolding begin advance
  begin-at_once (store e clock p ttl) s = (refl, refl)
  begin-at_once (retrieve now t) s = rw (advance-twice crypto backend now t s) (refl, refl)
  begin-at_once (delete now t) s = delete_alone now t s
  begin-at_once (sweep now) s = (refl, refl)
