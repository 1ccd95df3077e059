-- ===== src/Vault/Tasks/Asks.antt =====
-- Which call of the backend a turn of a task awaits, and what the task comes to by its answer.
use tari_vault.Base.{
  ℕ, zero, suc, continue, map_err, Bytes, ◌≡◌, refl, Bool, Option, none, some, Result, ok, err,
  panic, Result-cases, inl, inr, arith,
}
use tari_vault.Error.{StorageError, VaultError, storage}
use tari_vault.Domain.Chrono.{Instant}
use tari_vault.Domain.Record.{StoredRecord}
use tari_vault.Domain.Proof.{PlaintextProof}
use tari_vault.Domain.ClaimId.{ClaimId, decode, encode, new}
use tari_vault.Storage.Backend.{StorageBackend}
use tari_vault.Storage.Backend.Ask.{
  Ask, inserts, fetches, deletes, sweeps, Got, inserted, fetched, removed, swept_away, asks,
}
use tari_vault.Vault.{Crypto, Entropy, StoreClock, store_proof, cleanup, open_record}
use tari_vault.Vault.Spec
use tari_vault.Vault.Storing.{store_proof_refused, store_proof_panics}
use tari_vault.Vault.Race
use tari_vault.Vault.Race.{Phase, asked, expiring, consuming, finished}
use tari_vault.Vault.Tasks.{
  DeletePhase, to_delete, discarding, removing, refused, deleted, Task, storing, stored, retrieving,
  deleting, sweeping, advance, advance_delete,
}

-- A backend whose state is the answer that it gives.
abbrev insert_answer : Got → Result StorageError (Unit {0})
insert_answer (inserted r) = r
insert_answer g = panic

abbrev fetch_answer : Got → Result StorageError StoredRecord
fetch_answer (fetched r) = r
fetch_answer g = panic

abbrev delete_answer : Got → Result StorageError Bool
delete_answer (removed r) = r
delete_answer g = panic

abbrev sweep_answer : Got → Result StorageError ℕ
sweep_answer (swept_away r) = r
sweep_answer g = panic

abbrev pub oracle : StorageBackend Got
oracle = record {
  insert = λ id r g. (insert_answer g, g);
  fetch = λ id g. (fetch_answer g, g);
  delete = λ id g. (delete_answer g, g);
  delete_expired = λ now g. (sweep_answer g, g);
}

-- A store whose record is made awaits the insert of it.
store_by_insert :
    {S : Type 0} (crypto : Crypto) (backend : StorageBackend S) (e : Entropy) (clock : StoreClock)
    (p : PlaintextProof) (ttl : Option ℕ) (s : S) (r : StoredRecord)
    → Spec.storing crypto e clock p ttl ≡ ok r
    → store_proof crypto backend e clock p ttl s
      ≡ continue
          (map_err storage (backend.insert e.uuid r s).0)
          (λ x s'. (ok (encode crypto.base64 (new e.uuid e.key)), s'))
          (backend.insert e.uuid r s).1
unfolding store_proof
store_by_insert crypto backend e clock p none s r made = ground arith
store_by_insert crypto backend e clock p (some zero) s r made = ground arith
store_by_insert crypto backend e clock p (some (suc n)) s r made = ground arith

same_token :
    {S T : Type 0} (id text : Bytes) (r : Result StorageError (Unit {0})) (s : S) (t : T)
    → Path
        (Task × S)
        (
          stored id (continue (map_err storage r) (λ x s'. (ok text, s')) s).0,
          (continue {B = Bytes} (map_err storage r) (λ x s'. (ok text, s')) s).1,
        )
        (stored id (continue (map_err storage r) (λ x t'. (ok text, t')) t).0, s)
same_token id text (ok x) s t = refl
same_token id text (err x) s t = refl
same_token id text panic s t = refl

module _ (crypto : Crypto) where
  abbrev ask_store : Bytes → Result VaultError StoredRecord → Option Ask
  ask_store id (ok r) = some (inserts id r)
  ask_store id (err e) = none
  ask_store id panic = none

  abbrev ask_fetch : Result VaultError ClaimId → Option Ask
  ask_fetch (ok claim) = some (fetches claim.record_id)
  ask_fetch (err e) = none
  ask_fetch panic = none

  abbrev ask_phase : Phase → Option Ask
  ask_phase (asked token) = ask_fetch (decode crypto.base64 token)
  ask_phase (expiring id) = some (deletes id)
  ask_phase (consuming id plain) = some (deletes id)
  ask_phase (finished r) = none

  abbrev ask_delete : DeletePhase → Option Ask
  ask_delete (to_delete token) = ask_fetch (decode crypto.base64 token)
  ask_delete (discarding id) = some (deletes id)
  ask_delete (removing id) = some (deletes id)
  ask_delete (refused r) = none
  ask_delete (deleted id r) = none

  abbrev pub ask_of : Task → Option Ask
  ask_of (storing e clock proof ttl) = ask_store e.uuid (Spec.storing crypto e clock proof ttl)
  ask_of (stored id r) = none
  ask_of (retrieving now token phase) = ask_phase phase
  ask_of (deleting now phase) = ask_delete phase
  ask_of (sweeping now) = some (sweeps now)
  ask_of (Task.swept r) = none

  -- The task after its turn, when it asks for nothing, and when its call is answered so.
  abbrev pub told : Task → Got → Task
  told t g = (advance crypto oracle t g).0

  abbrev pub unasked : Task → Task
  unasked t = told t (swept_away panic)

  -- The turn, from the call that it awaits.
  module _ {S : Type 0} (backend : StorageBackend S) where
    abbrev pub by_asking : Option Ask → Task → S → Task × S
    by_asking none t s = (unasked t, s)
    by_asking (some a) t s = (told t (asks backend a s).0, (asks backend a s).1)

    sweep-asks :
        (now : Instant) (s : S)
        → advance crypto backend (sweeping now) s
          ≡ by_asking (ask_of (sweeping now)) (sweeping now) s
    unfolding advance cleanup
    sweep-asks now s = refl

    phase-asks :
        (now : Instant) (token : Bytes) (phase : Phase) (s : S)
        → advance crypto backend (retrieving now token phase) s
          ≡ by_asking (ask_phase phase) (retrieving now token phase) s
    unfolding advance Race.advance open_record
    phase-asks now token (asked u) s = ground arith
    phase-asks now token (expiring id) s = refl
    phase-asks now token (consuming id plain) s = refl
    phase-asks now token (finished r) s = refl

    delete-asks :
        (now : Instant) (phase : DeletePhase) (s : S)
        → advance crypto backend (deleting now phase) s
          ≡ by_asking (ask_delete phase) (deleting now phase) s
    unfolding advance advance_delete
    delete-asks now (to_delete u) s = ground arith
    delete-asks now (discarding id) s = refl
    delete-asks now (removing id) s = refl
    delete-asks now (refused r) s = refl
    delete-asks now (deleted id r) s = refl

    store-asks :
        (e : Entropy) (clock : StoreClock) (p : PlaintextProof) (ttl : Option ℕ) (s : S)
        → advance crypto backend (storing e clock p ttl) s
          ≡ by_asking (ask_of (storing e clock p ttl)) (storing e clock p ttl) s
    unfolding advance
    store-asks e clock p ttl s = elim (Result-cases (Spec.storing crypto e clock p ttl)) [
      | inl (r, made) ↦
          rw
            (
              made,
              store_by_insert crypto backend e clock p ttl s r made,
              store_by_insert crypto oracle e clock p ttl (inserted (backend.insert e.uuid r s).0) r
                  made,
            )
            (same_token e.uuid _ (backend.insert e.uuid r s).0 _ _)
      | inr (inl (x, no_record)) ↦
          rw
            (
              no_record,
              store_proof_refused crypto backend e clock p ttl s x no_record,
              store_proof_refused crypto oracle e clock p ttl (swept_away panic) x no_record,
            )
            refl
      | inr (inr panics) ↦
          rw
            (
              panics,
              store_proof_panics crypto backend e clock p ttl s panics,
              store_proof_panics crypto oracle e clock p ttl (swept_away panic) panics,
            )
            refl
    ]

    -- Over any backend a turn of a task makes at most one call of it, which is known before the turn,
    -- and what becomes of the task is decided by the answer of that call.
    pub turn-asks : (t : Task) (s : S) → advance crypto backend t s ≡ by_asking (ask_of t) t s
    turn-asks (storing e clock p ttl) s = store-asks e clock p ttl s
    turn-asks (stored id r) s = unfold advance in refl
    turn-asks (retrieving now token phase) s = phase-asks now token phase s
    turn-asks (deleting now phase) s = delete-asks now phase s
    turn-asks (sweeping now) s = sweep-asks now s
    turn-asks (Task.swept r) s = unfold advance in refl
