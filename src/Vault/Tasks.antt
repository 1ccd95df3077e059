-- ===== src/Vault/Tasks.antt =====
-- Any number of calls at once. A task is a call and where it stands; it runs alone from one `.await` of
-- the backend to the next, which is one turn. The environment starts tasks and says whose turn it is.
pub mod Effects
pub mod Asks
pub mod Locked
pub mod Alone
pub mod Counts
pub mod Isolation
pub mod Phases
pub mod Origin
pub mod Late
pub mod RealTime
use tari_vault.Base.{
  ℕ, zero, suc, Bytes, Bool, true, false, Option, none, some, List, [], ◌∷◌, Result, ok, err, panic,
  if◌then◌else◌, ◌≡◌, Bool-cases, inl, inr,
}
use tari_vault.Error.{StorageError, VaultError, proof_expired, proof_not_found, storage}
use tari_vault.Domain.Chrono.{Instant}
use tari_vault.Domain.Record.{StoredRecord, is_expired}
use tari_vault.Domain.Proof.{PlaintextProof}
use tari_vault.Domain.ClaimId.{ClaimId, decode}
use tari_vault.Domain.ClaimId.Codec.{decode_cases}
use tari_vault.Storage.Backend.{StorageBackend}
use tari_vault.Vault.{Crypto, Entropy, StoreClock, store_proof, cleanup, fetch_error, quiet}
use tari_vault.Vault.Race.{Phase, asked}
use tari_vault.Vault.Race
use tari_vault.Vault.History.{Call, store, retrieve, delete, sweep}

-- Where a call of `delete_proof` stands. The answer of the last two constructors is about an id.
pub data DeletePhase : Type 0 where
  to_delete : Bytes → DeletePhase
  discarding : Bytes → DeletePhase
  removing : Bytes → DeletePhase
  refused : Result VaultError (Unit {0}) → DeletePhase
  deleted : Bytes → Result VaultError (Unit {0}) → DeletePhase

-- A store and a sweep call the backend once, so they take one turn. A retrieval keeps its token.
pub data Task : Type 0 where
  storing : Entropy → StoreClock → PlaintextProof → Option ℕ → Task
  stored : Bytes → Result VaultError Bytes → Task
  retrieving : Instant → Bytes → Phase → Task
  deleting : Instant → DeletePhase → Task
  sweeping : Instant → Task
  swept : Result VaultError ℕ → Task

unfoldable pub begin : Call → Task
begin (store e clock proof ttl) = storing e clock proof ttl
begin (retrieve now token) = retrieving now token (asked token)
begin (delete now token) = deleting now (to_delete token)
begin (sweep now) = sweeping now

pub record System (S : Type 0) : Type 0 where
  pub tasks : List Task
  pub state : S

abbrev pub get_elem? : List Task → ℕ → Option Task
get_elem? [] i = none
get_elem? (t ∷ ts) zero = some t
get_elem? (t ∷ ts) (suc i) = get_elem? ts i

module _ {S : Type 0} (crypto : Crypto) (backend : StorageBackend S) where
  -- `delete_proof` from the answer of `fetch` to the next `.await`.
  after_fetch : Instant → Bytes → Result StorageError StoredRecord → DeletePhase
  unfolding fetch_error
  after_fetch now id (err e) = refused (err (fetch_error e))
  after_fetch now id panic = refused panic
  after_fetch now id (ok r) = if is_expired now r then discarding id else removing id

  fetching : Instant → Result VaultError ClaimId → S → DeletePhase × S
  unfolding after_fetch
  fetching now (err e) s = (refused (err e), s)
  fetching now panic s = (refused panic, s)
  fetching now (ok claim) s = (
    after_fetch now claim.record_id (backend.fetch claim.record_id s).0,
    (backend.fetch claim.record_id s).1,
  )

  discarded_answer : Result VaultError (Unit {0}) → Result VaultError (Unit {0})
  discarded_answer panic = panic
  discarded_answer _ = err proof_expired

  removed_answer : Result StorageError Bool → Result VaultError (Unit {0})
  removed_answer (ok true) = ok tt
  removed_answer (ok false) = err proof_not_found
  removed_answer (err e) = err (storage e)
  removed_answer panic = panic

  unfoldable pub advance_delete : Instant → DeletePhase → S → DeletePhase × S
  unfolding fetching discarded_answer removed_answer quiet
  advance_delete now (to_delete token) s = fetching now (decode crypto.base64 token) s
  advance_delete now (discarding id) s =
      (refused (discarded_answer (quiet (backend.delete id s).0)), (backend.delete id s).1)
  advance_delete now (removing id) s =
      (deleted id (removed_answer (backend.delete id s).0), (backend.delete id s).1)
  advance_delete now (refused r) s = (refused r, s)
  advance_delete now (deleted id r) s = (deleted id r, s)

  -- Every id that the call works on, or may come to work on, satisfies `P`.
  abbrev pub DeleteOn : (Bytes → Type 0) → DeletePhase → Type 0
  DeleteOn P (to_delete token) =
      (claim : ClaimId) → decode crypto.base64 token ≡ ok claim → P claim.record_id
  DeleteOn P (discarding id) = P id
  DeleteOn P (removing id) = P id
  DeleteOn P (refused r) = Unit
  DeleteOn P (deleted id r) = P id

  after_fetch-DeleteOn :
      (P : Bytes → Type 0) (now : Instant) (id : Bytes) (r : Result StorageError StoredRecord)
      → P id
      → DeleteOn P (after_fetch now id r)
  unfolding after_fetch
  after_fetch-DeleteOn P now id (err e) p = tt
  after_fetch-DeleteOn P now id panic p = tt
  after_fetch-DeleteOn P now id (ok r) p = elim (Bool-cases (is_expired now r)) [
    | inl late ↦ rw late p
    | inr live ↦ rw live p
  ]

  pub advance_delete-DeleteOn :
      (P : Bytes → Type 0) (now : Instant) (phase : DeletePhase) (s : S)
      → DeleteOn P phase
      → DeleteOn P (advance_delete now phase s).0
  unfolding advance_delete
  advance_delete-DeleteOn P now (to_delete token) s p = elim (decode_cases crypto.base64 token) [
    | inl (claim, d) ↦
        rw d (
          after_fetch-DeleteOn P now claim.record_id (backend.fetch claim.record_id s).0
            (p claim d))
    | inr d ↦ rw d tt
  ]
  advance_delete-DeleteOn P now (discarding id) s p = tt
  advance_delete-DeleteOn P now (removing id) s p = p
  advance_delete-DeleteOn P now (refused r) s p = tt
  advance_delete-DeleteOn P now (deleted id r) s p = p

  unfoldable pub advance : Task → S → Task × S
  unfolding advance_delete
  advance (storing e clock proof ttl) s = (
    stored e.uuid (store_proof crypto backend e clock proof ttl s).0,
    (store_proof crypto backend e clock proof ttl s).1,
  )
  advance (retrieving now token phase) s = (
    retrieving now token (Race.advance crypto backend now phase s).0,
    (Race.advance crypto backend now phase s).1,
  )
  advance (deleting now phase) s =
      (deleting now (advance_delete now phase s).0, (advance_delete now phase s).1)
  advance (sweeping now) s =
      (swept (cleanup crypto backend now s).0, (cleanup crypto backend now s).1)
  advance (stored id r) s = (stored id r, s)
  advance (swept r) s = (swept r, s)

  -- The task at a place takes a turn; a place without a task has none.
  unfoldable pub turn : ℕ → List Task → S → List Task × S
  turn i [] s = ([], s)
  turn zero (t ∷ ts) s = ((advance t s).0 ∷ ts, (advance t s).1)
  turn (suc i) (t ∷ ts) s = (t ∷ (turn i ts s).0, (turn i ts s).1)

  -- What the environment may do: start a call that `P` allows, or give a task its turn.
  pub data Step (P : Call → Type 0) (x : System S) : System S → Type 0 where
    start : (call : Call) → P call → Step P x (record x { tasks = begin call ∷ x.tasks })
    step :
        (i : ℕ)
        → Step P x
            (record { tasks = (turn i x.tasks x.state).0; state = (turn i x.tasks x.state).1 })

  pub data Reach (P : Call → Type 0) (s : S) : System S → Type 0 where
    boot : Reach P s (record { tasks = []; state = s })
    later : {x y : System S} → Reach P s x → Step P x y → Reach P s y

  -- Fewer calls allowed reach fewer systems.
  pub Reach-mono :
      {P Q : Call → Type 0} {s : S} {x : System S}
      → ((call : Call) → P call → Q call)
      → Reach P s x
      → Reach Q s x
  Reach-mono f boot = boot
  Reach-mono f (later r (start call p)) = later (Reach-mono f r) (start call (f call p))
  Reach-mono f (later r (step i)) = later (Reach-mono f r) (step i)
