-- ===== src/Vault/Race.antt =====
-- Calls at once. `retrieve_proof` gives up its turn at each `.await` of the backend; between two of
-- them it runs alone. So a call is a row of phases, and a schedule says whose phase comes next.
pub mod Redemption
use tari_vault.Base.{
  Bytes, ◌≡◌, Bool, true, false, List, [], ◌∷◌, Result, ok, err, panic, if◌then◌else◌, ◌==◌, length,
  arith, Bool-cases, inl, inr,
}
use tari_vault.Error.{VaultError, StorageError, proof_expired, decryption_failed, storage}
use tari_vault.Domain.Chrono.{Instant}
use tari_vault.Domain.Record.{StoredRecord, is_expired}
use tari_vault.Domain.Proof.{PlaintextProof, from_bytes}
use tari_vault.Domain.ClaimId.{ClaimId, decode}
use tari_vault.Domain.ClaimId.Codec.{decode_cases}
use tari_vault.Storage.Backend.{StorageBackend}
use tari_vault.Vault.{Crypto, retrieve_proof, fetch_error, open_record, quiet}

-- Where a call of `retrieve_proof` stands.
pub data Phase : Type 0 where
  asked : Bytes → Phase
  expiring : Bytes → Phase
  consuming : Bytes → Bytes → Phase
  finished : Result VaultError PlaintextProof → Phase

module _ {S : Type 0} (crypto : Crypto) (backend : StorageBackend S) where
  opened_as : Bytes → Result VaultError Bytes → Phase
  opened_as id (ok plaintext) = consuming id plaintext
  opened_as id (err e) = finished (err e)
  opened_as id panic = finished panic

  -- From the answer of `fetch` to the next `.await`.
  after_fetch : Instant → ClaimId → Result StorageError StoredRecord → S → Phase
  unfolding fetch_error open_record opened_as
  after_fetch now claim (err e) s = finished (err (fetch_error e))
  after_fetch now claim panic s = finished panic
  after_fetch now claim (ok stored) s =
      if is_expired now stored
      then expiring claim.record_id
      else if length stored.nonce == 12
      then opened_as claim.record_id (open_record crypto backend claim stored s).0
      else finished (err decryption_failed)

  begin : Instant → Result VaultError ClaimId → S → Phase × S
  unfolding after_fetch
  begin now (err e) s = (finished (err e), s)
  begin now panic s = (finished panic, s)
  begin now (ok claim) s = (
    after_fetch now claim (backend.fetch claim.record_id s).0 s,
    (backend.fetch claim.record_id s).1,
  )

  expired_answer : Result VaultError (Unit {0}) → Result VaultError PlaintextProof
  expired_answer panic = panic
  expired_answer _ = err proof_expired

  consumed_answer : Bytes → Result StorageError Bool → Result VaultError PlaintextProof
  unfolding from_bytes
  consumed_answer plaintext (ok deleted) = ok (from_bytes plaintext)
  consumed_answer plaintext (err e) = err (storage e)
  consumed_answer plaintext panic = panic

  -- One turn: up to the answer of the next call of the backend.
  unfoldable pub advance : Instant → Phase → S → Phase × S
  unfolding begin expired_answer consumed_answer quiet
  advance now (asked token) s = begin now (decode crypto.base64 token) s
  advance now (expiring id) s =
      (finished (expired_answer (quiet (backend.delete id s).0)), (backend.delete id s).1)
  advance now (consuming id plaintext) s =
      (finished (consumed_answer plaintext (backend.delete id s).0), (backend.delete id s).1)
  advance now (finished r) s = (finished r, s)

  -- Every id that the call works on, or may come to work on, satisfies `P`.
  abbrev pub PhaseOn : (Bytes → Type 0) → Phase → Type 0
  PhaseOn P (asked token) =
      (claim : ClaimId) → decode crypto.base64 token ≡ ok claim → P claim.record_id
  PhaseOn P (expiring id) = P id
  PhaseOn P (consuming id plaintext) = P id
  PhaseOn P (finished r) = Unit

  opened_as-PhaseOn :
      (P : Bytes → Type 0) (id : Bytes) (r : Result VaultError Bytes)
      → P id
      → PhaseOn P (opened_as id r)
  unfolding opened_as
  opened_as-PhaseOn P id (ok plaintext) p = p
  opened_as-PhaseOn P id (err e) p = tt
  opened_as-PhaseOn P id panic p = tt

  after_fetch-PhaseOn :
      (P : Bytes → Type 0) (now : Instant) (claim : ClaimId) (r : Result StorageError StoredRecord)
      (s : S)
      → P claim.record_id
      → PhaseOn P (after_fetch now claim r s)
  unfolding after_fetch
  after_fetch-PhaseOn P now claim (err e) s p = tt
  after_fetch-PhaseOn P now claim panic s p = tt
  after_fetch-PhaseOn P now claim (ok stored) s p = elim (Bool-cases (is_expired now stored)) [
    | inl late ↦ rw late p
    | inr live ↦ elim (Bool-cases (length stored.nonce == 12)) [
      | inl whole ↦ rw (live, whole) (opened_as-PhaseOn P claim.record_id _ p)
      | inr odd ↦ rw (live, odd) tt
    ]
  ]

  pub advance-PhaseOn :
      (P : Bytes → Type 0) (now : Instant) (phase : Phase) (s : S)
      → PhaseOn P phase
      → PhaseOn P (advance now phase s).0
  unfolding advance
  advance-PhaseOn P now (asked token) s p = elim (decode_cases crypto.base64 token) [
    | inl (claim, d) ↦
        rw d (after_fetch-PhaseOn P now claim (backend.fetch claim.record_id s).0 s (p claim d))
    | inr d ↦ rw d tt
  ]
  advance-PhaseOn P now (expiring id) s p = tt
  advance-PhaseOn P now (consuming id plaintext) s p = tt
  advance-PhaseOn P now (finished r) s p = tt

  -- Two callers; `true` gives the first its turn.
  unfoldable pub interleave : Instant → List Bool → Phase → Phase → S → Phase × Phase × S
  interleave now [] p q s = (p, q, s)
  interleave now (true ∷ turns) p q s =
      interleave now turns (advance now p s).0 q (advance now p s).1
  interleave now (false ∷ turns) p q s =
      interleave now turns p (advance now q s).0 (advance now q s).1

  -- A caller that is left alone is done after two turns, with the answer and the state of
  -- `retrieve_proof`.
  pub advance-twice :
      (now : Instant) (token : Bytes) (s : S)
      → let first = advance now (asked token) s in
        advance now first.0 first.1 ≡ (
          finished (retrieve_proof crypto backend now token s).0,
          (retrieve_proof crypto backend now token s).1,
        )
  unfolding advance retrieve_proof
  advance-twice now token s = ground arith
