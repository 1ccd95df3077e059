-- ===== src/Vault.antt =====
-- src/vault/proof_vault.rs: `StandardVault` over any storage backend. What a call takes from outside
-- (random bytes, the readings of the clock) is among its arguments.
pub mod Spec
pub mod Refines
pub mod Storing
pub mod RoundTrip
pub mod Lifetime
pub mod History
pub mod Race
pub mod Tasks
pub mod Secrecy
pub mod Interface
pub mod Map
use tari_vault.Base.{
  ℕ, ◌^◌, Bytes, IsArray, All, IsByte, ◌≡◌, Bool, Option, none, some, Result, ok, err, panic, Exec,
  pure, raise, lift, mapping, ok_or, ◌>>=◌, ◌>>◌, if◌then◌else◌, ltb, ◌==◌, length,
}
use tari_vault.Error.{
  StorageError, not_found, VaultError, proof_not_found, proof_expired, decryption_failed,
  invalid_parameter, storage,
}
use tari_vault.Domain.Base64.{Base64}
use tari_vault.Domain.Chrono.{Instant, Chrono}
use tari_vault.Domain.Record.{StoredRecord, is_expired}
use tari_vault.Domain.ClaimId.{ClaimId, new, encode, decode}
use tari_vault.Domain.Proof.{PlaintextProof, from_bytes, as_bytes}
use tari_vault.Storage.Backend.{StorageBackend}

-- AES-256-GCM of the `aes-gcm` crate, over a key, a nonce and a text; `none` is its `Error`. What was
-- encrypted is decrypted under the same key and nonce.
pub record Aead : Type 0 where
  pub encrypt : Bytes → Bytes → Bytes → Option Bytes
  pub decrypt : Bytes → Bytes → Bytes → Option Bytes
  pub decrypt-encrypt :
      (key nonce plain cipher : Bytes)
      → encrypt key nonce plain ≡ some cipher
      → decrypt key nonce cipher ≡ some plain
  pub encrypt-All :
      (key nonce plain cipher : Bytes) → encrypt key nonce plain ≡ some cipher → All IsByte cipher

pub record Crypto : Type 0 where
  pub base64 : Base64
  pub chrono : Chrono
  pub aead : Aead

-- What `store_proof` draws: `Aes256Gcm::generate_key`, `generate_nonce` and `Uuid::new_v4`.
pub record Entropy : Type 0 where
  pub key : Bytes
  pub nonce : Bytes
  pub uuid : Bytes

pub record IsEntropy (e : Entropy) : Type 0 where
  pub key_array : IsArray 32 e.key
  pub nonce_array : IsArray 12 e.nonce
  pub uuid_array : IsArray 16 e.uuid

-- The two readings of the clock in `store_proof`.
pub record StoreClock : Type 0 where
  pub at_expiry : Instant
  pub at_stored : Instant

is_zero_ttl : Option ℕ → Bool
is_zero_ttl none = Bool.false
is_zero_ttl (some s) = s == 0

-- `Key::from_slice` and `Nonce::from_slice` panic on a slice of another length.
array_of : ℕ → Bytes → Result VaultError Bytes
array_of n b = if length b == n then ok b else panic

fetch_error : StorageError → VaultError
fetch_error not_found = proof_not_found
fetch_error other = storage other

-- `if let Err(e) = ...`: an error is logged and passed over, a panic is not.
quiet : {A : Type 0} → Result StorageError A → Result VaultError (Unit {0})
quiet (ok a) = ok tt
quiet (err e) = ok tt
quiet panic = panic

ignoring : {S A : Type 0} → Exec S StorageError A → Exec S VaultError (Unit {0})
unfolding quiet
ignoring m s = (quiet (m s).0, (m s).1)

module _ (chrono : Chrono) where
  -- The sum of the instant and the duration may panic.
  deadline : Option Instant → Result VaultError (Option Instant)
  deadline none = panic
  deadline (some t) = ok (some t)

  expiry : Instant → Option ℕ → Result VaultError (Option Instant)
  unfolding deadline
  expiry now none = ok none
  expiry now (some s) =
      if ltb s (2 ^ 63)
      then deadline (chrono.add_seconds now s)
      else err (invalid_parameter "expires_in_secs value is too large")

module _ {S : Type 0} (crypto : Crypto) (backend : StorageBackend S) where
  abbrev Op : Type 0 → Type 0
  Op A = Exec S VaultError A

  unfoldable pub store_proof : Entropy → StoreClock → PlaintextProof → Option ℕ → Op Bytes
  unfolding is_zero_ttl expiry as_bytes
  store_proof e clock proof expires_in_secs =
      if is_zero_ttl expires_in_secs
      then raise (invalid_parameter "expires_in_secs must be greater than zero")
      else do
        ciphertext ←
            lift (ok_or decryption_failed (crypto.aead.encrypt e.key e.nonce (as_bytes proof)))
        let claim_id = new e.uuid e.key
        expires_at ← lift (expiry crypto.chrono clock.at_expiry expires_in_secs)
        mapping storage (
            backend.insert claim_id.record_id (record {
              encrypted = record { nonce = e.nonce; ciphertext = ciphertext };
              stored_at = clock.at_stored;
              expires_at = expires_at;
            }))
        pure (encode crypto.base64 claim_id)

  open_record : ClaimId → StoredRecord → Op Bytes
  unfolding array_of
  open_record claim_id stored = do
    key ← lift (array_of 32 claim_id.encryption_key)
    nonce ← lift (array_of 12 stored.nonce)
    lift (ok_or decryption_failed (crypto.aead.decrypt key nonce stored.ciphertext))

  refuse_expired : {A : Type 0} → Bytes → Op A
  unfolding ignoring
  refuse_expired record_id = do ignoring (backend.delete record_id); raise proof_expired

  unfoldable pub retrieve_proof : Instant → Bytes → Op PlaintextProof
  unfolding fetch_error refuse_expired open_record from_bytes
  retrieve_proof now claim_id_str = do
    claim_id ← lift (decode crypto.base64 claim_id_str)
    stored ← mapping fetch_error (backend.fetch claim_id.record_id)
    if is_expired now stored
        then refuse_expired claim_id.record_id
        else if length stored.nonce == 12
        then (do
          plaintext ← open_record claim_id stored
          mapping storage (backend.delete claim_id.record_id)
          pure (from_bytes plaintext))
        else raise decryption_failed

  unfoldable pub cleanup : Instant → Op ℕ
  cleanup now = mapping storage (backend.delete_expired now)

  unfoldable pub delete_proof : Instant → Bytes → Op (Unit {0})
  unfolding fetch_error refuse_expired
  delete_proof now claim_id_str = do
    claim_id ← lift (decode crypto.base64 claim_id_str)
    stored ← mapping fetch_error (backend.fetch claim_id.record_id)
    if is_expired now stored then refuse_expired claim_id.record_id else (do
      deleted ← mapping storage (backend.delete claim_id.record_id)
      if deleted then pure tt else raise proof_not_found)
