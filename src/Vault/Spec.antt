-- ===== src/Vault/Spec.antt =====
-- What the vault promises, as functions of the one record that a call is about: its answer, and what
-- becomes of the record. No storage backend, no order of calls to it.
use tari_vault.Base.{
  ℕ, ◌^◌, Bytes, Bool, true, false, Option, none, some, Result, ok, err, panic, if◌then◌else◌, ◌==◌,
  length, ltb, zero,
}
use tari_vault.Error.{
  VaultError, proof_not_found, proof_expired, decryption_failed, invalid_parameter,
}
use tari_vault.Domain.Chrono.{Instant}
use tari_vault.Domain.Record.{StoredRecord, is_expired}
use tari_vault.Domain.ClaimId.{ClaimId}
use tari_vault.Domain.Proof.{PlaintextProof}
use tari_vault.Vault.{Aead, Crypto, Entropy, StoreClock}

-- An answer, and whether the record is removed.
abbrev pub Verdict : Type 0 → Type 0
Verdict A = Result VaultError A × Bool

module _ (aead : Aead) where
  abbrev opened : Option Bytes → Verdict PlaintextProof
  opened none = (err decryption_failed, false)
  opened (some plain) = (ok (record { contents = plain }), true)

  -- An expired record is removed and refused; a live one is removed exactly when it can be decrypted.
  abbrev pub retrieving : Instant → ClaimId → Option StoredRecord → Verdict PlaintextProof
  retrieving now claim none = (err proof_not_found, false)
  retrieving now claim (some r) =
      if is_expired now r
      then (err proof_expired, true)
      else if length r.nonce == 12
      then opened (aead.decrypt claim.encryption_key r.nonce r.ciphertext)
      else (err decryption_failed, false)

-- A delete removes the record, expired or not.
abbrev pub deleting : Instant → Option StoredRecord → Verdict (Unit {0})
deleting now none = (err proof_not_found, false)
deleting now (some r) = if is_expired now r then (err proof_expired, true) else (ok tt, true)

-- The record that `store_proof` makes, or its refusal.
module _ (crypto : Crypto) (e : Entropy) (clock : StoreClock) (proof : PlaintextProof) where
  abbrev pub sealed : Bytes → Option Instant → StoredRecord
  sealed ciphertext expires_at = record {
    encrypted = record { nonce = e.nonce; ciphertext = ciphertext };
    stored_at = clock.at_stored;
    expires_at = expires_at;
  }

  abbrev with_deadline : Bytes → Option Instant → Result VaultError StoredRecord
  with_deadline ciphertext none = panic
  with_deadline ciphertext (some t) = ok (sealed ciphertext (some t))

  abbrev with_ttl : Bytes → Option ℕ → Result VaultError StoredRecord
  with_ttl ciphertext none = ok (sealed ciphertext none)
  with_ttl ciphertext (some secs) =
      if ltb secs (2 ^ 63)
      then with_deadline ciphertext (crypto.chrono.add_seconds clock.at_expiry secs)
      else err (invalid_parameter "expires_in_secs value is too large")

  abbrev with_ciphertext : Option ℕ → Option Bytes → Result VaultError StoredRecord
  with_ciphertext ttl none = err decryption_failed
  with_ciphertext ttl (some ciphertext) = with_ttl ciphertext ttl

  abbrev pub storing : Option ℕ → Result VaultError StoredRecord
  storing (some zero) = err (invalid_parameter "expires_in_secs must be greater than zero")
  storing ttl = with_ciphertext ttl (crypto.aead.encrypt e.key e.nonce proof.contents)
