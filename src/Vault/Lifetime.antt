-- ===== src/Vault/Lifetime.antt =====
-- How long a proof that was stored with a lifetime can be retrieved.
use tari_vault.Base.{
  ℕ, ◌+◌, ◌*◌, ◌^◌, ◌≤◌, ◌<◌, if◌then◌else◌, Bool-cases, inl, inr, Bytes, bytes_eq_refl, ◌≡◌, refl,
  ◌∙◌, true, false, some, Result, ok, err, ltb,
}
use tari_vault.Error.{VaultError, proof_expired}
use tari_vault.Domain.Chrono.{Instant, max_seconds}
use tari_vault.Domain.Record.{StoredRecord, is_expired}
use tari_vault.Domain.Proof.{PlaintextProof}
use tari_vault.Domain.ClaimId.{new, encode}
use tari_vault.Storage.Backend.{StorageBackend, Contract}
use tari_vault.Vault.{Crypto, Entropy, IsEntropy, StoreClock, store_proof, retrieve_proof}
use tari_vault.Vault.Spec.{sealed, storing}
use tari_vault.Vault.Refines.{retrieve_proof_refines}
use tari_vault.Vault.RoundTrip.{IsGone, Becomes-IsGone, retrieve-store, decode-token}
use tari_vault.Vault.Storing.{store_proof_refines, storing_lifetime}

module _ {S : Type 0} (crypto : Crypto) (backend : StorageBackend S) (c : Contract backend)
    (e : Entropy) (v : IsEntropy e) (clock : StoreClock) (proof : PlaintextProof) where
  -- The moment from which on the proof has expired: a retrieval at the moment itself is still served.
  abbrev due : ℕ → Instant
  due secs = clock.at_expiry + secs * 10 ^ 9

  abbrev dated : ℕ → Bytes → StoredRecord
  dated secs cipher = sealed crypto e clock proof cipher (some (due secs))

  is_expired-dated :
      (secs : ℕ) (cipher : Bytes) (now : Instant)
      → is_expired now (dated secs cipher) ≡ ltb (due secs) now
  unfolding is_expired
  is_expired-dated secs cipher now = refl

  abbrev later : ℕ → Instant → S → Result VaultError PlaintextProof × S
  later secs now s =
      retrieve_proof crypto backend now (encode crypto.base64 (new e.uuid e.key))
        (store_proof crypto backend e clock proof (some secs) s).1

  lifetime_live :
      (secs : ℕ) (cipher : Bytes) (now : Instant) (s : S)
      → storing crypto e clock proof (some secs) ≡ ok (dated secs cipher)
      → c.IsAccepted (dated secs cipher)
      → c.IsHealthy s
      → ltb (due secs) now ≡ false
      → ((later secs now s).0 ≡ ok proof) × IsGone crypto backend c e.uuid (later secs now s).1
  lifetime_live secs cipher now s made accepted h live =
      let (_, got, gone) =
        retrieve-store crypto backend c e v clock proof (some secs) s (dated secs cipher) now made
          accepted h (is_expired-dated secs cipher now ∙ live) in
      (got, gone)

  lifetime_late :
      (secs : ℕ) (cipher : Bytes) (now : Instant) (s : S)
      → storing crypto e clock proof (some secs) ≡ ok (dated secs cipher)
      → c.IsAccepted (dated secs cipher)
      → c.IsHealthy s
      → ltb (due secs) now ≡ true
      → ((later secs now s).0 ≡ err proof_expired)
        × IsGone crypto backend c e.uuid (later secs now s).1
  lifetime_late secs cipher now s made accepted h late =
      let r = dated secs cipher in
      let after =
        store_proof_refines crypto backend e clock proof c (some secs) s r made v.uuid_array
          accepted h in
      let there : c.view (store_proof crypto backend e clock proof (some secs) s).1 e.uuid
          ≡ some r =
        rw bytes_eq_refl at (after.views e.uuid v.uuid_array) in
      let d = decode-token crypto backend c e v clock proof (some secs) in
      let (answer, becomes) =
        retrieve_proof_refines crypto backend c now _ (new e.uuid e.key) _ d after.healthy in
      let expired : is_expired now r ≡ true = is_expired-dated secs cipher now ∙ late in
      (
        rw (there, expired) at answer,
        Becomes-IsGone crypto backend c e.uuid _ _ v.uuid_array (rw (there, expired) at becomes),
      )

  -- Over a healthy backend, a proof that is stored for a positive number of seconds, within the
  -- range of the clock, and makes a record that the contract accepts: a retrieval up to that many
  -- seconds after the call answers the proof, and a later one that it has expired. After either the
  -- record is gone.
  pub retrieve-lifetime :
      (secs : ℕ) (cipher : Bytes) (now : Instant) (s : S)
      → 0 < secs
      → secs ≤ max_seconds
      → due secs ≤ crypto.chrono.latest
      → crypto.aead.encrypt e.key e.nonce proof.contents ≡ some cipher
      → c.IsAccepted (dated secs cipher)
      → c.IsHealthy s
      → ((later secs now s).0 ≡ (if ltb (due secs) now then err proof_expired else ok proof))
        × IsGone crypto backend c e.uuid (later secs now s).1
  retrieve-lifetime secs cipher now s positive short fits enc accepted h =
      let made =
        storing_lifetime crypto backend e clock proof secs cipher positive short fits enc in
      elim (Bool-cases (ltb (due secs) now)) [
        | inl late ↦ rw late (lifetime_late secs cipher now s made accepted h late)
        | inr live ↦ rw live (lifetime_live secs cipher now s made accepted h live)
      ]
