-- ===== src/Vault/Storing.antt =====
-- `store_proof` of src/vault/proof_vault.rs against `Vault/Spec.antt`, and the lifetimes it takes.
use Prim.Native.String.{String}
use tari_vault.Base.{
  ◌⊎◌, ℕ, zero, suc, ◌+◌, ◌*◌, ◌^◌, ◌≤◌, ◌<◌, Bytes, IsArray, bytes_eq, ◌≡◌, refl, Option, none,
  some, Result, ok, err, panic, if◌then◌else◌, arith, lt→ltb, le→ltb,
}
use tari_vault.Error.{VaultError, invalid_parameter}
use tari_vault.Domain.Chrono.{max_seconds}
use tari_vault.Domain.Record.{StoredRecord}
use tari_vault.Domain.Proof.{PlaintextProof}
use tari_vault.Domain.ClaimId.{new, encode}
use tari_vault.Storage.Backend.{StorageBackend, Contract}
use tari_vault.Vault.{Crypto, Entropy, StoreClock, store_proof}
use tari_vault.Vault.Spec.{storing}

module _ {S : Type 0} (crypto : Crypto) (backend : StorageBackend S) (e : Entropy)
    (clock : StoreClock) (proof : PlaintextProof) where
  abbrev store : Option ℕ → S → Result VaultError Bytes × S
  store = store_proof crypto backend e clock proof

  -- A store that is refused has not touched the backend.
  pub store_proof_refused :
      (ttl : Option ℕ) (s : S) (x : VaultError)
      → storing crypto e clock proof ttl ≡ err x
      → store ttl s ≡ (err x, s)
  unfolding store_proof
  store_proof_refused none s x h = ground arith
  store_proof_refused (some zero) s x h = ground arith
  store_proof_refused (some (suc n)) s x h = ground arith

  pub store_proof_panics :
      (ttl : Option ℕ) (s : S) → storing crypto e clock proof ttl ≡ panic → store ttl s ≡ (panic, s)
  unfolding store_proof
  store_proof_panics none s h = ground arith
  store_proof_panics (some zero) s h = ground arith
  store_proof_panics (some (suc n)) s h = ground arith

  store_proof_runs :
      (ttl : Option ℕ) (s : S) (r : StoredRecord)
      → storing crypto e clock proof ttl ≡ ok r
      → (backend.insert e.uuid r s).0 ≡ ok tt
      → store ttl s ≡ (ok (encode crypto.base64 (new e.uuid e.key)), (backend.insert e.uuid r s).1)
  unfolding store_proof
  store_proof_runs none s r h i = ground arith
  store_proof_runs (some zero) s r h i = ground arith
  store_proof_runs (some (suc n)) s r h i = ground arith

  -- Any record that is made holds the nonce and the ciphertext of the proof.
  pub storing-encrypt :
      (ttl : Option ℕ) (r : StoredRecord)
      → storing crypto e clock proof ttl ≡ ok r
      → (r.nonce ≡ e.nonce) × (crypto.aead.encrypt e.key e.nonce proof.contents ≡ some r.ciphertext)
  storing-encrypt none r h = ground arith
  storing-encrypt (some zero) r h = ground arith
  storing-encrypt (some (suc n)) r h = ground arith

  -- A lifetime within the range of the clock gives the record its deadline, counted from the moment
  -- of the call.
  pub storing_lifetime :
      (secs : ℕ) (cipher : Bytes)
      → 0 < secs
      → secs ≤ max_seconds
      → clock.at_expiry + secs * 10 ^ 9 ≤ crypto.chrono.latest
      → crypto.aead.encrypt e.key e.nonce proof.contents ≡ some cipher
      → storing crypto e clock proof (some secs)
        ≡ ok (record {
          encrypted = record { nonce = e.nonce; ciphertext = cipher };
          stored_at = clock.at_stored;
          expires_at = some (clock.at_expiry + secs * 10 ^ 9);
        })
  storing_lifetime zero cipher p h fits enc = absurd (omega arith)
  storing_lifetime (suc n) cipher p h fits enc = rw (
    enc,
    lt→ltb (suc n) (2 ^ 63) (omega arith),
    crypto.chrono.add_seconds-in_range clock.at_expiry (suc n) h fits,
  )

  -- When the proof can be encrypted, a lifetime below 2 ^ 63 seconds that is longer than any
  -- `Duration` panics, and the state is what it was.
  pub store_proof_panics_on_long_ttl :
      (secs : ℕ) (cipher : Bytes) (s : S)
      → max_seconds < secs
      → secs < 2 ^ 63
      → crypto.aead.encrypt e.key e.nonce proof.contents ≡ some cipher
      → store (some secs) s ≡ (panic, s)
  store_proof_panics_on_long_ttl zero cipher s p q enc = absurd (omega arith)
  store_proof_panics_on_long_ttl (suc n) cipher s p q enc = store_proof_panics (some (suc n)) s (
      rw (
        enc,
        lt→ltb (suc n) (2 ^ 63) q,
        crypto.chrono.add_seconds-too_long clock.at_expiry (suc n) p,
      ))

  -- When the proof can be encrypted, a lifetime of zero, and one of 2 ^ 63 seconds or more, is
  -- refused as an invalid parameter, and the state is what it was.
  pub store_proof_refuses_ttl :
      (secs : ℕ) (cipher : Bytes) (s : S)
      → (secs ≡ 0) ⊎ (2 ^ 63 ≤ secs)
      → crypto.aead.encrypt e.key e.nonce proof.contents ≡ some cipher
      → (why : String) × (store (some secs) s ≡ (err (invalid_parameter why), s))
  store_proof_refuses_ttl zero cipher s h enc = (_, store_proof_refused (some zero) s _ refl)
  store_proof_refuses_ttl (suc n) cipher s h enc = (
    "expires_in_secs value is too large",
    store_proof_refused (some (suc n)) s _ (rw (enc, le→ltb (suc n) (2 ^ 63) (omega arith))),
  )

  module _ (c : Contract backend) where
    -- What an accepted store comes to: the token of the new claim, and one more record in the view.
    pub record Stored (r : StoredRecord) (ttl : Option ℕ) (s : S) : Type 0 where
      pub answer : (store ttl s).0 ≡ ok (encode crypto.base64 (new e.uuid e.key))
      pub healthy : c.IsHealthy (store ttl s).1
      pub views :
          (j : Bytes)
          → IsArray 16 j
          → c.view (store ttl s).1 j ≡ (if bytes_eq e.uuid j then some r else c.view s j)

    -- Over a healthy backend, when the specification makes a record that the contract accepts:
    -- `store_proof` answers the token of the new claim, the view has that record and no other
    -- change, and the backend stays healthy.
    pub store_proof_refines :
        (ttl : Option ℕ) (s : S) (r : StoredRecord)
        → storing crypto e clock proof ttl ≡ ok r
        → IsArray 16 e.uuid
        → c.IsAccepted r
        → c.IsHealthy s
        → Stored r ttl s
    store_proof_refines ttl s r made a accepted h =
        let runs = store_proof_runs ttl s r made (c.insert-ok e.uuid r s a accepted h) in
        record {
          answer = rw runs;
          healthy = rw runs (c.insert-IsHealthy e.uuid r s a accepted h);
          views = λ j aj. rw runs (c.view-insert e.uuid r s a accepted h j aj);
        }
