-- ===== src/Vault/History.antt =====
-- Calls in any order, one after another, by any clients: how often a proof can be redeemed.
pub mod Redemptions
use tari_vault.Base.{
  ℕ, suc, Bytes, IsArray, bytes_eq, ◌≡◌, Bool, true, false, ◌&&◌, Option, List, [], ◌∷◌, Result, ok,
  err, panic, if◌then◌else◌,
}
use tari_vault.Error.{VaultError}
use tari_vault.Domain.Chrono.{Instant}
use tari_vault.Domain.Record.{StoredRecord}
use tari_vault.Domain.Proof.{PlaintextProof}
use tari_vault.Domain.ClaimId.{ClaimId, decode}
use tari_vault.Storage.Backend.{StorageBackend, Contract}
use tari_vault.Vault.{
  Crypto, Entropy, StoreClock, store_proof, retrieve_proof, delete_proof, cleanup,
}
use tari_vault.Vault.Spec.{storing}

pub data Call : Type 0 where
  store : Entropy → StoreClock → PlaintextProof → Option ℕ → Call
  retrieve : Instant → Bytes → Call
  delete : Instant → Bytes → Call
  sweep : Instant → Call

abbrev is_ok : {A : Type 0} → Result VaultError A → Bool
is_ok (ok a) = true
is_ok (err e) = false
is_ok panic = false

abbrev names : Bytes → Result VaultError ClaimId → Bool
names id (ok claim) = bytes_eq claim.record_id id
names id (err e) = false
names id panic = false

module _ {S : Type 0} (crypto : Crypto) (backend : StorageBackend S) where
  -- The state that a call leaves.
  unfoldable pub after : Call → S → S
  after (store e clock proof ttl) s = (store_proof crypto backend e clock proof ttl s).1
  after (retrieve now token) s = (retrieve_proof crypto backend now token s).1
  after (delete now token) s = (delete_proof crypto backend now token s).1
  after (sweep now) s = (cleanup crypto backend now s).1

  -- The call hands out the proof under `id`.
  unfoldable pub redeems : Bytes → Call → S → Bool
  redeems id (retrieve now token) s =
      names id (decode crypto.base64 token) && is_ok (retrieve_proof crypto backend now token s).0
  redeems id _ s = false

  unfoldable pub redemptions : Bytes → List Call → S → ℕ
  redemptions id [] s = 0
  redemptions id (call ∷ calls) s =
      let rest = redemptions id calls (after call s) in if redeems id call s then suc rest else rest

module _ {S : Type 0} (crypto : Crypto) (backend : StorageBackend S) (c : Contract backend) where
  -- What a store makes is within the contract's bounds, and so is the clock of a sweep.
  abbrev pub IsAdmissible : Call → Type 0
  IsAdmissible (store e clock proof ttl) =
      IsArray 16 e.uuid
      × ((r : StoredRecord) → storing crypto e clock proof ttl ≡ ok r → c.IsAccepted r)
  IsAdmissible (sweep now) = c.IsClock now
  IsAdmissible _ = Unit

  -- A later store does not draw this id again.
  abbrev pub IsFresh : Bytes → Call → Type 0
  IsFresh id (store e clock proof ttl) = bytes_eq e.uuid id ≡ false
  IsFresh id _ = Unit
