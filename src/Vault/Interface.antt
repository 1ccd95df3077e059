-- ===== src/Vault/Interface.antt =====
-- src/vault/proof_vault.rs: the trait `ProofVault`, `StandardVault` as an instance of it, and an `Arc` of an instance.
use tari_vault.Base.{ℕ, Bytes, Option, Exec}
use tari_vault.Error.{VaultError}
use tari_vault.Domain.Chrono.{Instant}
use tari_vault.Domain.Proof.{PlaintextProof}
use tari_vault.Storage.Backend.{StorageBackend}
use tari_vault.Vault.{Crypto, Entropy, StoreClock}
use tari_vault.Vault

pub record ProofVault (S : Type 0) : Type 0 where
  pub store_proof : Entropy → StoreClock → PlaintextProof → Option ℕ → Exec S VaultError Bytes
  pub retrieve_proof : Instant → Bytes → Exec S VaultError PlaintextProof
  pub cleanup : Instant → Exec S VaultError ℕ
  pub delete_proof : Instant → Bytes → Exec S VaultError (Unit {0})

abbrev pub standard_vault : {S : Type 0} → Crypto → StorageBackend S → ProofVault S
standard_vault crypto backend = record {
  store_proof = Vault.store_proof crypto backend;
  retrieve_proof = Vault.retrieve_proof crypto backend;
  cleanup = Vault.cleanup crypto backend;
  delete_proof = Vault.delete_proof crypto backend;
}

-- The blanket instance for `Arc<V>`: each method is that of the vault behind the pointer.
abbrev pub shared : {S : Type 0} → ProofVault S → ProofVault S
shared vault = record {
  store_proof = λ e clock proof expires_in_secs. vault.store_proof e clock proof expires_in_secs;
  retrieve_proof = λ now claim_id_str. vault.retrieve_proof now claim_id_str;
  cleanup = λ now. vault.cleanup now;
  delete_proof = λ now claim_id_str. vault.delete_proof now claim_id_str;
}
