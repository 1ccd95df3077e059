-- ===== src/Vault/Secrecy.antt =====
-- What src/vault/proof_vault.rs does with the key of a token, but for the cipher.
use tari_vault.Base.{ℕ, Bytes, ◌≡◌, Option, ok, arith}
use tari_vault.Domain.Chrono.{Instant}
use tari_vault.Domain.Proof.{PlaintextProof}
use tari_vault.Domain.ClaimId.{ClaimId, decode}
use tari_vault.Storage.Backend.{StorageBackend}
use tari_vault.Vault.{Crypto, Entropy, StoreClock, store_proof, delete_proof}

module _ {S : Type 0} (crypto : Crypto) (backend : StorageBackend S) where
  -- Over any backend, two keys and two proofs that are encrypted to one ciphertext leave one state
  -- after `store_proof`.
  state-store_proof :
      (e : Entropy) (key : Bytes) (clock : StoreClock) (proof proof' : PlaintextProof)
      (ttl : Option ℕ) (s : S)
      → crypto.aead.encrypt e.key e.nonce proof.contents
        ≡ crypto.aead.encrypt key e.nonce proof'.contents
      → (store_proof crypto backend e clock proof ttl s).1
        ≡ (store_proof crypto backend (record e { key = key }) clock proof' ttl s).1
  unfolding store_proof
  state-store_proof e key clock proof proof' ttl s same = rw same (ground arith)

  -- Over any backend, two tokens that decode to claims with one record id have one effect and one
  -- answer in `delete_proof`, whatever their keys.
  delete_proof_ignores_key :
      (now : Instant) (token token' : Bytes) (claim claim' : ClaimId) (s : S)
      → decode crypto.base64 token ≡ ok claim
      → decode crypto.base64 token' ≡ ok claim'
      → claim.record_id ≡ claim'.record_id
      → delete_proof crypto backend now token s ≡ delete_proof crypto backend now token' s
  unfolding delete_proof
  delete_proof_ignores_key now token token' claim claim' s d d' same = rw (d, d', same)
