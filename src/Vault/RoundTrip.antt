-- ===== src/Vault/RoundTrip.antt =====
-- A store and the retrievals and deletes that come after it.
use tari_vault.Base.{
  ℕ, Bytes, IsArray, bytes_eq_refl, ◌≡◌, refl, ap, sym, ◌∙◌, true, false, Option, none, some,
  Result, ok, err, ◌==◌, length, arith, ==_iff,
}
use tari_vault.Error.{VaultError, proof_not_found}
use tari_vault.Domain.Chrono.{Instant}
use tari_vault.Domain.Record.{StoredRecord, is_expired}
use tari_vault.Domain.Proof.{PlaintextProof}
use tari_vault.Domain.ClaimId.{ClaimId, new, encode, decode}
use tari_vault.Domain.ClaimId.Codec.{decode-encode, decode_sound}
use tari_vault.Storage.Backend.{StorageBackend, Contract}
use tari_vault.Vault.{
  Crypto, Entropy, IsEntropy, StoreClock, store_proof, retrieve_proof, delete_proof,
}
use tari_vault.Vault.Spec.{storing, retrieving, deleting}
use tari_vault.Vault.Refines.{Becomes, retrieve_proof_refines, delete_proof_refines}
use tari_vault.Vault.Storing.{store_proof_refines, storing-encrypt}

module _ {S : Type 0} (crypto : Crypto) (backend : StorageBackend S) (c : Contract backend) where
  abbrev pub retrieve : Instant → Bytes → S → Result VaultError PlaintextProof × S
  retrieve = retrieve_proof crypto backend

  abbrev pub delete : Instant → Bytes → S → Result VaultError (Unit {0}) × S
  delete = delete_proof crypto backend

  -- The record under an id is gone, and the backend is healthy.
  pub record IsGone (id : Bytes) (s : S) : Type 0 where
    pub healthy : c.IsHealthy s
    pub missing : c.view s id ≡ none

  -- When the record under an id is gone and the backend is healthy, a retrieval and a delete by any
  -- token for the id are both answered by `proof_not_found`.
  pub gone_for_good :
      (claim : ClaimId) (token : Bytes) (s : S) (now : Instant)
      → decode crypto.base64 token ≡ ok claim
      → IsGone claim.record_id s
      → ((retrieve now token s).0 ≡ err proof_not_found)
        × ((delete now token s).0 ≡ err proof_not_found)
  gone_for_good claim token s now d g =
      let r = retrieve_proof_refines crypto backend c now token claim s d g.healthy in
      let q = delete_proof_refines crypto backend c now token claim s d g.healthy in
      (rw g.missing at r.0, rw g.missing at q.0)

  pub Becomes-IsGone :
      (id : Bytes) (s s' : S) → IsArray 16 id → Becomes crypto backend c id true s s' → IsGone id s'
  Becomes-IsGone id s s' a b = record {
    healthy = b.healthy;
    missing = rw bytes_eq_refl at (b.views id a);
  }

  retrieving_ok :
      (now : Instant) (claim : ClaimId) (o : Option StoredRecord) (p : PlaintextProof)
      → (retrieving crypto.aead now claim o).0 ≡ ok p
      → (retrieving crypto.aead now claim o).1 ≡ true
  retrieving_ok now claim none p h = cc
  retrieving_ok now claim (some r) p h = ground arith

  -- Over a healthy backend, after a retrieval that succeeds the record under the id of its claim is
  -- gone, and the backend is healthy.
  pub single_use :
      (claim : ClaimId) (token : Bytes) (s : S) (now : Instant) (p : PlaintextProof)
      → decode crypto.base64 token ≡ ok claim
      → c.IsHealthy s
      → (retrieve now token s).0 ≡ ok p
      → IsGone claim.record_id (retrieve now token s).1
  single_use claim token s now p d h e =
      let (answer, becomes) = retrieve_proof_refines crypto backend c now token claim s d h in
      let verdict = retrieving crypto.aead now claim (c.view s claim.record_id) in
      let taken : verdict.1 ≡ true = retrieving_ok now claim _ p (sym answer ∙ e) in
      Becomes-IsGone claim.record_id s _ (decode_sound crypto.base64 token claim d).0.id_array
        (rw taken at becomes)

  deleting_ok :
      (now : Instant) (o : Option StoredRecord)
      → (deleting now o).0 ≡ ok tt
      → (deleting now o).1 ≡ true
  deleting_ok now none h = cc
  deleting_ok now (some r) h = ground arith

  -- Over a healthy backend, after a delete that succeeds the record under the id of its claim is
  -- gone, and the backend is healthy.
  pub deleted_for_good :
      (claim : ClaimId) (token : Bytes) (s : S) (now : Instant)
      → decode crypto.base64 token ≡ ok claim
      → c.IsHealthy s
      → (delete now token s).0 ≡ ok tt
      → IsGone claim.record_id (delete now token s).1
  deleted_for_good claim token s now d h e =
      let (answer, becomes) = delete_proof_refines crypto backend c now token claim s d h in
      let taken : (deleting now (c.view s claim.record_id)).1 ≡ true =
        deleting_ok now _ (sym answer ∙ e) in
      Becomes-IsGone claim.record_id s _ (decode_sound crypto.base64 token claim d).0.id_array
        (rw taken at becomes)

  module _ (e : Entropy) (v : IsEntropy e) (clock : StoreClock) (proof : PlaintextProof)
      (ttl : Option ℕ) where
    abbrev pub claim : ClaimId
    claim = new e.uuid e.key

    abbrev pub token : Bytes
    token = encode crypto.base64 claim

    abbrev pub stored : S → S
    stored s = (store_proof crypto backend e clock proof ttl s).1

    pub decode-token : decode crypto.base64 token ≡ ok claim
    decode-token =
        decode-encode crypto.base64 claim
          (record { id_array = v.uuid_array; key_array = v.key_array })

    -- A record that was made from the proof opens under the claim's key.
    storing-opens :
        (now : Instant) (r : StoredRecord)
        → storing crypto e clock proof ttl ≡ ok r
        → is_expired now r ≡ false
        → (retrieving crypto.aead now claim (some r)).0 ≡ ok proof
    storing-opens now r made live =
        let (same_nonce, enc) = storing-encrypt crypto backend e clock proof ttl r made in
        let whole : (length r.nonce == 12) ≡ true =
          (==_iff _ _).1 (ap length same_nonce ∙ v.nonce_array.size) in
        let opens : crypto.aead.decrypt e.key r.nonce r.ciphertext ≡ some proof.contents =
          rw same_nonce
            (crypto.aead.decrypt-encrypt e.key e.nonce proof.contents r.ciphertext enc) in
        rw (live, whole, opens) refl

    -- Over a healthy backend, when the specification makes a record that the contract accepts:
    -- `store_proof` answers the token of the claim, a retrieval by that token while the record has
    -- not expired answers the proof, and after it the record is gone.
    pub retrieve-store :
        (s : S) (r : StoredRecord) (now : Instant)
        → storing crypto e clock proof ttl ≡ ok r
        → c.IsAccepted r
        → c.IsHealthy s
        → is_expired now r ≡ false
        → ((store_proof crypto backend e clock proof ttl s).0 ≡ ok token)
          × ((retrieve now token (stored s)).0 ≡ ok proof)
          × IsGone e.uuid (retrieve now token (stored s)).1
    retrieve-store s r now made accepted h live =
        let after =
          store_proof_refines crypto backend e clock proof c ttl s r made v.uuid_array accepted h in
        let there : c.view (stored s) e.uuid ≡ some r =
          rw bytes_eq_refl at (after.views e.uuid v.uuid_array) in
        let (answer, _) =
          retrieve_proof_refines crypto backend c now token claim (stored s) decode-token
            after.healthy in
        let got = answer ∙ rw there (storing-opens now r made live) in
        (
          after.answer,
          got,
          single_use claim token (stored s) now proof decode-token after.healthy got,
        )
