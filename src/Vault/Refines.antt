-- ===== src/Vault/Refines.antt =====
-- `retrieve_proof` and `delete_proof` of src/vault/proof_vault.rs against `Vault/Spec.antt`.
use tari_vault.Base.{
  Bytes, IsArray, bytes_eq, ◌≡◌, refl, Bool, true, false, none, ok, err, if◌then◌else◌, ◌==◌,
  length, Bool-cases, Option-cases, inl, inr, ==_iff, ◌&&◌,
}
use tari_vault.Error.{invalid_claim_id}
use tari_vault.Domain.Chrono.{Instant}
use tari_vault.Domain.Record.{is_expired}
use tari_vault.Domain.ClaimId.{ClaimId, IsClaim, decode}
use tari_vault.Domain.ClaimId.Codec.{decode_sound}
use tari_vault.Storage.Backend.{StorageBackend, Contract, is_some}
use tari_vault.Vault.{Crypto, retrieve_proof, delete_proof}
use tari_vault.Vault.Spec.{retrieving, deleting}

module _ {S : Type 0} (crypto : Crypto) (backend : StorageBackend S) (c : Contract backend) where
  -- From `s` to `s'` the backend stays healthy, the record `id` goes if `gone`, and no other changes.
  pub record Becomes (id : Bytes) (gone : Bool) (s s' : S) : Type 0 where
    pub healthy : c.IsHealthy s'
    pub views :
        (j : Bytes)
        → IsArray 16 j
        → c.view s' j ≡ (if gone && bytes_eq id j then none else c.view s j)

  fetched-Becomes : (id : Bytes) (s : S) → c.IsHealthy s → Becomes id false s (backend.fetch id s).1
  fetched-Becomes id s h = record {
    healthy = c.fetch-IsHealthy id s h;
    views = λ j _. c.view-fetch id s h j;
  }

  deleted-Becomes :
      (id : Bytes) (s : S)
      → IsArray 16 id
      → c.IsHealthy s
      → Becomes id true s (backend.delete id (backend.fetch id s).1).1
  deleted-Becomes id s a h =
      let h' = c.fetch-IsHealthy id s h in
      record {
        healthy = c.delete-IsHealthy id _ a h';
        views = λ j aj. rw (c.view-delete id _ a h' j aj, c.view-fetch id s h j) refl;
      }

  deleted-is_some :
      (id : Bytes) (s : S)
      → IsArray 16 id
      → c.IsHealthy s
      → (backend.delete id (backend.fetch id s).1).0 ≡ ok (is_some (c.view s id))
  deleted-is_some id s a h =
      rw (c.delete-is_some id _ a (c.fetch-IsHealthy id s h), c.view-fetch id s h id) refl

  -- Over a healthy backend, for a text that decodes to a claim: `retrieve_proof` answers what the
  -- specification says, the record under the claim's id goes exactly when the specification says
  -- so, no other record changes, and the backend stays healthy.
  pub retrieve_proof_refines :
      (now : Instant) (token : Bytes) (claim : ClaimId) (s : S)
      → decode crypto.base64 token ≡ ok claim
      → c.IsHealthy s
      → let verdict = retrieving crypto.aead now claim (c.view s claim.record_id) in
        ((retrieve_proof crypto backend now token s).0 ≡ verdict.0)
        × Becomes claim.record_id verdict.1 s (retrieve_proof crypto backend now token s).1
  unfolding retrieve_proof
  retrieve_proof_refines now token claim s d h =
      let v : IsClaim claim = (decode_sound crypto.base64 token claim d).0 in
      let id = claim.record_id in
      let a : IsArray 16 id = v.id_array in
      let fetched : Becomes id false s (backend.fetch id s).1 = fetched-Becomes id s h in
      let deleted : Becomes id true s (backend.delete id (backend.fetch id s).1).1 =
        deleted-Becomes id s a h in
      let removed = deleted-is_some id s a h in
      let whole_key : (length claim.encryption_key == 32) ≡ true =
        (==_iff _ _).1 v.key_array.size in
      rw (d, c.fetch-view id s a h)
        (elim (Option-cases (c.view s id)) [
          | inl e ↦ rw e (refl, fetched)
          | inr (r, e) ↦ elim (Bool-cases (is_expired now r)) [
            | inl late ↦ rw (e, late, removed) (refl, deleted)
            | inr live ↦ elim (Bool-cases (length r.nonce == 12)) [
              | inr odd ↦ rw (e, live, odd) (refl, fetched)
              | inl whole ↦
                  elim (Option-cases
                    (crypto.aead.decrypt claim.encryption_key r.nonce r.ciphertext)) [
                      | inl fails ↦ rw (e, live, whole, whole_key, fails) (refl, fetched)
                      | inr (plain, opens) ↦
                          rw (e, live, whole, whole_key, opens, removed) (refl, deleted)
                    ]
            ]
          ]
        ])

  -- Over a healthy backend, for a text that decodes to a claim: `delete_proof` answers what the
  -- specification says, the record under the claim's id goes exactly when the specification says
  -- so, no other record changes, and the backend stays healthy.
  pub delete_proof_refines :
      (now : Instant) (token : Bytes) (claim : ClaimId) (s : S)
      → decode crypto.base64 token ≡ ok claim
      → c.IsHealthy s
      → let verdict = deleting now (c.view s claim.record_id) in
        ((delete_proof crypto backend now token s).0 ≡ verdict.0)
        × Becomes claim.record_id verdict.1 s (delete_proof crypto backend now token s).1
  unfolding delete_proof
  delete_proof_refines now token claim s d h =
      let id = claim.record_id in
      let a : IsArray 16 id = (decode_sound crypto.base64 token claim d).0.id_array in
      let fetched : Becomes id false s (backend.fetch id s).1 = fetched-Becomes id s h in
      let deleted : Becomes id true s (backend.delete id (backend.fetch id s).1).1 =
        deleted-Becomes id s a h in
      let removed = deleted-is_some id s a h in
      rw (d, c.fetch-view id s a h)
        (elim (Option-cases (c.view s id)) [
          | inl e ↦ rw e (refl, fetched)
          | inr (r, e) ↦ elim (Bool-cases (is_expired now r)) [
            | inl late ↦ rw (e, late, removed) (refl, deleted)
            | inr live ↦ rw (e, live, removed, e) (refl, deleted)
          ]
        ])

  -- A text that `decode` refuses is answered by `invalid_claim_id`, by a retrieval and by a delete,
  -- and the state is what it was.
  pub malformed_token :
      (now : Instant) (token : Bytes) (s : S)
      → decode crypto.base64 token ≡ err invalid_claim_id
      → (retrieve_proof crypto backend now token s ≡ (err invalid_claim_id, s))
        × (delete_proof crypto backend now token s ≡ (err invalid_claim_id, s))
  unfolding retrieve_proof delete_proof
  malformed_token now token s d = rw d (refl, refl)
