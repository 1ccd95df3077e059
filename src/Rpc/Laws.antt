-- ===== src/Rpc/Laws.antt =====
-- What a JSON-RPC client is told.
use Prim.Native.String.{String, ◌++◌}
use tari_vault.Base.{
  ℕ, none, ◌≤◌, ◌<◌, Bytes, length, ◌≡◌, refl, false, ok, err, lt→ltb, le→ltb, arith,
}
use tari_vault.Error.{
  negsuc, VaultError, proof_not_found, proof_expired, decryption_failed, invalid_claim_id,
  invalid_parameter, storage, serialization, rpc_code, message,
}
use tari_vault.Domain.Chrono.{Instant}
use tari_vault.Domain.Record.{StoredRecord, is_expired}
use tari_vault.Domain.ClaimId.{ClaimId, new, encode, decode}
use tari_vault.Domain.Proof.{SerdeJson, PlaintextProof, from_json, into_json}
use tari_vault.Storage.Backend.{StorageBackend, Contract}
use tari_vault.Vault.{Crypto, Entropy, IsEntropy, StoreClock, retrieve_proof}
use tari_vault.Vault.Interface.{standard_vault}
use tari_vault.Vault.Spec.{storing}
use tari_vault.Vault.RoundTrip.{IsGone, retrieve-store, single_use}
use tari_vault.Rpc.{
  decimal, StoreProofParams, vault_to_rpc_err, rpc_store_proof, rpc_retrieve_proof,
}

-- The errors that share a code are the two internal ones.
abbrev pub SameKind : VaultError → VaultError → Type 0
SameKind proof_not_found proof_not_found = Unit
SameKind proof_expired proof_expired = Unit
SameKind decryption_failed decryption_failed = Unit
SameKind invalid_claim_id invalid_claim_id = Unit
SameKind (invalid_parameter _) (invalid_parameter _) = Unit
SameKind (storage _) (storage _) = Unit
SameKind (storage _) (serialization _) = Unit
SameKind (serialization _) (storage _) = Unit
SameKind (serialization _) (serialization _) = Unit
SameKind _ _ = ⊥

-- Two errors with one code are of one kind, where storage and serialization errors count as one.
pub rpc_code_kinds : (e f : VaultError) → (rpc_code e ≡ rpc_code f) → SameKind e f
unfolding rpc_code
rpc_code_kinds proof_not_found proof_not_found h = tt
rpc_code_kinds proof_expired proof_expired h = tt
rpc_code_kinds decryption_failed decryption_failed h = tt
rpc_code_kinds invalid_claim_id invalid_claim_id h = tt
rpc_code_kinds (invalid_parameter _) (invalid_parameter _) h = tt
rpc_code_kinds (storage _) (storage _) h = tt
rpc_code_kinds (storage _) (serialization _) h = tt
rpc_code_kinds (serialization _) (storage _) h = tt
rpc_code_kinds (serialization _) (serialization _) h = tt
rpc_code_kinds e f h = ground arith

module _ {S : Type 0} (serde : SerdeJson) (crypto : Crypto) (backend : StorageBackend S) where
  -- A proof whose JSON text is longer than the limit is refused with the code -32006 and a text that
  -- names the limit, and the vault is not asked.
  pub oversized_refused :
      (max : ℕ) (e : Entropy) (clock : StoreClock) (params : StoreProofParams serde) (s : S)
      → max < length (serde.to_string params.proof_json)
      → let why = "proof_json exceeds maximum allowed size of " ++ decimal max ++ " bytes" in
        rpc_store_proof serde (standard_vault crypto backend) max e clock params s ≡ (
          err (record {
            code = negsuc 32005;
            text = message (invalid_parameter why);
            payload = none;
          }),
          s,
        )
  unfolding rpc_store_proof vault_to_rpc_err
  oversized_refused max e clock params s h = rw (lt→ltb max _ h)

  module _ (c : Contract backend) where
    -- Over a healthy backend, when the JSON text is within the limit, `serde_json` reads back the
    -- value that it wrote, and the record is made and accepted: the handler of storeProof answers
    -- the token, that of retrieveProof answers the value while the record has not expired, and
    -- after it the record is gone.
    pub rpc_round_trip :
        (max : ℕ) (e : Entropy) (clock : StoreClock) (params : StoreProofParams serde)
        (bytes : Bytes) (r : StoredRecord) (now : Instant) (s : S)
        → IsEntropy e
        → length (serde.to_string params.proof_json) ≤ max
        → serde.to_vec params.proof_json ≡ ok bytes
        → serde.from_slice bytes ≡ ok params.proof_json
        → storing crypto e clock (record { contents = bytes }) params.expires_in_secs ≡ ok r
        → c.IsAccepted r
        → c.IsHealthy s
        → is_expired now r ≡ false
        → let stored = rpc_store_proof serde (standard_vault crypto backend) max e clock params s in
          let token = encode crypto.base64 (new e.uuid e.key) in
          let got = rpc_retrieve_proof serde (standard_vault crypto backend) now token stored.1 in
          (stored.0 ≡ ok token)
          × (got.0 ≡ ok (record { proof_json = params.proof_json }))
          × IsGone crypto backend c e.uuid got.1
    unfolding rpc_store_proof rpc_retrieve_proof from_json into_json
    rpc_round_trip max e clock params bytes r now s v fits printed parsed made accepted h live =
        let (answer, got, gone) =
          retrieve-store crypto backend c e v clock (record { contents = bytes })
            params.expires_in_secs s r now made accepted h live in
        rw (le→ltb max _ fits, printed, answer, got, parsed) (refl, refl, gone)

    -- Over a healthy backend, when the vault hands out a proof that is no JSON: the client is
    -- answered by the serialization error, and the record is gone.
    pub unreadable_proof_is_lost :
        (claim : ClaimId) (token : Bytes) (now : Instant) (s : S) (p : PlaintextProof)
        (why : String)
        → decode crypto.base64 token ≡ ok claim
        → c.IsHealthy s
        → (retrieve_proof crypto backend now token s).0 ≡ ok p
        → serde.from_slice p.contents ≡ err why
        → let got = rpc_retrieve_proof serde (standard_vault crypto backend) now token s in
          (got.0 ≡ err (vault_to_rpc_err (serialization why)))
          × IsGone crypto backend c claim.record_id got.1
    unfolding rpc_retrieve_proof into_json
    unreadable_proof_is_lost claim token now s p why d h got bad =
        rw (got, bad) (refl, single_use crypto backend c claim token s now p d h got)
