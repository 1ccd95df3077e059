-- ===== src/Rpc/RoundTrip.antt =====
-- A proof from one HTTP request to another: src/rpc/server.rs over src/vault/proof_vault.rs.
use tari_vault.Base.{ℕ, Bytes, ◌≡◌, refl, false, some, [], ◌∷◌, length, ◌≤◌, ok}
use tari_vault.Domain.Proof.{SerdeJson}
use tari_vault.Domain.Record.{StoredRecord, is_expired}
use tari_vault.Domain.ClaimId.{new, encode}
use tari_vault.Storage.Backend.{StorageBackend, Contract}
use tari_vault.Vault.{Crypto, IsEntropy}
use tari_vault.Vault.Interface.{standard_vault, shared}
use tari_vault.Vault.Spec.{storing}
use tari_vault.Vault.RoundTrip.{IsGone}
use tari_vault.Auth.{HttpCrates, Request, Carries}
use tari_vault.Rpc.{StoreProofParams}
use tari_vault.Rpc.Laws.{rpc_round_trip}
use tari_vault.Rpc.Jsonrpsee.{Ambient, token, object, Jsonrpsee}
use tari_vault.Rpc.Methods.{rpc_module, store_name, retrieve_name}
use tari_vault.Rpc.Service.{service, service-store, service-retrieve}

module _ {S : Type 0} (crypto : Crypto) (backend : StorageBackend S) (c : Contract backend)
    (serde : SerdeJson) (rpc : Jsonrpsee serde S) (http : HttpCrates) (max : ℕ)
    (openrpc_spec : Bytes) where
  -- Over a healthy backend and with a token that is not empty: when two requests that carry it are one call of
  -- `vault_storeProof` and one of `vault_retrieveProof` with the claim id that the first is given, and the
  -- value is within the limit, `serde_json` reads back what it wrote, the record is made and accepted, and the
  -- second comes before it expires, then the first is answered by the claim id and the second by the value, and
  -- the record is gone.
  pub http_round_trip :
      (b : ℕ) (bs : Bytes) (m : rpc.RpcModule) (a a2 : ℕ → Ambient) (req1 req2 : Request)
      (p1 p2 : rpc.Params) (params : StoreProofParams serde) (bytes : Bytes) (r : StoredRecord)
      (s : S)
      → rpc_module serde rpc (shared (standard_vault crypto backend)) max openrpc_spec ≡ ok m
      → Carries http (b ∷ bs) req1 × Carries http (b ∷ bs) req2
      → (rpc.calls req1 ≡ (store_name, p1) ∷ []) × (rpc.store_params p1 ≡ ok params)
      → (rpc.calls req2 ≡ (retrieve_name, p2) ∷ [])
        × (rpc.claim_id_param p2 ≡ ok (encode crypto.base64 (new (a 0).draws.uuid (a 0).draws.key)))
      → IsEntropy (a 0).draws
      → length (serde.to_string params.proof_json) ≤ max
      → (serde.to_vec params.proof_json ≡ ok bytes)
        × (serde.from_slice bytes ≡ ok params.proof_json)
      → storing crypto (a 0).draws (a 0).clock (record { contents = bytes }) params.expires_in_secs
        ≡ ok r
      → c.IsAccepted r
      → c.IsHealthy s
      → is_expired (a2 0).now r ≡ false
      → let stored = service http serde rpc (some (b ∷ bs)) m a req1 s in
        let got = service http serde rpc (some (b ∷ bs)) m a2 req2 stored.1 in
        (stored.0
          ≡ ok (
              rpc.respond
                (ok (token (encode crypto.base64 (new (a 0).draws.uuid (a 0).draws.key))))))
        × (got.0 ≡ ok (rpc.respond (ok (object (record { proof_json = params.proof_json })))))
        × IsGone crypto backend c (a 0).draws.uuid got.1
  unfolding service
  http_round_trip b bs m a a2 req1 req2 p1 p2 params bytes r s built carries asks claims v fits json
        made accepted h live =
      let served =
        rpc_round_trip serde crypto backend c max (a 0).draws (a 0).clock params bytes r (a2 0).now
          s v fits json.0 json.1 made accepted h live in
      let first =
        service-store serde rpc (shared (standard_vault crypto backend)) max openrpc_spec http b bs
          m a req1 p1 params _ s built carries.0 asks.0 asks.1 served.0 in
      let second =
        service-retrieve serde rpc (shared (standard_vault crypto backend)) max openrpc_spec http b
          bs m a2 req2 p2 _ _ _ built carries.1 claims.0 claims.1 served.1 in
      rw (first, second) (refl, refl, served.2)
