-- ===== src/Rpc/Service.antt =====
-- src/rpc/server.rs: a request of a client, through the authorization layer, the table of methods, the handlers and
-- the vault, down to the storage.
use tari_vault.Base.{
  ℕ, Bytes, bytes_eq, ◌≡◌, ◌≢◌, refl, ◌∙◌, subst, Option, some, [], ◌∷◌, ok, panic, inl, inr, Exec,
}
use tari_vault.Domain.Proof.{SerdeJson}
use tari_vault.Vault.Interface.{ProofVault}
use tari_vault.Auth.{HttpCrates, Request, Response, call, from_config, Carries, call-from_config}
use tari_vault.Rpc.{ProofObject, StoreProofParams, rpc_store_proof, rpc_retrieve_proof}
use tari_vault.Rpc.Jsonrpsee.{Ambient, token, object, Method, Jsonrpsee}
use tari_vault.Rpc.Methods.{
  store_method, retrieve_method, rpc_module, rpc_module_methods, known_method, store_name,
  retrieve_name,
}

module _ {S : Type 0} (http : HttpCrates) (serde : SerdeJson) (rpc : Jsonrpsee serde S) where
  -- The server behind the layer, as `start_plain` and `start_tls` build it.
  unfoldable pub service :
      Option Bytes → rpc.RpcModule → (ℕ → Ambient) → Request → Exec S (Unit {0}) Response
  service auth_token m a req = call http (from_config auth_token) (rpc.serve m a) req

module _ {S : Type 0} (serde : SerdeJson) (rpc : Jsonrpsee serde S) (vault : ProofVault S) (max : ℕ)
    (openrpc_spec : Bytes) where
  -- The methods of the module that was built.
  pub module_lem :
      (m : rpc.RpcModule)
      → rpc_module serde rpc vault max openrpc_spec ≡ ok m
      → (n : Bytes) → rpc.method m n ≡ known_method serde rpc vault max openrpc_spec n
  module_lem m built n =
      let (m', made, known) = rpc_module_methods serde rpc vault max openrpc_spec in
      let same : m' ≡ m = cc in
      subst (λ x. rpc.method x n ≡ known_method serde rpc vault max openrpc_spec n) same (known n)

  -- A request that carries the token and is one call of a known method is answered by what the method answers, unless
  -- the method panics.
  pub service-call :
      (http : HttpCrates) (b : ℕ) (bs : Bytes) (m : rpc.RpcModule) (a : ℕ → Ambient) (req : Request)
      (name : Bytes) (params : rpc.Params) (f : Method serde S rpc.Params) (s : S)
      → rpc_module serde rpc vault max openrpc_spec ≡ ok m
      → Carries http (b ∷ bs) req
      → rpc.calls req ≡ (name, params) ∷ []
      → known_method serde rpc vault max openrpc_spec name ≡ some f
      → (f (a 0) params s).0 ≢ panic
      → service http serde rpc (some (b ∷ bs)) m a req s
        ≡ (ok (rpc.respond (f (a 0) params s).0), (f (a 0) params s).1)
  unfolding service
  service-call http b bs m a req name params f s built carries one known fine =
      elim (call-from_config http (rpc.serve m a) b bs req s) [
        | inl (also, e) ↦
            e ∙ rpc.serve-call m a req name params f s one (module_lem m built name ∙ known) fine
        | inr (missing, e) ↦ absurd (missing carries)
      ]

  store_known :
      known_method serde rpc vault max openrpc_spec store_name
      ≡ some (store_method serde rpc vault max)
  unfolding bytes_eq
  store_known = refl

  retrieve_known :
      known_method serde rpc vault max openrpc_spec retrieve_name
      ≡ some (retrieve_method serde rpc vault)
  unfolding bytes_eq
  retrieve_known = refl

  store_method-ok :
      (a : Ambient) (p : rpc.Params) (params : StoreProofParams serde) (t : Bytes) (s : S)
      → rpc.store_params p ≡ ok params
      → (rpc_store_proof serde vault max a.draws a.clock params s).0 ≡ ok t
      → store_method serde rpc vault max a p s
        ≡ (ok (token t), (rpc_store_proof serde vault max a.draws a.clock params s).1)
  unfolding store_method
  store_method-ok a p params t s e got = rw (e, got) refl

  retrieve_method-ok :
      (a : Ambient) (p : rpc.Params) (t : Bytes) (o : ProofObject serde) (s : S)
      → rpc.claim_id_param p ≡ ok t
      → (rpc_retrieve_proof serde vault a.now t s).0 ≡ ok o
      → retrieve_method serde rpc vault a p s
        ≡ (ok (object o), (rpc_retrieve_proof serde vault a.now t s).1)
  unfolding retrieve_method
  retrieve_method-ok a p t o s e got = rw (e, got) refl

  module _ (http : HttpCrates) (b : ℕ) (bs : Bytes) (m : rpc.RpcModule) (a : ℕ → Ambient)
      (req : Request) (p : rpc.Params) where
    -- What a successful call of `vault_storeProof` is answered by.
    pub service-store :
        (params : StoreProofParams serde) (t : Bytes) (s : S)
        → rpc_module serde rpc vault max openrpc_spec ≡ ok m
        → Carries http (b ∷ bs) req
        → rpc.calls req ≡ (store_name, p) ∷ []
        → rpc.store_params p ≡ ok params
        → (rpc_store_proof serde vault max (a 0).draws (a 0).clock params s).0 ≡ ok t
        → service http serde rpc (some (b ∷ bs)) m a req s ≡ (
          ok (rpc.respond (ok (token t))),
          (rpc_store_proof serde vault max (a 0).draws (a 0).clock params s).1,
        )
    service-store params t s built carries one e got =
        let runs = store_method-ok (a 0) p params t s e got in
        let fine : (store_method serde rpc vault max (a 0) p s).0 ≢ panic =
          rw runs (λ h. absurd cc) in
        service-call http b bs m a req store_name p (store_method serde rpc vault max) s built
          carries one store_known fine
        ∙ rw runs refl

    -- What a successful call of `vault_retrieveProof` is answered by.
    pub service-retrieve :
        (t : Bytes) (o : ProofObject serde) (s : S)
        → rpc_module serde rpc vault max openrpc_spec ≡ ok m
        → Carries http (b ∷ bs) req
        → rpc.calls req ≡ (retrieve_name, p) ∷ []
        → rpc.claim_id_param p ≡ ok t
        → (rpc_retrieve_proof serde vault (a 0).now t s).0 ≡ ok o
        → service http serde rpc (some (b ∷ bs)) m a req s
          ≡ (ok (rpc.respond (ok (object o))), (rpc_retrieve_proof serde vault (a 0).now t s).1)
    service-retrieve t o s built carries one e got =
        let runs = retrieve_method-ok (a 0) p t o s e got in
        let fine : (retrieve_method serde rpc vault (a 0) p s).0 ≢ panic =
          rw runs (λ h. absurd cc) in
        service-call http b bs m a req retrieve_name p (retrieve_method serde rpc vault) s built
          carries one retrieve_known fine
        ∙ rw runs refl
