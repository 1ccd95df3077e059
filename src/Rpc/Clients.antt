-- ===== src/Rpc/Clients.antt =====
-- Rpc.Service over `StandardVault`: what the requests of clients can make of the storage.
use tari_vault.Base.{
  arith, bytes_eq, bytes_eq_iff, List, ℕ, Bytes, ◌≡◌, refl, sym, ◌∙◌, subst, Option, none, some, [],
  ◌∷◌, length, ltb, Result, ok, err, panic, if◌then◌else◌, Bool-cases, Result-cases, inl, inr, ◌⊎◌,
  Exec, continue, map_err, mapping,
}
use tari_vault.Domain.Proof.{SerdeJson, from_json, into_json}
use tari_vault.Storage.Backend.{StorageBackend}
use tari_vault.Vault.{Crypto}
use tari_vault.Vault.Interface.{ProofVault, standard_vault, shared}
use tari_vault.Vault.History.{Call, store, retrieve, delete, sweep, after}
use tari_vault.Auth.{HttpCrates, Request, Carries, call, call-from_config, disabled-call}
use tari_vault.Rpc.{
  vault_to_rpc_err, StoreProofParams, rpc_store_proof, rpc_retrieve_proof, rpc_delete_proof,
}
use tari_vault.Rpc.Jsonrpsee.{Ambient, Method, Picks, Runs, done, then_run, Jsonrpsee}
use tari_vault.Rpc.Asked.{MadeFrom}
use tari_vault.Rpc.Methods.{
  store_name, retrieve_name, delete_name, discover_name, store_method, retrieve_method,
  delete_method, discover_method, rpc_module, known_method,
}
use tari_vault.Rpc.Service.{service, module_lem}

-- What only answers leaves the state alone.
continue-same :
    {S E A B : Type 0} (r : Result E A) (f : A → Exec S E B) (s : S)
    → ((x : A) (s : S) → (f x s).1 ≡ s)
    → (continue r f s).1 ≡ s
continue-same (ok x) f s same = same x s
continue-same (err e) f s same = refl
continue-same panic f s same = refl

module _ {S : Type 0} (crypto : Crypto) (backend : StorageBackend S) (a : ℕ → Ambient)
    (serde : SerdeJson) (rpc : Jsonrpsee serde S) (max : ℕ) where
  -- The random bytes and the clock of a call are the environment's.
  abbrev pub IsClientCall : ℕ → Call → Type 0
  IsClientCall i (store e clock proof ttl) = (e ≡ (a i).draws) × (clock ≡ (a i).clock)
  IsClientCall i (retrieve now claim_id) = now ≡ (a i).now
  IsClientCall i (delete now claim_id) = now ≡ (a i).now
  IsClientCall i (sweep now) = ⊥

  -- At most one call of the vault, which is made from the name and the parameters.
  abbrev pub OneCall : Bytes → rpc.Params → S → S → Type 0
  OneCall name params s s' =
      (s' ≡ s)
      ⊎ ((call : Call) × (i : ℕ) × MadeFrom serde rpc max name params call
          × IsClientCall i call
          × (s' ≡ after crypto backend call s))

  -- Some calls of a list, none of them twice, one after another.
  pub data Leads : List (Bytes × rpc.Params) → S → S → Type 0 where
    here : {calls : List (Bytes × rpc.Params)} {s : S} → Leads calls s s
    next :
        {calls rest : List (Bytes × rpc.Params)} {s s1 s2 : S} (name : Bytes) (params : rpc.Params)
        → Picks calls (name, params) rest
        → OneCall name params s s1
        → Leads rest s1 s2
        → Leads calls s s2

  module _ (openrpc_spec : Bytes) where
    abbrev vault : ProofVault S
    vault = shared (standard_vault crypto backend)

    OneCall-same :
        {name : Bytes} {params : rpc.Params} {s s1 s2 : S}
        → s2 ≡ s1
        → OneCall name params s s1
        → OneCall name params s s2
    OneCall-same e (inl same) = inl (e ∙ same)
    OneCall-same e (inr (call, i, made, h, leads)) = inr (call, i, made, h, e ∙ leads)

    rpc_store-OneCall :
        (i : ℕ) (params : rpc.Params) (p : StoreProofParams serde) (s : S)
        → rpc.store_params params ≡ ok p
        → OneCall store_name params s
            (rpc_store_proof serde
              (standard_vault crypto backend)
              max
              (a i).draws
              (a i).clock
              p
              s).1
    unfolding rpc_store_proof after
    rpc_store-OneCall i params p s read =
        elim (Bool-cases (ltb max (length (serde.to_string p.proof_json)))) [
          | inl large ↦ rw large (inl refl)
          | inr fits ↦ elim (Result-cases (from_json serde p.proof_json)) [
            | inl (proof, e) ↦
                rw (fits, e)
                  (inr (
                    store (a i).draws (a i).clock proof p.expires_in_secs,
                    i,
                    (refl, (p, read, ground arith, e, refl)),
                    (refl, refl),
                    refl,
                  ))
            | inr (inl (x, e)) ↦ rw (fits, e) (inl refl)
            | inr (inr e) ↦ rw (fits, e) (inl refl)
          ]
        ]

    rpc_retrieve-OneCall :
        (i : ℕ) (params : rpc.Params) (claim_id : Bytes) (s : S)
        → rpc.claim_id_param params ≡ ok claim_id
        → OneCall retrieve_name params s (rpc_retrieve_proof serde vault (a i).now claim_id s).1
    unfolding rpc_retrieve_proof after
    rpc_retrieve-OneCall i params claim_id s read =
        let got = mapping vault_to_rpc_err (vault.retrieve_proof (a i).now claim_id) s in
        let one : OneCall retrieve_name params s got.1 =
          inr (retrieve (a i).now claim_id, i, (refl, read), refl, refl) in
        OneCall-same
          (continue-same got.0 _ got.1
            (λ p s. continue-same (map_err vault_to_rpc_err (into_json serde p)) _ s (λ v s. refl)))
          one

    -- A method each of whose runs makes at most one call.
    abbrev IsOneCall : Bytes → Method serde S rpc.Params → Type 0
    IsOneCall name f =
        (i : ℕ) (params : rpc.Params) (s : S) → OneCall name params s (f (a i) params s).1

    store_method-IsOneCall : IsOneCall store_name (store_method serde rpc vault max)
    unfolding store_method
    store_method-IsOneCall i params s = elim (Result-cases (rpc.store_params params)) [
      | inl (p, e) ↦
          rw e (OneCall-same (continue-same _ _ _ (λ t s. refl)) (rpc_store-OneCall i params p s e))
      | inr (inl (x, e)) ↦ rw e (inl refl)
      | inr (inr e) ↦ rw e (inl refl)
    ]

    retrieve_method-IsOneCall : IsOneCall retrieve_name (retrieve_method serde rpc vault)
    unfolding retrieve_method
    retrieve_method-IsOneCall i params s = elim (Result-cases (rpc.claim_id_param params)) [
      | inl (claim_id, e) ↦ rw e (
          OneCall-same (continue-same _ _ _ (λ t s. refl))
            (rpc_retrieve-OneCall i params claim_id s e))
      | inr (inl (x, e)) ↦ rw e (inl refl)
      | inr (inr e) ↦ rw e (inl refl)
    ]

    delete_method-IsOneCall : IsOneCall delete_name (delete_method serde rpc vault)
    unfolding delete_method rpc_delete_proof after
    delete_method-IsOneCall i params s = elim (Result-cases (rpc.claim_id_param params)) [
      | inl (claim_id, e) ↦ rw e (
          OneCall-same (continue-same _ _ _ (λ t s. refl))
            (inr (delete (a i).now claim_id, i, (refl, e), refl, refl)))
      | inr (inl (x, e)) ↦ rw e (inl refl)
      | inr (inr e) ↦ rw e (inl refl)
    ]

    discover_method-IsOneCall :
        IsOneCall discover_name (discover_method serde rpc vault openrpc_spec)
    unfolding discover_method
    discover_method-IsOneCall i params s = inl (continue-same _ _ s (λ v s. refl))

    abbrev AllOneCall : Bytes → Option (Method serde S rpc.Params) → Type 0
    AllOneCall n o = (f : Method serde S rpc.Params) → o ≡ some f → IsOneCall n f

    entry-AllOneCall :
        (k n : Bytes) (g : Method serde S rpc.Params) (o : Option (Method serde S rpc.Params))
        → IsOneCall k g
        → AllOneCall n o
        → AllOneCall n (if bytes_eq k n then some g else o)
    entry-AllOneCall k n g o one rest f e = elim (Bool-cases (bytes_eq k n)) [
      | inr miss ↦ rest f (rw miss at e)
      | inl hit ↦
          let it : some g ≡ some f = rw hit at e in
          let same : g ≡ f = cc in
          subst (IsOneCall n) same (subst (λ m. IsOneCall m g) ((bytes_eq_iff k n).0 hit) one)
    ]

    known_method-AllOneCall :
        (n : Bytes) → AllOneCall n (known_method serde rpc vault max openrpc_spec n)
    known_method-AllOneCall n = entry-AllOneCall discover_name n _ _ discover_method-IsOneCall (
        entry-AllOneCall delete_name n _ _ delete_method-IsOneCall (
          entry-AllOneCall retrieve_name n _ _ retrieve_method-IsOneCall
            (entry-AllOneCall store_name n _ none store_method-IsOneCall (λ f e. absurd cc))))

    Runs-Leads :
        (m : rpc.RpcModule) {calls : List (Bytes × rpc.Params)} {s s' : S}
        → ((n : Bytes) → rpc.method m n ≡ known_method serde rpc vault max openrpc_spec n)
        → Runs (rpc.method m) a calls s s'
        → Leads calls s s'
    Runs-Leads m known done = here
    Runs-Leads m known (then_run {s} {f} name i params picks e r) =
        next name params picks (known_method-AllOneCall name f (sym (known name) ∙ e) i params s)
          (Runs-Leads m known r)

    served :
        (m : rpc.RpcModule) (req : Request) (s : S)
        → rpc_module serde rpc vault max openrpc_spec ≡ ok m
        → Leads (rpc.calls req) s (rpc.serve m a req s).1
    served m req s built =
        Runs-Leads m (module_lem serde rpc vault max openrpc_spec m built)
          (rpc.serve-Runs m a req s)

    module _ (http : HttpCrates) where
      -- The request carries the token, if the server wants one.
      abbrev pub IsWelcome : Option Bytes → Request → Type 0
      IsWelcome none req = Unit
      IsWelcome (some []) req = Unit
      IsWelcome (some (b ∷ bs)) req = Carries http (b ∷ bs) req

      -- Whatever a client sends, one call, a batch, or something malformed: either the request leaves
      -- the state alone, or it carries the token, if the server wants one, and the state that it leaves
      -- is what some of its calls lead to, none of them twice, one after another. Each of them leaves
      -- the state alone or makes one call of the vault: a store of the proof that the parameters of
      -- `vault_storeProof` hold, within the limit, and for the lifetime they ask for; a retrieval or a
      -- delete by the token that those of `vault_retrieveProof` or `vault_deleteProof` hold; with
      -- random bytes and clock readings of the environment. No request sweeps.
      pub requests_are_calls :
          (auth_token : Option Bytes) (m : rpc.RpcModule) (req : Request) (s : S)
          → rpc_module serde rpc vault max openrpc_spec ≡ ok m
          → let s' = (service http serde rpc auth_token m a req s).1 in
            (s' ≡ s) ⊎ (IsWelcome auth_token req × Leads (rpc.calls req) s s')
      unfolding service
      requests_are_calls none m req s built =
          rw (disabled-call http (rpc.serve m a) none req s (inl refl))
            (inr (tt, served m req s built))
      requests_are_calls (some []) m req s built =
          rw (disabled-call http (rpc.serve m a) (some []) req s (inr refl))
            (inr (tt, served m req s built))
      requests_are_calls (some (b ∷ bs)) m req s built =
          elim (call-from_config http (rpc.serve m a) b bs req s) [
            | inl (carries, e) ↦ rw e (inr (carries, served m req s built))
            | inr (missing, e) ↦ rw e (inl refl)
          ]
