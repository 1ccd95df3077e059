-- ===== src/Rpc/Methods.antt =====
-- src/rpc/server.rs, src/rpc/api.rs and src/rpc/discovery.rs: the methods by their names.
use Prim.Native.String.{String}
use tari_vault.Base.{
  ℕ, Bytes, ◌≡◌, refl, true, bytes_eq, Option, none, some, [], ◌∷◌, Result, ok, err, panic, map_err,
  if◌then◌else◌, Bool-cases, bytes_eq_iff, subst, ◌∙◌, ◌⊎◌, inl, inr, lift, ◌>>=◌, ◌>>◌, pure,
}
use tari_vault.Error.{negsuc}
use tari_vault.Domain.Proof.{SerdeJson}
use tari_vault.Vault.Interface.{ProofVault}
use tari_vault.Rpc.{ErrorObject, rpc_store_proof, rpc_retrieve_proof, rpc_delete_proof}
use tari_vault.Rpc.Jsonrpsee.{
  token, object, nothing, document, Method, or_else, or_else-none, Jsonrpsee,
}

-- The names: the namespace `vault`, an underscore, and the name of the method.
abbrev namespaced : Bytes → Bytes
namespaced name = b'v' ∷ b'a' ∷ b'u' ∷ b'l' ∷ b't' ∷ b'_' ∷ name

abbrev pub store_name : Bytes
store_name = namespaced (b's' ∷ b't' ∷ b'o' ∷ b'r' ∷ b'e' ∷ b'P' ∷ b'r' ∷ b'o' ∷ b'o' ∷ b'f' ∷ [])

abbrev pub retrieve_name : Bytes
retrieve_name =
    namespaced (
      b'r' ∷ b'e' ∷ b't' ∷ b'r' ∷ b'i' ∷ b'e' ∷ b'v' ∷ b'e' ∷ b'P' ∷ b'r' ∷ b'o' ∷ b'o' ∷ b'f' ∷ [])

abbrev pub delete_name : Bytes
delete_name =
    namespaced (b'd' ∷ b'e' ∷ b'l' ∷ b'e' ∷ b't' ∷ b'e' ∷ b'P' ∷ b'r' ∷ b'o' ∷ b'o' ∷ b'f' ∷ [])

abbrev pub discover_name : Bytes
discover_name =
    b'r' ∷ b'p' ∷ b'c' ∷ b'.' ∷ b'd' ∷ b'i' ∷ b's' ∷ b'c' ∷ b'o' ∷ b'v' ∷ b'e' ∷ b'r' ∷ []

pub spec_error : String → ErrorObject
spec_error e = record {
  code = negsuc 32602;
  text = "Failed to load OpenRPC spec";
  payload = some e;
}

module _ {S : Type 0} (serde : SerdeJson) (rpc : Jsonrpsee serde S) (vault : ProofVault S) where
  unfoldable pub store_method : ℕ → Method serde S rpc.Params
  store_method max_proof_size_bytes a params = do
    p ← lift (rpc.store_params params)
    claim_id ← rpc_store_proof serde vault max_proof_size_bytes a.draws a.clock p
    pure (token claim_id)

  unfoldable pub retrieve_method : Method serde S rpc.Params
  retrieve_method a params = do
    claim_id ← lift (rpc.claim_id_param params)
    proof ← rpc_retrieve_proof serde vault a.now claim_id
    pure (object proof)

  unfoldable pub delete_method : Method serde S rpc.Params
  delete_method a params = do
    claim_id ← lift (rpc.claim_id_param params)
    rpc_delete_proof serde vault a.now claim_id
    pure nothing

  -- `rpc.discover` over the text of openrpc.json, which is compiled in.
  unfoldable pub discover_method : Bytes → Method serde S rpc.Params
  unfolding spec_error
  discover_method openrpc_spec a params = do
    spec ← lift (map_err spec_error (serde.from_str openrpc_spec))
    pure (document spec)

  registered : Bytes → Method serde S rpc.Params → Option rpc.RpcModule → Option rpc.RpcModule
  registered name f none = none
  registered name f (some m) = rpc.register_method name f m

  into_rpc : ℕ → Option rpc.RpcModule
  unfolding registered
  into_rpc max = registered delete_name delete_method (
      registered retrieve_name retrieve_method
        (registered store_name (store_method max) (some rpc.new_module)))

  -- `expect`
  expected : {E : Type 0} → Option rpc.RpcModule → Result E rpc.RpcModule
  expected none = panic
  expected (some m) = ok m

  discovery_module : {E : Type 0} → Bytes → Result E rpc.RpcModule
  unfolding registered expected
  discovery_module openrpc_spec =
      expected (registered discover_name (discover_method openrpc_spec) (some rpc.new_module))

  merged : Option rpc.RpcModule → Result (Unit {0}) rpc.RpcModule → Result (Unit {0}) rpc.RpcModule
  merged none other = err tt
  merged (some a) (ok b) = elim (rpc.merge a b) [ none ↦ err tt | some m ↦ ok m ]
  merged (some a) (err e) = err e
  merged (some a) panic = panic

  -- The module that `start_server` hands to the server. The error is that of a name registered twice.
  unfoldable pub rpc_module : ℕ → Bytes → Result (Unit {0}) rpc.RpcModule
  unfolding into_rpc discovery_module merged
  rpc_module max openrpc_spec = merged (into_rpc max) (discovery_module openrpc_spec)

  -- A table with one entry more.
  abbrev with_entry :
      Bytes
      → Method serde S rpc.Params
      → (Bytes → Option (Method serde S rpc.Params))
      → Bytes
      → Option (Method serde S rpc.Params)
  with_entry name f t n = if bytes_eq name n then some f else t n

  abbrev stored_only : ℕ → Bytes → Option (Method serde S rpc.Params)
  stored_only max = with_entry store_name (store_method max) (λ n. none)

  abbrev redeemable : ℕ → Bytes → Option (Method serde S rpc.Params)
  redeemable max = with_entry retrieve_name retrieve_method (stored_only max)

  abbrev vault_method : ℕ → Bytes → Option (Method serde S rpc.Params)
  vault_method max = with_entry delete_name delete_method (redeemable max)

  -- The methods of a running vault.
  abbrev pub known_method : ℕ → Bytes → Bytes → Option (Method serde S rpc.Params)
  known_method max openrpc_spec n =
      if bytes_eq discover_name n then some (discover_method openrpc_spec) else vault_method max n

  Lists : Option rpc.RpcModule → (Bytes → Option (Method serde S rpc.Params)) → Type 0
  Lists o t = (m : rpc.RpcModule) × (o ≡ some m) × ((n : Bytes) → rpc.method m n ≡ t n)

  registered_lem :
      (name : Bytes) (f : Method serde S rpc.Params) (o : Option rpc.RpcModule)
      (t : Bytes → Option (Method serde S rpc.Params))
      → Lists o t
      → t name ≡ none
      → Lists (registered name f o) (with_entry name f t)
  unfolding registered Lists
  registered_lem name f o t (m, there, known) free =
      let (m', made, at) = rpc.register_method-free name f m (known name ∙ free) in
      (m', rw there made, λ n. at n ∙ rw (known n) refl)

  new_module_lem : Lists (some rpc.new_module) (λ n. none)
  unfolding Lists
  new_module_lem = (rpc.new_module, refl, λ n. rpc.method-new_module n)

  into_rpc_lem : (max : ℕ) → Lists (into_rpc max) (vault_method max)
  unfolding into_rpc bytes_eq
  into_rpc_lem max =
      registered_lem delete_name delete_method _ (redeemable max)
        (registered_lem retrieve_name retrieve_method _ (stored_only max)
          (registered_lem store_name (store_method max) _ (λ n. none) new_module_lem refl) refl)
        refl

  abbrev discovered : Bytes → Bytes → Option (Method serde S rpc.Params)
  discovered openrpc_spec = with_entry discover_name (discover_method openrpc_spec) (λ n. none)

  discovery_lem :
      (openrpc_spec : Bytes)
      → Lists
          (registered discover_name (discover_method openrpc_spec) (some rpc.new_module))
          (discovered openrpc_spec)
  discovery_lem openrpc_spec =
      registered_lem discover_name (discover_method openrpc_spec) (some rpc.new_module) (λ n. none)
        new_module_lem refl

  not_discover : (max : ℕ) → vault_method max discover_name ≡ none
  unfolding bytes_eq
  not_discover max = refl

  not_discover-eq :
      (max : ℕ) (n : Bytes) → bytes_eq discover_name n ≡ true → vault_method max n ≡ none
  not_discover-eq max n hit =
      subst (λ x. vault_method max x ≡ none) ((bytes_eq_iff discover_name n).0 hit)
        (not_discover max)

  apart :
      (max : ℕ) (openrpc_spec n : Bytes)
      → (vault_method max n ≡ none) ⊎ (discovered openrpc_spec n ≡ none)
  apart max openrpc_spec n = elim (Bool-cases (bytes_eq discover_name n)) [
    | inl hit ↦ inl (not_discover-eq max n hit)
    | inr miss ↦ inr (rw miss refl)
  ]

  together :
      (max : ℕ) (openrpc_spec n : Bytes)
      → or_else (vault_method max n) (discovered openrpc_spec n) ≡ known_method max openrpc_spec n
  together max openrpc_spec n = elim (Bool-cases (bytes_eq discover_name n)) [
    | inl hit ↦ rw (not_discover-eq max n hit, hit) refl
    | inr miss ↦ rw miss (or_else-none (vault_method max n))
  ]

  -- The names that the server answers to are these four, each with its method: no name is registered twice, so neither
  -- the registration nor the merge fails or panics.
  pub rpc_module_methods :
      (max : ℕ) (openrpc_spec : Bytes)
      → (m : rpc.RpcModule) × (rpc_module max openrpc_spec ≡ ok m)
        × ((n : Bytes) → rpc.method m n ≡ known_method max openrpc_spec n)
  unfolding rpc_module discovery_module expected merged Lists
  rpc_module_methods max openrpc_spec =
      let (a, made_a, at_a) = into_rpc_lem max in
      let (b, made_b, at_b) = discovery_lem openrpc_spec in
      let (m, made, at) =
        rpc.merge-free a b (λ n. rw (at_a n, at_b n) (apart max openrpc_spec n)) in
      (
        m,
        rw (made_a, made_b, made) refl,
        λ n. at n ∙ rw (at_a n, at_b n) (together max openrpc_spec n),
      )
