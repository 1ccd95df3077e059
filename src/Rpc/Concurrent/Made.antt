-- ===== src/Rpc/Concurrent/Made.antt =====
-- Which calls of the vault the methods of src/rpc/server.rs make, by their names and parameters.
use tari_vault.Base.{
  ℕ, Bytes, bytes_eq, bytes_eq_iff, ◌≡◌, ◌≢◌, refl, subst, Option, none, some, ◌∷◌, In, length, ltb,
  ok, if◌then◌else◌, Bool-cases, Result-cases, inl, inr, arith,
}
use tari_vault.Domain.Proof.{SerdeJson, from_json}
use tari_vault.Vault.History.{Call, sweep}
use tari_vault.Auth.{HttpCrates, Request, Carries, call}
use tari_vault.Rpc.{ProofObject}
use tari_vault.Rpc.Asked.{MadeFrom}
use tari_vault.Rpc.Jsonrpsee.{Ambient, object, Jsonrpsee}
use tari_vault.Rpc.Methods.{store_name, retrieve_name, delete_name, discover_name}
use tari_vault.Rpc.Opening.{
  Opening, replies, calls, open_method, open_store, open_retrieve, open_delete, discovering,
}

module _ {S : Type 0} (serde : SerdeJson) (rpc : Jsonrpsee serde S) (http : HttpCrates) (max : ℕ)
    (openrpc_spec : Bytes) (b : ℕ) (bs : Bytes) where
  -- The request carries the token, and this is one of its calls.
  abbrev pub Sends : Request → Bytes → rpc.Params → Type 0
  Sends req name params = Carries http (b ∷ bs) req × In (name, params) (rpc.calls req)

  -- A client's call is one that a request with the token has sent; sweeps are the background task's.
  abbrev pub IsSent : Call → Type 0
  IsSent (sweep now) = Unit
  IsSent call =
      (req : Request) × (name : Bytes) × (params : rpc.Params) × Sends req name params
      × MadeFrom serde rpc max name params call

  -- What an opening may be: no reply at once hands out a proof, and a call is made from the parameters.
  abbrev pub IsMade : Bytes → rpc.Params → Opening serde → Type 0
  IsMade name params (replies r) = (o : ProofObject serde) → r ≢ ok (object o)
  IsMade name params (calls call) = MadeFrom serde rpc max name params call

  abbrev pub AllMade : Bytes → rpc.Params → Option (Opening serde) → Type 0
  AllMade name params o = (p : Opening serde) → o ≡ some p → IsMade name params p

  open_store-IsMade :
      (a : Ambient) (params : rpc.Params)
      → IsMade store_name params (open_store serde max a (rpc.store_params params))
  unfolding open_store
  open_store-IsMade a params = elim (Result-cases (rpc.store_params params)) [
    | inr (inl (x, e)) ↦ rw e (λ o h. absurd cc)
    | inr (inr e) ↦ rw e (λ o h. absurd cc)
    | inl (p, e) ↦ elim (Bool-cases (ltb max (length (serde.to_string p.proof_json)))) [
      | inl large ↦ rw (e, large) (λ o h. absurd cc)
      | inr fits ↦ elim (Result-cases (from_json serde p.proof_json)) [
        | inr (inl (x, made)) ↦ rw (e, fits, made) (λ o h. absurd cc)
        | inr (inr made) ↦ rw (e, fits, made) (λ o h. absurd cc)
        | inl (plain, made) ↦ rw (e, fits, made) (refl, (p, e, ground arith, made, refl))
      ]
    ]
  ]

  open_retrieve-IsMade :
      (a : Ambient) (params : rpc.Params)
      → IsMade retrieve_name params (open_retrieve serde a (rpc.claim_id_param params))
  unfolding open_retrieve
  open_retrieve-IsMade a params = elim (Result-cases (rpc.claim_id_param params)) [
    | inl (text, e) ↦ rw e (refl, e)
    | inr (inl (x, e)) ↦ rw e (λ o h. absurd cc)
    | inr (inr e) ↦ rw e (λ o h. absurd cc)
  ]

  open_delete-IsMade :
      (a : Ambient) (params : rpc.Params)
      → IsMade delete_name params (open_delete serde a (rpc.claim_id_param params))
  unfolding open_delete
  open_delete-IsMade a params = elim (Result-cases (rpc.claim_id_param params)) [
    | inl (text, e) ↦ rw e (refl, e)
    | inr (inl (x, e)) ↦ rw e (λ o h. absurd cc)
    | inr (inr e) ↦ rw e (λ o h. absurd cc)
  ]

  discovering-IsMade :
      (params : rpc.Params) → IsMade discover_name params (discovering serde rpc max openrpc_spec)
  unfolding discovering
  discovering-IsMade params = elim (Result-cases (serde.from_str openrpc_spec)) [
    | inl (v, e) ↦ rw e (λ o h. absurd cc)
    | inr (inl (x, e)) ↦ rw e (λ o h. absurd cc)
    | inr (inr e) ↦ rw e (λ o h. absurd cc)
  ]

  entry-AllMade :
      (k name : Bytes) (params : rpc.Params) (h : Opening serde) (o : Option (Opening serde))
      → IsMade k params h
      → AllMade name params o
      → AllMade name params (if bytes_eq k name then some h else o)
  entry-AllMade k name params h o made rest p e = elim (Bool-cases (bytes_eq k name)) [
    | inr miss ↦ rest p (rw miss at e)
    | inl hit ↦
        let same : some h ≡ some p = rw hit at e in
        let it : h ≡ p = cc in
        subst (IsMade name params) it
          (subst (λ n. IsMade n params h) ((bytes_eq_iff k name).0 hit) made)
  ]

  pub open_method-IsMade :
      (name : Bytes) (a : Ambient) (params : rpc.Params)
      → AllMade name params (open_method serde rpc max openrpc_spec name a params)
  unfolding open_method
  open_method-IsMade name a params =
      entry-AllMade discover_name name params _ _ (discovering-IsMade params) (
        entry-AllMade delete_name name params _ _ (open_delete-IsMade a params) (
          entry-AllMade retrieve_name name params _ _ (open_retrieve-IsMade a params) (
            entry-AllMade store_name name params _ none (open_store-IsMade a params)
              (λ p e. absurd cc))))
