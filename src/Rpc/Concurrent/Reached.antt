-- ===== src/Rpc/Concurrent/Reached.antt =====
-- A server of src/rpc/server.rs with many requests as the vault of src/vault/proof_vault.rs sees it.
use tari_vault.Base.{ℕ, Bytes, sym, ◌∙◌, subst, none, some, [], ◌∷◌, ok, inl, inr, arith}
use tari_vault.Domain.Proof.{SerdeJson}
use tari_vault.Storage.Backend.{StorageBackend, Contract}
use tari_vault.Vault.{Crypto}
use tari_vault.Vault.History.{Call, store, retrieve, delete, sweep, IsAdmissible}
use tari_vault.Vault.Tasks.{System, start, step, Reach, boot, later}
use tari_vault.Auth.{HttpCrates, Request, Response, Carries, call, call-from_config}
use tari_vault.Rpc.Asked.{MadeFrom}
use tari_vault.Rpc.Jsonrpsee.{Jsonrpsee}
use tari_vault.Rpc.Opening.{Opening, replies, calls}
use tari_vault.Rpc.Concurrent.{
  exchange_of, tasks_of, Server, IsLetThrough, IsAllowed, comes_in, sweeps, goes_on, Serving,
  started, after, place, proceed_at-turn,
}
use tari_vault.Rpc.Concurrent.Made.{Sends, IsSent, IsMade, open_method-IsMade}

module _ {S : Type 0} (crypto : Crypto) (backend : StorageBackend S) (c : Contract backend)
    (serde : SerdeJson) (rpc : Jsonrpsee serde S) (http : HttpCrates) (max : ℕ)
    (openrpc_spec : Bytes) (b : ℕ) (bs : Bytes) where
  accepted : Response
  accepted = record { status = 200; www_authenticate = none; body = [] }

  pub let_through-Carries :
      (req : Request) (s : S)
      → IsLetThrough crypto backend serde rpc http (some (b ∷ bs)) max openrpc_spec req
      → Carries http (b ∷ bs) req
  unfolding accepted
  let_through-Carries req s h =
      elim (call-from_config http {E = Unit {0}} (λ r s'. (ok accepted, s')) b bs req s) [
        | inl (carries, e) ↦ carries
        | inr (missing, e) ↦
            let told = sym e ∙ h (λ r s'. (ok accepted, s')) s in absurd (ground arith)
      ]

  pub Carries-IsLetThrough :
      (req : Request)
      → Carries http (b ∷ bs) req
      → IsLetThrough crypto backend serde rpc http (some (b ∷ bs)) max openrpc_spec req
  Carries-IsLetThrough req carries inner s = elim (call-from_config http inner b bs req s) [
    | inl (also, e) ↦ e
    | inr (missing, e) ↦ absurd (missing carries)
  ]

  abbrev pub Sent : Call → Type 0
  Sent = IsSent serde rpc http max openrpc_spec b bs

  abbrev pub Permitted : Call → Type 0
  Permitted call = IsAdmissible crypto backend c call × Sent call

  abbrev pub ServingFrom : S → Server serde rpc.Params S → Type 0
  ServingFrom =
      Serving crypto backend serde rpc http (some (b ∷ bs)) max openrpc_spec
        (IsAdmissible crypto backend c)

  MadeFrom-Sent :
      (req : Request) (name : Bytes) (params : rpc.Params) (call : Call)
      → Sends serde rpc http max openrpc_spec b bs req name params
      → MadeFrom serde rpc max name params call
      → Sent call
  MadeFrom-Sent req name params (store e clock proof ttl) sent made =
      (req, name, params, sent, made)
  MadeFrom-Sent req name params (retrieve now text) sent made = (req, name, params, sent, made)
  MadeFrom-Sent req name params (delete now text) sent made = (req, name, params, sent, made)
  MadeFrom-Sent req name params (sweep now) sent made = tt

  -- The tasks of a server, as a system of the vault.
  abbrev pub vault_of : Server serde rpc.Params S → System S
  vault_of x = record { tasks = tasks_of x.exchanges; state = x.state }

  opened-Reach :
      {s : S} (x : Server serde rpc.Params S) (req : Request) (name : Bytes) (params : rpc.Params)
      (o : Opening serde)
      → Sends serde rpc http max openrpc_spec b bs req name params
      → IsMade serde rpc http max openrpc_spec b bs name params o
      → IsAllowed crypto backend serde rpc http
          (some (b ∷ bs))
          max
          openrpc_spec
          (IsAdmissible crypto backend c)
          o
      → Reach crypto backend Permitted s (vault_of x)
      → Reach crypto backend Permitted s
          (vault_of (record x { exchanges = exchange_of req name params o ∷ x.exchanges }))
  opened-Reach x req name params (replies r) sent made allowed reach = reach
  opened-Reach x req name params (calls k) sent made allowed reach =
      later reach (start k (allowed, MadeFrom-Sent req name params k sent made))

  -- To the vault a server is a system of tasks whose calls requests with the token have sent.
  pub Serving-Reach :
      {s : S} {x : Server serde rpc.Params S}
      → ServingFrom s x
      → Reach crypto backend Permitted s (vault_of x)
  Serving-Reach started = boot
  Serving-Reach (after {x} r (comes_in req name params a o through there opens allowed)) =
      opened-Reach x req name params o (let_through-Carries req x.state through, there)
        (open_method-IsMade serde rpc http max openrpc_spec b bs name a params o opens) allowed
        (Serving-Reach r)
  Serving-Reach (after r (sweeps now allowed)) =
      later (Serving-Reach r) (start (sweep now) (allowed, tt))
  Serving-Reach {s} (after {x} r (goes_on i)) =
      subst (λ y. Reach crypto backend Permitted s (record { tasks = y.0; state = y.1 }))
        (sym (proceed_at-turn crypto backend i x.exchanges x.state))
        (later (Serving-Reach r) (step (place i x.exchanges)))
