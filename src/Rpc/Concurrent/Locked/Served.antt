-- ===== src/Rpc/Concurrent/Locked/Served.antt =====
-- Rpc.Concurrent.Locked: what a server over the locked backend hands out.
use tari_vault.Base.{
  ℕ, zero, suc, Bytes, Option, some, List, [], ◌∷◌, ◌≡◌, refl, sym, ap, subst, ok, inl, inr,
}
use tari_vault.Domain.Proof.{SerdeJson}
use tari_vault.Storage.Backend.{StorageBackend, Contract}
use tari_vault.Storage.Backend.Ask.{LockedParts}
use tari_vault.Vault.{Crypto}
use tari_vault.Vault.History.{Call, sweep, IsAdmissible}
use tari_vault.Vault.Tasks.{Task, turn, begin}
use tari_vault.Vault.Tasks.Locked as Floors
use tari_vault.Vault.Tasks.Locked.Exclusion.{IsExclusive, IsExclusive-cons, Turned}
use tari_vault.Vault.Tasks.Locked.Steps.{moved}
use tari_vault.Auth.{HttpCrates, Request}
use tari_vault.Rpc.{ProofObject}
use tari_vault.Rpc.Jsonrpsee.{object, Jsonrpsee}
use tari_vault.Rpc.Opening.{Opening, replies, calls}
use tari_vault.Rpc.Concurrent.{
  Exchange, replied, working, sweeper, exchange_of, reply_of, get_elem?, tasks_of, proceed_at,
  Serving,
}
use tari_vault.Rpc.Concurrent
use tari_vault.Rpc.Concurrent.Origin.{HandedOut, served_proofs_were_sent}
use tari_vault.Rpc.Concurrent.Locked.{
  LockedServer, with_tasks, entering, worked, comes_in, sweeps, goes_on, LockedServing, started,
  after,
}

module _ {serde : SerdeJson} {Params : Type 0} where
  -- The place of a task's exchange.
  abbrev owner : ℕ → List (Exchange serde Params) → ℕ
  owner i [] = i
  owner i (replied req name params r ∷ es) = suc (owner i es)
  owner zero (working req name params t ∷ es) = zero
  owner (suc i) (working req name params t ∷ es) = suc (owner i es)
  owner zero (sweeper t ∷ es) = zero
  owner (suc i) (sweeper t ∷ es) = suc (owner i es)

  with_tasks-tasks_of : (es : List (Exchange serde Params)) → with_tasks es (tasks_of es) ≡ es
  with_tasks-tasks_of [] = refl
  with_tasks-tasks_of (replied req name params r ∷ es) =
      ap (λ x. replied req name params r ∷ x) (with_tasks-tasks_of es)
  with_tasks-tasks_of (working req name params t ∷ es) =
      ap (λ x. working req name params t ∷ x) (with_tasks-tasks_of es)
  with_tasks-tasks_of (sweeper t ∷ es) = ap (λ x. sweeper t ∷ x) (with_tasks-tasks_of es)

  module _ {S : Type 0} (crypto : Crypto) (backend : StorageBackend S) where
    -- A turn of a task is a step of its exchange.
    turn-proceed_at :
        (i : ℕ) (es : List (Exchange serde Params)) (s : S)
        → let out = turn crypto backend i (tasks_of es) s in
          (proceed_at crypto backend (owner i es) es s ≡ (with_tasks es out.0, out.1))
          × (tasks_of (with_tasks es out.0) ≡ out.0)
    unfolding turn proceed_at Concurrent.proceed
    turn-proceed_at i [] s = (refl, refl)
    turn-proceed_at i (replied req name params r ∷ es) s =
        let rest = turn-proceed_at i es s in
        (ap (λ x. (replied req name params r ∷ x.0, x.1)) rest.0, rest.1)
    turn-proceed_at zero (working req name params t ∷ es) s = rw with_tasks-tasks_of (refl, refl)
    turn-proceed_at (suc i) (working req name params t ∷ es) s =
        let rest = turn-proceed_at i es s in
        (ap (λ x. (working req name params t ∷ x.0, x.1)) rest.0, ap (λ x. t ∷ x) rest.1)
    turn-proceed_at zero (sweeper t ∷ es) s = rw with_tasks-tasks_of (refl, refl)
    turn-proceed_at (suc i) (sweeper t ∷ es) s =
        let rest = turn-proceed_at i es s in
        (ap (λ x. (sweeper t ∷ x.0, x.1)) rest.0, ap (λ x. t ∷ x) rest.1)

  -- A call that comes in is outside.
  entered :
      {S : Type 0} (crypto : Crypto) (backend : StorageBackend S) (parts : LockedParts backend)
      (es : List (Exchange serde Params)) (f : Floors.Floor parts.Loaded S) (e : S) (req : Request)
      (name : Bytes) (params : Params) (o : Opening serde)
      → tasks_of es ≡ Floors.tasks_of f.workers
      → IsExclusive crypto backend parts e f.free f.state f.workers
      → let g = entering o f in
        (tasks_of (exchange_of req name params o ∷ es) ≡ Floors.tasks_of g.workers)
        × IsExclusive crypto backend parts e g.free g.state g.workers
  entered crypto backend parts es f e req name params (replies r) same excl = (same, excl)
  entered crypto backend parts es f e req name params (calls call) same excl = (
    ap (λ ts. begin call ∷ ts) same,
    IsExclusive-cons crypto backend parts e f.free f.state (Floors.outside (begin call)) f.workers
        tt excl,
  )

module _ {S : Type 0} (crypto : Crypto) (backend : StorageBackend S) (parts : LockedParts backend)
    (serde : SerdeJson) (rpc : Jsonrpsee serde S) (http : HttpCrates) (auth_token : Option Bytes)
    (max : ℕ) (openrpc_spec : Bytes) (P : Call → Type 0) (s0 : S) where
  -- The exchanges over a store that only whole operations work on.
  abbrev pub Coarse : List (Exchange serde rpc.Params) → S → Type 0
  Coarse es e =
      Serving crypto backend serde rpc http auth_token max openrpc_spec P s0
        (record { exchanges = es; state = e })

  abbrev Kept : List (Exchange serde rpc.Params) → List Task × S → Type 0
  Kept es p = Coarse (with_tasks es p.0) p.1 × (tasks_of (with_tasks es p.0) ≡ p.0)

  Turned-Kept :
      (i : ℕ) (es : List (Exchange serde rpc.Params)) (e : S) (ts : List Task) (e' : S)
      → Turned crypto backend parts i (tasks_of es) e ts e'
      → Coarse es e
      → Kept es (ts, e')
  Turned-Kept i es e ts e' (inl same) serving =
      subst (Kept es) (sym same) (rw with_tasks-tasks_of (serving, refl))
  Turned-Kept i es e ts e' (inr turned) serving =
      let step = turn-proceed_at crypto backend i es e in
      subst (Kept es) (sym turned) (
        subst (λ p. Coarse p.0 p.1) step.0
            (Concurrent.after serving (Concurrent.goes_on (owner i es))),
        step.1,
      )

  record IsServed (x : LockedServer serde rpc.Params parts.Loaded S) : Type 0 where
    e : S
    serving : Coarse x.exchanges e
    same : tasks_of x.exchanges ≡ Floors.tasks_of x.floor.workers
    exclusive : IsExclusive crypto backend parts e x.floor.free x.floor.state x.floor.workers

  serving-IsServed :
      {x : LockedServer serde rpc.Params parts.Loaded S}
      → LockedServing crypto backend parts serde rpc http auth_token max openrpc_spec P s0 x
      → IsServed x
  serving-IsServed started = record {
    e = s0;
    serving = Concurrent.started;
    same = refl;
    exclusive = (refl, tt);
  }
  serving-IsServed (after {x} r (comes_in req name params a o through there opens allowed)) =
      let v = serving-IsServed r in
      let now =
        entered crypto backend parts x.exchanges x.floor v.e req name params o v.same v.exclusive in
      record {
        e = v.e;
        serving =
            Concurrent.after v.serving
              (Concurrent.comes_in req name params a o through there opens allowed);
        same = now.0;
        exclusive = now.1;
      }
  serving-IsServed (after {x} r (sweeps now allowed)) =
      let v = serving-IsServed r in
      record {
        e = v.e;
        serving = Concurrent.after v.serving (Concurrent.sweeps now allowed);
        same = ap (λ ts. begin (sweep now) ∷ ts) v.same;
        exclusive =
            IsExclusive-cons crypto backend parts v.e x.floor.free x.floor.state
              (Floors.outside (begin (sweep now))) x.floor.workers tt v.exclusive;
      }
  serving-IsServed (after {x} r (goes_on i)) =
      let v = serving-IsServed r in
      let m =
        moved crypto backend parts i x.floor.workers v.e x.floor.state x.floor.free v.exclusive in
      let ts' = Floors.tasks_of (worked crypto backend parts i x.floor).workers in
      let kept =
        Turned-Kept i x.exchanges v.e ts' m.0
          (subst (λ ts. Turned crypto backend parts i ts v.e ts' m.0) (sym v.same) m.2) v.serving in
      record { e = m.0; serving = kept.0; same = kept.1; exclusive = m.1 }

  -- The exchanges of a server over a backend that locks are those of one over a backend of whole
  -- operations.
  pub LockedServing-Serving :
      {x : LockedServer serde rpc.Params parts.Loaded S}
      → LockedServing crypto backend parts serde rpc http auth_token max openrpc_spec P s0 x
      → (e : S) × Coarse x.exchanges e
  LockedServing-Serving r = let v = serving-IsServed r in (v.e, v.serving)

module _ {S : Type 0} (crypto : Crypto) (backend : StorageBackend S) (parts : LockedParts backend)
    (c : Contract backend) (serde : SerdeJson) (rpc : Jsonrpsee serde S) (http : HttpCrates)
    (max : ℕ) (openrpc_spec : Bytes) (b : ℕ) (bs : Bytes) where
  abbrev pub LockedServingFrom : S → LockedServer serde rpc.Params parts.Loaded S → Type 0
  LockedServingFrom =
      LockedServing crypto backend parts serde rpc http (some (b ∷ bs)) max openrpc_spec
        (IsAdmissible crypto backend c)

  -- A server with a token that is not empty runs over a backend whose operations take an exclusive
  -- lock, read and then go on, and which is healthy at first; any number of requests with any calls,
  -- and sweeps, all within the contract, are interleaved in any way, inside the backend's operations
  -- too. Whenever a client has been told a proof: its request carries the token and asked for it by
  -- `vault_retrieveProof`, the value is read from bytes that are what the key of the token it asked
  -- for decrypts a record under that token's id to, and the record was there at first, or it is the
  -- one that the vault makes of a `vault_storeProof` in a request that carries the token, with a
  -- value within the limit.
  pub locked_proofs_were_sent :
      {s : S} {x : LockedServer serde rpc.Params parts.Loaded S}
      → c.IsHealthy s
      → LockedServingFrom s x
      → (i : ℕ) (e : Exchange serde rpc.Params) (o : ProofObject serde)
      → get_elem? x.exchanges i ≡ some e
      → reply_of e ≡ some (ok (object o))
      → HandedOut crypto backend c serde rpc http max openrpc_spec b bs s e o
  locked_proofs_were_sent {s} {x} h r i e o there told =
      let coarse =
        LockedServing-Serving crypto backend parts serde rpc http (some (b ∷ bs)) max openrpc_spec
          (IsAdmissible crypto backend c) s r in
      served_proofs_were_sent crypto backend c serde rpc http max openrpc_spec b bs h coarse.1 i e o
        there told
