-- ===== src/Rpc/Concurrent/Locked.antt =====
-- src/rpc/server.rs with any number of requests at once, over a backend whose operations take a lock,
-- as those of src/storage/local_file.rs do.
pub mod Served
use tari_vault.Base.{ℕ, Bytes, Option, some, true, List, [], ◌∷◌, In, ◌≡◌}
use tari_vault.Domain.Chrono.{Instant}
use tari_vault.Domain.Proof.{SerdeJson}
use tari_vault.Storage.Backend.{StorageBackend}
use tari_vault.Storage.Backend.Ask.{LockedParts}
use tari_vault.Vault.{Crypto}
use tari_vault.Vault.History.{Call, sweep}
use tari_vault.Vault.Tasks.{Task, begin}
use tari_vault.Vault.Tasks.Locked.{outside, Floor, work_at}
use tari_vault.Vault.Tasks.Locked as Locked
use tari_vault.Auth.{HttpCrates, Request}
use tari_vault.Rpc.Jsonrpsee.{Ambient, Jsonrpsee}
use tari_vault.Rpc.Opening.{Opening, replies, calls, open_method}
use tari_vault.Rpc.Concurrent.{
  Exchange, replied, working, sweeper, exchange_of, IsLetThrough, IsAllowed,
}

-- The workers have the tasks of the exchanges, in their order.
pub record LockedServer (serde : SerdeJson) (Params Loaded S : Type 0) : Type 0 where
  pub exchanges : List (Exchange serde Params)
  pub floor : Floor Loaded S

-- The exchanges with their tasks where these have come to.
abbrev pub with_tasks :
    {serde : SerdeJson} {Params : Type 0}
    → List (Exchange serde Params)
    → List Task
    → List (Exchange serde Params)
with_tasks [] ts = []
with_tasks (replied req name params r ∷ es) ts = replied req name params r ∷ with_tasks es ts
with_tasks (working req name params t ∷ es) [] = working req name params t ∷ es
with_tasks (working req name params t ∷ es) (t' ∷ ts) =
    working req name params t' ∷ with_tasks es ts
with_tasks (sweeper t ∷ es) [] = sweeper t ∷ es
with_tasks (sweeper t ∷ es) (t' ∷ ts) = sweeper t' ∷ with_tasks es ts

abbrev pub entering :
    {serde : SerdeJson} {Loaded S : Type 0} → Opening serde → Floor Loaded S → Floor Loaded S
entering (replies r) f = f
entering (calls call) f = record f { workers = outside (begin call) ∷ f.workers }

module _ {S : Type 0} (crypto : Crypto) (backend : StorageBackend S)
    (parts : LockedParts backend) where
  abbrev pub worked : ℕ → Floor parts.Loaded S → Floor parts.Loaded S
  worked i f =
      let out = work_at crypto backend parts i f.workers f.free f.state in
      record { workers = out.0; free = out.1; state = out.2 }

module _ {S : Type 0} (crypto : Crypto) (backend : StorageBackend S) (parts : LockedParts backend)
    (serde : SerdeJson) (rpc : Jsonrpsee serde S) (http : HttpCrates) (auth_token : Option Bytes)
    (max : ℕ) (openrpc_spec : Bytes) where
  pub data LockedServes (P : Call → Type 0) (x : LockedServer serde rpc.Params parts.Loaded S)
      : LockedServer serde rpc.Params parts.Loaded S → Type 0 where
    comes_in :
        (req : Request) (name : Bytes) (params : rpc.Params) (a : Ambient) (o : Opening serde)
        → IsLetThrough crypto backend serde rpc http auth_token max openrpc_spec req
        → In (name, params) (rpc.calls req)
        → open_method serde rpc max openrpc_spec name a params ≡ some o
        → IsAllowed crypto backend serde rpc http auth_token max openrpc_spec P o
        → LockedServes P x (record {
          exchanges = exchange_of req name params o ∷ x.exchanges;
          floor = entering o x.floor;
        })
    sweeps :
        (now : Instant)
        → P (sweep now)
        → LockedServes P x (record {
          exchanges = sweeper (begin (sweep now)) ∷ x.exchanges;
          floor = record {
            workers = outside (begin (sweep now)) ∷ x.floor.workers;
            free = x.floor.free;
            state = x.floor.state;
          };
        })
    goes_on :
        (i : ℕ)
        → LockedServes P x (record {
          exchanges =
              with_tasks x.exchanges
                (Locked.tasks_of (worked crypto backend parts i x.floor).workers);
          floor = worked crypto backend parts i x.floor;
        })

  pub data LockedServing (P : Call → Type 0) (s : S)
      : LockedServer serde rpc.Params parts.Loaded S → Type 0 where
    started :
        LockedServing P s
          (record { exchanges = []; floor = record { workers = []; free = true; state = s } })
    after :
        {x y : LockedServer serde rpc.Params parts.Loaded S}
        → LockedServing P s x
        → LockedServes P x y
        → LockedServing P s y
