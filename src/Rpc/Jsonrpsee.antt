-- ===== src/Rpc/Jsonrpsee.antt =====
-- The `jsonrpsee` crate, as far as src/rpc uses it: tables of methods, and a server over one.
use tari_vault.Base.{
  ℕ, Bytes, ◌≡◌, ◌≢◌, refl, bytes_eq, Option, none, some, List, [], ◌∷◌, Result, ok, panic,
  if◌then◌else◌, ◌⊎◌, Exec,
}
use tari_vault.Domain.Chrono.{Instant}
use tari_vault.Domain.Proof.{SerdeJson}
use tari_vault.Vault.{Entropy, StoreClock}
use tari_vault.Auth.{Request, Response}
use tari_vault.Rpc.{ErrorObject, StoreProofParams, ProofObject}

-- What a call takes from outside: random bytes, and the readings of the clock.
pub record Ambient : Type 0 where
  pub draws : Entropy
  pub clock : StoreClock
  pub now : Instant

-- What a method answers with, before it is written as JSON.
pub data Reply (serde : SerdeJson) : Type 0 where
  token : Bytes → Reply serde
  object : ProofObject serde → Reply serde
  nothing : Reply serde
  document : serde.Value → Reply serde

abbrev pub Method : SerdeJson → Type 0 → Type 0 → Type 0
Method serde S Params = Ambient → Params → Exec S ErrorObject (Reply serde)

-- The method of the first table, or else that of the second.
abbrev pub or_else : {A : Type 0} → Option A → Option A → Option A
or_else none b = b
or_else (some a) b = some a

pub or_else-none : {A : Type 0} (o : Option A) → or_else o none ≡ o
or_else-none none = refl
or_else-none (some a) = refl

-- An element of a list, and the others.
pub data Picks {A : Type 0} : List A → A → List A → Type 0 where
  first : {x : A} {xs : List A} → Picks (x ∷ xs) x xs
  further : {x y : A} {xs ys : List A} → Picks xs x ys → Picks (y ∷ xs) x (y ∷ ys)

-- Some calls of a list run one after another, none of them twice, each as the method of its name in a table and with
-- a part of the environment `a`.
pub data Runs {serde : SerdeJson} {S Params : Type 0}
    (method : Bytes → Option (Method serde S Params)) (a : ℕ → Ambient)
    : List (Bytes × Params) → S → S → Type 0 where
  done : {calls : List (Bytes × Params)} {s : S} → Runs method a calls s s
  then_run :
      {calls rest : List (Bytes × Params)} {s s' : S} {f : Method serde S Params} (name : Bytes)
      (i : ℕ) (params : Params)
      → Picks calls (name, params) rest
      → method name ≡ some f
      → Runs method a rest (f (a i) params s).1 s'
      → Runs method a calls s s'

-- The `jsonrpsee` crate. A module is a table of methods, and registering or merging fails on a name that is taken.
-- `calls` reads the calls of a request, one or a batch. A server runs calls of the request, as methods of
-- its module, none of them twice, and nothing else; a request of one call whose method is known is answered by what the method answers.
pub record Jsonrpsee (serde : SerdeJson) (S : Type 0) : Type 1 where
  pub Params : Type 0
  pub RpcModule : Type 0
  pub store_params : Params → Result ErrorObject (StoreProofParams serde)
  pub claim_id_param : Params → Result ErrorObject Bytes
  pub new_module : RpcModule
  pub register_method : Bytes → Method serde S Params → RpcModule → Option RpcModule
  pub merge : RpcModule → RpcModule → Option RpcModule
  pub method : RpcModule → Bytes → Option (Method serde S Params)
  pub calls : Request → List (Bytes × Params)
  pub respond : Result ErrorObject (Reply serde) → Response
  pub serve : RpcModule → (ℕ → Ambient) → Request → Exec S (Unit {0}) Response
  pub method-new_module : (name : Bytes) → method new_module name ≡ none
  pub register_method-free :
      (name : Bytes) (f : Method serde S Params) (m : RpcModule)
      → method m name ≡ none
      → (m' : RpcModule) × (register_method name f m ≡ some m')
        × ((n : Bytes) → method m' n ≡ (if bytes_eq name n then some f else method m n))
  pub merge-free :
      (a b : RpcModule)
      → ((n : Bytes) → (method a n ≡ none) ⊎ (method b n ≡ none))
      → (m : RpcModule) × (merge a b ≡ some m)
        × ((n : Bytes) → method m n ≡ or_else (method a n) (method b n))
  pub serve-Runs :
      (m : RpcModule) (a : ℕ → Ambient) (req : Request) (s : S)
      → Runs (method m) a (calls req) s (serve m a req s).1
  pub serve-call :
      (m : RpcModule) (a : ℕ → Ambient) (req : Request) (name : Bytes) (params : Params)
      (f : Method serde S Params) (s : S)
      → calls req ≡ (name, params) ∷ []
      → method m name ≡ some f
      → (f (a 0) params s).0 ≢ panic
      → serve m a req s ≡ (ok (respond (f (a 0) params s).0), (f (a 0) params s).1)
