-- ===== src/Rpc/Concurrent.antt =====
-- src/rpc/server.rs with any number of requests at once, over src/vault/proof_vault.rs. An exchange is a
-- call that a client has made and where its handler stands. The environment lets calls come in, lets the
-- background task sweep, and says which exchange goes on to its next `.await`.
pub mod Made
pub mod Reached
pub mod Replies
pub mod Origin
pub mod Locked
use tari_vault.Base.{
  ℕ, zero, suc, Bytes, Option, none, some, List, [], ◌∷◌, Result, Exec, ◌≡◌, refl, sym, ap, In,
  length,
}
use tari_vault.Domain.Chrono.{Instant}
use tari_vault.Domain.Proof.{SerdeJson}
use tari_vault.Storage.Backend.{StorageBackend}
use tari_vault.Vault.{Crypto}
use tari_vault.Vault.History.{Call, sweep}
use tari_vault.Vault.Tasks.{Task, begin, advance, turn}
use tari_vault.Vault.Tasks.Alone.{outcome}
use tari_vault.Auth.{HttpCrates, Request, Response, call, from_config}
use tari_vault.Rpc.{ErrorObject}
use tari_vault.Rpc.Jsonrpsee.{Ambient, Reply, Jsonrpsee}
use tari_vault.Rpc.Opening.{Opening, replies, calls, open_method, reply_if}

pub data Exchange (serde : SerdeJson) (Params : Type 0) : Type 0 where
  replied : Request → Bytes → Params → Result ErrorObject (Reply serde) → Exchange serde Params
  working : Request → Bytes → Params → Task → Exchange serde Params
  sweeper : Task → Exchange serde Params

module _ {serde : SerdeJson} {Params : Type 0} where
  abbrev pub exchange_of : Request → Bytes → Params → Opening serde → Exchange serde Params
  exchange_of req name params (replies r) = replied req name params r
  exchange_of req name params (calls call) = working req name params (begin call)

  -- What the client has been told.
  abbrev pub reply_of : Exchange serde Params → Option (Result ErrorObject (Reply serde))
  reply_of (replied req name params r) = some r
  reply_of (working req name params t) = reply_if serde (outcome t)
  reply_of (sweeper t) = none

  abbrev pub get_elem? : List (Exchange serde Params) → ℕ → Option (Exchange serde Params)
  get_elem? [] i = none
  get_elem? (e ∷ es) zero = some e
  get_elem? (e ∷ es) (suc i) = get_elem? es i

  abbrev pub tasks_of : List (Exchange serde Params) → List Task
  tasks_of [] = []
  tasks_of (replied req name params r ∷ es) = tasks_of es
  tasks_of (working req name params t ∷ es) = t ∷ tasks_of es
  tasks_of (sweeper t ∷ es) = t ∷ tasks_of es

-- The exchanges under way and done, and the state of the backend.
pub record Server (serde : SerdeJson) (Params S : Type 0) : Type 0 where
  pub exchanges : List (Exchange serde Params)
  pub state : S

module _ {S : Type 0} (crypto : Crypto) (backend : StorageBackend S) {serde : SerdeJson}
    {Params : Type 0} where
  unfoldable pub proceed : Exchange serde Params → S → Exchange serde Params × S
  proceed (replied req name params r) s = (replied req name params r, s)
  proceed (working req name params t) s =
      (working req name params (advance crypto backend t s).0, (advance crypto backend t s).1)
  proceed (sweeper t) s = (sweeper (advance crypto backend t s).0, (advance crypto backend t s).1)

  unfoldable pub proceed_at :
      ℕ → List (Exchange serde Params) → S → List (Exchange serde Params) × S
  proceed_at i [] s = ([], s)
  proceed_at zero (e ∷ es) s = ((proceed e s).0 ∷ es, (proceed e s).1)
  proceed_at (suc i) (e ∷ es) s = (e ∷ (proceed_at i es s).0, (proceed_at i es s).1)

module _ {S : Type 0} (crypto : Crypto) (backend : StorageBackend S) (serde : SerdeJson)
    (rpc : Jsonrpsee serde S) (http : HttpCrates) (auth_token : Option Bytes) (max : ℕ)
    (openrpc_spec : Bytes) where
  -- The authorization layer passes the request on to whatever service stands behind it.
  abbrev pub IsLetThrough : Request → Type 0
  IsLetThrough req =
      (inner : Request → Exec S (Unit {0}) Response) (s : S)
      → call http (from_config auth_token) inner req s ≡ inner req s

  abbrev pub IsAllowed : (Call → Type 0) → Opening serde → Type 0
  IsAllowed P (replies r) = Unit
  IsAllowed P (calls call) = P call

  -- A call of a request that is let through, whose method is known, comes in; or the background task
  -- begins a sweep; or an exchange goes on.
  pub data Serves (P : Call → Type 0) (x : Server serde rpc.Params S)
      : Server serde rpc.Params S → Type 0 where
    comes_in :
        (req : Request) (name : Bytes) (params : rpc.Params) (a : Ambient) (o : Opening serde)
        → IsLetThrough req
        → In (name, params) (rpc.calls req)
        → open_method serde rpc max openrpc_spec name a params ≡ some o
        → IsAllowed P o
        → Serves P x (record x { exchanges = exchange_of req name params o ∷ x.exchanges })
    sweeps :
        (now : Instant)
        → P (sweep now)
        → Serves P x (record x { exchanges = sweeper (begin (sweep now)) ∷ x.exchanges })
    goes_on :
        (i : ℕ)
        → Serves P x (record {
          exchanges = (proceed_at crypto backend i x.exchanges x.state).0;
          state = (proceed_at crypto backend i x.exchanges x.state).1;
        })

  pub data Serving (P : Call → Type 0) (s : S) : Server serde rpc.Params S → Type 0 where
    started : Serving P s (record { exchanges = []; state = s })
    after : {x y : Server serde rpc.Params S} → Serving P s x → Serves P x y → Serving P s y

-- The place of an exchange's task among the tasks; a place without a task for one that has none.
abbrev place : {serde : SerdeJson} {Params : Type 0} → ℕ → List (Exchange serde Params) → ℕ
place i [] = zero
place zero (replied req name params r ∷ es) = length (tasks_of es)
place zero (working req name params t ∷ es) = zero
place zero (sweeper t ∷ es) = zero
place (suc i) (replied req name params r ∷ es) = place i es
place (suc i) (working req name params t ∷ es) = suc (place i es)
place (suc i) (sweeper t ∷ es) = suc (place i es)

module _ {S : Type 0} (crypto : Crypto) (backend : StorageBackend S) where
  turn-length : (ts : List Task) (s : S) → turn crypto backend (length ts) ts s ≡ (ts, s)
  unfolding turn
  turn-length [] s = refl
  turn-length (t ∷ ts) s = rw (turn-length ts s) refl

  -- For the vault a step of an exchange is a turn of its task.
  pub proceed_at-turn :
      {serde : SerdeJson} {Params : Type 0} (i : ℕ) (es : List (Exchange serde Params)) (s : S)
      → (tasks_of (proceed_at crypto backend i es s).0, (proceed_at crypto backend i es s).1)
        ≡ turn crypto backend (place i es) (tasks_of es) s
  unfolding proceed_at proceed turn
  proceed_at-turn i [] s = refl
  proceed_at-turn zero (replied req name params r ∷ es) s = sym (turn-length (tasks_of es) s)
  proceed_at-turn zero (working req name params t ∷ es) s = refl
  proceed_at-turn zero (sweeper t ∷ es) s = refl
  proceed_at-turn (suc i) (replied req name params r ∷ es) s = proceed_at-turn i es s
  proceed_at-turn (suc i) (working req name params t ∷ es) s =
      ap (λ x. (t ∷ x.0, x.1)) (proceed_at-turn i es s)
  proceed_at-turn (suc i) (sweeper t ∷ es) s = ap (λ x. (t ∷ x.0, x.1)) (proceed_at-turn i es s)
