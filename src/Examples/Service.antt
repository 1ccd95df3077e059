-- ===== src/Examples/Service.antt =====
-- A JSON-RPC server with requests of one letter and a parameter, and the vault behind it.
use tari_vault.Base.{
  ◌⊎◌, ℕ, Bytes, bytes_eq, ◌≡◌, refl, ◌==◌, Option, none, some, List, [], ◌∷◌, ◌++◌, Result, ok,
  err, panic, Exec, if◌then◌else◌, arith, Bool-cases, inl, inr,
}
use tari_vault.Storage.Sqlite.{Database}
use tari_vault.Storage.Sqlite.Intact.{table}
use tari_vault.Vault.Interface.{ProofVault, standard_vault, shared}
use tari_vault.Vault.RoundTrip.{IsGone}
use tari_vault.Auth.{Request, Response, Carries, bearer}
use tari_vault.Rpc.{ErrorObject}
use tari_vault.Rpc.Jsonrpsee.{
  Ambient, Reply, token, object, nothing, document, Method, Runs, first, done, then_run, or_else,
  Jsonrpsee,
}
use tari_vault.Rpc.Methods.{rpc_module, rpc_module_methods, known_method, store_name, retrieve_name}
use tari_vault.Rpc.Service.{service}
use tari_vault.Rpc.Clients.{Leads, IsWelcome, requests_are_calls}
use tari_vault.Rpc.RoundTrip.{http_round_trip}
use tari_vault.Examples.Toy.{calendar, suite, texts, crates}
use tari_vault.Examples.Shop
use tari_vault.Examples.Shop.{
  uuid, draws, draws-IsEntropy, clock, proof, kept, kept_lem, kept_live, kept-IsAccepted, contract,
  empty, empty-IsHealthy,
}

abbrev pub Entry : Type 0
Entry = Bytes × Method texts Database Bytes

pub found : List Entry → Bytes → Option (Method texts Database Bytes)
found [] n = none
found ((name, f) ∷ entries) n = if bytes_eq name n then some f else found entries n

pub found-none : (n : Bytes) → found [] n ≡ none
unfolding found
found-none n = refl

pub found_entry :
    (name : Bytes) (f : Method texts Database Bytes) (m : List Entry) (n : Bytes)
    → found ((name, f) ∷ m) n ≡ (if bytes_eq name n then some f else found m n)
unfolding found
found_entry name f m n = refl

pub found-append :
    (a b : List Entry) (n : Bytes) → found (a ++ b) n ≡ or_else (found a n) (found b n)
unfolding found
found-append [] b n = refl
found-append ((name, f) ∷ a) b n = elim (Bool-cases (bytes_eq name n)) [
  | inl hit ↦ rw hit refl
  | inr miss ↦ rw miss (found-append a b n)
]

named : ℕ → Bytes → List (Bytes × Bytes)
named letter p =
    if letter == b's'
    then (store_name, p) ∷ []
    else if letter == b'r'
    then (retrieve_name, p) ∷ []
    else []

pub calls_of : Bytes → List (Bytes × Bytes)
unfolding named
calls_of [] = []
calls_of (letter ∷ p) = named letter p

page : ℕ → Bytes → Response
page status body = record { status = status; www_authenticate = none; body = body }

pub respond : Result ErrorObject (Reply texts) → Response
unfolding page
respond (ok (token t)) = page 200 t
respond (ok (object o)) = page 200 o.proof_json
respond (ok nothing) = page 200 []
respond (ok (document v)) = page 200 v
respond (err e) = page 200 (b'e' ∷ [])
respond panic = page 500 []

answered :
    Option (Method texts Database Bytes) → Ambient → Bytes → Exec Database (Unit {0}) Response
unfolding respond page
answered none a p s = (ok (page 404 []), s)
answered (some f) a p s = (ok (respond (f a p s).0), (f a p s).1)

-- The first call of a request.
pub first_call :
    List Entry → (ℕ → Ambient) → List (Bytes × Bytes) → Exec Database (Unit {0}) Response
unfolding answered page found
first_call m a [] s = (ok (page 400 []), s)
first_call m a ((name, p) ∷ rest) s = answered (found m name) (a 0) p s

answered-Runs :
    (m : List Entry) (a : ℕ → Ambient) (rest : List (Bytes × Bytes)) (name p : Bytes)
    (o : Option (Method texts Database Bytes)) (s : Database)
    → found m name ≡ o
    → Runs (found m) a ((name, p) ∷ rest) s (answered o (a 0) p s).1
unfolding answered
answered-Runs m a rest name p none s e = done
answered-Runs m a rest name p (some f) s e = then_run name 0 p first e done

pub first_call-Runs :
    (m : List Entry) (a : ℕ → Ambient) (cs : List (Bytes × Bytes)) (s : Database)
    → Runs (found m) a cs s (first_call m a cs s).1
unfolding first_call
first_call-Runs m a [] s = done
first_call-Runs m a ((name, p) ∷ rest) s = answered-Runs m a rest name p (found m name) s refl

pub first_call-one :
    (m : List Entry) (a : ℕ → Ambient) (cs : List (Bytes × Bytes)) (name p : Bytes)
    (f : Method texts Database Bytes) (s : Database)
    → cs ≡ (name, p) ∷ []
    → found m name ≡ some f
    → first_call m a cs s ≡ (ok (respond (f (a 0) p s).0), (f (a 0) p s).1)
unfolding first_call answered
first_call-one m a cs name p f s one known = rw (one, known) refl

abbrev pub server : Jsonrpsee texts Database
server = record {
  Params = Bytes;
  RpcModule = List Entry;
  store_params = λ p. ok (record { proof_json = p; expires_in_secs = some 60 });
  claim_id_param = λ p. ok p;
  new_module = [];
  register_method = λ name f m. some ((name, f) ∷ m);
  merge = λ a b. some (a ++ b);
  method = found;
  calls = λ req. calls_of req.body;
  respond = respond;
  serve = λ m a req. first_call m a (calls_of req.body);
  method-new_module = λ name. found-none name;
  register_method-free = λ name f m free. ((name, f) ∷ m, refl, λ n. found_entry name f m n);
  merge-free = λ a b apart. (a ++ b, refl, λ n. found-append a b n);
  serve-Runs = λ m a req s. first_call-Runs m a (calls_of req.body) s;
  serve-call = λ m a req name p f s one known fine.
      first_call-one m a (calls_of req.body) name p f s one known;
}

abbrev pub vault : ProofVault Database
vault = shared (standard_vault suite (table calendar))

abbrev pub around : ℕ → Ambient
around i = record { draws = draws; clock = clock; now = 5000 }

abbrev opened : List Entry
opened = (rpc_module_methods texts server vault 1024 []).0

opened_lem : rpc_module texts server vault 1024 [] ≡ ok opened
opened_lem = (rpc_module_methods texts server vault 1024 []).1

rpc_module_methods_example :
    (m : List Entry) × (rpc_module texts server vault 1024 [] ≡ ok m)
    × ((n : Bytes) → found m n ≡ known_method texts server vault 1024 [] n)
rpc_module_methods_example = rpc_module_methods texts server vault 1024 []

-- The token is `s`.
abbrev pub asking : ℕ → Bytes → Request
asking letter p = record { authorization = some (bearer ++ b's' ∷ []); body = letter ∷ p }

pub asking-Carries : (letter : ℕ) (p : Bytes) → Carries crates (b's' ∷ []) (asking letter p)
asking-Carries letter p = (bearer ++ b's' ∷ [], refl, refl, refl)

requests_are_calls_example :
    let req = asking b's' proof.contents in
    let after = (service crates texts server (some (b's' ∷ [])) opened around req empty).1 in
    (after ≡ empty)
    ⊎ (IsWelcome suite (table calendar) around texts server 1024 [] crates (some (b's' ∷ [])) req
        × Leads suite (table calendar) around texts server 1024 (calls_of req.body) empty after)
requests_are_calls_example =
    requests_are_calls suite (table calendar) around texts server 1024 [] crates (some (b's' ∷ []))
      opened (asking b's' proof.contents) empty opened_lem

pub asks_store : calls_of (asking b's' proof.contents).body ≡ (store_name, proof.contents) ∷ []
unfolding calls_of
asks_store = refl

pub asks_retrieve : calls_of (asking b'r' Shop.token).body ≡ (retrieve_name, Shop.token) ∷ []
unfolding calls_of
asks_retrieve = refl

http_round_trip_example :
    let stored =
      service crates texts server
        (some (b's' ∷ []))
        opened
        around
        (asking b's' proof.contents)
        empty in
    let got =
      service crates texts server
        (some (b's' ∷ []))
        opened
        around
        (asking b'r' Shop.token)
        stored.1 in
    (stored.0 ≡ ok (respond (ok (token Shop.token))))
    × (got.0 ≡ ok (respond (ok (object (record { proof_json = proof.contents })))))
    × IsGone suite (table calendar) contract uuid got.1
http_round_trip_example =
    http_round_trip suite (table calendar) contract texts server crates 1024 [] b's' [] opened
      around around (asking b's' proof.contents) (asking b'r' Shop.token) proof.contents Shop.token
      (record { proof_json = proof.contents; expires_in_secs = some 60 }) proof.contents kept empty
      opened_lem (asking-Carries b's' proof.contents, asking-Carries b'r' Shop.token)
      (asks_store, refl) (asks_retrieve, refl) draws-IsEntropy (omega arith) (refl, refl) kept_lem
      kept-IsAccepted empty-IsHealthy kept_live
