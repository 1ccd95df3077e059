-- ===== src/Examples/Server.antt =====
-- A server with several exchanges, and the TLS proxy in front of it.
use tari_vault.Base.{
  ◌+◌, ℕ, length, Bytes, ◌≡◌, refl, some, [], ◌∷◌, List, In, ok, subst, inl, bytes_eq,
}
use tari_vault.Domain.Proof.{from_json, into_json}
use tari_vault.Storage.Sqlite.{Database}
use tari_vault.Storage.Sqlite.Intact.{table}
use tari_vault.Vault.{store_proof}
use tari_vault.Vault.Race.{finished, advance-twice}
use tari_vault.Vault.RoundTrip.{retrieve-store}
use tari_vault.Vault.History.{Call, store, retrieve, IsAdmissible}
use tari_vault.Vault.Tasks.{retrieving, begin, advance}
use tari_vault.Rpc.Jsonrpsee.{object}
use tari_vault.Rpc.Methods.{store_name, retrieve_name}
use tari_vault.Rpc.Opening.{calls, open_method, reply_for}
use tari_vault.Rpc.Concurrent.{
  Exchange, working, Server, exchange_of, get_elem?, reply_of, proceed, proceed_at, IsLetThrough,
  started, after, comes_in, goes_on,
}
use tari_vault.Rpc.Concurrent.Reached.{Carries-IsLetThrough, ServingFrom}
use tari_vault.Rpc.Concurrent.Origin.{HandedOut, served_proofs_were_sent}
use tari_vault.Rpc.Proxy.{Tokio, copying, forward, Event, accepted, fails, proxy}
use tari_vault.Rpc.Proxy
use tari_vault.Rpc.Proxy.Safety.{arrivals, forwards_tls_only}
use tari_vault.Rpc.Proxy.Safety
use tari_vault.Rpc.Proxy.Apart.{only, connections_are_apart}
use tari_vault.Examples.Toy.{calendar, suite, texts, crates}
use tari_vault.Examples.Service.{asks_store, asks_retrieve, server, around, asking, asking-Carries}
use tari_vault.Examples.Shop.{
  uuid-IsArray, draws, draws-IsEntropy, clock, proof, token, kept, kept_lem, kept_live,
  kept-IsAccepted, contract, empty, empty-IsHealthy,
}

abbrev tokio : Tokio
tokio = record {
  Tcp = ℕ;
  TlsStream = ℕ;
  TcpStream = ℕ;
  Attempt = ℕ;
  accept = λ tcp. ok (tcp + 100);
  connect = λ addr k. ok (k + 200);
  copy_bidirectional = λ a b. ok (0, 0);
}

abbrev evening : List (Event tokio)
evening =
    accepted 1 7
    ∷ fails "Too many open files"
    ∷ accepted 2 8
    ∷ Proxy.goes_on 1
    ∷ Proxy.goes_on 0
    ∷ Proxy.goes_on 1
    ∷ []

second_copies : Safety.get_elem? tokio [] (proxy tokio [] evening []) 1 ≡ some (copying 102 208)
unfolding proxy forward
second_copies = refl

forwards_tls_only_example :
    (tcp : ℕ) × (k : ℕ) × In (tcp, k) (arrivals tokio [] evening)
    × (tokio.accept tcp ≡ ok 102)
    × (tokio.connect [] k ≡ ok 208)
forwards_tls_only_example = forwards_tls_only tokio [] evening 1 102 208 second_copies

connections_are_apart_example :
    (length (proxy tokio [] evening []) ≡ length (arrivals tokio [] evening))
    × ((k : ℕ)
        → Safety.get_elem? tokio [] (proxy tokio [] evening []) k
          ≡ Safety.get_elem? tokio [] (proxy tokio [] (only tokio [] k evening) []) k)
connections_are_apart_example = connections_are_apart tokio [] evening

abbrev opening : Server texts Bytes Database
opening = record { exchanges = []; state = empty }

abbrev with_exchange :
    Exchange texts Bytes → Server texts Bytes Database → Server texts Bytes Database
with_exchange e x = record x { exchanges = e ∷ x.exchanges }

abbrev first_goes_on : Server texts Bytes Database → Server texts Bytes Database
first_goes_on x = record {
  exchanges = (proceed_at suite (table calendar) 0 x.exchanges x.state).0;
  state = (proceed_at suite (table calendar) 0 x.exchanges x.state).1;
}

abbrev to_store : Call
to_store = store draws clock proof (some 60)

abbrev pub to_retrieve : Call
to_retrieve = retrieve 5000 token

opens_store :
    open_method texts server 1024 [] store_name (around 0) proof.contents ≡ some (calls to_store)
unfolding open_method from_json bytes_eq
opens_store = refl

pub opens_retrieve :
    open_method texts server 1024 [] retrieve_name (around 0) token ≡ some (calls to_retrieve)
unfolding open_method bytes_eq
opens_retrieve = refl

abbrev busy : Server texts Bytes Database
busy = with_exchange (exchange_of (asking b'r' token) retrieve_name token (calls to_retrieve)) (
    first_goes_on (
      with_exchange
        (exchange_of (asking b's' proof.contents) store_name proof.contents (calls to_store))
        opening))

abbrev done : Server texts Bytes Database
done = first_goes_on (first_goes_on busy)

pub let_through :
    (letter : ℕ) (p : Bytes)
    → IsLetThrough suite
        (table calendar)
        texts
        server
        crates
        (some (b's' ∷ []))
        1024
        []
        (asking letter p)
let_through letter p =
    Carries-IsLetThrough suite (table calendar) contract texts server crates 1024 [] b's' []
      (asking letter p) (asking-Carries letter p)

store-IsAdmissible : IsAdmissible suite (table calendar) contract to_store
store-IsAdmissible = (
  uuid-IsArray,
  λ r made.
      let same : kept ≡ r = cc (made, kept_lem) in subst contract.IsAccepted same kept-IsAccepted,
)

done-Serving :
    ServingFrom suite (table calendar) contract texts server crates 1024 [] b's' [] empty done
done-Serving =
    after
      (after
        (after
          (after
            (after started (
              comes_in (asking b's' proof.contents) store_name proof.contents (around 0)
                (calls to_store) (let_through b's' proof.contents) (rw asks_store (inl refl))
                opens_store store-IsAdmissible))
            (goes_on 0))
          (comes_in (asking b'r' token) retrieve_name token (around 0) (calls to_retrieve)
            (let_through b'r' token) (rw asks_retrieve (inl refl)) opens_retrieve tt))
        (goes_on 0))
      (goes_on 0)

abbrev told : Exchange texts Bytes
told = working (asking b'r' token) retrieve_name token (retrieving 5000 token (finished (ok proof)))

told_lem : get_elem? done.exchanges 0 ≡ some told
unfolding proceed_at proceed begin advance
told_lem =
    let put = (store_proof suite (table calendar) draws clock proof (some 60) empty).1 in
    let got =
      (retrieve-store suite (table calendar) contract draws draws-IsEntropy clock proof (some 60)
        empty kept 5000 kept_lem kept-IsAccepted empty-IsHealthy kept_live).1 in
    rw (advance-twice suite (table calendar) 5000 token put, got) refl

told_proof : reply_of told ≡ some (ok (object (record { proof_json = proof.contents })))
unfolding reply_for into_json
told_proof = refl

served_proofs_were_sent_example :
    HandedOut suite
      (table calendar)
      contract
      texts
      server
      crates
      1024
      []
      b's'
      []
      empty
      told
      (record { proof_json = proof.contents })
served_proofs_were_sent_example =
    served_proofs_were_sent suite (table calendar) contract texts server crates 1024 [] b's' []
      empty-IsHealthy done-Serving 0 told (record { proof_json = proof.contents }) told_lem
      told_proof
