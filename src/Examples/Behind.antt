-- ===== src/Examples/Behind.antt =====
-- A server over a backend with a lock, of which a client is told a proof.
use tari_vault.Base.{Bytes, ◌≡◌, refl, ap, ◌∙◌, some, [], ◌∷◌, ok, inl, true}
use tari_vault.Domain.Proof.{into_json}
use tari_vault.Storage.Sqlite.{Database}
use tari_vault.Storage.Sqlite.Intact.{table}
use tari_vault.Storage.Backend.Ask.{LockedParts, asks, fetches, deletes}
use tari_vault.Vault.Tasks.{Task, retrieving, begin, advance}
use tari_vault.Vault.Race.{consuming, finished}
use tari_vault.Vault.Race.Redemption.{advance-asked, advance-consuming}
use tari_vault.Vault.Tasks.Asks.{ask_of}
use tari_vault.Vault.Tasks.Locked.{outside}
use tari_vault.Vault.Tasks.Locked.Alone.{onward, three_steps}
use tari_vault.Vault.Tasks.Locked as Floors
use tari_vault.Rpc.Jsonrpsee.{object}
use tari_vault.Rpc.Methods.{retrieve_name}
use tari_vault.Rpc.Opening.{calls, reply_for}
use tari_vault.Rpc.Concurrent.{Exchange, working, exchange_of, get_elem?, reply_of}
use tari_vault.Rpc.Concurrent.Origin.{HandedOut}
use tari_vault.Rpc.Concurrent.Locked.{
  LockedServer, with_tasks, entering, worked, comes_in, goes_on, started, after,
}
use tari_vault.Rpc.Concurrent.Locked.Served.{LockedServingFrom, locked_proofs_were_sent}
use tari_vault.Examples.Toy.{calendar, suite, texts, crates}
use tari_vault.Examples.Service.{asks_retrieve, server, around, asking}
use tari_vault.Examples.Server.{let_through, to_retrieve, opens_retrieve}
use tari_vault.Examples.Shop.{
  uuid, proof, claim, token, decode-token, kept, contract, stocked, stocked-IsHealthy, view-stocked,
}
use tari_vault.Examples.Redeeming.{redeemable}

-- A call that reads nothing first.
abbrev parts : LockedParts (table calendar)
parts = record {
  Loaded = Unit;
  load = λ d. (tt, d);
  finish = λ a l d. asks (table calendar) a d;
  asks-finish = λ a d. refl;
}

abbrev Open : Type 0
Open = LockedServer texts Bytes (Unit {0}) Database

abbrev opening : Open
opening = record { exchanges = []; floor = record { workers = []; free = true; state = stocked } }

abbrev asked_for : Open
asked_for = record {
  exchanges = exchange_of (asking b'r' token) retrieve_name token (calls to_retrieve) ∷ [];
  floor = entering {serde = texts} (calls to_retrieve) opening.floor;
}

abbrev goes : Open → Open
goes x = record {
  exchanges =
      with_tasks x.exchanges
        (Floors.tasks_of (worked suite (table calendar) parts 0 x.floor).workers);
  floor = worked suite (table calendar) parts 0 x.floor;
}

abbrev done : Open
done = goes (goes (goes (goes (goes (goes asked_for)))))

done-LockedServing :
    LockedServingFrom suite
      (table calendar)
      parts
      contract
      texts
      server
      crates
      1024
      []
      b's'
      []
      stocked
      done
done-LockedServing =
    after
      (after
        (after
          (after
            (after
              (after
                (after started (
                  comes_in (asking b'r' token) retrieve_name token (around 0) (calls to_retrieve)
                    (let_through b'r' token) (rw asks_retrieve (inl refl)) opens_retrieve tt))
                (goes_on 0))
              (goes_on 0))
            (goes_on 0))
          (goes_on 0))
        (goes_on 0))
      (goes_on 0)

abbrev told : Exchange texts Bytes
told = working (asking b'r' token) retrieve_name token (retrieving 5000 token (finished (ok proof)))

-- The retrieval after its first turn and after its second.
abbrev read : Task
read = retrieving 5000 token (consuming uuid proof.contents)

abbrev left : Database
left = ((table calendar).fetch uuid stocked).1

first_turn : advance suite (table calendar) (begin to_retrieve) stocked ≡ (read, left)
unfolding advance begin
first_turn =
    ap (λ p. (retrieving 5000 token p.0, p.1))
      (advance-asked suite (table calendar) contract 5000 token claim decode-token proof.contents
        kept stocked redeemable stocked-IsHealthy view-stocked)

second_turn :
    (advance suite (table calendar) read left).0 ≡ retrieving 5000 token (finished (ok proof))
unfolding advance
second_turn =
    ap (λ p. retrieving 5000 token p.0)
      (advance-consuming suite (table calendar) contract 5000 token claim decode-token
        proof.contents left (contract.fetch-IsHealthy uuid stocked stocked-IsHealthy))

asks_first : ask_of suite (begin to_retrieve) ≡ some (fetches uuid)
unfolding begin
asks_first = rw decode-token refl

six_steps :
    let now = onward suite (table calendar) parts in
    now (now (now (now (now (now (outside (begin to_retrieve), true, stocked)))))) ≡ (
      outside (advance suite (table calendar) read left).0,
      true,
      (advance suite (table calendar) read left).1,
    )
six_steps =
    let now = onward suite (table calendar) parts in
    ap (λ p. now (now (now p)))
      (three_steps suite (table calendar) parts (begin to_retrieve) stocked (fetches uuid)
          asks_first
        ∙ ap (λ p. (outside p.0, true, p.1)) first_turn)
    ∙ three_steps suite (table calendar) parts read left (deletes uuid) refl

told_lem : get_elem? done.exchanges 0 ≡ some told
unfolding Floors.work_at
told_lem =
    ap (λ p. some (working (asking b'r' token) retrieve_name token (Floors.task_of p.0))) six_steps
    ∙ ap (λ t. some (working (asking b'r' token) retrieve_name token t)) second_turn

told_proof : reply_of told ≡ some (ok (object (record { proof_json = proof.contents })))
unfolding reply_for into_json
told_proof = refl

locked_proofs_were_sent_example :
    HandedOut suite
      (table calendar)
      contract
      texts
      server
      crates
      1024
      []
      b's'
      []
      stocked
      told
      (record { proof_json = proof.contents })
locked_proofs_were_sent_example =
    locked_proofs_were_sent suite (table calendar) parts contract texts server crates 1024 [] b's'
      [] stocked-IsHealthy done-LockedServing 0 told (record { proof_json = proof.contents })
      told_lem told_proof
