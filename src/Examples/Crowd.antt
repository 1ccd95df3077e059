-- ===== src/Examples/Crowd.antt =====
-- Several calls at once over the SQLite store.
use tari_vault.Base.{
  ℕ, Bytes, IsArray, some, [], ◌∷◌, ◌≡◌, ◌≢◌, none, ◌≤◌, ◌+◌, refl, ok, arith, bytes_eq, replicate,
  subst, inl, inr, ◌⊎◌,
}
use tari_vault.Storage.Sqlite.{Database}
use tari_vault.Storage.Sqlite.Intact.{table}
use tari_vault.Vault.{store_proof, retrieve_proof, delete_proof}
use tari_vault.Vault.Race.{finished, advance-twice}
use tari_vault.Vault.RoundTrip.{retrieve-store}
use tari_vault.Vault.History.{Call, store, retrieve, delete, IsAdmissible}
use tari_vault.Vault.Tasks.{
  retrieving, begin, advance, System, start, step, Reach, boot, later, Reach-mono, turn, get_elem?,
}
use tari_vault.Vault.Tasks.Counts.{deletes, stores, present, deletes-le-stores}
use tari_vault.Vault.Tasks.Isolation.{Allowed, others_do_not_matter}
use tari_vault.Vault.Tasks.Alone.{Outcome, outcome}
use tari_vault.Vault.Map.{Records, answered_by, left_by}
use tari_vault.Vault.Map.Refines.{Holds}
use tari_vault.Vault.Map.Turns.{answer_of, turns_follow_the_map}
use tari_vault.Vault.Tasks.RealTime.{meanwhile, and_then, no_late_redemption}
use tari_vault.Domain.ClaimId.Codec.{decode_sound}
use tari_vault.Examples.Toy.{engine, calendar, suite}
use tari_vault.Examples.Shop.{
  uuid, uuid-IsArray, draws, clock, proof, claim, token, decode-token, kept, kept_lem, kept_live,
  draws-IsEntropy, kept-IsAccepted, contract, empty, empty-IsHealthy, stocked, stocked-IsHealthy,
}

abbrev putting : Call
putting = store draws clock proof (some 60)

putting-IsAdmissible : IsAdmissible suite (table calendar) contract putting
putting-IsAdmissible = (
  uuid-IsArray,
  λ r made.
      let same : kept ≡ r = cc (made, kept_lem) in subst contract.IsAccepted same kept-IsAccepted,
)

abbrev booted : Database → System Database
booted d = record { tasks = []; state = d }

abbrev started : Call → System Database → System Database
started call x = record x { tasks = begin call ∷ x.tasks }

abbrev turned : ℕ → System Database → System Database
turned i x = record {
  tasks = (turn suite (table calendar) i x.tasks x.state).0;
  state = (turn suite (table calendar) i x.tasks x.state).1;
}

-- A store and a delete at once: the store has its turn first, then the delete has two.
abbrev emptied : System Database
emptied =
    turned 0 (turned 0 (turned 1 (started (delete 5000 token) (started putting (booted empty)))))

emptied-Reach :
    Reach suite (table calendar) (IsAdmissible suite (table calendar) contract) empty emptied
emptied-Reach =
    later
      (later
        (later
          (later (later boot (start putting putting-IsAdmissible)) (start (delete 5000 token) tt))
          (step 1))
        (step 0))
      (step 0)

deletes-le-stores_example :
    deletes suite (table calendar) contract uuid uuid-IsArray emptied.tasks
      + present suite (table calendar) contract uuid uuid-IsArray emptied.state
    ≤ stores suite (table calendar) contract uuid uuid-IsArray emptied.tasks
      + present suite (table calendar) contract uuid uuid-IsArray empty
deletes-le-stores_example =
    deletes-le-stores suite (table calendar) contract uuid uuid-IsArray empty-IsHealthy
      emptied-Reach

-- Somebody else stores and deletes under another id.
abbrev other_uuid : Bytes
other_uuid = replicate 16 8

abbrev other_putting : Call
other_putting = store (record draws { uuid = other_uuid }) clock proof (some 60)

-- What the contract sees of the SQLite store with one record.
abbrev seen : Records
seen j = contract.view stocked j

turns_follow_the_map_example :
    let first = advance suite (table calendar) (begin (delete 5000 token)) stocked in
    let second = advance suite (table calendar) first.0 first.1 in
    ((o : Outcome) × (outcome second.0 ≡ some o)
      × (answer_of o ≡ answered_by suite (delete 5000 token) seen))
    × Holds suite
        (table calendar)
        contract
        second.1
        (λ j. left_by suite (delete 5000 token) j (seen j))
turns_follow_the_map_example =
    turns_follow_the_map suite (table calendar) contract (delete 5000 token) stocked seen tt
      (record { healthy = stocked-IsHealthy; views = λ j a. refl })

other_uuid-IsArray : IsArray 16 other_uuid
other_uuid-IsArray = record { size = refl; bytes = ground arith }

abbrev elsewhere : System Database
elsewhere = turned 0 (started other_putting (booted stocked))

other_putting-Allowed :
    Allowed suite
      (table calendar)
      contract
      uuid
      (decode_sound engine token claim decode-token).0.id_array
      (contract.view stocked uuid)
      other_putting
unfolding bytes_eq
other_putting-Allowed = (
  (
    other_uuid-IsArray,
    λ r made.
        let same : kept ≡ r = cc (made, kept_lem) in subst contract.IsAccepted same kept-IsAccepted,
  ),
  refl,
)

others_do_not_matter_example :
    ((retrieve_proof suite (table calendar) 5000 token elsewhere.state).0
      ≡ (retrieve_proof suite (table calendar) 5000 token stocked).0)
    × ((delete_proof suite (table calendar) 5000 token elsewhere.state).0
        ≡ (delete_proof suite (table calendar) 5000 token stocked).0)
others_do_not_matter_example =
    others_do_not_matter suite (table calendar) contract token claim 5000 stocked elsewhere
      decode-token stocked-IsHealthy
      (later (later boot (start other_putting other_putting-Allowed)) (step 0))

-- A store, then a retrieval.
abbrev redeemed : System Database
redeemed =
    turned 0 (turned 0 (started (retrieve 5000 token) (turned 0 (started putting (booted empty)))))

abbrev IsOurs : Call → Type 0
IsOurs call = call ≡ putting ⊎ call ≡ retrieve 5000 token

redeemed-Reach :
    Reach suite
      (table calendar)
      (λ call. IsAdmissible suite (table calendar) contract call × IsOurs call)
      empty
      redeemed
redeemed-Reach =
    later
      (later
        (later (later (later boot (start putting (putting-IsAdmissible, inl refl))) (step 0))
          (start (retrieve 5000 token) (tt, inr refl)))
        (step 0))
      (step 0)

redeemed_lem : get_elem? redeemed.tasks 0 ≡ some (retrieving 5000 token (finished (ok proof)))
unfolding turn begin advance
redeemed_lem =
    let put = (store_proof suite (table calendar) draws clock proof (some 60) empty).1 in
    let got =
      (retrieve-store suite (table calendar) contract draws draws-IsEntropy clock proof (some 60)
        empty kept 5000 kept_lem kept-IsAccepted empty-IsHealthy kept_live).1 in
    rw (advance-twice suite (table calendar) 5000 token put, got) refl

redeemed_gone : contract.view redeemed.state uuid ≡ none
unfolding turn begin advance
redeemed_gone =
    let put = (store_proof suite (table calendar) draws clock proof (some 60) empty).1 in
    let gone =
      (retrieve-store suite (table calendar) contract draws draws-IsEntropy clock proof (some 60)
        empty kept 5000 kept_lem kept-IsAccepted empty-IsHealthy kept_live).2 in
    rw (advance-twice suite (table calendar) 5000 token put) gone.missing

-- A second retrieval, which begins after the first has been answered.
abbrev too_late : System Database
too_late = turned 0 (started (retrieve 6000 token) redeemed)

no_late_redemption_example :
    get_elem? too_late.tasks 0 ≢ some (retrieving 6000 token (finished (ok proof)))
unfolding turn advance begin
no_late_redemption_example =
    no_late_redemption suite (table calendar) contract token claim decode-token empty-IsHealthy
      (Reach-mono suite (table calendar) (λ call allowed. allowed.0) redeemed-Reach) redeemed_gone
      (tt, (tt, tt)) (and_then (and_then meanwhile (start (retrieve 6000 token) (tt, tt))) (step 0))
      0 6000 proof (omega arith)
