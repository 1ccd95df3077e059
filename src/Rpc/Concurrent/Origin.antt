-- ===== src/Rpc/Concurrent/Origin.antt =====
-- Where a proof that src/rpc/server.rs hands out comes from.
use tari_vault.Base.{
  ℕ, zero, suc, Bytes, ◌≡◌, ◌≢◌, refl, ap, ◌∙◌, subst, some, List, [], ◌∷◌, All, ok,
}
use tari_vault.Domain.Proof.{SerdeJson}
use tari_vault.Storage.Backend.{StorageBackend, Contract}
use tari_vault.Vault.{Crypto}
use tari_vault.Vault.History.{store, retrieve, delete, sweep}
use tari_vault.Vault.Tasks.{Task, storing, stored, retrieving, deleting, sweeping, begin, advance}
use tari_vault.Vault.Tasks.Phases.{DecryptsTo}
use tari_vault.Vault.Tasks.Origin.{handed_out_was_stored}
use tari_vault.Auth.{HttpCrates, Request}
use tari_vault.Rpc.{ProofObject}
use tari_vault.Rpc.Jsonrpsee.{object, Jsonrpsee}
use tari_vault.Rpc.Methods.{retrieve_name}
use tari_vault.Rpc.Opening.{Opening, replies, calls}
use tari_vault.Rpc.Concurrent.{
  Exchange, replied, working, sweeper, exchange_of, reply_of, get_elem?, Server, proceed,
  proceed_at, comes_in, sweeps, goes_on, started, after,
}
use tari_vault.Rpc.Concurrent.Made.{Sends, IsMade, open_method-IsMade}
use tari_vault.Rpc.Concurrent.Reached.{let_through-Carries, Sent, ServingFrom, Serving-Reach}
use tari_vault.Rpc.Concurrent.Replies.{task_at, handing_out}

module _ {S : Type 0} (crypto : Crypto) (backend : StorageBackend S) (c : Contract backend)
    (serde : SerdeJson) (rpc : Jsonrpsee serde S) (http : HttpCrates) (max : ℕ)
    (openrpc_spec : Bytes) (b : ℕ) (bs : Bytes) where
  -- The request asks for this token.
  abbrev pub AsksFor : Request → Bytes → rpc.Params → Bytes → Type 0
  AsksFor req name params text =
      Sends serde rpc http max openrpc_spec b bs req name params
      × (name ≡ retrieve_name)
      × (rpc.claim_id_param params ≡ ok text)

  -- A retrieval that is under way was asked for, and no reply at once hands out a proof.
  abbrev TaskKept : Request → Bytes → rpc.Params → Task → Type 0
  TaskKept req name params (retrieving now text phase) = AsksFor req name params text
  TaskKept req name params _ = Unit

  abbrev Kept : Exchange serde rpc.Params → Type 0
  Kept (replied req name params r) = (o : ProofObject serde) → r ≢ ok (object o)
  Kept (working req name params t) = TaskKept req name params t
  Kept (sweeper t) = Unit

  advance-TaskKept :
      (req : Request) (name : Bytes) (params : rpc.Params) (t : Task) (s : S)
      → TaskKept req name params t
      → TaskKept req name params (advance crypto backend t s).0
  unfolding advance
  advance-TaskKept req name params (storing e clock p ttl) s k = tt
  advance-TaskKept req name params (stored id r) s k = tt
  advance-TaskKept req name params (retrieving now text phase) s k = k
  advance-TaskKept req name params (deleting now phase) s k = tt
  advance-TaskKept req name params (sweeping now) s k = tt
  advance-TaskKept req name params (Task.swept r) s k = tt

  proceed-Kept :
      (e : Exchange serde rpc.Params) (s : S) → Kept e → Kept (proceed crypto backend e s).0
  unfolding proceed
  proceed-Kept (replied req name params r) s k = k
  proceed-Kept (working req name params t) s k = advance-TaskKept req name params t s k
  proceed-Kept (sweeper t) s k = tt

  proceed_at-Kept :
      (i : ℕ) (es : List (Exchange serde rpc.Params)) (s : S)
      → All Kept es
      → All Kept (proceed_at crypto backend i es s).0
  unfolding proceed_at
  proceed_at-Kept i [] s k = tt
  proceed_at-Kept zero (e ∷ es) s k = (proceed-Kept e s k.0, k.1)
  proceed_at-Kept (suc i) (e ∷ es) s k = (k.0, proceed_at-Kept i es s k.1)

  opened-Kept :
      (req : Request) (name : Bytes) (params : rpc.Params) (o : Opening serde)
      → Sends serde rpc http max openrpc_spec b bs req name params
      → IsMade serde rpc http max openrpc_spec b bs name params o
      → Kept (exchange_of req name params o)
  unfolding begin
  opened-Kept req name params (replies r) sent made = made
  opened-Kept req name params (calls (store e clock p ttl)) sent made = tt
  opened-Kept req name params (calls (retrieve now text)) sent made = (sent, made.0, made.1)
  opened-Kept req name params (calls (delete now text)) sent made = tt
  opened-Kept req name params (calls (sweep now)) sent made = absurd made

  Serving-Kept :
      {s : S} {x : Server serde rpc.Params S}
      → ServingFrom crypto backend c serde rpc http max openrpc_spec b bs s x
      → All Kept x.exchanges
  Serving-Kept started = tt
  Serving-Kept (after {x} r (comes_in req name params a o through there opens allowed)) = (
    opened-Kept req name params o
        (
          let_through-Carries crypto backend c serde rpc http max openrpc_spec b bs req x.state
              through,
          there,
        )
        (open_method-IsMade serde rpc http max openrpc_spec b bs name a params o opens),
    Serving-Kept r,
  )
  Serving-Kept (after r (sweeps now allowed)) = (tt, Serving-Kept r)
  Serving-Kept (after {x} r (goes_on i)) = proceed_at-Kept i x.exchanges x.state (Serving-Kept r)

  All-get_elem? :
      (es : List (Exchange serde rpc.Params)) (i : ℕ) (e : Exchange serde rpc.Params)
      → All Kept es
      → get_elem? es i ≡ some e
      → Kept e
  All-get_elem? [] i e k h = absurd cc
  All-get_elem? (x ∷ es) zero e k h = let same : x ≡ e = cc in subst Kept same k.0
  All-get_elem? (x ∷ es) (suc i) e k h = All-get_elem? es i e k.1 h

  -- A proof that a client is told of.
  pub record HandedOut (s : S) (e : Exchange serde rpc.Params) (o : ProofObject serde)
      : Type 0 where
    pub request : Request
    pub name : Bytes
    pub params : rpc.Params
    pub text : Bytes
    pub plain : Bytes
    pub asked_by : (t : Task) × (e ≡ working request name params t)
    pub asked_for : AsksFor request name params text
    pub value : serde.from_slice plain ≡ ok o.proof_json
    pub from :
        DecryptsTo crypto backend c
          (Sent crypto backend c serde rpc http max openrpc_spec b bs)
          s
          text
          plain

  -- A server with a token that is not empty runs over a backend that is healthy at first; any number
  -- of requests with any calls come in and are interleaved in any way, with sweeps among them, all of
  -- them within the contract. Whenever a client has been told a proof: its request carries the
  -- token and asked for it by `vault_retrieveProof`, the value is read from bytes that are what the key
  -- of the token it asked for decrypts a record under that token's id to, and the record was there
  -- at first, or it is the one that the vault makes of a `vault_storeProof` in a request that
  -- carries the token, with a value within the limit.
  pub served_proofs_were_sent :
      {s : S} {x : Server serde rpc.Params S}
      → c.IsHealthy s
      → ServingFrom crypto backend c serde rpc http max openrpc_spec b bs s x
      → (i : ℕ) (e : Exchange serde rpc.Params) (o : ProofObject serde)
      → get_elem? x.exchanges i ≡ some e
      → reply_of e ≡ some (ok (object o))
      → HandedOut s e o
  served_proofs_were_sent {x} h r i (replied req name params answer) o there told =
      absurd (All-get_elem? x.exchanges i _ (Serving-Kept r) there o cc)
  served_proofs_were_sent {x} h r i (sweeper t) o there told = absurd cc
  served_proofs_were_sent {s} {x} h r i (working req name params t) o there told =
      let (now, text, p, it, value) = handing_out serde t o told in
      let (j, among) = task_at x.exchanges i req name params t there in
      record {
        request = req;
        name = name;
        params = params;
        text = text;
        plain = p.contents;
        asked_by = (t, refl);
        asked_for =
            subst (TaskKept req name params) it
              (All-get_elem? x.exchanges i _ (Serving-Kept r) there);
        value = value;
        from =
            handed_out_was_stored crypto backend c
              (Sent crypto backend c serde rpc http max openrpc_spec b bs) s h
              (Serving-Reach crypto backend c serde rpc http max openrpc_spec b bs r) j now text p
              (among ∙ ap some it);
      }
