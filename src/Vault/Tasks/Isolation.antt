-- ===== src/Vault/Tasks/Isolation.antt =====
-- What the tasks of others can do to a record whose id they do not know.
use tari_vault.Base.{
  ℕ, zero, suc, Bytes, IsArray, bytes_eq, ◌≡◌, refl, sym, ◌∙◌, false, Option, List, [], ◌∷◌, All,
  Result, ok, err, panic,
}
use tari_vault.Error.{VaultError}
use tari_vault.Domain.Chrono.{Instant}
use tari_vault.Domain.Record.{StoredRecord}
use tari_vault.Domain.ClaimId.{ClaimId, decode}
use tari_vault.Domain.ClaimId.Codec.{decode_sound}
use tari_vault.Storage.Backend.{StorageBackend, Contract, swept}
use tari_vault.Vault.{Crypto, retrieve_proof, delete_proof}
use tari_vault.Vault.Spec
use tari_vault.Vault.Refines.{retrieve_proof_refines, delete_proof_refines}
use tari_vault.Vault.Race.{Phase, asked, expiring, consuming, finished, PhaseOn, advance-PhaseOn}
use tari_vault.Vault.History.{Call, store, retrieve, delete, sweep, IsAdmissible}
use tari_vault.Vault.Tasks.{
  DeletePhase, to_delete, discarding, removing, refused, deleted, Task, storing, stored, retrieving,
  deleting, sweeping, begin, advance, DeleteOn, advance_delete-DeleteOn, turn, System, start, step,
  Reach, boot, later, Reach-mono,
}
use tari_vault.Vault.Tasks.Effects.{
  IsProper, advance-After, effect, applied, put_if, Reach-IsSound, retrieve_effect, delete_effect,
}

module _ {S : Type 0} (crypto : Crypto) (backend : StorageBackend S) (c : Contract backend)
    (id : Bytes) (a : IsArray 16 id) (o : Option StoredRecord) where
  abbrev Other : Bytes → Type 0
  Other j = bytes_eq j id ≡ false

  -- A call that does not name the id, or a sweep that leaves the record `o`.
  abbrev pub IsForeign : Call → Type 0
  IsForeign (store e clock proof ttl) = Other e.uuid
  IsForeign (retrieve now token) =
      (claim : ClaimId) → decode crypto.base64 token ≡ ok claim → Other claim.record_id
  IsForeign (delete now token) =
      (claim : ClaimId) → decode crypto.base64 token ≡ ok claim → Other claim.record_id
  IsForeign (sweep now) = swept now o ≡ o

  abbrev pub Allowed : Call → Type 0
  Allowed call = IsAdmissible crypto backend c call × IsForeign call

  abbrev TaskIsForeign : Task → Type 0
  TaskIsForeign (storing e clock proof ttl) = Other e.uuid
  TaskIsForeign (retrieving now t phase) = PhaseOn crypto backend Other phase
  TaskIsForeign (deleting now phase) = DeleteOn crypto backend Other phase
  TaskIsForeign (sweeping now) = swept now o ≡ o
  TaskIsForeign _ = Unit

  begin-TaskIsForeign : (call : Call) → IsForeign call → TaskIsForeign (begin call)
  unfolding begin
  begin-TaskIsForeign (store e clock proof ttl) h = h
  begin-TaskIsForeign (retrieve now token) h = h
  begin-TaskIsForeign (delete now token) h = h
  begin-TaskIsForeign (sweep now) h = h

  advance-TaskIsForeign :
      (t : Task) (s : S) → TaskIsForeign t → TaskIsForeign (advance crypto backend t s).0
  unfolding advance
  advance-TaskIsForeign (storing e clock proof ttl) s p = tt
  advance-TaskIsForeign (stored j r) s p = tt
  advance-TaskIsForeign (retrieving now t phase) s p =
      advance-PhaseOn crypto backend Other now phase s p
  advance-TaskIsForeign (deleting now phase) s p =
      advance_delete-DeleteOn crypto backend Other now phase s p
  advance-TaskIsForeign (sweeping now) s p = tt
  advance-TaskIsForeign (Task.swept r) s p = tt

  retrieve_effect_lem :
      (phase : Phase)
      → PhaseOn crypto backend Other phase
      → applied (retrieve_effect phase) id o ≡ o
  retrieve_effect_lem (asked token) p = refl
  retrieve_effect_lem (expiring j) p = rw p
  retrieve_effect_lem (consuming j plain) p = rw p
  retrieve_effect_lem (finished r) p = refl

  delete_effect_lem :
      (phase : DeletePhase)
      → DeleteOn crypto backend Other phase
      → applied (delete_effect phase) id o ≡ o
  delete_effect_lem (to_delete token) p = refl
  delete_effect_lem (discarding j) p = rw p
  delete_effect_lem (removing j) p = rw p
  delete_effect_lem (refused r) p = refl
  delete_effect_lem (deleted j r) p = refl

  put_lem :
      (j : Bytes) (r : Result VaultError StoredRecord) → Other j → applied (put_if j r) id o ≡ o
  put_lem j (ok r) p = rw p
  put_lem j (err e) p = refl
  put_lem j panic p = refl

  -- The effect of a foreign task leaves the record.
  effect_lem : (t : Task) → TaskIsForeign t → applied (effect crypto t) id o ≡ o
  effect_lem (storing e clock proof ttl) p =
      put_lem e.uuid (Spec.storing crypto e clock proof ttl) p
  effect_lem (stored j r) p = refl
  effect_lem (retrieving now t phase) p = retrieve_effect_lem phase p
  effect_lem (deleting now phase) p = delete_effect_lem phase p
  effect_lem (sweeping now) p = p
  effect_lem (Task.swept r) p = refl

  turn_lem :
      (i : ℕ) (ts : List Task) (s : S)
      → c.IsHealthy s
      → All (IsProper crypto backend c) ts
      → All TaskIsForeign ts
      → c.view s id ≡ o
      → (c.view (turn crypto backend i ts s).1 id ≡ o)
        × All TaskIsForeign (turn crypto backend i ts s).0
  unfolding turn
  turn_lem i [] s h p f e = (e, tt)
  turn_lem zero (t ∷ ts) s h p f e =
      let seen = (advance-After crypto backend c t s p.0 h).views id a in
      (seen ∙ rw e (effect_lem t f.0), (advance-TaskIsForeign t s f.0, f.1))
  turn_lem (suc i) (t ∷ ts) s h p f e =
      let (same, rest) = turn_lem i ts s h p.1 f.1 e in (same, (f.0, rest))

  IsAdmissible-of :
      {s : S} {x : System S}
      → Reach crypto backend Allowed s x
      → Reach crypto backend (IsAdmissible crypto backend c) s x
  IsAdmissible-of r = Reach-mono crypto backend (λ call p. p.0) r

  Reach-view :
      {s : S} {x : System S}
      → c.IsHealthy s
      → c.view s id ≡ o
      → Reach crypto backend Allowed s x
      → (c.view x.state id ≡ o) × All TaskIsForeign x.tasks
  Reach-view h e boot = (e, tt)
  Reach-view h e (later r (start call p)) =
      let (same, rest) = Reach-view h e r in (same, (begin-TaskIsForeign call p.1, rest))
  Reach-view h e (later {x} r (step i)) =
      let (same, rest) = Reach-view h e r in
      let v = Reach-IsSound crypto backend c h (IsAdmissible-of r) in
      turn_lem i x.tasks x.state v.healthy v.proper rest same

-- However the calls of others are started and take turns over a healthy backend, none of which names
-- the id of a claim, and whose sweeps leave its record: a retrieval and a delete by the claim's token
-- are answered as they would have been at first.
pub others_do_not_matter :
    {S : Type 0} (crypto : Crypto) (backend : StorageBackend S) (c : Contract backend)
    (token : Bytes) (claim : ClaimId) (now : Instant) (s : S) (x : System S)
    → (d : decode crypto.base64 token ≡ ok claim) → c.IsHealthy s
    → Reach crypto backend
        (Allowed crypto backend c claim.record_id
          (decode_sound crypto.base64 token claim d).0.id_array
          (c.view s claim.record_id))
        s
        x
    → ((retrieve_proof crypto backend now token x.state).0
        ≡ (retrieve_proof crypto backend now token s).0)
      × ((delete_proof crypto backend now token x.state).0
          ≡ (delete_proof crypto backend now token s).0)
others_do_not_matter crypto backend c token claim now s x d h r =
    let a = (decode_sound crypto.base64 token claim d).0.id_array in
    let v =
      Reach-IsSound crypto backend c h
        (IsAdmissible-of crypto backend c claim.record_id a (c.view s claim.record_id) r) in
    let same =
      (Reach-view crypto backend c claim.record_id a (c.view s claim.record_id) h refl r).0 in
    let got = retrieve_proof_refines crypto backend c now token claim x.state d v.healthy in
    let first = retrieve_proof_refines crypto backend c now token claim s d h in
    let gone = delete_proof_refines crypto backend c now token claim x.state d v.healthy in
    let first_gone = delete_proof_refines crypto backend c now token claim s d h in
    (rw same at got.0 ∙ sym first.0, rw same at gone.0 ∙ sym first_gone.0)
