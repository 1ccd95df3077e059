-- ===== src/Vault/Tasks/Effects.antt =====
-- What a turn of a task does to the records of a healthy backend.
use tari_vault.Base.{
  ℕ, zero, suc, Bytes, IsArray, bytes_eq, ◌≡◌, refl, Option, none, some, List, [], ◌∷◌, All, Result,
  ok, err, panic, if◌then◌else◌, Result-cases, inl, inr,
}
use tari_vault.Error.{VaultError}
use tari_vault.Domain.Chrono.{Instant}
use tari_vault.Domain.Record.{StoredRecord}
use tari_vault.Domain.ClaimId.Codec.{decode_sound, decode_cases}
use tari_vault.Domain.Proof.{PlaintextProof}
use tari_vault.Storage.Backend.{StorageBackend, Contract, swept}
use tari_vault.Vault.{Crypto, Entropy, StoreClock, store_proof, cleanup}
use tari_vault.Vault.Spec
use tari_vault.Vault.Storing.{store_proof_refines, store_proof_refused, store_proof_panics}
use tari_vault.Vault.Race
use tari_vault.Vault.Race.{Phase, asked, expiring, consuming, finished, PhaseOn, advance-PhaseOn}
use tari_vault.Vault.History.{Call, store, retrieve, delete, sweep, IsAdmissible}
use tari_vault.Vault.Tasks.{
  DeletePhase, to_delete, discarding, removing, refused, deleted, Task, storing, stored, retrieving,
  deleting, sweeping, begin, advance_delete, advance, DeleteOn, advance_delete-DeleteOn, turn,
  System, start, step, Reach, boot, later,
}

pub data Effect : Type 0 where
  keeps : Effect
  puts : Bytes → StoredRecord → Effect
  removes : Bytes → Effect
  sweeps : Instant → Effect

-- The record under `j` after the effect.
abbrev pub applied : Effect → Bytes → Option StoredRecord → Option StoredRecord
applied keeps j o = o
applied (puts id r) j o = if bytes_eq id j then some r else o
applied (removes id) j o = if bytes_eq id j then none else o
applied (sweeps now) j o = swept now o

abbrev pub put_if : Bytes → Result VaultError StoredRecord → Effect
put_if id (ok r) = puts id r
put_if id (err e) = keeps
put_if id panic = keeps

abbrev pub retrieve_effect : Phase → Effect
retrieve_effect (asked token) = keeps
retrieve_effect (expiring id) = removes id
retrieve_effect (consuming id plain) = removes id
retrieve_effect (finished r) = keeps

abbrev pub delete_effect : DeletePhase → Effect
delete_effect (to_delete token) = keeps
delete_effect (discarding id) = removes id
delete_effect (removing id) = removes id
delete_effect (refused r) = keeps
delete_effect (deleted id r) = keeps

abbrev pub effect : Crypto → Task → Effect
effect crypto (storing e clock proof ttl) = put_if e.uuid (Spec.storing crypto e clock proof ttl)
effect crypto (stored id r) = keeps
effect crypto (retrieving now t phase) = retrieve_effect phase
effect crypto (deleting now phase) = delete_effect phase
effect crypto (sweeping now) = sweeps now
effect crypto (Task.swept r) = keeps

module _ {S : Type 0} (crypto : Crypto) (backend : StorageBackend S) (c : Contract backend) where
  -- A task that the contract has something to say about.
  abbrev pub IsProper : Task → Type 0
  IsProper (storing e clock proof ttl) = IsAdmissible crypto backend c (store e clock proof ttl)
  IsProper (retrieving now t phase) = PhaseOn crypto backend (IsArray 16) phase
  IsProper (deleting now phase) = DeleteOn crypto backend (IsArray 16) phase
  IsProper (sweeping now) = c.IsClock now
  IsProper _ = Unit

  pub begin-IsProper : (call : Call) → IsAdmissible crypto backend c call → IsProper (begin call)
  unfolding begin
  begin-IsProper (store e clock proof ttl) h = h
  begin-IsProper (retrieve now token) h =
      λ claim d. (decode_sound crypto.base64 token claim d).0.id_array
  begin-IsProper (delete now token) h =
      λ claim d. (decode_sound crypto.base64 token claim d).0.id_array
  begin-IsProper (sweep now) h = h

  -- The state `s'` is `s` after the effect, and the backend is healthy.
  pub record After (e : Effect) (s s' : S) : Type 0 where
    pub healthy : c.IsHealthy s'
    pub views : (j : Bytes) → IsArray 16 j → c.view s' j ≡ applied e j (c.view s j)

  same-After : (s : S) → c.IsHealthy s → After keeps s s
  same-After s h = record { healthy = h; views = λ j _. refl }

  fetch-After : (id : Bytes) (s : S) → c.IsHealthy s → After keeps s (backend.fetch id s).1
  fetch-After id s h = record {
    healthy = c.fetch-IsHealthy id s h;
    views = λ j _. c.view-fetch id s h j;
  }

  remove-After :
      (id : Bytes) (s : S)
      → IsArray 16 id
      → c.IsHealthy s
      → After (removes id) s (backend.delete id s).1
  remove-After id s a h = record {
    healthy = c.delete-IsHealthy id s a h;
    views = λ j aj. c.view-delete id s a h j aj;
  }

  store-After :
      (e : Entropy) (clock : StoreClock) (proof : PlaintextProof) (ttl : Option ℕ) (s : S)
      → IsAdmissible crypto backend c (store e clock proof ttl)
      → c.IsHealthy s
      → After
          (put_if e.uuid (Spec.storing crypto e clock proof ttl))
          s
          (store_proof crypto backend e clock proof ttl s).1
  store-After e clock proof ttl s allowed h =
      elim (Result-cases (Spec.storing crypto e clock proof ttl)) [
        | inl (r, made) ↦
            let done =
              store_proof_refines crypto backend e clock proof c ttl s r made allowed.0
                (allowed.1 r made) h in
            rw made (record { healthy = done.healthy; views = done.views })
        | inr (inl (x, no_record)) ↦
            rw (no_record, store_proof_refused crypto backend e clock proof ttl s x no_record)
              (same-After s h)
        | inr (inr panics) ↦
            rw (panics, store_proof_panics crypto backend e clock proof ttl s panics)
              (same-After s h)
      ]

  sweep-After :
      (now : Instant) (s : S)
      → c.IsClock now
      → c.IsHealthy s
      → After (sweeps now) s (cleanup crypto backend now s).1
  unfolding cleanup
  sweep-After now s ok_clock h = record {
    healthy = c.delete_expired-IsHealthy now s ok_clock h;
    views = λ j aj. c.view-delete_expired now s ok_clock h j aj;
  }

  retrieve-After :
      (now : Instant) (phase : Phase) (s : S)
      → PhaseOn crypto backend (IsArray 16) phase
      → c.IsHealthy s
      → After (retrieve_effect phase) s (Race.advance crypto backend now phase s).1
  unfolding Race.advance
  retrieve-After now (asked token) s p h = elim (decode_cases crypto.base64 token) [
    | inl (claim, d) ↦ rw d (fetch-After claim.record_id s h)
    | inr d ↦ rw d (same-After s h)
  ]
  retrieve-After now (expiring id) s p h = remove-After id s p h
  retrieve-After now (consuming id plain) s p h = remove-After id s p h
  retrieve-After now (finished r) s p h = same-After s h

  delete-After :
      (now : Instant) (phase : DeletePhase) (s : S)
      → DeleteOn crypto backend (IsArray 16) phase
      → c.IsHealthy s
      → After (delete_effect phase) s (advance_delete crypto backend now phase s).1
  unfolding advance_delete
  delete-After now (to_delete token) s p h = elim (decode_cases crypto.base64 token) [
    | inl (claim, d) ↦ rw d (fetch-After claim.record_id s h)
    | inr d ↦ rw d (same-After s h)
  ]
  delete-After now (discarding id) s p h = remove-After id s p h
  delete-After now (removing id) s p h = remove-After id s p h
  delete-After now (refused r) s p h = same-After s h
  delete-After now (deleted id r) s p h = same-After s h

  -- A turn has the effect of its task, and no other.
  pub advance-After :
      (t : Task) (s : S)
      → IsProper t
      → c.IsHealthy s
      → After (effect crypto t) s (advance crypto backend t s).1
  unfolding advance
  advance-After (storing e clock proof ttl) s p h = store-After e clock proof ttl s p h
  advance-After (stored id r) s p h = same-After s h
  advance-After (retrieving now t phase) s p h = retrieve-After now phase s p h
  advance-After (deleting now phase) s p h = delete-After now phase s p h
  advance-After (sweeping now) s p h = sweep-After now s p h
  advance-After (Task.swept r) s p h = same-After s h

  pub advance-IsProper : (t : Task) (s : S) → IsProper t → IsProper (advance crypto backend t s).0
  unfolding advance
  advance-IsProper (storing e clock proof ttl) s p = tt
  advance-IsProper (stored id r) s p = tt
  advance-IsProper (retrieving now t phase) s p =
      advance-PhaseOn crypto backend (IsArray 16) now phase s p
  advance-IsProper (deleting now phase) s p =
      advance_delete-DeleteOn crypto backend (IsArray 16) now phase s p
  advance-IsProper (sweeping now) s p = tt
  advance-IsProper (Task.swept r) s p = tt

  -- What every reachable system has: a healthy backend and proper tasks.
  pub record IsSound (x : System S) : Type 0 where
    pub healthy : c.IsHealthy x.state
    pub proper : All IsProper x.tasks

  pub turn-IsSound :
      (i : ℕ) (ts : List Task) (s : S)
      → c.IsHealthy s
      → All IsProper ts
      → c.IsHealthy (turn crypto backend i ts s).1 × All IsProper (turn crypto backend i ts s).0
  unfolding turn
  turn-IsSound i [] s h p = (h, tt)
  turn-IsSound zero (t ∷ ts) s h p =
      ((advance-After t s p.0 h).healthy, (advance-IsProper t s p.0, p.1))
  turn-IsSound (suc i) (t ∷ ts) s h p =
      let (healthy, rest) = turn-IsSound i ts s h p.1 in (healthy, (p.0, rest))

  -- A reachable system is sound, when every call that is started is one that the contract admits.
  pub Reach-IsSound :
      {s : S} {x : System S}
      → c.IsHealthy s
      → Reach crypto backend (IsAdmissible crypto backend c) s x
      → IsSound x
  Reach-IsSound h boot = record { healthy = h; proper = tt }
  Reach-IsSound h (later r (start call allowed)) =
      let v = Reach-IsSound h r in
      record { healthy = v.healthy; proper = (begin-IsProper call allowed, v.proper) }
  Reach-IsSound h (later {x} r (step i)) =
      let v = Reach-IsSound h r in
      let (healthy, proper) = turn-IsSound i x.tasks x.state v.healthy v.proper in
      record { healthy = healthy; proper = proper }
