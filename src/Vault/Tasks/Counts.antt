-- ===== src/Vault/Tasks/Counts.antt =====
-- How many deletes of one id can succeed, however the tasks take turns.
use tari_vault.Base.{
  ℕ, zero, suc, ◌+◌, ◌≤◌, Bytes, IsArray, bytes_eq, bytes_eq_iff, ◌≡◌, refl, Bool, Option, none,
  some, List, [], ◌∷◌, All, Result, ok, err, panic, if◌then◌else◌, arith, Bool-cases, Option-cases,
  Result-cases, inl, inr,
}
use tari_vault.Error.{StorageError, VaultError}
use tari_vault.Domain.Chrono.{Instant}
use tari_vault.Domain.Record.{StoredRecord}
use tari_vault.Domain.ClaimId.Codec.{decode_cases}
use tari_vault.Domain.Proof.{PlaintextProof}
use tari_vault.Storage.Backend.{StorageBackend, Contract, is_some, swept}
use tari_vault.Vault.{Crypto, Entropy, StoreClock, store_proof}
use tari_vault.Vault.Spec
use tari_vault.Vault.Storing.{store_proof_refines, store_proof_refused, store_proof_panics}
use tari_vault.Vault.Race.{Phase, asked, expiring, consuming, finished}
use tari_vault.Vault.History.{Call, store, retrieve, delete, sweep, IsAdmissible}
use tari_vault.Vault.Tasks.{
  DeletePhase, to_delete, discarding, removing, refused, deleted, Task, storing, stored, retrieving,
  deleting, sweeping, begin, advance_delete, advance, turn, System, start, step, Reach, boot, later,
  removed_answer, after_fetch,
}
use tari_vault.Vault.Tasks.Effects.{
  IsProper, advance-After, retrieve_effect, delete_effect, applied, Reach-IsSound,
}

abbrev pub total : (Task → ℕ) → List Task → ℕ
total w [] = 0
total w (t ∷ ts) = w t + total w ts

abbrev counted : {A : Type 0} → Bool → Result VaultError A → ℕ
counted same (ok a) = if same then 1 else 0
counted same (err e) = 0
counted same panic = 0

-- A delete of the record under `id` that has answered with success.
abbrev pub delete_succeeded : Bytes → Task → ℕ
delete_succeeded id (deleting now (deleted j r)) = counted (bytes_eq j id) r
delete_succeeded id _ = 0

-- A store of a record under `id` that has answered with its token.
abbrev pub store_succeeded : Bytes → Task → ℕ
store_succeeded id (stored j r) = counted (bytes_eq j id) r
store_succeeded id _ = 0

abbrev one_if_some : Option StoredRecord → ℕ
one_if_some o = if is_some o then 1 else 0

one_if_some-swept :
    (now : Instant) (o : Option StoredRecord) → one_if_some (swept now o) ≤ one_if_some o
one_if_some-swept now none = omega arith
one_if_some-swept now (some r) = ground arith

-- What the books say of a task that has moved from `t` to `t'`, and of a record from `o` to `o'`.
abbrev Balanced : Bytes → Task → Option StoredRecord → Task → Option StoredRecord → Type 0
Balanced id t o t' o' =
    delete_succeeded id t' + one_if_some o' + store_succeeded id t
    ≤ delete_succeeded id t + one_if_some o + store_succeeded id t'

module _ {S : Type 0} (crypto : Crypto) (backend : StorageBackend S) (c : Contract backend)
    (id : Bytes) (a : IsArray 16 id) where
  -- One, if there is a record under the id.
  abbrev pub present : S → ℕ
  present s = one_if_some (c.view s id)

  store-Balanced :
      (e : Entropy) (clock : StoreClock) (proof : PlaintextProof) (ttl : Option ℕ) (s : S)
      → IsAdmissible crypto backend c (store e clock proof ttl)
      → c.IsHealthy s
      → let x = store_proof crypto backend e clock proof ttl s in
        present x.1 ≤ present s + counted (bytes_eq e.uuid id) x.0
  store-Balanced e clock proof ttl s allowed h =
      elim (Result-cases (Spec.storing crypto e clock proof ttl)) [
        | inl (r, made) ↦
            let done =
              store_proof_refines crypto backend e clock proof c ttl s r made allowed.0
                (allowed.1 r made) h in
            rw (done.answer, done.views id a) (ground arith)
        | inr (inl (x, no_record)) ↦
            rw (store_proof_refused crypto backend e clock proof ttl s x no_record) (omega arith)
        | inr (inr panics) ↦
            rw (store_proof_panics crypto backend e clock proof ttl s panics) (omega arith)
      ]

  -- A removal of some record.
  removes-Balanced :
      (j : Bytes) (o : Option StoredRecord)
      → one_if_some (if bytes_eq j id then none else o) ≤ one_if_some o
  removes-Balanced j none = ground arith
  removes-Balanced j (some r) = ground arith

  retrieve-Balanced :
      (phase : Phase) (o : Option StoredRecord)
      → one_if_some (applied (retrieve_effect phase) id o) ≤ one_if_some o
  retrieve-Balanced (asked token) o = omega arith
  retrieve-Balanced (expiring j) o = removes-Balanced j o
  retrieve-Balanced (consuming j plain) o = removes-Balanced j o
  retrieve-Balanced (finished r) o = omega arith

  fetched_nothing :
      (now : Instant) (j : Bytes) (r : Result StorageError StoredRecord)
      → delete_succeeded id (deleting now (after_fetch crypto backend now j r)) ≡ 0
  unfolding after_fetch
  fetched_nothing now j (ok r) = ground arith
  fetched_nothing now j (err e) = refl
  fetched_nothing now j panic = refl

  -- The answer tells whether the record was there.
  removing-Balanced :
      (j : Bytes) (s : S)
      → counted (bytes_eq j id) (removed_answer crypto backend (ok (is_some (c.view s j))))
          + one_if_some (if bytes_eq j id then none else c.view s id)
          + 0
        ≤ 0 + one_if_some (c.view s id) + 0
  unfolding removed_answer
  removing-Balanced j s = elim (Bool-cases (bytes_eq j id)) [
    | inr other ↦ rw other (elim (Option-cases (c.view s j)) [
      | inl e ↦ rw e (omega arith)
      | inr (r, e) ↦ rw e (omega arith)
    ])
    | inl same ↦
        rw (same, (bytes_eq_iff j id).0 same)
          (elim (Option-cases (c.view s id)) [
            | inl e ↦ rw e (omega arith)
            | inr (r, e) ↦ rw e (omega arith)
          ])
  ]

  delete-Balanced :
      (now : Instant) (phase : DeletePhase) (s : S)
      → IsProper crypto backend c (deleting now phase)
      → c.IsHealthy s
      → let t' = advance_delete crypto backend now phase s in
        Balanced id
          (deleting now phase)
          (c.view s id)
          (deleting now t'.0)
          (applied (delete_effect phase) id (c.view s id))
  unfolding advance_delete
  delete-Balanced now (to_delete token) s p h = elim (decode_cases crypto.base64 token) [
    | inl (claim, d) ↦
        rw d
          (omega (arith, fetched_nothing now claim.record_id (backend.fetch claim.record_id s).0))
    | inr d ↦ rw d (omega arith)
  ]
  delete-Balanced now (discarding j) s p h = ground (arith, removes-Balanced j (c.view s id))
  delete-Balanced now (removing j) s p h = rw (c.delete-is_some j s p h) (removing-Balanced j s)
  delete-Balanced now (refused r) s p h = omega arith
  delete-Balanced now (deleted j r) s p h = omega arith

  -- A turn of a task keeps the books.
  advance-Balanced :
      (t : Task) (s : S)
      → IsProper crypto backend c t
      → c.IsHealthy s
      → let x = advance crypto backend t s in Balanced id t (c.view s id) x.0 (c.view x.1 id)
  advance-Balanced (storing e clock proof ttl) s p h =
      unfold advance in omega (arith, store-Balanced e clock proof ttl s p h)
  advance-Balanced (retrieving now t phase) s p h =
      rw ((advance-After crypto backend c (retrieving now t phase) s p h).views id a)
        (unfold advance in omega (arith, retrieve-Balanced phase (c.view s id)))
  advance-Balanced (deleting now phase) s p h =
      rw ((advance-After crypto backend c (deleting now phase) s p h).views id a)
        (unfold advance in delete-Balanced now phase s p h)
  advance-Balanced (sweeping now) s p h =
      rw ((advance-After crypto backend c (sweeping now) s p h).views id a)
        (unfold advance in omega (arith, one_if_some-swept now (c.view s id)))
  advance-Balanced (stored j r) s p h = unfold advance in omega arith
  advance-Balanced (Task.swept r) s p h = unfold advance in omega arith

  abbrev pub deletes : List Task → ℕ
  deletes = total (delete_succeeded id)

  abbrev pub stores : List Task → ℕ
  stores = total (store_succeeded id)

  turn-Balanced :
      (i : ℕ) (ts : List Task) (s : S)
      → c.IsHealthy s
      → All (IsProper crypto backend c) ts
      → let x = turn crypto backend i ts s in
        deletes x.0 + present x.1 + stores ts ≤ deletes ts + present s + stores x.0
  unfolding turn
  turn-Balanced i [] s h p = omega arith
  turn-Balanced zero (t ∷ ts) s h p = omega (arith, advance-Balanced t s p.0 h)
  turn-Balanced (suc i) (t ∷ ts) s h p = omega (arith, turn-Balanced i ts s h p.1)

  begun :
      (call : Call) → (delete_succeeded id (begin call) ≡ 0) × (store_succeeded id (begin call) ≡ 0)
  unfolding begin
  begun (store e clock proof ttl) = (refl, refl)
  begun (retrieve now token) = (refl, refl)
  begun (delete now token) = (refl, refl)
  begun (sweep now) = (refl, refl)

  -- However calls are started and take turns over a healthy backend: the deletes of an id that have
  -- succeeded, with the record that is there now, are no more than the stores of it that have, with
  -- the record that was there first.
  pub deletes-le-stores :
      {s : S} {x : System S}
      → c.IsHealthy s
      → Reach crypto backend (IsAdmissible crypto backend c) s x
      → deletes x.tasks + present x.state ≤ stores x.tasks + present s
  deletes-le-stores h boot = omega arith
  deletes-le-stores h (later r (start call allowed)) =
      omega (arith, deletes-le-stores h r, (begun call).0, (begun call).1)
  deletes-le-stores h (later {x} r (step i)) =
      let v = Reach-IsSound crypto backend c h r in
      omega (arith, deletes-le-stores h r, turn-Balanced i x.tasks x.state v.healthy v.proper)
