-- ===== src/Vault/Tasks/Origin.antt =====
-- Where a proof that is handed out comes from.
use tari_vault.Base.{
  ℕ, zero, suc, Bytes, bytes_eq, bytes_eq_iff, ◌≡◌, refl, sym, ◌∙◌, subst, Option, none, some, List,
  [], ◌∷◌, All, ok, arith, Bool-cases, Result-cases, inl, inr,
}
use tari_vault.Domain.Chrono.{Instant}
use tari_vault.Domain.Record.{StoredRecord}
use tari_vault.Domain.Proof.{PlaintextProof}
use tari_vault.Storage.Backend.{StorageBackend, Contract, swept}
use tari_vault.Vault.{Crypto, Entropy, StoreClock}
use tari_vault.Vault.Spec
use tari_vault.Vault.Race.{asked, expiring, consuming, finished}
use tari_vault.Vault.History.{Call, store, retrieve, delete, sweep, IsAdmissible}
use tari_vault.Vault.Tasks.{
  to_delete, discarding, removing, refused, deleted, Task, storing, stored, retrieving, deleting,
  sweeping, begin, turn, System, start, step, Reach, boot, later, Reach-mono, get_elem?,
}
use tari_vault.Vault.Tasks.Effects.{
  Effect, keeps, puts, removes, sweeps, IsProper, advance-After, effect, applied, put_if,
  Reach-IsSound,
}
use tari_vault.Vault.Tasks.Phases.{Origin, DecryptsTo, TaskFrom, StateFrom, advance-TaskFrom}

swept-was :
    (now : Instant) (o : Option StoredRecord) (r : StoredRecord) → swept now o ≡ some r → o ≡ some r
swept-was now none r h = h
swept-was now (some x) r h = ground arith

module _ {S : Type 0} (crypto : Crypto) (backend : StorageBackend S) (c : Contract backend)
    (Q : Call → Type 0) (s0 : S) where
  abbrev EffectFrom : Effect → Type 0
  EffectFrom (puts id r) = Origin crypto backend c Q s0 id r
  EffectFrom _ = Unit

  applied-Origin :
      (e : Effect) (id : Bytes) (o : Option StoredRecord)
      → EffectFrom e
      → ((r : StoredRecord) → o ≡ some r → Origin crypto backend c Q s0 id r)
      → (r : StoredRecord) → applied e id o ≡ some r
      → Origin crypto backend c Q s0 id r
  applied-Origin keeps id o q from r h = from r h
  applied-Origin (puts i made) id o q from r h = elim (Bool-cases (bytes_eq i id)) [
    | inl hit ↦
        let same : some made ≡ some r = sym (rw hit refl) ∙ h in
        let equal : made ≡ r = cc in
        subst (λ x. Origin crypto backend c Q s0 x r) ((bytes_eq_iff i id).0 hit)
          (subst (λ x. Origin crypto backend c Q s0 i x) equal q)
    | inr miss ↦ from r (sym (rw miss refl) ∙ h)
  ]
  applied-Origin (removes i) id o q from r h = elim (Bool-cases (bytes_eq i id)) [
    | inl hit ↦ let same : none ≡ some r = sym (rw hit refl) ∙ h in cc
    | inr miss ↦ from r (sym (rw miss refl) ∙ h)
  ]
  applied-Origin (sweeps now) id o q from r h = from r (swept-was now o r h)

  put_if-EffectFrom :
      (e : Entropy) (clock : StoreClock) (proof : PlaintextProof) (ttl : Option ℕ)
      → Q (store e clock proof ttl)
      → EffectFrom (put_if e.uuid (Spec.storing crypto e clock proof ttl))
  put_if-EffectFrom e clock proof ttl q =
      elim (Result-cases (Spec.storing crypto e clock proof ttl)) [
        | inl (r, made) ↦ rw made (inr (e, clock, proof, ttl, q, refl, made))
        | inr (inl (x, no_record)) ↦ rw no_record tt
        | inr (inr panics) ↦ rw panics tt
      ]

  effect-EffectFrom : (t : Task) → TaskFrom crypto backend c Q s0 t → EffectFrom (effect crypto t)
  effect-EffectFrom (storing e clock proof ttl) q = put_if-EffectFrom e clock proof ttl q
  effect-EffectFrom (stored id r) q = tt
  effect-EffectFrom (retrieving now t (asked token)) q = tt
  effect-EffectFrom (retrieving now t (expiring id)) q = tt
  effect-EffectFrom (retrieving now t (consuming id plain)) q = tt
  effect-EffectFrom (retrieving now t (finished r)) q = tt
  effect-EffectFrom (deleting now (to_delete token)) q = tt
  effect-EffectFrom (deleting now (discarding id)) q = tt
  effect-EffectFrom (deleting now (removing id)) q = tt
  effect-EffectFrom (deleting now (refused r)) q = tt
  effect-EffectFrom (deleting now (deleted id r)) q = tt
  effect-EffectFrom (sweeping now) q = tt
  effect-EffectFrom (Task.swept r) q = tt

  -- What is true of every reachable system.
  record IsTraced (x : System S) : Type 0 where
    state : StateFrom crypto backend c Q s0 x.state
    tasks : All (TaskFrom crypto backend c Q s0) x.tasks

  turn-IsTraced :
      (i : ℕ) (ts : List Task) (s : S)
      → c.IsHealthy s
      → All (IsProper crypto backend c) ts
      → StateFrom crypto backend c Q s0 s
      → All (TaskFrom crypto backend c Q s0) ts
      → StateFrom crypto backend c Q s0 (turn crypto backend i ts s).1
        × All (TaskFrom crypto backend c Q s0) (turn crypto backend i ts s).0
  unfolding turn
  turn-IsTraced i [] s h p from q = (from, tt)
  turn-IsTraced zero (t ∷ ts) s h p from q =
      let after = advance-After crypto backend c t s p.0 h in
      let made = effect-EffectFrom t q.0 in
      (
        λ id a r e.
            applied-Origin (effect crypto t) id (c.view s id) made (from id a) r
              (sym (after.views id a) ∙ e),
        (advance-TaskFrom crypto backend c Q s0 t s h p.0 from q.0, q.1),
      )
  turn-IsTraced (suc i) (t ∷ ts) s h p from q =
      let (state, tasks) = turn-IsTraced i ts s h p.1 from q.1 in (state, (q.0, tasks))

  begin-TaskFrom : (call : Call) → Q call → TaskFrom crypto backend c Q s0 (begin call)
  unfolding begin
  begin-TaskFrom (store e clock proof ttl) q = q
  begin-TaskFrom (retrieve now token) q = refl
  begin-TaskFrom (delete now token) q = tt
  begin-TaskFrom (sweep now) q = tt

  Reach-IsTraced :
      {x : System S}
      → c.IsHealthy s0
      → Reach crypto backend (λ call. IsAdmissible crypto backend c call × Q call) s0 x
      → IsTraced x
  Reach-IsTraced h boot = record { state = λ id a r e. inl e; tasks = tt }
  Reach-IsTraced h (later r (start call allowed)) =
      let v = Reach-IsTraced h r in
      record { state = v.state; tasks = (begin-TaskFrom call allowed.1, v.tasks) }
  Reach-IsTraced h (later {x} r (step i)) =
      let v = Reach-IsTraced h r in
      let sound =
        Reach-IsSound crypto backend c h
          (Reach-mono crypto backend (λ call allowed. allowed.0) r) in
      let (state, tasks) =
        turn-IsTraced i x.tasks x.state sound.healthy sound.proper v.state v.tasks in
      record { state = state; tasks = tasks }

  All-get_elem? :
      (P : Task → Type 0) (ts : List Task) (i : ℕ) (t : Task)
      → All P ts
      → get_elem? ts i ≡ some t
      → P t
  All-get_elem? P [] i t ps e = cc
  All-get_elem? P (x ∷ xs) zero t ps e = let same : x ≡ t = cc in subst P same ps.0
  All-get_elem? P (x ∷ xs) (suc i) t ps e = All-get_elem? P xs i t ps.1 e

  -- Any number of calls run at once, each of them one that the contract admits and that `Q` allows. Whenever a retrieval
  -- has answered with a proof, its token decodes, and the proof's bytes are what the token's key decrypts a record under
  -- the token's id to: a record that was there before the first call, or the one that a store among the calls made.
  pub handed_out_was_stored :
      {x : System S}
      → c.IsHealthy s0
      → Reach crypto backend (λ call. IsAdmissible crypto backend c call × Q call) s0 x
      → (i : ℕ) (now : Instant) (token : Bytes) (p : PlaintextProof)
      → get_elem? x.tasks i ≡ some (retrieving now token (finished (ok p)))
      → DecryptsTo crypto backend c Q s0 token p.contents
  handed_out_was_stored {x} h r i now token p e =
      All-get_elem? (TaskFrom crypto backend c Q s0) x.tasks i
        (retrieving now token (finished (ok p))) (Reach-IsTraced h r).tasks e
