-- ===== src/Vault/Tasks/Late.antt =====
-- What a task does to an id that has no record, turn by turn.
use tari_vault.Base.{
  length, Bytes, bytes_eq, bytes_eq_iff, ◌≡◌, refl, ◌∙◌, ap, subst, true, false, none, Result, ok,
  err, panic, Bool-cases, Option-cases, inl, inr, ◌==◌, ==_iff,
}
use tari_vault.Error.{VaultError}
use tari_vault.Domain.Chrono.{Instant}
use tari_vault.Domain.Record.{StoredRecord, is_expired}
use tari_vault.Domain.ClaimId.{ClaimId, IsClaim, decode}
use tari_vault.Domain.ClaimId.Codec.{decode_sound, decode_cases}
use tari_vault.Storage.Backend.{StorageBackend, Contract}
use tari_vault.Vault.{Crypto}
use tari_vault.Vault.Spec
use tari_vault.Vault.Race
use tari_vault.Vault.Race.{Phase, asked, expiring, consuming, finished}
use tari_vault.Vault.History.{Call, store, retrieve, delete, sweep, IsFresh}
use tari_vault.Vault.Tasks.{
  to_delete, discarding, removing, refused, deleted, Task, storing, stored, retrieving, deleting,
  sweeping, begin, advance,
}
use tari_vault.Vault.Tasks.Effects.{removes, IsProper, effect, applied, put_if}

module _ {S : Type 0} (crypto : Crypto) (backend : StorageBackend S) (c : Contract backend)
    (id : Bytes) where
  -- The task is not going to store under the id.
  abbrev pub StoresElsewhere : Task → Type 0
  StoresElsewhere (storing e clock proof ttl) = bytes_eq e.uuid id ≡ false
  StoresElsewhere _ = Unit

  -- The token is for another id.
  abbrev pub IsOther : Bytes → Type 0
  IsOther token =
      (claim : ClaimId)
      → decode crypto.base64 token ≡ ok claim
      → bytes_eq claim.record_id id ≡ false

  -- Where a retrieval may stand that began when the record was gone.
  abbrev pub LatePhase : Bytes → Phase → Type 0
  LatePhase token (asked u) = u ≡ token
  LatePhase token (expiring j) = Unit
  LatePhase token (consuming j plain) = IsOther token
  LatePhase token (finished (ok p)) = IsOther token
  LatePhase token (finished (err e)) = Unit
  LatePhase token (finished panic) = Unit

  abbrev pub Late : Task → Type 0
  Late (retrieving now token phase) = LatePhase token phase
  Late _ = Unit

  other_lem :
      (token : Bytes) (claim : ClaimId)
      → decode crypto.base64 token ≡ ok claim
      → bytes_eq claim.record_id id ≡ false
      → IsOther token
  other_lem token claim d miss other d' =
      let same : claim ≡ other = cc in subst (λ x. bytes_eq x.record_id id ≡ false) same miss

  asked-LatePhase :
      (now : Instant) (token : Bytes) (s : S)
      → c.IsHealthy s
      → c.view s id ≡ none
      → LatePhase token (Race.advance crypto backend now (asked token) s).0
  unfolding Race.advance
  asked-LatePhase now token s h gone = elim (decode_cases crypto.base64 token) [
    | inr d ↦ rw d tt
    | inl (claim, d) ↦
        let v : IsClaim claim = (decode_sound crypto.base64 token claim d).0 in
        let whole_key : (length claim.encryption_key == 32) ≡ true =
          (==_iff _ _).1 v.key_array.size in
        rw (d, c.fetch-view claim.record_id s v.id_array h)
          (elim (Bool-cases (bytes_eq claim.record_id id)) [
            | inl hit ↦
                let none_there : c.view s claim.record_id ≡ none =
                  ap (λ j. c.view s j) ((bytes_eq_iff claim.record_id id).0 hit) ∙ gone in
                rw none_there tt
            | inr miss ↦
                let other : IsOther token = other_lem token claim d miss in
                elim (Option-cases (c.view s claim.record_id)) [
                  | inl e ↦ rw e tt
                  | inr (r, e) ↦ elim (Bool-cases (is_expired now r)) [
                    | inl late ↦ rw (e, late) tt
                    | inr live ↦ elim (Bool-cases (length r.nonce == 12)) [
                      | inr odd ↦ rw (e, live, odd) tt
                      | inl whole ↦
                          elim (Option-cases
                            (crypto.aead.decrypt claim.encryption_key r.nonce r.ciphertext)) [
                              | inl fails ↦ rw (e, live, whole, whole_key, fails) tt
                              | inr (plain, opens) ↦ rw (e, live, whole, whole_key, opens) other
                            ]
                    ]
                  ]
                ]
          ])
  ]

  advance-LatePhase :
      (now : Instant) (token : Bytes) (phase : Phase) (s : S)
      → c.IsHealthy s
      → IsProper crypto backend c (retrieving now token phase)
      → c.view s id ≡ none
      → LatePhase token phase
      → LatePhase token (Race.advance crypto backend now phase s).0
  advance-LatePhase now token (asked u) s h p gone q = rw q (asked-LatePhase now token s h gone)
  advance-LatePhase now token (expiring j) s h p gone q =
      unfold Race.advance in rw (c.delete-is_some j s p h) tt
  advance-LatePhase now token (consuming j plain) s h p gone q =
      unfold Race.advance in rw (c.delete-is_some j s p h) q
  advance-LatePhase now token (finished r) s h p gone q = unfold Race.advance in q

  pub advance-Late :
      (t : Task) (s : S)
      → c.IsHealthy s
      → IsProper crypto backend c t
      → c.view s id ≡ none
      → Late t
      → Late (advance crypto backend t s).0
  unfolding advance
  advance-Late (storing e clock proof ttl) s h p gone q = tt
  advance-Late (stored j r) s h p gone q = tt
  advance-Late (retrieving now token phase) s h p gone q =
      advance-LatePhase now token phase s h p gone q
  advance-Late (deleting now phase) s h p gone q = tt
  advance-Late (sweeping now) s h p gone q = tt
  advance-Late (Task.swept r) s h p gone q = tt

  pub begin-Late : (call : Call) → Late (begin call)
  unfolding begin
  begin-Late (store e clock proof ttl) = tt
  begin-Late (retrieve now token) = refl
  begin-Late (delete now token) = tt
  begin-Late (sweep now) = tt

  pub begin-StoresElsewhere :
      (call : Call) → IsFresh crypto backend c id call → StoresElsewhere (begin call)
  unfolding begin
  begin-StoresElsewhere (store e clock proof ttl) fresh = fresh
  begin-StoresElsewhere (retrieve now token) fresh = tt
  begin-StoresElsewhere (delete now token) fresh = tt
  begin-StoresElsewhere (sweep now) fresh = tt

  pub advance-StoresElsewhere :
      (t : Task) (s : S) → StoresElsewhere t → StoresElsewhere (advance crypto backend t s).0
  unfolding advance
  advance-StoresElsewhere (storing e clock proof ttl) s q = tt
  advance-StoresElsewhere (stored j r) s q = tt
  advance-StoresElsewhere (retrieving now token phase) s q = tt
  advance-StoresElsewhere (deleting now phase) s q = tt
  advance-StoresElsewhere (sweeping now) s q = tt
  advance-StoresElsewhere (Task.swept r) s q = tt

  -- Nothing but a store under the id makes a record there.
  applied-put_if-none :
      (j : Bytes) (r : Result VaultError StoredRecord)
      → bytes_eq j id ≡ false
      → applied (put_if j r) id none ≡ none
  applied-put_if-none j (ok r) miss = rw miss refl
  applied-put_if-none j (err e) miss = refl
  applied-put_if-none j panic miss = refl

  removed-none : (j : Bytes) → applied (removes j) id none ≡ none
  removed-none j = elim (Bool-cases (bytes_eq j id)) [
    | inl hit ↦ rw hit refl
    | inr miss ↦ rw miss refl
  ]

  pub effect-none : (t : Task) → StoresElsewhere t → applied (effect crypto t) id none ≡ none
  effect-none (storing e clock proof ttl) q =
      applied-put_if-none e.uuid (Spec.storing crypto e clock proof ttl) q
  effect-none (stored j r) q = refl
  effect-none (retrieving now t (asked token)) q = refl
  effect-none (retrieving now t (expiring j)) q = removed-none j
  effect-none (retrieving now t (consuming j plain)) q = removed-none j
  effect-none (retrieving now t (finished r)) q = refl
  effect-none (deleting now (to_delete token)) q = refl
  effect-none (deleting now (discarding j)) q = removed-none j
  effect-none (deleting now (removing j)) q = removed-none j
  effect-none (deleting now (refused r)) q = refl
  effect-none (deleting now (deleted j r)) q = refl
  effect-none (sweeping now) q = refl
  effect-none (Task.swept r) q = refl
