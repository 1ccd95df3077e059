-- ===== src/Vault/Tasks/Phases.antt =====
-- Vault.Tasks: where what a retrieval has read comes from, at each of its points.
use tari_vault.Base.{
  ℕ, Bytes, IsArray, ◌≡◌, true, Option, some, ok, err, panic, Bool-cases, Option-cases, inl, inr,
  ◌⊎◌, ◌==◌, ==_iff, length,
}
use tari_vault.Domain.Chrono.{Instant}
use tari_vault.Domain.Record.{StoredRecord, is_expired}
use tari_vault.Domain.ClaimId.{ClaimId, IsClaim, decode}
use tari_vault.Domain.ClaimId.Codec.{decode_sound, decode_cases}
use tari_vault.Domain.Proof.{PlaintextProof}
use tari_vault.Storage.Backend.{StorageBackend, Contract}
use tari_vault.Vault.{Crypto, Entropy, StoreClock}
use tari_vault.Vault.Spec
use tari_vault.Vault.Race
use tari_vault.Vault.Race.{Phase, asked, expiring, consuming, finished}
use tari_vault.Vault.History.{Call, store}
use tari_vault.Vault.Tasks.{Task, storing, stored, retrieving, deleting, sweeping, advance}
use tari_vault.Vault.Tasks.Effects.{IsProper}

module _ {S : Type 0} (crypto : Crypto) (backend : StorageBackend S) (c : Contract backend)
    (Q : Call → Type 0) (s0 : S) where
  -- The record was there at first, or one of the stores made it.
  abbrev pub Origin : Bytes → StoredRecord → Type 0
  Origin id r =
      (c.view s0 id ≡ some r)
      ⊎ ((e : Entropy) × (clock : StoreClock) × (proof : PlaintextProof) × (ttl : Option ℕ) × Q
            (store e clock proof ttl)
          × (e.uuid ≡ id)
          × (Spec.storing crypto e clock proof ttl ≡ ok r))

  -- The text is what the token's key makes of a record under the token's id.
  abbrev pub DecryptsTo : Bytes → Bytes → Type 0
  DecryptsTo token plain =
      (claim : ClaimId) × (r : StoredRecord) × (decode crypto.base64 token ≡ ok claim)
      × Origin claim.record_id r
      × (crypto.aead.decrypt claim.encryption_key r.nonce r.ciphertext ≡ some plain)

  abbrev pub PhaseFrom : Bytes → Phase → Type 0
  PhaseFrom token (asked u) = u ≡ token
  PhaseFrom token (expiring id) = Unit
  PhaseFrom token (consuming id plain) = DecryptsTo token plain
  PhaseFrom token (finished (ok p)) = DecryptsTo token p.contents
  PhaseFrom token (finished (err e)) = Unit
  PhaseFrom token (finished panic) = Unit

  abbrev pub TaskFrom : Task → Type 0
  TaskFrom (storing e clock proof ttl) = Q (store e clock proof ttl)
  TaskFrom (retrieving now token phase) = PhaseFrom token phase
  TaskFrom _ = Unit

  abbrev pub StateFrom : S → Type 0
  StateFrom s =
      (id : Bytes) → IsArray 16 id → (r : StoredRecord) → c.view s id ≡ some r → Origin id r

  pub asked-PhaseFrom :
      (now : Instant) (token : Bytes) (s : S)
      → c.IsHealthy s
      → StateFrom s
      → PhaseFrom token (Race.advance crypto backend now (asked token) s).0
  unfolding Race.advance
  asked-PhaseFrom now token s h from = elim (decode_cases crypto.base64 token) [
    | inr d ↦ rw d tt
    | inl (claim, d) ↦
        let v : IsClaim claim = (decode_sound crypto.base64 token claim d).0 in
        let whole_key : (length claim.encryption_key == 32) ≡ true =
          (==_iff _ _).1 v.key_array.size in
        rw (d, c.fetch-view claim.record_id s v.id_array h)
          (elim (Option-cases (c.view s claim.record_id)) [
            | inl e ↦ rw e tt
            | inr (r, e) ↦ elim (Bool-cases (is_expired now r)) [
              | inl late ↦ rw (e, late) tt
              | inr live ↦ elim (Bool-cases (length r.nonce == 12)) [
                | inr odd ↦ rw (e, live, odd) tt
                | inl whole ↦
                    elim (Option-cases
                      (crypto.aead.decrypt claim.encryption_key r.nonce r.ciphertext)) [
                        | inl fails ↦ rw (e, live, whole, whole_key, fails) tt
                        | inr (plain, opens) ↦
                            rw (e, live, whole, whole_key, opens)
                              (claim, r, d, from claim.record_id v.id_array r e, opens)
                      ]
              ]
            ]
          ])
  ]

  pub advance-PhaseFrom :
      (now : Instant) (token : Bytes) (phase : Phase) (s : S)
      → c.IsHealthy s
      → IsProper crypto backend c (retrieving now token phase)
      → StateFrom s
      → PhaseFrom token phase
      → PhaseFrom token (Race.advance crypto backend now phase s).0
  advance-PhaseFrom now token (asked u) s h p from e = rw e (asked-PhaseFrom now token s h from)
  advance-PhaseFrom now token (expiring id) s h p from e =
      unfold Race.advance in rw (c.delete-is_some id s p h) tt
  advance-PhaseFrom now token (consuming id plain) s h p from e =
      unfold Race.advance in rw (c.delete-is_some id s p h) e
  advance-PhaseFrom now token (finished r) s h p from e = unfold Race.advance in e

  pub advance-TaskFrom :
      (t : Task) (s : S)
      → c.IsHealthy s
      → IsProper crypto backend c t
      → StateFrom s
      → TaskFrom t
      → TaskFrom (advance crypto backend t s).0
  unfolding advance
  advance-TaskFrom (storing e clock proof ttl) s h p from q = tt
  advance-TaskFrom (stored id r) s h p from q = tt
  advance-TaskFrom (retrieving now token phase) s h p from q =
      advance-PhaseFrom now token phase s h p from q
  advance-TaskFrom (deleting now phase) s h p from q = tt
  advance-TaskFrom (sweeping now) s h p from q = tt
  advance-TaskFrom (Task.swept r) s h p from q = tt
