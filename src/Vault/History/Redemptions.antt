-- ===== src/Vault/History/Redemptions.antt =====
-- Vault.History: how often a proof is handed out.
use tari_vault.Base.{
  ℕ, ◌≤◌, Bytes, IsArray, bytes_eq, bytes_eq_iff, ◌≡◌, refl, sym, ◌∙◌, ap, Bool, true, false, ◌&&◌,
  Option, none, List, [], ◌∷◌, Result, ok, arith, Bool-cases, inl, inr, All, Result-cases, subst,
}
use tari_vault.Error.{VaultError}
use tari_vault.Domain.Chrono.{Instant}
use tari_vault.Domain.Proof.{PlaintextProof}
use tari_vault.Domain.ClaimId.{ClaimId}
use tari_vault.Domain.ClaimId.Codec.{decode_cases}
use tari_vault.Storage.Backend.{StorageBackend, Contract}
use tari_vault.Vault.{
  Crypto, Entropy, StoreClock, store_proof, retrieve_proof, delete_proof, cleanup,
}
use tari_vault.Vault.Spec.{storing}
use tari_vault.Vault.Refines.{
  Becomes, retrieve_proof_refines, delete_proof_refines, malformed_token,
}
use tari_vault.Vault.Storing.{store_proof_refines, store_proof_refused, store_proof_panics}
use tari_vault.Vault.RoundTrip.{IsGone, gone_for_good, single_use}
use tari_vault.Vault.History.{
  Call, store, retrieve, delete, sweep, is_ok, names, after, redeems, redemptions, IsAdmissible,
  IsFresh,
}

hit_parts :
    (id : Bytes) (x : Result VaultError ClaimId) (y : Result VaultError PlaintextProof)
    → names id x && is_ok y ≡ true
    → (claim : ClaimId) × (p : PlaintextProof) × (x ≡ ok claim)
      × (claim.record_id ≡ id)
      × (y ≡ ok p)
hit_parts id (ok claim) (ok p) h = (claim, p, refl, (bytes_eq_iff _ id).0 (ground arith), refl)
hit_parts id x y h = absurd (ground arith)

module _ {S : Type 0} (crypto : Crypto) (backend : StorageBackend S) (c : Contract backend)
    (id : Bytes) (a : IsArray 16 id) where
  -- A state in which the record under `id` is what it was, or gone.
  pub record Shrinks (s s' : S) : Type 0 where
    pub healthy : c.IsHealthy s'
    pub missing : c.view s id ≡ none → c.view s' id ≡ none

  Becomes-Shrinks :
      (j : Bytes) (gone : Bool) (s s' : S) → Becomes crypto backend c j gone s s' → Shrinks s s'
  Becomes-Shrinks j gone s s' b = record {
    healthy = b.healthy;
    missing = λ m.
        rw (b.views id a, m)
          (elim (Bool-cases (gone && bytes_eq j id)) [ inl e ↦ rw e | inr e ↦ rw e ]);
  }

  same-Shrinks : (s s' : S) → c.IsHealthy s → s' ≡ s → Shrinks s s'
  same-Shrinks s s' h e = rw e (record { healthy = h; missing = λ m. m })

  store-Shrinks :
      (e : Entropy) (clock : StoreClock) (proof : PlaintextProof) (ttl : Option ℕ) (s : S)
      → IsAdmissible crypto backend c (store e clock proof ttl)
      → bytes_eq e.uuid id ≡ false
      → c.IsHealthy s
      → Shrinks s (store_proof crypto backend e clock proof ttl s).1
  store-Shrinks e clock proof ttl s allowed fresh h =
      elim (Result-cases (storing crypto e clock proof ttl)) [
        | inl (r, made) ↦
            let done =
              store_proof_refines crypto backend e clock proof c ttl s r made allowed.0
                (allowed.1 r made) h in
            record { healthy = done.healthy; missing = λ m. done.views id a ∙ rw fresh m }
        | inr (inl (x, refused)) ↦
            same-Shrinks s _ h
              (ap (λ p. p.1) (store_proof_refused crypto backend e clock proof ttl s x refused))
        | inr (inr panics) ↦
            same-Shrinks s _ h
              (ap (λ p. p.1) (store_proof_panics crypto backend e clock proof ttl s panics))
      ]

  retrieve-Shrinks :
      (now : Instant) (token : Bytes) (s : S)
      → c.IsHealthy s
      → Shrinks s (retrieve_proof crypto backend now token s).1
  retrieve-Shrinks now token s h = elim (decode_cases crypto.base64 token) [
    | inl (claim, d) ↦
        Becomes-Shrinks _ _ _ _ (retrieve_proof_refines crypto backend c now token claim s d h).1
    | inr d ↦ same-Shrinks s _ h (ap (λ p. p.1) (malformed_token crypto backend c now token s d).0)
  ]

  delete-Shrinks :
      (now : Instant) (token : Bytes) (s : S)
      → c.IsHealthy s
      → Shrinks s (delete_proof crypto backend now token s).1
  delete-Shrinks now token s h = elim (decode_cases crypto.base64 token) [
    | inl (claim, d) ↦
        Becomes-Shrinks _ _ _ _ (delete_proof_refines crypto backend c now token claim s d h).1
    | inr d ↦ same-Shrinks s _ h (ap (λ p. p.1) (malformed_token crypto backend c now token s d).1)
  ]

  sweep-Shrinks :
      (now : Instant) (s : S)
      → c.IsClock now
      → c.IsHealthy s
      → Shrinks s (cleanup crypto backend now s).1
  unfolding cleanup
  sweep-Shrinks now s allowed h = record {
    healthy = c.delete_expired-IsHealthy now s allowed h;
    missing = λ m. c.view-delete_expired now s allowed h id a ∙ rw m;
  }

  after-Shrinks :
      (call : Call) (s : S)
      → IsAdmissible crypto backend c call
      → IsFresh crypto backend c id call
      → c.IsHealthy s
      → Shrinks s (after crypto backend call s)
  unfolding after
  after-Shrinks (store e clock proof ttl) s allowed fresh h =
      store-Shrinks e clock proof ttl s allowed fresh h
  after-Shrinks (retrieve now token) s allowed fresh h = retrieve-Shrinks now token s h
  after-Shrinks (delete now token) s allowed fresh h = delete-Shrinks now token s h
  after-Shrinks (sweep now) s allowed fresh h = sweep-Shrinks now s allowed h

  -- A call that hands out the proof leaves the record gone.
  redeems-IsGone :
      (call : Call) (s : S)
      → c.IsHealthy s
      → redeems crypto backend id call s ≡ true
      → IsGone crypto backend c id (after crypto backend call s)
  unfolding redeems after
  redeems-IsGone (retrieve now token) s h e =
      let (claim, p, d, same, got) = hit_parts id _ _ e in
      subst (λ i. IsGone crypto backend c i (retrieve_proof crypto backend now token s).1) same
        (single_use crypto backend c claim token s now p d h got)
  redeems-IsGone _ s h e = absurd (ground arith)

  gone-redeems :
      (call : Call) (s : S)
      → IsGone crypto backend c id s
      → redeems crypto backend id call s ≡ false
  unfolding redeems
  gone-redeems (retrieve now token) s g =
      elim (Bool-cases (redeems crypto backend id (retrieve now token) s)) [
        | inr miss ↦ miss
        | inl hit ↦
            let (claim, p, d, same, got) = hit_parts id _ _ hit in
            let refused =
              gone_for_good crypto backend c claim token s now d
                (subst (λ i. IsGone crypto backend c i s) (sym same) g) in
            absurd (cc (refused.0, got))
      ]
  gone-redeems _ s g = refl

  gone-redemptions :
      (calls : List Call) (s : S)
      → All (IsAdmissible crypto backend c) calls
      → All (IsFresh crypto backend c id) calls
      → IsGone crypto backend c id s
      → redemptions crypto backend id calls s ≡ 0
  unfolding redemptions
  gone-redemptions [] s al fr g = refl
  gone-redemptions (call ∷ calls) s al fr g =
      let next = after-Shrinks call s al.0 fr.0 g.healthy in
      rw (gone-redeems call s g) (
        gone-redemptions calls (after crypto backend call s) al.1 fr.1
          (record { healthy = next.healthy; missing = next.missing g.missing }))

  -- Over a healthy backend, in any list of calls, one after another: the proof under an id is
  -- handed out at most once, when no store among them draws the same id, each makes records that
  -- the contract accepts, and sweeps stay within the contract's clock.
  pub redemptions-le-one :
      (calls : List Call) (s : S)
      → All (IsAdmissible crypto backend c) calls
      → All (IsFresh crypto backend c id) calls
      → c.IsHealthy s
      → redemptions crypto backend id calls s ≤ 1
  unfolding redemptions
  redemptions-le-one [] s al fr h = omega arith
  redemptions-le-one (call ∷ calls) s al fr h =
      elim (Bool-cases (redeems crypto backend id call s)) [
        | inl hit ↦
            rw
              (
                hit,
                gone-redemptions calls (after crypto backend call s) al.1 fr.1
                    (redeems-IsGone call s h hit),
              )
              (omega arith)
        | inr miss ↦ rw miss (
            redemptions-le-one calls (after crypto backend call s) al.1 fr.1
              (after-Shrinks call s al.0 fr.0 h).healthy)
      ]
