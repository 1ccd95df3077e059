-- ===== src/Vault/Map/Refines.antt =====
-- src/vault/proof_vault.rs over a backend that keeps its contract, against the machine of
-- Vault/Map.antt.
use tari_vault.Base.{
  ℕ, Bool, arith, Bytes, IsArray, bytes_eq, bytes_eq_iff, ◌≡◌, refl, ap, ◌∙◌, true, false, ◌&&◌,
  Option, none, List, [], ◌∷◌, if◌then◌else◌, All, Bool-cases, Result-cases, inl, inr,
}
use tari_vault.Domain.Chrono.{Instant}
use tari_vault.Domain.Record.{StoredRecord}
use tari_vault.Domain.ClaimId.Codec.{decode_cases, decode_sound}
use tari_vault.Storage.Backend.{StorageBackend, Contract}
use tari_vault.Domain.Proof.{PlaintextProof}
use tari_vault.Vault.{Crypto, Entropy, StoreClock, cleanup}
use tari_vault.Vault.Spec.{storing, retrieving, deleting}
use tari_vault.Vault.Refines.{
  Becomes, retrieve_proof_refines, delete_proof_refines, malformed_token,
}
use tari_vault.Vault.Storing.{store_proof_refines, store_proof_refused, store_proof_panics}
use tari_vault.Vault.History.{Call, store, retrieve, delete, sweep, after, IsAdmissible}
use tari_vault.Vault.Map.{Records, answered_by, left_by, map_run, answer, vault_run}

same_either : (b : Bool) (o : Option StoredRecord) → o ≡ (if b then o else o)
same_either true o = refl
same_either false o = refl

neither :
    (f g : Bool) (o : Option StoredRecord)
    → (if f && false then none else o) ≡ (if g && false then none else o)
neither f g o = ground arith

module _ {S : Type 0} (crypto : Crypto) (backend : StorageBackend S) (c : Contract backend) where
  -- The state holds the records of the map, and nothing is going to fail.
  pub record Holds (s : S) (m : Records) : Type 0 where
    pub healthy : c.IsHealthy s
    pub views : (j : Bytes) → IsArray 16 j → c.view s j ≡ m j

  -- The answer and the state of one call are those of the map.
  pub record Follows (call : Call) (s : S) (m : Records) : Type 0 where
    pub answers : answer crypto backend call s ≡ answered_by crypto call m
    pub holds : Holds (after crypto backend call s) (λ j. left_by crypto call j (m j))

  -- A call that leaves the state as it is, and the map too.
  unmoved-Holds : (s s' : S) (m : Records) → Holds s m → s' ≡ s → Holds s' m
  unmoved-Holds s s' m h e = rw e h

  unchanged-Holds :
      (id : Bytes) (s s' : S) (m : Records)
      → Holds s m
      → s' ≡ s
      → Holds s' (λ j. if bytes_eq id j then m j else m j)
  unchanged-Holds id s s' m h e = rw e (record {
    healthy = h.healthy;
    views = λ j aj. h.views j aj ∙ same_either (bytes_eq id j) (m j);
  })

  store-Follows :
      (e : Entropy) (clock : StoreClock) (p : PlaintextProof) (ttl : Option ℕ) (s : S) (m : Records)
      → IsAdmissible crypto backend c (store e clock p ttl)
      → Holds s m
      → Follows (store e clock p ttl) s m
  unfolding answer after
  store-Follows e clock p ttl s m allowed h = elim (Result-cases (storing crypto e clock p ttl)) [
    | inl (r, made) ↦
        let done =
          store_proof_refines crypto backend e clock p c ttl s r made allowed.0 (allowed.1 r made)
            h.healthy in
        record {
          answers = rw (made, done.answer) refl;
          holds = record {
            healthy = done.healthy;
            views = λ j aj. done.views j aj ∙ rw (made, h.views j aj) refl;
          };
        }
    | inr (inl (x, refused)) ↦
        let same = store_proof_refused crypto backend e clock p ttl s x refused in
        record {
          answers = rw (same, refused) refl;
          holds = rw refused (unchanged-Holds e.uuid s _ m h (ap (λ x. x.1) same));
        }
    | inr (inr panics) ↦
        let same = store_proof_panics crypto backend e clock p ttl s panics in
        record {
          answers = rw (same, panics) refl;
          holds = rw panics (unchanged-Holds e.uuid s _ m h (ap (λ x. x.1) same));
        }
  ]

  -- What becomes of the record of a claim depends on that record alone.
  Becomes-Holds :
      (id : Bytes) (f : Option StoredRecord → Bool) (s s' : S) (m : Records)
      → IsArray 16 id
      → Holds s m
      → Becomes crypto backend c id (f (c.view s id)) s s'
      → Holds s' (λ j. if f (m j) && bytes_eq id j then none else m j)
  Becomes-Holds id f s s' m a h b = record {
    healthy = b.healthy;
    views = λ j aj. b.views j aj ∙ elim (Bool-cases (bytes_eq id j)) [
      | inl same ↦ let it : id ≡ j = (bytes_eq_iff id j).0 same in rw (it, h.views j aj) refl
      | inr other ↦ rw (other, h.views j aj) (neither (f (c.view s id)) (f (m j)) (m j))
    ];
  }

  retrieve-Follows :
      (now : Instant) (text : Bytes) (s : S) (m : Records)
      → Holds s m
      → Follows (retrieve now text) s m
  unfolding answer after
  retrieve-Follows now text s m h = elim (decode_cases crypto.base64 text) [
    | inl (claim, d) ↦
        let a : IsArray 16 claim.record_id = (decode_sound crypto.base64 text claim d).0.id_array in
        let (got, becomes) = retrieve_proof_refines crypto backend c now text claim s d h.healthy in
        record {
          answers = rw (d, got, h.views claim.record_id a) refl;
          holds = rw d (
              Becomes-Holds claim.record_id (λ o. (retrieving crypto.aead now claim o).1) s _ m a h
                becomes);
        }
    | inr d ↦
        let same = (malformed_token crypto backend c now text s d).0 in
        record {
          answers = rw (d, same) refl;
          holds = rw d (unmoved-Holds s _ m h (ap (λ x. x.1) same));
        }
  ]

  delete-Follows :
      (now : Instant) (text : Bytes) (s : S) (m : Records)
      → Holds s m
      → Follows (delete now text) s m
  unfolding answer after
  delete-Follows now text s m h = elim (decode_cases crypto.base64 text) [
    | inl (claim, d) ↦
        let a : IsArray 16 claim.record_id = (decode_sound crypto.base64 text claim d).0.id_array in
        let (got, becomes) = delete_proof_refines crypto backend c now text claim s d h.healthy in
        record {
          answers = rw (d, got, h.views claim.record_id a) refl;
          holds = rw d (Becomes-Holds claim.record_id (λ o. (deleting now o).1) s _ m a h becomes);
        }
    | inr d ↦
        let same = (malformed_token crypto backend c now text s d).1 in
        record {
          answers = rw (d, same) refl;
          holds = rw d (unmoved-Holds s _ m h (ap (λ x. x.1) same));
        }
  ]

  sweep-Follows :
      (now : Instant) (s : S) (m : Records) → c.IsClock now → Holds s m → Follows (sweep now) s m
  unfolding answer after cleanup
  sweep-Follows now s m allowed h = record {
    answers = rw (c.delete_expired-ok now s allowed h.healthy).1 refl;
    holds = record {
      healthy = c.delete_expired-IsHealthy now s allowed h.healthy;
      views = λ j aj. c.view-delete_expired now s allowed h.healthy j aj ∙ rw (h.views j aj) refl;
    };
  }

  pub call-Follows :
      (call : Call) (s : S) (m : Records)
      → IsAdmissible crypto backend c call
      → Holds s m
      → Follows call s m
  call-Follows (store e clock p ttl) s m allowed h = store-Follows e clock p ttl s m allowed h
  call-Follows (retrieve now text) s m allowed h = retrieve-Follows now text s m h
  call-Follows (delete now text) s m allowed h = delete-Follows now text s m h
  call-Follows (sweep now) s m allowed h = sweep-Follows now s m allowed h

  -- Over a healthy backend that holds the records of a map, any list of calls that the contract
  -- admits, one after another, is answered as the map answers it, but for the numbers of the sweeps,
  -- and leaves the backend healthy with the records that it leaves of the map.
  pub vault_run_refines :
      (calls : List Call) (s : S) (m : Records)
      → All (IsAdmissible crypto backend c) calls
      → Holds s m
      → ((vault_run crypto backend calls s).0 ≡ (map_run crypto calls m).0)
        × Holds (vault_run crypto backend calls s).1 (map_run crypto calls m).1
  unfolding vault_run map_run
  vault_run_refines [] s m allowed h = (refl, h)
  vault_run_refines (call ∷ calls) s m allowed h =
      let first = call-Follows call s m allowed.0 h in
      let rest = vault_run_refines calls (after crypto backend call s) _ allowed.1 first.holds in
      (rw (first.answers, rest.0) refl, rest.1)
