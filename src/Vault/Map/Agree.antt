-- ===== src/Vault/Map/Agree.antt =====
-- By way of Vault/Map.antt: the two backends of src/storage side by side, and two calls in either
-- order.
use text.Mathlib.TextEquality.{IsScalar-prop}
use mathlib.Core.Quot
use mathlib.Core.Quot.{Quot, Quot-set}
use tari_vault.Base.{
  Bytes, IsArray, bytes_eq, bytes_eq_refl, ◌≡◌, refl, sym, ap, ◌∙◌, Bool, true, false, Option, List,
  Result, ok, err, panic, All, Result-cases, inl, inr, arith, ◌⊎◌,
}
use tari_vault.Error.{VaultError}
use tari_vault.Domain.Record.{StoredRecord}
use tari_vault.Domain.ClaimId.{ClaimId, decode}
use tari_vault.Storage.Backend.{StorageBackend, Contract}
use tari_vault.Vault.{Crypto}
use tari_vault.Vault.History.{Call, store, retrieve, delete, sweep, after, IsAdmissible}
use tari_vault.Vault.Spec.{retrieving, deleting}
use tari_vault.Vault.Map.{Records, Answer, proof, removal, answered_by, left_by, answer, vault_run}
use tari_vault.Vault.Map.Refines.{Follows, vault_run_refines, call-Follows}

module _ {S T : Type 0} (crypto : Crypto) (backend : StorageBackend S) (c : Contract backend)
    (other : StorageBackend T) (d : Contract other) where
  -- Two backends that keep their contracts and hold the same records, both healthy: any list of
  -- calls that both contracts admit has the same answers over the one and over the other, but for
  -- the numbers of the sweeps, and leaves both healthy with the same records again.
  pub backends_agree :
      (calls : List Call) (s : S) (t : T)
      → All (IsAdmissible crypto backend c) calls
      → All (IsAdmissible crypto other d) calls
      → c.IsHealthy s
      → d.IsHealthy t
      → ((j : Bytes) → IsArray 16 j → c.view s j ≡ d.view t j)
      → let one = vault_run crypto backend calls s in
        let two = vault_run crypto other calls t in
        (one.0 ≡ two.0)
        × c.IsHealthy one.1
        × d.IsHealthy two.1
        × ((j : Bytes) → IsArray 16 j → c.view one.1 j ≡ d.view two.1 j)
  backends_agree calls s t p q hs ht same =
      let m : Records = d.view t in
      let one =
        vault_run_refines crypto backend c calls s m p (record { healthy = hs; views = same }) in
      let two =
        vault_run_refines crypto other d calls t m q
          (record { healthy = ht; views = λ j aj. refl }) in
      (
        one.0 ∙ sym two.0,
        one.1.healthy,
        two.1.healthy,
        λ j aj. one.1.views j aj ∙ sym (two.1.views j aj),
      )

-- The call reads or writes the record under this id.
abbrev of_claim : Result VaultError ClaimId → Bytes → Bool
of_claim (ok claim) j = bytes_eq claim.record_id j
of_claim (err e) j = false
of_claim panic j = false

module _ (crypto : Crypto) where
  abbrev pub touches : Call → Bytes → Bool
  touches (store e clock p ttl) j = bytes_eq e.uuid j
  touches (retrieve now text) j = of_claim (decode crypto.base64 text) j
  touches (delete now text) j = of_claim (decode crypto.base64 text) j
  touches (sweep now) j = true

  abbrev pub AreApart : Call → Call → Type 0
  AreApart a b = (j : Bytes) → (touches a j ≡ false) ⊎ (touches b j ≡ false)

  left_by-untouched :
      (call : Call) (j : Bytes) (o : Option StoredRecord)
      → touches call j ≡ false
      → left_by crypto call j o ≡ o
  left_by-untouched (store e clock p ttl) j o h = rw h
  left_by-untouched (retrieve now text) j o h = ground arith
  left_by-untouched (delete now text) j o h = ground arith
  left_by-untouched (sweep now) j o h = absurd (cc)

  left_by_comm :
      (a b : Call) (j : Bytes) (o : Option StoredRecord)
      → (touches a j ≡ false) ⊎ (touches b j ≡ false)
      → left_by crypto a j (left_by crypto b j o) ≡ left_by crypto b j (left_by crypto a j o)
  left_by_comm a b j o (inl h) =
      left_by-untouched a j (left_by crypto b j o) h
      ∙ ap (left_by crypto b j) (sym (left_by-untouched a j o h))
  left_by_comm a b j o (inr h) =
      ap (left_by crypto a j) (left_by-untouched b j o h)
      ∙ sym (left_by-untouched b j (left_by crypto a j o) h)

  untouched_at :
      (claim : ClaimId) (a b : Call) (m : Records)
      → AreApart a b
      → touches a claim.record_id ≡ true
      → left_by crypto b claim.record_id (m claim.record_id) ≡ m claim.record_id
  untouched_at claim a b m apart h = elim (apart claim.record_id) [
    | inl not ↦ absurd (cc (not, h))
    | inr free ↦ left_by-untouched b claim.record_id (m claim.record_id) free
  ]

  answered_by-untouched :
      (a b : Call) (m : Records)
      → AreApart a b
      → answered_by crypto a (λ j. left_by crypto b j (m j)) ≡ answered_by crypto a m
  answered_by-untouched (store e clock p ttl) b m apart = refl
  answered_by-untouched (sweep now) b m apart = refl
  answered_by-untouched (retrieve now text) b m apart =
      elim (Result-cases (decode crypto.base64 text)) [
        | inl (claim, d) ↦ rw d (
            ap (λ o. proof (retrieving crypto.aead now claim o).0)
              (untouched_at claim (retrieve now text) b m apart (rw d (bytes_eq_refl _))))
        | inr (inl (e, d)) ↦ rw d refl
        | inr (inr d) ↦ rw d refl
      ]
  answered_by-untouched (delete now text) b m apart =
      elim (Result-cases (decode crypto.base64 text)) [
        | inl (claim, d) ↦ rw d (
            ap (λ o. removal (deleting now o).0)
              (untouched_at claim (delete now text) b m apart (rw d (bytes_eq_refl _))))
        | inr (inl (e, d)) ↦ rw d refl
        | inr (inr d) ↦ rw d refl
      ]

Answer-set : IsSet Answer
Answer-set = hlevel (IsScalar-prop)

module _ {S : Type 0} (crypto : Crypto) (backend : StorageBackend S) (c : Contract backend) where
  abbrev pub Healthy : Type 0
  Healthy = (s : S) × c.IsHealthy s

  abbrev pub SameRecords : Healthy → Healthy → Type 0
  SameRecords x y = (j : Bytes) → IsArray 16 j → c.view x.0 j ≡ c.view y.0 j

  -- The healthy states up to the records that they hold: two tables with the same rows in another
  -- order are one element.
  abbrev pub Contents : Type 0
  Contents = Quot SameRecords

  module _ (call : Call) (allowed : IsAdmissible crypto backend c call) where
    view-Follows : (x : Healthy) → Follows crypto backend c call x.0 (c.view x.0)
    view-Follows x =
        call-Follows crypto backend c call x.0 (c.view x.0) allowed
          (record { healthy = x.1; views = λ j aj. refl })

    abbrev moved : Healthy → Healthy
    moved x = (after crypto backend call x.0, (view-Follows x).holds.healthy)

    moved-SameRecords : (x y : Healthy) → SameRecords x y → SameRecords (moved x) (moved y)
    moved-SameRecords x y h j aj =
        (view-Follows x).holds.views j aj
        ∙ ap (left_by crypto call j) (h j aj)
        ∙ sym ((view-Follows y).holds.views j aj)

    same_answer :
        (x y : Healthy)
        → SameRecords x y
        → answer crypto backend call x.0 ≡ answer crypto backend call y.0
    same_answer x y h =
        let r =
          call-Follows crypto backend c call x.0 (c.view y.0) allowed
            (record { healthy = x.1; views = h }) in
        r.answers ∙ sym (view-Follows y).answers

    -- The call on the contents: what is answered and what is left do not depend on how the records
    -- are held.
    pub leaves : Contents → Contents
    leaves =
        Quot.lift Quot-set (λ x. Quot.mk (moved x)) (λ x y h. Quot.sound (moved-SameRecords x y h))

    pub answers : Contents → Answer
    answers = Quot.lift Answer-set (λ x. answer crypto backend call x.0) same_answer

  module _ (a b : Call) (p : IsAdmissible crypto backend c a)
      (q : IsAdmissible crypto backend c b) where
    leaves_comm :
        AreApart crypto a b → (x : Contents) → leaves a p (leaves b q x) ≡ leaves b q (leaves a p x)
    unfolding leaves
    leaves_comm apart =
        Quot.ind (λ x. Quot-set _ _)
          (λ x. Quot.sound (λ j aj.
            (view-Follows a p (moved b q x)).holds.views j aj
            ∙ ap (left_by crypto a j) ((view-Follows b q x).holds.views j aj)
            ∙ left_by_comm crypto a b j (c.view x.0 j) (apart j)
            ∙ ap (left_by crypto b j) (sym ((view-Follows a p x).holds.views j aj))
            ∙ sym ((view-Follows b q (moved a p x)).holds.views j aj)))

    answers-leaves :
        AreApart crypto a b → (x : Contents) → answers a p (leaves b q x) ≡ answers a p x
    unfolding leaves answers
    answers-leaves apart =
        Quot.ind (λ x. Answer-set _ _)
          (λ x.
            (call-Follows crypto backend c a (moved b q x).0
              (λ j. left_by crypto b j (c.view x.0 j)) p (view-Follows b q x).holds).answers
            ∙ answered_by-untouched crypto a b (c.view x.0) apart
            ∙ sym (view-Follows a p x).answers)

  -- Two calls that the contract admits, of which no record is touched by both: in either order each
  -- has the answer that it has alone, but for the numbers of the sweeps, and the contents that they
  -- leave are the same.
  pub apart_calls_commute :
      (a b : Call) (p : IsAdmissible crypto backend c a) (q : IsAdmissible crypto backend c b)
      → AreApart crypto a b
      → (x : Contents)
      → (leaves a p (leaves b q x) ≡ leaves b q (leaves a p x))
        × (answers a p (leaves b q x) ≡ answers a p x)
        × (answers b q (leaves a p x) ≡ answers b q x)
  apart_calls_commute a b p q apart x = (
    leaves_comm a b p q apart x,
    answers-leaves a b p q apart x,
    answers-leaves b a q p (λ j. elim (apart j) [ inl h ↦ inr h | inr h ↦ inl h ]) x,
  )
