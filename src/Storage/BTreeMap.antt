-- ===== src/Storage/BTreeMap.antt =====
-- `BTreeMap<String, V>`: its entries in ascending order of the keys.
use tari_vault.Base.{
  Bytes, bytes_eq, bytes_eq_iff, text_lt, text_lt_irrefl, text_lt_trans, text_lt_total, ◌≡◌, refl,
  Bool, true, Option, none, some, List, [], ◌∷◌, arith, All, if◌then◌else◌, Bool-cases, inl, inr,
  subst, length, ◌≤◌,
}

abbrev pub BTreeMap {ℓ} : Type ℓ → Type ℓ
BTreeMap V = List (Bytes × V)

module _ {ℓ} {V : Type ℓ} where
  unfoldable pub get : Bytes → BTreeMap V → Option V
  get k [] = none
  get k ((j, v) ∷ m) = if bytes_eq j k then some v else get k m

  unfoldable pub insert : Bytes → V → BTreeMap V → BTreeMap V
  insert k v [] = (k, v) ∷ []
  insert k v ((j, w) ∷ m) =
      let later = insert k v m in
      if bytes_eq j k
      then (k, v) ∷ m
      else if text_lt k j
      then (k, v) ∷ (j, w) ∷ m
      else (j, w) ∷ later

  unfoldable pub remove : Bytes → BTreeMap V → BTreeMap V
  remove k [] = []
  remove k ((j, v) ∷ m) = let later = remove k m in if bytes_eq j k then m else (j, v) ∷ later

  unfoldable pub retain : (V → Bool) → BTreeMap V → BTreeMap V
  retain keep [] = []
  retain keep ((j, v) ∷ m) = let later = retain keep m in if keep v then (j, v) ∷ later else later

  abbrev pub After : Bytes → Bytes × V → Type 0
  After k e = text_lt k e.0 ≡ true

  abbrev pub IsSorted : BTreeMap V → Type 0
  IsSorted [] = Unit
  IsSorted (e ∷ m) = All (After e.0) m × IsSorted m

  unfoldable pub kept : (V → Bool) → Option V → Option V
  kept keep none = none
  kept keep (some v) = if keep v then some v else none

module _ {ℓ} {V : Type ℓ} where
  pub get-insert :
      (k j : Bytes) (v : V) (m : BTreeMap V)
      → get j (insert k v m) ≡ (if bytes_eq k j then some v else get j m)
  unfolding get insert
  get-insert k j v [] = refl
  get-insert k j v ((i, w) ∷ m) =
      ground (arith, bytes_eq_iff i k, bytes_eq_iff k j, bytes_eq_iff i j, get-insert k j v m)

  After-trans :
      (k j : Bytes) (m : BTreeMap V) → text_lt k j ≡ true → All (After j) m → All (After k) m
  After-trans k j [] h a = tt
  After-trans k j (e ∷ m) h a = (text_lt_trans k j e.0 h a.0, After-trans k j m h a.1)

  get-After : (k : Bytes) (m : BTreeMap V) → All (After k) m → get k m ≡ none
  unfolding get
  get-After k [] a = refl
  get-After k ((j, v) ∷ m) a = ground (arith, bytes_eq_iff j k, text_lt_irrefl k, get-After k m a.1)

  -- What holds of every entry, and of the new one, holds afterwards.
  module _ {κ} (P : Bytes × V → Type κ) where
    pub All-insert :
        (k : Bytes) (v : V) (m : BTreeMap V) → P (k, v) → All P m → All P (insert k v m)
    unfolding insert
    All-insert k v [] h a = (h, tt)
    All-insert k v ((j, w) ∷ m) h a = elim (Bool-cases (bytes_eq j k)) [
      | inl same ↦ rw same (h, a.1)
      | inr other ↦ elim (Bool-cases (text_lt k j)) [
        | inl before ↦ rw (other, before) (h, a)
        | inr behind ↦ rw (other, behind) (a.0, All-insert k v m h a.1)
      ]
    ]

    pub All-remove : (k : Bytes) (m : BTreeMap V) → All P m → All P (remove k m)
    unfolding remove
    All-remove k [] a = tt
    All-remove k ((j, v) ∷ m) a = elim (Bool-cases (bytes_eq j k)) [
      | inl same ↦ rw same a.1
      | inr other ↦ rw other (a.0, All-remove k m a.1)
    ]

    pub All-retain : (keep : V → Bool) (m : BTreeMap V) → All P m → All P (retain keep m)
    unfolding retain
    All-retain keep [] a = tt
    All-retain keep ((j, v) ∷ m) a = elim (Bool-cases (keep v)) [
      | inl stays ↦ rw stays (a.0, All-retain keep m a.1)
      | inr goes ↦ rw goes (All-retain keep m a.1)
    ]

  pub insert-IsSorted : (k : Bytes) (v : V) (m : BTreeMap V) → IsSorted m → IsSorted (insert k v m)
  unfolding insert
  insert-IsSorted k v [] s = (tt, tt)
  insert-IsSorted k v ((j, w) ∷ m) s = elim (Bool-cases (bytes_eq j k)) [
    | inl same ↦ rw same (subst (λ i. All (After i) m) ((bytes_eq_iff j k).0 same) s.0, s.1)
    | inr other ↦ elim (Bool-cases (text_lt k j)) [
      | inl before ↦ rw (other, before) ((before, After-trans k j m before s.0), s)
      | inr behind ↦
          let above : text_lt j k ≡ true =
            text_lt_total k j (ground (arith, bytes_eq_iff j k, bytes_eq_iff k j)) behind in
          rw (other, behind) (All-insert (After j) k v m above s.0, insert-IsSorted k v m s.1)
    ]
  ]

  pub remove-IsSorted : (k : Bytes) (m : BTreeMap V) → IsSorted m → IsSorted (remove k m)
  unfolding remove
  remove-IsSorted k [] s = tt
  remove-IsSorted k ((j, v) ∷ m) s =
      ground (arith, remove-IsSorted k m s.1, All-remove (After j) k m s.0)

  pub remove-none : (k : Bytes) (m : BTreeMap V) → get k m ≡ none → remove k m ≡ m
  unfolding get remove
  remove-none k [] h = refl
  remove-none k ((j, v) ∷ m) h = ground (arith, remove-none k m)

  pub get-remove :
      (k j : Bytes) (m : BTreeMap V)
      → IsSorted m
      → get j (remove k m) ≡ (if bytes_eq k j then none else get j m)
  unfolding get remove
  get-remove k j [] s = ground arith
  get-remove k j ((i, v) ∷ m) s = ground (
    arith,
    bytes_eq_iff i k,
    bytes_eq_iff k j,
    bytes_eq_iff i j,
    get-After i m s.0,
    get-remove k j m s.1,
  )

  module _ (keep : V → Bool) where
    pub retain-IsSorted : (m : BTreeMap V) → IsSorted m → IsSorted (retain keep m)
    unfolding retain
    retain-IsSorted [] s = tt
    retain-IsSorted ((j, v) ∷ m) s =
        ground (arith, retain-IsSorted m s.1, All-retain (After j) keep m s.0)

    pub length-retain : (m : BTreeMap V) → length (retain keep m) ≤ length m
    unfolding retain
    length-retain [] = omega arith
    length-retain ((j, v) ∷ m) = ground (arith, length-retain m)

    -- A sweep that removes nothing by count changes nothing.
    pub retain_none : (m : BTreeMap V) → length m ≤ length (retain keep m) → retain keep m ≡ m
    unfolding retain
    retain_none [] h = refl
    retain_none ((j, v) ∷ m) h = ground (arith, length-retain m, retain_none m)

    pub get-retain :
        (j : Bytes) (m : BTreeMap V) → IsSorted m → get j (retain keep m) ≡ kept keep (get j m)
    unfolding get retain kept
    get-retain j [] s = refl
    get-retain j ((i, v) ∷ m) s =
        ground (arith, bytes_eq_iff i j, get-After i m s.0, get-retain j m s.1)
