-- ===== src/Storage/LocalFile/Holding.antt =====
-- Storage.LocalFile: the file store on a disk that is intact and holds a map.
use tari_vault.Base.{
  ℕ, ◌-◌, Bytes, bytes_eq, bytes_eq_iff, ◌≡◌, refl, ap, false, Option, none, some, [], Result, ok,
  err, panic, ok_or, ltb, length, arith, Bool-cases, inl, inr,
}
use tari_vault.Error.{StorageError, not_found}
use tari_vault.Domain.Chrono.{Instant}
use tari_vault.Domain.Record.{StoredRecord}
use tari_vault.Storage.BTreeMap
use tari_vault.Storage.BTreeMap.{
  BTreeMap, IsSorted, insert-IsSorted, remove-IsSorted, retain-IsSorted, All-insert, All-remove,
  All-retain, retain_none, remove-none,
}
use tari_vault.Storage.Backend.{StorageBackend, unexpired, is_some}
use tari_vault.Storage.LocalFile.{Host, Disk, owner_only, key, parse_state, local_file}
use tari_vault.Storage.LocalFile.Laws.{
  intact, Storable, AllStorable, image, parse_state-image, insert-intact, fetch-intact,
  delete-intact, delete_expired-intact,
}

module _ (host : Host) where
  -- `d` is intact and holds the map `m`.
  pub record Holds (d : Disk) (m : BTreeMap StoredRecord) : Type 0 where
    pub bytes : Bytes
    pub mode : ℕ
    pub same : d ≡ intact bytes mode
    pub parsed : parse_state host bytes ≡ ok m
    pub sorted : IsSorted m
    pub storable : AllStorable host m

  abbrev pub IsIntact : Disk → Type 0
  IsIntact d = (m : BTreeMap StoredRecord) × Holds d m

  map_of : Result StorageError (BTreeMap StoredRecord) → BTreeMap StoredRecord
  map_of (ok m) = m
  map_of (err e) = []
  map_of panic = []

  map_at : Option Bytes → BTreeMap StoredRecord
  unfolding map_of
  map_at none = []
  map_at (some b) = map_of (parse_state host b)

  -- The record under an id, whatever else the file holds.
  pub view : Disk → Bytes → Option StoredRecord
  view d id = BTreeMap.get (key host id) (map_at d.contents)

  pub view-Holds :
      (d : Disk) (m : BTreeMap StoredRecord)
      → Holds d m
      → (id : Bytes) → view d id ≡ BTreeMap.get (key host id) m
  unfolding view map_at
  view-Holds d m h id = rw (h.same, h.parsed)

  Holds-image :
      (m : BTreeMap StoredRecord)
      → IsSorted m
      → AllStorable host m
      → Holds (intact (image host m) owner_only) m
  Holds-image m s a = record {
    bytes = image host m;
    mode = owner_only;
    same = refl;
    parsed = parse_state-image host m a;
    sorted = s;
    storable = a;
  }

  pub key_eq : (id j : Bytes) → bytes_eq (key host id) (key host j) ≡ bytes_eq id j
  key_eq id j = ground (
    arith,
    bytes_eq_iff id j,
    bytes_eq_iff (key host id) (key host j),
    host.hyphenated.text-injective id j,
    ap (λ (x : Bytes). key host x),
  )

  Holds-same :
      (d : Disk) (m : BTreeMap StoredRecord) (h : Holds d m) → Holds (intact h.bytes h.mode) m
  Holds-same d m h = record {
    bytes = h.bytes;
    mode = h.mode;
    same = refl;
    parsed = h.parsed;
    sorted = h.sorted;
    storable = h.storable;
  }

  get-none :
      (id : Bytes) (m : BTreeMap StoredRecord)
      → is_some (BTreeMap.get (key host id) m) ≡ false
      → BTreeMap.get (key host id) m ≡ none
  get-none id m h = ground arith

  abbrev pub Accepted : StoredRecord → Type 0
  Accepted = Storable host

  abbrev pub file : StorageBackend Disk
  file = local_file host

  pub insert-Holds :
      (id : Bytes) (r : StoredRecord) (d : Disk) (m : BTreeMap StoredRecord)
      → Accepted r
      → Holds d m
      → ((file.insert id r d).0 ≡ ok tt)
        × Holds (file.insert id r d).1 (BTreeMap.insert (key host id) r m)
  insert-Holds id r d m a h =
      rw (h.same, insert-intact host m h.bytes h.mode h.parsed)
        (
          refl,
          Holds-image _ (insert-IsSorted _ r m h.sorted)
              (All-insert (λ e. Accepted e.1) _ r m a h.storable),
        )

  pub fetch-Holds :
      (id : Bytes) (d : Disk) (m : BTreeMap StoredRecord)
      → Holds d m
      → file.fetch id d ≡ (ok_or not_found (BTreeMap.get (key host id) m), d)
  fetch-Holds id d m h = rw h.same (fetch-intact host m h.bytes h.mode h.parsed id)

  pub delete-Holds :
      (id : Bytes) (d : Disk) (m : BTreeMap StoredRecord)
      → Holds d m
      → ((file.delete id d).0 ≡ ok (is_some (BTreeMap.get (key host id) m)))
        × Holds (file.delete id d).1 (BTreeMap.remove (key host id) m)
  delete-Holds id d m h = elim (Bool-cases (is_some (BTreeMap.get (key host id) m))) [
    | inl there ↦
        rw (h.same, delete-intact host m h.bytes h.mode h.parsed, there)
          (
            refl,
            Holds-image _ (remove-IsSorted _ m h.sorted)
                (All-remove (λ e. Accepted e.1) _ m h.storable),
          )
    | inr gone ↦
        rw
          (
            h.same,
            delete-intact host m h.bytes h.mode h.parsed,
            gone,
            remove-none (key host id) m (get-none id m gone),
          )
          (refl, Holds-same d m h)
  ]

  pub delete_expired-Holds :
      (now : Instant) (d : Disk) (m : BTreeMap StoredRecord)
      → Holds d m
      → let after = BTreeMap.retain (unexpired now) m in
        ((file.delete_expired now d).0 ≡ ok (length m - length after))
        × Holds (file.delete_expired now d).1 after
  delete_expired-Holds now d m h =
      let after = BTreeMap.retain (unexpired now) m in
      elim (Bool-cases (ltb 0 (length m - length after))) [
        | inl some_removed ↦
            rw (h.same, delete_expired-intact host m h.bytes h.mode h.parsed, some_removed)
              (
                refl,
                Holds-image _ (retain-IsSorted _ m h.sorted)
                    (All-retain (λ e. Accepted e.1) _ m h.storable),
              )
        | inr none_removed ↦
            rw (h.same, delete_expired-intact host m h.bytes h.mode h.parsed, none_removed)
              (refl, rw (retain_none (unexpired now) m (ground arith)) (Holds-same d m h))
      ]
