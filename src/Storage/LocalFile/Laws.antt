-- ===== src/Storage/LocalFile/Laws.antt =====
-- The file store on an intact disk, one equation for each operation.
use tari_vault.Base.{
  ℕ, ◌-◌, Bytes, ◌≡◌, refl, true, false, Option, none, some, [], ◌∷◌, ok, ok_or, if◌then◌else◌, ltb,
  length, All, Bool-cases, inl, inr,
}
use tari_vault.Error.{not_found}
use tari_vault.Domain.Chrono.{Instant}
use tari_vault.Domain.Record.{StoredRecord}
use tari_vault.Domain.Record.Document.{IsStorable, deserialize-serialize}
use tari_vault.Storage.BTreeMap
use tari_vault.Storage.BTreeMap.{BTreeMap}
use tari_vault.Storage.Backend.{unexpired, is_some}
use tari_vault.Storage.LocalFile.{
  Host, Disk, owner_only, key, documents, records, parse_state, print_state, typed, write_atomic,
  insert, fetch, delete, delete_expired, joined,
}

-- A file with these bytes, and an environment in which no call fails.
abbrev pub intact : Bytes → ℕ → Disk
intact b mode = record { contents = some b; mode = mode; has_parent = true; faults = [] }

joined-ok_or : {A : Type 0} (o : Option A) → joined (ok_or not_found o) ≡ ok_or not_found o
unfolding joined
joined-ok_or none = refl
joined-ok_or (some a) = refl

module _ (host : Host) where
  abbrev pub Storable : StoredRecord → Type 0
  Storable = IsStorable host.standard host.chrono

  abbrev pub AllStorable : BTreeMap StoredRecord → Type 0
  AllStorable = All (λ e. Storable e.1)

  records-documents :
      (m : BTreeMap StoredRecord) → AllStorable m → records host (documents host m) ≡ ok m
  unfolding records documents
  records-documents [] h = refl
  records-documents ((k, r) ∷ m) h =
      rw (deserialize-serialize host.standard host.chrono r h.0, records-documents m h.1)

  -- The bytes that a state is written as.
  abbrev pub image : BTreeMap StoredRecord → Bytes
  image m = (host.document_json.to_vec_pretty-ok (documents host m)).0

  pub print_state-image : (m : BTreeMap StoredRecord) → print_state host m ≡ ok (image m)
  unfolding print_state
  print_state-image m = rw ((host.document_json.to_vec_pretty-ok (documents host m)).1)

  pub parse_state-image :
      (m : BTreeMap StoredRecord) → AllStorable m → parse_state host (image m) ≡ ok m
  unfolding parse_state typed
  parse_state-image m h =
      rw ((host.document_json.to_vec_pretty-ok (documents host m)).2, records-documents m h)

  pub write_atomic-intact :
      (m : BTreeMap StoredRecord) (b : Bytes) (mode : ℕ)
      → write_atomic host m (intact b mode) ≡ (ok tt, intact (image m) owner_only)
  unfolding write_atomic
  write_atomic-intact m b mode = rw (print_state-image m)

  module _ (m : BTreeMap StoredRecord) (b : Bytes) (mode : ℕ)
      (parsed : parse_state host b ≡ ok m) where
    pub insert-intact :
        (id : Bytes) (r : StoredRecord)
        → insert host id r (intact b mode)
          ≡ (ok tt, intact (image (BTreeMap.insert (key host id) r m)) owner_only)
    unfolding insert
    insert-intact id r = rw (parsed, write_atomic-intact)

    pub fetch-intact :
        (id : Bytes)
        → fetch host id (intact b mode)
          ≡ (ok_or not_found (BTreeMap.get (key host id) m), intact b mode)
    unfolding fetch
    fetch-intact id = rw (parsed, joined-ok_or (BTreeMap.get (key host id) m))

    pub delete-intact :
        (id : Bytes)
        → delete host id (intact b mode) ≡ (
            if is_some (BTreeMap.get (key host id) m)
            then (ok true, intact (image (BTreeMap.remove (key host id) m)) owner_only)
            else (ok false, intact b mode))
    unfolding delete
    delete-intact id = rw parsed (elim (Bool-cases (is_some (BTreeMap.get (key host id) m))) [
      | inl there ↦ rw (there, write_atomic-intact)
      | inr gone ↦ rw gone
    ])

    pub delete_expired-intact :
        (now : Instant)
        → let after = BTreeMap.retain (unexpired now) m in
          let removed = length m - length after in
          delete_expired host now (intact b mode)
          ≡ (ok removed, (if ltb 0 removed then intact (image after) owner_only else intact b mode))
    unfolding delete_expired
    delete_expired-intact now =
        let after = BTreeMap.retain (unexpired now) m in
        rw parsed (elim (Bool-cases (ltb 0 (length m - length after))) [
          | inl some_removed ↦ rw (some_removed, write_atomic-intact)
          | inr none_removed ↦ rw none_removed
        ])
