-- ===== src/Storage/LocalFile/Atomicity.antt =====
-- The file store under any environment: what an operation that fails midway leaves of the vault file.
-- A crash before some call leaves the file as a failure of that call does.
use tari_vault.Base.{
  suc, Bytes, ◌≡◌, refl, ◌∙◌, continue, pure, ℕ, ◌-◌, length, ltb, Bool, true, Result, ok, err,
  panic, ◌⊎◌, inl, inr, arith, Exec, Bool-cases, if◌then◌else◌, ◌>>◌, ◌≢◌,
}
use tari_vault.Error.{StorageError}
use tari_vault.Domain.Chrono.{Instant}
use tari_vault.Domain.Record.{StoredRecord}
use tari_vault.Storage.BTreeMap
use tari_vault.Storage.BTreeMap.{BTreeMap}
use tari_vault.Storage.Backend.{unexpired, is_some}
use tari_vault.Storage.LocalFile.{
  Host, Disk, key, write_atomic, insert, delete, delete_expired, joined,
}
use tari_vault.Storage.LocalFile.UnderLock.{
  Written, Updated, locked, locked_cases, write_atomic_all_or_nothing,
}

module _ (host : Host) where
  joined-ne : {A : Type 0} (r : Result StorageError A) (a : A) → r ≢ ok a → joined r ≢ ok a
  unfolding joined
  joined-ne (ok b) a h = h
  joined-ne (err e) a h = λ p. cc
  joined-ne panic a h = λ p. cc

  state_of_then :
      {A : Type 0} (r : Result StorageError (Unit {0})) (d : Disk) (a : A)
      → (continue r (λ _. pure {E = StorageError} a) d).1 ≡ d
  state_of_then (ok x) d a = refl
  state_of_then (err e) d a = refl
  state_of_then panic d a = refl

  then-ne :
      {A : Type 0} (r : Result StorageError (Unit {0})) (d : Disk) (a b : A)
      → r ≢ ok tt
      → (continue r (λ _. pure {E = StorageError} a) d).0 ≢ ok b
  then-ne (ok x) d a b h = absurd (h refl)
  then-ne (err e) d a b h = λ p. cc
  then-ne panic d a b h = λ p. cc

  -- A write that is followed by the answer `a`.
  write_then :
      {A : Type 0} (m : BTreeMap StoredRecord) (a : A) (d : Disk)
      → Written host m ((write_atomic host m >> pure a) d).1
        ⊎ ((((write_atomic host m >> pure a) d).1.contents ≡ d.contents)
            × ((b : A) → ((write_atomic host m >> pure a) d).0 ≢ ok b))
  write_then m a d =
      rw (state_of_then (write_atomic host m d).0 (write_atomic host m d).1 a)
        (elim (write_atomic_all_or_nothing host m d) [
          | inl whole ↦ inl whole
          | inr (same, fails) ↦ inr (same, λ b. then-ne _ _ a b fails)
        ])

  insert-locked :
      (id : Bytes) (r : StoredRecord) (d : Disk)
      → insert host id r d
        ≡ locked host (λ m. write_atomic host (BTreeMap.insert (key host id) r m)) d
  unfolding insert locked
  insert-locked id r d = refl

  abbrev delete_body : Bytes → BTreeMap StoredRecord → Exec Disk StorageError Bool
  delete_body id m =
      let existed = is_some (BTreeMap.get (key host id) m) in
      (if existed then write_atomic host (BTreeMap.remove (key host id) m) else pure tt)
      >> pure existed

  delete-locked : (id : Bytes) (d : Disk) → delete host id d ≡ locked host (delete_body id) d
  unfolding delete locked
  delete-locked id d = refl

  abbrev sweep_body : Instant → BTreeMap StoredRecord → Exec Disk StorageError ℕ
  sweep_body now m =
      let after = BTreeMap.retain (unexpired now) m in
      let removed = length m - length after in
      (if ltb 0 removed then write_atomic host after else pure tt) >> pure removed

  delete_expired-locked :
      (now : Instant) (d : Disk) → delete_expired host now d ≡ locked host (sweep_body now) d
  unfolding delete_expired locked
  delete_expired-locked now d = refl

  -- In any environment an insert leaves the file with the state that it held and the record, or
  -- with its old contents and then it does not report success.
  pub insert_atomic :
      (id : Bytes) (r : StoredRecord) (d : Disk)
      → Updated host (BTreeMap.insert (key host id) r) d (insert host id r d).1
        ⊎ (((insert host id r d).1.contents ≡ d.contents) × ((insert host id r d).0 ≢ ok tt))
  insert_atomic id r d =
      elim (locked_cases host (λ m. write_atomic host (BTreeMap.insert (key host id) r m)) d) [
        | inr (same, fails) ↦ rw insert-locked (inr (same, fails tt))
        | inl (old, m, d', there, parsed, same, runs) ↦
            rw (insert-locked, runs)
              (elim (write_atomic_all_or_nothing host _ d') [
                | inl whole ↦ inl (old, m, there, parsed, whole)
                | inr (kept, fails) ↦ inr (kept ∙ same, joined-ne _ tt fails)
              ])
      ]

  -- In any environment a delete leaves the file with the state that it held without the record, or
  -- with its old contents and then it does not report that it deleted.
  pub delete_atomic :
      (id : Bytes) (d : Disk)
      → Updated host (BTreeMap.remove (key host id)) d (delete host id d).1
        ⊎ (((delete host id d).1.contents ≡ d.contents) × ((delete host id d).0 ≢ ok true))
  delete_atomic id d = elim (locked_cases host (delete_body id) d) [
    | inr (same, fails) ↦ rw delete-locked (inr (same, fails true))
    | inl (old, m, d', there, parsed, same, runs) ↦
        rw (delete-locked, runs)
          (elim (Bool-cases (is_some (BTreeMap.get (key host id) m))) [
            | inl found ↦ rw found (elim (write_then _ true d') [
              | inl whole ↦ inl (old, m, there, parsed, whole)
              | inr (kept, fails) ↦ inr (kept ∙ same, joined-ne _ true (fails true))
            ])
            | inr missing ↦ rw missing (inr (same, joined-ne _ true (λ p. cc)))
          ])
  ]

  -- In any environment a sweep leaves the file with the state that it held without the expired
  -- records, or with its old contents and then it does not report that it removed any.
  pub delete_expired_atomic :
      (now : Instant) (d : Disk)
      → Updated host (BTreeMap.retain (unexpired now)) d (delete_expired host now d).1
        ⊎ (((delete_expired host now d).1.contents ≡ d.contents)
            × ((n : ℕ) → (delete_expired host now d).0 ≢ ok (suc n)))
  delete_expired_atomic now d = elim (locked_cases host (sweep_body now) d) [
    | inr (same, fails) ↦ rw delete_expired-locked (inr (same, λ n. fails (suc n)))
    | inl (old, m, d', there, parsed, same, runs) ↦
        let removed = length m - length (BTreeMap.retain (unexpired now) m) in
        rw (delete_expired-locked, runs)
          (elim (Bool-cases (ltb 0 removed)) [
            | inl some_removed ↦ rw some_removed (elim (write_then _ removed d') [
              | inl whole ↦ inl (old, m, there, parsed, whole)
              | inr (kept, fails) ↦ inr (kept ∙ same, λ n. joined-ne _ (suc n) (fails (suc n)))
            ])
            | inr none_removed ↦ rw none_removed (inr (same, λ n. unfold joined in ground arith))
          ])
  ]
