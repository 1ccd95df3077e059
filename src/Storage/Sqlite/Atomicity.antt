-- ===== src/Storage/Sqlite/Atomicity.antt =====
-- The operations of src/storage/sqlite.rs when any call that leaves the program may fail.
use tari_vault.Base.{
  ℕ, ◌-◌, Bytes, ◌≡◌, refl, sym, ◌∙◌, ap, Bool, Option, none, some, List, Result, ok, err, panic,
  Exec, pure, ◌>>=◌, ◌>>◌, length, ltb, Option-cases, inl, inr, ◌⊎◌, subst, continue,
}
use tari_vault.Error.{StorageError, io}
use tari_vault.Domain.Chrono.{Instant, Chrono}
use tari_vault.Domain.Record.{StoredRecord}
use tari_vault.Storage.Faults.{outcome, later}
use tari_vault.Storage.Backend.{StorageBackend}
use tari_vault.Storage.Sqlite.{
  Row, Database, call, answer, joined, spawn_blocking, without, insert_or_replace, without_expired,
  delete_where, row_of, read_row, select, parse_datetime, parse_optional, insert, fetch, delete,
  delete_expired, sqlite,
}
use tari_vault.Storage.Sqlite.Laws.{
  IsKeyed, without-Differs, without-IsKeyed, without_expired-IsKeyed,
}

-- The operation did all of its work on the rows and succeeded, or none of it and failed.
abbrev pub Whole :
    {A : Type 0}
    → (List Row → List Row)
    → (List Row → A → Type 0)
    → List Row
    → Result StorageError A × Database
    → Type 0
Whole {A} f P rows out =
    ((a : A) × (out.0 ≡ ok a) × P rows a × (out.1.rows ≡ f rows))
    ⊎ ((e : StorageError) × (out.0 ≡ err e) × (out.1.rows ≡ rows))

module _ {A : Type 0} (f : List Row → List Row) (P : List Row → A → Type 0) where
  call-Whole :
      (m : Exec Database StorageError A) (d : Database)
      → ((d : Database) → Whole f P d.rows (m d))
      → Whole f P d.rows ((call >> m) d)
  unfolding call answer
  call-Whole m d h = elim (Option-cases (outcome d.faults)) [
    | inl works ↦ rw works (h (record d { faults = later d.faults }))
    | inr (e, fails) ↦ rw fails (inr (io e, refl, refl))
  ]

  joined-Whole :
      (rows : List Row) (out : Result StorageError A × Database)
      → Whole f P rows out
      → Whole f P rows (joined out.0, out.1)
  unfolding joined
  joined-Whole rows out (inl (a, e, p, q)) = inl (a, ap joined e, p, q)
  joined-Whole rows out (inr (x, e, q)) = inr (x, ap joined e, q)

  spawn_blocking-Whole :
      (m : Exec Database StorageError A) (d : Database)
      → ((d : Database) → Whole f P d.rows (m d))
      → Whole f P d.rows (spawn_blocking m d)
  unfolding spawn_blocking
  spawn_blocking-Whole m d h =
      call-Whole (λ d. (joined (m d).0, (m d).1)) d (λ d. joined-Whole d.rows (m d) (h d))

-- A statement that deletes some rows, run by a closure that goes on with the count.
delete_where-Whole :
    (A : Type 0) (f : List Row → List Row) (g : ℕ → A) (d : Database)
    → Whole f
        (λ rows a. a ≡ g (length rows - length (f rows)))
        d.rows
        ((delete_where f >>= λ n. pure (g n)) d)
unfolding delete_where call answer
delete_where-Whole A f g d = elim (Option-cases (outcome d.faults)) [
  | inl works ↦ rw works (inl (g (length d.rows - length (f d.rows)), refl, refl, refl))
  | inr (e, fails) ↦ rw fails (inr (io e, refl, refl))
]

counted-Whole :
    (f : List Row → List Row) (d : Database)
    → Whole f (λ rows n. n ≡ length rows - length (f rows)) d.rows (delete_where f d)
unfolding delete_where call answer
counted-Whole f d = elim (Option-cases (outcome d.faults)) [
  | inl works ↦ rw works (inl (length d.rows - length (f d.rows), refl, refl, refl))
  | inr (e, fails) ↦ rw fails (inr (io e, refl, refl))
]

-- What only answers leaves the rows alone, and so does what it passes on.
continue-rows :
    {A B : Type 0} (r : Result StorageError A) (k : A → Exec Database StorageError B) (d : Database)
    → ((a : A) → (k a d).1.rows ≡ d.rows)
    → (continue r k d).1.rows ≡ d.rows
continue-rows (ok a) k d h = h a
continue-rows (err e) k d h = refl
continue-rows panic k d h = refl

module _ (chrono : Chrono) where
  insert-Whole :
      (id : Bytes) (r : StoredRecord) (d : Database)
      → Whole
          (insert_or_replace (row_of chrono id r))
          (λ rows a. Unit {0})
          d.rows
          (insert chrono id r d)
  unfolding insert
  insert-Whole id r d =
      spawn_blocking-Whole f P _ d
        (λ d. call-Whole f P _ d (λ d. call-Whole f P _ d (λ d. inl (tt, refl, tt, refl))))
    where
      f : List Row → List Row
      f = insert_or_replace (row_of chrono id r)

      P : List Row → Unit {0} → Type 0
      P rows a = Unit {0}

  delete-Whole :
      (id : Bytes) (d : Database)
      → Whole
          (without id)
          (λ rows removed. removed ≡ ltb 0 (length rows - length (without id rows)))
          d.rows
          (delete chrono id d)
  unfolding delete
  delete-Whole id d = spawn_blocking-Whole (without id) _ _ d (λ d.
      call-Whole (without id) _ _ d (λ d. delete_where-Whole Bool (without id) (λ n. ltb 0 n) d))

  delete_expired-Whole :
      (now : Instant) (d : Database)
      → let swept = without_expired (chrono.to_rfc3339 now) in
        Whole swept
          (λ rows n. n ≡ length rows - length (swept rows))
          d.rows
          (delete_expired chrono now d)
  unfolding delete_expired
  delete_expired-Whole now d =
      let swept = without_expired (chrono.to_rfc3339 now) in
      spawn_blocking-Whole swept _ _ d (λ d. call-Whole swept _ _ d (λ d. counted-Whole swept d))

  call-rows :
      {A : Type 0} (m : Exec Database StorageError A) (d : Database)
      → ((d : Database) → (m d).1.rows ≡ d.rows)
      → ((call >> m) d).1.rows ≡ d.rows
  unfolding call answer
  call-rows m d h = elim (Option-cases (outcome d.faults)) [
    | inl works ↦ rw works (h (record d { faults = later d.faults }))
    | inr (e, fails) ↦ rw fails refl
  ]

  parse_optional-rows :
      (t : Option Bytes) (d : Database) → (parse_optional chrono t d).1.rows ≡ d.rows
  unfolding parse_optional
  parse_optional-rows none d = refl
  parse_optional-rows (some s) d = continue-rows (parse_datetime chrono s) _ d (λ t. refl)

  read_row-rows : (row : Option Row) (d : Database) → (read_row chrono row d).1.rows ≡ d.rows
  unfolding read_row
  read_row-rows none d = refl
  read_row-rows (some row) d = continue-rows (parse_datetime chrono row.stored_at) _ d (λ t.
      let next = parse_optional chrono row.expires_at d in
      continue-rows next.0 _ next.1 (λ x. refl) ∙ parse_optional-rows row.expires_at d)

  fetch-rows : (id : Bytes) (d : Database) → (fetch chrono id d).1.rows ≡ d.rows
  unfolding fetch spawn_blocking
  fetch-rows id d = call-rows _ d (λ d.
      call-rows _ d
        (λ d. call-rows _ d (λ d. call-rows _ d (λ d. read_row-rows (select id d.rows) d))))

  abbrev pub proofs : StorageBackend Database
  proofs = sqlite chrono

  -- Whatever calls of the environment fail, a statement of SQLite being run whole or not at all: an insert, a delete
  -- and a sweep either fail and leave the rows as they are, or succeed, with the rows and the answer that the
  -- statement gives. A fetch leaves the rows as they are.
  pub sqlite_all_or_nothing :
      (id : Bytes) (r : StoredRecord) (now : Instant) (d : Database)
      → let swept = without_expired (chrono.to_rfc3339 now) in
        Whole
          (insert_or_replace (row_of chrono id r))
          (λ rows a. Unit {0})
          d.rows
          (proofs.insert id r d)
        × Whole
            (without id)
            (λ rows removed. removed ≡ ltb 0 (length rows - length (without id rows)))
            d.rows
            (proofs.delete id d)
        × Whole swept
            (λ rows n. n ≡ length rows - length (swept rows))
            d.rows
            (proofs.delete_expired now d)
        × ((proofs.fetch id d).1.rows ≡ d.rows)
  sqlite_all_or_nothing id r now d =
      (insert-Whole id r d, delete-Whole id d, delete_expired-Whole now d, fetch-rows id d)

  Whole-IsKeyed :
      {A : Type 0} (f : List Row → List Row) (P : List Row → A → Type 0) (rows : List Row)
      (out : Result StorageError A × Database)
      → IsKeyed rows
      → IsKeyed (f rows)
      → Whole f P rows out
      → IsKeyed out.1.rows
  Whole-IsKeyed f P rows out k kept (inl (a, e, p, q)) = subst IsKeyed (sym q) kept
  Whole-IsKeyed f P rows out k kept (inr (x, e, q)) = subst IsKeyed (sym q) k

  insert_or_replace-IsKeyed :
      (id : Bytes) (r : StoredRecord) (rows : List Row)
      → IsKeyed rows
      → IsKeyed (insert_or_replace (row_of chrono id r) rows)
  unfolding insert_or_replace row_of
  insert_or_replace-IsKeyed id r rows k = (without-Differs id rows, without-IsKeyed id rows k)

  -- The ids of the rows stay distinct under every operation, whatever calls of the environment fail.
  pub sqlite-IsKeyed :
      (id : Bytes) (r : StoredRecord) (now : Instant) (d : Database)
      → IsKeyed d.rows
      → IsKeyed (proofs.insert id r d).1.rows
        × IsKeyed (proofs.delete id d).1.rows
        × IsKeyed (proofs.delete_expired now d).1.rows
        × IsKeyed (proofs.fetch id d).1.rows
  sqlite-IsKeyed id r now d k =
      let swept = without_expired (chrono.to_rfc3339 now) in
      (
        Whole-IsKeyed (insert_or_replace (row_of chrono id r)) (λ rows a. Unit {0}) d.rows
            (proofs.insert id r d) k (insert_or_replace-IsKeyed id r d.rows k)
            (insert-Whole id r d),
        Whole-IsKeyed (without id)
            (λ rows removed. removed ≡ ltb 0 (length rows - length (without id rows))) d.rows
            (proofs.delete id d) k (without-IsKeyed id d.rows k) (delete-Whole id d),
        Whole-IsKeyed swept (λ rows n. n ≡ length rows - length (swept rows)) d.rows
            (proofs.delete_expired now d) k
            (without_expired-IsKeyed (chrono.to_rfc3339 now) d.rows k) (delete_expired-Whole now d),
        subst IsKeyed (sym (fetch-rows id d)) k,
      )
