-- ===== src/Rpc/Proxy/Apart.antt =====
-- The connections of the TLS proxy of src/rpc/server.rs, each beside the others.
use tari_vault.Base.{
  ℕ, zero, suc, ◌+◌, length, Bytes, ◌≡◌, refl, sym, ap, ◌∙◌, false, some, List, [], ◌∷◌, arith,
  ◌==◌, ==_iff, if◌then◌else◌, Bool-cases, inl, inr,
}
use tari_vault.Rpc.Proxy.{
  Tokio, Connection, shaking, forward, Event, accepted, fails, goes_on, add, forward_at, happens,
  proxy,
}
use tari_vault.Rpc.Proxy.Safety.{arrivals, get_elem?}

module _ (tokio : Tokio) (plain_addr : Bytes) where
  -- The events without the turns of the other connections.
  abbrev pub only : ℕ → List (Event tokio) → List (Event tokio)
  only k [] = []
  only k (accepted tcp k' ∷ es) = accepted tcp k' ∷ only k es
  only k (fails e ∷ es) = fails e ∷ only k es
  only k (goes_on i ∷ es) = if i == k then goes_on i ∷ only k es else only k es

  -- As many connections, and the same one at the place `k`.
  abbrev Alike : ℕ → List (Connection tokio) → List (Connection tokio) → Type 0
  Alike k [] [] = Unit
  Alike k [] (y ∷ ys) = ⊥
  Alike k (x ∷ xs) [] = ⊥
  Alike zero (x ∷ xs) (y ∷ ys) = (x ≡ y) × (length xs ≡ length ys)
  Alike (suc k) (x ∷ xs) (y ∷ ys) = Alike k xs ys

  Alike-length : (k : ℕ) (xs ys : List (Connection tokio)) → Alike k xs ys → length xs ≡ length ys
  Alike-length k [] [] h = refl
  Alike-length k [] (y ∷ ys) h = absurd h
  Alike-length k (x ∷ xs) [] h = absurd h
  Alike-length zero (x ∷ xs) (y ∷ ys) h = ap suc h.1
  Alike-length (suc k) (x ∷ xs) (y ∷ ys) h = ap suc (Alike-length k xs ys h)

  Alike-get_elem? :
      (k : ℕ) (xs ys : List (Connection tokio))
      → Alike k xs ys
      → get_elem? tokio plain_addr xs k ≡ get_elem? tokio plain_addr ys k
  Alike-get_elem? k [] [] h = refl
  Alike-get_elem? k [] (y ∷ ys) h = absurd h
  Alike-get_elem? k (x ∷ xs) [] h = absurd h
  Alike-get_elem? zero (x ∷ xs) (y ∷ ys) h = ap some h.0
  Alike-get_elem? (suc k) (x ∷ xs) (y ∷ ys) h = Alike-get_elem? k xs ys h

  length-add :
      (xs : List (Connection tokio)) (x : Connection tokio)
      → length (add tokio xs x) ≡ suc (length xs)
  length-add [] x = refl
  length-add (y ∷ ys) x = ap suc (length-add ys x)

  length-forward_at :
      (i : ℕ) (xs : List (Connection tokio)) → length (forward_at tokio plain_addr i xs) ≡ length xs
  unfolding forward_at
  length-forward_at i [] = refl
  length-forward_at zero (x ∷ xs) = refl
  length-forward_at (suc i) (x ∷ xs) = ap suc (length-forward_at i xs)

  add-Alike :
      (k : ℕ) (xs ys : List (Connection tokio)) (x : Connection tokio)
      → Alike k xs ys
      → Alike k (add tokio xs x) (add tokio ys x)
  add-Alike zero [] [] x h = (refl, refl)
  add-Alike (suc k) [] [] x h = tt
  add-Alike k [] (y ∷ ys) x h = absurd h
  add-Alike k (z ∷ zs) [] x h = absurd h
  add-Alike zero (z ∷ zs) (y ∷ ys) x h = (h.0, length-add zs x ∙ ap suc h.1 ∙ sym (length-add ys x))
  add-Alike (suc k) (z ∷ zs) (y ∷ ys) x h = add-Alike k zs ys x h

  -- The connection itself goes on.
  forward_at-Alike :
      (k : ℕ) (xs ys : List (Connection tokio))
      → Alike k xs ys
      → Alike k (forward_at tokio plain_addr k xs) (forward_at tokio plain_addr k ys)
  unfolding forward_at
  forward_at-Alike k [] [] h = tt
  forward_at-Alike k [] (y ∷ ys) h = absurd h
  forward_at-Alike k (x ∷ xs) [] h = absurd h
  forward_at-Alike zero (x ∷ xs) (y ∷ ys) h = (ap (forward tokio plain_addr) h.0, h.1)
  forward_at-Alike (suc k) (x ∷ xs) (y ∷ ys) h = forward_at-Alike k xs ys h

  -- Another one goes on.
  other-Alike :
      (i k : ℕ) (xs ys : List (Connection tokio))
      → (i == k) ≡ false
      → Alike k xs ys
      → Alike k (forward_at tokio plain_addr i xs) ys
  unfolding forward_at
  other-Alike i k [] [] n h = tt
  other-Alike i k [] (y ∷ ys) n h = absurd h
  other-Alike i k (x ∷ xs) [] n h = absurd h
  other-Alike zero zero (x ∷ xs) (y ∷ ys) n h = absurd cc
  other-Alike zero (suc k) (x ∷ xs) (y ∷ ys) n h = h
  other-Alike (suc i) zero (x ∷ xs) (y ∷ ys) n h = (h.0, length-forward_at i xs ∙ h.1)
  other-Alike (suc i) (suc k) (x ∷ xs) (y ∷ ys) n h = other-Alike i k xs ys (ground arith) h

  proxy-Alike :
      (k : ℕ) (es : List (Event tokio)) (xs ys : List (Connection tokio))
      → Alike k xs ys
      → Alike k (proxy tokio plain_addr es xs) (proxy tokio plain_addr (only k es) ys)
  unfolding proxy happens
  proxy-Alike k [] xs ys h = h
  proxy-Alike k (accepted tcp k' ∷ es) xs ys h =
      proxy-Alike k es _ _ (add-Alike k xs ys (shaking tcp k') h)
  proxy-Alike k (fails e ∷ es) xs ys h = proxy-Alike k es xs ys h
  proxy-Alike k (goes_on i ∷ es) xs ys h = elim (Bool-cases (i == k)) [
    | inl same ↦ rw (same, (==_iff i k).0 same) (proxy-Alike k es _ _ (forward_at-Alike k xs ys h))
    | inr other ↦ rw other (proxy-Alike k es _ ys (other-Alike i k xs ys other h))
  ]

  length-proxy :
      (es : List (Event tokio)) (xs : List (Connection tokio))
      → length (proxy tokio plain_addr es xs) ≡ length xs + length (arrivals tokio plain_addr es)
  unfolding proxy happens
  length-proxy [] xs = omega arith
  length-proxy (accepted tcp k' ∷ es) xs =
      omega (arith, length-proxy es (add tokio xs (shaking tcp k')), length-add xs (shaking tcp k'))
  length-proxy (fails e ∷ es) xs = length-proxy es xs
  length-proxy (goes_on i ∷ es) xs =
      omega (arith, length-proxy es (forward_at tokio plain_addr i xs), length-forward_at i xs)

  -- Whatever arrives, fails and goes on, in any order: each connection that the listener accepted has
  -- a task of its own, also after errors of the listener, and each task stands where it would stand
  -- if no other connection had had a turn.
  pub connections_are_apart :
      (es : List (Event tokio))
      → (length (proxy tokio plain_addr es []) ≡ length (arrivals tokio plain_addr es))
        × ((k : ℕ)
            → get_elem? tokio plain_addr (proxy tokio plain_addr es []) k
              ≡ get_elem? tokio plain_addr (proxy tokio plain_addr (only k es) []) k)
  connections_are_apart es =
      (omega (arith, length-proxy es []), λ k. Alike-get_elem? k _ _ (proxy-Alike k es [] [] tt))
