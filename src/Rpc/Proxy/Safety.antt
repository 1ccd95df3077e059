-- ===== src/Rpc/Proxy/Safety.antt =====
-- What the TLS proxy of src/rpc/server.rs passes on, and between whom.
use tari_vault.Base.{
  ℕ, zero, suc, Bytes, ◌≡◌, refl, subst, Option, none, some, List, [], ◌∷◌, All, In, ok,
  Result-cases, inl, inr,
}
use tari_vault.Rpc.Proxy.{
  Tokio, Connection, shaking, connecting, copying, ended, forward, Event, accepted, fails, goes_on,
  add, forward_at, happens, proxy,
}

module _ (tokio : Tokio) (plain_addr : Bytes) where
  open tokio use {Tcp, TlsStream, TcpStream, Attempt}

  -- The connections that were accepted, each with the attempt of its task.
  abbrev pub arrivals : List (Event tokio) → List (Tcp × Attempt)
  arrivals [] = []
  arrivals (accepted tcp k ∷ es) = (tcp, k) ∷ arrivals es
  arrivals (fails e ∷ es) = arrivals es
  arrivals (goes_on i ∷ es) = arrivals es

  -- What a task has in hand comes from a connection that `P` holds of.
  abbrev ComesFrom : (Tcp → Attempt → Type 0) → Connection tokio → Type 0
  ComesFrom P (shaking tcp k) = P tcp k
  ComesFrom P (connecting k tls_stream) = (tcp : Tcp) × P tcp k × (tokio.accept tcp ≡ ok tls_stream)
  ComesFrom P (copying tls_stream plain_stream) =
      (tcp : Tcp) × (k : Attempt) × P tcp k
      × (tokio.accept tcp ≡ ok tls_stream)
      × (tokio.connect plain_addr k ≡ ok plain_stream)
  ComesFrom P ended = Unit

  forward-ComesFrom :
      (P : Tcp → Attempt → Type 0) (x : Connection tokio)
      → ComesFrom P x
      → ComesFrom P (forward tokio plain_addr x)
  unfolding forward
  forward-ComesFrom P (shaking tcp k) h = elim (Result-cases (tokio.accept tcp)) [
    | inl (tls_stream, e) ↦ rw e (tcp, h, e)
    | inr (inl (x, e)) ↦ rw e tt
    | inr (inr e) ↦ rw e tt
  ]
  forward-ComesFrom P (connecting k tls_stream) h =
      elim (Result-cases (tokio.connect plain_addr k)) [
        | inl (plain_stream, e) ↦ rw e (h.0, k, h.1, h.2, e)
        | inr (inl (x, e)) ↦ rw e tt
        | inr (inr e) ↦ rw e tt
      ]
  forward-ComesFrom P (copying tls_stream plain_stream) h =
      elim (Result-cases (tokio.copy_bidirectional tls_stream plain_stream)) [
        | inl (n, e) ↦ rw e tt
        | inr (inl (x, e)) ↦ rw e tt
        | inr (inr e) ↦ rw e tt
      ]
  forward-ComesFrom P ended h = tt

  forward_at-ComesFrom :
      (P : Tcp → Attempt → Type 0) (i : ℕ) (xs : List (Connection tokio))
      → All (ComesFrom P) xs
      → All (ComesFrom P) (forward_at tokio plain_addr i xs)
  unfolding forward_at
  forward_at-ComesFrom P i [] h = tt
  forward_at-ComesFrom P zero (x ∷ xs) h = (forward-ComesFrom P x h.0, h.1)
  forward_at-ComesFrom P (suc i) (x ∷ xs) h = (h.0, forward_at-ComesFrom P i xs h.1)

  add-ComesFrom :
      (P : Tcp → Attempt → Type 0) (xs : List (Connection tokio)) (tcp : Tcp) (k : Attempt)
      → All (ComesFrom P) xs
      → P tcp k
      → All (ComesFrom P) (add tokio xs (shaking tcp k))
  add-ComesFrom P [] tcp k h p = (p, tt)
  add-ComesFrom P (x ∷ xs) tcp k h p = (h.0, add-ComesFrom P xs tcp k h.1 p)

  proxy-ComesFrom :
      (P : Tcp → Attempt → Type 0) (es : List (Event tokio)) (xs : List (Connection tokio))
      → ((tcp : Tcp) (k : Attempt) → In (tcp, k) (arrivals es) → P tcp k)
      → All (ComesFrom P) xs
      → All (ComesFrom P) (proxy tokio plain_addr es xs)
  unfolding proxy happens
  proxy-ComesFrom P [] xs p h = h
  proxy-ComesFrom P (accepted tcp k ∷ es) xs p h =
      proxy-ComesFrom P es (add tokio xs (shaking tcp k)) (λ t j there. p t j (inr there))
        (add-ComesFrom P xs tcp k h (p tcp k (inl refl)))
  proxy-ComesFrom P (fails e ∷ es) xs p h = proxy-ComesFrom P es xs p h
  proxy-ComesFrom P (goes_on i ∷ es) xs p h =
      proxy-ComesFrom P es (forward_at tokio plain_addr i xs) p (forward_at-ComesFrom P i xs h)

  abbrev pub get_elem? : List (Connection tokio) → ℕ → Option (Connection tokio)
  get_elem? [] i = none
  get_elem? (x ∷ xs) zero = some x
  get_elem? (x ∷ xs) (suc i) = get_elem? xs i

  at-ComesFrom :
      (P : Tcp → Attempt → Type 0) (xs : List (Connection tokio)) (i : ℕ) (x : Connection tokio)
      → All (ComesFrom P) xs
      → get_elem? xs i ≡ some x
      → ComesFrom P x
  at-ComesFrom P [] i x h e = absurd cc
  at-ComesFrom P (y ∷ ys) zero x h e = let same : y ≡ x = cc in subst (ComesFrom P) same h.0
  at-ComesFrom P (y ∷ ys) (suc i) x h e = at-ComesFrom P ys i x h.1 e

  -- Whatever arrives, fails and goes on, in any order: when the proxy copies between two streams, the
  -- one is what a TLS handshake has made of a connection that the listener accepted, and the other
  -- is a connection to the plain server that the task of that connection opened.
  pub forwards_tls_only :
      (es : List (Event tokio)) (i : ℕ) (tls_stream : TlsStream) (plain_stream : TcpStream)
      → get_elem? (proxy tokio plain_addr es []) i ≡ some (copying tls_stream plain_stream)
      → (tcp : Tcp) × (k : Attempt) × In (tcp, k) (arrivals es)
        × (tokio.accept tcp ≡ ok tls_stream)
        × (tokio.connect plain_addr k ≡ ok plain_stream)
  forwards_tls_only es i tls_stream plain_stream e =
      at-ComesFrom (λ tcp k. In (tcp, k) (arrivals es)) _ i (copying tls_stream plain_stream)
        (proxy-ComesFrom (λ tcp k. In (tcp, k) (arrivals es)) es [] (λ tcp k there. there) tt) e
