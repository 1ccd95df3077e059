-- ===== src/Rpc/Listening/Safety.antt =====
-- Rpc.Listening: which sockets a start opens, whatever fails.
use Prim.Native.String.{String}
use tari_vault.Base.{
  ℕ, Bytes, ◌≡◌, ◌≢◌, refl, sym, ◌∙◌, ap, Bool, true, Option, none, some, List, ◌∷◌, All, Result,
  ok, err, panic, pure, ◌>>=◌, ◌>>◌, Option-cases, Result-cases, inl, inr, ◌⊎◌, subst, continue,
}
use tari_vault.Storage.Faults.{outcome, later}
use tari_vault.Auth.{BearerAuthLayer, from_config}
use tari_vault.Rpc.Serving.{
  SocketAddr, is_loopback, TlsConfig, Listener, plain, tls, start_server, plain_is_allowed,
  http_body_limit, listener, start_server-listener,
}
use tari_vault.Rpc.Listening.{
  Socket, http, https, Net, Op, answer, call, serve_on, Rustls, loopback_any, read,
  build_tls_acceptor, start_plain, start_proxy, start_tls, listen,
}

-- What `m` keeps of the sockets, and what it ends in when it succeeds.
module _ (P : Socket → Type 0) where
  abbrev Keeps : {A : Type 0} → Op A → Type 0
  Keeps m = (n : Net) → All P n.sockets → All P (m n).1.sockets

  continue-Keeps :
      {A B : Type 0} (r : Result String A) (k : A → Op B) (n : Net)
      → ((a : A) → Keeps (k a))
      → All P n.sockets
      → All P (continue r k n).1.sockets
  continue-Keeps (ok a) k n keeps h = keeps a n h
  continue-Keeps (err e) k n keeps h = h
  continue-Keeps panic k n keeps h = h

  bind-Keeps :
      {A B : Type 0} (m : Op A) (k : A → Op B) → Keeps m → ((a : A) → Keeps (k a)) → Keeps (m >>= k)
  bind-Keeps m k first then_all n h = continue-Keeps (m n).0 k (m n).1 then_all (first n h)

  call-Keeps : Keeps call
  unfolding call
  call-Keeps n h = h

  serve_on-Keeps : (socket : Socket) → P socket → Keeps (serve_on socket)
  unfolding serve_on
  serve_on-Keeps socket p n h = (p, h)

  module _ (rustls : Rustls) where
    read-Keeps : (path : Bytes) → Keeps (read rustls path)
    unfolding read
    read-Keeps path = bind-Keeps call (λ _. pure (rustls.contents path)) call-Keeps (λ _ n h. h)

    build_tls_acceptor-Keeps : (cfg : TlsConfig) → Keeps (build_tls_acceptor rustls cfg)
    unfolding build_tls_acceptor
    build_tls_acceptor-Keeps cfg =
        bind-Keeps (read rustls cfg.cert_path) _ (read-Keeps cfg.cert_path)
          (λ c. bind-Keeps (read rustls cfg.key_path) _ (read-Keeps cfg.key_path) (λ k n h. h))

    started-Keeps : (socket : Socket) → P socket → Keeps (call >> (call >> serve_on socket))
    started-Keeps socket p =
        bind-Keeps call (λ _. call >> serve_on socket) call-Keeps
          (λ _. bind-Keeps call (λ _. serve_on socket) call-Keeps (λ _. serve_on-Keeps socket p))

    start_tls-Keeps :
        (bind_addr : Bytes) (cfg : TlsConfig) (auth : BearerAuthLayer) (limit : ℕ)
        → P (http loopback_any auth limit)
        → P (https bind_addr)
        → Keeps (start_tls rustls bind_addr cfg auth limit)
    unfolding start_tls start_plain start_proxy
    start_tls-Keeps bind_addr cfg auth limit inner outer =
        let proxy = call >> (call >> serve_on (https bind_addr)) in
        let server = call >> (call >> serve_on (http loopback_any auth limit)) in
        bind-Keeps (build_tls_acceptor rustls cfg) (λ _. server >> proxy)
          (build_tls_acceptor-Keeps cfg)
          (λ _.
            bind-Keeps server (λ _. proxy) (started-Keeps (http loopback_any auth limit) inner)
              (λ _. started-Keeps (https bind_addr) outer))

-- A step that has succeeded, and the one before it.
continue-ok :
    {A B : Type 0} (r : Result String A) (k : A → Op B) (n : Net) (b : B)
    → (continue r k n).0 ≡ ok b
    → (a : A) × (r ≡ ok a) × (continue r k n ≡ k a n)
continue-ok (ok a) k n b e = (a, refl, refl)
continue-ok (err x) k n b e = cc
continue-ok panic k n b e = cc

-- The last step of a chain that has succeeded.
ends :
    {A B : Type 0} (m : Op A) (k : A → Op B) (n : Net) (b : B)
    → ((m >>= k) n).0 ≡ ok b
    → (a : A) × ((m >>= k) n ≡ k a (m n).1)
ends m k n b e = let (a, _, same) = continue-ok (m n).0 k (m n).1 b e in (a, same)

started-ok :
    (socket : Socket) (n : Net) (u : Unit {0})
    → ((call >> (call >> serve_on socket)) n).0 ≡ ok u
    → ((call >> (call >> serve_on socket)) n).1.sockets ≡ socket ∷ n.sockets
unfolding call answer serve_on
started-ok socket n u e = elim (Option-cases (outcome n.faults)) [
  | inr (x, fails) ↦ let bad = rw fails at e in absurd cc
  | inl works ↦ elim (Option-cases (outcome (later n.faults))) [
    | inr (x, fails) ↦ let bad = rw (works, fails) at e in absurd cc
    | inl also ↦ rw (works, also) refl
  ]
]

-- The socket that clients are to use.
abbrev pub public_socket : Listener → Socket
public_socket (plain at auth limit) = http at auth limit
public_socket (tls at cfg auth limit) = https at

module _ (rustls : Rustls) where
  -- A start that succeeds has opened the socket that clients are to use.
  listen-ok :
      (l : Listener) (n : Net) (u : Unit {0})
      → (listen rustls l n).0 ≡ ok u
      → (rest : List Socket) × ((listen rustls l n).1.sockets ≡ public_socket l ∷ rest)
  unfolding listen start_tls start_plain start_proxy
  listen-ok (plain at auth limit) n u e = (n.sockets, started-ok (http at auth limit) n u e)
  listen-ok (tls at cfg auth limit) n u e =
      let proxy = call >> (call >> serve_on (https at)) in
      let server = call >> (call >> serve_on (http loopback_any auth limit)) in
      let (a, first) = ends (build_tls_acceptor rustls cfg) (λ _. server >> proxy) n u e in
      let n1 = (build_tls_acceptor rustls cfg n).1 in
      let (b, second) = ends server (λ _. proxy) n1 u (ap (λ p. p.0) (sym first) ∙ e) in
      let n2 = (server n1).1 in
      let last = started-ok (https at) n2 u (ap (λ p. p.0) (sym (first ∙ second)) ∙ e) in
      (n2.sockets, ap (λ p. p.1.sockets) (first ∙ second) ∙ last)

  module _ (parse : Bytes → Option SocketAddr) (bind_addr : Bytes) (auth_token : Option Bytes)
      (cfg : Option TlsConfig) (insecure_no_tls : Bool) (max : ℕ) where
    -- What may stand at an address: plain HTTP on a loopback port, or at the configured address where no TLS is
    -- configured and the flag or a loopback address allows it, behind the configured layer and limit; and TLS at the
    -- configured address where it is configured.
    abbrev pub Allowed : Socket → Type 0
    Allowed (http at auth limit) =
        ((at ≡ loopback_any)
          ⊎ ((at ≡ bind_addr)
              × (cfg ≡ none)
              × ((insecure_no_tls ≡ true)
                  ⊎ ((addr : SocketAddr) × (parse bind_addr ≡ some addr)
                      × (is_loopback addr ≡ true)))))
        × (auth ≡ from_config auth_token)
        × (limit ≡ http_body_limit max)
    Allowed (https at) = (at ≡ bind_addr) × ((c : TlsConfig) × (cfg ≡ some c))

    listen-Allowed :
        (c : Option TlsConfig) (l : Listener) (n : Net)
        → cfg ≡ c
        → start_server parse bind_addr auth_token cfg insecure_no_tls max ≡ ok l
        → listener parse bind_addr c (from_config auth_token) (http_body_limit max) ≡ l
        → All Allowed n.sockets
        → All Allowed (listen rustls l n).1.sockets
    unfolding listener listen start_plain
    listen-Allowed none l n bare passed is h =
        let auth = from_config auth_token in
        let limit = http_body_limit max in
        let (_, reason) =
          plain_is_allowed parse bind_addr auth_token cfg insecure_no_tls max limit bind_addr auth
            (passed ∙ ap ok (sym is)) in
        let keeps =
          started-Keeps Allowed rustls (http bind_addr auth limit)
            (inr (refl, bare, reason), refl, refl) in
        subst (λ l. All Allowed (listen rustls l n).1.sockets) is (keeps n h)
    listen-Allowed (some c) l n given passed is h =
        let auth = from_config auth_token in
        let limit = http_body_limit max in
        let keeps =
          start_tls-Keeps Allowed rustls bind_addr c auth limit (inl refl, refl, refl)
            (refl, (c, given)) in
        subst (λ l. All Allowed (listen rustls l n).1.sockets) is (keeps n h)

    -- When the checks of `start_server` let a listener pass, whatever calls of the environment fail while it starts:
    -- every socket that is opened is an allowed one, and the start either fails or has opened the one clients are to use.
    pub listens_safely :
        (l : Listener) (n : Net)
        → start_server parse bind_addr auth_token cfg insecure_no_tls max ≡ ok l
        → All Allowed n.sockets
        → All Allowed (listen rustls l n).1.sockets
          × (((listen rustls l n).0 ≢ ok tt)
              ⊎ ((rest : List Socket) × ((listen rustls l n).1.sockets ≡ public_socket l ∷ rest)))
    listens_safely l n passed h = (
      listen-Allowed cfg l n refl passed
          (start_server-listener parse bind_addr auth_token cfg insecure_no_tls max l passed) h,
      elim (Result-cases (listen rustls l n).0) [
        | inl (u, e) ↦ inr (listen-ok l n u e)
        | inr (inl (x, e)) ↦ inl (λ h. cc)
        | inr (inr e) ↦ inl (λ h. cc)
      ],
    )
