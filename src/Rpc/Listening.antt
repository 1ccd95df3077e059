-- ===== src/Rpc/Listening.antt =====
-- `start_plain`, `start_tls` and `build_tls_acceptor` of src/rpc/server.rs: the sockets that a start opens.
pub mod Safety
use Prim.Native.String.{String}
use tari_vault.Base.{
  ℕ, Bytes, Option, none, some, List, [], ◌∷◌, Result, ok, err, panic, Exec, pure, lift, ◌>>=◌,
  ◌>>◌,
}
use tari_vault.Storage.Faults.{Faults, outcome, later}
use tari_vault.Auth.{BearerAuthLayer}
use tari_vault.Rpc.Serving.{TlsConfig, Listener, plain, tls}

-- A socket that serves: plain HTTP at an address, behind a layer and a limit, or TLS in front of a plain server.
pub data Socket : Type 0 where
  http : Bytes → BearerAuthLayer → ℕ → Socket
  https : Bytes → Socket

-- The process's sockets, and which of the calls that leave the program fail.
pub record Net : Type 0 where
  pub sockets : List Socket
  pub faults : Faults

-- The text of the `anyhow::Error`, without its context.
abbrev Op : Type 0 → Type 0
Op A = Exec Net String A

answer : Option String → Result String (Unit {0})
answer none = ok tt
answer (some e) = err e

call : Op (Unit {0})
unfolding answer
call n = (answer (outcome n.faults), record n { faults = later n.faults })

serve_on : Socket → Op (Unit {0})
serve_on socket n = (ok tt, record n { sockets = socket ∷ n.sockets })

-- The files, `rustls_pemfile` and `rustls`.
pub record Rustls : Type 1 where
  pub Certs : Type 0
  pub Key : Type 0
  pub Acceptor : Type 0
  pub contents : Bytes → Bytes
  pub certs : Bytes → Result String Certs
  pub private_key : Bytes → Result String (Option Key)
  pub with_single_cert : Certs → Key → Result String Acceptor

-- "127.0.0.1:0"
abbrev pub loopback_any : Bytes
loopback_any = b'1' ∷ b'2' ∷ b'7' ∷ b'.' ∷ b'0' ∷ b'.' ∷ b'0' ∷ b'.' ∷ b'1' ∷ b':' ∷ b'0' ∷ []

module _ (rustls : Rustls) where
  read : Bytes → Op Bytes
  unfolding call
  read path = do call; pure (rustls.contents path)

  acceptor_of : Bytes → Bytes → Result String rustls.Acceptor
  acceptor_of cert_bytes key_bytes = elim (rustls.certs cert_bytes) [
    | err e ↦ err e
    | panic ↦ panic
    | ok certs ↦ elim (rustls.private_key key_bytes) [
      | err e ↦ err e
      | panic ↦ panic
      | ok none ↦ err "no private key found in TLS key file"
      | ok (some key) ↦ rustls.with_single_cert certs key
    ]
  ]

  unfoldable pub build_tls_acceptor : TlsConfig → Op rustls.Acceptor
  unfolding read acceptor_of
  build_tls_acceptor cfg = do
    cert_bytes ← read cfg.cert_path
    key_bytes ← read cfg.key_path
    lift (acceptor_of cert_bytes key_bytes)

  -- `build` binds the address; `local_addr` asks for it; `start` serves.
  unfoldable pub start_plain : Bytes → BearerAuthLayer → ℕ → Op (Unit {0})
  unfolding call serve_on
  start_plain bind_addr auth limit = do call; call; serve_on (http bind_addr auth limit)

  -- The public listener, and the task that takes its connections.
  start_proxy : Bytes → Op (Unit {0})
  unfolding call serve_on
  start_proxy bind_addr = do call; call; serve_on (https bind_addr)

  -- Behind the proxy a plain server like that of `start_plain` stands on a loopback port.
  unfoldable pub start_tls : Bytes → TlsConfig → BearerAuthLayer → ℕ → Op (Unit {0})
  unfolding build_tls_acceptor start_plain start_proxy
  start_tls bind_addr cfg auth limit = do
    build_tls_acceptor cfg
    start_plain loopback_any auth limit
    start_proxy bind_addr

  unfoldable pub listen : Listener → Op (Unit {0})
  unfolding start_plain start_tls
  listen (plain bind_addr auth limit) = start_plain bind_addr auth limit
  listen (tls bind_addr cfg auth limit) = start_tls bind_addr cfg auth limit
