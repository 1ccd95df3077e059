-- ===== src/Rpc/Proxy.antt =====
-- The task that `start_tls` of src/rpc/server.rs spawns: a loop that accepts connections, and one task
-- for each of them, which is cut at its `.await`s. Tokio and rustls are parameters.
pub mod Safety
pub mod Apart
use Prim.Native.String.{String}
use tari_vault.Base.{ℕ, zero, suc, Bytes, List, [], ◌∷◌, Result, ok, err, panic}

-- What a connection comes to: the TLS handshake of `TlsAcceptor::accept` on it, a connection that is
-- opened to an address, and the copying between the two, in both directions. Two calls of `connect` with
-- one address may come out differently: an attempt is what the environment does to a call of it.
pub record Tokio : Type 1 where
  pub Tcp : Type 0
  pub TlsStream : Type 0
  pub TcpStream : Type 0
  pub Attempt : Type 0
  pub accept : Tcp → Result String TlsStream
  pub connect : Bytes → Attempt → Result String TcpStream
  pub copy_bidirectional : TlsStream → TcpStream → Result String (ℕ × ℕ)

module _ (tokio : Tokio) where
  open tokio use {Tcp, TlsStream, TcpStream, Attempt}

  -- Where the task of a connection stands: it awaits the handshake, the connection to the plain
  -- server, or the end of the copying. Its attempt is drawn when it starts.
  pub data Connection : Type 0 where
    shaking : Tcp → Attempt → Connection
    connecting : Attempt → TlsStream → Connection
    copying : TlsStream → TcpStream → Connection
    ended : Connection

  -- A failure is logged and ends the task; a panic ends it too.
  after_handshake : Attempt → Result String TlsStream → Connection
  after_handshake k (ok tls_stream) = connecting k tls_stream
  after_handshake k (err e) = ended
  after_handshake k panic = ended

  after_connect : TlsStream → Result String TcpStream → Connection
  after_connect tls_stream (ok plain_stream) = copying tls_stream plain_stream
  after_connect tls_stream (err e) = ended
  after_connect tls_stream panic = ended

  -- Whatever `copy_bidirectional` returns, the task is over.
  after_copy : Result String (ℕ × ℕ) → Connection
  after_copy (ok counts) = ended
  after_copy (err e) = ended
  after_copy panic = ended

  unfoldable pub forward : Bytes → Connection → Connection
  unfolding after_handshake after_connect after_copy
  forward plain_addr (shaking tcp k) = after_handshake k (tokio.accept tcp)
  forward plain_addr (connecting k tls_stream) =
      after_connect tls_stream (tokio.connect plain_addr k)
  forward plain_addr (copying tls_stream plain_stream) =
      after_copy (tokio.copy_bidirectional tls_stream plain_stream)
  forward plain_addr ended = ended

  -- `tls_listener.accept()` returns a connection or an error, or a connection's task goes on.
  pub data Event : Type 0 where
    accepted : Tcp → Attempt → Event
    fails : String → Event
    goes_on : ℕ → Event

  abbrev add : List Connection → Connection → List Connection
  add [] x = x ∷ []
  add (y ∷ ys) x = y ∷ add ys x

  forward_at : Bytes → ℕ → List Connection → List Connection
  unfolding forward
  forward_at plain_addr i [] = []
  forward_at plain_addr zero (x ∷ xs) = forward plain_addr x ∷ xs
  forward_at plain_addr (suc i) (x ∷ xs) = x ∷ forward_at plain_addr i xs

  -- A round of the loop gives a connection a task of its own, and passes an error over.
  happens : Bytes → Event → List Connection → List Connection
  unfolding forward_at
  happens plain_addr (accepted tcp k) xs = add xs (shaking tcp k)
  happens plain_addr (fails e) xs = xs
  happens plain_addr (goes_on i) xs = forward_at plain_addr i xs

  unfoldable pub proxy : Bytes → List Event → List Connection → List Connection
  unfolding happens
  proxy plain_addr [] xs = xs
  proxy plain_addr (e ∷ es) xs = proxy plain_addr es (happens plain_addr e xs)
