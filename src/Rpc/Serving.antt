-- ===== src/Rpc/Serving.antt =====
-- src/rpc/server.rs: which addresses may be served without TLS, and the limit on a request's body.
use tari_vault.Base.{
  ℕ, ◌+◌, ◌-◌, ◌^◌, ◌≤◌, min, Bytes, ◌≡◌, refl, Bool, true, false, ◌&&◌, ◌||◌, Option, none, some,
  Result, ok, err, panic, if◌then◌else◌, leb, ◌==◌, arith, Bool-cases, Option-cases, inl, inr, ◌⊎◌,
}
use tari_vault.Auth.{BearerAuthLayer, from_config}

-- `std::net::SocketAddr`: four bytes or eight groups, and a port.
pub data SocketAddr : Type 0 where
  v4 : ℕ → ℕ → ℕ → ℕ → ℕ → SocketAddr
  v6 : ℕ → ℕ → ℕ → ℕ → ℕ → ℕ → ℕ → ℕ → ℕ → SocketAddr

-- `IpAddr::is_loopback`: 127.0.0.0/8, or ::1.
unfoldable pub is_loopback : SocketAddr → Bool
is_loopback (v4 a b c d port) = a == 127
is_loopback (v6 a b c d e f g h port) =
    a == 0 && b == 0 && c == 0 && d == 0 && e == 0 && f == 0 && g == 0 && h == 1

pub record TlsConfig : Type 0 where
  pub cert_path : Bytes
  pub key_path : Bytes

unfoldable pub usize_max : ℕ
usize_max = 2 ^ 64 - 1

unfoldable pub u32_max : ℕ
u32_max = 2 ^ 32 - 1

-- `usize::saturating_add` on a 64-bit target.
saturating_add : ℕ → ℕ → ℕ
unfolding usize_max
saturating_add a b = if leb (a + b) usize_max then a + b else usize_max

-- `try_into().unwrap_or(u32::MAX)`
unfoldable pub http_body_limit : ℕ → ℕ
unfolding saturating_add u32_max
http_body_limit max_proof_size_bytes =
    let n = saturating_add max_proof_size_bytes 4096 in if leb n u32_max then n else u32_max

-- How the server listens: the address, the layer, and the limit on a body. Over TLS the plain server
-- stands on a loopback port of its own.
pub data Listener : Type 0 where
  plain : Bytes → BearerAuthLayer → ℕ → Listener
  tls : Bytes → TlsConfig → BearerAuthLayer → ℕ → Listener

pub data Refusal : Type 0 where
  invalid_address : Refusal
  not_loopback : Refusal

-- `parse` is the `FromStr` of `SocketAddr`.
module _ (parse : Bytes → Option SocketAddr) where
  check_address : Option SocketAddr → Result Refusal (Unit {0})
  check_address none = err invalid_address
  check_address (some addr) = if is_loopback addr then ok tt else err not_loopback

  has_tls : Option TlsConfig → Bool
  has_tls none = false
  has_tls (some cfg) = true

  check_tls_for_non_loopback : Bytes → Option TlsConfig → Bool → Result Refusal (Unit {0})
  unfolding check_address has_tls
  check_tls_for_non_loopback bind_addr cfg insecure_no_tls =
      if has_tls cfg || insecure_no_tls then ok tt else check_address (parse bind_addr)

  unfoldable pub listener : Bytes → Option TlsConfig → BearerAuthLayer → ℕ → Listener
  listener bind_addr none auth limit = plain bind_addr auth limit
  listener bind_addr (some cfg) auth limit = tls bind_addr cfg auth limit

  start : Result Refusal (Unit {0}) → Listener → Result Refusal Listener
  start (ok _) l = ok l
  start (err e) l = err e
  start panic l = panic

  unfoldable pub start_server :
      Bytes → Option Bytes → Option TlsConfig → Bool → ℕ → Result Refusal Listener
  unfolding check_tls_for_non_loopback listener start
  start_server bind_addr auth_token cfg insecure_no_tls max_proof_size_bytes =
      start (check_tls_for_non_loopback bind_addr cfg insecure_no_tls)
        (listener bind_addr cfg (from_config auth_token) (http_body_limit max_proof_size_bytes))

  start-listener :
      (check : Result Refusal (Unit {0})) (l l' : Listener) → start check l ≡ ok l' → l ≡ l'
  unfolding start
  start-listener (ok _) l l' e = cc
  start-listener (err x) l l' e = cc
  start-listener panic l l' e = cc

  -- A start that passes its checks makes the listener that the configuration asks for.
  pub start_server-listener :
      (bind_addr : Bytes) (auth_token : Option Bytes) (cfg : Option TlsConfig) (insecure : Bool)
      (max : ℕ) (l : Listener)
      → start_server bind_addr auth_token cfg insecure max ≡ ok l
      → listener bind_addr cfg (from_config auth_token) (http_body_limit max) ≡ l
  unfolding start_server
  start_server-listener bind_addr auth_token cfg insecure max l e =
      start-listener (check_tls_for_non_loopback bind_addr cfg insecure) _ l e

  -- If the server starts in plain HTTP, then no TLS was configured, and either the flag allows it
  -- or the address is read as one of the loopback interface.
  pub plain_is_allowed :
      (bind_addr : Bytes) (auth_token : Option Bytes) (cfg : Option TlsConfig) (insecure : Bool)
      (max limit : ℕ) (at : Bytes) (auth : BearerAuthLayer)
      → start_server bind_addr auth_token cfg insecure max ≡ ok (plain at auth limit)
      → (cfg ≡ none)
        × ((insecure ≡ true)
            ⊎ ((addr : SocketAddr) × (parse bind_addr ≡ some addr) × (is_loopback addr ≡ true)))
  unfolding start_server
  plain_is_allowed bind_addr auth_token (some c) insecure max limit at auth h = ground arith
  plain_is_allowed bind_addr auth_token none true max limit at auth h = (refl, inl refl)
  plain_is_allowed bind_addr auth_token none false max limit at auth h =
      elim (Option-cases (parse bind_addr)) [
        | inl e ↦ absurd (let h' = rw e at h in cc)
        | inr (addr, e) ↦ elim (Bool-cases (is_loopback addr)) [
          | inl local ↦ (refl, inr (addr, e, local))
          | inr other ↦ absurd (let h' = rw (e, other) at h in cc)
        ]
      ]

-- The limit is a `u32`; it is the size of a proof and 4096 bytes more wherever that fits.
pub http_body_limit_bounds :
    (max : ℕ) → (http_body_limit max ≤ u32_max) × (http_body_limit max ≡ min (max + 4096) u32_max)
unfolding http_body_limit
http_body_limit_bounds max = ground arith
