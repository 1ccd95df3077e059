-- ===== src/Startup/Safety.antt =====
-- What a process that has started is known to do, and which settings reach it.
use tari_vault.Base.{
  ℕ, Bytes, true, Option, none, some, ◌≡◌, refl, ap, ◌∙◌, Result, ok, Exec, arith, inl, inr, ◌⊎◌,
  Option-cases, Result-cases,
}
use tari_vault.Error.{StorageError}
use tari_vault.Domain.Chrono.{Instant}
use tari_vault.Storage.Backend.{StorageBackend}
use tari_vault.Vault.{Crypto, cleanup}
use tari_vault.Rpc.Serving.{
  SocketAddr, is_loopback, TlsConfig, plain, start_server, plain_is_allowed,
}
use tari_vault.Auth.{BearerAuthLayer}
use tari_vault.Startup.{
  VaultConfig, Cli, Location, Running, StartError, overridden, parsed, tls_pair, start_process,
  serve, location,
}

-- With any flags, two configurations give one level of the log.
pub log_level_ignores_config :
    (cli : Cli) (cfg cfg' : VaultConfig)
    → (overridden (parsed cli) cfg).logging.level ≡ (overridden (parsed cli) cfg').logging.level
unfolding overridden parsed
log_level_ignores_config cli cfg cfg' = elim (Option-cases cli.log_level) [
  | inl absent ↦ rw absent
  | inr (level, given) ↦ rw given
]

tls_pair-none : (a b : Option Bytes) → tls_pair a b ≡ ok none → (a ≡ none) × (b ≡ none)
unfolding tls_pair
tls_pair-none none none h = (refl, refl)
tls_pair-none none (some b) h = cc
tls_pair-none (some a) none h = cc
tls_pair-none (some a) (some b) h = absurd (ground arith)

module _ {S : Type 0} (crypto : Crypto) (parse : Bytes → Option SocketAddr)
    (with_file_name : Bytes → Bytes) (open_store : Location → Exec S StorageError (Unit {0}))
    (backend : Location → StorageBackend S) where
  abbrev started : Instant → Cli → VaultConfig → S → Result StartError Running × S
  started = start_process crypto parse with_file_name open_store backend

  -- The configuration that the flags leave.
  abbrev settled : Cli → VaultConfig → VaultConfig
  settled cli loaded = overridden (parsed cli) loaded

  abbrev Serving : VaultConfig → Running → Type 0
  Serving cfg r =
      (t : Option TlsConfig) × (tls_pair cfg.server.tls_cert_path cfg.server.tls_key_path ≡ ok t)
      × (start_server parse cfg.server.bind_address cfg.server.auth_token t
            cfg.server.insecure_no_tls cfg.server.max_proof_size_bytes
          ≡ ok r.listener)

  served-Serving :
      (cfg : VaultConfig) (s : S) (r : Running)
      → (serve crypto parse with_file_name open_store backend cfg s).0 ≡ ok r
      → Serving cfg r
  unfolding serve
  served-Serving cfg s r h =
      elim (Result-cases (tls_pair cfg.server.tls_cert_path cfg.server.tls_key_path)) [
        | inl (t, pair) ↦ (t, pair, (let h' = rw pair at h in ground arith))
        | inr (inl (e, pair)) ↦ let h' = rw pair at h in absurd (ground arith)
        | inr (inr pair) ↦ let h' = rw pair at h in absurd (ground arith)
      ]

  started-Serving :
      (now : Instant) (cli : Cli) (loaded : VaultConfig) (s : S) (r : Running)
      → (started now cli loaded s).0 ≡ ok r
      → Serving (settled cli loaded) r
  unfolding start_process
  started-Serving now cli loaded s r h =
      let cfg = settled cli loaded in
      let place = location with_file_name cfg.storage in
      let opened = open_store place s in
      let swept = cleanup crypto (backend place) now opened.1 in
      elim (Result-cases opened.0) [
        | inl (_, opens) ↦ elim (Result-cases swept.0) [
          | inl (n, sweeps) ↦ served-Serving cfg swept.1 r (rw (opens, sweeps) at h)
          | inr (inl (e, fails)) ↦ let h' = rw (opens, fails) at h in absurd (ground arith)
          | inr (inr fails) ↦ let h' = rw (opens, fails) at h in absurd (ground arith)
        ]
        | inr (inl (e, fails)) ↦ let h' = rw fails at h in absurd (ground arith)
        | inr (inr fails) ↦ let h' = rw fails at h in absurd (ground arith)
      ]

  -- A process that has started in plain HTTP has neither a certificate nor a key in the
  -- configuration that the flags leave, and either is told to do without TLS or has an address that
  -- is read as one of the loopback interface.
  pub plain_process_is_allowed :
      (now : Instant) (cli : Cli) (loaded : VaultConfig) (s : S) (r : Running) (at : Bytes)
      (auth : BearerAuthLayer) (limit : ℕ)
      → (started now cli loaded s).0 ≡ ok r
      → r.listener ≡ plain at auth limit
      → let cfg = (settled cli loaded).server in
        (cfg.tls_cert_path ≡ none)
        × (cfg.tls_key_path ≡ none)
        × ((cfg.insecure_no_tls ≡ true)
            ⊎ ((addr : SocketAddr) × (parse cfg.bind_address ≡ some addr)
                × (is_loopback addr ≡ true)))
  plain_process_is_allowed now cli loaded s r at auth limit h e =
      let (t, pair, serving) = started-Serving now cli loaded s r h in
      let cfg = (settled cli loaded).server in
      let (bare, allowed) =
        plain_is_allowed parse cfg.bind_address cfg.auth_token t cfg.insecure_no_tls
          cfg.max_proof_size_bytes limit at auth (serving ∙ ap ok e) in
      let (no_cert, no_key) = tls_pair-none _ _ (rw bare at pair) in (no_cert, no_key, allowed)
