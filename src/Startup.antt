-- ===== src/Startup.antt =====
-- src/config.rs and src/main.rs: the configuration, the flags that override it, and the start of the
-- process. A path is the list of its bytes.
pub mod Safety
pub mod Loading
pub mod Shutdown
use tari_vault.Base.{
  ℕ, Bytes, Bool, true, false, Option, none, some, [], ◌∷◌, Result, ok, err, map_err, Exec, pure,
  lift, mapping, ◌>>=◌, ◌>>◌, if◌then◌else◌, ltb,
}
use tari_vault.Error.{StorageError, VaultError}
use tari_vault.Domain.Chrono.{Instant}
use tari_vault.Storage.Backend.{StorageBackend}
use tari_vault.Vault.{Crypto, cleanup}
use tari_vault.Rpc.Serving.{SocketAddr, TlsConfig, Listener, Refusal, start_server}

pub data BackendKind : Type 0 where
  file : BackendKind
  sqlite : BackendKind

pub record ServerConfig : Type 0 where
  pub bind_address : Bytes
  pub auth_token : Option Bytes
  pub tls_cert_path : Option Bytes
  pub tls_key_path : Option Bytes
  pub insecure_no_tls : Bool
  pub max_proof_size_bytes : ℕ

pub record StorageConfig : Type 0 where
  pub vault_file : Bytes
  pub cleanup_interval_secs : ℕ
  pub backend : BackendKind
  pub sqlite_path : Option Bytes

pub record LoggingConfig : Type 0 where
  pub level : Bytes

pub record VaultConfig : Type 0 where
  pub server : ServerConfig
  pub storage : StorageConfig
  pub logging : LoggingConfig

abbrev pub info : Bytes
info = b'i' ∷ b'n' ∷ b'f' ∷ b'o' ∷ []

abbrev default_address : Bytes
default_address =
    b'1' ∷ b'2' ∷ b'7' ∷ b'.' ∷ b'0' ∷ b'.' ∷ b'0' ∷ b'.' ∷ b'1' ∷ b':' ∷ b'9' ∷ b'0' ∷ b'0' ∷ b'0'
    ∷ []

abbrev pub default_max_proof_size_bytes : ℕ
default_max_proof_size_bytes = 1048576

-- `VaultConfig::default`, over the path that `default_vault_path` makes of the platform's directory.
unfoldable pub default_config : Bytes → VaultConfig
default_config default_vault_path = record {
  server = record {
    bind_address = default_address;
    auth_token = none;
    tls_cert_path = none;
    tls_key_path = none;
    insecure_no_tls = false;
    max_proof_size_bytes = default_max_proof_size_bytes;
  };
  storage = record {
    vault_file = default_vault_path;
    cleanup_interval_secs = 300;
    backend = file;
    sqlite_path = none;
  };
  logging = record { level = info };
}

-- The flags as they stand on the command line, but for `--config`.
pub record Cli : Type 0 where
  pub vault_file : Option Bytes
  pub bind : Option Bytes
  pub cleanup_interval : Option ℕ
  pub log_level : Option Bytes
  pub auth_token : Option Bytes
  pub sqlite_path : Option Bytes
  pub tls_cert : Option Bytes
  pub tls_key : Option Bytes
  pub insecure_no_tls : Bool

or_default : Option Bytes → Bytes → Option Bytes
or_default none d = some d
or_default (some a) d = some a

-- `Cli::parse`: the one flag with a `default_value` is never absent afterwards.
unfoldable pub parsed : Cli → Cli
unfolding or_default
parsed cli = record cli { log_level = or_default cli.log_level info }

-- `if let Some(x) = flag { field = x; }`, and the same on an optional field.
unfoldable pub flag_or {ℓ} : {A : Type ℓ} → Option A → A → A
flag_or none old = old
flag_or (some new) old = new

unfoldable pub flag_or_else {ℓ} : {A : Type ℓ} → Option A → Option A → Option A
flag_or_else none old = old
flag_or_else (some new) old = some new

unfoldable pub overridden : Cli → VaultConfig → VaultConfig
unfolding flag_or flag_or_else
overridden cli cfg = record {
  server = record {
    bind_address = flag_or cli.bind cfg.server.bind_address;
    auth_token = flag_or_else cli.auth_token cfg.server.auth_token;
    tls_cert_path = flag_or_else cli.tls_cert cfg.server.tls_cert_path;
    tls_key_path = flag_or_else cli.tls_key cfg.server.tls_key_path;
    insecure_no_tls = if cli.insecure_no_tls then true else cfg.server.insecure_no_tls;
    max_proof_size_bytes = cfg.server.max_proof_size_bytes;
  };
  storage = record {
    vault_file = flag_or cli.vault_file cfg.storage.vault_file;
    cleanup_interval_secs = flag_or cli.cleanup_interval cfg.storage.cleanup_interval_secs;
    backend = cfg.storage.backend;
    sqlite_path = flag_or_else cli.sqlite_path cfg.storage.sqlite_path;
  };
  logging = record { level = flag_or cli.log_level cfg.logging.level };
}

-- What is opened, and where.
pub data Location : Type 0 where
  file_at : Bytes → Location
  sqlite_at : Bytes → Location

pub data StartError : Type 0 where
  open_failed : StorageError → StartError
  cleanup_failed : VaultError → StartError
  half_tls : StartError
  serve_failed : Refusal → StartError

-- What runs after the start: the period of the background sweep, if there is one, and the listener.
pub record Running : Type 0 where
  pub cleanup_interval : Option ℕ
  pub listener : Listener

-- `with_file_name` replaces the last component of a path, here by `vault.db`.
unfoldable pub sqlite_path_of : (Bytes → Bytes) → StorageConfig → Bytes
unfolding flag_or
sqlite_path_of with_file_name storage =
    flag_or storage.sqlite_path (with_file_name storage.vault_file)

location_of : (Bytes → Bytes) → StorageConfig → BackendKind → Location
unfolding sqlite_path_of
location_of with_file_name storage file = file_at storage.vault_file
location_of with_file_name storage sqlite = sqlite_at (sqlite_path_of with_file_name storage)

unfoldable pub location : (Bytes → Bytes) → StorageConfig → Location
unfolding location_of
location with_file_name storage = location_of with_file_name storage storage.backend

unfoldable pub sweep_interval : ℕ → Option ℕ
sweep_interval secs = if ltb 0 secs then some secs else none

unfoldable pub tls_pair : Option Bytes → Option Bytes → Result StartError (Option TlsConfig)
tls_pair (some cert) (some key) = ok (some (record { cert_path = cert; key_path = key }))
tls_pair none none = ok none
tls_pair (some cert) none = err half_tls
tls_pair none (some key) = err half_tls

-- `open_store` and `backend` stand for the constructor and the operations of the store at a location.
module _ {S : Type 0} (crypto : Crypto) (parse : Bytes → Option SocketAddr)
    (with_file_name : Bytes → Bytes) (open_store : Location → Exec S StorageError (Unit {0}))
    (backend : Location → StorageBackend S) where
  abbrev Op : Type 0 → Type 0
  Op A = Exec S StartError A

  -- The certificate and the key, then the server.
  unfoldable pub serve : VaultConfig → Op Running
  serve cfg = do
    cfg_tls ← lift (tls_pair cfg.server.tls_cert_path cfg.server.tls_key_path)
    serving ← lift (
        map_err serve_failed (
          start_server parse cfg.server.bind_address cfg.server.auth_token cfg_tls
            cfg.server.insecure_no_tls cfg.server.max_proof_size_bytes))
    pure (record {
      cleanup_interval = sweep_interval cfg.storage.cleanup_interval_secs;
      listener = serving;
    })

  -- The body of `main` up to the wait for Ctrl-C, over the configuration that was loaded.
  unfoldable pub start_process : Instant → Cli → VaultConfig → Op Running
  start_process now cli loaded =
      let cfg = overridden (parsed cli) loaded in
      let place = location with_file_name cfg.storage in
      do
        mapping open_failed (open_store place)
        mapping cleanup_failed (cleanup crypto (backend place) now)
        serve cfg
