-- ===== src/Examples/Calls.antt =====
-- The handlers and the start of the process at concrete inputs.
use tari_vault.Base.{Bytes, false, Option, none, some, [], ◌∷◌, ◌≡◌, refl, ok, Exec, pure, arith}
use tari_vault.Error.{StorageError}
use tari_vault.Domain.Record.{StoredRecord, is_expired}
use tari_vault.Vault.Storing.{Stored, store_proof_refines}
use tari_vault.Domain.Proof.{PlaintextProof}
use tari_vault.Storage.Sqlite.{Database, delete_expired}
use tari_vault.Storage.Backend.{StorageBackend}
use tari_vault.Storage.Sqlite.Intact.{table}
use tari_vault.Storage.Sqlite.Refines.{accepted_of}
use tari_vault.Vault.{store_proof, retrieve_proof, cleanup}
use tari_vault.Vault.RoundTrip.{retrieve-store}
use tari_vault.Auth.{disabled, from_config}
use tari_vault.Rpc.{StoreProofParams}
use tari_vault.Rpc.Serving.{SocketAddr, v4, is_loopback, plain, start_server, http_body_limit}
use tari_vault.Startup.{
  VaultConfig, Cli, Running, Location, default_config, overridden, parsed, start_process, serve,
  tls_pair, sweep_interval,
}
use tari_vault.Examples.Toy.{calendar, suite, texts}
use tari_vault.Examples.Shop.{
  draws, draws-IsEntropy, uuid-IsArray, clock, proof, token, contract, empty, empty-IsHealthy,
}

abbrev offered : StoreProofParams texts
offered = record { proof_json = proof.contents; expires_in_secs = some 60 }

-- A proof that was stored through the library, and is empty.
abbrev blank : PlaintextProof
blank = record { contents = [] }

abbrev blank_kept : StoredRecord
blank_kept = record {
  encrypted = record { nonce = draws.nonce; ciphertext = [] };
  stored_at = 1001;
  expires_at = some 60000001000;
}

abbrev shelf : Database
shelf = (store_proof suite (table calendar) draws clock blank (some 60) empty).1

blank-Stored : Stored suite (table calendar) draws clock blank contract blank_kept (some 60) empty
blank-Stored =
    store_proof_refines suite (table calendar) draws clock blank contract (some 60) empty blank_kept
      refl uuid-IsArray blank-IsAccepted empty-IsHealthy
  where
    blank-IsAccepted : contract.IsAccepted blank_kept
    blank-IsAccepted =
        accepted_of calendar blank_kept
          (record { stored_fits = ground arith; expiry_fits = ground arith })

blank_retrieved : (retrieve_proof suite (table calendar) 5000 token shelf).0 ≡ ok blank
unfolding is_expired
blank_retrieved =
    (retrieve-store suite (table calendar) contract draws draws-IsEntropy clock blank (some 60)
      empty blank_kept 5000 refl
      (accepted_of calendar blank_kept
        (record { stored_fits = ground arith; expiry_fits = ground arith }))
      empty-IsHealthy refl).1

-- Every text is read as 127.0.0.1:9000.
abbrev local : Bytes → Option SocketAddr
local s = some (v4 127 0 0 1 9000)

listens : start_server local [] none none false 1024 ≡ ok (plain [] disabled 5120)
unfolding start_server is_loopback disabled from_config http_body_limit
listens = refl

abbrev no_flags : Cli
no_flags = record {
  vault_file = none;
  bind = none;
  cleanup_interval = none;
  log_level = none;
  auth_token = none;
  sqlite_path = none;
  tls_cert = none;
  tls_key = none;
  insecure_no_tls = false;
}

abbrev quiet_config : VaultConfig
quiet_config = record (default_config []) {
  logging = record { level = b'w' ∷ b'a' ∷ b'r' ∷ b'n' ∷ [] };
}

-- The built-in configuration over an empty SQLite store.
abbrev opening : Location → Exec Database StorageError (Unit {0})
opening place = pure tt

abbrev stores : Location → StorageBackend Database
stores place = table calendar

abbrev default_address : Bytes
default_address = (default_config []).server.bind_address

abbrev running : Running
running = record { cleanup_interval = some 300; listener = plain default_address disabled 1052672 }

runs_by_default :
    (start_process suite local (λ p. p) opening stores 5000 no_flags (default_config []) empty).0
    ≡ ok running
unfolding start_process cleanup delete_expired serve tls_pair overridden parsed default_config
    start_server is_loopback sweep_interval disabled from_config http_body_limit
runs_by_default = refl
