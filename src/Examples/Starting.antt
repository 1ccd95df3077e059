-- ===== src/Examples/Starting.antt =====
-- Opening a database, the sockets of a start, the configuration and the shutdown at concrete inputs.
use Prim.Native.String.{String}
use tari_vault.Base.{
  ℕ, suc, Bytes, bytes_eq, ◌≡◌, ◌≢◌, refl, true, false, Option, none, some, List, [], ◌∷◌, ◌++◌,
  All, Result, ok, err, Exec, length, ◌-◌, ltb, ◌⊎◌, if◌then◌else◌, panic, ◌≤◌, min, ◌+◌, ap, sym,
}
use tari_vault.Error.{StorageError, VaultError}
use tari_vault.Domain.Chrono.{Instant}
use tari_vault.Storage.LocalFile.{owner_only}
use tari_vault.Storage.Sqlite.{Database, without, without_expired, insert_or_replace, row_of}
use tari_vault.Storage.Sqlite.Atomicity.{Whole, proofs, sqlite_all_or_nothing}
use tari_vault.Storage.Sqlite.Opening.{DbFile, new, Partly, new_store}
use tari_vault.Rpc.Serving.{
  SocketAddr, v4, TlsConfig, tls, Listener, start_server, http_body_limit, http_body_limit_bounds,
  u32_max,
}
use tari_vault.Rpc.Listening.{Net, Socket, Rustls, listen}
use tari_vault.Rpc.Listening.Safety.{Allowed, listens_safely, public_socket}
use tari_vault.Auth.{from_config}
use tari_vault.Startup.{default_config}
use tari_vault.Startup.Loading.{
  ConfigCrate, Layer, layered, readings, load_config, bind_address_key,
}
use tari_vault.Startup.Loading.Layers.{FromLayers, load_config-FromLayers}
use tari_vault.Startup.Shutdown.{
  Event, arrives, acts, answered, ctrl_c, polls_main, elapses, polls_task, sweep_answered,
}
use tari_vault.Examples.Toy.{calendar}
use tari_vault.Examples.Shop.{uuid, kept}

-- The second call fails.
abbrev shaky : Database
shaky = record { rows = row_of calendar uuid kept ∷ []; faults = none ∷ some "disk I/O error" ∷ [] }

sqlite_all_or_nothing_example :
    let swept = without_expired (calendar.to_rfc3339 5000) in
    Whole
      (insert_or_replace (row_of calendar uuid kept))
      (λ rows a. Unit {0})
      shaky.rows
      ((proofs calendar).insert uuid kept shaky)
    × Whole
        (without uuid)
        (λ rows removed. removed ≡ ltb 0 (length rows - length (without uuid rows)))
        shaky.rows
        ((proofs calendar).delete uuid shaky)
    × Whole swept
        (λ rows n. n ≡ length rows - length (swept rows))
        shaky.rows
        ((proofs calendar).delete_expired 5000 shaky)
    × (((proofs calendar).fetch uuid shaky).1.rows ≡ shaky.rows)
sqlite_all_or_nothing_example = sqlite_all_or_nothing calendar uuid kept 5000 shaky

-- A path without a file, where the migration fails.
abbrev unmigrated : DbFile
unmigrated = record {
  mode = none;
  migrated = false;
  rows = [];
  has_parent = true;
  faults = none ∷ none ∷ none ∷ some "locked" ∷ [];
}

new_store_example :
    ((((new 420 unmigrated).0 ≡ ok tt)
        × ((new 420 unmigrated).1.mode ≡ some owner_only)
        × ((new 420 unmigrated).1.migrated ≡ true))
      ⊎ (((e : StorageError) × ((new 420 unmigrated).0 ≡ err e))
          × Partly 420 unmigrated (new 420 unmigrated).1))
    × ((new 420 unmigrated).1.rows ≡ unmigrated.rows)
new_store_example = new_store 420 unmigrated

http_body_limit_bounds_example :
    (http_body_limit 1048576 ≤ u32_max) × (http_body_limit 1048576 ≡ min (1048576 + 4096) u32_max)
http_body_limit_bounds_example = http_body_limit_bounds 1048576

-- A store of one certificate and one key.
abbrev pem : Rustls
pem = record {
  Certs = Bytes;
  Key = Bytes;
  Acceptor = Bytes;
  contents = λ path. path;
  certs = λ b. ok b;
  private_key = λ b. ok (some b);
  with_single_cert = λ c k. ok c;
}

abbrev pair : TlsConfig
pair = record { cert_path = b'c' ∷ []; key_path = b'k' ∷ [] }

abbrev everywhere : Bytes → Option SocketAddr
everywhere s = some (v4 0 0 0 0 443)

-- The public port is taken.
abbrev taken : Net
taken = record { sockets = []; faults = none ∷ none ∷ none ∷ none ∷ some "address in use" ∷ [] }

abbrev secure : Listener
secure = tls (b'*' ∷ []) pair (from_config none) (http_body_limit 1024)

passes : start_server everywhere (b'*' ∷ []) none (some pair) false 1024 ≡ ok secure
unfolding start_server
passes = refl

listens_safely_example :
    All
      (Allowed pem everywhere (b'*' ∷ []) none (some pair) false 1024)
      (listen pem secure taken).1.sockets
    × (((listen pem secure taken).0 ≢ ok tt)
        ⊎ ((rest : List Socket) × ((listen pem secure taken).1.sockets
              ≡ public_socket secure ∷ rest)))
listens_safely_example =
    listens_safely pem everywhere (b'*' ∷ []) none (some pair) false 1024 secure taken passes tt

-- A sweep that counts.
abbrev counting : Instant → Exec ℕ VaultError ℕ
counting now n = (ok 0, suc n)

-- A sweep is under way when the token is cancelled.
abbrev before_cancel : List (Event ℕ)
before_cancel = arrives ∷ acts (λ n. suc n) ∷ polls_task ∷ ctrl_c ∷ answered ∷ polls_main ∷ []

abbrev after_cancel : List (Event ℕ)
after_cancel = elapses ∷ acts (λ n. suc n) ∷ sweep_answered 7 ∷ polls_task ∷ polls_main ∷ []

-- A configuration whose environment sets the address, and whose file holds nothing.
abbrev Source : Type 0
Source = Result String (Layer Bytes)

abbrev Builder : Type 0
Builder = Layer Bytes × List Source

built : Layer Bytes → Result String (List (Layer Bytes)) → Result String (Layer Bytes)
built below (ok layers) = ok (layered layers below)
built below (err e) = err e
built below panic = panic

built-ok :
    (below : Layer Bytes) (r : Result String (List (Layer Bytes))) (x : Layer Bytes)
    → built below r ≡ ok x
    → (layers : List (Layer Bytes)) × (r ≡ ok layers)
      × ((key : Bytes) → x key ≡ layered layers below key)
unfolding built
built-ok below (ok layers) x e =
    let same : layered layers below ≡ x = cc in (layers, refl, λ key. ap (λ f. f key) (sym same))
built-ok below (err y) x e = cc
built-ok below panic x e = cc

ok_same :
    (x y : Builder)
    → ◌≡◌ {A = Result String Builder} (ok x) (ok y)
    → (y.1 ≡ x.1) × ((k : Bytes) → y.0 k ≡ x.0 k)
ok_same x y e = let same : x ≡ y = cc in (ap (λ p. p.1) (sym same), λ k. ap (λ p. p.0 k) (sym same))

abbrev surroundings : Layer Bytes
surroundings key = if bytes_eq bind_address_key key then some (b'x' ∷ []) else none

abbrev sources_crate : ConfigCrate
sources_crate = record {
  Value = Bytes;
  Source = Source;
  Builder = Builder;
  Settings = Layer Bytes;
  text = λ t. t;
  number = λ n. n ∷ [];
  file_at = λ path required. ok (λ key. none);
  file_named = λ name required. ok (λ key. none);
  environment = λ prefix separator parses. ok surroundings;
  builder = (λ key. none, []);
  set_default = λ key v b. ok (λ k. if bytes_eq key k then some v else b.0 k, b.1);
  add_source = λ s b. (b.0, b.1 ++ s ∷ []);
  build = λ b. built b.0 (readings (λ s. s) b.1);
  try_deserialize = λ x. ok (default_config []);
  get = λ x. x;
  read = λ s. s;
  defaults = λ b. b.0;
  sources = λ b. b.1;
  defaults-builder = λ key. refl;
  sources-builder = refl;
  set_default-ok =
      λ key v b b' e. ok_same (λ k. if bytes_eq key k then some v else b.0 k, b.1) b' e;
  sources-add_source = λ s b. refl;
  defaults-add_source = λ s b k. refl;
  build-ok = λ b x e. built-ok b.0 (readings (λ s. s) b.1) x e;
}

loads : load_config sources_crate [] none ≡ ok (default_config [])
unfolding load_config readings built
loads = refl

load_config-FromLayers_example : FromLayers sources_crate [] none (default_config [])
load_config-FromLayers_example =
    load_config-FromLayers sources_crate [] none (default_config []) loads
