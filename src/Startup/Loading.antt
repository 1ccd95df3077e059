-- ===== src/Startup/Loading.antt =====
-- `load_config` of src/config.rs: the sources of the configuration and which of them wins. The `config` crate and the
-- deserializer that `serde` derives are parameters.
pub mod Layers
use Prim.Native.String.{String}
use tari_vault.Base.{
  ℕ, Bytes, bytes_eq, ◌≡◌, Bool, true, false, Option, none, some, List, [], ◌∷◌, ◌++◌, Result, ok,
  err, panic, if◌then◌else◌,
}
use tari_vault.Startup.{VaultConfig, default_config, flag_or_else}

abbrev pub Layer : Type 0 → Type 0
Layer Value = Bytes → Option Value

-- Each layer over those before it.
abbrev pub layered : {Value : Type 0} → List (Layer Value) → Layer Value → Layer Value
layered [] below = below
layered (layer ∷ layers) below = layered layers (λ key. flag_or_else (layer key) (below key))

with_layer :
    {Value : Type 0}
    → Layer Value
    → Result String (List (Layer Value))
    → Result String (List (Layer Value))
with_layer layer (ok layers) = ok (layer ∷ layers)
with_layer layer (err e) = err e
with_layer layer panic = panic

with_reading :
    {Value : Type 0}
    → Result String (Layer Value)
    → Result String (List (Layer Value))
    → Result String (List (Layer Value))
unfolding with_layer
with_reading (ok layer) rest = with_layer layer rest
with_reading (err e) rest = err e
with_reading panic rest = panic

-- Every source is read, or else the first failure counts.
unfoldable pub readings :
    {Source Value : Type 0}
    → (Source → Result String (Layer Value))
    → List Source
    → Result String (List (Layer Value))
unfolding with_reading
readings read [] = ok []
readings read (s ∷ ss) = with_reading (read s) (readings read ss)

-- A builder has defaults, and sources in the order in which they were added. `read` is what a source holds at the
-- time of the build; a required file that is missing has no reading. What is built answers a key with the last source that has it, or
-- else with the default.
pub record ConfigCrate : Type 1 where
  pub Value : Type 0
  pub Source : Type 0
  pub Builder : Type 0
  pub Settings : Type 0
  pub text : Bytes → Value
  pub number : ℕ → Value
  pub file_at : Bytes → Bool → Source
  pub file_named : Bytes → Bool → Source
  pub environment : Bytes → Bytes → Bool → Source
  pub builder : Builder
  pub set_default : Bytes → Value → Builder → Result String Builder
  pub add_source : Source → Builder → Builder
  pub build : Builder → Result String Settings
  pub try_deserialize : Settings → Result String VaultConfig
  pub get : Settings → Layer Value
  pub read : Source → Result String (Layer Value)
  pub defaults : Builder → Layer Value
  pub sources : Builder → List Source
  pub defaults-builder : (key : Bytes) → defaults builder key ≡ none
  pub sources-builder : sources builder ≡ []
  pub set_default-ok :
      (key : Bytes) (v : Value) (b b' : Builder)
      → set_default key v b ≡ ok b'
      → (sources b' ≡ sources b)
        × ((k : Bytes) → defaults b' k ≡ (if bytes_eq key k then some v else defaults b k))
  pub sources-add_source :
      (s : Source) (b : Builder) → sources (add_source s b) ≡ sources b ++ s ∷ []
  pub defaults-add_source :
      (s : Source) (b : Builder) (k : Bytes) → defaults (add_source s b) k ≡ defaults b k
  pub build-ok :
      (b : Builder) (x : Settings)
      → build b ≡ ok x
      → (layers : List (Layer Value)) × (readings read (sources b) ≡ ok layers)
        × ((key : Bytes) → get x key ≡ layered layers (defaults b) key)

abbrev pub bind_address_key : Bytes
bind_address_key =
    b's' ∷ b'e' ∷ b'r' ∷ b'v' ∷ b'e' ∷ b'r' ∷ b'.' ∷ b'b' ∷ b'i' ∷ b'n' ∷ b'd' ∷ b'_' ∷ b'a' ∷ b'd'
    ∷ b'd' ∷ b'r' ∷ b'e' ∷ b's' ∷ b's' ∷ []

abbrev pub vault_file_key : Bytes
vault_file_key =
    b's' ∷ b't' ∷ b'o' ∷ b'r' ∷ b'a' ∷ b'g' ∷ b'e' ∷ b'.' ∷ b'v' ∷ b'a' ∷ b'u' ∷ b'l' ∷ b't' ∷ b'_'
    ∷ b'f' ∷ b'i' ∷ b'l' ∷ b'e' ∷ []

abbrev pub cleanup_interval_key : Bytes
cleanup_interval_key =
    b's' ∷ b't' ∷ b'o' ∷ b'r' ∷ b'a' ∷ b'g' ∷ b'e' ∷ b'.' ∷ b'c' ∷ b'l' ∷ b'e' ∷ b'a' ∷ b'n' ∷ b'u'
    ∷ b'p' ∷ b'_' ∷ b'i' ∷ b'n' ∷ b't' ∷ b'e' ∷ b'r' ∷ b'v' ∷ b'a' ∷ b'l' ∷ b'_' ∷ b's' ∷ b'e'
    ∷ b'c' ∷ b's' ∷ []

abbrev pub backend_key : Bytes
backend_key =
    b's' ∷ b't' ∷ b'o' ∷ b'r' ∷ b'a' ∷ b'g' ∷ b'e' ∷ b'.' ∷ b'b' ∷ b'a' ∷ b'c' ∷ b'k' ∷ b'e' ∷ b'n'
    ∷ b'd' ∷ []

abbrev pub level_key : Bytes
level_key =
    b'l' ∷ b'o' ∷ b'g' ∷ b'g' ∷ b'i' ∷ b'n' ∷ b'g' ∷ b'.' ∷ b'l' ∷ b'e' ∷ b'v' ∷ b'e' ∷ b'l' ∷ []

abbrev pub max_proof_size_key : Bytes
max_proof_size_key =
    b's' ∷ b'e' ∷ b'r' ∷ b'v' ∷ b'e' ∷ b'r' ∷ b'.' ∷ b'm' ∷ b'a' ∷ b'x' ∷ b'_' ∷ b'p' ∷ b'r' ∷ b'o'
    ∷ b'o' ∷ b'f' ∷ b'_' ∷ b's' ∷ b'i' ∷ b'z' ∷ b'e' ∷ b'_' ∷ b'b' ∷ b'y' ∷ b't' ∷ b'e' ∷ b's' ∷ []

abbrev file_text : Bytes
file_text = b'f' ∷ b'i' ∷ b'l' ∷ b'e' ∷ []

module _ (crate : ConfigCrate) where
  -- One `set_default(..)?` after another.
  then_default : Bytes → crate.Value → Result String crate.Builder → Result String crate.Builder
  then_default key v (ok b) = crate.set_default key v b
  then_default key v (err e) = err e
  then_default key v panic = panic

  with_defaults : VaultConfig → Result String crate.Builder
  unfolding then_default
  with_defaults defaults =
      then_default max_proof_size_key (crate.number defaults.server.max_proof_size_bytes) (
        then_default level_key (crate.text defaults.logging.level) (
          then_default backend_key (crate.text file_text) (
            then_default cleanup_interval_key (crate.number defaults.storage.cleanup_interval_secs)
              (then_default vault_file_key (crate.text defaults.storage.vault_file) (
                then_default bind_address_key (crate.text defaults.server.bind_address)
                  (ok crate.builder))))))

  -- The file that was named, which must be there, or one found by its name, which need not.
  unfoldable pub file_source : Option Bytes → crate.Source
  file_source (some path) = crate.file_at path true
  file_source none =
      crate.file_named
        (b'v' ∷ b'a' ∷ b'u' ∷ b'l' ∷ b't' ∷ b'_' ∷ b'c' ∷ b'o' ∷ b'n' ∷ b'f' ∷ b'i' ∷ b'g' ∷ [])
        false

  unfoldable pub environment_source : crate.Source
  environment_source =
      crate.environment (b'V' ∷ b'A' ∷ b'U' ∷ b'L' ∷ b'T' ∷ []) (b'_' ∷ b'_' ∷ []) true

  deserialized : Result String crate.Settings → Result String VaultConfig
  deserialized (ok x) = crate.try_deserialize x
  deserialized (err e) = err e
  deserialized panic = panic

  loaded : Option Bytes → Result String crate.Builder → Result String VaultConfig
  unfolding file_source environment_source deserialized
  loaded config_file (ok b) = deserialized (
      crate.build
        (crate.add_source environment_source (crate.add_source (file_source config_file) b)))
  loaded config_file (err e) = err e
  loaded config_file panic = panic

  unfoldable pub load_config : Bytes → Option Bytes → Result String VaultConfig
  unfolding loaded with_defaults
  load_config default_vault_path config_file =
      loaded config_file (with_defaults (default_config default_vault_path))
