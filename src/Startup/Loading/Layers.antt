-- ===== src/Startup/Loading/Layers.antt =====
-- Startup.Loading: which source the value of a key comes from.
use Prim.Native.String.{String}
use tari_vault.Base.{
  Bytes, bytes_eq, ◌≡◌, refl, ◌∙◌, ap, Option, none, some, List, [], ◌∷◌, ◌++◌, Result, ok, err,
  panic, if◌then◌else◌, Result-cases, inl, inr,
}
use tari_vault.Startup.{VaultConfig, default_config, flag_or_else}
use tari_vault.Startup.Loading.{
  Layer, layered, with_layer, with_reading, readings, ConfigCrate, file_text, bind_address_key,
  vault_file_key, cleanup_interval_key, backend_key, level_key, max_proof_size_key, then_default,
  with_defaults, file_source, environment_source, deserialized, loaded, load_config,
}

module _ (crate : ConfigCrate) where
  -- The keys that have a default.
  abbrev pub default_layer : VaultConfig → Layer crate.Value
  default_layer d key =
      if bytes_eq max_proof_size_key key
      then some (crate.number d.server.max_proof_size_bytes)
      else if bytes_eq level_key key
      then some (crate.text d.logging.level)
      else if bytes_eq backend_key key
      then some (crate.text file_text)
      else if bytes_eq cleanup_interval_key key
      then some (crate.number d.storage.cleanup_interval_secs)
      else if bytes_eq vault_file_key key
      then some (crate.text d.storage.vault_file)
      else if bytes_eq bind_address_key key
      then some (crate.text d.server.bind_address)
      else none

  -- A builder with these defaults and no source.
  Holds : Layer crate.Value → Result String crate.Builder → Type 0
  Holds layer (ok b) = (crate.sources b ≡ []) × ((key : Bytes) → crate.defaults b key ≡ layer key)
  Holds layer (err e) = Unit
  Holds layer panic = Unit

  abbrev over : Bytes → crate.Value → Layer crate.Value → Layer crate.Value
  over key v layer k = if bytes_eq key k then some v else layer k

  set_default-Holds :
      (key : Bytes) (v : crate.Value) (layer : Layer crate.Value) (b : crate.Builder)
      (r : Result String crate.Builder)
      → crate.set_default key v b ≡ r
      → (crate.sources b ≡ []) × ((k : Bytes) → crate.defaults b k ≡ layer k)
      → Holds (over key v layer) r
  unfolding Holds
  set_default-Holds key v layer b (ok b') e h =
      let (same, at) = crate.set_default-ok key v b b' e in
      (same ∙ h.0, λ k. at k ∙ rw (h.1 k) refl)
  set_default-Holds key v layer b (err x) e h = tt
  set_default-Holds key v layer b panic e h = tt

  then_default-Holds :
      (key : Bytes) (v : crate.Value) (layer : Layer crate.Value) (r : Result String crate.Builder)
      → Holds layer r
      → Holds (over key v layer) (then_default crate key v r)
  unfolding then_default Holds
  then_default-Holds key v layer (ok b) h =
      set_default-Holds key v layer b (crate.set_default key v b) refl h
  then_default-Holds key v layer (err x) h = tt
  then_default-Holds key v layer panic h = tt

  with_defaults-Holds : (d : VaultConfig) → Holds (default_layer d) (with_defaults crate d)
  unfolding with_defaults Holds
  with_defaults-Holds d = then_default-Holds max_proof_size_key _ _ _ (
      then_default-Holds level_key _ _ _ (
        then_default-Holds backend_key _ _ _ (
          then_default-Holds cleanup_interval_key _ _ _ (
            then_default-Holds vault_file_key _ _ _ (
              then_default-Holds bind_address_key _ (λ k. none) (ok crate.builder)
                (crate.sources-builder, crate.defaults-builder))))))

  -- Where the value of a key comes from: the environment, or else the file, or else the default.
  abbrev pub FromLayers : Bytes → Option Bytes → VaultConfig → Type 0
  FromLayers default_vault_path config_file cfg =
      (x : crate.Settings) × (file : Layer crate.Value) × (env : Layer crate.Value)
      × (crate.try_deserialize x ≡ ok cfg)
      × (crate.read (file_source crate config_file) ≡ ok file)
      × (crate.read (environment_source crate) ≡ ok env)
      × ((key : Bytes)
          → crate.get x key
            ≡ flag_or_else (env key)
                (flag_or_else (file key) (default_layer (default_config default_vault_path) key)))

  two_readings :
      (s t : crate.Source) (layers : List (Layer crate.Value))
      → readings crate.read (s ∷ t ∷ []) ≡ ok layers
      → (l : Layer crate.Value) × (m : Layer crate.Value) × (crate.read s ≡ ok l)
        × (crate.read t ≡ ok m)
        × (layers ≡ l ∷ m ∷ [])
  unfolding readings with_reading with_layer
  two_readings s t layers e = elim (Result-cases (crate.read s)) [
    | inr (inl (x, bad)) ↦ let h = rw bad at e in absurd cc
    | inr (inr bad) ↦ let h = rw bad at e in absurd cc
    | inl (l, first) ↦ elim (Result-cases (crate.read t)) [
      | inr (inl (x, bad)) ↦ let h = rw (first, bad) at e in absurd cc
      | inr (inr bad) ↦ let h = rw (first, bad) at e in absurd cc
      | inl (m, second) ↦ let h = rw (first, second) at e in (l, m, first, second, cc)
    ]
  ]

  deserialized-ok :
      (r : Result String crate.Settings) (cfg : VaultConfig)
      → deserialized crate r ≡ ok cfg
      → (x : crate.Settings) × (r ≡ ok x) × (crate.try_deserialize x ≡ ok cfg)
  unfolding deserialized
  deserialized-ok (ok x) cfg e = (x, refl, e)
  deserialized-ok (err y) cfg e = cc
  deserialized-ok panic cfg e = cc

  loaded-FromLayers :
      (default_vault_path : Bytes) (config_file : Option Bytes) (cfg : VaultConfig)
      (r : Result String crate.Builder)
      → Holds (default_layer (default_config default_vault_path)) r
      → loaded crate config_file r ≡ ok cfg
      → FromLayers default_vault_path config_file cfg
  unfolding loaded Holds
  loaded-FromLayers default_vault_path config_file cfg (err e) h done = cc
  loaded-FromLayers default_vault_path config_file cfg panic h done = cc
  loaded-FromLayers default_vault_path config_file cfg (ok b) h done =
      let s = file_source crate config_file in
      let b1 = crate.add_source s b in
      let b2 = crate.add_source (environment_source crate) b1 in
      let (x, built, parsed) = deserialized-ok (crate.build b2) cfg done in
      let (layers, all_read, at) = crate.build-ok b2 x built in
      let listed : crate.sources b2 ≡ s ∷ (environment_source crate) ∷ [] =
        crate.sources-add_source (environment_source crate) b1
        ∙ ap (λ l. l ++ (environment_source crate) ∷ [])
            (crate.sources-add_source s b ∙ ap (λ l. l ++ s ∷ []) h.0) in
      let (file, env, file_read, env_read, two) =
        two_readings s (environment_source crate) layers (rw listed at all_read) in
      (
        x,
        file,
        env,
        parsed,
        file_read,
        env_read,
        λ key.
            at key
            ∙ ap (λ ls. layered ls (crate.defaults b2) key) two
            ∙ ap (λ o. flag_or_else (env key) (flag_or_else (file key) o))
                (crate.defaults-add_source (environment_source crate) b1 key
                  ∙ crate.defaults-add_source s b key
                  ∙ h.1 key),
      )

  -- When the configuration is loaded, it is deserialized from settings in which every key has the value that the environment gives it,
  -- or else the one that the configuration file gives it, or else the default; the file that the flag names has been read.
  pub load_config-FromLayers :
      (default_vault_path : Bytes) (config_file : Option Bytes) (cfg : VaultConfig)
      → load_config crate default_vault_path config_file ≡ ok cfg
      → FromLayers default_vault_path config_file cfg
  unfolding load_config
  load_config-FromLayers default_vault_path config_file cfg done =
      loaded-FromLayers default_vault_path config_file cfg _
        (with_defaults-Holds (default_config default_vault_path)) done
