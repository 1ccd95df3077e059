-- ===== src/Redaction.antt =====
-- The `Debug` impls that keep secrets out of logs: ServerConfig in src/config.rs, ClaimId in
-- src/domain/claim_id.rs and PlaintextProof in src/domain/proof.rs. `std::fmt` is a parameter, as
-- is the simple form of the uuid crate.
use Prim.Native.String.{String}
use tari_vault.Base.{ℕ, Bool, Bytes, ◌≡◌, refl, Option, none, some, Exec, Result}
use tari_vault.Domain.ClaimId.{ClaimId}
use tari_vault.Domain.Proof.{PlaintextProof}
use tari_vault.Startup.{ServerConfig}

-- `Debug::fmt` of a value is a function of the formatter; the `Err` is the unit `fmt::Error`.
pub record Fmt : Type 1 where
  pub Formatter : Type 0
  pub DebugStruct : Type 0
  pub write_str : String → Exec Formatter (Unit {0}) (Unit {0})
  pub debug_struct : String → Formatter → DebugStruct
  pub field : String → (Exec Formatter (Unit {0}) (Unit {0})) → DebugStruct → DebugStruct
  pub finish : DebugStruct → Result (Unit {0}) (Unit {0}) × Formatter
  pub literal : String → Exec Formatter (Unit {0}) (Unit {0})
  pub text : Bytes → Exec Formatter (Unit {0}) (Unit {0})
  pub option : Option (Exec Formatter (Unit {0}) (Unit {0})) → Exec Formatter (Unit {0}) (Unit {0})
  pub bool : Bool → Exec Formatter (Unit {0}) (Unit {0})
  pub usize : ℕ → Exec Formatter (Unit {0}) (Unit {0})

module _ (std : Fmt) where
  open std use {Formatter, write_str, debug_struct, field, finish, literal, text, option}

  texts : Option Bytes → Exec Formatter (Unit {0}) (Unit {0})
  texts none = option none
  texts (some t) = option (some (text t))

  redacted : Option Bytes → Exec Formatter (Unit {0}) (Unit {0})
  redacted none = option none
  redacted (some _) = option (some (literal "<redacted>"))

  -- `impl Debug for ServerConfig`
  unfoldable fmt_server : ServerConfig → Exec Formatter (Unit {0}) (Unit {0})
  fmt_server cfg f = finish (
      field "max_proof_size_bytes" (std.usize cfg.max_proof_size_bytes) (
        field "insecure_no_tls" (std.bool cfg.insecure_no_tls) (
          field "tls_key_path" (texts cfg.tls_key_path) (
            field "tls_cert_path" (texts cfg.tls_cert_path) (
              field "auth_token" (redacted cfg.auth_token)
                (field "bind_address" (text cfg.bind_address) (debug_struct "ServerConfig" f)))))))

  -- `impl Debug for PlaintextProof`
  unfoldable fmt_proof : PlaintextProof → Exec Formatter (Unit {0}) (Unit {0})
  fmt_proof _ f = write_str "PlaintextProof(<redacted>)" f

  module _ (simple : Bytes → Bytes) where
    unfoldable record_id_hex : ClaimId → Bytes
    record_id_hex c = simple c.record_id

    -- `impl Debug for ClaimId`
    unfoldable fmt_claim : ClaimId → Exec Formatter (Unit {0}) (Unit {0})
    fmt_claim c f = finish (
        field "encryption_key" (literal "<redacted>")
          (field "record_id" (text (record_id_hex c)) (debug_struct "ClaimId" f)))

    -- What is printed of a claim id is the same for every key, what is printed of a proof is the
    -- same for every proof, and what is printed of the server's configuration is the same for every
    -- token that it may hold.
    debug_hides_secrets :
        (id key key' : Bytes) (p q : PlaintextProof) (cfg : ServerConfig) (token token' : Bytes)
        (f : Formatter)
        → (fmt_claim (record { record_id = id; encryption_key = key }) f
            ≡ fmt_claim (record { record_id = id; encryption_key = key' }) f)
          × (fmt_proof p f ≡ fmt_proof q f)
          × (fmt_server (record cfg { auth_token = some token }) f
              ≡ fmt_server (record cfg { auth_token = some token' }) f)
    unfolding fmt_claim record_id_hex fmt_proof fmt_server redacted
    debug_hides_secrets id key key' p q cfg token token' f = (refl, refl, refl)
