-- ===== src/Rpc.antt =====
-- src/rpc/server.rs and src/rpc/api.rs: the JSON-RPC handlers over the vault.
pub mod Serving
pub mod Laws
pub mod Jsonrpsee
pub mod Methods
pub mod Asked
pub mod Listening
pub mod Proxy
pub mod Service
pub mod Clients
pub mod RoundTrip
pub mod Opening
pub mod Concurrent
use Prim.Native.String.{String, ◌++◌}
use tari_vault.Base.{
  ℕ, zero, suc, ◌+◌, ◌/◌, ◌%◌, Bytes, length, Option, none, Exec, pure, raise, lift, mapping, ◌>>=◌,
  ◌>>◌, if◌then◌else◌, ltb, ◌==◌,
}
use tari_vault.Error.{ℤ, VaultError, invalid_parameter, rpc_code, message}
use tari_vault.Domain.Chrono.{Instant}
use tari_vault.Domain.Proof.{SerdeJson, from_json, into_json}
use tari_vault.Vault.{Entropy, StoreClock}
use tari_vault.Vault.Interface.{ProofVault}

-- `ErrorObjectOwned`, whose payload is a text or absent.
pub record ErrorObject : Type 0 where
  pub code : ℤ
  pub text : String
  pub payload : Option String

-- A warning is logged for the code -32005; the client gets the code and the text of the error.
unfoldable pub vault_to_rpc_err : VaultError → ErrorObject
unfolding rpc_code message
vault_to_rpc_err e = record { code = rpc_code e; text = message e; payload = none }

-- `Display` of a `usize`, which has at most 20 digits.
digit : ℕ → String
digit n =
    if n == 0
    then "0"
    else if n == 1
    then "1"
    else if n == 2
    then "2"
    else if n == 3
    then "3"
    else if n == 4
    then "4"
    else if n == 5
    then "5"
    else if n == 6
    then "6"
    else if n == 7
    then "7"
    else if n == 8
    then "8"
    else "9"

decimal_digits : ℕ → ℕ → String
unfolding digit
decimal_digits zero n = ""
decimal_digits (suc fuel) n =
    let front = decimal_digits fuel (n / 10) in
    if ltb n 10 then digit n else front ++ digit (n % 10)

unfoldable pub decimal : ℕ → String
unfolding decimal_digits
decimal n = decimal_digits 20 n

pub record StoreProofParams (serde : SerdeJson) : Type 0 where
  pub proof_json : serde.Value
  pub expires_in_secs : Option ℕ

pub record ProofObject (serde : SerdeJson) : Type 0 where
  pub proof_json : serde.Value

pub too_large : ℕ → VaultError
too_large max =
    invalid_parameter ("proof_json exceeds maximum allowed size of " ++ decimal max ++ " bytes")

module _ {S : Type 0} (serde : SerdeJson) (vault : ProofVault S) where
  abbrev Handler : Type 0 → Type 0
  Handler A = Exec S ErrorObject A

  unfoldable pub rpc_store_proof : ℕ → Entropy → StoreClock → StoreProofParams serde → Handler Bytes
  unfolding too_large
  rpc_store_proof max_proof_size_bytes e clock params =
      if ltb max_proof_size_bytes (length (serde.to_string params.proof_json))
      then raise (vault_to_rpc_err (too_large max_proof_size_bytes))
      else (do
        proof ← mapping vault_to_rpc_err (lift (from_json serde params.proof_json))
        mapping vault_to_rpc_err (vault.store_proof e clock proof params.expires_in_secs))

  unfoldable pub rpc_retrieve_proof : Instant → Bytes → Handler (ProofObject serde)
  rpc_retrieve_proof now claim_id = do
    proof ← mapping vault_to_rpc_err (vault.retrieve_proof now claim_id)
    proof_json ← mapping vault_to_rpc_err (lift (into_json serde proof))
    pure (record { proof_json = proof_json })

  unfoldable pub rpc_delete_proof : Instant → Bytes → Handler (Unit {0})
  rpc_delete_proof now claim_id = mapping vault_to_rpc_err (vault.delete_proof now claim_id)
