-- ===== src/Error.antt =====
-- The error types of src/error.rs and what a JSON-RPC client sees of them.
use Prim.Native.String.{String, ◌++◌}
use tari_vault.Base.{ℕ}

-- `std::io::Error` and `serde_json::Error` stand for their texts.
pub data StorageError : Type 0 where
  io : String → StorageError
  json : String → StorageError
  not_found : StorageError

pub data VaultError : Type 0 where
  proof_not_found : VaultError
  proof_expired : VaultError
  decryption_failed : VaultError
  invalid_claim_id : VaultError
  invalid_parameter : String → VaultError
  storage : StorageError → VaultError
  serialization : String → VaultError

-- `negsuc n` is -(n + 1).
pub data ℤ : Type 0 where
  pos : ℕ → ℤ
  negsuc : ℕ → ℤ

unfoldable pub rpc_code : VaultError → ℤ
rpc_code proof_not_found = negsuc 32000
rpc_code proof_expired = negsuc 32001
rpc_code invalid_claim_id = negsuc 32002
rpc_code decryption_failed = negsuc 32003
rpc_code (invalid_parameter _) = negsuc 32005
rpc_code (storage _) = negsuc 32004
rpc_code (serialization _) = negsuc 32004

-- The `Display` texts of the `#[error]` attributes.
unfoldable pub storage_message : StorageError → String
storage_message (io e) = "I/O error: " ++ e
storage_message (json e) = "JSON error: " ++ e
storage_message not_found = "Record not found"

unfoldable pub message : VaultError → String
unfolding storage_message
message proof_not_found = "Proof not found"
message proof_expired = "Proof has expired"
message decryption_failed = "Decryption failed"
message invalid_claim_id = "Invalid claim ID format"
message (invalid_parameter e) = "Invalid parameter: " ++ e
message (storage e) = "Storage error: " ++ storage_message e
message (serialization e) = "Serialization error: " ++ e
