-- ===== src/Domain/ClaimId.antt =====
-- src/domain/claim_id.rs. The engine `URL_SAFE_NO_PAD` is a parameter.
pub mod Codec
use tari_vault.Base.{
  ℕ, ◌+◌, Bytes, IsArray, take, drop, length, ◌++◌, ◌==◌, Option, none, some, Result, ok, err,
  if◌then◌else◌,
}
use tari_vault.Error.{VaultError, invalid_claim_id}
use tari_vault.Domain.Base64.{Base64}

abbrev pub record_id_len : ℕ
record_id_len = 16

abbrev pub encryption_key_len : ℕ
encryption_key_len = 32

abbrev pub claim_id_bytes : ℕ
claim_id_bytes = record_id_len + encryption_key_len

pub record ClaimId : Type 0 where
  pub record_id : Bytes
  pub encryption_key : Bytes

-- The two fields are arrays: `[u8; 16]` and `[u8; 32]`.
pub record IsClaim (c : ClaimId) : Type 0 where
  pub id_array : IsArray 16 c.record_id
  pub key_array : IsArray 32 c.encryption_key

-- `uuid` is what `Uuid::new_v4()` returns.
abbrev pub new : Bytes → Bytes → ClaimId
new uuid encryption_key = record { record_id = uuid; encryption_key = encryption_key }

module _ (b64 : Base64) where
  unfoldable pub encode : ClaimId → Bytes
  encode c = b64.to_text (c.record_id ++ c.encryption_key)

  split : Option Bytes → Result VaultError ClaimId
  split none = err invalid_claim_id
  split (some bytes) =
      if length bytes == claim_id_bytes
      then ok (record {
        record_id = take record_id_len bytes;
        encryption_key = drop record_id_len bytes;
      })
      else err invalid_claim_id

  unfoldable pub decode : Bytes → Result VaultError ClaimId
  unfolding split
  decode s = split (b64.of_text s)
