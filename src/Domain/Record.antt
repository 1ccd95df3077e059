-- ===== src/Domain/Record.antt =====
-- src/domain/record.rs.
pub mod Document
use tari_vault.Base.{Bytes, Option, none, some, Bool, false, ltb}
use tari_vault.Domain.Chrono.{Instant}

pub record EncryptedRecord : Type 0 where
  pub nonce : Bytes
  pub ciphertext : Bytes

pub record StoredRecord : Type 0 where
  pub encrypted : EncryptedRecord
  pub open encrypted use *
  pub stored_at : Instant
  pub expires_at : Option Instant

past : Instant → Option Instant → Bool
past now none = false
past now (some t) = ltb t now

-- `now` is what `Utc::now()` returns.
unfoldable pub is_expired : Instant → StoredRecord → Bool
unfolding past
is_expired now r = past now r.expires_at
