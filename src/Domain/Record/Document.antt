-- ===== src/Domain/Record/Document.antt =====
-- The `Serialize` and `Deserialize` derives of src/domain/record.rs: the JSON object of a record.
-- `#[serde(flatten)]` puts the two fields of the payload beside the dates, and `base64_field` writes
-- bytes as a standard base64 text.
use Prim.Native.String.{String}
use tari_vault.Base.{Bytes, IsByte, All, ◌≤◌, ◌≡◌, refl, Option, none, some, Result, ok, err}
use tari_vault.Domain.Base64.{Base64}
use tari_vault.Domain.Chrono.{Instant, Chrono}
use tari_vault.Domain.Record.{StoredRecord}

infixl 5 ◌>>=◌
abbrev ◌>>=◌ : {A B : Type 0} → Result String A → (A → Result String B) → Result String B
ok a >>= f = f a
err e >>= f = err e
Result.panic >>= f = Result.panic

-- The members of the object; an absent expiry is `null`.
pub record Document : Type 0 where
  pub nonce : Bytes
  pub ciphertext : Bytes
  pub stored_at : Bytes
  pub expires_at : Option Bytes

module _ (standard : Base64) (chrono : Chrono) where
  read_field : Bytes → Option Bytes → Result String Bytes
  read_field s none = err (standard.reason s)
  read_field s (some b) = ok b

  unfoldable pub deserialize_field : Bytes → Result String Bytes
  unfolding read_field
  deserialize_field s = read_field s (standard.of_text s)

  unfoldable pub serialize_field : Bytes → Bytes
  serialize_field b = standard.to_text b

  date_text : Option Instant → Option Bytes
  date_text none = none
  date_text (some t) = some (chrono.serialize t)

  read_date : Option Bytes → Result String (Option Instant)
  read_date none = ok none
  read_date (some s) = do t ← chrono.deserialize s; ok (some t)

  unfoldable pub serialize : StoredRecord → Document
  unfolding serialize_field date_text
  serialize r = record {
    nonce = serialize_field r.nonce;
    ciphertext = serialize_field r.ciphertext;
    stored_at = chrono.serialize r.stored_at;
    expires_at = date_text r.expires_at;
  }

  unfoldable pub deserialize : Document → Result String StoredRecord
  unfolding deserialize_field read_date
  deserialize d = do
    nonce ← deserialize_field d.nonce
    ciphertext ← deserialize_field d.ciphertext
    stored_at ← chrono.deserialize d.stored_at
    expires_at ← read_date d.expires_at
    ok (record {
      encrypted = record { nonce = nonce; ciphertext = ciphertext };
      stored_at = stored_at;
      expires_at = expires_at;
    })

  abbrev DateFits : Option Instant → Type 0
  DateFits none = Unit
  DateFits (some t) = t ≤ chrono.latest

  -- The payload is of bytes, and the dates are ones that `chrono` has.
  pub record IsStorable (r : StoredRecord) : Type 0 where
    pub nonce_bytes : All IsByte r.nonce
    pub ciphertext_bytes : All IsByte r.ciphertext
    pub stored_fits : r.stored_at ≤ chrono.latest
    pub expiry_fits : DateFits r.expires_at

  read_date_lem : (o : Option Instant) → DateFits o → read_date (date_text o) ≡ ok o
  unfolding read_date date_text
  read_date_lem none h = refl
  read_date_lem (some t) h = rw (chrono.deserialize-serialize t h)

  -- A record of bytes, whose dates `chrono` has, is read back from its JSON object.
  pub deserialize-serialize : (r : StoredRecord) → IsStorable r → deserialize (serialize r) ≡ ok r
  unfolding serialize deserialize
  deserialize-serialize r v = rw (
    standard.of_text-to_text r.nonce v.nonce_bytes,
    standard.of_text-to_text r.ciphertext v.ciphertext_bytes,
    chrono.deserialize-serialize r.stored_at v.stored_fits,
    read_date_lem r.expires_at v.expiry_fits,
  )
