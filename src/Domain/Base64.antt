-- ===== src/Domain/Base64.antt =====
-- The `base64` crate is a parameter: `URL_SAFE_NO_PAD` for tokens, `STANDARD` for stored bytes.
use Prim.Native.String.{String}
use tari_vault.Base.{Bytes, IsByte, All, ◌≡◌, Option, some}

-- An engine reads back what it wrote, and accepts canonical texts only. `reason` is the text of the
-- `DecodeError` for a text that it refuses.
pub record Base64 : Type 0 where
  pub to_text : Bytes → Bytes
  pub of_text : Bytes → Option Bytes
  pub reason : Bytes → String
  pub of_text-to_text : (b : Bytes) → All IsByte b → of_text (to_text b) ≡ some b
  pub of_text-All : (s b : Bytes) → of_text s ≡ some b → All IsByte b
  pub to_text-of_text : (s b : Bytes) → of_text s ≡ some b → to_text b ≡ s
