-- ===== src/Domain/Chrono.antt =====
-- The `chrono` crate is a parameter. An instant, `DateTime<Utc>`, is its number of nanoseconds since
-- the epoch; the host's clock does not stand before the epoch.
use Prim.Native.String.{String}
use tari_vault.Base.{
  ℕ, ◌+◌, ◌*◌, ◌^◌, ◌≤◌, ◌<◌, Bytes, ◌≡◌, true, Option, none, some, Result, ok, err, leb, text_le,
}

abbrev pub Instant : Type 0
Instant = ℕ

-- `i64::MAX` milliseconds, in whole seconds: the longest `Duration`.
abbrev pub max_seconds : ℕ
max_seconds = 9223372036854775

-- 10000-01-01T00:00:00Z
abbrev pub year_10000 : Instant
year_10000 = 253402300800 * 10 ^ 9

-- - `add_seconds now secs` is `now + Duration::seconds(secs)`, and `none` where that panics.
-- - `to_rfc3339` writes `+00:00` for UTC and 0, 3, 6 or 9 fractional digits. Up to the year 9999 its
--   texts sort as the instants do; a later year has five digits or more behind a `+`, which sorts
--   before every digit. `parse_from_rfc3339` takes years of four digits only.
-- - `serialize` and `deserialize` are the `serde` impls of `DateTime<Utc>`.
pub record Chrono : Type 0 where
  pub latest : Instant
  pub add_seconds : Instant → ℕ → Option Instant
  pub add_seconds-in_range :
      (now secs : ℕ)
      → secs ≤ max_seconds
      → now + secs * 10 ^ 9 ≤ latest
      → add_seconds now secs ≡ some (now + secs * 10 ^ 9)
  pub add_seconds-too_long : (now secs : ℕ) → max_seconds < secs → add_seconds now secs ≡ none
  pub to_rfc3339 : Instant → Bytes
  pub parse_from_rfc3339 : Bytes → Result String Instant
  pub parse-to_rfc3339 :
      (t : Instant) → t ≤ latest → t < year_10000 → parse_from_rfc3339 (to_rfc3339 t) ≡ ok t
  pub parse-to_rfc3339_late :
      (t : Instant)
      → year_10000 ≤ t
      → t ≤ latest
      → (e : String) × (parse_from_rfc3339 (to_rfc3339 t) ≡ err e)
  pub text_le-to_rfc3339 :
      (t u : Instant)
      → t < year_10000
      → u < year_10000
      → text_le (to_rfc3339 t) (to_rfc3339 u) ≡ leb t u
  pub to_rfc3339_late :
      (t u : Instant)
      → year_10000 ≤ t
      → t ≤ latest
      → u < year_10000
      → text_le (to_rfc3339 t) (to_rfc3339 u) ≡ true
  pub serialize : Instant → Bytes
  pub deserialize : Bytes → Result String Instant
  pub deserialize-serialize : (t : Instant) → t ≤ latest → deserialize (serialize t) ≡ ok t
