-- ===== src/Examples/Toy.antt =====
-- Concrete parameters: crates that keep their documented laws, chosen for being short.
use Prim.Native.String.{String}
use tari_vault.Base.{
  ◌==◌, ℕ, ◌+◌, ◌*◌, ◌^◌, ◌<◌, ◌≤◌, Bytes, IsByte, All, Bool, true, ◌&&◌, Option, none, some, [],
  ◌∷◌, ◌≡◌, refl, sym, ap, ◌↔◌, Result, ok, err, if◌then◌else◌, ltb, leb, bytes_eq, bytes_eq_iff,
  text_lt, text_le, arith,
}
use tari_vault.Domain.Base64.{Base64}
use tari_vault.Domain.Chrono.{Instant, max_seconds, year_10000, Chrono}
use tari_vault.Domain.Proof.{SerdeJson}
use tari_vault.Vault.{Aead, Crypto}
use tari_vault.Auth.{HttpCrates}

abbrev all_bytes : Bytes → Bool
all_bytes [] = true
all_bytes (b ∷ bs) = ltb b 256 && all_bytes bs

pub all_bytes_iff : (s : Bytes) → (all_bytes s ≡ true) ↔ All IsByte s
all_bytes_iff [] = (λ h. tt, λ h. refl)
all_bytes_iff (b ∷ bs) =
    (λ h. ground (arith, all_bytes_iff bs), λ h. ground (arith, all_bytes_iff bs))

abbrev checked : Bytes → Option Bytes
checked s = if all_bytes s then some s else none

pub checked-some : (s b : Bytes) → checked s ≡ some b → (s ≡ b) × All IsByte b
checked-some s b h = ground (arith, all_bytes_iff s)

pub checked-same : (s b : Bytes) → checked s ≡ some b → b ≡ s
checked-same s b h = sym (checked-some s b h).0

pub checked_bytes : (b : Bytes) → All IsByte b → checked b ≡ some b
checked_bytes b h = rw ((all_bytes_iff b).1 h)

abbrev pub engine : Base64
engine = record {
  to_text = λ b. b;
  of_text = checked;
  reason = λ s. "Invalid symbol";
  of_text-to_text = checked_bytes;
  of_text-All = λ s b h. (checked-some s b h).1;
  to_text-of_text = checked-same;
}

abbrev last_instant : Instant
last_instant = 2 * year_10000

abbrev plus : Instant → ℕ → Option Instant
plus now secs =
    if leb secs max_seconds && leb (now + secs * 10 ^ 9) last_instant
    then some (now + secs * 10 ^ 9)
    else none

abbrev stamp : Instant → Bytes
stamp t = if ltb t year_10000 then b'0' ∷ t ∷ [] else b'+' ∷ t ∷ []

abbrev read_stamp : Bytes → Result String Instant
read_stamp (c ∷ t ∷ []) = ok t
read_stamp _ = err "premature end of input"

abbrev four_digits : Bytes → Result String Instant
four_digits (c ∷ t ∷ []) = if c == b'+' then err "input contains invalid characters" else ok t
four_digits _ = err "premature end of input"

pub stamp-order :
    (t u : Instant) → t < year_10000 → u < year_10000 → text_le (stamp t) (stamp u) ≡ leb t u
unfolding text_le text_lt
stamp-order t u h k = ground arith

pub stamp-late :
    (t u : Instant)
    → year_10000 ≤ t
    → t ≤ last_instant
    → u < year_10000
    → text_le (stamp t) (stamp u) ≡ true
unfolding text_le text_lt
stamp-late t u h fits k = ground arith

pub plus-in_range :
    (now secs : ℕ)
    → secs ≤ max_seconds
    → now + secs * 10 ^ 9 ≤ last_instant
    → plus now secs ≡ some (now + secs * 10 ^ 9)
plus-in_range now secs h k = ground arith

pub plus-too_long : (now secs : ℕ) → max_seconds < secs → plus now secs ≡ none
plus-too_long now secs h = ground arith

pub read_stamp-stamp : (t : Instant) → t ≤ last_instant → read_stamp (stamp t) ≡ ok t
read_stamp-stamp t h = ground arith

pub four_digits-stamp :
    (t : Instant) → t ≤ last_instant → t < year_10000 → four_digits (stamp t) ≡ ok t
four_digits-stamp t h early = ground arith

pub four_digits-late :
    (t : Instant)
    → year_10000 ≤ t
    → t ≤ last_instant
    → (e : String) × (four_digits (stamp t) ≡ err e)
four_digits-late t late h = ("input contains invalid characters", ground arith)

abbrev pub calendar : Chrono
calendar = record {
  latest = last_instant;
  add_seconds = plus;
  add_seconds-in_range = plus-in_range;
  add_seconds-too_long = plus-too_long;
  to_rfc3339 = stamp;
  parse_from_rfc3339 = four_digits;
  parse-to_rfc3339 = four_digits-stamp;
  parse-to_rfc3339_late = four_digits-late;
  text_le-to_rfc3339 = stamp-order;
  to_rfc3339_late = stamp-late;
  serialize = stamp;
  deserialize = read_stamp;
  deserialize-serialize = read_stamp-stamp;
}

abbrev cipher : Aead
cipher = record {
  encrypt = λ key nonce plain. checked plain;
  decrypt = λ key nonce text. some text;
  decrypt-encrypt = λ key nonce plain text h. ap some (sym (checked-some plain text h).0);
  encrypt-All = λ key nonce plain text h. (checked-some plain text h).1;
}

abbrev pub suite : Crypto
suite = record { base64 = engine; chrono = calendar; aead = cipher }

-- A JSON value is its text; an empty text is no JSON.
abbrev parse_value : Bytes → Result String Bytes
parse_value [] = err "EOF while parsing a value"
parse_value (b ∷ bs) = ok (b ∷ bs)

abbrev pub texts : SerdeJson
texts = record {
  Value = Bytes;
  to_string = λ v. v;
  to_vec = λ v. ok v;
  from_slice = parse_value;
  from_str = parse_value;
}

pub some-same : (v s : Bytes) → Option.some v ≡ some s → s ≡ v
some-same v s h = ground arith

abbrev pub crates : HttpCrates
crates = record {
  to_str = λ v. some v;
  ct_eq = bytes_eq;
  to_str-same = some-same;
  ct_eq_iff = bytes_eq_iff;
}
