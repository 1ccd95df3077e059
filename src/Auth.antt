-- ===== src/Auth.antt =====
-- src/auth.rs: the bearer-token layer in front of an HTTP service with state `S` and errors `E`.
use tari_vault.Base.{
  ℕ, Bytes, strip_prefix, strip_prefix-append, strip_prefix-eq-some, ◌≡◌, refl, ap, sym, ◌∙◌, Bool,
  true, false, Option, none, some, [], ◌∷◌, ◌++◌, ok, Exec, if◌then◌else◌, arith, Bool-cases,
  Option-cases, inl, inr, ◌↔◌, ◌⊎◌,
}

-- The `http` and `subtle` crates. `to_str` reads a header value as text, where it is visible ASCII;
-- `ct_eq` compares two byte strings.
pub record HttpCrates : Type 0 where
  pub to_str : Bytes → Option Bytes
  pub ct_eq : Bytes → Bytes → Bool
  pub to_str-same : (v s : Bytes) → to_str v ≡ some s → s ≡ v
  pub ct_eq_iff : (a b : Bytes) → (ct_eq a b ≡ true) ↔ (a ≡ b)

pub record Request : Type 0 where
  pub authorization : Option Bytes
  pub body : Bytes

pub record Response : Type 0 where
  pub status : ℕ
  pub www_authenticate : Option Bytes
  pub body : Bytes

pub record BearerAuthLayer : Type 0 where
  pub token : Option Bytes

unfoldable pub new : Bytes → BearerAuthLayer
new token = record { token = some token }

unfoldable pub disabled : BearerAuthLayer
disabled = record { token = none }

unfoldable pub from_config : Option Bytes → BearerAuthLayer
unfolding new disabled
from_config none = disabled
from_config (some []) = disabled
from_config (some (b ∷ bs)) = new (b ∷ bs)

-- "Bearer ", and the realm of the challenge.
abbrev pub bearer : Bytes
bearer = b'B' ∷ b'e' ∷ b'a' ∷ b'r' ∷ b'e' ∷ b'r' ∷ b' ' ∷ []

abbrev challenge : Bytes
challenge =
    bearer
    ++ b'r' ∷ b'e' ∷ b'a' ∷ b'l' ∷ b'm' ∷ b'=' ∷ b'"' ∷ b't' ∷ b'a' ∷ b'r' ∷ b'i' ∷ b'_' ∷ b'v'
      ∷ b'a' ∷ b'u' ∷ b'l' ∷ b't' ∷ b'"' ∷ []

abbrev pub unauthorized : Response
unauthorized = record { status = 401; www_authenticate = some challenge; body = [] }

module _ (http : HttpCrates) where
  stripped : Option Bytes → Option Bytes
  stripped none = none
  stripped (some s) = strip_prefix bearer s

  provided : Option Bytes → Option Bytes
  unfolding stripped
  provided none = none
  provided (some v) = stripped (http.to_str v)

  auth_ok : Bytes → Option Bytes → Bool
  auth_ok expected none = false
  auth_ok expected (some p) = http.ct_eq p expected

  gate : {S E : Type 0} → Option Bytes → (Request → Exec S E Response) → Request → Exec S E Response
  unfolding provided auth_ok
  gate none inner req s = inner req s
  gate (some expected) inner req s =
      if auth_ok expected (provided req.authorization) then inner req s else (ok unauthorized, s)

  -- The service that the layer makes of `inner`.
  unfoldable pub call :
      {S E : Type 0} → BearerAuthLayer → (Request → Exec S E Response) → Request → Exec S E Response
  unfolding gate
  call layer inner req = gate layer.token inner req

  -- The header that admits a request: `Bearer `, then the token, and nothing else.
  abbrev pub Carries : Bytes → Request → Type 0
  Carries token req =
      (v : Bytes) × (req.authorization ≡ some v) × (v ≡ bearer ++ token) × (http.to_str v ≡ some v)

  abbrev admitted : Bytes → Request → Bool
  admitted token req = auth_ok token (provided req.authorization)

  stripped_lem : (s p : Bytes) → stripped (some s) ≡ some p → s ≡ bearer ++ p
  unfolding stripped
  stripped_lem s p e = strip_prefix-eq-some bearer s p e

  auth_ok-some : (token : Bytes) (o : Option Bytes) → auth_ok token o ≡ true → o ≡ some token
  unfolding auth_ok
  auth_ok-some token none e = absurd (ground arith)
  auth_ok-some token (some p) e = ap some ((http.ct_eq_iff p token).0 e)

  header_lem :
      (token : Bytes) (h : Option Bytes)
      → provided h ≡ some token
      → (v : Bytes) × (h ≡ some v) × (v ≡ bearer ++ token) × (http.to_str v ≡ some v)
  unfolding provided
  header_lem token none e = absurd (ground arith)
  header_lem token (some v) e = elim (Option-cases (http.to_str v)) [
    | inl unreadable ↦
        let impossible : stripped none ≡ some token = rw unreadable at e in
        absurd (unfold stripped in cc)
    | inr (s, read) ↦
        let same : s ≡ v = http.to_str-same v s read in
        let text : s ≡ bearer ++ token = stripped_lem s token (rw read at e) in
        (v, refl, sym same ∙ text, read ∙ ap some same)
  ]

  admitted-Carries : (token : Bytes) (req : Request) → admitted token req ≡ true → Carries token req
  admitted-Carries token req e = header_lem token req.authorization (auth_ok-some token _ e)

  Carries-admitted : (token : Bytes) (req : Request) → Carries token req → admitted token req ≡ true
  unfolding provided stripped auth_ok
  Carries-admitted token req (v, there, text, read) =
      rw (there, read, text, strip_prefix-append bearer token) ((http.ct_eq_iff token token).1 refl)

  module _ {S E : Type 0} (inner : Request → Exec S E Response) where
    -- With no token, or an empty one, in the configuration every request is passed on.
    pub disabled-call :
        (token : Option Bytes) (req : Request) (s : S)
        → (token ≡ none) ⊎ (token ≡ some [])
        → call (from_config token) inner req s ≡ inner req s
    unfolding call from_config
    disabled-call token req s (inl h) = rw h
    disabled-call token req s (inr h) = rw h

    -- With a token that is not empty in the configuration, a request is passed on if it carries the
    -- token; otherwise it is answered 401 with the challenge, and the service behind is not called.
    pub call-from_config :
        (b : ℕ) (bs : Bytes) (req : Request) (s : S)
        → (Carries (b ∷ bs) req × (call (from_config (some (b ∷ bs))) inner req s ≡ inner req s))
          ⊎ ((¬ Carries (b ∷ bs) req)
              × (call (from_config (some (b ∷ bs))) inner req s ≡ (ok unauthorized, s)))
    unfolding call from_config
    call-from_config b bs req s = elim (Bool-cases (admitted (b ∷ bs) req)) [
      | inl yes_ok ↦ inl (admitted-Carries (b ∷ bs) req yes_ok, rw yes_ok)
      | inr refused ↦ inr (λ h. absurd (cc (refused, Carries-admitted (b ∷ bs) req h)), rw refused)
    ]
