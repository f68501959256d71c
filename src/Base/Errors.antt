-- ===== src/Base/Errors.antt =====
-- Go's `error` values as data: one constructor for each place that makes an error, and the wrapping
-- of `fmt.Errorf("...%w", err)`. A `nil` error is `none` of `Option Error`.
use mathlib.Core.Path.{◌≡◌, refl}
use mathlib.Core.Logic.{◌⊎◌, inl, inr}
use mathlib.Core.Bool.{Bool, true, false}
use Prim.Native.Nat.{ℕ}
use wifi_presence.Base.Text.{Bytes}

pub data Error : Type 0 where
  -- encoding/hex and strconv
  invalid_byte : ℕ → Error
  odd_length : Error
  bad_syntax : Bytes → Error
  out_of_range : Bytes → Error
  unexpected_eof : Error
  -- presence
  bad_mac_length : ℕ → Error
  mac_too_short : Error
  hass_required : Error
  hostapd_required : Error
  -- hostapd
  empty_message : Error
  invalid_mac : Bytes → Error
  station_fail : Error
  invalid_line : Bytes → Error
  unknown_cmd : Bytes → Error
  terminating : Error
  unexpected_response : Bytes → Bytes → Error
  unexpected_message : Bytes → Error
  path_too_long : Bytes → Error
  -- hass
  blank : Bytes → Error
  token_timeout : Bytes → Error
  -- an error of the operating system, the network or the MQTT client
  external : ℕ → Error
  -- `fmt.Errorf("<text>: %w", err)`
  wrapped : Bytes → Error → Error

-- `errors.As(err, &unknown)` for `hostapd.ErrUnknownCmd`.
unfoldable pub as_unknown_cmd : Error → Bool
as_unknown_cmd (wrapped _ e) = as_unknown_cmd e
as_unknown_cmd (unknown_cmd _) = true
as_unknown_cmd _ = false

-- `errors.Is(err, hostapd.ErrTerminating)`.
unfoldable pub is_terminating : Error → Bool
is_terminating (wrapped _ e) = is_terminating e
is_terminating terminating = true
is_terminating _ = false

-- A Go pair `(A, error)`.
pub data Result {ℓ} (A : Type ℓ) : Type ℓ where
  ok : A → Result A
  err : Error → Result A

infixl 5 ◌>>=◌
abbrev pub ◌>>=◌ {ℓ κ} : {A : Type ℓ} {B : Type κ} → Result A → (A → Result B) → Result B
ok a >>= f = f a
err e >>= f = err e

pub >>=-cases {ℓ κ} :
    {A : Type ℓ} {B : Type κ} {y : B} (r : Result A) (g : A → Result B)
    → (r >>= g) ≡ ok y
    → (x : A) × (r ≡ ok x) × (g x ≡ ok y)
>>=-cases (err _) g e = cc
>>=-cases (ok x) g e = (x, refl, e)

pub Result-cases {ℓ} :
    {A : Type ℓ} (r : Result A) → ((a : A) × (r ≡ ok a)) ⊎ ((e : Error) × (r ≡ err e))
Result-cases (ok a) = inl (a, refl)
Result-cases (err e) = inr (e, refl)
