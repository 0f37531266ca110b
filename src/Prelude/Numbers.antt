-- ===== src/Prelude/Numbers.antt =====
-- Python's `int(text)` and `Decimal(text)`. Digits are the ASCII ones, and underscores are dropped.
use Prim.Native.Nat.{ℕ, zero, suc, ◌+◌, ◌-◌, ◌*◌, ◌^◌}
use mathlib.Core.Path.{◌≡◌, refl}
use mathlib.Core.Bool.{Bool, true, false, not, ◌&&◌, ◌||◌}
use mathlib.Core.Option.{Option, none, some}
use mathlib.Core.List.{[], ◌∷◌, ◌++◌, map}
use homtech_hub.Prelude.Tests.{◌==◌, leb, if◌then◌else◌}
use homtech_hub.Prelude.Lists.{length, keep}
use homtech_hub.Prelude.Strings.{Text, codes, text_eq, strip, is_empty}
use homtech_hub.Prelude.Int.{ℤ, pos, negsuc}
use homtech_hub.Prelude.Decimals.{Decimal, finite, infinite, nan}

abbrev is_digit : ℕ → Bool
is_digit c = leb b'0' c && leb c b'9'

-- The longest prefix of digits, and the rest.
unfoldable pub digits_of : Text → Text × Text
digits_of [] = ([], [])
digits_of (c ∷ s) =
    let (ds, rest) = digits_of s in if is_digit c then (c ∷ ds, rest) else ([], c ∷ s)

unfoldable pub value_of : ℕ → Text → ℕ
value_of acc [] = acc
value_of acc (c ∷ s) = value_of (acc * 10 + (c - b'0')) s

abbrev minus : ℕ → ℤ
minus zero = pos 0
minus (suc n) = negsuc n

abbrev signed : Bool → ℕ → ℤ
signed negative n = if negative then minus n else pos n

-- A sign, if there is one.
abbrev sign_of : Text → Bool × Text
sign_of [] = (false, [])
sign_of (c ∷ s) = if c == b'-' then (true, s) else if c == b'+' then (false, s) else (false, c ∷ s)

unfoldable pub lower : ℕ → ℕ
lower c = if leb b'A' c && leb c b'Z' then c + 32 else c

abbrev whole_number : Bool → Text × Text → Option ℤ
whole_number negative ([], rest) = none
whole_number negative (ds, []) = some (signed negative (value_of 0 ds))
whole_number negative (ds, c ∷ rest) = none

abbrev no_underscores : Text → Text
no_underscores s = keep (λ c. not (c == b'_')) (strip s)

-- `int(s)`, or `ValueError`
unfoldable pub parse_int : Text → Option ℤ
unfolding digits_of keep strip value_of
parse_int s =
    let (negative, rest) = sign_of (no_underscores s) in whole_number negative (digits_of rest)

-- c * 10 ^ (e - f)
abbrev shifted : Bool → ℕ → ℤ → ℕ → Decimal
shifted negative c (pos e) f =
    if leb f e
    then finite (signed negative (c * 10 ^ (e - f))) 0
    else finite (signed negative c) (f - e)
shifted negative c (negsuc e) f = finite (signed negative c) (f + suc e)

-- What may follow the digits: nothing, or an exponent.
abbrev exponent_of : Text → Option ℤ
exponent_of [] = some (pos 0)
exponent_of (c ∷ s) =
    if c == b'e'
    then (let (negative, rest) = sign_of s in whole_number negative (digits_of rest))
    else none

abbrev with_exponent : Bool → Text → Text → Option ℤ → Option Decimal
with_exponent negative whole fraction none = none
with_exponent negative whole fraction (some e) =
    if is_empty (whole ++ fraction)
    then none
    else some (shifted negative (value_of 0 (whole ++ fraction)) e (length fraction))

abbrev with_fraction : Bool → Text → Text → Option Decimal
with_fraction negative whole [] = with_exponent negative whole [] (exponent_of [])
with_fraction negative whole (c ∷ s) =
    if c == b'.'
    then (let (fraction, rest) = digits_of s in
        with_exponent negative whole fraction (exponent_of rest))
    else with_exponent negative whole [] (exponent_of (c ∷ s))

abbrev is_nan_text : Text → Bool
is_nan_text (b ∷ c ∷ d ∷ s) = text_eq (b ∷ c ∷ d ∷ []) (codes "nan") && is_empty (digits_of s).1
is_nan_text _ = false

-- "snan" is a NaN that raises earlier.
abbrev is_special : Text → Bool
is_special [] = false
is_special (c ∷ s) = is_nan_text (c ∷ s) || (c == b's' && is_nan_text s)

abbrev unsigned_decimal : Bool → Text → Option Decimal
unsigned_decimal negative s =
    if text_eq s (codes "inf") || text_eq s (codes "infinity")
    then some (infinite negative)
    else if is_special s
    then some nan
    else (let (whole, rest) = digits_of s in with_fraction negative whole rest)

-- `Decimal(s)`, or `InvalidOperation`
unfoldable pub parse_decimal : Text → Option Decimal
unfolding digits_of keep strip value_of lower codes text_eq
parse_decimal s =
    let (negative, rest) = sign_of (map lower (no_underscores s)) in unsigned_decimal negative rest

price_text : parse_decimal (codes " 12.50") ≡ some (finite (pos 1250) 2)
unfolding parse_decimal
price_text = refl
