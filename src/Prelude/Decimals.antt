-- ===== src/Prelude/Decimals.antt =====
-- Python's `decimal.Decimal` as far as the code uses it: a finite value is coefficient / 10 ^ scale.
-- An ordering comparison with NaN raises `InvalidOperation`, which is `none` here.
use Prim.Native.Nat.{ℕ, suc, ◌+◌, ◌-◌, ◌*◌, ◌%◌, ◌/◌, ◌^◌}
use mathlib.Core.Bool.{Bool, true, false, not, ◌||◌}
use mathlib.Core.Option.{Option, none, some}
use homtech_hub.Prelude.Tests.{◌==◌, ltb, leb, if◌then◌else◌}
use homtech_hub.Prelude.Int.{ℤ, pos, negsuc, leb_ℤ, add_ℤ}

pub data Decimal : Type 0 where
  finite : ℤ → ℕ → Decimal
  infinite : Bool → Decimal  -- true for the negative one
  nan : Decimal

-- coefficient * 10 ^ n
abbrev pub scaled : ℤ → ℕ → ℤ
scaled (pos c) n = pos (c * 10 ^ n)
scaled (negsuc c) n = negsuc (suc c * 10 ^ n - 1)

abbrev pub zero_decimal : Decimal
zero_decimal = finite (pos 0) 0

-- `numeric + numeric` of the database, where the values are finite or NaN
abbrev pub add_decimal : Decimal → Decimal → Decimal
add_decimal (finite c s) (finite d t) = finite (add_ℤ (scaled c t) (scaled d s)) (s + t)
add_decimal (finite _ _) b = b
add_decimal a _ = a

-- `a <= b`
abbrev pub le_decimal : Decimal → Decimal → Option Bool
le_decimal nan _ = none
le_decimal (finite _ _) nan = none
le_decimal (infinite _) nan = none
le_decimal (finite c s) (finite d t) = some (leb_ℤ (scaled c t) (scaled d s))
le_decimal (finite _ _) (infinite negative) = some (not negative)
le_decimal (infinite negative) (finite _ _) = some negative
le_decimal (infinite a) (infinite b) = some (a || not b)

-- `a < b`
abbrev pub lt_decimal : Decimal → Decimal → Option Bool
lt_decimal a b = elim (le_decimal b a) [ none ↦ none | some t ↦ some (not t) ]

abbrev pub is_finite : Decimal → Bool
is_finite (finite _ _) = true
is_finite (infinite _) = false
is_finite nan = false

abbrev pub magnitude : ℤ → ℕ
magnitude (pos n) = n
magnitude (negsuc n) = suc n

-- `n / 10 ^ s`, to the nearest, ties to the even one.
abbrev round_half_even : ℕ → ℕ → ℕ
round_half_even n s =
    let q = n / 10 ^ s in
    let r = n % 10 ^ s in
    if ltb (2 * r) (10 ^ s) then q else if 2 * r == 10 ^ s then q + q % 2 else q + 1

-- `a == a.quantize(Decimal("0.01"))`; `quantize` raises if its result has more than the context's
-- 28 digits, and on an infinite value.
abbrev pub in_cents : Decimal → Option Bool
in_cents (finite c s) =
    if leb (10 ^ 28) (round_half_even (magnitude c * 100) s)
    then none
    else some ((magnitude c * 100) % 10 ^ s == 0)
in_cents (infinite _) = none
in_cents nan = some false
