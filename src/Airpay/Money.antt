-- ===== src/Airpay/Money.antt =====
-- Amounts of api/airpay_runtime: `amount_value` of airpay_preparation.py and `available_airpay_funds` of
-- airpay_service.py. An accepted amount is a number of cents.
pub mod Exact
use homtech_hub.Prelude.{
  add_ℤ, ℕ, zero, suc, ◌+◌, ◌-◌, ◌*◌, ◌/◌, ◌%◌, ◌^◌, ℤ, pos, negsuc, pos_part, neg_part, Text, Bool,
  true, false, not, ◌&&◌, ◌||◌, [], ◌∷◌, Option, none, some, Json, null, boolean, integer, real,
  string, array, object, Decimal, finite, infinite, nan, ltb, leb, leb_ℤ, ◌==◌, if◌then◌else◌,
  codes, parse_decimal, scaled, is_finite, lt_decimal, zero_decimal,
}
use homtech_hub.Airpay.Http.{Try, returns, raises, http}

abbrev pub bad_amount : Text
bad_amount = codes "Сумма должна быть положительным числом с точностью до копеек"

-- `Decimal(str(value))`; a bool is refused before, and the `str` of other values is no number.
abbrev pub decimal_value : Option Json → Option Decimal
decimal_value none = none
decimal_value (some null) = none
decimal_value (some (boolean b)) = none
decimal_value (some (integer n)) = some (finite n 0)
decimal_value (some (real d)) = some d
decimal_value (some (string t)) = parse_decimal t
decimal_value (some (array xs)) = none
decimal_value (some (object fs)) = none

-- Positive, at most `maximum` cents, and in whole cents.
unfoldable pub cents_of : ℕ → Option Decimal → Option ℕ
cents_of maximum (some (finite (pos c) s)) =
    if ltb 0 c && leb (c * 100) (maximum * 10 ^ s) && (c * 100) % 10 ^ s == 0
    then some (c * 100 / 10 ^ s)
    else none
cents_of maximum _ = none

-- Decimal("999999999.99")
abbrev pub max_amount : ℕ
max_amount = 99999999999

-- `value in (None, '')`
abbrev pub is_blank : Option Json → Bool
is_blank none = true
is_blank (some null) = true
is_blank (some (string [])) = true
is_blank _ = false

-- `amount_value(value, required=True, maximum=…)`
unfoldable pub required_amount : ℕ → Option Json → Try ℕ
unfolding cents_of
required_amount maximum value = elim (cents_of maximum (decimal_value value)) [
  | none ↦ raises (http 422 bad_amount)
  | some cents ↦ returns cents
]

-- `amount_value(value)`
unfoldable pub optional_amount : Option Json → Try (Option ℕ)
unfolding required_amount
optional_amount value =
    if is_blank value then returns none else elim (required_amount max_amount value) [
      | raises e ↦ raises e
      | returns cents ↦ returns (some cents)
    ]

-- The dict of `get_balance`.
pub record Balance : Type 0 where
  pub configured : Bool
  pub balance : Decimal
  pub overdraft : Decimal
  pub currency : Text

abbrev pub bad_balance : Text
bad_balance = codes "Airpay вернул некорректный баланс или овердрафт"

-- The deposit and the permitted credit together; the sum is exact.
unfoldable pub available_funds : Balance → Try Decimal
available_funds b = elim b.balance [
  | finite c s ↦ elim b.overdraft [
    | finite d t ↦
        if b.configured && leb_ℤ (pos 0) d
        then returns (finite (add_ℤ (scaled c t) (scaled d s)) (s + t))
        else raises (http 502 bad_balance)
    | infinite _ ↦ raises (http 502 bad_balance)
    | nan ↦ raises (http 502 bad_balance)
  ]
  | infinite _ ↦ raises (http 502 bad_balance)
  | nan ↦ raises (http 502 bad_balance)
]

abbrev pub as_money : ℕ → Decimal
as_money cents = finite (pos cents) 2

-- `funds < amount`, of finite values
unfoldable pub falls_short : Decimal → ℕ → Bool
falls_short funds cents = elim (lt_decimal funds (as_money cents)) [ none ↦ true | some t ↦ t ]
