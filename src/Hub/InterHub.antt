-- ===== src/Hub/InterHub.antt =====
-- api/hub/providers/interhub.py: what the adapter makes of InterHub's answers. The HTTP exchange
-- itself is left out; `show` stands for Python's `str` of a value that is no text.
pub mod Redaction
pub mod Answers
use homtech_hub.Prelude.{
  ℕ, zero, suc, ℤ, pos, negsuc, ◌^◌, ◌/◌, Text, Bool, true, false, not, ◌&&◌, ◌||◌, List, [], ◌∷◌,
  ◌++◌, map, Option, none, some, Decimal, finite, infinite, nan, zero_decimal, Json, null, boolean,
  integer, real, string, array, object, Items, no_items, item, Fields, no_fields, field, get_field,
  if◌then◌else◌, is_empty, strip, codes, text_eq, any, take, truncated, lower, eqb_ℤ, magnitude,
  parse_int, parse_decimal, ◌==◌, is_some, present, truthy, is_zero,
}
use homtech_hub.Hub.Provider.{ProviderState, processing, succeeded, failed, ProviderResult}
use homtech_hub.Hub.InterHub.Redaction.{redact_fields}

abbrev opposite : ℕ → ℤ
opposite zero = pos 0
opposite (suc n) = negsuc n

abbrev or_zero : Option Decimal → Decimal
or_zero none = zero_decimal
or_zero (some d) = d

-- `Decimal(str(value))`; the `str` of True, of a list or of a dict is no number.
abbrev decimal_of : Json → Decimal
decimal_of (integer n) = finite n 0
decimal_of (real d) = d
decimal_of (string t) = or_zero (parse_decimal t)
decimal_of _ = zero_decimal

unfoldable pub as_decimal : Option Json → Decimal
as_decimal v = elim (present v) [ none ↦ zero_decimal | some w ↦ decimal_of w ]

unfoldable pub provider_state : Bool → ℤ → ProviderState
provider_state success status =
    if success && eqb_ℤ status (pos 1)
    then processing
    else if success && eqb_ℤ status (pos 0)
    then succeeded
    else failed

-- Towards zero, as `int` rounds a float.
abbrev truncate : ℤ → ℕ → ℤ
truncate (pos c) s = pos (c / 10 ^ s)
truncate (negsuc c) s = opposite (magnitude (negsuc c) / 10 ^ s)

abbrev or_int_zero : Option ℤ → ℤ
or_int_zero none = pos 0
or_int_zero (some n) = n

-- `int(value)`, with 0 for `TypeError` and `ValueError`; an infinite float raises `OverflowError`, which
-- the adapter does not catch: `none`.
abbrev pub int_of : Json → Option ℤ
int_of null = some (pos 0)
int_of (boolean b) = some (if b then pos 1 else pos 0)
int_of (integer n) = some n
int_of (real (finite c s)) = some (truncate c s)
int_of (real (infinite _)) = none
int_of (real nan) = some (pos 0)
int_of (string t) = some (or_int_zero (parse_int t))
int_of (array _) = some (pos 0)
int_of (object _) = some (pos 0)

unfoldable pub status_of : Option Json → Option ℤ
status_of v = elim (present v) [ none ↦ some (pos 0) | some w ↦ int_of w ]

abbrev pub fields_of : Json → Fields
fields_of (object fs) = fs
fields_of _ = no_fields

-- The names under which InterHub returns a code, in the order of the search.
abbrev pub code_keys : List Text
code_keys = codes "gift_code" ∷ codes "code" ∷ codes "pin" ∷ codes "voucher" ∷ []

module _ (show : Json → Text) where
  -- `str(value or "")`
  abbrev pub text_of : Option Json → Text
  text_of v = elim (present v) [ none ↦ [] | some (string t) ↦ t | some w ↦ show w ]

  unfoldable pub first_code : List Text → Fields → Text
  first_code [] fs = []
  first_code (k ∷ keys) fs =
      let value = strip (text_of (get_field k fs)) in
      let rest = first_code keys fs in if is_empty value then rest else value

  -- The search of the nested `params`, if they are a dict.
  abbrev nested_code : Option Json → Text
  nested_code (some (object fs)) = first_code code_keys fs
  nested_code _ = []

  unfoldable pub extract_secret : Fields → Text
  unfolding first_code
  extract_secret data_fields =
      let nested = nested_code (get_field (codes "params") data_fields) in
      if is_empty nested then first_code code_keys data_fields else nested

  abbrev pub normalized : Fields → Fields → ℤ → ProviderResult
  normalized data_fields redacted status =
      let success = is_some (present (get_field (codes "success") data_fields)) in
      record {
        state = provider_state success status;
        success = success;
        status = status;
        message = truncated (text_of (get_field (codes "message") data_fields));
        amount = as_decimal (get_field (codes "amount") data_fields);
        fixed_amount = as_decimal (get_field (codes "fixed_amount") data_fields);
        provider_transaction_id =
            take 200 (text_of (get_field (codes "transaction_id") data_fields));
        secret_value = extract_secret data_fields;
        public_payload = redacted;
      }

  -- `_normalize`, or the `OverflowError` of `int(data["status"])`
  unfoldable pub normalize : Json → Option ProviderResult
  unfolding status_of provider_state as_decimal extract_secret
  normalize payload =
      let fs = fields_of payload in
      elim (status_of (get_field (codes "status") fs)) [
        | none ↦ none
        | some status ↦ some (normalized fs (redact_fields fs) status)
      ]
