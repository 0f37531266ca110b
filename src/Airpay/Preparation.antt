-- ===== src/Airpay/Preparation.antt =====
-- The request of a preparation: `build_check_payload` and `validate_patterns` of
-- api/airpay_runtime/airpay_preparation.py, and how `AirpayBatch.renew` of airpay_batch.py reads the form
-- back. A float of an amount is held by its cents.
pub mod Slots
pub mod Form
pub mod Reading
pub mod Renewal
use homtech_hub.Prelude.{
  ℕ, Text, Bool, true, false, not, ◌&&◌, ◌||◌, List, [], ◌∷◌, ◌++◌, map, Option, none, some, Json,
  string, real, object, Fields, no_fields, field, get_field, set_field, has_fields, is_empty,
  is_some, or_else, any, drop, if◌then◌else◌, ltb, codes, text_eq, strip, starts_with, is_in,
  no_repeats, lookup, put,
}
use homtech_hub.Airpay.Http.{Try, returns, raises, http, refuse_if, ◌>>=◌, ◌>>◌}
use homtech_hub.Airpay.Catalogue.{InputField}
use homtech_hub.Airpay.Money.{optional_amount, as_money}

-- What the preparation reads of a service.
pub record ServiceForm : Type 0 where
  pub service_id : Text
  pub inputs : List InputField

-- `(title, field['regexp'], value)`
pub record FieldCheck : Type 0 where
  pub title : Text
  pub regexp : Text
  pub value : Text

abbrev pub name_of : InputField → Text
name_of f = f.name

abbrev pub account : Text
account = codes "account"

unfoldable pub is_top : Text → Bool
unfolding codes text_eq
is_top name =
    text_eq name account || text_eq name (codes "identityCard") || text_eq name (codes "fullName")

-- `name[3:] if name.startswith('ev_') else name`
unfoldable pub extra_name : Text → Text
unfolding starts_with codes drop
extra_name name = if starts_with (codes "ev_") name then drop 3 name else name

-- Where the request has a field.
pub data Slot : Type 0 where
  top_level : Text → Slot
  in_extras : Text → Slot

unfoldable pub slot_of : Text → Slot
unfolding extra_name codes text_eq
slot_of name = if is_top name then top_level name else in_extras (extra_name name)

pub record Filled : Type 0 where
  pub payload : Fields
  pub extras : Fields
  pub checks : List FieldCheck

abbrev pub unclear_fields : Text
unclear_fields = codes "Airpay вернул неоднозначные дополнительные поля"

abbrev pub place : Slot → Text → Filled → Try Filled
place (top_level name) value acc =
    returns (record acc { payload = set_field name (string value) acc.payload })
place (in_extras name) value acc =
    if is_empty name || is_some (get_field name acc.extras)
    then raises (http 502 unclear_fields)
    else returns (record acc { extras = set_field name (string value) acc.extras })

abbrev pub fill_in : Text → Text
fill_in title = codes "Заполните поле «" ++ title ++ codes "»"

abbrev pub with_check : InputField → Text → Filled → Filled
with_check f value acc = if is_empty f.regexp then acc else record acc {
  checks =
      acc.checks
      ++ record { title = or_else f.title f.name; regexp = f.regexp; value = value } ∷ [];
}

-- One round of the loop over the definitions.
unfoldable pub fill_field : InputField → Text → Filled → Try Filled
unfolding slot_of codes text_eq
fill_field f value acc =
    if is_empty value
    then (if f.required || text_eq f.name account
        then raises (http 422 (fill_in (or_else f.title f.name)))
        else returns acc)
    else place (slot_of f.name) value (with_check f value acc)

unfoldable pub fill : List InputField → (Text → Text) → Filled → Try Filled
unfolding fill_field
fill [] value acc = returns acc
fill (f ∷ fs) value acc = fill_field f (value f.name) acc >>= fill fs value

abbrev pub account_field : InputField
account_field = record {
  name = account;
  title = codes "Идентификатор";
  required = true;
  regexp = [];
}

-- With the field `account`, which every service has.
unfoldable pub definitions : List InputField → List InputField
definitions inputs =
    if is_in account (map name_of inputs) then inputs else inputs ++ account_field ∷ []

-- `fields.get(name, '').strip()`
unfoldable pub value_in : List (Text × Text) → Text → Text
value_in fields name = elim (lookup name fields) [ none ↦ [] | some t ↦ strip t ]

abbrev pub with_amount : Text → Option ℕ → Fields → Fields
with_amount key none payload = payload
with_amount key (some cents) payload = set_field key (real (as_money cents)) payload

abbrev pub client_gives_less : Option ℕ → Option ℕ → Bool
client_gives_less (some to) (some from) = ltb from to
client_gives_less _ _ = false

abbrev pub with_extras : Filled → Fields
with_extras out =
    if has_fields out.extras
    then set_field (codes "extras") (object out.extras) out.payload
    else out.payload

abbrev pub start_of : ServiceForm → Filled
start_of service = record {
  payload = field (codes "serviceId") (string service.service_id) no_fields;
  extras = no_fields;
  checks = [];
}

abbrev pub repeated_fields : Text
repeated_fields = codes "Airpay вернул повторяющиеся поля услуги"

abbrev pub unknown_fields : Text
unknown_fields = codes "В форме есть неизвестные поля услуги"

abbrev pub is_unknown : List InputField → Text × Text → Bool
is_unknown fs (name, value) = not (is_in name (map name_of fs))

-- The titles, with a comma and a space between them.
abbrev pub joined : List Text → Text
joined [] = []
joined (t ∷ []) = t
joined (t ∷ ts) = t ++ codes ", " ++ joined ts

-- `run_checks` is what the child process prints, the titles of the checks that fail, or nothing if it fails
-- itself.
module _ (run_checks : List FieldCheck → Option (List Text)) where
  unfoldable pub validate_patterns : List FieldCheck → Try (Unit {0})
  validate_patterns [] = returns tt
  validate_patterns (c ∷ checks) = elim (run_checks (c ∷ checks)) [
    | none ↦
        raises
          (http 422 (codes "Не удалось проверить формат полей услуги; уточните правила у Airpay"))
    | some [] ↦ returns tt
    | some (title ∷ titles) ↦
        raises (http 422 (codes "Проверьте формат: " ++ joined (title ∷ titles)))
  ]

  -- What follows the loop.
  abbrev pub finish_payload : Option Json → Option Json → Filled → Try Fields
  finish_payload amount_to amount_from out =
      validate_patterns out.checks
      >> (optional_amount amount_to >>= λ to. optional_amount amount_from >>= λ from.
          if client_gives_less to from
          then raises
              (http 422 (codes "Принятая от клиента сумма не может быть меньше суммы к зачислению"))
          else returns (
              with_amount (codes "amountFrom") from
                (with_amount (codes "amountTo") to (with_extras out))))

  unfoldable pub build_check_payload :
      ServiceForm → List (Text × Text) → Option Json → Option Json → Try Fields
  unfolding fill definitions value_in validate_patterns optional_amount no_repeats any
  build_check_payload service fields amount_to amount_from =
      refuse_if (not (no_repeats (map name_of service.inputs))) 502 repeated_fields
      >> (refuse_if (any (is_unknown (definitions service.inputs)) fields) 422 unknown_fields
          >> (fill (definitions service.inputs) (value_in fields) (start_of service)
              >>= finish_payload amount_to amount_from))

abbrev pub with_value :
    Text → Option Text → Option (List (Text × Text)) → Option (List (Text × Text))
with_value name (some value) (some rest) = some ((name, value) ∷ rest)
with_value name (some value) none = none
with_value name none rest = none

-- `renew`: `str` of a value of the saved request; nothing stands for the `KeyError` or `AttributeError` of a
-- request that the preparation has not made.
module _ (show : Json → Text) where
  abbrev pub text_of : Option Json → Text
  text_of none = []
  text_of (some (string t)) = t
  text_of (some v) = show v

  unfoldable pub field_value : Fields → Text → Option Text
  unfolding get_field extra_name codes text_eq
  field_value request name =
      if is_top name
      then some (text_of (get_field name request))
      else elim (get_field (codes "extras") request) [
        | none ↦ some []
        | some (object extras) ↦ some (text_of (get_field (extra_name name) extras))
        | some v ↦ none
      ]

  unfoldable pub field_values : Fields → List InputField → Option (List (Text × Text))
  field_values request [] = some []
  field_values request (f ∷ fs) =
      with_value f.name (field_value request f.name) (field_values request fs)

  abbrev pub with_account : Option (List (Text × Text)) → Option Json → Option (List (Text × Text))
  with_account (some values) (some value) = some (put account (text_of (some value)) values)
  with_account (some values) none = none
  with_account none value = none

  unfoldable pub renewed_fields : List InputField → Fields → Option (List (Text × Text))
  renewed_fields inputs request =
      with_account (field_values request inputs) (get_field account request)
