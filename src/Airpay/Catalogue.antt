-- ===== src/Airpay/Catalogue.antt =====
-- The catalogue of services: `normalize_airpay_fields`, `normalize_airpay_services` and `get_service` of
-- api/airpay_runtime/airpay_service.py. `show` is `str` of a value that is no text, and `none` is the
-- ValueError that the callers turn into an HTTPException.
pub mod Keys
pub mod Unique
use homtech_hub.Prelude.{
  ℕ, ℤ, Text, Bool, true, false, not, ◌&&◌, ◌||◌, List, [], ◌∷◌, ◌++◌, map, Option, none, some,
  ◌>>=◌, Json, null, boolean, integer, string, array, object, Items, no_items, item, Fields,
  get_field, present, is_zero, is_empty, length, if◌then◌else◌, ◌==◌, codes, text_eq, strip, is_in,
  keep,
}
use homtech_hub.Airpay.Http.{Try, returns, raises, http}

pub record InputField : Type 0 where
  pub name : Text
  pub title : Text
  pub required : Bool
  pub regexp : Text

pub record AirpayItem : Type 0 where
  pub service_id : Text
  pub title : Text
  pub type : ℤ
  pub group : Text
  pub country : Text
  pub fixed_payment : Option Bool
  pub inputs : List InputField
  pub displays : List InputField

-- `field.get(key, False)`, which has to be a bool
abbrev pub bool_or_false : Option Json → Option Bool
bool_or_false none = some false
bool_or_false (some (boolean b)) = some b
bool_or_false (some v) = none

-- A bool, or None
abbrev pub bool_or_null : Option Json → Option (Option Bool)
bool_or_null none = some none
bool_or_null (some null) = some none
bool_or_null (some (boolean b)) = some (some b)
bool_or_null (some v) = none

-- A text that is not blank, stripped
abbrev pub stripped_text : Option Json → Option Text
stripped_text (some (string t)) = if is_empty (strip t) then none else some (strip t)
stripped_text v = none

-- `type(value) is int`
abbrev pub int_value : Option Json → Option ℤ
int_value (some (integer n)) = some n
int_value v = none

abbrev pub cons_field : Option InputField → Option (List InputField) → Option (List InputField)
cons_field (some f) (some fs) = some (f ∷ fs)
cons_field (some f) none = none
cons_field none fs = none

-- `type(payload['result']) is int and payload['result'] == 0`
abbrev pub is_success : Option Json → Bool
is_success (some (integer n)) = is_zero n
is_success v = false

abbrev pub unconfirmed_catalogue : Text
unconfirmed_catalogue = codes "Airpay не подтвердил получение каталога"

abbrev pub bad_catalogue : Text
bad_catalogue = codes "Airpay вернул некорректный каталог услуг"

abbrev pub no_parameters : Text
no_parameters = codes "Airpay не вернул параметры выбранной услуги"

abbrev pub fresh_id : List Text → Option Text → Option Text
fresh_id ids (some id) = if is_in id ids then none else some id
fresh_id ids none = none

abbrev pub then_items :
    Option AirpayItem → (AirpayItem → Option (List AirpayItem)) → Option (List AirpayItem)
then_items none later = none
then_items (some s) later = elim (later s) [ none ↦ none | some rest ↦ some (s ∷ rest) ]

abbrev pub or_bad_catalogue : Option (List AirpayItem) → Try (List AirpayItem)
or_bad_catalogue none = raises (http 502 bad_catalogue)
or_bad_catalogue (some items) = returns items

abbrev pub only_one : List AirpayItem → Try AirpayItem
only_one (s ∷ []) = returns s
only_one items = raises (http 502 no_parameters)

abbrev pub pick : Text → Try (List AirpayItem) → Try AirpayItem
pick id (raises e) = raises e
pick id (returns items) = only_one (keep (λ (s : AirpayItem). text_eq s.service_id id) items)

module _ (show : Json → Text) where
  -- `str(value or '')`
  abbrev pub shown_or_empty : Option Json → Text
  shown_or_empty v = elim (present v) [ none ↦ [] | some (string t) ↦ t | some w ↦ show w ]

  unfoldable pub input_field : Json → Option InputField
  unfolding get_field codes strip
  input_field (object fs) = do
    name ← stripped_text (get_field (codes "name") fs)
    required ← bool_or_false (get_field (codes "required") fs)
    some (record {
      name = name;
      title = strip (shown_or_empty (get_field (codes "title") fs));
      required = required;
      regexp = shown_or_empty (get_field (codes "regexp") fs);
    })
  input_field v = none

  unfoldable pub input_fields : Items → Option (List InputField)
  unfolding input_field
  input_fields no_items = some []
  input_fields (item v items) = cons_field (input_field v) (input_fields items)

  -- `normalize_airpay_fields`
  abbrev pub normalize_fields : Option Json → Option (List InputField)
  normalize_fields none = some []
  normalize_fields (some null) = some []
  normalize_fields (some (array items)) = input_fields items
  normalize_fields (some v) = none

  -- A service id: a text or an int, not blank
  abbrev pub service_id_of : Option Json → Option Text
  service_id_of (some (string t)) = stripped_text (some (string t))
  service_id_of (some (integer n)) = stripped_text (some (string (show (integer n))))
  service_id_of v = none

  -- One round of the loop; `ids` are those before it.
  unfoldable pub normalize_service : List Text → Json → Option AirpayItem
  unfolding get_field codes strip input_fields is_in
  normalize_service ids (object fs) = do
    id ← fresh_id ids (service_id_of (get_field (codes "serviceId") fs))
    title ← stripped_text (get_field (codes "name") fs)
    type ← int_value (get_field (codes "type") fs)
    fixed ← bool_or_null (get_field (codes "fixedPayment") fs)
    inputs ← normalize_fields (get_field (codes "inputs") fs)
    displays ← normalize_fields (get_field (codes "displays") fs)
    some (record {
      service_id = id;
      title = title;
      type = type;
      group = shown_or_empty (get_field (codes "group") fs);
      country = shown_or_empty (get_field (codes "country") fs);
      fixed_payment = fixed;
      inputs = inputs;
      displays = displays;
    })
  normalize_service ids v = none

  -- The loop: the items after those with the given ids.
  unfoldable pub service_items : List Text → Items → Option (List AirpayItem)
  service_items ids no_items = some []
  service_items ids (item v items) =
      then_items (normalize_service ids v) (λ s. service_items (s.service_id ∷ ids) items)

  abbrev pub catalogue_of : Option Json → Try (List AirpayItem)
  catalogue_of (some (array services)) = or_bad_catalogue (service_items [] services)
  catalogue_of v = raises (http 502 bad_catalogue)

  unfoldable pub normalize_services : Json → Try (List AirpayItem)
  unfolding get_field codes service_items
  normalize_services (object payload) =
      if not (is_success (get_field (codes "result") payload))
      then raises (http 502 unconfirmed_catalogue)
      else catalogue_of (get_field (codes "services") payload)
  normalize_services v = raises (http 502 unconfirmed_catalogue)

  -- `get_service`, over the answer of the supplier to a question for the service.
  unfoldable pub get_service : Text → Json → Try AirpayItem
  get_service id payload = pick id (normalize_services payload)
