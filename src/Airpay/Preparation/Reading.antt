-- ===== src/Airpay/Preparation/Reading.antt =====
-- What `renew` of api/airpay_runtime/airpay_batch.py reads in the request that `build_check_payload` has made.
use homtech_hub.Prelude.{
  ℕ, Text, ◌≡◌, refl, sym, ap, subst, ◌∙◌, true, false, Bool-cases, inl, inr, [], ◌∷◌, Option, none,
  some, Json, object, Fields, no_fields, field, get_field, has_fields, text_eq, text_eq_iff,
  if◌then◌else◌, arith, codes, get_field-set_field, get_field-set_field-other,
}
use homtech_hub.Airpay.Preparation.{
  top_level, in_extras, slot_of, is_top, extra_name, Filled, account, with_amount, with_extras,
  field_value, text_of,
}
use homtech_hub.Airpay.Preparation.Slots.{get_slot, slot_after}

abbrev pub key_to : Text
key_to = codes "amountTo"

abbrev pub key_from : Text
key_from = codes "amountFrom"

abbrev pub key_extras : Text
key_extras = codes "extras"

with_amount-field :
    (key k : Text) (cents : Option ℕ) (payload : Fields)
    → text_eq key k ≡ false
    → get_field k (with_amount key cents payload) ≡ get_field k payload
with_amount-field key k none payload other = refl
with_amount-field key k (some c) payload other = get_field-set_field-other key k _ payload other

-- The finished request, without its amounts, is the filled one with its extras.
abbrev pub IsFinished : Filled → Fields → Type 0
IsFinished out payload =
    (to from : Option ℕ) × (payload
      ≡ with_amount key_from from (with_amount key_to to (with_extras out)))

pub top_names :
    (P : Text → Type 0) (name : Text)
    → is_top name ≡ true
    → P account
    → P (codes "identityCard")
    → P (codes "fullName")
    → P name
unfolding is_top
top_names P name top p q r = elim (Bool-cases (text_eq name account)) [
  | inl same ↦ subst P (sym ((text_eq_iff name account).0 same)) p
  | inr first ↦ elim (Bool-cases (text_eq name (codes "identityCard"))) [
    | inl same ↦ subst P (sym ((text_eq_iff name (codes "identityCard")).0 same)) q
    | inr second ↦
        subst P (sym ((text_eq_iff name (codes "fullName")).0 (ground (arith, top, first, second))))
          r
  ]
]

other_keys :
    (name : Text)
    → is_top name ≡ true
    → (text_eq key_to name ≡ false)
      × (text_eq key_from name ≡ false)
      × (text_eq key_extras name ≡ false)
unfolding codes text_eq
other_keys name top =
    top_names
      (λ name.
        (text_eq key_to name ≡ false)
        × (text_eq key_from name ≡ false)
        × (text_eq key_extras name ≡ false))
      name top (refl, refl, refl) (refl, refl, refl) (refl, refl, refl)

with_extras-field :
    (k : Text) (out : Filled)
    → text_eq key_extras k ≡ false
    → get_field k (with_extras out) ≡ get_field k out.payload
with_extras-field k out other = elim (Bool-cases (has_fields out.extras)) [
  | inl some_extras ↦
      rw some_extras (get_field-set_field-other key_extras k (object out.extras) out.payload other)
  | inr no_extras ↦ rw no_extras refl
]

with_extras-extras :
    (out : Filled)
    → get_field key_extras out.payload ≡ none
    → get_field key_extras (with_extras out)
      ≡ (if has_fields out.extras then some (object out.extras) else none)
with_extras-extras out absent = elim (Bool-cases (has_fields out.extras)) [
  | inl some_extras ↦
      rw some_extras (get_field-set_field key_extras (object out.extras) out.payload)
  | inr no_extras ↦ rw no_extras absent
]

extras_is_no_amount : (text_eq key_to key_extras ≡ false) × (text_eq key_from key_extras ≡ false)
unfolding codes text_eq
extras_is_no_amount = (refl, refl)

pub read_top :
    (name : Text) (out : Filled) (payload : Fields)
    → is_top name ≡ true
    → IsFinished out payload
    → get_field name payload ≡ get_field name out.payload
read_top name out payload top (to, from, e) =
    let (to_differs, from_differs, extras_differs) = other_keys name top in
    ap (get_field name) e
    ∙ with_amount-field key_from name from _ from_differs
    ∙ with_amount-field key_to name to _ to_differs
    ∙ with_extras-field name out extras_differs

read_extras :
    (out : Filled) (payload : Fields)
    → get_field key_extras out.payload ≡ none
    → IsFinished out payload
    → get_field key_extras payload
      ≡ (if has_fields out.extras then some (object out.extras) else none)
read_extras out payload absent (to, from, e) =
    ap (get_field key_extras) e
    ∙ with_amount-field key_from key_extras from _ extras_is_no_amount.1
    ∙ with_amount-field key_to key_extras to _ extras_is_no_amount.0
    ∙ with_extras-extras out absent

-- The value of a place that has been filled from nothing.
pub text_of-slot_after :
    (show : Json → Text) (value : Text) → text_of show (slot_after value none) ≡ value
text_of-slot_after show [] = refl
text_of-slot_after show (c ∷ t) = refl

nothing_filled : (value : Text) → slot_after value none ≡ none → value ≡ []
nothing_filled [] h = refl
nothing_filled (c ∷ t) h = absurd (ground (arith, h))

abbrev under_extras : (Json → Text) → Text → Option Json → Option Text
under_extras show name held = elim held [
  | none ↦ some []
  | some (object extras) ↦ some (text_of show (get_field name extras))
  | some v ↦ none
]

under_extras-filled :
    (show : Json → Text) (name value : Text) (extras : Fields)
    → get_field name extras ≡ slot_after value none
    → under_extras show name (if has_fields extras then some (object extras) else none) ≡ some value
unfolding get_field
under_extras-filled show name value no_fields filled =
    ap some (sym (nothing_filled value (sym filled)))
under_extras-filled show name value (field k v rest) filled =
    ap some (ap (text_of show) filled ∙ text_of-slot_after show value)

-- A field is read as it was filled.
pub slot_of_top : (name : Text) → is_top name ≡ true → slot_of name ≡ top_level name
unfolding slot_of
slot_of_top name top = rw top refl

pub slot_of_extra : (name : Text) → is_top name ≡ false → slot_of name ≡ in_extras (extra_name name)
unfolding slot_of
slot_of_extra name extra = rw extra refl

pub field_value-filled :
    (show : Json → Text) (name value : Text) (out : Filled) (payload : Fields)
    → get_field key_extras out.payload ≡ none
    → IsFinished out payload
    → get_slot (slot_of name) out ≡ slot_after value none
    → field_value show payload name ≡ some value
unfolding field_value
field_value-filled show name value out payload absent done filled =
    elim (Bool-cases (is_top name)) [
      | inl top ↦ rw top (
          ap some (
            ap (text_of show) (
              read_top name out payload top done
              ∙ sym (ap (λ s. get_slot s out) (slot_of_top name top))
              ∙ filled)
            ∙ text_of-slot_after show value))
      | inr extra ↦ rw extra (
          rw (read_extras out payload absent done) (
            under_extras-filled show (extra_name name) value out.extras
              (sym (ap (λ s. get_slot s out) (slot_of_extra name extra)) ∙ filled)))
    ]
