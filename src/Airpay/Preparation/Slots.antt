-- ===== src/Airpay/Preparation/Slots.antt =====
-- Where the loop of `build_check_payload` (api/airpay_runtime/airpay_preparation.py) puts the fields.
use homtech_hub.Prelude.{
  Text, ◌≡◌, refl, sym, ap, ◌∙◌, Bool, true, false, not, ◌&&◌, ◌||◌, Bool-cases, inl, inr, List, [],
  ◌∷◌, Option, some, Json, string, get_field, set_field, is_empty, is_some, any, text_eq,
  text_eq_sym, All, arith, get_field-set_field, get_field-set_field-other,
}
use homtech_hub.Airpay.Http.{returns-injective, Try, returns, raises, ◌>>=◌}
use homtech_hub.Airpay.Catalogue.{InputField}
use homtech_hub.Airpay.Preparation.{
  Slot, top_level, in_extras, slot_of, Filled, place, with_check, fill_field, fill, account,
}

abbrev pub same_slot : Slot → Slot → Bool
same_slot (top_level a) (top_level b) = text_eq a b
same_slot (in_extras a) (in_extras b) = text_eq a b
same_slot _ _ = false

-- No two of the fields have one place in the request.
unfoldable pub slots_differ : List InputField → Bool
unfolding any slot_of
slots_differ [] = true
slots_differ (f ∷ fs) =
    not (any (λ (g : InputField). same_slot (slot_of g.name) (slot_of f.name)) fs)
    && slots_differ fs

abbrev pub get_slot : Slot → Filled → Option Json
get_slot (top_level name) acc = get_field name acc.payload
get_slot (in_extras name) acc = get_field name acc.extras

-- What a place holds that had `before`, after a value has been put there, if it is not empty.
abbrev pub slot_after : Text → Option Json → Option Json
slot_after [] before = before
slot_after (c ∷ t) before = some (string (c ∷ t))

same_slot_sym : (s s' : Slot) → same_slot s s' ≡ false → same_slot s' s ≡ false
same_slot_sym (top_level a) (top_level b) differ = text_eq_sym a b differ
same_slot_sym (top_level a) (in_extras b) differ = refl
same_slot_sym (in_extras a) (top_level b) differ = refl
same_slot_sym (in_extras a) (in_extras b) differ = text_eq_sym a b differ

-- What a success of `place` in the extras gives.
placed_extra :
    (name value : Text) (acc out : Filled)
    → place (in_extras name) value acc ≡ returns out
    → record acc { extras = set_field name (string value) acc.extras } ≡ out
placed_extra name value acc out h =
    elim (Bool-cases (is_empty name || is_some (get_field name acc.extras))) [
      | inl refused ↦ absurd (ground (arith, refused, h))
      | inr free ↦ returns-injective _ _ (ground (arith, free, h))
    ]

place-slot :
    (s : Slot) (value : Text) (acc out : Filled)
    → place s value acc ≡ returns out
    → get_slot s out ≡ some (string value)
place-slot (top_level name) value acc out h =
    ap (λ (o : Filled). get_field name o.payload) (sym (returns-injective _ _ h))
    ∙ get_field-set_field name (string value) acc.payload
place-slot (in_extras name) value acc out h =
    ap (λ (o : Filled). get_field name o.extras) (sym (placed_extra name value acc out h))
    ∙ get_field-set_field name (string value) acc.extras

place-other :
    (s s' : Slot) (value : Text) (acc out : Filled)
    → same_slot s s' ≡ false
    → place s value acc ≡ returns out
    → get_slot s' out ≡ get_slot s' acc
place-other (top_level a) (top_level b) value acc out other h =
    ap (λ (o : Filled). get_field b o.payload) (sym (returns-injective _ _ h))
    ∙ get_field-set_field-other a b (string value) acc.payload other
place-other (top_level a) (in_extras b) value acc out other h =
    ap (λ (o : Filled). get_field b o.extras) (sym (returns-injective _ _ h))
place-other (in_extras a) (top_level b) value acc out other h =
    ap (λ (o : Filled). get_field b o.payload) (sym (placed_extra a value acc out h))
place-other (in_extras a) (in_extras b) value acc out other h =
    ap (λ (o : Filled). get_field b o.extras) (sym (placed_extra a value acc out h))
    ∙ get_field-set_field-other a b (string value) acc.extras other

-- The checks do not count.
get_slot-with_check :
    (f : InputField) (value : Text) (acc : Filled) (s : Slot)
    → get_slot s (with_check f value acc) ≡ get_slot s acc
get_slot-with_check f value acc (top_level a) = ground arith
get_slot-with_check f value acc (in_extras a) = ground arith

fill_field-slot :
    (f : InputField) (value : Text) (acc out : Filled)
    → fill_field f value acc ≡ returns out
    → get_slot (slot_of f.name) out ≡ slot_after value (get_slot (slot_of f.name) acc)
unfolding fill_field
fill_field-slot f [] acc out h = elim (Bool-cases (f.required || text_eq f.name account)) [
  | inl missing ↦ absurd (ground (arith, missing, h))
  | inr skipped ↦
      ap (get_slot (slot_of f.name)) (sym (returns-injective _ _ (ground (arith, skipped, h))))
]
fill_field-slot f (c ∷ t) acc out h =
    place-slot (slot_of f.name) (c ∷ t) (with_check f (c ∷ t) acc) out h

fill_field-other :
    (f : InputField) (value : Text) (acc out : Filled) (s : Slot)
    → same_slot (slot_of f.name) s ≡ false
    → fill_field f value acc ≡ returns out
    → get_slot s out ≡ get_slot s acc
unfolding fill_field
fill_field-other f [] acc out s other h = elim (Bool-cases (f.required || text_eq f.name account)) [
  | inl missing ↦ absurd (ground (arith, missing, h))
  | inr skipped ↦ ap (get_slot s) (sym (returns-injective _ _ (ground (arith, skipped, h))))
]
fill_field-other f (c ∷ t) acc out s other h =
    place-other (slot_of f.name) s (c ∷ t) (with_check f (c ∷ t) acc) out other h
    ∙ get_slot-with_check f (c ∷ t) acc s

pub fill-cases :
    (f : InputField) (fs : List InputField) (value : Text → Text) (acc out : Filled)
    → fill (f ∷ fs) value acc ≡ returns out
    → (next : Filled) × (fill_field f (value f.name) acc ≡ returns next)
      × (fill fs value next ≡ returns out)
unfolding fill
fill-cases f fs value acc out h = go (fill_field f (value f.name) acc) refl h
  where
    go :
        (t : Try Filled)
        → fill_field f (value f.name) acc ≡ t
        → (t >>= fill fs value) ≡ returns out
        → (next : Filled) × (fill_field f (value f.name) acc ≡ returns next)
          × (fill fs value next ≡ returns out)
    go (returns next) e h = (next, e, h)
    go (raises x) e h = absurd (ground (arith, h))

pub fill-other :
    (fs : List InputField) (value : Text → Text) (acc out : Filled) (s : Slot)
    → any (λ (g : InputField). same_slot (slot_of g.name) s) fs ≡ false
    → fill fs value acc ≡ returns out
    → get_slot s out ≡ get_slot s acc
unfolding fill any
fill-other [] value acc out s other h = ap (get_slot s) (sym (returns-injective _ _ h))
fill-other (f ∷ fs) value acc out s other h =
    let (next, first, rest) = fill-cases f fs value acc out h in
    fill-other fs value next out s (ground (arith, other)) rest
    ∙ fill_field-other f (value f.name) acc next s (ground (arith, other)) first

abbrev pub IsIn : (Text → Text) → Filled → Filled → InputField → Type 0
IsIn value acc out f =
    get_slot (slot_of f.name) out ≡ slot_after (value f.name) (get_slot (slot_of f.name) acc)

from_earlier :
    (fs : List InputField) (value : Text → Text) (acc next out : Filled) (s : Slot)
    → any (λ (g : InputField). same_slot (slot_of g.name) s) fs ≡ false
    → ((s' : Slot) → same_slot s s' ≡ false → get_slot s' next ≡ get_slot s' acc)
    → All (IsIn value next out) fs
    → All (IsIn value acc out) fs
unfolding any
from_earlier [] value acc next out s other same placed = tt
from_earlier (f ∷ fs) value acc next out s other same (here, placed) = (
  here
      ∙ ap (slot_after (value f.name))
          (same (slot_of f.name) (same_slot_sym (slot_of f.name) s (ground (arith, other)))),
  from_earlier fs value acc next out s (ground (arith, other)) same placed,
)

-- After the loop each field has its value in its place, if it is not empty.
pub fill-slots :
    (fs : List InputField) (value : Text → Text) (acc out : Filled)
    → slots_differ fs ≡ true
    → fill fs value acc ≡ returns out
    → All (IsIn value acc out) fs
unfolding slots_differ
fill-slots [] value acc out apart h = tt
fill-slots (f ∷ fs) value acc out apart h =
    let (next, first, rest) = fill-cases f fs value acc out h in
    (
      fill-other fs value next out (slot_of f.name) (ground (arith, apart)) rest
          ∙ fill_field-slot f (value f.name) acc next first,
      from_earlier fs value acc next out (slot_of f.name) (ground (arith, apart))
          (λ s' differ. fill_field-other f (value f.name) acc next s' differ first)
          (fill-slots fs value next out (ground (arith, apart)) rest),
    )
