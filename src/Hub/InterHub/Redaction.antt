-- ===== src/Hub/InterHub/Redaction.antt =====
-- `redact_payload` of api/hub/providers/interhub.py: what of an answer may be stored.
use homtech_hub.Prelude.{
  Text, Bool, ◌≡◌, refl, true, false, List, [], ◌∷◌, map, Json, null, boolean, integer, real,
  string, array, object, Items, no_items, item, Fields, no_fields, field, if◌then◌else◌, codes,
  text_eq, any, lower, inl, inr, ap, ◌⊎◌, arith,
}

abbrev pub secret_keys : List Text
secret_keys =
    codes "gift_code"
    ∷ codes "code"
    ∷ codes "pin"
    ∷ codes "voucher"
    ∷ codes "password"
    ∷ codes "secret"
    ∷ []

-- `str(key).lower() in SECRET_KEYS`
unfoldable pub is_secret : Text → Bool
unfolding any lower
is_secret k = any (text_eq (map lower k)) secret_keys

abbrev pub mask : Json
mask = string (codes "[REDACTED]")

unfoldable mutual
  pub redact_payload : Json → Json
  redact_payload (array xs) = array (redact_items xs)
  redact_payload (object fs) = object (redact_fields fs)
  redact_payload null = null
  redact_payload (boolean b) = boolean b
  redact_payload (integer n) = integer n
  redact_payload (real d) = real d
  redact_payload (string t) = string t

  pub redact_items : Items → Items
  redact_items no_items = no_items
  redact_items (item v xs) = item (redact_payload v) (redact_items xs)

  pub redact_fields : Fields → Fields
  redact_fields no_fields = no_fields
  redact_fields (field k v fs) =
      field k (if is_secret k then mask else redact_payload v) (redact_fields fs)

-- Nothing under a secret key, at any depth, but the mask.
abbrev mutual
  pub IsClean : Json → Type 0
  IsClean (array xs) = AreClean xs
  IsClean (object fs) = HasClean fs
  IsClean null = Unit
  IsClean (boolean b) = Unit
  IsClean (integer n) = Unit
  IsClean (real d) = Unit
  IsClean (string t) = Unit

  pub AreClean : Items → Type 0
  AreClean no_items = Unit
  AreClean (item v xs) = IsClean v × AreClean xs

  pub HasClean : Fields → Type 0
  HasClean no_fields = Unit
  HasClean (field k v fs) = ((is_secret k ≡ false) ⊎ (v ≡ mask)) × IsClean v × HasClean fs

if-IsClean : (b : Bool) (v : Json) → IsClean v → IsClean (if b then mask else v)
if-IsClean true v h = tt
if-IsClean false v h = h

masked : (b : Bool) (v : Json) → (b ≡ false) ⊎ ((if b then mask else v) ≡ mask)
masked true v = inr refl
masked false v = inl refl

mutual
  unfolding redact_payload redact_items redact_fields

  redacted-IsClean : (v : Json) → IsClean (redact_payload v)
  redacted-IsClean (array xs) = redacted-AreClean xs
  redacted-IsClean (object fs) = redacted-HasClean fs
  redacted-IsClean null = tt
  redacted-IsClean (boolean b) = tt
  redacted-IsClean (integer n) = tt
  redacted-IsClean (real d) = tt
  redacted-IsClean (string t) = tt

  redacted-AreClean : (xs : Items) → AreClean (redact_items xs)
  redacted-AreClean no_items = tt
  redacted-AreClean (item v xs) = (redacted-IsClean v, redacted-AreClean xs)

  pub redacted-HasClean : (fs : Fields) → HasClean (redact_fields fs)
  redacted-HasClean no_fields = tt
  redacted-HasClean (field k v fs) = (
    masked (is_secret k) (redact_payload v),
    if-IsClean (is_secret k) (redact_payload v) (redacted-IsClean v),
    redacted-HasClean fs,
  )

mutual
  unfolding redact_payload redact_items redact_fields

  clean_kept : (v : Json) → IsClean v → redact_payload v ≡ v
  clean_kept (array xs) h = ap array (clean_items_kept xs h)
  clean_kept (object fs) h = ap object (clean_fields_kept fs h)
  clean_kept null h = refl
  clean_kept (boolean b) h = refl
  clean_kept (integer n) h = refl
  clean_kept (real d) h = refl
  clean_kept (string t) h = refl

  clean_items_kept : (xs : Items) → AreClean xs → redact_items xs ≡ xs
  clean_items_kept no_items h = refl
  clean_items_kept (item v xs) h = cc (clean_kept v h.0, clean_items_kept xs h.1)

  clean_fields_kept : (fs : Fields) → HasClean fs → redact_fields fs ≡ fs
  clean_fields_kept no_fields h = refl
  clean_fields_kept (field k v fs) h =
      ground (arith, h.0, clean_kept v h.1, clean_fields_kept fs h.2)

-- What is stored of an answer holds nothing under a secret key but the mask, at any depth, and to redact
-- it once more changes nothing.
pub redact_payload-IsClean :
    (v : Json) → IsClean (redact_payload v) × (redact_payload (redact_payload v) ≡ redact_payload v)
redact_payload-IsClean v = (redacted-IsClean v, clean_kept (redact_payload v) (redacted-IsClean v))
