-- ===== src/Airpay/JobResult.antt =====
-- `hide_codes` of api/airpay_runtime/airpay_jobs.py: what of a job's result may be stored.
use homtech_hub.Prelude.{
  Text, Bool, true, false, ◌≡◌, Json, null, boolean, integer, real, string, array, object, Items,
  no_items, item, Fields, no_fields, field, if◌then◌else◌, codes, text_eq, refl, ap, arith,
}

abbrev pub is_pin_code : Text → Bool
is_pin_code key = text_eq key (codes "pin_code")

unfoldable mutual
  pub hide_codes : Json → Json
  hide_codes (array xs) = array (hide_items xs)
  hide_codes (object fs) = object (hide_fields fs)
  hide_codes null = null
  hide_codes (boolean b) = boolean b
  hide_codes (integer n) = integer n
  hide_codes (real d) = real d
  hide_codes (string t) = string t

  pub hide_items : Items → Items
  hide_items no_items = no_items
  hide_items (item v xs) = item (hide_codes v) (hide_items xs)

  pub hide_fields : Fields → Fields
  hide_fields no_fields = no_fields
  hide_fields (field key v fs) =
      if is_pin_code key then hide_fields fs else field key (hide_codes v) (hide_fields fs)

-- No field of the name pin_code, at any depth.
abbrev mutual
  pub IsCodeless : Json → Type 0
  IsCodeless (array xs) = AreCodeless xs
  IsCodeless (object fs) = HasNoCode fs
  IsCodeless null = Unit
  IsCodeless (boolean b) = Unit
  IsCodeless (integer n) = Unit
  IsCodeless (real d) = Unit
  IsCodeless (string t) = Unit

  pub AreCodeless : Items → Type 0
  AreCodeless no_items = Unit
  AreCodeless (item v xs) = IsCodeless v × AreCodeless xs

  pub HasNoCode : Fields → Type 0
  HasNoCode no_fields = Unit
  HasNoCode (field key v fs) = (is_pin_code key ≡ false) × IsCodeless v × HasNoCode fs

kept-HasNoCode :
    (b : Bool) (key : Text) (v : Json) (fs : Fields)
    → is_pin_code key ≡ b
    → IsCodeless v
    → HasNoCode fs
    → HasNoCode (if b then fs else field key v fs)
kept-HasNoCode true key v fs same hv hfs = hfs
kept-HasNoCode false key v fs same hv hfs = (same, hv, hfs)

mutual
  unfolding hide_codes hide_items hide_fields

  hidden-IsCodeless : (v : Json) → IsCodeless (hide_codes v)
  hidden-IsCodeless (array xs) = hidden-AreCodeless xs
  hidden-IsCodeless (object fs) = hidden-HasNoCode fs
  hidden-IsCodeless null = tt
  hidden-IsCodeless (boolean b) = tt
  hidden-IsCodeless (integer n) = tt
  hidden-IsCodeless (real d) = tt
  hidden-IsCodeless (string t) = tt

  hidden-AreCodeless : (xs : Items) → AreCodeless (hide_items xs)
  hidden-AreCodeless no_items = tt
  hidden-AreCodeless (item v xs) = (hidden-IsCodeless v, hidden-AreCodeless xs)

  hidden-HasNoCode : (fs : Fields) → HasNoCode (hide_fields fs)
  hidden-HasNoCode no_fields = tt
  hidden-HasNoCode (field key v fs) =
      kept-HasNoCode (is_pin_code key) key (hide_codes v) (hide_fields fs) refl
        (hidden-IsCodeless v) (hidden-HasNoCode fs)

mutual
  unfolding hide_codes hide_items hide_fields

  codeless_kept : (v : Json) → IsCodeless v → hide_codes v ≡ v
  codeless_kept (array xs) h = ap array (codeless_items_kept xs h)
  codeless_kept (object fs) h = ap object (codeless_fields_kept fs h)
  codeless_kept null h = refl
  codeless_kept (boolean b) h = refl
  codeless_kept (integer n) h = refl
  codeless_kept (real d) h = refl
  codeless_kept (string t) h = refl

  codeless_items_kept : (xs : Items) → AreCodeless xs → hide_items xs ≡ xs
  codeless_items_kept no_items h = refl
  codeless_items_kept (item v xs) h = cc (codeless_kept v h.0, codeless_items_kept xs h.1)

  codeless_fields_kept : (fs : Fields) → HasNoCode fs → hide_fields fs ≡ fs
  codeless_fields_kept no_fields h = refl
  codeless_fields_kept (field key v fs) h =
      ground (arith, h.0, codeless_kept v h.1, codeless_fields_kept fs h.2)

-- What is stored of a job's result has no field of the name pin_code, at any depth, and to hide the codes
-- once more changes nothing.
pub hide_codes-IsCodeless :
    (v : Json) → IsCodeless (hide_codes v) × (hide_codes (hide_codes v) ≡ hide_codes v)
hide_codes-IsCodeless v = (hidden-IsCodeless v, codeless_kept (hide_codes v) (hidden-IsCodeless v))
