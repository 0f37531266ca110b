-- ===== src/Airpay/Catalogue/Keys.antt =====
-- The items of an accepted catalogue of api/airpay_runtime/airpay_service.py, and what different ids mean.
use homtech_hub.Prelude.{
  ℤ, Text, ◌≡◌, refl, ap, subst, Bool, true, false, Bool-cases, inl, inr, List, [], ◌∷◌, map,
  Option, none, some, Option-cases, some-injective, ◌>>=◌, Json, null, boolean, integer, real,
  string, array, object, All, any, is_empty, strip, text_eq, text_eq_refl, text_eq_sym, is_in,
  no_repeats, keep, arith,
}
use homtech_hub.Airpay.Catalogue.{AirpayItem, InputField, stripped_text, fresh_id, then_items}

pub stripped_text-full :
    (v : Option Json) (t : Text) → stripped_text v ≡ some t → is_empty t ≡ false
stripped_text-full (some (string u)) t h = elim (Bool-cases (is_empty (strip u))) [
  | inl blank ↦ absurd (ground (arith, blank, h))
  | inr full ↦ ground (arith, full, h)
]
stripped_text-full none t h = absurd (ground (arith, h))
stripped_text-full (some null) t h = absurd (ground (arith, h))
stripped_text-full (some (boolean b)) t h = absurd (ground (arith, h))
stripped_text-full (some (integer n)) t h = absurd (ground (arith, h))
stripped_text-full (some (real d)) t h = absurd (ground (arith, h))
stripped_text-full (some (array xs)) t h = absurd (ground (arith, h))
stripped_text-full (some (object fs)) t h = absurd (ground (arith, h))

abbrev pub id_of : AirpayItem → Text
id_of s = s.service_id

-- An item of the catalogue: nothing that names it is blank.
abbrev pub IsNamed : AirpayItem → Type 0
IsNamed s = (is_empty s.service_id ≡ false) × (is_empty s.title ≡ false)

-- What a round of the loop has found when it succeeds.
pub built :
    (id title : Option Text) (type : Option ℤ) (fixed : Option (Option Bool))
    (inputs displays : Option (List InputField)) (group country : Text) (s : AirpayItem)
    → (id >>= λ id. title >>= λ title. type >>= λ type. fixed >>= λ fixed. inputs >>= λ inputs.
        displays >>= λ displays. some (record {
          service_id = id;
          title = title;
          type = type;
          group = group;
          country = country;
          fixed_payment = fixed;
          inputs = inputs;
          displays = displays;
        }))
      ≡ some s
    → (id ≡ some s.service_id) × (title ≡ some s.title)
built none title type fixed inputs displays group country s h = absurd (ground (arith, h))
built (some id) none type fixed inputs displays group country s h = absurd (ground (arith, h))
built (some id) (some title) none fixed inputs displays group country s h =
    absurd (ground (arith, h))
built (some id) (some title) (some type) none inputs displays group country s h =
    absurd (ground (arith, h))
built (some id) (some title) (some type) (some fixed) none displays group country s h =
    absurd (ground (arith, h))
built (some id) (some title) (some type) (some fixed) (some inputs) none group country s h =
    absurd (ground (arith, h))
built (some id) (some title) (some type) (some fixed) (some inputs) (some displays) group country s
      h =
    let same = some-injective _ _ h in
    (ap (λ (s : AirpayItem). some s.service_id) same, ap (λ (s : AirpayItem). some s.title) same)

pub fresh_id-fresh :
    (ids : List Text) (o : Option Text) (id : Text)
    → fresh_id ids o ≡ some id
    → (o ≡ some id) × (is_in id ids ≡ false)
fresh_id-fresh ids none id h = absurd (ground (arith, h))
fresh_id-fresh ids (some i) id h = elim (Bool-cases (is_in i ids)) [
  | inl seen ↦ absurd (ground (arith, seen, h))
  | inr fresh ↦
      let same : i ≡ id = some-injective _ _ (ground (arith, fresh, h)) in
      (ap some same, subst (λ t. is_in t ids ≡ false) same fresh)
]

pub then_items-cases :
    (o : Option AirpayItem) (later : AirpayItem → Option (List AirpayItem))
    (items : List AirpayItem)
    → then_items o later ≡ some items
    → (s : AirpayItem) × (rest : List AirpayItem) × (o ≡ some s)
      × (later s ≡ some rest)
      × (s ∷ rest ≡ items)
then_items-cases none later items h = absurd (ground (arith, h))
then_items-cases (some s) later items h = elim (Option-cases (later s)) [
  | inl nothing ↦ absurd (ground (arith, nothing, h))
  | inr (rest, e) ↦ (s, rest, refl, e, some-injective _ _ (ground (arith, e, h)))
]

-- The ids of a catalogue are new ones, all different, and its items are named.
pub record IsKeyed (ids : List Text) (items : List AirpayItem) : Type 0 where
  pub unseen : All (λ (s : AirpayItem). is_in s.service_id ids ≡ false) items
  pub different : no_repeats (map id_of items) ≡ true
  pub named : All IsNamed items

pub unseen-cons :
    (id : Text) (ids : List Text) (items : List AirpayItem)
    → All (λ (s : AirpayItem). is_in s.service_id (id ∷ ids) ≡ false) items
    → All (λ (s : AirpayItem). is_in s.service_id ids ≡ false) items
      × (is_in id (map id_of items) ≡ false)
unfolding is_in any
unseen-cons id ids [] a = (tt, refl)
unseen-cons id ids (s ∷ items) (h, a) =
    let (rest, other) = unseen-cons id ids items a in
    let differ : text_eq id s.service_id ≡ false =
      text_eq_sym s.service_id id (ground (arith, h)) in
    ((ground (arith, h), rest), ground (arith, differ, other))

pub IsKeyed-cons :
    (ids : List Text) (s : AirpayItem) (items : List AirpayItem)
    → (is_in s.service_id ids ≡ false) × IsNamed s
    → IsKeyed (s.service_id ∷ ids) items
    → IsKeyed ids (s ∷ items)
unfolding no_repeats
IsKeyed-cons ids s items (fresh, name) k =
    let (rest, other) = unseen-cons s.service_id ids items k.unseen in
    record {
      unseen = (fresh, rest);
      different = ground (arith, other, k.different);
      named = (name, k.named);
    }

-- Among different ids, each is that of one item.
pub none_with :
    (id : Text) (items : List AirpayItem)
    → is_in id (map id_of items) ≡ false
    → keep (λ (t : AirpayItem). text_eq t.service_id id) items ≡ []
unfolding is_in any keep
none_with id [] h = refl
none_with id (s ∷ items) h =
    rw (text_eq_sym id s.service_id (ground (arith, h))) (none_with id items (ground (arith, h)))

pub past :
    (x : AirpayItem) (all : List AirpayItem) (items : List AirpayItem)
    → is_in x.service_id (map id_of items) ≡ false
    → All (λ s. keep (λ (t : AirpayItem). text_eq t.service_id s.service_id) all ≡ s ∷ []) items
    → All
        (λ s. keep (λ (t : AirpayItem). text_eq t.service_id s.service_id) (x ∷ all) ≡ s ∷ [])
        items
unfolding is_in any keep
past x all [] h a = tt
past x all (s ∷ items) h (here, a) = (
  (let differ : text_eq x.service_id s.service_id ≡ false = ground (arith, h) in rw differ here),
  past x all items (ground (arith, h)) a,
)

pub only_itself :
    (items : List AirpayItem)
    → no_repeats (map id_of items) ≡ true
    → All (λ s. keep (λ (t : AirpayItem). text_eq t.service_id s.service_id) items ≡ s ∷ []) items
unfolding no_repeats keep
only_itself [] h = tt
only_itself (s ∷ items) h = (
  rw (text_eq_refl s.service_id) (ap (◌∷◌ s) (none_with s.service_id items (ground (arith, h)))),
  past s items items (ground (arith, h)) (only_itself items (ground (arith, h))),
)
