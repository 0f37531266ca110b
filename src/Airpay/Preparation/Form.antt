-- ===== src/Airpay/Preparation/Form.antt =====
-- The form that `renew` of api/airpay_runtime/airpay_batch.py fills, as an association list.
use homtech_hub.Prelude.{
  Text, ◌≡◌, refl, ap, subst, ◌∙◌, true, false, ◌||◌, Bool-cases, inl, inr, List, [], ◌∷◌, ◌++◌,
  map, Option, none, some, any, text_eq, text_eq_iff, text_eq_sym, text_eq_refl, arith, strip,
  lstrip, strip-strip, is_in, lookup, put, lookup-put, lookup-put-other,
}
use homtech_hub.Airpay.Http.{Try, returns, raises, ◌>>=◌}
use homtech_hub.Airpay.Catalogue.{InputField}
use homtech_hub.Airpay.Preparation.{
  name_of, Filled, fill, fill_field, account, definitions, value_in, is_unknown,
}

-- Only the values of the fields count.
pub fill-same :
    (fs : List InputField) (value value' : Text → Text) (acc : Filled)
    → ((name : Text) → is_in name (map name_of fs) ≡ true → value' name ≡ value name)
    → fill fs value' acc ≡ fill fs value acc
unfolding fill is_in any
fill-same [] value value' acc same = refl
fill-same (f ∷ fs) value value' acc same = rw (same f.name (ground (arith, text_eq_refl f.name))) (
    go (fill_field f (value f.name) acc)
      (λ next. fill-same fs value value' next (λ name h. same name (ground (arith, h)))))
  where
    go :
        (t : Try Filled)
        → ((next : Filled) → fill fs value' next ≡ fill fs value next)
        → (t >>= fill fs value') ≡ (t >>= fill fs value)
    go (returns next) rest = rest next
    go (raises e) rest = refl

is_in-append :
    (name : Text) (fs gs : List InputField)
    → is_in name (map name_of (fs ++ gs))
      ≡ (is_in name (map name_of fs) || is_in name (map name_of gs))
unfolding is_in any
is_in-append name [] gs = refl
is_in-append name (f ∷ fs) gs = rw (is_in-append name fs gs) (ground arith)

is_in-account : (name : Text) → is_in name (account ∷ []) ≡ text_eq name account
unfolding is_in any
is_in-account name = ground arith

-- What is defined is an input or the account.
pub definitions-names :
    (inputs : List InputField) (name : Text)
    → is_in name (map name_of (definitions inputs))
      ≡ (is_in name (map name_of inputs) || text_eq name account)
unfolding definitions
definitions-names inputs name = elim (Bool-cases (is_in account (map name_of inputs))) [
  | inl there ↦ rw there (elim (Bool-cases (text_eq name account)) [
    | inl same ↦
        let listed : is_in name (map name_of inputs) ≡ true =
          ap (λ n. is_in n (map name_of inputs)) ((text_eq_iff name account).0 same) ∙ there in
        rw listed refl
    | inr other ↦ rw other (ground arith)
  ])
  | inr absent ↦ rw absent (
      is_in-append name inputs _
      ∙ ap (λ b. is_in name (map name_of inputs) || b) (is_in-account name))
]

pub account_is_defined :
    (inputs : List InputField) → is_in account (map name_of (definitions inputs)) ≡ true
account_is_defined inputs =
    rw (definitions-names inputs account) (rw (text_eq_refl account) (ground arith))

abbrev pub pair_of : (Text → Text) → InputField → Text × Text
pair_of value f = (f.name, value f.name)

lookup-pairs :
    (fs : List InputField) (value : Text → Text) (name : Text)
    → is_in name (map name_of fs) ≡ true
    → lookup name (map (pair_of value) fs) ≡ some (value name)
unfolding is_in any lookup
lookup-pairs [] value name h = absurd (ground (arith, h))
lookup-pairs (f ∷ fs) value name h = elim (Bool-cases (text_eq f.name name)) [
  | inl same ↦ rw same (ap (λ n. some (value n)) ((text_eq_iff f.name name).0 same))
  | inr other ↦
      rw other (lookup-pairs fs value name (ground (arith, h, text_eq_sym f.name name other)))
]

-- The form of a renewal.
abbrev pub renewed_form : List InputField → (Text → Text) → List (Text × Text)
renewed_form inputs value = put account (value account) (map (pair_of value) inputs)

value_in-found :
    (d : List (Text × Text)) (name t : Text) → lookup name d ≡ some t → value_in d name ≡ strip t
unfolding value_in
value_in-found d name t found =
    ap (λ o. elim o as (λ _. Text) [ none ↦ [] | some u ↦ strip u ]) found

pub renewed_value :
    (inputs : List InputField) (value : Text → Text) (name : Text)
    → ((n : Text) → strip (value n) ≡ value n)
    → is_in name (map name_of (definitions inputs)) ≡ true
    → value_in (renewed_form inputs value) name ≡ value name
renewed_value inputs value name tight h =
    let pairs = map (pair_of value) inputs in
    elim (Bool-cases (text_eq account name)) [
      | inl same ↦
          subst (λ n. value_in (renewed_form inputs value) n ≡ value n)
            ((text_eq_iff account name).0 same)
            (value_in-found (renewed_form inputs value) account (value account)
                (lookup-put account (value account) pairs)
              ∙ tight account)
      | inr other ↦
          let listed : is_in name (map name_of inputs) ≡ true =
            ground (arith, definitions-names inputs name, h, text_eq_sym account name other) in
          value_in-found (renewed_form inputs value) name (value name) (
            lookup-put-other account name (value account) pairs other
            ∙ lookup-pairs inputs value name listed)
          ∙ tight name
    ]

put-unknown :
    (fs : List InputField) (k v : Text) (d : List (Text × Text))
    → is_unknown fs (k, v) ≡ false
    → any (is_unknown fs) d ≡ false
    → any (is_unknown fs) (put k v d) ≡ false
unfolding put any
put-unknown fs k v [] known none_unknown = rw known refl
put-unknown fs k v ((j, w) ∷ d) known none_unknown = elim (Bool-cases (text_eq j k)) [
  | inl same ↦ rw same (ground (arith, none_unknown))
  | inr other ↦
      rw other
        (ground (arith, none_unknown, put-unknown fs k v d known (ground (arith, none_unknown))))
]

pairs-unknown :
    (fs gs : List InputField) (value : Text → Text)
    → ((n : Text) → is_in n (map name_of gs) ≡ true → is_in n (map name_of fs) ≡ true)
    → any (is_unknown fs) (map (pair_of value) gs) ≡ false
unfolding any is_in
pairs-unknown fs [] value listed = refl
pairs-unknown fs (g ∷ gs) value listed =
    rw (listed g.name (ground (arith, text_eq_refl g.name)))
      (pairs-unknown fs gs value (λ n h. listed n (ground (arith, h))))

strip_nothing : strip [] ≡ []
unfolding strip lstrip
strip_nothing = refl

pub value_in-strip :
    (d : List (Text × Text)) (name : Text) → strip (value_in d name) ≡ value_in d name
unfolding value_in
value_in-strip d name = go (lookup name d)
  where
    go :
        (o : Option Text)
        → strip (elim o as (λ _. Text) [ none ↦ [] | some t ↦ strip t ])
          ≡ elim o as (λ _. Text) [ none ↦ [] | some t ↦ strip t ]
    go none = strip_nothing
    go (some t) = strip-strip t

pub inputs_are_defined :
    (inputs : List InputField) (n : Text)
    → is_in n (map name_of inputs) ≡ true
    → is_in n (map name_of (definitions inputs)) ≡ true
inputs_are_defined inputs n h = ground (arith, definitions-names inputs n, h)

pub renewed_form-known :
    (inputs : List InputField) (value : Text → Text)
    → any (is_unknown (definitions inputs)) (renewed_form inputs value) ≡ false
renewed_form-known inputs value =
    put-unknown (definitions inputs) account (value account) (map (pair_of value) inputs)
      (rw (account_is_defined inputs) refl)
      (pairs-unknown (definitions inputs) inputs value (inputs_are_defined inputs))
