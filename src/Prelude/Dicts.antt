-- ===== src/Prelude/Dicts.antt =====
-- A `dict` with `str` keys, as an association list, and what `set_field` leaves of a JSON object.
use mathlib.Core.Path.{◌≡◌, refl, ap, ◌∙◌}
use mathlib.Core.Logic.{inl, inr}
use mathlib.Core.Bool.{Bool, true, false, not, ◌&&◌}
use mathlib.Core.Option.{Option, none, some}
use mathlib.Core.List.{List, [], ◌∷◌}
use homtech_hub.Prelude.Tests.{if◌then◌else◌, Bool-cases}
use homtech_hub.Prelude.Lists.{any}
use homtech_hub.Prelude.Strings.{Text, text_eq, text_eq_iff, text_eq_refl}
use homtech_hub.Prelude.Values.{Json, Fields, no_fields, field, get_field, set_field}

-- `text in texts`
unfoldable pub is_in : Text → List Text → Bool
unfolding any
is_in t texts = any (text_eq t) texts

-- `len(set(texts)) == len(texts)`
unfoldable pub no_repeats : List Text → Bool
unfolding is_in
no_repeats [] = true
no_repeats (t ∷ texts) = not (is_in t texts) && no_repeats texts

module _ {ℓ} {A : Type ℓ} where
  unfoldable pub lookup : Text → List (Text × A) → Option A
  lookup k [] = none
  lookup k ((j, v) ∷ rest) = if text_eq j k then some v else lookup k rest

  -- `d[k] = v`
  unfoldable pub put : Text → A → List (Text × A) → List (Text × A)
  put k v [] = (k, v) ∷ []
  put k v ((j, w) ∷ rest) = if text_eq j k then (j, v) ∷ rest else (j, w) ∷ put k v rest

  pub lookup-put : (k : Text) (v : A) (d : List (Text × A)) → lookup k (put k v d) ≡ some v
  unfolding lookup put
  lookup-put k v [] = rw (text_eq_refl k) refl
  lookup-put k v ((j, w) ∷ d) = elim (Bool-cases (text_eq j k)) [
    | inl same ↦ rw same (rw same refl)
    | inr other ↦ rw other (rw other (lookup-put k v d))
  ]

  pub lookup-put-other :
      (k j : Text) (v : A) (d : List (Text × A))
      → text_eq k j ≡ false
      → lookup j (put k v d) ≡ lookup j d
  unfolding lookup put
  lookup-put-other k j v [] other = rw other refl
  lookup-put-other k j v ((i, w) ∷ d) other = elim (Bool-cases (text_eq i k)) [
    | inl same ↦
        let differs : text_eq i j ≡ false =
          ap (λ t. text_eq t j) ((text_eq_iff i k).0 same) ∙ other in
        rw same (rw differs refl)
    | inr moved ↦ rw moved (elim (Bool-cases (text_eq i j)) [
      | inl here ↦ rw here refl
      | inr there ↦ rw there (lookup-put-other k j v d other)
    ])
  ]

pub get_field-set_field :
    (k : Text) (v : Json) (fs : Fields) → get_field k (set_field k v fs) ≡ some v
unfolding get_field set_field
get_field-set_field k v no_fields = rw (text_eq_refl k) refl
get_field-set_field k v (field j w fs) = elim (Bool-cases (text_eq j k)) [
  | inl same ↦ rw same (rw (text_eq_refl k) refl)
  | inr other ↦ rw other (rw other (get_field-set_field k v fs))
]

pub get_field-set_field-other :
    (k j : Text) (v : Json) (fs : Fields)
    → text_eq k j ≡ false
    → get_field j (set_field k v fs) ≡ get_field j fs
unfolding get_field set_field
get_field-set_field-other k j v no_fields other = rw other refl
get_field-set_field-other k j v (field i w fs) other = elim (Bool-cases (text_eq i k)) [
  | inl same ↦
      let differs : text_eq i j ≡ false =
        ap (λ t. text_eq t j) ((text_eq_iff i k).0 same) ∙ other in
      rw same (rw differs (rw other refl))
  | inr moved ↦ rw moved (elim (Bool-cases (text_eq i j)) [
    | inl here ↦ rw here refl
    | inr there ↦ rw there (get_field-set_field-other k j v fs other)
  ])
]
