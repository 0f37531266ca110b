-- ===== src/Airpay/Preparation/Renewal.antt =====
-- `AirpayBatch.renew` of api/airpay_runtime/airpay_batch.py after `build_check_payload` of
-- airpay_preparation.py.
use homtech_hub.Prelude.{
  Text, ◌≡◌, refl, sym, ap, subst, ◌∙◌, Bool, true, false, not, Bool-cases, inl, inr, List, [], ◌∷◌,
  map, Option, none, some, Json, string, Fields, get_field, is_empty, any, text_eq, text_eq_iff,
  text_eq_refl, All, arith, codes, is_in, no_repeats,
}
use homtech_hub.Airpay.Http.{returns-injective, Try, returns, raises, ◌>>=◌, ◌>>◌, refuse_if}
use homtech_hub.Airpay.Money.{optional_amount}
use homtech_hub.Airpay.Catalogue.{InputField}
use homtech_hub.Airpay.Preparation.{
  name_of, FieldCheck, top_level, slot_of, is_top, Filled, fill, fill_field, account, definitions,
  value_in, is_unknown, client_gives_less, finish_payload, start_of, ServiceForm, with_value,
  with_account, repeated_fields, unknown_fields, field_value, field_values, renewed_fields,
  build_check_payload, validate_patterns,
}
use homtech_hub.Airpay.Preparation.Slots.{
  slots_differ, same_slot, get_slot, slot_after, IsIn, fill-other, fill-cases, fill-slots,
}
use homtech_hub.Airpay.Preparation.Reading.{
  key_extras, IsFinished, read_top, slot_of_top, slot_of_extra, top_names, field_value-filled,
}
use homtech_hub.Airpay.Preparation.Form.{
  fill-same, account_is_defined, pair_of, renewed_form, renewed_value, value_in-strip,
  inputs_are_defined, renewed_form-known,
}

-- A field that the loop has passed is in its place.
passed :
    (fs : List InputField) (name : Text) (value : Text → Text) (acc out : Filled)
    → is_in name (map name_of fs) ≡ true
    → All (IsIn value acc out) fs
    → get_slot (slot_of name) out ≡ slot_after (value name) (get_slot (slot_of name) acc)
unfolding is_in any
passed [] name value acc out h placed = absurd (ground (arith, h))
passed (f ∷ fs) name value acc out h (here, placed) = elim (Bool-cases (text_eq name f.name)) [
  | inl same ↦
      subst (λ n. get_slot (slot_of n) out ≡ slot_after (value n) (get_slot (slot_of n) acc))
        (sym ((text_eq_iff name f.name).0 same)) here
  | inr other ↦ passed fs name value acc out (ground (arith, h, other)) placed
]

account_field_filled :
    (f : InputField) (value : Text) (acc next : Filled)
    → f.name ≡ account
    → fill_field f value acc ≡ returns next
    → is_empty value ≡ false
unfolding fill_field
account_field_filled f [] acc next same h =
    let named : text_eq f.name account ≡ true = (text_eq_iff f.name account).1 same in
    absurd (ground (arith, named, h))
account_field_filled f (c ∷ t) acc next same h = refl

-- The account is never empty.
account_filled :
    (fs : List InputField) (value : Text → Text) (acc out : Filled)
    → is_in account (map name_of fs) ≡ true
    → fill fs value acc ≡ returns out
    → is_empty (value account) ≡ false
unfolding is_in any
account_filled [] value acc out h filled = absurd (ground (arith, h))
account_filled (f ∷ fs) value acc out h filled =
    let (next, first, rest) = fill-cases f fs value acc out filled in
    elim (Bool-cases (text_eq account f.name)) [
      | inl same ↦
          let name : account ≡ f.name = (text_eq_iff account f.name).0 same in
          subst (λ n. is_empty (value n) ≡ false) (sym name)
            (account_field_filled f (value f.name) acc next (sym name) first)
      | inr other ↦ account_filled fs value next out (ground (arith, h, other)) rest
    ]

top_is_not_extras : (name : Text) → is_top name ≡ true → text_eq name key_extras ≡ false
unfolding codes text_eq
top_is_not_extras name top = top_names (λ n. text_eq n key_extras ≡ false) name top refl refl refl

not_extras : (name : Text) → same_slot (slot_of name) (top_level key_extras) ≡ false
not_extras name = elim (Bool-cases (is_top name)) [
  | inl top ↦ rw (slot_of_top name top) (top_is_not_extras name top)
  | inr extra ↦ rw (slot_of_extra name extra) refl
]

no_extras_slot :
    (fs : List InputField)
    → any (λ (g : InputField). same_slot (slot_of g.name) (top_level key_extras)) fs ≡ false
unfolding any
no_extras_slot [] = refl
no_extras_slot (f ∷ fs) = rw (not_extras f.name) (no_extras_slot fs)

field_values-pairs :
    (show : Json → Text) (payload : Fields) (fs : List InputField) (value : Text → Text)
    → ((n : Text) → is_in n (map name_of fs) ≡ true → field_value show payload n ≡ some (value n))
    → field_values show payload fs ≡ some (map (pair_of value) fs)
unfolding field_values is_in any
field_values-pairs show payload [] value read = refl
field_values-pairs show payload (f ∷ fs) value read =
    ap (λ o. with_value f.name o (field_values show payload fs))
      (read f.name (ground (arith, text_eq_refl f.name)))
    ∙ ap (with_value f.name (some (value f.name)))
        (field_values-pairs show payload fs value (λ n h. read n (ground (arith, h))))

slot_after-full :
    (value : Text) → is_empty value ≡ false → slot_after value none ≡ some (string value)
slot_after-full [] full = absurd (ground (arith, full))
slot_after-full (c ∷ t) full = refl

not_service_id : (name : Text) → is_top name ≡ true → text_eq (codes "serviceId") name ≡ false
unfolding codes text_eq
not_service_id name top =
    top_names (λ n. text_eq (codes "serviceId") n ≡ false) name top refl refl refl

start_slot :
    (service : ServiceForm) (name : Text) → get_slot (slot_of name) (start_of service) ≡ none
unfolding get_field
start_slot service name = elim (Bool-cases (is_top name)) [
  | inl top ↦ rw (slot_of_top name top) (rw (not_service_id name top) refl)
  | inr extra ↦ rw (slot_of_extra name extra) refl
]

bind-returns {ℓ κ} :
    {A : Type ℓ} {B : Type κ} (m : Try A) (k : A → Try B) (b : B)
    → (m >>= k) ≡ returns b
    → (a : A) × (m ≡ returns a) × (k a ≡ returns b)
bind-returns (returns a) k b h = (a, refl, h)
bind-returns (raises e) k b h = absurd (ground (arith, h))

start_extras : (service : ServiceForm) → get_field key_extras (start_of service).payload ≡ none
unfolding get_field codes text_eq
start_extras service = refl

finish_payload-IsFinished :
    (run : List FieldCheck → Option (List Text)) (a b : Option Json) (out : Filled)
    (payload : Fields)
    → finish_payload run a b out ≡ returns payload
    → IsFinished out payload
finish_payload-IsFinished run a b out payload h =
    let (u, checked, h1) = bind-returns (validate_patterns run out.checks) _ payload h in
    let (to, e1, h2) = bind-returns (optional_amount a) _ payload h1 in
    let (from, e2, h3) = bind-returns (optional_amount b) _ payload h2 in
    (
      to,
      from,
      elim (Bool-cases (client_gives_less to from)) [
        | inl less ↦ absurd (ground (arith, less, h3))
        | inr enough ↦ sym (returns-injective _ _ (ground (arith, enough, h3)))
      ],
    )

both_pass :
    (a b : Bool) (d d' : Text) (m : Try Fields) (payload : Fields)
    → (refuse_if a 502 d >> (refuse_if b 422 d' >> m)) ≡ returns payload
    → (b ≡ false) × (m ≡ returns payload)
both_pass true b d d' m payload h = absurd (ground (arith, h))
both_pass false true d d' m payload h = absurd (ground (arith, h))
both_pass false false d d' m payload h = (refl, h)

build_cases :
    (run : List FieldCheck → Option (List Text)) (service : ServiceForm)
    (fields : List (Text × Text)) (a b : Option Json) (payload : Fields)
    → build_check_payload run service fields a b ≡ returns payload
    → (any (is_unknown (definitions service.inputs)) fields ≡ false)
      × (out : Filled) × (fill (definitions service.inputs) (value_in fields) (start_of service)
          ≡ returns out)
      × IsFinished out payload
unfolding build_check_payload
build_cases run service fields a b payload h =
    let defs = definitions service.inputs in
    let filling = fill defs (value_in fields) (start_of service) in
    let (known, passed_checks) =
      both_pass (not (no_repeats (map name_of service.inputs))) (any (is_unknown defs) fields)
        repeated_fields unknown_fields (filling >>= finish_payload run a b) payload h in
    let (out, filled, finished) =
      bind-returns filling (finish_payload run a b) payload passed_checks in
    (known, out, filled, finish_payload-IsFinished run a b out payload finished)

same_build :
    (run : List FieldCheck → Option (List Text)) (service : ServiceForm)
    (fields fields' : List (Text × Text)) (a b : Option Json)
    → any (is_unknown (definitions service.inputs)) fields ≡ false
    → any (is_unknown (definitions service.inputs)) fields' ≡ false
    → fill (definitions service.inputs) (value_in fields') (start_of service)
      ≡ fill (definitions service.inputs) (value_in fields) (start_of service)
    → build_check_payload run service fields' a b ≡ build_check_payload run service fields a b
unfolding build_check_payload
same_build run service fields fields' a b known known' same = rw known (rw known' (rw same refl))

renewed_fields-form :
    (show : Json → Text) (payload : Fields) (inputs : List InputField) (value : Text → Text)
    → field_values show payload inputs ≡ some (map (pair_of value) inputs)
    → get_field account payload ≡ some (string (value account))
    → renewed_fields show inputs payload ≡ some (renewed_form inputs value)
unfolding renewed_fields
renewed_fields-form show payload inputs value read named =
    ap (λ o. with_account show o (get_field account payload)) read
    ∙ ap (with_account show (some (map (pair_of value) inputs))) named

account-is_top : is_top account ≡ true
unfolding is_top codes text_eq
account-is_top = refl

module _ (run_checks : List FieldCheck → Option (List Text)) (show : Json → Text) where
  -- The renewal of a preparation reads in its request a form that prepares, for the same service, exactly
  -- what the first form prepares without amounts: all other fields come back, whatever spaces surrounded
  -- them, if no two fields of the service have one place in the request.
  pub renewed_request :
      (service : ServiceForm) (fields : List (Text × Text)) (amount_to amount_from : Option Json)
      (payload : Fields)
      → slots_differ (definitions service.inputs) ≡ true
      → build_check_payload run_checks service fields amount_to amount_from ≡ returns payload
      → (renewed : List (Text × Text)) × (renewed_fields show service.inputs payload ≡ some renewed)
        × (build_check_payload run_checks service renewed none none
            ≡ build_check_payload run_checks service fields none none)
  renewed_request service fields amount_to amount_from payload apart h =
      let defs = definitions service.inputs in
      let value = value_in fields in
      let start = start_of service in
      let form = renewed_form service.inputs value in
      let (known, out, filled, done) =
        build_cases run_checks service fields amount_to amount_from payload h in
      let placed = fill-slots defs value start out apart filled in
      let slots = λ (n : Text) (listed : is_in n (map name_of defs) ≡ true).
        passed defs n value start out listed placed
        ∙ ap (slot_after (value n)) (start_slot service n) in
      let absent : get_field key_extras out.payload ≡ none =
        fill-other defs value start out (top_level key_extras) (no_extras_slot defs) filled
        ∙ start_extras service in
      (
        form,
        renewed_fields-form show payload service.inputs value
            (field_values-pairs show payload service.inputs value (λ n h.
              field_value-filled show n (value n) out payload absent done
                (slots n (inputs_are_defined service.inputs n h))))
            (read_top account out payload account-is_top done
              ∙ sym (ap (λ s. get_slot s out) (slot_of_top account account-is_top))
              ∙ slots account (account_is_defined service.inputs)
              ∙ slot_after-full (value account)
                  (account_filled defs value start out (account_is_defined service.inputs) filled)),
        same_build run_checks service fields form none none known
            (renewed_form-known service.inputs value)
            (fill-same defs value (value_in form) start
              (λ n listed. renewed_value service.inputs value n (value_in-strip fields) listed)),
      )
