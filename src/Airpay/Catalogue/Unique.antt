-- ===== src/Airpay/Catalogue/Unique.antt =====
-- The catalogues that `normalize_airpay_services` of api/airpay_runtime/airpay_service.py accepts.
use homtech_hub.Prelude.{
  Text, ◌≡◌, refl, ap, subst, ◌∙◌, true, false, Bool-cases, inl, inr, List, [], ◌∷◌, map, Option,
  none, some, Option-cases, some-injective, Json, null, boolean, integer, real, string, array,
  object, Items, no_items, item, get_field, All, is_empty, text_eq, All_of_all, is_in, no_repeats,
  keep, codes, arith,
}
use homtech_hub.Airpay.Http.{returns}
use homtech_hub.Airpay.Catalogue.{
  AirpayItem, stripped_text, bool_or_null, int_value, service_id_of, fresh_id, normalize_fields,
  shown_or_empty, normalize_service, service_items, normalize_services, get_service, only_one, pick,
  catalogue_of, is_success,
}
use homtech_hub.Airpay.Catalogue.Keys.{
  stripped_text-full, id_of, IsNamed, built, fresh_id-fresh, then_items-cases, IsKeyed,
  IsKeyed-cons, only_itself,
}

module _ (show : Json → Text) where
  service_id_of-full :
      (v : Option Json) (id : Text) → service_id_of show v ≡ some id → is_empty id ≡ false
  service_id_of-full (some (string u)) id h = stripped_text-full (some (string u)) id h
  service_id_of-full (some (integer n)) id h =
      stripped_text-full (some (string (show (integer n)))) id h
  service_id_of-full none id h = absurd (ground (arith, h))
  service_id_of-full (some null) id h = absurd (ground (arith, h))
  service_id_of-full (some (boolean b)) id h = absurd (ground (arith, h))
  service_id_of-full (some (real d)) id h = absurd (ground (arith, h))
  service_id_of-full (some (array xs)) id h = absurd (ground (arith, h))
  service_id_of-full (some (object fs)) id h = absurd (ground (arith, h))

  normalize_service-new :
      (ids : List Text) (v : Json) (s : AirpayItem)
      → normalize_service show ids v ≡ some s
      → (is_in s.service_id ids ≡ false) × IsNamed s
  unfolding normalize_service
  normalize_service-new ids (object fs) s h =
      let (id, title) =
        built (fresh_id ids (service_id_of show (get_field (codes "serviceId") fs)))
          (stripped_text (get_field (codes "name") fs)) (int_value (get_field (codes "type") fs))
          (bool_or_null (get_field (codes "fixedPayment") fs))
          (normalize_fields show (get_field (codes "inputs") fs))
          (normalize_fields show (get_field (codes "displays") fs))
          (shown_or_empty show (get_field (codes "group") fs))
          (shown_or_empty show (get_field (codes "country") fs)) s h in
      let (given, fresh) =
        fresh_id-fresh ids (service_id_of show (get_field (codes "serviceId") fs)) s.service_id
          id in
      (
        fresh,
        (
          service_id_of-full (get_field (codes "serviceId") fs) s.service_id given,
          stripped_text-full (get_field (codes "name") fs) s.title title,
        ),
      )
  normalize_service-new ids null s h = absurd (ground (arith, h))
  normalize_service-new ids (boolean b) s h = absurd (ground (arith, h))
  normalize_service-new ids (integer n) s h = absurd (ground (arith, h))
  normalize_service-new ids (real d) s h = absurd (ground (arith, h))
  normalize_service-new ids (string t) s h = absurd (ground (arith, h))
  normalize_service-new ids (array xs) s h = absurd (ground (arith, h))

  service_items-IsKeyed :
      (ids : List Text) (vs : Items) (items : List AirpayItem)
      → service_items show ids vs ≡ some items
      → IsKeyed ids items
  unfolding service_items no_repeats
  service_items-IsKeyed ids no_items items h =
      subst (IsKeyed ids) (some-injective _ _ h)
        (record { unseen = tt; different = refl; named = tt })
  service_items-IsKeyed ids (item v vs) items h =
      let (s, rest, first, more, whole) =
        then_items-cases (normalize_service show ids v)
          (λ s. service_items show (s.service_id ∷ ids) vs) items h in
      subst (IsKeyed ids) whole (
        IsKeyed-cons ids s rest (normalize_service-new ids v s first)
          (service_items-IsKeyed (s.service_id ∷ ids) vs rest more))

  catalogue_of-items :
      (v : Option Json) (items : List AirpayItem)
      → catalogue_of show v ≡ returns items
      → (services : Items) × (service_items show [] services ≡ some items)
  catalogue_of-items (some (array services)) items h =
      elim (Option-cases (service_items show [] services)) [
        | inl nothing ↦ absurd (ground (arith, nothing, h))
        | inr (found, e) ↦ (services, e ∙ ground (arith, e, h))
      ]
  catalogue_of-items none items h = absurd (ground (arith, h))
  catalogue_of-items (some null) items h = absurd (ground (arith, h))
  catalogue_of-items (some (boolean b)) items h = absurd (ground (arith, h))
  catalogue_of-items (some (integer n)) items h = absurd (ground (arith, h))
  catalogue_of-items (some (real d)) items h = absurd (ground (arith, h))
  catalogue_of-items (some (string t)) items h = absurd (ground (arith, h))
  catalogue_of-items (some (object fs)) items h = absurd (ground (arith, h))

  accepted-IsKeyed :
      (payload : Json) (items : List AirpayItem)
      → normalize_services show payload ≡ returns items
      → IsKeyed [] items
  unfolding normalize_services
  accepted-IsKeyed (object fs) items h =
      elim (Bool-cases (is_success (get_field (codes "result") fs))) [
        | inl confirmed ↦
            let (services, e) =
              catalogue_of-items (get_field (codes "services") fs) items
                (ground (arith, confirmed, h)) in
            service_items-IsKeyed [] services items e
        | inr refused ↦ absurd (ground (arith, refused, h))
      ]
  accepted-IsKeyed null items h = absurd (ground (arith, h))
  accepted-IsKeyed (boolean b) items h = absurd (ground (arith, h))
  accepted-IsKeyed (integer n) items h = absurd (ground (arith, h))
  accepted-IsKeyed (real d) items h = absurd (ground (arith, h))
  accepted-IsKeyed (string t) items h = absurd (ground (arith, h))
  accepted-IsKeyed (array xs) items h = absurd (ground (arith, h))

  -- An accepted catalogue has no id twice and no blank id or title, and asking the supplier for one of its
  -- services, with the same answer, gives exactly that service.
  pub catalogue_is_keyed :
      (payload : Json) (items : List AirpayItem)
      → normalize_services show payload ≡ returns items
      → (no_repeats (map id_of items) ≡ true)
        × All IsNamed items
        × All (λ (s : AirpayItem). get_service show s.service_id payload ≡ returns s) items
  unfolding get_service
  catalogue_is_keyed payload items h =
      let k = accepted-IsKeyed payload items h in
      (
        k.different,
        k.named,
        All_of_all
            (λ s. keep (λ (t : AirpayItem). text_eq t.service_id s.service_id) items ≡ s ∷ [])
            (λ s. get_service show s.service_id payload ≡ returns s) items
            (λ s one. ap (pick s.service_id) h ∙ ap only_one one) (only_itself items k.different),
      )
