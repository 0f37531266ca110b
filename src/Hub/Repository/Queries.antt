-- ===== src/Hub/Repository/Queries.antt =====
-- The lists and reports of api/hub/repository.py: list_requires_attention, list_purchases, list_events,
-- list_events_for_operator and observability_summary. Events stand in the order of their ids.
pub mod Arranged
pub mod Pages
pub mod Counts
use Prim.Native.Nat.{compare, Ordering}
use homtech_hub.Prelude.{
  ℕ, ◌+◌, ◌-◌, Text, Bool, true, false, not, ◌&&◌, ◌||◌, List, [], ◌∷◌, ◌++◌, map, Option, none,
  some, ◌==◌, ltb, leb, if◌then◌else◌, is_some, is_empty, text_eq, codes, keep, total, length, any,
  Decimal, nan, finite, infinite, le_decimal, zero_decimal, add_decimal, Json, null, string,
  integer, get_field, ℤ, leb_ℤ, eqb_ℤ, page, sort_by, ilike, to_nat,
}
use homtech_hub.Hub.Domain.{
  PurchaseState, created, checked, payment_started, processing, succeeded, failed,
  requires_attention, Purchase,
}
use homtech_hub.Hub.Repository.Sql.{Sql}
use homtech_hub.Hub.Repository.Table.{Row, Db, Event, purchase_of, find_row, uuid_text}

abbrev pub state_index : PurchaseState → ℕ
state_index created = 0
state_index checked = 1
state_index payment_started = 2
state_index processing = 3
state_index succeeded = 4
state_index failed = 5
state_index requires_attention = 6

abbrev pub has_state : PurchaseState → Row → Bool
has_state s r = state_index r.state == state_index s

-- ORDER BY created_at, id
abbrev pub is_older : Row → Row → Bool
is_older a b = ltb a.created_at b.created_at || (a.created_at == b.created_at && leb a.id b.id)

unfoldable pub list_requires_attention : ℕ → ℕ → Db → List Purchase
unfolding keep sort_by
list_requires_attention limit offset db =
    map purchase_of
      (page limit offset (sort_by is_older (keep (has_state requires_attention) db.purchases)))

pub data SortColumn : Type 0 where
  by_created_at by_amount by_service_id by_nominal : SortColumn

-- The filters and the order of `list_purchases`; an empty text is no filter.
pub record PurchaseQuery : Type 0 where
  pub state : Option PurchaseState
  pub provider_code : Text
  pub consumer_id : Text
  pub query : Text
  pub created_from : Option ℕ
  pub created_to : Option ℕ
  pub sort_column : SortColumn
  pub ascending : Bool

abbrev pub no_filter_or : Text → Text → Bool
no_filter_or wanted value = is_empty wanted || text_eq value wanted

abbrev pub like_pattern : Text → Text
like_pattern query = b'%' ∷ query ++ b'%' ∷ []

-- `numeric <= numeric`, where NaN is above all
abbrev pub numeric_le : Decimal → Decimal → Bool
numeric_le a nan = true
numeric_le a b = elim (le_decimal a b) [ none ↦ false | some t ↦ t ]

-- NULLS LAST in both directions: the order of two columns, where `le` is the ascending one.
abbrev pub nulls_last {ℓ} : {A : Type ℓ} → Bool → (A → A → Bool) → Option A → Option A → Ordering
nulls_last ascending le none none = Ordering.eq
nulls_last ascending le none (some b) = Ordering.gt
nulls_last ascending le (some a) none = Ordering.lt
nulls_last ascending le (some a) (some b) =
    if le a b && le b a
    then Ordering.eq
    else if le a b
    then (if ascending then Ordering.lt else Ordering.gt)
    else (if ascending then Ordering.gt else Ordering.lt)

-- created_at DESC, id DESC
abbrev pub is_newer : Row → Row → Bool
is_newer a b = ltb b.created_at a.created_at || (a.created_at == b.created_at && leb b.id a.id)

-- `COALESCE(sum(amount) FILTER (WHERE state='succeeded'), 0)`; that its cast to numeric(18, 6) fails from
-- 10 ^ 12 on is left out.
unfoldable pub total_amount : List Row → Decimal
total_amount [] = zero_decimal
total_amount (r ∷ rows) =
    let rest = total_amount rows in
    if has_state succeeded r
    then elim r.amount [ none ↦ rest | some a ↦ add_decimal a rest ]
    else rest

-- A run of ORDER BY: from "may stand before" and the rows to the rows in some such order.
abbrev pub Arrange : Type 0
Arrange = (Row → Row → Bool) → List Row → List Row

module _ (sql : Sql) where
  -- COALESCE(request_params->>'nominal', '')
  unfoldable pub nominal_of : Row → Text
  unfolding get_field codes text_eq
  nominal_of r = elim (get_field (codes "nominal") r.params) [
    | none ↦ []
    | some null ↦ []
    | some (string t) ↦ t
    | some v ↦ sql.json_text v
  ]

  unfoldable pub matches_query : Text → Row → Bool
  unfolding nominal_of ilike uuid_text
  matches_query query r =
      let p = like_pattern query in
      ilike sql.fold p (uuid_text r.id)
      || (ilike sql.fold p r.consumer_id
          || (ilike sql.fold p r.request_id
              || (ilike sql.fold p r.provider_operation_id
                  || (ilike sql.fold p r.provider_transaction_id
                      || (ilike sql.fold p (sql.json_text (integer r.service_id))
                          || ilike sql.fold p (nominal_of r))))))

  -- WHERE …
  unfoldable pub matches : PurchaseQuery → Row → Bool
  unfolding matches_query
  matches q r =
      elim q.state [ none ↦ true | some s ↦ has_state s r ]
      && no_filter_or q.provider_code r.provider_code
      && no_filter_or q.consumer_id r.consumer_id
      && elim q.created_from [ none ↦ true | some t ↦ leb t r.created_at ]
      && elim q.created_to [ none ↦ true | some t ↦ ltb r.created_at t ]
      && (is_empty q.query || matches_query q.query r)

  abbrev pub by_column : SortColumn → Bool → Row → Row → Ordering
  by_column by_created_at up a b = nulls_last up leb (some a.created_at) (some b.created_at)
  by_column by_amount up a b = nulls_last up numeric_le a.amount b.amount
  by_column by_service_id up a b = nulls_last up leb_ℤ (some a.service_id) (some b.service_id)
  by_column by_nominal up a b =
      nulls_last up sql.collate (some (nominal_of a)) (some (nominal_of b))

  -- ORDER BY the column, created_at DESC, id DESC
  unfoldable pub is_listed_before : PurchaseQuery → Row → Row → Bool
  unfolding nominal_of
  is_listed_before q a b = elim (by_column q.sort_column q.ascending a b) [
    | Ordering.lt ↦ true
    | Ordering.gt ↦ false
    | Ordering.eq ↦ is_newer a b
  ]

  abbrev pub selected : PurchaseQuery → Db → List Row
  selected q db = keep (matches q) db.purchases

  -- The page, and of all that matches `count(*)` and the sum of what was paid for. `arrange` is what this
  -- run of ORDER BY makes of the rows; where the order leaves two rows open, another run may differ.
  unfoldable pub list_purchases : Arrange → ℕ → ℕ → PurchaseQuery → Db → List Purchase × ℕ × Decimal
  unfolding keep matches is_listed_before total_amount
  list_purchases arrange limit offset q db = (
    map purchase_of (page limit offset (arrange (is_listed_before q) (selected q db))),
    length (selected q db),
    total_amount (selected q db),
  )

-- Only the consumer of the purchase sees its events.
unfoldable pub list_events_for_operator : ℕ → Db → List Event
unfolding keep
list_events_for_operator id db = keep (λ (e : Event). e.purchase_id == id) db.events

unfoldable pub list_events : ℕ → Text → Db → List Event
unfolding list_events_for_operator
list_events id consumer db = elim (find_row id db.purchases) [
  | none ↦ []
  | some r ↦ if text_eq r.consumer_id consumer then list_events_for_operator id db else []
]

pub record Summary : Type 0 where
  pub total : ℕ
  pub created : ℕ
  pub checked : ℕ
  pub payment_started : ℕ
  pub processing : ℕ
  pub succeeded : ℕ
  pub failed : ℕ
  pub requires_attention : ℕ
  pub in_flight : ℕ
  pub stale_in_flight : ℕ
  pub oldest_in_flight_age_sec : ℕ

abbrev pub count_if : (Row → Bool) → List Row → ℕ
count_if p rows = total (λ r. to_nat (p r)) rows

-- The states of `active_states`.
abbrev pub is_in_flight : Row → Bool
is_in_flight r = ltb (state_index r.state) 4

-- `t < now - seconds`, for a time that is not before the epoch
abbrev pub is_past : ℕ → ℕ → ℕ → Bool
is_past now seconds t = ltb (t + seconds) now

abbrev pub is_stale : ℕ → ℕ → Row → Bool
is_stale now seconds r =
    ((has_state created r || has_state checked r) && is_past now seconds r.next_attempt_at)
    || ((has_state payment_started r || has_state processing r)
        && is_past now seconds (elim r.pay_started_at [ none ↦ r.created_at | some t ↦ t ]))

-- `min(created_at)`
unfoldable pub earliest : List Row → Option ℕ
earliest [] = none
earliest (r ∷ rows) = elim (earliest rows) [
  | none ↦ some r.created_at
  | some t ↦ some (if ltb t r.created_at then t else r.created_at)
]

-- `extract(epoch FROM now() - min(created_at))`, or 0
abbrev pub age_of : ℕ → Option ℕ → ℕ
age_of now none = 0
age_of now (some t) = now - t

unfoldable pub observability_summary : ℕ → Text → ℕ → Db → Summary
unfolding keep earliest
observability_summary now consumer seconds db =
    let rows = keep (λ (r : Row). text_eq r.consumer_id consumer) db.purchases in
    record {
      total = length rows;
      created = count_if (has_state PurchaseState.created) rows;
      checked = count_if (has_state PurchaseState.checked) rows;
      payment_started = count_if (has_state PurchaseState.payment_started) rows;
      processing = count_if (has_state PurchaseState.processing) rows;
      succeeded = count_if (has_state PurchaseState.succeeded) rows;
      failed = count_if (has_state PurchaseState.failed) rows;
      requires_attention = count_if (has_state PurchaseState.requires_attention) rows;
      in_flight = count_if is_in_flight rows;
      stale_in_flight = count_if (is_stale now seconds) rows;
      oldest_in_flight_age_sec = age_of now (earliest (keep is_in_flight rows));
    }
