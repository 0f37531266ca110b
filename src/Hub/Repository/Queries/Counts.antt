-- ===== src/Hub/Repository/Queries/Counts.antt =====
-- The report of api/hub/repository.py (`observability_summary`) and its counts.
use homtech_hub.Prelude.{
  none, some, ◌&&◌, ◌||◌, ◌==◌, ltb, ℕ, ◌+◌, ◌≤◌, ◌≡◌, Text, Bool, List, [], ◌∷◌, length, keep,
  to_nat, arith, text_eq,
}
use homtech_hub.Hub.Domain.{
  PurchaseState, created, checked, payment_started, processing, succeeded, failed,
  requires_attention,
}
use homtech_hub.Hub.Repository.Table.{Row, Db}
use homtech_hub.Hub.Repository.Queries.{
  state_index, is_past, observability_summary, count_if, has_state, is_in_flight, is_stale,
}

abbrev is_in : PurchaseState → PurchaseState → ℕ
is_in s t = to_nat (state_index t == state_index s)

abbrev flies : PurchaseState → ℕ
flies t = to_nat (ltb (state_index t) 4)

one_state :
    (t : PurchaseState)
    → (is_in created t + is_in checked t + is_in payment_started t + is_in processing t ≡ flies t)
      × (flies t + is_in succeeded t + is_in failed t + is_in requires_attention t ≡ 1)
one_state PurchaseState.created = omega arith
one_state PurchaseState.checked = omega arith
one_state PurchaseState.payment_started = omega arith
one_state PurchaseState.processing = omega arith
one_state PurchaseState.succeeded = omega arith
one_state PurchaseState.failed = omega arith
one_state PurchaseState.requires_attention = omega arith

states_add_up :
    (rows : List Row)
    → (count_if (has_state created) rows
          + count_if (has_state checked) rows
          + count_if (has_state payment_started) rows
          + count_if (has_state processing) rows
        ≡ count_if is_in_flight rows)
      × (count_if is_in_flight rows
            + count_if (has_state succeeded) rows
            + count_if (has_state failed) rows
            + count_if (has_state requires_attention) rows
          ≡ length rows)
states_add_up [] = omega arith
states_add_up (r ∷ rows) = omega (arith, one_state r.state, states_add_up rows)

-- What is stale is in flight.
stale_share :
    (a b c d e f : Bool)
    → to_nat (((a || b) && e) || ((c || d) && f)) ≤ to_nat a + to_nat b + to_nat c + to_nat d
stale_share a b c d e f = ground arith

stale-le-in_flight :
    (now seconds : ℕ) (rows : List Row)
    → count_if (is_stale now seconds) rows ≤ count_if is_in_flight rows
stale-le-in_flight now seconds [] = omega arith
stale-le-in_flight now seconds (r ∷ rows) = omega (
  arith,
  one_state r.state,
  stale-le-in_flight now seconds rows,
  stale_share (has_state created r) (has_state checked r) (has_state payment_started r)
      (has_state processing r) (is_past now seconds r.next_attempt_at)
      (is_past now seconds (elim r.pay_started_at [ none ↦ r.created_at | some t ↦ t ])),
)

-- In the report of a consumer, the four active states add up to what is in flight, with the three others
-- that gives the total, and what is stale is in flight.
pub summary_adds_up :
    (now : ℕ) (consumer : Text) (seconds : ℕ) (db : Db)
    → let s = observability_summary now consumer seconds db in
      (s.created + s.checked + s.payment_started + s.processing ≡ s.in_flight)
      × (s.in_flight + s.succeeded + s.failed + s.requires_attention ≡ s.total)
      × (s.stale_in_flight ≤ s.in_flight)
unfolding observability_summary
summary_adds_up now consumer seconds db =
    let rows = keep (λ (r : Row). text_eq r.consumer_id consumer) db.purchases in
    let (active, all) = states_add_up rows in (active, all, stale-le-in_flight now seconds rows)
