-- ===== src/Tests/Api.antt =====
-- A seller and an operator at the routes of api/hub/app.py.
use mathlib.Core.List.{Permᴰ}
use homtech_hub.Prelude.{
  List, ℕ, lower, sort_by, total, ◌≡◌, ◌≤◌, ◌+◌, refl, [], ◌∷◌, none, some, Text, Json, true, false,
  codes, no_fields, pos, map, keep, strip, text_eq, arith, any,
}
use homtech_hub.Hub.Domain.{PurchaseState, Kind}
use homtech_hub.Hub.Settings.{Settings}
use homtech_hub.Hub.Repository.Table.{Row, Db, purchase_of, ResultAccess}
use homtech_hub.Hub.Repository.Create.{new_row}
use homtech_hub.Hub.Repository.Reconcile.{find_access}
use homtech_hub.Hub.Repository.Queries.{
  PurchaseQuery, Arrange, is_listed_before, by_created_at, list_purchases, matches,
  observability_summary,
}
use homtech_hub.Hub.Repository.Queries.Arranged.{IsArranged}
use homtech_hub.Hub.Repository.Sql.{Sql}
use homtech_hub.Hub.Repository.Change.{has_id}
use homtech_hub.Hub.Repository.Queries.Pages.{read_pages, Orders, pages_show_all}
use homtech_hub.Hub.Repository.Queries.Counts.{summary_adds_up}
use homtech_hub.Hub.Errors.{unknown_provider}
use homtech_hub.Hub.Service.Enqueue.{enqueue}
use homtech_hub.Hub.Crypto.{confirm_failed}
use homtech_hub.Hub.World.{World, Action, claim, run, empty_db}
use homtech_hub.Hub.Api.Steps.{
  ApiEvent, act, post_purchase, post_decision, post_result, Served, api_run, routes_are_steps,
}
use homtech_hub.Hub.Api.{replies, Headers, Detail, of_error, authenticate, required_request_id}
use homtech_hub.Hub.Api.Purchases.{
  PurchaseIn, create_purchase, request_of, read_purchase, read_purchase_events,
  read_purchase_result,
}
use homtech_hub.Hub.Api.Operators.{ResolutionIn, operator_purchase_result}
use homtech_hub.Hub.Api.Private.{foreign_is_missing}
use homtech_hub.Hub.Api.Requests.{IsRefusal, refused_request}
use homtech_hub.Hub.Api.Audited.{shown_code_is_recorded}
use homtech_hub.Tests.Samples.{crypto, interhub, settings, voucher_request}

abbrev hub : Settings
hub = record settings {
  clients = (codes "seller", codes "key") ∷ (codes "other", codes "key-2") ∷ [];
  operators = (codes "anna", codes "key-3") ∷ [];
}

abbrev new_purchase : Row
new_purchase = new_row 100 1 voucher_request (codes "fp")

-- The seller's purchase with its code stored, and a newer one that still waits.
abbrev delivered_purchase : Row
delivered_purchase = record new_purchase {
  purchase = record new_purchase.purchase {
    state = PurchaseState.succeeded;
    result_ciphertext = some (codes "CODE");
  };
}

abbrev waiting_purchase : Row
waiting_purchase = new_row 130 2 voucher_request (codes "fp")

abbrev two_rows : Db
two_rows = record empty_db { purchases = delivered_purchase ∷ waiting_purchase ∷ [] }

abbrev show : Json → Text
show v = []

abbrev sql : Sql
sql = record { json_text = show; collate = λ a b. true; fold = lower }

abbrev all_purchases : PurchaseQuery
all_purchases = record {
  state = none;
  provider_code = [];
  consumer_id = [];
  query = [];
  created_from = none;
  created_to = none;
  sort_column = by_created_at;
  ascending = false;
}

abbrev in_order : ℕ → Arrange
in_order i le rows = sort_by le rows

in_order-Orders : (i : ℕ) → Orders sql (in_order i) all_purchases two_rows
unfolding sort_by keep matches is_listed_before IsArranged new_row
in_order-Orders i = (Permᴰ.swap refl refl, ((refl, tt), (tt, tt)))

two_rows_unique : (id : ℕ) → total (has_id id) two_rows.purchases ≤ 1
unfolding new_row
two_rows_unique id = ground arith

pages_show_all_example :
    (rows : List Row) × Permᴰ rows (keep (matches sql all_purchases) two_rows.purchases)
    × IsArranged (is_listed_before sql all_purchases) rows
    × (read_pages sql in_order 1 2 all_purchases two_rows ≡ map purchase_of rows)
unfolding list_purchases keep matches
pages_show_all_example =
    pages_show_all sql (λ a b. refl) in_order 1 2 all_purchases two_rows two_rows_unique
      in_order-Orders (omega arith)

summary_adds_up_example :
    let s = observability_summary 2000 (codes "seller") 900 two_rows in
    (s.created + s.checked + s.payment_started + s.processing ≡ s.in_flight)
    × (s.in_flight + s.succeeded + s.failed + s.requires_attention ≡ s.total)
    × (s.stale_in_flight ≤ s.in_flight)
summary_adds_up_example = summary_adds_up 2000 (codes "seller") 900 two_rows

abbrev other_seller : Headers
other_seller = record { name = codes "other"; key = codes "key-2" }

foreign_is_missing_example :
    (read_purchase crypto interhub hub other_seller 1 two_rows
      ≡ read_purchase crypto interhub hub other_seller 1 (record two_rows { purchases = [] }))
    × (read_purchase_events crypto interhub hub other_seller 1 two_rows
        ≡ read_purchase_events crypto interhub hub other_seller 1
            (record two_rows { purchases = [] }))
    × (read_purchase_result crypto interhub hub other_seller 1 two_rows
        ≡ read_purchase_result crypto interhub hub other_seller 1
            (record two_rows { purchases = [] }))
unfolding new_row text_eq codes strip
foreign_is_missing_example =
    foreign_is_missing crypto interhub hub other_seller 1 two_rows delivered_purchase refl refl

abbrev seller : Headers
seller = record { name = codes "seller"; key = codes "key" }

-- A provider that the hub does not have.
abbrev unknown_request : PurchaseIn
unknown_request = record {
  idempotency_key = codes "order-9";
  provider_code = codes "nobody";
  service_id = pos 7;
  max_amount = none;
  account = codes "acc";
  params = no_fields;
  kind = Kind.voucher;
  requested_amount = none;
  workspace_id = none;
  connection_id = none;
}

abbrev refusal : Detail
refusal = of_error unknown_provider

refused_request_example :
    ((create_purchase crypto interhub hub 150 9 3 seller [] unknown_request two_rows).1 ≡ two_rows)
    × IsRefusal 422
unfolding create_purchase codes text_eq strip any request_of enqueue authenticate
refused_request_example =
    refused_request crypto interhub hub 150 9 3 seller [] unknown_request two_rows 422 refusal refl

abbrev anna : Headers
anna = record { name = codes "anna"; key = codes "key-3" }

shown_code_is_recorded_example :
    (request_id : Text) × (required_request_id 9 (codes "req-9") ≡ replies request_id)
    × (a : ResultAccess) × (find_access
          (strip (codes "anna"))
          request_id
          (operator_purchase_result crypto hub show sql 9 anna 1
            (codes "req-9")
            two_rows).1.accesses
        ≡ some a)
    × (a.purchase_id ≡ 1)
unfolding operator_purchase_result codes text_eq strip any authenticate new_row find_access
shown_code_is_recorded_example =
    shown_code_is_recorded crypto hub show sql 9 anna 1 (codes "req-9") two_rows (codes "CODE") true
      refl

abbrev hub_with_two : World
hub_with_two = record { db = two_rows; workers = []; calls = [] }

abbrev wanted : PurchaseIn
wanted = record unknown_request { provider_code = codes "interhub" }

abbrev failed_payment : ResolutionIn
failed_payment = record { decision = confirm_failed; reason = codes "no charge"; result_value = [] }

-- A request, a claim, a decision with a key that is not for it, and a disclosure.
abbrev api_events : List ApiEvent
api_events =
    post_purchase 150 9 3 seller (codes "req-9") wanted
    ∷ act (claim 151 21)
    ∷ post_decision 152 9 seller 1 (codes "req-9") failed_payment
    ∷ post_result 9 anna 1 (codes "req-10")
    ∷ []

routes_are_steps_example :
    (actions : List Action) × Served hub api_events actions
    × (api_run crypto interhub hub show sql hub_with_two api_events
        ≡ run crypto interhub hub hub_with_two actions)
routes_are_steps_example = routes_are_steps crypto interhub hub show sql api_events hub_with_two
