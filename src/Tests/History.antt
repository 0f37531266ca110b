-- ===== src/Tests/History.antt =====
-- The history of one owner, and a batch of two rows.
use mathlib.Core.List.{Perm}
use homtech_hub.Prelude.{
  ℕ, ◌≡◌, ◌≤◌, ◌+◌, ◌*◌, ◌⊎◌, take, drop, pos, refl, List, [], ◌∷◌, none, some, Text, Bool, true,
  false, codes, keep, total, map, lower, leb, ◌&&◌, if◌then◌else◌, arith, occurs_in, text_eq,
  sort_by, string, parse_decimal,
}
use homtech_hub.Airpay.Http.{Try, returns}
use homtech_hub.Airpay.Transaction.{
  Transaction, TransactionState, transaction_outcome, CheckResult, simple,
}
use homtech_hub.Airpay.Money.{required_amount}
use homtech_hub.Airpay.History.{
  HistoryRow, HistoryFilters, any_status, completed, awaiting_voucher, needs_attention,
  matches_status, history_where, exported, history, finds,
}
use homtech_hub.Airpay.History.Outcomes.{filters_agree, is_awaiting, export_is_whole}
use homtech_hub.Airpay.History.Search.{KeepsSpecial, search_is_literal}
use homtech_hub.Airpay.Batch.{amount_or_0}
use homtech_hub.Airpay.Batch.Pay.{batch_pay, PayCall, is_unpaid, max_batch_amount}
use homtech_hub.Airpay.Batch.Pay.Order.{paid_amount, paid_one_by_one}
use homtech_hub.Airpay.Batch.Pay.Loop.{InOrder}
use homtech_hub.Tests.Airpay.{prepared_row, paid_row, rich}

filters_agree_example :
    (matches_status completed paid_row ≡ (transaction_outcome paid_row).completed)
    × (matches_status awaiting_voucher paid_row
        ≡ is_awaiting (transaction_outcome paid_row).result_state)
    × (matches_status needs_attention paid_row ≡ (transaction_outcome paid_row).requires_attention)
filters_agree_example = filters_agree paid_row

-- Lowers the letters A to Z and А to Я.
abbrev lowered : ℕ → ℕ
lowered c = if leb 0x410 c && leb c 0x42f then c + 32 else lower c

lowered-KeepsSpecial : KeepsSpecial lowered
unfolding lower
lowered-KeepsSpecial = record { special = λ c. ground arith; fixed = λ c h. ground (arith, h) }

search_is_literal_example :
    finds lowered (codes "БОНУС 5_0%") (codes "Мой бонус 5_0% x")
    ≡ occurs_in (map lowered (codes "БОНУС 5_0%")) (map lowered (codes "Мой бонус 5_0% x"))
search_is_literal_example =
    search_is_literal lowered lowered-KeepsSpecial (codes "БОНУС 5_0%") (codes "Мой бонус 5_0% x")

abbrev entry : Text → ℕ → HistoryRow
entry owner at = record {
  row = prepared_row;
  created_by = owner;
  created_at = at;
  id_text = codes "55";
  service_id = codes "7";
  service_title = codes "Phone";
  account = codes "acc";
}

abbrev entries : List HistoryRow
entries = entry (codes "anna") 5 ∷ entry (codes "bert") 6 ∷ entry (codes "anna") 7 ∷ []

abbrev everything : HistoryFilters
everything = record { q = []; status = any_status; kind = none; date_from = none; date_to = none }

abbrev day : ℕ → ℕ
day d = 86400 * d

export_is_whole_example :
    Perm
      (entry (codes "anna") 7 ∷ entry (codes "anna") 5 ∷ [])
      (keep (history_where lowered day (codes "anna") everything) entries)
unfolding exported history history_where keep sort_by text_eq codes matches_status take drop
export_is_whole_example =
    export_is_whole lowered day (codes "anna") everything entries
      (entry (codes "anna") 7 ∷ entry (codes "anna") 5 ∷ []) refl

abbrev pub good_check : CheckResult
good_check = record {
  success = true;
  result = pos 0;
  message = [];
  retryable = false;
  transaction_id = codes "900";
  amount_to = codes "10";
  fixed_amount = [];
  scheme = simple;
  purchase_ready = true;
  purchase_block_reason = [];
}

-- The first row is paid, the second one is to be.
abbrev pub first_row : Transaction
first_row = record paid_row { check_result = some good_check; currency = codes "KZT" }

abbrev pub checked_row : Transaction
checked_row = record first_row {
  agent_transaction_id = 56;
  state = TransactionState.checked;
  amount = some 500;
}

abbrev settle : Transaction → Try Transaction
settle r = returns (record r { state = TransactionState.paid })

abbrev going : ℕ → Bool
going n = false

second_row_is_asked :
    (batch_pay settle going true 30
      (some (string (codes "15")))
      (returns rich)
      first_row
      (checked_row ∷ [])).1
    ≡ record { id = 56; cents = 500 } ∷ []
unfolding batch_pay parse_decimal
second_row_is_asked = refl

paid_one_by_one_example :
    let calls =
      (batch_pay settle going true 30
        (some (string (codes "15")))
        (returns rich)
        first_row
        (checked_row ∷ [])).1 in
    InOrder settle (keep is_unpaid (first_row ∷ checked_row ∷ [])) calls
    × ((calls ≡ [])
        ⊎ ((required_amount max_batch_amount (some (string (codes "15")))
              ≡ returns (total amount_or_0 (first_row ∷ checked_row ∷ [])))
            × (total (λ (q : PayCall). q.cents) calls
                  + total paid_amount (first_row ∷ checked_row ∷ [])
                ≤ total amount_or_0 (first_row ∷ checked_row ∷ []))))
paid_one_by_one_example =
    paid_one_by_one settle going true 30 (some (string (codes "15"))) (returns rich) first_row
      (checked_row ∷ [])
