-- ===== src/Airpay/Batch/Check.antt =====
-- `AirpayBatch.check` of api/airpay_runtime/airpay_batch.py, once the draft is read and the batch is locked.
-- `check_row` is what `AirpayPurchase.check` gives for a row: the stored result. The rows are read again
-- for the summary.
pub mod Reasons
pub mod Ready
use homtech_hub.Prelude.{
  ℕ, suc, Text, Bool, true, false, not, ◌&&◌, ◌||◌, List, [], ◌∷◌, Option, none, some, ◌==◌, leb,
  any, total, is_empty, is_some, if◌then◌else◌, codes, text_eq,
}
use homtech_hub.Airpay.Http.{HttpError, http, Try, returns, raises}
use homtech_hub.Airpay.Money.{Balance, available_funds, falls_short}
use homtech_hub.Airpay.Transaction.{Transaction, CheckResult, is_processing, is_paid, is_failed}
use homtech_hub.Airpay.Batch.{BatchView, batch_view, amount_or_0}
use homtech_hub.Airpay.Jobs.{interrupted}

pub record BatchSummary : Type 0 where
  -- the fields of the first row's result
  pub first_result : CheckResult
  pub purchase_amount : ℕ
  pub unit_amount : Option ℕ
  pub purchase_ready : Bool
  pub purchase_block_reason : Text
  pub batch : BatchView

pub data BatchCheck : Type 0 where
  summed : BatchSummary → BatchCheck
  -- the result of a row that is no success, which ends the check
  stopped_at : Option CheckResult → BatchCheck
  refuses_check : HttpError → BatchCheck
  -- a row without a stored result: an exception that is no `HTTPException`
  breaks_check : BatchCheck

-- What is raised before a row is checked.
unfoldable pub check_guard : ℕ → Transaction → Option HttpError
check_guard now r =
    if is_some r.replacement_key
    then some (http 409 (codes "Проверка заменена новой подготовкой остатка"))
    else if is_processing r.state || (is_paid r.state || is_failed r.state)
    then some (http 409 (codes "Покупка уже начата. Откройте сохранённые результаты."))
    else if leb r.expires_at now
    then some (http 410 (codes "Срок проверки истёк. Подготовьте новую проверку."))
    else none

abbrev pub has_succeeded : Option CheckResult → Bool
has_succeeded none = false
has_succeeded (some x) = x.success

module _ (check_row : Transaction → Try (Option CheckResult)) (stops : ℕ → Bool) (now : ℕ) where
  -- The loop: how it ends the check, if it does.
  unfoldable pub check_rows : ℕ → List Transaction → Option BatchCheck
  unfolding check_guard
  check_rows done [] = none
  check_rows done (r ∷ rows) =
      let rest = check_rows (suc done) rows in
      elim (check_guard now r) [
        | some e ↦ some (refuses_check e)
        | none ↦ elim (check_row r) [
          | raises e ↦ some (refuses_check e)
          | returns result ↦
              if stops (suc done)
              then some (refuses_check (http 409 interrupted))
              else if has_succeeded result
              then rest
              else some (stopped_at result)
        ]
      ]

-- The reason of the first row that is not ready; nothing for the exception of a missing result.
unfoldable pub block_reason : List Transaction → Option Text
block_reason [] = some []
block_reason (r ∷ rows) =
    let rest = block_reason rows in
    elim r.check_result [
      | none ↦ none
      | some x ↦ if x.purchase_ready then rest else some x.purchase_block_reason
    ]

-- `row.get('amount')` is false
abbrev pub lacks_amount : Transaction → Bool
lacks_amount r = elim r.amount [ none ↦ true | some cents ↦ cents == 0 ]

abbrev pub other_currency : Transaction → Transaction → Bool
other_currency first r = not (text_eq r.currency first.currency)

abbrev pub same_amount : Option ℕ → Option ℕ → Bool
same_amount none none = true
same_amount (some a) (some b) = a == b
same_amount _ _ = false

abbrev pub unclear_price : Text
unclear_price = codes "Не удалось определить общую цену и валюту покупки"

abbrev pub short_deposit : Text
short_deposit = codes "Недостаточно средств на депозите поставщика для всего количества"

-- The reason with the price and the currencies looked at.
unfoldable pub priced_reason : Transaction → List Transaction → Text → Text
unfolding any
priced_reason first rows reason =
    if is_empty reason && (any (other_currency first) rows || any lacks_amount rows)
    then unclear_price
    else reason

abbrev pub summary_of : Bool → Transaction → List Transaction → CheckResult → Text → BatchSummary
summary_of enabled first others result reason =
    let rows = first ∷ others in
    record {
      first_result = result;
      purchase_amount = total amount_or_0 rows;
      unit_amount =
          if any (λ (r : Transaction). not (same_amount r.amount first.amount)) rows
          then none
          else first.amount;
      purchase_ready = is_empty reason;
      purchase_block_reason = reason;
      batch = batch_view first others enabled;
    }

-- What is asked of the balance when nothing else stands in the way.
abbrev pub funds_reason : Balance → Text → ℕ → Try Text
funds_reason balance currency cents =
    if not balance.configured || not (text_eq balance.currency currency)
    then returns short_deposit
    else elim (available_funds balance) [
      | raises e ↦ raises e
      | returns funds ↦ if falls_short funds cents then returns short_deposit else returns []
    ]

abbrev pub final_reason : Try Balance → Text → ℕ → Text → Try Text
final_reason balance currency cents reason =
    if not (is_empty reason)
    then returns reason
    else elim balance [ raises e ↦ raises e | returns b ↦ funds_reason b currency cents ]

abbrev pub summed_with : Bool → Transaction → List Transaction → CheckResult → Try Text → BatchCheck
summed_with enabled first others result (raises e) = refuses_check e
summed_with enabled first others result (returns reason) =
    summed (summary_of enabled first others result reason)

abbrev pub summed_for :
    Bool
    → Try Balance
    → Transaction
    → List Transaction
    → Option CheckResult
    → Option Text
    → BatchCheck
summed_for enabled balance first others (some result) (some reason) =
    summed_with enabled first others result (
      final_reason balance first.currency (total amount_or_0 (first ∷ others))
        (priced_reason first (first ∷ others) reason))
summed_for enabled balance first others _ _ = breaks_check

unfoldable pub batch_summary : Bool → Try Balance → Transaction → List Transaction → BatchCheck
unfolding block_reason priced_reason available_funds falls_short batch_view any text_eq
batch_summary enabled balance first others =
    summed_for enabled balance first others first.check_result (block_reason (first ∷ others))

-- The whole check: the rows under the lock, and `first` and `others` as they are read again.
unfoldable pub batch_check :
    (Transaction → Try (Option CheckResult))
    → (ℕ → Bool)
    → ℕ
    → Bool
    → Try Balance
    → List Transaction
    → Transaction
    → List Transaction
    → BatchCheck
unfolding check_rows batch_summary
batch_check check_row stops now enabled balance rows first others =
    elim (check_rows check_row stops now 0 rows) [
      | some reply ↦ reply
      | none ↦ batch_summary enabled balance first others
    ]
