-- ===== src/Airpay/Batch/Pay.antt =====
-- `AirpayBatch.pay` of api/airpay_runtime/airpay_batch.py. `pay_row` is what `AirpayPurchase.pay` gives for a
-- row, and `stops` whether `progress` raises at a number of positions, since the worker is to stop.
pub mod Loop
pub mod Order
use homtech_hub.Prelude.{
  ℕ, suc, ◌+◌, ◌-◌, Text, Bool, true, false, not, ◌&&◌, ◌||◌, List, [], ◌∷◌, Option, none, some,
  Json, ◌==◌, leb, length, any, total, keep, is_some, if◌then◌else◌, codes, text_eq,
}
use homtech_hub.Airpay.Http.{HttpError, http, Try, returns, raises}
use homtech_hub.Airpay.Money.{required_amount, Balance, available_funds, falls_short}
use homtech_hub.Airpay.Transaction.{
  Transaction, is_processing, is_paid, is_failed, is_checked_state,
}
use homtech_hub.Airpay.Payment.{disabled}
use homtech_hub.Airpay.Batch.{BatchView, batch_view, amount_or_0, remaining_share}
use homtech_hub.Airpay.Jobs.{interrupted}

-- The id and the price that a call of `AirpayPurchase.pay` gets.
pub record PayCall : Type 0 where
  pub id : ℕ
  pub cents : ℕ

pub data BatchReply : Type 0 where
  views : BatchView → BatchReply
  -- `batch_view` of the rows as they are after the payments
  views_again : BatchReply
  refuses_batch : HttpError → BatchReply
  -- an exception that is no `HTTPException`
  breaks_batch : BatchReply

abbrev pub pay_call : Transaction → PayCall
pay_call r = record { id = r.agent_transaction_id; cents = amount_or_0 r }

abbrev pub is_unpaid : Transaction → Bool
is_unpaid r = not (is_paid r.state)

-- Decimal("19999999999.80")
abbrev pub max_batch_amount : ℕ
max_batch_amount = 1999999999980

abbrev pub is_settled_badly : Transaction → Bool
is_settled_badly r = is_processing r.state || is_failed r.state

-- neither checked nor paid, or with a check that does not allow the payment
abbrev pub is_unready : Transaction → Bool
is_unready r =
    not (is_checked_state r.state || is_paid r.state)
    || not (elim r.check_result [ none ↦ false | some x ↦ x.purchase_ready ])

abbrev pub no_funds : HttpError
no_funds = http 409 (codes "Недостаточно средств для оставшегося количества или изменилась валюта")

module _ (pay_row : Transaction → Try Transaction) (stops : ℕ → Bool) where
  -- The loop: how it ends, and the calls that it makes. An exception of a row that is no HTTPException would
  -- end it at the same place, with no answer; it is left out.
  unfoldable pub pay_rows : ℕ → List Transaction → BatchReply × List PayCall
  pay_rows done [] = (views_again, [])
  pay_rows done (r ∷ rows) =
      let (reply, calls) = pay_rows (suc done) rows in
      elim (pay_row r) [
        | raises e ↦ (refuses_batch e, pay_call r ∷ [])
        | returns r' ↦
            if stops (suc done)
            then (refuses_batch (http 409 interrupted), pay_call r ∷ [])
            else if is_paid r'.state
            then (reply, pay_call r ∷ calls)
            else (views_again, pay_call r ∷ [])
      ]

  abbrev pub start_pay : List Transaction → List Transaction → BatchReply × List PayCall
  start_pay rows pending =
      if stops (length rows - length pending)
      then (refuses_batch (http 409 interrupted), [])
      else pay_rows (length rows - length pending) pending

  -- The test of the funds, which may raise itself.
  abbrev pub pay_with_funds :
      List Transaction → List Transaction → Balance → BatchReply × List PayCall
  pay_with_funds rows pending balance =
      if not balance.configured
        || any (λ (r : Transaction). not (text_eq r.currency balance.currency)) rows
      then (refuses_batch no_funds, [])
      else elim (available_funds balance) [
        | raises e ↦ (refuses_batch e, [])
        | returns funds ↦
            if falls_short funds (total remaining_share rows)
            then (refuses_batch no_funds, [])
            else start_pay rows pending
      ]

  abbrev pub pay_confirmed_batch :
      ℕ → Try Balance → List Transaction → ℕ → BatchReply × List PayCall
  pay_confirmed_batch now balance rows cents =
      if not (cents == total amount_or_0 rows)
      then (
        refuses_batch (http 409 (codes "Подтверждённая общая цена не совпадает с подготовкой")),
        [],
      )
      else if any (λ (r : Transaction). is_unpaid r && leb r.expires_at now) rows
      then (
        refuses_batch
            (http 410 (codes "Цена устарела. Неоплаченные позиции требуют новой подготовки.")),
        [],
      )
      else elim balance [
        | raises e ↦ (refuses_batch e, [])
        | returns b ↦ pay_with_funds rows (keep is_unpaid rows) b
      ]

  unfoldable pub batch_pay :
      Bool
      → ℕ
      → Option Json
      → Try Balance
      → Transaction
      → List Transaction
      → BatchReply × List PayCall
  unfolding any keep required_amount available_funds falls_short pay_rows batch_view text_eq
  batch_pay enabled now confirmed balance first others =
      let rows = first ∷ others in
      if not enabled
      then (refuses_batch disabled, [])
      else if any (λ (r : Transaction). is_some r.replacement_key) rows
      then (refuses_batch (http 409 (codes "Неоплаченные позиции заменены новой подготовкой")), [])
      else if any is_settled_badly rows || not (any is_unpaid rows)
      then (views (batch_view first others true), [])
      else if any is_unready rows
      then (refuses_batch (http 409 (codes "Не все ключи прошли подготовку")), [])
      else if any (λ (r : Transaction). not (is_some r.amount)) rows
      then (breaks_batch, [])
      else elim (required_amount max_batch_amount confirmed) [
        | raises e ↦ (refuses_batch e, [])
        | returns cents ↦ pay_confirmed_batch now balance rows cents
      ]
