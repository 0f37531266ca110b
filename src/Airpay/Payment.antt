-- ===== src/Airpay/Payment.antt =====
-- api/airpay_runtime/airpay_purchase.py: `pay`, `send_pay` and `reconcile`, each on the locked row.
use homtech_hub.Prelude.{
  ℕ, ◌+◌, ℤ, pos, Text, Bool, true, false, not, ◌&&◌, ◌||◌, [], none, some, Json, real, object,
  Fields, get_field, set_field, present, is_some, leb, ◌==◌, if◌then◌else◌, codes, text_eq,
  truncated, eqb_ℤ,
}
use homtech_hub.Hub.InterHub.{text_of}
use homtech_hub.Airpay.Http.{HttpError, http, Try, returns, raises}
use homtech_hub.Airpay.Money.{
  Balance, required_amount, max_amount, as_money, available_funds, falls_short,
}
use homtech_hub.Airpay.Transaction.{
  Transaction, TransactionState, processing, paid, failed, is_processing, is_paid, is_failed,
  is_checked_state,
}
use homtech_hub.Airpay.Answer.{validate_response, is_final_failure}
use homtech_hub.Airpay.Run.{Run, shows, fails, breaks, saves, asks, asks_balance, pay_request}
use homtech_hub.Airpay.Purchase.{max_recovery_attempts, retry_at, must_wait, wait_message}

abbrev pub disabled : HttpError
disabled = http 403 (codes "Оплата и получение ваучеров Airpay отключены в этом окружении")

-- {**row['request_payload'], 'amountTo': float(amount)}
unfoldable pub pay_body : Fields → ℕ → Fields
pay_body payload cents = set_field (codes "amountTo") (real (as_money cents)) payload

abbrev pub unconfirmed : Text
unconfirmed = codes "payment_unconfirmed"

abbrev pub missing_voucher : Text
missing_voucher = codes "voucher_missing"

abbrev pub exhausted : ℕ → Bool
exhausted attempts = leb max_recovery_attempts attempts

-- The row where no usable answer has come.
abbrev pub with_unknown : Transaction → Transaction
with_unknown r = record r {
  provider_message =
      codes "Результат оплаты неизвестен. Уточните его в истории; новую покупку не создавайте.";
  requires_attention = exhausted r.pay_attempts;
  attention_reason = if exhausted r.pay_attempts then unconfirmed else [];
}

-- 202 after a repetition, 215 and an unknown code do not prove that the first request failed.
unfoldable pub state_after_pay : ℤ → ℕ → TransactionState
state_after_pay code attempts =
    if eqb_ℤ code (pos 0)
    then paid
    else if is_final_failure code && not (eqb_ℤ code (pos 202) && not (leb attempts 1))
    then failed
    else processing

abbrev pub counted_pay : ℕ → Transaction → Transaction
counted_pay now r = record r {
  pay_attempts = r.pay_attempts + 1;
  next_attempt_at = retry_at now (r.pay_attempts + 1);
}

-- The stored body, committed before the first request.
abbrev pub with_body : ℕ → Transaction → Transaction
with_body cents r = record r {
  pay_request = some (pay_body r.request_payload cents);
  state = processing;
  provider_message = codes "Оплата отправляется; ожидается результат";
}

-- `bool(row['service_snapshot'].get('_airpay_batch'))`
abbrev pub in_batch : Transaction → Bool
in_batch r = is_some (present (get_field (codes "_airpay_batch") r.service_snapshot))

abbrev pub is_ready : Transaction → Bool
is_ready r =
    is_checked_state r.state
    && elim r.check_result [ none ↦ false | some result ↦ result.purchase_ready ]

abbrev pub with_attention : Text → Transaction → Transaction
with_attention reason r = record r { requires_attention = true; attention_reason = reason }

module _ (show : Json → Text) where
  abbrev pub with_pay_answer : ℕ → Json → Fields → ℤ → Transaction → Transaction
  with_pay_answer now raw fs code r =
      let state = state_after_pay code r.pay_attempts in
      let stuck = is_processing state && exhausted r.pay_attempts in
      record r {
        pay_response = some raw;
        state = state;
        provider_transaction_id = text_of show (get_field (codes "transactionId") fs);
        provider_message = truncated (text_of show (get_field (codes "resultMessage") fs));
        next_attempt_at = if is_processing state then retry_at now r.pay_attempts else none;
        requires_attention = stuck;
        attention_reason = if stuck then unconfirmed else [];
      }

  -- The answer to `pay`; `r` is the row that was saved before the request.
  abbrev pub after_pay : Transaction → ℕ → Try Json → Run
  after_pay r now (raises e) = saves (with_unknown r) (shows (with_unknown r))
  after_pay r now (returns raw) = elim (validate_response show raw r.agent_transaction_id) [
    | raises e ↦ saves (with_unknown r) (shows (with_unknown r))
    | returns (fs, code) ↦ let r' = with_pay_answer now raw fs code r in saves r' (shows r')
  ]

  -- `send_pay`: the attempt is counted before the request. With no stored body the call would raise.
  unfoldable pub send_pay : ℕ → Transaction → Run
  unfolding validate_response
  send_pay now r = saves (counted_pay now r) (elim r.pay_request [
    | none ↦ breaks
    | some body ↦ asks (pay_request body) (after_pay (counted_pay now r))
  ])

  abbrev changed_balance : HttpError
  changed_balance = http 409 (codes "Изменились баланс или валюта счёта. Обновите подготовку.")

  abbrev pub pay_with_balance : ℕ → ℕ → Transaction → Try Balance → Run
  pay_with_balance now cents r (raises e) = fails e
  pay_with_balance now cents r (returns b) =
      if not (text_eq b.currency r.currency) || not b.configured
      then fails changed_balance
      else elim (available_funds b) [
        | raises e ↦ fails e
        | returns funds ↦
            if falls_short funds cents
            then fails changed_balance
            else saves (with_body cents r) (send_pay now (with_body cents r))
      ]

  -- The confirmed price, and then the balance. A prepared price that is missing would raise.
  abbrev pub pay_confirmed : ℕ → Json → Transaction → Run
  pay_confirmed now confirmed r = elim (required_amount max_amount (some confirmed)) [
    | raises e ↦ fails e
    | returns cents ↦ elim r.amount [
      | none ↦ breaks
      | some amount ↦
          if not (amount == cents)
          then fails (http 409 (codes "Подтверждённая цена не совпадает с подготовкой"))
          else asks_balance (λ now' b. pay_with_balance now' cents r b)
    ]
  ]

  unfoldable pub pay_transaction : Bool → ℕ → Bool → Json → Transaction → Run
  unfolding send_pay
  pay_transaction enabled now batch confirmed r =
      if not enabled
      then fails disabled
      else if in_batch r && not batch
      then fails (http 409 (codes "Подтвердите покупку через итог всего количества"))
      else if is_some r.replacement_key
      then fails (http 409 (codes "Позиция заменена новой подготовкой. Старую оплачивать нельзя."))
      else if is_paid r.state || is_failed r.state
      then shows r
      else if is_processing r.state
      then fails (http 409 (codes "Оплата уже отправлена. Уточните результат в истории."))
      else if not (is_ready r)
      then fails (http 409 (codes "Покупка недоступна без успешной подготовки"))
      else if leb r.expires_at now
      then fails (http 410 (codes "Цена устарела. Выполните новую подготовку."))
      else pay_confirmed now confirmed r

  -- `reconcile`: `pay` again, with the stored body.
  unfoldable pub reconcile : Bool → ℕ → Transaction → Run
  unfolding send_pay
  reconcile enabled now r =
      if not enabled
      then fails disabled
      else if not (is_processing r.state)
      then shows r
      else if r.requires_attention || exhausted r.pay_attempts
      then saves (with_attention unconfirmed r) (
          fails (
            http 409
              (codes "Нужна внешняя сверка с Airpay и ручное решение; повтор pay остановлен.")))
      else if not
          (elim r.pay_request [ none ↦ false | some body ↦ is_some (present (some (object body))) ])
      then fails (http 409 (codes "Нет сохранённого запроса оплаты; требуется ручная сверка"))
      else if must_wait now r
      then fails (http 429 wait_message)
      else send_pay now r
