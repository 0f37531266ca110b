-- ===== src/Airpay/Purchase.antt =====
-- api/airpay_runtime/airpay_purchase.py: `AirpayPurchase`, each method on the locked row. What the
-- methods return is the public view of the row, here the row itself.
use homtech_hub.Prelude.{
  ℕ, ◌+◌, Text, Bool, true, false, not, ◌&&◌, ◌||◌, [], Option, none, some, Json, object, Fields,
  no_fields, get_field, is_empty, ltb, leb, ◌==◌, if◌then◌else◌, codes, lt_decimal,
}
use homtech_hub.Airpay.Http.{http, detail_of, Try, returns, raises}
use homtech_hub.Airpay.Money.{Balance, decimal_value, as_money, available_funds, falls_short}
use homtech_hub.Airpay.Transaction.{
  Transaction, CheckResult, TransactionState, checking, check_pending, check_failed, checked,
  processing, paid, failed,
}
use homtech_hub.Airpay.Answer.{normalize_check, quote_amount, dict_or_empty}
use homtech_hub.Airpay.Run.{Run, shows, fails, breaks, saves, asks, asks_balance, check_request}

abbrev pub max_recovery_attempts : ℕ
max_recovery_attempts = 5

-- [5, 15, 30, 60, 300][min(max(attempt - 1, 0), 4)], in seconds
unfoldable pub pause_after : ℕ → ℕ
pause_after attempt =
    if leb attempt 1
    then 5
    else if attempt == 2
    then 15
    else if attempt == 3
    then 30
    else if attempt == 4
    then 60
    else 300

abbrev pub retry_at : ℕ → ℕ → Option ℕ
retry_at now attempt = some (now + pause_after attempt)

-- `wait_guard`
abbrev pub must_wait : ℕ → Transaction → Bool
must_wait now r = elim r.next_attempt_at [ none ↦ false | some t ↦ ltb now t ]

abbrev pub wait_message : Text
wait_message = codes "Следующий запрос Airpay пока недоступен. Повторите позже."

-- States in which a check only reads the journal.
abbrev pub is_check_over : TransactionState → Bool
is_check_over checked = true
is_check_over check_failed = true
is_check_over processing = true
is_check_over paid = true
is_check_over failed = true
is_check_over _ = false

abbrev pub state_after_check : CheckResult → TransactionState
state_after_check result =
    if result.success then checked else if result.retryable then check_pending else check_failed

-- The last update of `check`.
abbrev pub with_check : ℕ → Json → CheckResult → Option ℕ → Text → Text → Transaction → Transaction
with_check now raw result amount currency reason r = record r {
  check_response = some raw;
  check_result = some (record result {
    purchase_ready = result.success && is_empty reason;
    purchase_block_reason = reason;
  });
  amount = amount;
  currency = currency;
  state = state_after_check result;
  provider_message = result.message;
  next_attempt_at = if result.retryable then retry_at now r.check_attempts else none;
}

abbrev pub finish_check : ℕ → Json → CheckResult → Option ℕ → Text → Text → Transaction → Run
finish_check now raw result amount currency reason r =
    let r' = with_check now raw result amount currency reason r in saves r' (shows r')

abbrev pub check_lost : Text
check_lost = codes "Ответ check не получен; повторите проверку с прежним ID"

abbrev no_funds : Text
no_funds = codes "Недостаточно средств на депозите поставщика"

abbrev no_currency : Text
no_currency = codes "Не удалось определить валюту агентского счёта"

abbrev pub below_price : Text
below_price =
    codes
      "Принятая от клиента сумма меньше закупочной цены. Исправьте сумму и повторите подготовку."

-- Why a successful check at this price is not for sale: with the currency of the account.
abbrev pub balance_reason : Try Balance → ℕ → Text × Text
balance_reason (raises e) cents = ([], detail_of e)
balance_reason (returns b) cents =
    if not b.configured || is_empty b.currency
    then (b.currency, no_currency)
    else elim (available_funds b) [
      | raises e ↦ (b.currency, detail_of e)
      | returns funds ↦ if falls_short funds cents then (b.currency, no_funds) else (b.currency, [])
    ]

-- `amount_from is not None and Decimal(str(amount_from)) < Decimal(amount)`; `none` where the text of the
-- client's amount is no number, which raises.
abbrev pub client_pays_less : Fields → ℕ → Option Bool
client_pays_less payload cents = elim (get_field (codes "amountFrom") payload) [
  | none ↦ some false
  | some v ↦ elim (decimal_value (some v)) [ none ↦ none | some d ↦ lt_decimal d (as_money cents) ]
]

-- The row where no usable answer has come.
abbrev pub with_lost_check : Transaction → Transaction
with_lost_check r = record r { state = check_pending; provider_message = check_lost }

abbrev pub counted_check : ℕ → Transaction → Transaction
counted_check now r = record r {
  state = checking;
  check_attempts = r.check_attempts + 1;
  next_attempt_at = retry_at now (r.check_attempts + 1);
}

module _ (show : Json → Text) where
  abbrev pub displays_of : Fields → Fields
  displays_of raw = elim (dict_or_empty (get_field (codes "displays") raw)) [
    | none ↦ no_fields
    | some fs ↦ fs
  ]

  abbrev raw_fields : Json → Fields
  raw_fields (object fs) = fs
  raw_fields _ = no_fields

  -- A successful check: the price, the client's amount, and the balance.
  abbrev pub price_check : ℕ → Json → CheckResult → Transaction → Run
  price_check now raw result r =
      elim (quote_amount result (raw_fields raw) (displays_of (raw_fields raw)) r) [
        | raises e ↦ finish_check now raw result none [] (detail_of e) r
        | returns cents ↦ elim (client_pays_less r.request_payload cents) [
          | none ↦ breaks
          | some true ↦ finish_check now raw result (some cents) [] below_price r
          | some false ↦ asks_balance (λ now' b.
              finish_check now' raw result (some cents) (balance_reason b cents).0
                (balance_reason b cents).1 r)
        ]
      ]

  abbrev pub after_check : Transaction → ℕ → Try Json → Run
  after_check r now (raises e) = saves (with_lost_check r) (fails e)
  after_check r now (returns raw) = elim (normalize_check show raw r) [
    | raises e ↦ saves (with_lost_check r) (fails e)
    | returns result ↦
        if result.success
        then price_check now raw result r
        else finish_check now raw result none [] [] r
  ]

  -- `check`; `matches` says whether the signed draft has the row's own request.
  unfoldable pub check_transaction : ℕ → Bool → Transaction → Run
  unfolding normalize_check quote_amount
  check_transaction now matches r =
      if not matches
      then fails (http 409 (codes "Снимок подготовки не совпадает с журналом"))
      else if is_check_over r.state
      then shows r
      else if must_wait now r
      then fails (http 429 wait_message)
      else saves (counted_check now r)
          (asks (check_request r.request_payload) (after_check (counted_check now r)))
