-- ===== src/Airpay/Answer.antt =====
-- What api/airpay_runtime makes of Airpay's answers: `normalize_check` of airpay_preparation.py, and
-- `quote_amount` and `validate_response` of airpay_purchase.py. `show` stands for Python's `str` of a
-- value that is no text.
use homtech_hub.Prelude.{
  ℕ, ℤ, pos, Text, Bool, true, false, not, ◌&&◌, ◌||◌, [], Option, none, some, Json, null, integer,
  string, array, object, Items, no_items, item, Fields, no_fields, get_field, present, is_some,
  truncated, or_else, if◌then◌else◌, codes, text_eq, eqb_ℤ, ◌==◌,
}
use homtech_hub.Hub.InterHub.{text_of}
use homtech_hub.Airpay.Http.{Try, returns, raises, http, ◌>>=◌, ◌>>◌, refuse_if}
use homtech_hub.Airpay.Money.{required_amount, max_amount}
use homtech_hub.Airpay.Transaction.{
  is_voucher_kind, Scheme, simple, contracts, invoice, CheckResult, Transaction,
}

-- {1, 153, 220, 255}
abbrev pub is_temporary : ℤ → Bool
is_temporary (pos n) = n == 1 || n == 153 || n == 220 || n == 255
is_temporary _ = false

-- {4, 5, 7, 8, 130, 155, 202, 241, 242, 250, 300}
abbrev pub is_final_failure : ℤ → Bool
is_final_failure (pos n) =
    n == 4
    || n == 5
    || n == 7
    || n == 8
    || n == 130
    || n == 155
    || n == 202
    || n == 241
    || n == 242
    || n == 250
    || n == 300
is_final_failure _ = false

-- `value or {}`, if that is a dict
abbrev pub dict_or_empty : Option Json → Option Fields
dict_or_empty v = elim (present v) [
  | none ↦ some no_fields
  | some (object fs) ↦ some fs
  | some _ ↦ none
]

-- `value is None`, for a missing key too
abbrev pub is_null : Option Json → Bool
is_null none = true
is_null (some null) = true
is_null (some _) = false

abbrev pub is_dict : Option Json → Bool
is_dict (some (object _)) = true
is_dict _ = false

unfoldable pub all_dicts : Items → Bool
all_dicts no_items = true
all_dicts (item v xs) = is_dict (some v) && all_dicts xs

-- None or a list; None or a dict
abbrev pub is_list_or_null : Option Json → Bool
is_list_or_null (some (array _)) = true
is_list_or_null v = is_null v

abbrev pub is_dict_or_null : Option Json → Bool
is_dict_or_null v = is_null v || is_dict v

-- of a list, or of None
abbrev pub contracts_are_good : Option Json → Bool
contracts_are_good (some (array xs)) = all_dicts xs
contracts_are_good _ = true

-- each row a dict, and its `data` a dict if it has one
unfoldable pub rows_are_good : Items → Bool
rows_are_good no_items = true
rows_are_good (item (object fs) xs) =
    (is_null (get_field (codes "data") fs) || is_dict (get_field (codes "data") fs))
    && rows_are_good xs
rows_are_good (item _ xs) = false

abbrev services_are_good : Option Json → Bool
services_are_good (some (array xs)) = rows_are_good xs
services_are_good _ = false

unfoldable pub invoices_are_good : Items → Bool
unfolding rows_are_good
invoices_are_good no_items = true
invoices_are_good (item (object fs) xs) =
    services_are_good (get_field (codes "services") fs) && invoices_are_good xs
invoices_are_good (item _ xs) = false

abbrev invoice_list_is_good : Option Json → Bool
invoice_list_is_good (some (array xs)) = invoices_are_good xs
invoice_list_is_good _ = false

-- of a dict, or of None
abbrev pub invoice_is_good : Option Json → Bool
invoice_is_good (some (object fs)) = invoice_list_is_good (get_field (codes "invoices") fs)
invoice_is_good _ = true

abbrev pub scheme_of : Fields → Scheme
scheme_of raw =
    if not (is_null (get_field (codes "invoice") raw))
    then invoice
    else if not (is_null (get_field (codes "contracts") raw))
    then contracts
    else simple

-- `type(raw.get('result')) is int`, of a dict
abbrev pub result_code : Json → Option (Fields × ℤ)
result_code (object fs) = elim (get_field (codes "result") fs) [
  | some (integer n) ↦ some (fs, n)
  | some _ ↦ none
  | none ↦ none
]
result_code _ = none

module _ (show : Json → Text) where
  -- `str(value)`
  abbrev pub str_of : Option Json → Text
  str_of none = codes "None"
  str_of (some (string t)) = t
  str_of (some v) = show v

  abbrev pub id_text : ℕ → Text
  id_text id = show (integer (pos id))

  -- the operation's own id, and a transaction id
  abbrev pub names_operation : ℕ → Fields → Bool
  names_operation id raw =
      text_eq (str_of (get_field (codes "agentTransactionId") raw)) (id_text id)
      && is_some (present (get_field (codes "transactionId") raw))

  -- `result` of `normalize_check`, before the purchase's own fields are added
  abbrev pub checked_fields : Transaction → Fields → ℤ → Fields → CheckResult
  checked_fields r raw code displays = record {
    success = eqb_ℤ code (pos 0);
    result = code;
    message = truncated (text_of show (get_field (codes "resultMessage") raw));
    retryable = is_temporary code;
    transaction_id = text_of show (get_field (codes "transactionId") raw);
    amount_to = elim (get_field (codes "amountTo") r.request_payload) [
      | none ↦ []
      | some v ↦ str_of (some v)
    ];
    fixed_amount = text_of show (get_field (codes "fixedAmount") displays);
    scheme = scheme_of raw;
    purchase_ready = false;
    purchase_block_reason = [];
  }

  unfoldable pub normalize_check : Json → Transaction → Try CheckResult
  unfolding all_dicts invoices_are_good
  normalize_check response r = elim (result_code response) [
    | none ↦ raises (http 502 (codes "Airpay вернул некорректный результат проверки"))
    | some (raw, code) ↦
        if eqb_ℤ code (pos 0) && not (names_operation r.agent_transaction_id raw)
        then raises (http 502 (codes "Airpay вернул подтверждение другой или неизвестной операции"))
        else elim (dict_or_empty (get_field (codes "displays") raw)) [
          | none ↦ raises (http 502 (codes "Airpay вернул некорректные данные проверки"))
          | some displays ↦
              refuse_if
                (not (is_list_or_null (get_field (codes "contracts") raw))
                  || not (is_dict_or_null (get_field (codes "invoice") raw)))
                502 (codes "Airpay вернул некорректные данные проверки")
              >> refuse_if (not (contracts_are_good (get_field (codes "contracts") raw))) 502
                  (codes "Airpay вернул некорректный список договоров")
              >> refuse_if (not (invoice_is_good (get_field (codes "invoice") raw))) 502
                  (codes "Airpay вернул некорректные квитанции")
              >> returns (checked_fields r raw code displays)
        ]
  ]

  -- `validate_response` of a pay or voucher answer
  unfoldable pub validate_response : Json → ℕ → Try (Fields × ℤ)
  validate_response response id = elim (result_code response) [
    | none ↦ raises (http 502 (codes "Некорректный ответ Airpay"))
    | some (raw, code) ↦
        if not (is_null (get_field (codes "agentTransactionId") raw))
          && not (text_eq (str_of (get_field (codes "agentTransactionId") raw)) (id_text id))
        then raises (http 502 (codes "Airpay вернул другую операцию"))
        else if eqb_ℤ code (pos 0) && not (names_operation id raw)
        then raises (http 502 (codes "Airpay не подтвердил идентификаторы операции"))
        else returns (raw, code)
  ]

-- `raw.get('fixedPrice', display_price)`
abbrev pub price_field : Fields → Fields → Option Json
price_field raw displays = elim (get_field (codes "fixedPrice") raw) [
  | none ↦ get_field (codes "fixedPrice") displays
  | some v ↦ some v
]

-- The displayed price, if there is one, must be the same.
abbrev pub same_price : Option Json → ℕ → Try ℕ
same_price shown cents =
    if is_null shown
    then returns cents
    else required_amount max_amount shown >>= λ other.
        if other == cents
        then returns cents
        else raises (http 502 (codes "Airpay вернул разные значения fixedPrice"))

abbrev fixed_or_to : CheckResult → Text
fixed_or_to result = or_else result.fixed_amount result.amount_to

abbrev is_fixed : Transaction → Bool
is_fixed r =
    is_voucher_kind r.purchase_kind
    || is_some (present (get_field (codes "fixed_payment") r.service_snapshot))

-- The price that `pay` is sent with.
unfoldable pub quote_amount : CheckResult → Fields → Fields → Transaction → Try ℕ
quote_amount result raw displays r = elim result.scheme [
  | contracts ↦
      raises (http 409 (codes "Для договоров и квитанций формат оплаты ещё не подтверждён Airpay"))
  | invoice ↦
      raises (http 409 (codes "Для договоров и квитанций формат оплаты ещё не подтверждён Airpay"))
  | simple ↦
      if not (is_null (price_field raw displays))
      then required_amount max_amount (price_field raw displays)
        >>= same_price (get_field (codes "fixedPrice") displays)
      else if is_fixed r
      then raises (
          http 409 (codes "Airpay не вернул fixedPrice. Покупка фиксированной позиции недоступна."))
      else required_amount max_amount (some (string (fixed_or_to result)))
]
