-- ===== src/Airpay/Voucher.antt =====
-- api/airpay_runtime/airpay_purchase.py: `voucher`, on the locked row, with the part of `AirpayRecord.update`
-- (airpay_repository.py) that stores a code.
use homtech_hub.Prelude.{
  ℕ, ◌+◌, ℤ, pos, Text, Bool, not, ◌&&◌, ◌||◌, [], ◌++◌, Option, none, some, Json, string, object,
  Fields, no_fields, field, get_field, set_field, is_empty, if◌then◌else◌, codes, text_eq,
  truncated, strip, eqb_ℤ,
}
use homtech_hub.Hub.Crypto.{Crypto}
use homtech_hub.Airpay.Http.{HttpError, http, detail_of, Try, returns, raises}
use homtech_hub.Airpay.Transaction.{Transaction, is_paid, is_voucher_kind, has_code}
use homtech_hub.Airpay.Answer.{validate_response, str_of, dict_or_empty}
use homtech_hub.Airpay.Run.{Run, shows, fails, breaks, saves, saves_code, asks, voucher_request}
use homtech_hub.Airpay.Purchase.{retry_at, must_wait, wait_message}
use homtech_hub.Airpay.Payment.{disabled, exhausted, missing_voucher, with_attention}

unfoldable pub drop_field : Text → Fields → Fields
drop_field k no_fields = no_fields
drop_field k (field j v fs) = if text_eq j k then drop_field k fs else field j v (drop_field k fs)

-- The answer as it is stored: without the code. `displays` of another kind than a dict has no `items`.
unfoldable pub without_code : Fields → Option Fields
unfolding drop_field
without_code raw = elim (dict_or_empty (get_field (codes "displays") raw)) [
  | none ↦ none
  | some displays ↦
      some (set_field (codes "displays") (object (drop_field (codes "pinCode") displays)) raw)
]

-- `pin_code` with and without a secret to encrypt it.
abbrev pub with_code : Crypto → Text → Text → Transaction → Transaction
with_code c secret pin r = if is_empty secret then record r { pin_code = pin } else record r {
  pin_code = [];
  pin_ciphertext = some (c.encrypt pin secret);
  result_hash = c.sha256 pin;
}

abbrev text_or_none : Option Json → Option Text
text_or_none (some (string t)) = if is_empty (strip t) then none else some (strip t)
text_or_none _ = none

-- The code of a successful answer.
abbrev pub pin_of : Fields → ℤ → Option Text
pin_of raw code =
    if eqb_ℤ code (pos 0)
    then elim (get_field (codes "displays") raw) [
      | some (object displays) ↦ text_or_none (get_field (codes "pinCode") displays)
      | some _ ↦ none
      | none ↦ none
    ]
    else none

-- The end of `voucher`: the fifth attempt without a code asks for attention.
abbrev pub finish_voucher : Transaction → Run
finish_voucher r =
    if not (has_code r) && exhausted r.voucher_attempts
    then saves (with_attention missing_voucher r) (shows (with_attention missing_voucher r))
    else shows r

abbrev pub not_received : HttpError → Transaction → Transaction
not_received e r = record r {
  provider_message =
      truncated (
        codes "Оплачено. Код не получен: "
        ++ (detail_of e ++ codes ". Повторная оплата не нужна."));
}

abbrev pub still_pending : Fields → Transaction → Transaction
still_pending stored r = record r {
  voucher_response = some (object stored);
  provider_message = codes "Оплачено. Код ещё не получен; повторите получение позже.";
}

abbrev pub other_operation : HttpError
other_operation = http 502 (codes "Код относится к другой операции поставщика")

abbrev pub counted_voucher : ℕ → Transaction → Transaction
counted_voucher now r = record r {
  voucher_attempts = r.voucher_attempts + 1;
  next_attempt_at = retry_at now (r.voucher_attempts + 1);
}

abbrev pub before_code : Fields → Transaction → Transaction
before_code stored r = record r {
  voucher_response = some (object stored);
  next_attempt_at = none;
  provider_message = codes "Оплачено. Ваучер получен.";
}

module _ (c : Crypto) (secret : Text) where
  abbrev pub received : Text → Fields → Transaction → Transaction
  received pin stored r = with_code c secret pin (before_code stored r)

  abbrev pub store_answer : Fields → Option Text → Transaction → Run
  store_answer raw pin r = elim (without_code raw) [
    | none ↦ breaks
    | some stored ↦ elim pin [
      | none ↦ saves (still_pending stored r) (finish_voucher (still_pending stored r))
      | some code ↦ saves_code (received code stored r) (finish_voucher (received code stored r))
    ]
  ]

  module _ (show : Json → Text) where
    abbrev pub after_voucher : Transaction → ℕ → Try Json → Run
    after_voucher r now (raises e) = saves (not_received e r) (finish_voucher (not_received e r))
    after_voucher r now (returns answer) =
        elim (validate_response show answer r.agent_transaction_id) [
          | raises e ↦ saves (not_received e r) (finish_voucher (not_received e r))
          | returns (raw, code) ↦
              if eqb_ℤ code (pos 0)
                && not (
                    text_eq (str_of show (get_field (codes "transactionId") raw))
                      r.provider_transaction_id)
              then saves (not_received other_operation r)
                  (finish_voucher (not_received other_operation r))
              else store_answer raw (pin_of raw code) r
        ]

    unfoldable pub fetch_voucher : Bool → ℕ → Transaction → Run
    unfolding validate_response without_code
    fetch_voucher enabled now r =
        if not enabled
        then fails disabled
        else if not (is_paid r.state) || not (is_voucher_kind r.purchase_kind)
        then fails
            (http 409 (codes "Код доступен только после окончательно успешной оплаты ваучера"))
        else if has_code r
        then shows r
        else if r.requires_attention || exhausted r.voucher_attempts
        then saves (with_attention missing_voucher r) (
            fails (
              http 409
                (codes "Код не получен. Нужна внешняя сверка и ручное сохранение результата.")))
        else if must_wait now r
        then fails (http 429 wait_message)
        else saves (counted_voucher now r) (elim r.pay_request [
          | none ↦ breaks
          | some body ↦ asks (voucher_request body) (after_voucher (counted_voucher now r))
        ])
