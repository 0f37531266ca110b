-- ===== src/Airpay/Resolution.antt =====
-- api/airpay_runtime/airpay_resolution.py, and `AirpayRepository.resolve` of airpay_repository.py: the
-- owner's decision on a payment of unknown outcome, or on a paid voucher without a code.
pub mod Repeated
use homtech_hub.Prelude.{
  occurs_in, ℕ, Text, Bool, true, false, not, ◌&&◌, ◌||◌, List, [], ◌∷◌, ◌++◌, Option, none, some,
  is_empty, is_some, ltb, leb, length, strip, if◌then◌else◌, codes, text_eq, any, find, ◌==◌,
}
use homtech_hub.Hub.Crypto.{Crypto}
use homtech_hub.Airpay.Http.{HttpError, http, Try, returns, raises, ◌>>=◌, ◌>>◌, refuse_if}
use homtech_hub.Airpay.Money.{max_amount, bad_amount}
use homtech_hub.Airpay.Transaction.{
  Transaction, paid, failed, is_processing, is_paid, is_voucher_kind, has_code,
}
use homtech_hub.Airpay.Voucher.{with_code}

pub data Verdict : Type 0 where
  confirm_failed record_success other_verdict : Verdict

pub record ResolutionPayload : Type 0 where
  pub request_id : Text
  pub expected_updated_at : ℕ
  pub evidence : Text
  pub verified : Bool
  pub decision : Verdict
  pub code : Text
  pub provider_transaction_id : Text

abbrev pub is_confirm : Verdict → Bool
is_confirm confirm_failed = true
is_confirm _ = false

abbrev pub is_record : Verdict → Bool
is_record record_success = true
is_record _ = false

-- A payment of unknown outcome; a paid voucher without its code.
abbrev pub is_pending : Transaction → Bool
is_pending r = is_processing r.state

abbrev pub lacks_code : Transaction → Bool
lacks_code r = is_paid r.state && is_voucher_kind r.purchase_kind && not (has_code r)

-- `amount_value(row.get('amount'), required=True)` of a stored number of cents
abbrev pub amount_is_good : Option ℕ → Bool
amount_is_good none = false
amount_is_good (some cents) = ltb 0 cents && leb cents max_amount

abbrev pub bad_code : Text → Bool
bad_code code = is_empty code || ltb 4096 (length code) || any (λ c. ltb c 32) code

-- The columns that both decisions set.
abbrev pub closed : ResolutionPayload → Transaction → Transaction
closed x r = record r {
  requires_attention = false;
  attention_reason = [];
  next_attempt_at = none;
  resolution_request_id = some x.request_id;
}

abbrev pub refused_row : ResolutionPayload → Transaction → Transaction
refused_row x r = record (closed x r) {
  state = failed;
  provider_message = codes "Владелец подтвердил отсутствие оплаты по результатам внешней сверки.";
}

abbrev pub confirmed_row : ResolutionPayload → Transaction → Transaction
confirmed_row x r = record (closed x r) {
  state = paid;
  provider_transaction_id = strip x.provider_transaction_id;
  provider_message = codes "Владелец подтвердил успешную покупку по результатам внешней сверки.";
}

-- The tests that every decision passes.
unfoldable pub check_decision : ResolutionPayload → Transaction → Try (Unit {0})
check_decision x r = do
  refuse_if (not (x.expected_updated_at == r.updated_at)) 409
      (codes "Операция изменилась. Обновите результат перед решением.")
  refuse_if
      (not x.verified || ltb (length (strip x.evidence)) 10 || ltb 1000 (length (strip x.evidence)))
      422 (codes "Подтвердите внешнюю сверку и укажите её основание (10–1000 символов).")
  refuse_if (not (is_pending r) && not (lacks_code r)) 409 (
      codes
        "Ручное решение доступно только для неизвестной оплаты или оплаченного ваучера без кода.")

-- The tests of a successful one, up to the code.
unfoldable pub check_success : ResolutionPayload → Transaction → Try (Unit {0})
check_success x r = do
  refuse_if
      (not (is_record x.decision)
        || is_empty (strip x.provider_transaction_id)
        || ltb 128 (length (strip x.provider_transaction_id)))
      422 (codes "Для успешного решения нужен номер подтверждённой оплаты Airpay.")
  refuse_if
      (is_paid r.state && not (text_eq (strip x.provider_transaction_id) r.provider_transaction_id))
      409 (codes "Номер Airpay не совпадает с уже подтверждённой оплатой.")
  refuse_if (not (amount_is_good r.amount)) 422 bad_amount
  refuse_if (is_empty r.currency) 409
      (codes "Не определена валюта покупки; требуется отдельная сверка.")

-- The code that a decision brings: of a voucher exactly.
unfoldable pub code_of : ResolutionPayload → Transaction → Try (Option Text)
unfolding any occurs_in
code_of x r =
    if is_voucher_kind r.purchase_kind
    then refuse_if (bad_code (strip x.code)) 422
        (codes "Введите полученный у поставщика код ваучера без управляющих символов.")
      >> refuse_if (occurs_in (strip x.code) (strip x.evidence)) 422
          (codes "Уберите код из основания решения: для него есть отдельное защищённое поле.")
      >> returns (some (strip x.code))
    else refuse_if (not (is_empty (strip x.code))) 422
        (codes "Пополнение не должно содержать код ваучера.")
      >> returns none

-- The end of either decision: the row that it leads to, and the code to store with it.
unfoldable pub confirm_failure : ResolutionPayload → Transaction → Try (Transaction × Option Text)
confirm_failure x r =
    if not (is_pending r)
      || not (is_empty (strip x.code))
      || not (is_empty (strip x.provider_transaction_id))
    then raises (
        http 409 (
          codes
            "Подтверждённую оплату нельзя отменять; для отказа не передавайте код и номер оплаты."))
    else returns (refused_row x r, none)

abbrev pub with_confirmed :
    ResolutionPayload → Transaction → Option Text → Try (Transaction × Option Text)
with_confirmed x r code = returns (confirmed_row x r, code)

unfoldable pub confirm_success : ResolutionPayload → Transaction → Try (Transaction × Option Text)
unfolding check_success code_of
confirm_success x r = check_success x r >> (code_of x r >>= with_confirmed x r)

unfoldable pub resolution_changes :
    ResolutionPayload → Transaction → Try (Transaction × Option Text)
unfolding check_decision confirm_failure confirm_success
resolution_changes x r =
    check_decision x r
    >> (if is_confirm x.decision then confirm_failure x r else confirm_success x r)

-- A row of `airpay_operator_actions` of this transaction.
pub record Decided : Type 0 where
  pub request_id : Text
  pub request_hash : Text

unfoldable pub find_decided : Text → List Decided → Option Decided
unfolding find
find_decided request decided = find (λ (a : Decided). text_eq a.request_id request) decided

abbrev pub stored_code : Crypto → Text → Option Text → Transaction → Transaction
stored_code c secret none r = r
stored_code c secret (some code) r = with_code c secret code r

abbrev pub decided_row : Crypto → Text → ℕ → Option Text → Transaction → Transaction
decided_row c secret now code r = record (stored_code c secret code r) { updated_at = now }

abbrev taken : HttpError
taken = http 409 (codes "Такой код уже сохранён для другой операции. Решение не применено.")

-- The write of a decision: `clash` says whether another operation holds the code.
abbrev pub write_decision :
    Crypto
    → Text
    → Bool
    → Text
    → ℕ
    → ResolutionPayload
    → Transaction
    → List Decided
    → Transaction × Option Text
    → Try Transaction × Transaction × List Decided
write_decision c secret clash digest now x r decided (r', code) =
    if is_some code && is_empty secret
    then (raises (http 503 (codes "Не настроен ключ шифрования результата Airpay.")), r, decided)
    else if is_some code && clash
    then (raises taken, r, decided)
    else (
      returns (decided_row c secret now code r'),
      decided_row c secret now code r',
      decided ++ record { request_id = x.request_id; request_hash = digest } ∷ [],
    )

abbrev pub after_changes :
    Crypto
    → Text
    → Bool
    → Text
    → ℕ
    → ResolutionPayload
    → Transaction
    → List Decided
    → Try (Transaction × Option Text)
    → Try Transaction × Transaction × List Decided
after_changes c secret clash digest now x r decided (raises e) = (raises e, r, decided)
after_changes c secret clash digest now x r decided (returns changes) =
    write_decision c secret clash digest now x r decided changes

-- `AirpayRepository.resolve`: the transaction is rolled back where it raises.
unfoldable pub resolve_transaction :
    Crypto
    → Text
    → Bool
    → Text
    → ℕ
    → ResolutionPayload
    → Transaction
    → List Decided
    → Try Transaction × Transaction × List Decided
unfolding resolution_changes
resolve_transaction c secret clash digest now x r decided =
    elim (find_decided x.request_id decided) [
      | some a ↦ if text_eq a.request_hash digest then (returns r, r, decided) else (
        raises (http 409 (codes "Ключ решения уже использован с другим содержимым.")),
        r,
        decided,
      )
      | none ↦ after_changes c secret clash digest now x r decided (resolution_changes x r)
    ]
