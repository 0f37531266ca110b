-- ===== src/Airpay/History.antt =====
-- api/airpay_runtime/airpay_history.py: the filters of the saved history (`history_where`, with the query of
-- `AirpayRepository.history`), and the limit of its export. Dates are days, of which `midnight` is the
-- start in Moscow.
pub mod Search
pub mod Outcomes
use homtech_hub.Prelude.{
  ℕ, ◌+◌, Text, Bool, true, false, not, ◌&&◌, ◌||◌, List, [], ◌∷◌, ◌++◌, Option, none, some, leb,
  ltb, ◌==◌, if◌then◌else◌, is_empty, length, is_some, to_nat, total, strip, text_eq, codes, keep,
  sort_by, page, ilike, replace_char,
}
use homtech_hub.Airpay.Http.{Try, returns, raises, http}
use homtech_hub.Airpay.Transaction.{
  ResultState, ready, pending, unavailable, not_required, transaction_outcome, Transaction,
  TransactionState, prepared, checking, check_pending, check_failed, checked, processing, paid,
  failed, PurchaseKind, voucher, topup, is_paid, is_voucher_kind, has_code,
}

-- A row with the columns that the history reads beside those of a transaction.
pub record HistoryRow : Type 0 where
  pub row : Transaction
  pub created_by : Text
  pub created_at : ℕ
  pub id_text : Text
  pub service_id : Text
  pub service_title : Text
  pub account : Text

pub data StatusFilter : Type 0 where
  any_status completed awaiting_voucher needs_attention : StatusFilter
  of_state : TransactionState → StatusFilter

pub record HistoryFilters : Type 0 where
  pub q : Text
  pub status : StatusFilter
  pub kind : Option PurchaseKind
  pub date_from : Option ℕ
  pub date_to : Option ℕ

-- `check_dates`: `date.max` is the last day there is.
unfoldable pub check_dates : ℕ → HistoryFilters → Option HistoryFilters
unfolding strip
check_dates last_day f =
    if elim f.date_to [ none ↦ false | some d ↦ d == last_day ]
    then none
    else if elim f.date_from [
      | none ↦ false
      | some a ↦ elim f.date_to [ none ↦ false | some b ↦ ltb b a ]
    ]
    then none
    else some (record f { q = strip f.q })

-- The search text with its \, % and _ as ordinary characters.
unfoldable pub escaped : Text → Text
unfolding replace_char
escaped q =
    replace_char b'_' (0x5c ∷ b'_' ∷ [])
      (replace_char b'%' (0x5c ∷ b'%' ∷ []) (replace_char 0x5c (0x5c ∷ 0x5c ∷ []) q))

-- `column ILIKE '%' || escaped || '%'`; `fold` is how the database lowers a character.
unfoldable pub finds : (ℕ → ℕ) → Text → Text → Bool
unfolding escaped ilike
finds fold q column = ilike fold (b'%' ∷ (escaped q ++ b'%' ∷ [])) column

unfoldable pub matches_search : (ℕ → ℕ) → Text → HistoryRow → Bool
unfolding finds
matches_search fold q r =
    finds fold q r.id_text
    || (finds fold q r.row.provider_transaction_id
        || (finds fold q r.service_id || (finds fold q r.service_title || finds fold q r.account)))

abbrev pub kind_index : PurchaseKind → ℕ
kind_index voucher = 0
kind_index topup = 1

abbrev pub transaction_index : TransactionState → ℕ
transaction_index prepared = 0
transaction_index checking = 1
transaction_index check_pending = 2
transaction_index check_failed = 3
transaction_index checked = 4
transaction_index processing = 5
transaction_index paid = 6
transaction_index failed = 7

unfoldable pub matches_status : StatusFilter → Transaction → Bool
matches_status any_status r = true
matches_status completed r =
    is_paid r.state && (not (is_voucher_kind r.purchase_kind) || has_code r)
matches_status awaiting_voucher r =
    is_paid r.state && is_voucher_kind r.purchase_kind && not (has_code r)
matches_status needs_attention r = r.requires_attention
matches_status (of_state s) r = transaction_index r.state == transaction_index s

-- ORDER BY created_at DESC, agent_transaction_id DESC
abbrev pub is_later : HistoryRow → HistoryRow → Bool
is_later a b =
    ltb b.created_at a.created_at
    || (a.created_at == b.created_at && leb b.row.agent_transaction_id a.row.agent_transaction_id)

abbrev pub export_limit : ℕ
export_limit = 10000

abbrev pub too_many : Text
too_many = codes "Найдено больше 10 000 операций. Уточните фильтры для выгрузки."

module _ (fold midnight : ℕ → ℕ) where
  unfoldable pub history_where : Text → HistoryFilters → HistoryRow → Bool
  unfolding matches_search matches_status text_eq
  history_where owner f r =
      text_eq r.created_by owner
      && (is_empty f.q || matches_search fold f.q r)
      && elim f.kind [ none ↦ true | some k ↦ kind_index r.row.purchase_kind == kind_index k ]
      && elim f.date_from [ none ↦ true | some d ↦ leb (midnight d) r.created_at ]
      && elim f.date_to [ none ↦ true | some d ↦ ltb r.created_at (midnight (d + 1)) ]
      && matches_status f.status r.row

  -- `AirpayRepository.history`
  unfoldable pub history : Text → ℕ → ℕ → HistoryFilters → List HistoryRow → List HistoryRow
  unfolding history_where keep sort_by
  history owner limit offset f rows =
      page limit offset (sort_by is_later (keep (history_where owner f) rows))

  -- The rows of the sheet that `export_history` writes.
  unfoldable pub exported : Text → HistoryFilters → List HistoryRow → Try (List HistoryRow)
  unfolding history
  exported owner f rows =
      let found = history owner (export_limit + 1) 0 f rows in
      if ltb export_limit (length found) then raises (http 422 too_many) else returns found

-- What a row of the sheet says of the transaction, as the code of the label.
pub record ExportLabels : Type 0 where
  pub kind : Text
  pub state : Text
  pub result : Text
  pub attention : Text
  pub replaced : Text

abbrev pub yes_no : Bool → Text
yes_no true = codes "Да"
yes_no false = codes "Нет"

-- STATES
abbrev pub state_label : TransactionState → Text
state_label prepared = codes "Подготовка"
state_label checking = codes "Проверяется"
state_label check_pending = codes "Ожидает проверки"
state_label check_failed = codes "Проверка не пройдена"
state_label checked = codes "Проверен"
state_label processing = codes "Исход оплаты неизвестен"
state_label paid = codes "Оплачен"
state_label failed = codes "Отказ в оплате"

abbrev pub result_label : ResultState → Text
result_label ready = codes "Код сохранён"
result_label pending = codes "Ожидает кода"
result_label unavailable = codes "Не получен"
result_label not_required = codes "Код не требуется"

unfoldable pub export_labels : Transaction → ExportLabels
unfolding transaction_outcome
export_labels r =
    let outcome = transaction_outcome r in
    record {
      kind = if is_voucher_kind r.purchase_kind then codes "Ваучер" else codes "Пополнение";
      state = state_label r.state;
      result = result_label outcome.result_state;
      attention = yes_no outcome.requires_attention;
      replaced = yes_no (is_some r.replacement_key);
    }

-- `btrim(pin_code) = ''`
unfoldable pub is_spaces : Text → Bool
is_spaces [] = true
is_spaces (c ∷ t) = c == 32 && is_spaces t

-- `AirpayRepository.cutover_status`, over the rows of every owner; `active_jobs` counts the queue.
pub record CutoverStatus : Type 0 where
  pub pending_payments : ℕ
  pub missing_vouchers : ℕ
  pub active_jobs : ℕ
  pub ready : Bool

abbrev pub is_pending_payment : Transaction → Bool
is_pending_payment r = transaction_index r.state == transaction_index processing

abbrev pub is_missing_voucher : Transaction → Bool
is_missing_voucher r =
    is_paid r.state
    && is_voucher_kind r.purchase_kind
    && not (is_some r.pin_ciphertext)
    && is_spaces r.pin_code

unfoldable pub cutover_status : ℕ → List Transaction → CutoverStatus
unfolding is_spaces
cutover_status active_jobs rows =
    let pending = total (λ r. to_nat (is_pending_payment r)) rows in
    let missing = total (λ r. to_nat (is_missing_voucher r)) rows in
    record {
      pending_payments = pending;
      missing_vouchers = missing;
      active_jobs = active_jobs;
      ready = pending == 0 && missing == 0 && active_jobs == 0;
    }
