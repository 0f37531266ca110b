-- ===== src/Airpay/History/Outcomes.antt =====
-- The filters of api/airpay_runtime/airpay_history.py, which the database computes, beside
-- `transaction_outcome` of airpay_contract.py; and its export.
use mathlib.Core.List.{Perm}
use homtech_hub.Prelude.{
  ℕ, ◌+◌, ◌≤◌, ◌≡◌, refl, sym, subst, ◌∙◌, Text, Bool, true, false, List, if◌then◌else◌, ltb,
  length, take, drop, take_short, keep, sort_by, sort_by-perm, arith,
}
use homtech_hub.Airpay.Http.{returns, raises, http}
use homtech_hub.Airpay.Transaction.{Transaction, ResultState, pending, transaction_outcome}
use homtech_hub.Airpay.History.{
  too_many, HistoryRow, HistoryFilters, completed, awaiting_voucher, needs_attention,
  matches_status, history_where, is_later, history, exported, export_limit,
}

abbrev pub is_awaiting : ResultState → Bool
is_awaiting pending = true
is_awaiting _ = false

-- The filter `completed` selects exactly the transactions whose outcome is completed, `awaiting_voucher`
-- those whose result is pending, and `requires_attention` those whose outcome requires attention.
pub filters_agree :
    (r : Transaction)
    → (matches_status completed r ≡ (transaction_outcome r).completed)
      × (matches_status awaiting_voucher r ≡ is_awaiting (transaction_outcome r).result_state)
      × (matches_status needs_attention r ≡ (transaction_outcome r).requires_attention)
unfolding matches_status transaction_outcome
filters_agree r = (ground arith, ground arith, refl)

short_enough :
    (shown found : List HistoryRow)
    → (if ltb 10000 (length shown) then raises (http 422 too_many) else returns shown)
      ≡ returns found
    → (shown ≡ found) × (length shown ≤ 10000)
short_enough shown found h = (ground (arith, h), ground (arith, h))

module _ (fold midnight : ℕ → ℕ) where
  -- An export that succeeds has every row of the owner that matches the filters, once.
  pub export_is_whole :
      (owner : Text) (f : HistoryFilters) (rows found : List HistoryRow)
      → exported fold midnight owner f rows ≡ returns found
      → Perm found (keep (history_where fold midnight owner f) rows)
  unfolding exported history drop
  export_is_whole owner f rows found h =
      let chosen = keep (history_where fold midnight owner f) rows in
      let sorted = sort_by is_later chosen in
      let (same, few) = short_enough (take (export_limit + 1) sorted) found h in
      subst (λ shown. Perm shown chosen) (sym (take_short export_limit sorted few) ∙ same)
        (sort_by-perm is_later chosen)
