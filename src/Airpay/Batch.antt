-- ===== src/Airpay/Batch.antt =====
-- `batch_view` of api/airpay_runtime/airpay_batch.py: how the rows of a batch are summed up. A batch is its
-- first row and the others; amounts are in cents.
pub mod Pay
pub mod Check
use homtech_hub.Prelude.{
  ℕ, ◌≤◌, ◌≡◌, Text, Bool, true, List, [], ◌∷◌, Option, none, some, ◌==◌, ltb, length, any, total,
  All, is_some, not, if◌then◌else◌, arith, Bool-cases, inl, inr,
}
use homtech_hub.Airpay.Transaction.{
  Transaction, is_processing, is_paid, is_failed, is_checked_state, has_code,
}

pub data BatchState : Type 0 where
  batch_processing batch_failed batch_paid batch_partial batch_checked batch_prepared : BatchState

pub record BatchView : Type 0 where
  pub batch_id : ℕ
  pub quantity : ℕ
  pub state : BatchState
  pub replaced : Bool
  pub remaining_amount : ℕ
  pub paid_quantity : ℕ
  pub received_quantity : ℕ
  -- no amount while one of the rows has none
  pub total_amount : Option ℕ
  pub currency : Text
  pub payments_enabled : Bool
  pub items : List Transaction

abbrev pub paid_share : Transaction → ℕ
paid_share r = if is_paid r.state then 1 else 0

abbrev pub received_share : Transaction → ℕ
received_share r = if has_code r then 1 else 0

-- `Decimal(str(row['amount'] or 0))`
abbrev pub amount_or_0 : Transaction → ℕ
amount_or_0 r = elim r.amount [ none ↦ 0 | some cents ↦ cents ]

abbrev pub remaining_share : Transaction → ℕ
remaining_share r = if is_paid r.state then 0 else amount_or_0 r

unfoldable pub batch_state : List Transaction → BatchState
unfolding any
batch_state rows =
    if any (λ (r : Transaction). is_processing r.state) rows
    then batch_processing
    else if any (λ (r : Transaction). is_failed r.state) rows
    then batch_failed
    else if total paid_share rows == length rows
    then batch_paid
    else if ltb 0 (total paid_share rows)
    then batch_partial
    else if any (λ (r : Transaction). not (is_checked_state r.state)) rows
    then batch_prepared
    else batch_checked

unfoldable pub batch_view : Transaction → List Transaction → Bool → BatchView
unfolding batch_state
batch_view first others enabled =
    let rows = first ∷ others in
    record {
      batch_id = first.agent_transaction_id;
      quantity = length rows;
      state = batch_state rows;
      replaced = any (λ (r : Transaction). is_some r.replacement_key) rows;
      remaining_amount = total remaining_share rows;
      paid_quantity = total paid_share rows;
      received_quantity = total received_share rows;
      total_amount =
          if any (λ (r : Transaction). not (is_some r.amount)) rows
          then none
          else some (total amount_or_0 rows);
      currency = first.currency;
      payments_enabled = enabled;
      items = rows;
    }

paid_at_most_all : (rows : List Transaction) → total paid_share rows ≤ length rows
paid_at_most_all [] = omega arith
paid_at_most_all (r ∷ rows) = ground (arith, paid_at_most_all rows)

settled_rows :
    (rows : List Transaction)
    → total paid_share rows ≡ length rows
    → All (λ (r : Transaction). is_paid r.state ≡ true) rows × (total remaining_share rows ≡ 0)
settled_rows [] h = (tt, omega arith)
settled_rows (r ∷ rows) h = elim (Bool-cases (is_paid r.state)) [
  | inl paid_row ↦
      let (others, rest) = settled_rows rows (ground (arith, h, paid_row)) in
      ((paid_row, others), ground (arith, paid_row, rest))
  | inr unpaid ↦ absurd (ground (arith, h, unpaid, paid_at_most_all rows))
]

batch_state-paid :
    (rows : List Transaction) → batch_state rows ≡ batch_paid → total paid_share rows ≡ length rows
unfolding batch_state
batch_state-paid rows h = elim (Bool-cases (total paid_share rows == length rows)) [
  | inl same ↦ ground (arith, same)
  | inr different ↦ ground (arith, different, h)
]

-- A batch is shown as paid only when every one of its rows is paid, and then no amount remains and as many
-- keys are counted as paid as the batch has.
pub paid_batch_is_paid :
    (first : Transaction) (others : List Transaction) (enabled : Bool)
    → (batch_view first others enabled).state ≡ batch_paid
    → All (λ (r : Transaction). is_paid r.state ≡ true) (batch_view first others enabled).items
      × ((batch_view first others enabled).remaining_amount ≡ 0)
      × ((batch_view first others enabled).paid_quantity
          ≡ (batch_view first others enabled).quantity)
unfolding batch_view
paid_batch_is_paid first others enabled h =
    let same = batch_state-paid (first ∷ others) h in
    let (rows_paid, nothing) = settled_rows (first ∷ others) same in (rows_paid, nothing, same)
