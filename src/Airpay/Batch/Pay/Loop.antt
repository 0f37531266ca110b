-- ===== src/Airpay/Batch/Pay/Loop.antt =====
-- The loop of AirpayBatch.pay over the unpaid rows.
use homtech_hub.Prelude.{
  ℕ, zero, suc, ◌≡◌, refl, ap, Bool, true, false, Bool-cases, inl, inr, List, [], ◌∷◌, map, All,
  take, if◌then◌else◌, arith,
}
use homtech_hub.Airpay.Http.{http, Try, returns, raises}
use homtech_hub.Airpay.Transaction.{Transaction, is_paid}
use homtech_hub.Airpay.Jobs.{interrupted}
use homtech_hub.Airpay.Batch.Pay.{
  refuses_batch, views_again, PayCall, BatchReply, pay_call, pay_rows,
}

-- The payment of a row ends in paid.
abbrev pub pays : (Transaction → Try Transaction) → Transaction → Bool
pays pay_row r = elim (pay_row r) [ raises e ↦ false | returns r' ↦ is_paid r'.state ]

abbrev pub before_last : ℕ → ℕ
before_last zero = 0
before_last (suc n) = n

-- `calls` are those for the first rows, where each but the last ended in paid.
pub record InOrder (pay_row : Transaction → Try Transaction) (rows : List Transaction)
    (calls : List PayCall) : Type 0 where
  pub count : ℕ
  pub first_rows : calls ≡ map pay_call (take count rows)
  pub earlier_paid : All (λ r. pays pay_row r ≡ true) (take (before_last count) rows)

module _ (pay_row : Transaction → Try Transaction) (stops : ℕ → Bool) where
  pub none-InOrder : (rows : List Transaction) → InOrder pay_row rows []
  unfolding take
  none-InOrder rows = record { count = 0; first_rows = refl; earlier_paid = tt }

  one-InOrder :
      (r : Transaction) (rows : List Transaction) → InOrder pay_row (r ∷ rows) (pay_call r ∷ [])
  unfolding take
  one-InOrder r rows = record { count = 1; first_rows = refl; earlier_paid = tt }

  earlier_paid-cons :
      (r : Transaction) (rows : List Transaction) (count : ℕ)
      → pays pay_row r ≡ true
      → All (λ r. pays pay_row r ≡ true) (take (before_last count) rows)
      → All (λ r. pays pay_row r ≡ true) (take count (r ∷ rows))
  unfolding take
  earlier_paid-cons r rows zero paid_row earlier = tt
  earlier_paid-cons r rows (suc count) paid_row earlier = (paid_row, earlier)

  cons-InOrder :
      (r : Transaction) (rows : List Transaction) (calls : List PayCall)
      → pays pay_row r ≡ true
      → InOrder pay_row rows calls
      → InOrder pay_row (r ∷ rows) (pay_call r ∷ calls)
  unfolding take
  cons-InOrder r rows calls paid_row h = record {
    count = suc h.count;
    first_rows = ap (◌∷◌ (pay_call r)) h.first_rows;
    earlier_paid = earlier_paid-cons r rows h.count paid_row h.earlier_paid;
  }

  pub pay_rows-InOrder :
      (done : ℕ) (rows : List Transaction)
      → InOrder pay_row rows (pay_rows pay_row stops done rows).1
  unfolding pay_rows
  pay_rows-InOrder done [] = none-InOrder []
  pay_rows-InOrder done (r ∷ rows) =
      go (pay_rows-InOrder (suc done) rows) (pay_row r) refl (stops (suc done))
    where
      go :
          InOrder pay_row rows (pay_rows pay_row stops (suc done) rows).1
          → (answer : Try Transaction) → pay_row r ≡ answer
          → (stopped : Bool)
          → InOrder pay_row
              (r ∷ rows)
              (elim answer as (λ _. BatchReply × List PayCall) [
                | raises e ↦ (refuses_batch e, pay_call r ∷ [])
                | returns r' ↦
                    if stopped
                    then (refuses_batch (http 409 interrupted), pay_call r ∷ [])
                    else if is_paid r'.state
                    then (
                      (pay_rows pay_row stops (suc done) rows).0,
                      pay_call r ∷ (pay_rows pay_row stops (suc done) rows).1,
                    )
                    else (views_again, pay_call r ∷ [])
              ]).1
      go rest (raises e) same stopped = one-InOrder r rows
      go rest (returns r') same true = one-InOrder r rows
      go rest (returns r') same false = elim (Bool-cases (is_paid r'.state)) [
        | inl paid_row ↦ rw paid_row (
            cons-InOrder r rows (pay_rows pay_row stops (suc done) rows).1
              (ground (arith, same, paid_row)) rest)
        | inr open_row ↦ rw open_row (one-InOrder r rows)
      ]
