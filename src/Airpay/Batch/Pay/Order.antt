-- ===== src/Airpay/Batch/Pay/Order.antt =====
-- What a payment of a batch asks for, and in which order.
use homtech_hub.Prelude.{
  text_eq, leb, ℕ, zero, suc, ◌+◌, ◌-◌, ◌≤◌, ◌≡◌, refl, sym, ap, subst, ◌∙◌, Bool, true, false, not,
  ◌&&◌, ◌||◌, Bool-cases, inl, inr, ◌⊎◌, List, [], ◌∷◌, map, Option, Json, ◌==◌, length, any, total,
  take, keep, is_some, if◌then◌else◌, arith,
}
use homtech_hub.Airpay.Http.{Try, returns, raises}
use homtech_hub.Airpay.Money.{available_funds, falls_short, Balance, required_amount}
use homtech_hub.Airpay.Transaction.{Transaction, is_paid}
use homtech_hub.Airpay.Batch.{amount_or_0, remaining_share}
use homtech_hub.Airpay.Batch.Pay.{
  is_settled_badly, is_unready, no_funds, start_pay, pay_with_funds, pay_confirmed_batch,
  max_batch_amount, refuses_batch, PayCall, BatchReply, pay_call, is_unpaid, pay_rows, batch_pay,
}
use homtech_hub.Airpay.Batch.Pay.Loop.{InOrder, none-InOrder, pay_rows-InOrder}

-- `Decimal(str(row['amount'] or 0))` of a paid row
abbrev pub paid_amount : Transaction → ℕ
paid_amount r = if is_paid r.state then amount_or_0 r else 0

module _ (pay_row : Transaction → Try Transaction) (stops : ℕ → Bool) where
  -- No call, or those of the loop.
  abbrev IsLoop : List Transaction → List PayCall → Type 0
  IsLoop pending calls =
      (calls ≡ []) ⊎ ((done : ℕ) × (calls ≡ (pay_rows pay_row stops done pending).1))

  start_pay-cases :
      (rows pending : List Transaction) → IsLoop pending (start_pay pay_row stops rows pending).1
  start_pay-cases rows pending = elim (Bool-cases (stops (length rows - length pending))) [
    | inl stopped ↦ inl (rw stopped)
    | inr on ↦ inr (length rows - length pending, rw on)
  ]

  pay_with_funds-cases :
      (rows pending : List Transaction) (b : Balance)
      → IsLoop pending (pay_with_funds pay_row stops rows pending b).1
  pay_with_funds-cases rows pending b =
      elim (Bool-cases
        (not b.configured || any (λ (r : Transaction). not (text_eq r.currency b.currency)) rows)) [
          | inl other ↦ inl (rw other)
          | inr same ↦
              rw same
                (elim (available_funds b)
                  as (λ answer.
                    IsLoop pending
                      (elim answer as (λ _. BatchReply × List PayCall) [
                        | raises e ↦ (refuses_batch e, [])
                        | returns funds ↦
                            if falls_short funds (total remaining_share rows)
                            then (refuses_batch no_funds, [])
                            else start_pay pay_row stops rows pending
                      ]).1) [
                        | raises e ↦ inl refl
                        | returns funds ↦
                            elim (Bool-cases (falls_short funds (total remaining_share rows))) [
                              | inl short ↦ inl (rw short)
                              | inr enough ↦ rw enough (start_pay-cases rows pending)
                            ]
                      ])
        ]

  -- The calls that a payment of a batch makes: none, or those of the loop over the unpaid rows, after the
  -- whole price has been confirmed.
  pay_confirmed_batch-cases :
      (now : ℕ) (balance : Try Balance) (rows : List Transaction) (cents : ℕ)
      → ((pay_confirmed_batch pay_row stops now balance rows cents).1 ≡ [])
        ⊎ ((cents ≡ total amount_or_0 rows)
            × IsLoop
                (keep is_unpaid rows)
                (pay_confirmed_batch pay_row stops now balance rows cents).1)
  pay_confirmed_batch-cases now balance rows cents =
      elim (Bool-cases (cents == total amount_or_0 rows)) [
        | inr other ↦ inl (rw other)
        | inl same ↦
            elim (Bool-cases
              (any (λ (r : Transaction). is_unpaid r && leb r.expires_at now) rows)) [
                | inl late ↦ inl (rw same (rw late))
                | inr fresh ↦ inr (ground (arith, same), rw same (rw fresh (funded balance)))
              ]
      ]
    where
      funded :
          (answer : Try Balance)
          → IsLoop
              (keep is_unpaid rows)
              (elim answer as (λ _. BatchReply × List PayCall) [
                | raises e ↦ (refuses_batch e, [])
                | returns b ↦ pay_with_funds pay_row stops rows (keep is_unpaid rows) b
              ]).1
      funded (raises e) = inl refl
      funded (returns b) = pay_with_funds-cases rows (keep is_unpaid rows) b

  abbrev IsConfirmed : Try ℕ → List Transaction → List PayCall → Type 0
  IsConfirmed price rows calls =
      (calls ≡ [])
      ⊎ ((price ≡ returns (total amount_or_0 rows)) × IsLoop (keep is_unpaid rows) calls)

  guarded :
      (b : Bool) (early late : BatchReply × List PayCall) (price : Try ℕ) (rows : List Transaction)
      → early.1 ≡ []
      → IsConfirmed price rows late.1
      → IsConfirmed price rows (if b then early else late).1
  guarded true early late price rows none_yet h = inl none_yet
  guarded false early late price rows none_yet h = h

  priced :
      (now : ℕ) (balance : Try Balance) (rows : List Transaction) (price : Try ℕ)
      → IsConfirmed price rows
          (elim price as (λ _. BatchReply × List PayCall) [
            | raises e ↦ (refuses_batch e, [])
            | returns cents ↦ pay_confirmed_batch pay_row stops now balance rows cents
          ]).1
  priced now balance rows (raises e) = inl refl
  priced now balance rows (returns cents) =
      elim (pay_confirmed_batch-cases now balance rows cents) [
        | inl nothing ↦ inl nothing
        | inr (same, loop) ↦ inr (ap returns same, loop)
      ]

  batch_pay-cases :
      (enabled : Bool) (now : ℕ) (confirmed : Option Json) (balance : Try Balance)
      (first : Transaction) (others : List Transaction)
      → IsConfirmed
          (required_amount max_batch_amount confirmed)
          (first ∷ others)
          (batch_pay pay_row stops enabled now confirmed balance first others).1
  batch_pay-cases enabled now confirmed balance first others =
      let rows = first ∷ others in
      let price = required_amount max_batch_amount confirmed in
      unfold batch_pay in
      guarded (not enabled) _ _ price rows refl (
        guarded (any (λ (r : Transaction). is_some r.replacement_key) rows) _ _ price rows refl (
          guarded (any is_settled_badly rows || not (any is_unpaid rows)) _ _ price rows refl (
            guarded (any is_unready rows) _ _ price rows refl (
              guarded (any (λ (r : Transaction). not (is_some r.amount)) rows) _ _ price rows refl
                (priced now balance rows price)))))

  call_amounts :
      (count : ℕ) (rows : List Transaction)
      → total (λ (q : PayCall). q.cents) (map pay_call (take count rows)) ≤ total amount_or_0 rows
  unfolding take
  call_amounts zero rows = omega arith
  call_amounts (suc count) [] = omega arith
  call_amounts (suc count) (r ∷ rows) = omega (arith, call_amounts count rows)

  paid_and_unpaid :
      (rows : List Transaction)
      → total amount_or_0 (keep is_unpaid rows) + total paid_amount rows ≡ total amount_or_0 rows
  unfolding keep
  paid_and_unpaid [] = omega arith
  paid_and_unpaid (r ∷ rows) = ground (arith, paid_and_unpaid rows)

  abbrev IsOrderly : Try ℕ → List Transaction → List PayCall → Type 0
  IsOrderly price rows calls =
      InOrder pay_row (keep is_unpaid rows) calls
      × ((calls ≡ [])
          ⊎ ((price ≡ returns (total amount_or_0 rows))
              × (total (λ (q : PayCall). q.cents) calls + total paid_amount rows
                  ≤ total amount_or_0 rows)))

  unasked :
      (price : Try ℕ) (rows : List Transaction) (calls : List PayCall)
      → calls ≡ []
      → IsOrderly price rows calls
  unasked price rows calls nothing = (
    subst (InOrder pay_row (keep is_unpaid rows)) (sym nothing)
        (none-InOrder pay_row stops (keep is_unpaid rows)),
    inl nothing,
  )

  asked :
      (price : Try ℕ) (rows : List Transaction) (calls : List PayCall) (done : ℕ)
      → price ≡ returns (total amount_or_0 rows)
      → calls ≡ (pay_rows pay_row stops done (keep is_unpaid rows)).1
      → IsOrderly price rows calls
  asked price rows calls done same looped =
      let pending = keep is_unpaid rows in
      let h = pay_rows-InOrder pay_row stops done pending in
      (
        subst (InOrder pay_row pending) (sym looped) h,
        inr (
          same,
          subst
              (λ shown.
                total (λ (q : PayCall). q.cents) shown + total paid_amount rows
                ≤ total amount_or_0 rows)
              (sym (looped ∙ h.first_rows))
              (omega (arith, call_amounts h.count pending, paid_and_unpaid rows)),
        ),
      )

  -- A payment of a batch asks to pay for its unpaid rows one after the other, in their order, each at most
  -- once and at its own price, and for a next one only after the one before has come to paid. It asks at
  -- all only if the confirmed amount is the sum of the prices of all its rows, and what it asks for,
  -- together with what has been paid before, stays within that sum.
  pub paid_one_by_one :
      (enabled : Bool) (now : ℕ) (confirmed : Option Json) (balance : Try Balance)
      (first : Transaction) (others : List Transaction)
      → let calls = (batch_pay pay_row stops enabled now confirmed balance first others).1 in
        InOrder pay_row (keep is_unpaid (first ∷ others)) calls
        × ((calls ≡ [])
            ⊎ ((required_amount max_batch_amount confirmed
                  ≡ returns (total amount_or_0 (first ∷ others)))
                × (total (λ (q : PayCall). q.cents) calls + total paid_amount (first ∷ others)
                    ≤ total amount_or_0 (first ∷ others))))
  paid_one_by_one enabled now confirmed balance first others =
      let rows = first ∷ others in
      let pending = keep is_unpaid rows in
      let price = required_amount max_batch_amount confirmed in
      let calls = (batch_pay pay_row stops enabled now confirmed balance first others).1 in
      elim (batch_pay-cases enabled now confirmed balance first others) [
        | inl nothing ↦ unasked price rows calls nothing
        | inr (same, loop) ↦ elim loop [
          | inl nothing ↦ unasked price rows calls nothing
          | inr (done, looped) ↦ asked price rows calls done same looped
        ]
      ]
