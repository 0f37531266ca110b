-- ===== src/Airpay/Journal/Keeps.antt =====
-- `AirpayPurchase.pay`, `send_pay` and `reconcile` of api/airpay_runtime/airpay_purchase.py, as runs that may
-- stop at any request.
use homtech_hub.Prelude.{
  ℕ, ◌≤◌, ◌≡◌, refl, Bool, true, false, not, ◌&&◌, ◌||◌, inl, inr, Text, Option, none, some, Json,
  Fields, object, if◌then◌else◌, leb, is_some, present, arith, codes, ℤ, text_eq, ◌==◌,
}
use homtech_hub.Airpay.Http.{Try, returns, raises, http}
use homtech_hub.Airpay.Money.{Balance, required_amount, max_amount, available_funds, falls_short}
use homtech_hub.Airpay.Transaction.{Transaction, processing, is_paid, is_failed, is_processing}
use homtech_hub.Airpay.Answer.{validate_response}
use homtech_hub.Airpay.Run.{shows, fails, breaks, saves, asks, asks_balance, pay_request}
use homtech_hub.Airpay.Purchase.{must_wait}
use homtech_hub.Airpay.Payment.{
  with_unknown, state_after_pay, with_pay_answer, after_pay, counted_pay, send_pay, with_body,
  pay_with_balance, in_batch, is_ready, pay_confirmed, pay_transaction, with_attention, exhausted,
  unconfirmed, reconcile,
}
use homtech_hub.Airpay.Journal.Safe.{
  is_started, Moves, Safe, IsGood, shows-Safe, fails-Safe, breaks-Safe, saves-Safe,
  asks_balance-Safe, if-Safe,
}
use homtech_hub.Airpay.Journal.KeepsCheck.{try-Safe, IsUnpaid, unpaid-Moves}

abbrev IsOpen : Transaction → Type 0
IsOpen r = (r.state ≡ processing) × (r.pay_attempts ≤ 4)

-- An update of a payment of unknown outcome that keeps the attempts and the body.
open-Moves :
    (r r' : Transaction)
    → r.state ≡ processing
    → r.pay_attempts ≤ 5
    → r'.pay_attempts ≡ r.pay_attempts
    → r'.pay_request ≡ r.pay_request
    → is_started r'.state ≡ true
    → Moves r.state r.pay_attempts r.pay_request r' 0
open-Moves r r' here bound same body started = (
  omega (arith, same),
  omega (arith, bound, same),
  inl (ground (arith, here)),
  inr body,
  inr started,
)

state_after_pay-is_started :
    (code : ℤ) (attempts : ℕ) → is_started (state_after_pay code attempts) ≡ true
unfolding state_after_pay
state_after_pay-is_started code attempts = ground arith

module _ (show : Json → Text) where
  unknown-Safe :
      (r : Transaction)
      → r.state ≡ processing
      → r.pay_attempts ≤ 5
      → Safe r (saves (with_unknown r) (shows (with_unknown r)))
  unknown-Safe r here bound =
      saves-Safe r (with_unknown r) _
        (open-Moves r (with_unknown r) here bound refl refl (ground (arith, here)))
        (shows-Safe (with_unknown r) _)

  after_pay-Safe :
      (r : Transaction) (now : ℕ) (answer : Try Json)
      → r.state ≡ processing
      → r.pay_attempts ≤ 5
      → Safe r (after_pay show r now answer)
  after_pay-Safe r now (raises e) here bound = unknown-Safe r here bound
  after_pay-Safe r now (returns raw) here bound =
      try-Safe r (validate_response show raw r.agent_transaction_id) _ _
        (λ e. unknown-Safe r here bound)
        (λ valid.
          let r' = with_pay_answer show now raw valid.0 valid.1 r in
          saves-Safe r r' _
            (open-Moves r r' here bound refl refl
              (state_after_pay-is_started valid.1 r.pay_attempts))
            (shows-Safe r' r'))

  -- The count is committed before the request, and the request has the stored body.
  send_pay-Safe : (now : ℕ) (r : Transaction) → IsOpen r → Safe r (send_pay show now r)
  unfolding send_pay
  send_pay-Safe now r h = go r.pay_request refl
    where
      go :
          (body : Option Fields)
          → r.pay_request ≡ body
          → Safe r (
              saves (counted_pay now r) (elim body [
                | none ↦ breaks
                | some b ↦ asks (pay_request b) (after_pay show (counted_pay now r))
              ]))
      go none same = record {
        quiet = refl;
        safe = (
          (
            omega arith,
            omega (arith, h.1),
            inl (ground (arith, h.0)),
            inr refl,
            inr (ground (arith, h.0)),
          ),
          tt,
        );
      }
      go (some b) same = record {
        quiet = refl;
        safe = (
          (
            omega arith,
            omega (arith, h.1),
            inl (ground (arith, h.0)),
            inr refl,
            inr (ground (arith, h.0)),
          ),
          (
            inr same,
            λ now' answer.
                let after =
                  after_pay-Safe (counted_pay now r) now' answer h.0 (omega (arith, h.1)) in
                (after.quiet, after.safe),
          ),
        );
      }

  pay_with_balance-Safe :
      (now cents : ℕ) (r : Transaction) (b : Try Balance)
      → IsUnpaid r
      → Safe r (pay_with_balance show now cents r b)
  pay_with_balance-Safe now cents r (raises e) h = fails-Safe r e
  pay_with_balance-Safe now cents r (returns b) h =
      if-Safe r (not (text_eq b.currency r.currency) || not b.configured) _ _ (λ _. fails-Safe r _)
        (λ _.
          try-Safe r (available_funds b) _ _ (λ e. fails-Safe r e)
            (λ funds.
              if-Safe r (falls_short funds cents) _ _ (λ _. fails-Safe r _)
                (λ _.
                  let r' = with_body cents r in
                  saves-Safe r r' _ (unpaid-Moves r r' h refl)
                    (send_pay-Safe now r' (refl, omega (arith, h.0))))))

  pay_confirmed-Safe :
      (now : ℕ) (confirmed : Json) (r : Transaction)
      → IsUnpaid r
      → Safe r (pay_confirmed show now confirmed r)
  pay_confirmed-Safe now confirmed r h =
      try-Safe r (required_amount max_amount (some confirmed)) _ _ (λ e. fails-Safe r e)
        (λ cents. go cents r.amount)
    where
      go :
          (cents : ℕ) (amount : Option ℕ)
          → Safe r (elim amount [
            | none ↦ breaks
            | some a ↦
                if not (a == cents)
                then fails (http 409 (codes "Подтверждённая цена не совпадает с подготовкой"))
                else asks_balance (λ now' b. pay_with_balance show now' cents r b)
          ])
      go cents none = breaks-Safe r
      go cents (some a) =
          if-Safe r (not (a == cents)) _ _ (λ _. fails-Safe r _)
            (λ _. asks_balance-Safe r _ (λ now' b. pay_with_balance-Safe now' cents r b h))

  ready-IsUnpaid : (r : Transaction) → IsGood r → not (is_ready r) ≡ false → IsUnpaid r
  ready-IsUnpaid r good is = (ground (arith, good.1, is), ground (arith, is))

  pub pay_transaction-Safe :
      (enabled : Bool) (now : ℕ) (batch : Bool) (confirmed : Json) (r : Transaction)
      → IsGood r
      → Safe r (pay_transaction show enabled now batch confirmed r)
  unfolding pay_transaction
  pay_transaction-Safe enabled now batch confirmed r good =
      if-Safe r (not enabled) _ _ (λ _. fails-Safe r _)
        (λ _.
          if-Safe r (in_batch r && not batch) _ _ (λ _. fails-Safe r _)
            (λ _.
              if-Safe r (is_some r.replacement_key) _ _ (λ _. fails-Safe r _)
                (λ _.
                  if-Safe r (is_paid r.state || is_failed r.state) _ _ (λ _. shows-Safe r r)
                    (λ _.
                      if-Safe r (is_processing r.state) _ _ (λ _. fails-Safe r _)
                        (λ _.
                          if-Safe r (not (is_ready r)) _ _ (λ _. fails-Safe r _)
                            (λ is.
                              if-Safe r (leb r.expires_at now) _ _ (λ _. fails-Safe r _)
                                (λ _.
                                  pay_confirmed-Safe now confirmed r
                                    (ready-IsUnpaid r good is))))))))

  pub reconcile-Safe :
      (enabled : Bool) (now : ℕ) (r : Transaction)
      → IsGood r
      → Safe r (reconcile show enabled now r)
  unfolding reconcile
  reconcile-Safe enabled now r good =
      if-Safe r (not enabled) _ _ (λ _. fails-Safe r _)
        (λ _.
          if-Safe r (not (is_processing r.state)) _ _ (λ _. shows-Safe r r)
            (λ here.
              if-Safe r (r.requires_attention || exhausted r.pay_attempts) _ _
                (λ _.
                  let r' = with_attention unconfirmed r in
                  saves-Safe r r' _
                    (open-Moves r r' (ground (arith, here)) good.0 refl refl (ground (arith, here)))
                    (fails-Safe r' _))
                (λ left.
                  if-Safe r
                    (not (elim r.pay_request [
                      | none ↦ false
                      | some body ↦ is_some (present (some (object body)))
                    ]))
                    _ _ (λ _. fails-Safe r _)
                    (λ _.
                      if-Safe r (must_wait now r) _ _ (λ _. fails-Safe r _)
                        (λ _. send_pay-Safe now r (ground (arith, here), ground (arith, left)))))))
