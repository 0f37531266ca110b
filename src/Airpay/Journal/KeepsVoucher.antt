-- ===== src/Airpay/Journal/KeepsVoucher.antt =====
-- `AirpayPurchase.voucher` of api/airpay_runtime/airpay_purchase.py, as a run that may stop at any request.
use homtech_hub.Prelude.{
  ℕ, ◌≤◌, ◌≡◌, refl, Bool, true, not, ◌&&◌, ◌||◌, inr, Text, pos, Option, none, some, Json, Fields,
  arith, get_field, codes, eqb_ℤ, text_eq,
}
use homtech_hub.Hub.Crypto.{Crypto}
use homtech_hub.Airpay.Http.{Try, returns, raises, HttpError}
use homtech_hub.Airpay.Transaction.{Transaction, is_paid, is_voucher_kind, has_code}
use homtech_hub.Airpay.Answer.{validate_response, str_of}
use homtech_hub.Airpay.Run.{breaks, saves, saves_code, asks, voucher_request}
use homtech_hub.Airpay.Purchase.{must_wait}
use homtech_hub.Airpay.Payment.{with_attention, exhausted, missing_voucher}
use homtech_hub.Airpay.Voucher.{
  without_code, pin_of, finish_voucher, not_received, still_pending, before_code, received,
  store_answer, other_operation, after_voucher, counted_voucher, fetch_voucher, with_code,
}
use homtech_hub.Airpay.Journal.Safe.{
  Moves, Safe, IsGood, shows-Safe, fails-Safe, breaks-Safe, saves-Safe, saves_code-Safe, asks-Safe,
  if-Safe,
}
use homtech_hub.Airpay.Journal.KeepsCheck.{try-Safe}

abbrev IsPaid : Transaction → Type 0
IsPaid r = (is_paid r.state ≡ true) × (r.pay_attempts ≤ 5)

-- An update of a paid row that leaves the payment alone.
paid-Moves :
    (r r' : Transaction)
    → IsPaid r
    → r'.pay_attempts ≡ r.pay_attempts
    → r'.pay_request ≡ r.pay_request
    → r'.state ≡ r.state
    → Moves r.state r.pay_attempts r.pay_request r' 0
paid-Moves r r' h same body state = (
  omega (arith, same),
  omega (arith, h.1, same),
  inr state,
  inr body,
  inr (ground (arith, h.0, state)),
)

finish_voucher-Safe : (r : Transaction) → IsPaid r → Safe r (finish_voucher r)
finish_voucher-Safe r h =
    if-Safe r (not (has_code r) && exhausted r.voucher_attempts) _ _
      (λ _.
        saves-Safe r (with_attention missing_voucher r) _
          (paid-Moves r (with_attention missing_voucher r) h refl refl refl)
          (shows-Safe (with_attention missing_voucher r) _))
      (λ _. shows-Safe r r)

not_received-Safe :
    (e : HttpError) (r : Transaction)
    → IsPaid r
    → Safe r (saves (not_received e r) (finish_voucher (not_received e r)))
not_received-Safe e r h =
    saves-Safe r (not_received e r) _ (paid-Moves r (not_received e r) h refl refl refl)
      (finish_voucher-Safe (not_received e r) h)

with_code-same :
    (c : Crypto) (secret pin : Text) (r : Transaction)
    → ((with_code c secret pin r).pay_attempts ≡ r.pay_attempts)
      × ((with_code c secret pin r).pay_request ≡ r.pay_request)
      × ((with_code c secret pin r).state ≡ r.state)
with_code-same c secret pin r = ground arith

module _ (c : Crypto) (secret : Text) where
  received-Safe :
      (pin : Text) (stored : Fields) (r : Transaction)
      → IsPaid r
      → Safe r (
          saves_code
            (received c secret pin stored r)
            (finish_voucher (received c secret pin stored r)))
  received-Safe pin stored r h =
      let r' = received c secret pin stored r in
      let (attempts, body, state) = with_code-same c secret pin (before_code stored r) in
      saves_code-Safe r r' _ (paid-Moves r r' h attempts body state)
        (finish_voucher-Safe r' (ground (arith, h.0, state), omega (arith, h.1, attempts)))

  store_answer-Safe :
      (raw : Fields) (pin : Option Text) (r : Transaction)
      → IsPaid r
      → Safe r (store_answer c secret raw pin r)
  store_answer-Safe raw pin r h = go (without_code raw) pin
    where
      go :
          (stored : Option Fields) (pin : Option Text)
          → Safe r (elim stored [
            | none ↦ breaks
            | some fs ↦ elim pin [
              | none ↦ saves (still_pending fs r) (finish_voucher (still_pending fs r))
              | some code ↦
                  saves_code
                    (received c secret code fs r)
                    (finish_voucher (received c secret code fs r))
            ]
          ])
      go none pin = breaks-Safe r
      go (some fs) none =
          saves-Safe r (still_pending fs r) _ (paid-Moves r (still_pending fs r) h refl refl refl)
            (finish_voucher-Safe (still_pending fs r) h)
      go (some fs) (some code) = received-Safe code fs r h

  module _ (show : Json → Text) where
    after_voucher-Safe :
        (r : Transaction) (now : ℕ) (answer : Try Json)
        → IsPaid r
        → Safe r (after_voucher c secret show r now answer)
    after_voucher-Safe r now (raises e) h = not_received-Safe e r h
    after_voucher-Safe r now (returns raw) h =
        try-Safe r (validate_response show raw r.agent_transaction_id) _ _
          (λ e. not_received-Safe e r h)
          (λ valid.
            if-Safe r
              (eqb_ℤ valid.1 (pos 0)
                && not (
                    text_eq (str_of show (get_field (codes "transactionId") valid.0))
                      r.provider_transaction_id))
              _ _ (λ _. not_received-Safe other_operation r h)
              (λ _. store_answer-Safe valid.0 (pin_of valid.0 valid.1) r h))

    pub fetch_voucher-Safe :
        (enabled : Bool) (now : ℕ) (r : Transaction)
        → IsGood r
        → Safe r (fetch_voucher c secret show enabled now r)
    unfolding fetch_voucher
    fetch_voucher-Safe enabled now r good =
        if-Safe r (not enabled) _ _ (λ _. fails-Safe r _)
          (λ _.
            if-Safe r (not (is_paid r.state) || not (is_voucher_kind r.purchase_kind)) _ _
              (λ _. fails-Safe r _)
              (λ here.
                let is : IsPaid r = (ground (arith, here), good.0) in
                if-Safe r (has_code r) _ _ (λ _. shows-Safe r r)
                  (λ _.
                    if-Safe r (r.requires_attention || exhausted r.voucher_attempts) _ _
                      (λ _.
                        let r' = with_attention missing_voucher r in
                        saves-Safe r r' _ (paid-Moves r r' is refl refl refl) (fails-Safe r' _))
                      (λ _.
                        if-Safe r (must_wait now r) _ _ (λ _. fails-Safe r _)
                          (λ _.
                            saves-Safe r (counted_voucher now r) _
                              (paid-Moves r (counted_voucher now r) is refl refl refl)
                              (go now r is r.pay_request))))))
      where
        go :
            (now : ℕ) (r : Transaction)
            → IsPaid r
            → (body : Option Fields)
            → Safe (counted_voucher now r) (elim body [
              | none ↦ breaks
              | some b ↦
                  asks (voucher_request b) (after_voucher c secret show (counted_voucher now r))
            ])
        go now r is none = breaks-Safe (counted_voucher now r)
        go now r is (some b) =
            asks-Safe (counted_voucher now r) (voucher_request b) _ refl
              (λ now' answer. after_voucher-Safe (counted_voucher now r) now' answer is)
