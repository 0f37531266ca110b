-- ===== src/Airpay/Journal/KeepsCheck.antt =====
-- `AirpayPurchase.check` of api/airpay_runtime/airpay_purchase.py, as a run that may stop at any request.
use homtech_hub.Prelude.{
  ℕ, ◌≡◌, refl, Bool, true, false, not, inl, Text, Option, none, some, Json, arith, ◌∙◌, [],
}
use homtech_hub.Airpay.Http.{Try, returns, raises, HttpError, detail_of}
use homtech_hub.Airpay.Transaction.{Transaction, CheckResult}
use homtech_hub.Airpay.Answer.{normalize_check}
use homtech_hub.Airpay.Run.{Run, breaks, asks_balance, check_request}
use homtech_hub.Airpay.Purchase.{
  with_check, finish_check, balance_reason, client_pays_less, price_check, after_check,
  check_transaction, is_check_over, must_wait, below_price, with_lost_check, counted_check,
}
use homtech_hub.Airpay.Journal.Safe.{
  is_final, Moves, Safe, IsGood, shows-Safe, fails-Safe, breaks-Safe, saves-Safe, asks-Safe,
  asks_balance-Safe, if-Safe,
}

pub try-Safe {ℓ} :
    {A : Type ℓ} (r : Transaction) (t : Try A) (f : HttpError → Run) (g : A → Run)
    → ((e : HttpError) → Safe r (f e))
    → ((a : A) → Safe r (g a))
    → Safe r (elim t [ raises e ↦ f e | returns a ↦ g a ])
try-Safe r (raises e) f g hf hg = hf e
try-Safe r (returns a) f g hf hg = hg a

-- A row that has not been paid for, and is not settled.
abbrev pub IsUnpaid : Transaction → Type 0
IsUnpaid r = (r.pay_attempts ≡ 0) × (is_final r.state ≡ false)

pub unpaid-Moves :
    (r r' : Transaction)
    → IsUnpaid r
    → r'.pay_attempts ≡ r.pay_attempts
    → Moves r.state r.pay_attempts r.pay_request r' 0
unpaid-Moves r r' h same =
    (omega (arith, same), omega (arith, h.0, same), inl h.1, inl h.0, inl (same ∙ h.0))

pub finish_check-Safe :
    (now : ℕ) (raw : Json) (result : CheckResult) (amount : Option ℕ) (currency reason : Text)
    (r : Transaction)
    → IsUnpaid r
    → Safe r (finish_check now raw result amount currency reason r)
finish_check-Safe now raw result amount currency reason r h =
    saves-Safe r (with_check now raw result amount currency reason r) _
      (unpaid-Moves r (with_check now raw result amount currency reason r) h refl) (shows-Safe _ _)

module _ (show : Json → Text) where
  pub price_check-Safe :
      (now : ℕ) (raw : Json) (result : CheckResult) (r : Transaction)
      → IsUnpaid r
      → Safe r (price_check show now raw result r)
  price_check-Safe now raw result r h =
      try-Safe r _ _ _ (λ e. finish_check-Safe now raw result none [] (detail_of e) r h)
        (λ cents. go cents (client_pays_less r.request_payload cents))
    where
      go :
          (cents : ℕ) (less : Option Bool)
          → Safe r (elim less [
            | none ↦ breaks
            | some true ↦ finish_check now raw result (some cents) [] below_price r
            | some false ↦ asks_balance (λ now' b.
                finish_check now' raw result
                  (some cents)
                  (balance_reason b cents).0
                  (balance_reason b cents).1
                  r)
          ])
      go cents none = breaks-Safe r
      go cents (some true) = finish_check-Safe now raw result (some cents) [] below_price r h
      go cents (some false) =
          asks_balance-Safe r _ (λ now' b. finish_check-Safe now' raw result (some cents) _ _ r h)

  pub after_check-Safe :
      (r : Transaction) (now : ℕ) (answer : Try Json)
      → IsUnpaid r
      → Safe r (after_check show r now answer)
  after_check-Safe r now (raises e) h =
      saves-Safe r (with_lost_check r) _ (unpaid-Moves r (with_lost_check r) h refl)
        (fails-Safe (with_lost_check r) e)
  after_check-Safe r now (returns raw) h =
      try-Safe r (normalize_check show raw r) _ _
        (λ e.
          saves-Safe r (with_lost_check r) _ (unpaid-Moves r (with_lost_check r) h refl)
            (fails-Safe (with_lost_check r) e))
        (λ result.
          if-Safe r result.success _ _ (λ ok. price_check-Safe now raw result r h)
            (λ no. finish_check-Safe now raw result none [] [] r h))

  pub check_transaction-Safe :
      (now : ℕ) (matches : Bool) (r : Transaction)
      → IsGood r
      → Safe r (check_transaction show now matches r)
  unfolding check_transaction
  check_transaction-Safe now matches r good =
      if-Safe r (not matches) _ _ (λ _. fails-Safe r _)
        (λ _.
          if-Safe r (is_check_over r.state) _ _ (λ _. shows-Safe r r)
            (λ going.
              if-Safe r (must_wait now r) _ _ (λ _. fails-Safe r _)
                (λ _.
                  let unpaid : IsUnpaid r =
                    (ground (arith, good.1, going), ground (arith, going)) in
                  saves-Safe r (counted_check now r) _
                    (unpaid-Moves r (counted_check now r) unpaid refl)
                    (asks-Safe (counted_check now r) (check_request r.request_payload) _ refl
                      (λ now' answer.
                        after_check-Safe (counted_check now r) now' answer (unpaid.0, refl))))))

-- A payment that may be sent: of unknown outcome, and with attempts left.
