-- ===== src/Airpay/Journal/Safe.antt =====
-- Which programs of api/airpay_runtime/airpay_purchase.py may be about to send `pay`: only one that has just
-- counted the attempt, with the stored body.
use homtech_hub.Prelude.{
  ℕ, ◌+◌, ◌≤◌, ◌≡◌, refl, Bool, true, false, ◌||◌, ◌⊎◌, inl, Option, some, Json, Fields,
  if◌then◌else◌, arith,
}
use homtech_hub.Airpay.Http.{Try, HttpError}
use homtech_hub.Airpay.Money.{Balance}
use homtech_hub.Airpay.Transaction.{
  Transaction, TransactionState, is_paid, is_failed, is_processing,
}
use homtech_hub.Airpay.Run.{
  Run, AirpayRequest, check_request, pay_request, voucher_request, shows, fails, breaks, saves,
  saves_code, asks, asks_balance,
}

-- How often a request is a payment: once or not.
abbrev pub is_pay : AirpayRequest → ℕ
is_pay (pay_request body) = 1
is_pay _ = 0

abbrev pub body_of : AirpayRequest → Fields
body_of (check_request body) = body
body_of (pay_request body) = body
body_of (voucher_request body) = body

abbrev pub next_pays : Run → ℕ
next_pays (asks q k) = is_pay q
next_pays _ = 0

abbrev pub is_final : TransactionState → Bool
is_final s = is_paid s || is_failed s

abbrev pub is_started : TransactionState → Bool
is_started s = is_processing s || is_paid s || is_failed s

-- What an update may do to a row with this state, attempts and body, before `more` payments.
abbrev pub Moves : TransactionState → ℕ → Option Fields → Transaction → ℕ → Type 0
Moves s n body r' more =
    (n + more ≤ r'.pay_attempts)
    × (r'.pay_attempts ≤ 5)
    × ((is_final s ≡ false) ⊎ (r'.state ≡ s))
    × ((n ≡ 0) ⊎ (r'.pay_request ≡ body))
    × ((r'.pay_attempts ≡ 0) ⊎ (is_started r'.state ≡ true))

abbrev pub IsSafe : TransactionState → ℕ → Option Fields → Run → Type 0
IsSafe s n body (shows r) = Unit
IsSafe s n body (fails e) = Unit
IsSafe s n body breaks = Unit
IsSafe s n body (saves r' k) =
    Moves s n body r' (next_pays k) × IsSafe r'.state r'.pay_attempts r'.pay_request k
IsSafe s n body (saves_code r' k) =
    Moves s n body r' (next_pays k) × IsSafe r'.state r'.pay_attempts r'.pay_request k
IsSafe s n body (asks q k) =
    ((is_pay q ≡ 0) ⊎ (body ≡ some (body_of q)))
    × ((now : ℕ) (a : Try Json) → (next_pays (k now a) ≡ 0) × IsSafe s n body (k now a))
IsSafe s n body (asks_balance k) =
    (now : ℕ) (b : Try Balance) → (next_pays (k now b) ≡ 0) × IsSafe s n body (k now b)

-- A program that may run on this row from here, with no payment as its next action.
pub record Safe (r : Transaction) (p : Run) : Type 0 where
  pub quiet : next_pays p ≡ 0
  pub safe : IsSafe r.state r.pay_attempts r.pay_request p

-- A row whose attempts are bounded, and are none before the payment is started.
abbrev pub IsGood : Transaction → Type 0
IsGood r = (r.pay_attempts ≤ 5) × ((r.pay_attempts ≡ 0) ⊎ (is_started r.state ≡ true))

pub shows-Safe : (r x : Transaction) → Safe r (shows x)
shows-Safe r x = record { quiet = refl; safe = tt }

pub fails-Safe : (r : Transaction) (e : HttpError) → Safe r (fails e)
fails-Safe r e = record { quiet = refl; safe = tt }

pub breaks-Safe : (r : Transaction) → Safe r breaks
breaks-Safe r = record { quiet = refl; safe = tt }

pub saves-Safe :
    (r r' : Transaction) (k : Run)
    → Moves r.state r.pay_attempts r.pay_request r' 0
    → Safe r' k
    → Safe r (saves r' k)
saves-Safe r r' k moves h = record {
  quiet = refl;
  safe = ((omega (arith, moves.0, h.quiet), moves.1, moves.2, moves.3, moves.4), h.safe);
}

pub saves_code-Safe :
    (r r' : Transaction) (k : Run)
    → Moves r.state r.pay_attempts r.pay_request r' 0
    → Safe r' k
    → Safe r (saves_code r' k)
saves_code-Safe r r' k moves h = record {
  quiet = refl;
  safe = ((omega (arith, moves.0, h.quiet), moves.1, moves.2, moves.3, moves.4), h.safe);
}

pub asks-Safe :
    (r : Transaction) (q : AirpayRequest) (k : ℕ → Try Json → Run)
    → is_pay q ≡ 0
    → ((now : ℕ) (a : Try Json) → Safe r (k now a))
    → Safe r (asks q k)
asks-Safe r q k no_pay h = record {
  quiet = no_pay;
  safe = (inl no_pay, λ now a. ((h now a).quiet, (h now a).safe));
}

pub asks_balance-Safe :
    (r : Transaction) (k : ℕ → Try Balance → Run)
    → ((now : ℕ) (b : Try Balance) → Safe r (k now b))
    → Safe r (asks_balance k)
asks_balance-Safe r k h = record { quiet = refl; safe = λ now b. ((h now b).quiet, (h now b).safe) }

pub if-Safe :
    (r : Transaction) (b : Bool) (p q : Run)
    → (b ≡ true → Safe r p)
    → (b ≡ false → Safe r q)
    → Safe r (if b then p else q)
if-Safe r true p q hp hq = hp refl
if-Safe r false p q hp hq = hq refl
