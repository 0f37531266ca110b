-- ===== src/Airpay/Batch/Check/Reasons.antt =====
-- The reasons that `AirpayBatch.check` of api/airpay_runtime/airpay_batch.py finds against a batch.
use homtech_hub.Prelude.{
  ℕ, ◌≤◌, ◌≡◌, refl, ap, Text, true, false, not, ◌||◌, Bool-cases, inl, inr, List, [], ◌∷◌, some,
  Option-cases, some-injective, any, is_empty, Decimal, All, if◌then◌else◌, text_eq, text_eq_iff,
  codes, arith,
}
use homtech_hub.Airpay.Http.{returns-injective, Try, returns, raises}
use homtech_hub.Airpay.Money.{Balance, available_funds, falls_short}
use homtech_hub.Airpay.Transaction.{Transaction, CheckResult}
use homtech_hub.Airpay.Batch.{amount_or_0}
use homtech_hub.Airpay.Batch.Check.{
  block_reason, lacks_amount, other_currency, unclear_price, short_deposit, priced_reason,
  funds_reason, final_reason,
}

-- A stored result that is not ready says why.
abbrev pub GivesReason : Transaction → Type 0
GivesReason r =
    (x : CheckResult)
    → r.check_result ≡ some x
    → x.purchase_ready ≡ false
    → is_empty x.purchase_block_reason ≡ false

abbrev pub IsReadyRow : Text → Transaction → Type 0
IsReadyRow currency r =
    ((x : CheckResult) × (r.check_result ≡ some x) × (x.purchase_ready ≡ true))
    × (r.currency ≡ currency)
    × (1 ≤ amount_or_0 r)

pub block_reason-none :
    (rows : List Transaction)
    → All GivesReason rows
    → block_reason rows ≡ some []
    → All (λ r. (x : CheckResult) × (r.check_result ≡ some x) × (x.purchase_ready ≡ true)) rows
unfolding block_reason
block_reason-none [] honest h = tt
block_reason-none (r ∷ rows) (says, honest) h = elim (Option-cases r.check_result) [
  | inl missing ↦ absurd (ground (arith, missing, h))
  | inr (x, there) ↦ elim (Bool-cases x.purchase_ready) [
    | inl ready ↦
        ((x, there, ready), block_reason-none rows honest (ground (arith, there, ready, h)))
    | inr blocked ↦
        let silent : x.purchase_block_reason ≡ [] =
          some-injective _ _ (ground (arith, there, blocked, h)) in
        absurd (ground (arith, says x there blocked, ap is_empty silent))
  ]
]

pub ready_rows :
    (first : Transaction) (rows : List Transaction)
    → All (λ r. (x : CheckResult) × (r.check_result ≡ some x) × (x.purchase_ready ≡ true)) rows
    → any (other_currency first) rows ≡ false
    → any lacks_amount rows ≡ false
    → All (IsReadyRow first.currency) rows
unfolding any
ready_rows first [] a one_currency priced = tt
ready_rows first (r ∷ rows) (h, a) one_currency priced = (
  (
    h,
    (text_eq_iff r.currency first.currency).0 (ground (arith, one_currency)),
    ground (arith, priced),
  ),
  ready_rows first rows a (ground (arith, one_currency)) (ground (arith, priced)),
)

pub full_reasons : (is_empty unclear_price ≡ false) × (is_empty short_deposit ≡ false)
unfolding codes
full_reasons = (refl, refl)

-- An empty reason is empty all the way.
pub priced_reason-empty :
    (first : Transaction) (rows : List Transaction) (reason : Text)
    → priced_reason first rows reason ≡ []
    → (reason ≡ []) × (any (other_currency first) rows ≡ false) × (any lacks_amount rows ≡ false)
unfolding priced_reason
priced_reason-empty first rows (c ∷ t) h = absurd (ground (arith, ap is_empty h))
priced_reason-empty first rows [] h =
    elim (Bool-cases (any (other_currency first) rows || any lacks_amount rows)) [
      | inl unclear ↦ absurd (ground (arith, unclear, ap is_empty h, full_reasons))
      | inr clear ↦ (refl, ground (arith, clear), ground (arith, clear))
    ]

abbrev pub IsFunded : Try Balance → Text → ℕ → Type 0
IsFunded balance currency cents =
    (b : Balance) × (balance ≡ returns b)
    × (b.configured ≡ true)
    × (b.currency ≡ currency)
    × (funds : Decimal) × (available_funds b ≡ returns funds)
    × (falls_short funds cents ≡ false)

pub funds_reason-empty :
    (b : Balance) (currency : Text) (cents : ℕ)
    → funds_reason b currency cents ≡ returns []
    → IsFunded (returns b) currency cents
funds_reason-empty b currency cents h =
    elim (Bool-cases (not b.configured || not (text_eq b.currency currency))) [
      | inl other ↦
          let silent : short_deposit ≡ [] = returns-injective _ _ (ground (arith, other, h)) in
          absurd (ground (arith, ap is_empty silent, full_reasons))
      | inr same ↦
          go (available_funds b) refl (ground (arith, same)) (ground (arith, same))
            (ground (arith, same, h))
    ]
  where
    go :
        (t : Try Decimal)
        → available_funds b ≡ t
        → b.configured ≡ true
        → text_eq b.currency currency ≡ true
        → elim t as (λ _. Try Text) [
          | raises e ↦ raises e
          | returns funds ↦ if falls_short funds cents then returns short_deposit else returns []
        ]
          ≡ returns []
        → IsFunded (returns b) currency cents
    go (raises e) found configured same h = absurd (ground (arith, h))
    go (returns funds) found configured same h = elim (Bool-cases (falls_short funds cents)) [
      | inl short ↦
          let silent : short_deposit ≡ [] = returns-injective _ _ (ground (arith, short, h)) in
          absurd (ground (arith, ap is_empty silent, full_reasons))
      | inr enough ↦
          (b, refl, configured, (text_eq_iff b.currency currency).0 same, funds, found, enough)
    ]

pub final_reason-empty :
    (balance : Try Balance) (currency : Text) (cents : ℕ) (reason : Text)
    → final_reason balance currency cents reason ≡ returns []
    → (reason ≡ []) × IsFunded balance currency cents
final_reason-empty balance currency cents (c ∷ t) h =
    absurd (ground (arith, ap is_empty (returns-injective _ _ h)))
final_reason-empty (raises e) currency cents [] h = absurd (ground (arith, h))
final_reason-empty (returns b) currency cents [] h = (refl, funds_reason-empty b currency cents h)
