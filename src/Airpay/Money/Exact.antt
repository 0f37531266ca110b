-- ===== src/Airpay/Money/Exact.antt =====
-- The amounts that `amount_value` of api/airpay_runtime/airpay_preparation.py accepts.
use homtech_hub.Prelude.{
  ℕ, ◌*◌, ◌/◌, ◌%◌, ◌^◌, ◌≤◌, ◌≡◌, refl, ◌&&◌, inl, inr, Option, none, some, Option-cases,
  Bool-cases, Json, Decimal, finite, infinite, nan, pos, negsuc, ltb, leb, ◌==◌, arith, ap, sym,
  ◌∙◌,
}
use native.Mathlib.Omega.{div_any}
use homtech_hub.Airpay.Http.{Try, returns, raises, http}
use homtech_hub.Airpay.Money.{decimal_value, cents_of, required_amount, bad_amount}

quotient_exact : (n d : ℕ) → n % d ≡ 0 → d * (n / d) ≡ n
quotient_exact n d h = omega (arith, div_any n d, h)

cents_of-exact :
    (m c s cents : ℕ)
    → cents_of m (some (finite (pos c) s)) ≡ some cents
    → (10 ^ s * cents ≡ c * 100) × (c * 100 ≤ m * 10 ^ s) × (1 ≤ c)
unfolding cents_of
cents_of-exact m c s cents h =
    elim (Bool-cases (ltb 0 c && leb (c * 100) (m * 10 ^ s) && (c * 100) % 10 ^ s == 0)) [
      | inr bad ↦ ground (arith, h, bad)
      | inl good ↦
          let whole : c * 100 % 10 ^ s ≡ 0 = ground (arith, good) in
          let is : c * 100 / 10 ^ s ≡ cents = ground (arith, h, good) in
          (
            ap (λ q. 10 ^ s * q) (sym is) ∙ quotient_exact (c * 100) (10 ^ s) whole,
            ground (arith, good),
            ground (arith, good),
          )
    ]

-- An accepted amount is the decimal that was sent, in whole cents, positive and not above the maximum:
-- 10 ^ scale times the cents is 100 times its coefficient.
pub accepted_amount_is_exact :
    (m : ℕ) (value : Option Json) (cents : ℕ)
    → required_amount m value ≡ returns cents
    → (c : ℕ) × (s : ℕ) × (decimal_value value ≡ some (finite (pos c) s))
      × (10 ^ s * cents ≡ c * 100)
      × (c * 100 ≤ m * 10 ^ s)
      × (1 ≤ c)
unfolding required_amount
accepted_amount_is_exact m value cents = go (decimal_value value)
  where
    go :
        (d : Option Decimal)
        → (elim (cents_of m d) as (λ _. Try ℕ) [
          | none ↦ raises (http 422 bad_amount)
          | some cents ↦ returns cents
        ])
          ≡ returns cents
        → (c : ℕ) × (s : ℕ) × (d ≡ some (finite (pos c) s))
          × (10 ^ s * cents ≡ c * 100)
          × (c * 100 ≤ m * 10 ^ s)
          × (1 ≤ c)
    go none h = ground arith
    go (some (finite (negsuc c) s)) h = ground arith
    go (some (infinite b)) h = ground arith
    go (some nan) h = ground arith
    go (some (finite (pos c) s)) h = elim (Option-cases (cents_of m (some (finite (pos c) s)))) [
      | inl refused ↦ ground (arith, h, refused)
      | inr (n, found) ↦
          let same : n ≡ cents = ground (arith, h, found) in
          let (exact, small, positive) = cents_of-exact m c s n found in
          (c, s, refl, ap (λ q. 10 ^ s * q) (sym same) ∙ exact, small, positive)
    ]
