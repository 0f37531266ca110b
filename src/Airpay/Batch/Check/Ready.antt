-- ===== src/Airpay/Batch/Check/Ready.antt =====
-- The batches that `AirpayBatch.check` of api/airpay_runtime/airpay_batch.py declares ready.
use homtech_hub.Prelude.{
  ℕ, suc, ◌≡◌, refl, sym, ap, subst, ◌∙◌, ◌⊎◌, Text, Bool, true, false, Bool-cases, inl, inr, List,
  [], ◌∷◌, Option, none, some, Option-cases, some-injective, total, is_empty, All, if◌then◌else◌,
  arith,
}
use homtech_hub.Airpay.Http.{http, Try, returns, raises}
use homtech_hub.Airpay.Money.{Balance}
use homtech_hub.Airpay.Transaction.{Transaction, CheckResult}
use homtech_hub.Airpay.Batch.{amount_or_0}
use homtech_hub.Airpay.Jobs.{interrupted}
use homtech_hub.Airpay.Batch.Check.{
  BatchSummary, BatchCheck, summed, stopped_at, refuses_check, check_guard, has_succeeded,
  check_rows, block_reason, priced_reason, summary_of, final_reason, summed_with, summed_for,
  batch_summary, batch_check,
}
use homtech_hub.Airpay.Batch.Check.Reasons.{
  GivesReason, IsReadyRow, block_reason-none, ready_rows, priced_reason-empty, IsFunded,
  final_reason-empty,
}

summed-injective : (s t : BatchSummary) → summed s ≡ summed t → s ≡ t
summed-injective s t h = ground (arith, h)

empty_text : (t : Text) → is_empty t ≡ true → t ≡ []
empty_text [] h = refl
empty_text (c ∷ t) h = absurd (ground (arith, h))

summed_with-ready :
    (enabled : Bool) (first : Transaction) (others : List Transaction) (result : CheckResult)
    (reason : Try Text) (s : BatchSummary)
    → summed_with enabled first others result reason ≡ summed s
    → s.purchase_ready ≡ true
    → (reason ≡ returns []) × (s.purchase_amount ≡ total amount_or_0 (first ∷ others))
summed_with-ready enabled first others result (raises e) s h ready = absurd (ground (arith, h))
summed_with-ready enabled first others result (returns reason) s h ready =
    let same = summed-injective (summary_of enabled first others result reason) s h in
    (
      ap returns (empty_text reason (ap (λ (s : BatchSummary). s.purchase_ready) same ∙ ready)),
      sym (ap (λ (s : BatchSummary). s.purchase_amount) same),
    )

summed_for-ready :
    (enabled : Bool) (balance : Try Balance) (first : Transaction) (others : List Transaction)
    (result : Option CheckResult) (reason : Option Text) (s : BatchSummary)
    → summed_for enabled balance first others result reason ≡ summed s
    → s.purchase_ready ≡ true
    → (why : Text) × (reason ≡ some why)
      × (final_reason balance first.currency
            (total amount_or_0 (first ∷ others))
            (priced_reason first (first ∷ others) why)
          ≡ returns [])
      × (s.purchase_amount ≡ total amount_or_0 (first ∷ others))
summed_for-ready enabled balance first others none reason s h ready = absurd (ground (arith, h))
summed_for-ready enabled balance first others (some x) none s h ready = absurd (ground (arith, h))
summed_for-ready enabled balance first others (some x) (some why) s h ready =
    let (good, paid_for) =
      summed_with-ready enabled first others x
        (final_reason balance first.currency (total amount_or_0 (first ∷ others))
          (priced_reason first (first ∷ others) why))
        s h ready in
    (why, refl, good, paid_for)

summary_is_covered :
    (enabled : Bool) (balance : Try Balance) (first : Transaction) (others : List Transaction)
    (s : BatchSummary)
    → All GivesReason (first ∷ others)
    → batch_summary enabled balance first others ≡ summed s
    → s.purchase_ready ≡ true
    → (s.purchase_amount ≡ total amount_or_0 (first ∷ others))
      × All (IsReadyRow first.currency) (first ∷ others)
      × IsFunded balance first.currency s.purchase_amount
unfolding batch_summary
summary_is_covered enabled balance first others s honest h ready =
    let rows = first ∷ others in
    let (why, told, good, paid_for) =
      summed_for-ready enabled balance first others first.check_result (block_reason rows) s h
        ready in
    let (clear, funded) =
      final_reason-empty balance first.currency (total amount_or_0 rows)
        (priced_reason first rows why) good in
    let (nothing, one_currency, priced) = priced_reason-empty first rows why clear in
    (
      paid_for,
      ready_rows first rows (block_reason-none rows honest (told ∙ ap some nothing)) one_currency
          priced,
      subst (IsFunded balance first.currency) (sym paid_for) funded,
    )

abbrev is_summed : BatchCheck → Bool
is_summed (summed s) = true
is_summed _ = false

abbrev pub IsPassed : (Transaction → Try (Option CheckResult)) → Transaction → Type 0
IsPassed check_row r = (x : CheckResult) × (check_row r ≡ returns (some x)) × (x.success ≡ true)

module _ (check_row : Transaction → Try (Option CheckResult)) (stops : ℕ → Bool) (now : ℕ) where
  -- A row ends the check, or passes and leaves it to the others.
  check_rows-step :
      (done : ℕ) (r : Transaction) (rows : List Transaction) (o : Option BatchCheck)
      → check_rows check_row stops now done (r ∷ rows) ≡ o
      → ((reply : BatchCheck) × (some reply ≡ o) × (is_summed reply ≡ false))
        ⊎ (IsPassed check_row r × (check_rows check_row stops now (suc done) rows ≡ o))
  unfolding check_rows
  check_rows-step done r rows o h = elim (Option-cases (check_guard now r)) [
    | inr (e, refused) ↦ inl (refuses_check e, ground (arith, refused, h), refl)
    | inl free ↦ go (check_row r) refl (ground (arith, free, h))
  ]
    where
      go :
          (t : Try (Option CheckResult))
          → check_row r ≡ t
          → elim t as (λ _. Option BatchCheck) [
            | raises e ↦ some (refuses_check e)
            | returns result ↦
                if stops (suc done)
                then some (refuses_check (http 409 interrupted))
                else if has_succeeded result
                then check_rows check_row stops now (suc done) rows
                else some (stopped_at result)
          ]
            ≡ o
          → ((reply : BatchCheck) × (some reply ≡ o) × (is_summed reply ≡ false))
            ⊎ (IsPassed check_row r × (check_rows check_row stops now (suc done) rows ≡ o))
      go (raises e) found h = inl (refuses_check e, h, refl)
      go (returns result) found h = elim (Bool-cases (stops (suc done))) [
        | inl stop ↦ inl (refuses_check (http 409 interrupted), ground (arith, stop, h), refl)
        | inr on ↦ passed result found (ground (arith, on, h))
      ]
        where
          passed :
              (result : Option CheckResult)
              → check_row r ≡ returns result
              → (if has_succeeded result
                  then check_rows check_row stops now (suc done) rows
                  else some (stopped_at result))
                ≡ o
              → ((reply : BatchCheck) × (some reply ≡ o) × (is_summed reply ≡ false))
                ⊎ (IsPassed check_row r × (check_rows check_row stops now (suc done) rows ≡ o))
          passed none found h = inl (stopped_at none, h, refl)
          passed (some x) found h = elim (Bool-cases x.success) [
            | inl success ↦ inr ((x, found, success), ground (arith, success, h))
            | inr fail ↦ inl (stopped_at (some x), ground (arith, fail, h), refl)
          ]

  -- The loop gives no summary of its own.
  check_rows-sums :
      (done : ℕ) (rows : List Transaction) (reply : BatchCheck)
      → check_rows check_row stops now done rows ≡ some reply
      → is_summed reply ≡ false
  unfolding check_rows
  check_rows-sums done [] reply h = absurd (ground (arith, h))
  check_rows-sums done (r ∷ rows) reply h = elim (check_rows-step done r rows (some reply) h) [
    | inl (mine, same, other) ↦ subst (λ q. is_summed q ≡ false) (some-injective _ _ same) other
    | inr (passed, rest) ↦ check_rows-sums (suc done) rows reply rest
  ]

  -- Without an end, every row has passed.
  check_rows-IsPassed :
      (done : ℕ) (rows : List Transaction)
      → check_rows check_row stops now done rows ≡ none
      → All (IsPassed check_row) rows
  check_rows-IsPassed done [] h = tt
  check_rows-IsPassed done (r ∷ rows) h = elim (check_rows-step done r rows none h) [
    | inl (mine, same, other) ↦ absurd (ground (arith, same))
    | inr (passed, rest) ↦ (passed, check_rows-IsPassed (suc done) rows rest)
  ]

  -- A check that declares a batch ready has had a success for each row of the batch. All rows that it has
  -- read again are ready, in one currency and with a price each; the sum that it shows is theirs, and the
  -- balance and the credit, in the same currency, cover it. This takes it that a stored result which is not
  -- ready gives its reason.
  pub ready_batch_is_covered :
      (enabled : Bool) (balance : Try Balance) (rows : List Transaction) (first : Transaction)
      (others : List Transaction) (s : BatchSummary)
      → All GivesReason (first ∷ others)
      → batch_check check_row stops now enabled balance rows first others ≡ summed s
      → s.purchase_ready ≡ true
      → All (IsPassed check_row) rows
        × All (IsReadyRow first.currency) (first ∷ others)
        × (s.purchase_amount ≡ total amount_or_0 (first ∷ others))
        × IsFunded balance first.currency s.purchase_amount
  unfolding batch_check
  ready_batch_is_covered enabled balance rows first others s honest h ready =
      elim (Option-cases (check_rows check_row stops now 0 rows)) [
        | inr (reply, ended) ↦
            let same : reply ≡ summed s = ground (arith, ended, h) in
            absurd (ground (arith, check_rows-sums 0 rows reply ended, ap is_summed same))
        | inl on ↦
            let summary : batch_summary enabled balance first others ≡ summed s =
              ground (arith, on, h) in
            let (paid_for, all_ready, covered) =
              summary_is_covered enabled balance first others s honest summary ready in
            (check_rows-IsPassed 0 rows on, all_ready, paid_for, covered)
      ]
