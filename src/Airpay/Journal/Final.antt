-- ===== src/Airpay/Journal/Final.antt =====
-- The outcomes of a transaction of api/airpay_runtime, and what comes after them.
use homtech_hub.Prelude.{
  ◌≡◌, refl, Bool, true, false, not, ◌&&◌, ◌⊎◌, inl, inr, Text, List, [], ◌∷◌, Option, none, some,
  Bool-cases, Json, arith, ap, sym, subst, is_empty, ◌∙◌,
}
use homtech_hub.Hub.Crypto.{Crypto}
use homtech_hub.Airpay.Transaction.{Transaction, TransactionState}
use homtech_hub.Airpay.Run.{Run, shows, fails, breaks, saves, saves_code, asks, asks_balance}
use homtech_hub.Airpay.Resolution.{resolve_transaction}
use homtech_hub.Airpay.Journal.{
  Journal, Moment, JournalAction, start_check, start_pay, start_reconcile, start_voucher, proceed,
  stop, decide, renew, proceed_run, start, journal_step, journal_run,
}
use homtech_hub.Airpay.Journal.Safe.{is_final, IsSafe}
use homtech_hub.Airpay.Journal.Settles.{resolve_transaction-Settles}
use homtech_hub.Airpay.Journal.Bounds.{
  journal_step-Bounded, unpaid_journal, unpaid-Bounded, journal_run-Bounded,
}
use homtech_hub.Airpay.Journal.Bounded.{Bounded, IsSafeNext}

final_moves :
    (s s' : TransactionState) → is_final s ≡ true → (is_final s ≡ false) ⊎ (s' ≡ s) → s' ≡ s
final_moves s s' final (inl not_final) = ground arith
final_moves s s' final (inr same) = same

proceed_run-final :
    (m : Moment) (p : Run) (j : Journal)
    → IsSafe j.row.state j.row.pay_attempts j.row.pay_request p
    → is_final j.row.state ≡ true
    → (proceed_run m p j).row.state ≡ j.row.state
unfolding proceed_run
proceed_run-final m (shows r) j safe final = refl
proceed_run-final m (fails e) j safe final = refl
proceed_run-final m breaks j safe final = refl
proceed_run-final m (saves r' k) j safe final = final_moves j.row.state r'.state final safe.0.2
proceed_run-final m (saves_code r' k) j safe final =
    elim (Bool-cases (m.clash && not (is_empty r'.result_hash))) [
      | inl clash ↦ rw clash refl
      | inr free ↦ rw free (final_moves j.row.state r'.state final safe.0.2)
    ]
proceed_run-final m (asks q k) j safe final = refl
proceed_run-final m (asks_balance k) j safe final = refl

start-row : (p : Run) (j : Journal) → (start p j).row.state ≡ j.row.state
start-row p j = go j.current
  where
    go :
        (current : Option Run)
        → (elim current as (λ _. Journal) [
          | none ↦ record j { current = some p }
          | some q ↦ j
        ]).row.state
          ≡ j.row.state
    go none = refl
    go (some q) = refl

module _ (c : Crypto) (show : Json → Text) (secret : Text) (enabled : Bool) where
  journal_step-final :
      (j : Journal) (a : JournalAction)
      → Bounded j
      → is_final j.row.state ≡ true
      → (journal_step c show secret enabled j a).row.state ≡ j.row.state
  unfolding journal_step
  journal_step-final j (start_check now matches) h final = start-row _ j
  journal_step-final j (start_pay now batch confirmed) h final = start-row _ j
  journal_step-final j (start_reconcile now) h final = start-row _ j
  journal_step-final j (start_voucher now) h final = start-row _ j
  journal_step-final j (proceed m) h final = go j.current refl
    where
      go :
          (current : Option Run)
          → j.current ≡ current
          → (elim current as (λ _. Journal) [ none ↦ j | some p ↦ proceed_run m p j ]).row.state
            ≡ j.row.state
      go none at = refl
      go (some p) at = proceed_run-final m p j (subst (IsSafeNext j.row) at h.safe) final
  journal_step-final j stop h final = refl
  journal_step-final j (decide clash digest x now) h final = go j.current
    where
      go :
          (current : Option Run)
          → (elim current as (λ _. Journal) [
            | some p ↦ j
            | none ↦
                let (outcome, r', decided) =
                  resolve_transaction c secret clash digest now x j.row j.decided in
                record j { row = r'; decided = decided }
          ]).row.state
            ≡ j.row.state
      go (some p) = refl
      go none = elim (resolve_transaction-Settles c secret clash digest now x j.row j.decided) [
        | inl same ↦ ap (λ r. r.state) same
        | inr settles ↦ final_moves j.row.state _ final settles.3
      ]
  journal_step-final j (renew now key) h final = ground arith

  journal_run-final :
      (j : Journal) (actions : List JournalAction)
      → Bounded j
      → is_final j.row.state ≡ true
      → (journal_run c show secret enabled j actions).row.state ≡ j.row.state
  unfolding journal_run
  journal_run-final j [] h final = refl
  journal_run-final j (a ∷ actions) h final =
      let same = journal_step-final j a h final in
      journal_run-final (journal_step c show secret enabled j a) actions
        (journal_step-Bounded c show secret enabled j a h)
        (subst (λ s. is_final s ≡ true) (sym same) final)
      ∙ same

  -- A transaction that has come to paid or to failed keeps that state, whatever calls, late answers,
  -- decisions and renewals follow.
  pub outcome_is_final :
      (r : Transaction) (before after : List JournalAction)
      → r.pay_attempts ≡ 0
      → is_final (journal_run c show secret enabled (unpaid_journal r) before).row.state ≡ true
      → (journal_run c show secret enabled
          (journal_run c show secret enabled (unpaid_journal r) before)
          after).row.state
        ≡ (journal_run c show secret enabled (unpaid_journal r) before).row.state
  outcome_is_final r before after none_yet final =
      journal_run-final (journal_run c show secret enabled (unpaid_journal r) before) after
        (journal_run-Bounded c show secret enabled (unpaid_journal r) before
          (unpaid-Bounded r none_yet))
        final
