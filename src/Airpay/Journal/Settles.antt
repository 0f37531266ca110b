-- ===== src/Airpay/Journal/Settles.antt =====
-- What a decision (airpay_resolution.py) does to the payment of a row: nothing, or it ends it, paid or failed.
use homtech_hub.Prelude.{
  ℕ, ◌≡◌, refl, Bool, true, false, ◌&&◌, ◌||◌, ◌⊎◌, inl, inr, Text, List, Option, none,
  Option-cases, Bool-cases, if◌then◌else◌, arith, is_empty, is_some, sym, subst, ◌∙◌,
}
use homtech_hub.Hub.Crypto.{Crypto}
use homtech_hub.Airpay.Http.{Try, returns, raises, ◌>>=◌, ◌>>◌}
use homtech_hub.Airpay.Transaction.{Transaction}
use homtech_hub.Airpay.Resolution.{
  ResolutionPayload, Decided, confirm_failure, with_confirmed, confirm_success, is_confirm,
  is_pending, lacks_code, refused_row, confirmed_row, check_decision, check_success, code_of,
  resolution_changes, stored_code, decided_row, after_changes, write_decision, find_decided,
  resolve_transaction,
}
use homtech_hub.Airpay.Journal.Safe.{is_final, is_started}

-- The payment is as it was but for its end.
abbrev pub Settles : Transaction → Transaction → Type 0
Settles r r' =
    (r'.pay_attempts ≡ r.pay_attempts)
    × (r'.pay_request ≡ r.pay_request)
    × (is_started r.state ≡ true)
    × ((is_final r.state ≡ false) ⊎ (r'.state ≡ r.state))
    × (is_final r'.state ≡ true)

-- What the tests of a decision have found.
decision_open :
    (x : ResolutionPayload) (r : Transaction) (u : Unit {0})
    → check_decision x r ≡ returns u
    → is_pending r || lacks_code r ≡ true
unfolding check_decision
decision_open x r u h = ground arith

refused_row-Settles :
    (x : ResolutionPayload) (r : Transaction) → is_pending r ≡ true → Settles r (refused_row x r)
refused_row-Settles x r here = (refl, refl, ground (arith, here), inl (ground (arith, here)), refl)

confirmed_row-Settles :
    (x : ResolutionPayload) (r : Transaction)
    → is_pending r || lacks_code r ≡ true
    → Settles r (confirmed_row x r)
confirmed_row-Settles x r open_row =
    (refl, refl, ground (arith, open_row), ground (arith, open_row), refl)

confirm_failure-cases :
    (x : ResolutionPayload) (r r' : Transaction) (code : Option Text)
    → confirm_failure x r ≡ returns (r', code)
    → (is_pending r ≡ true) × (r' ≡ refused_row x r) × (code ≡ none)
unfolding confirm_failure
confirm_failure-cases x r r' code h = (ground arith, ground arith, ground arith)

success_is :
    (x : ResolutionPayload) (r r' : Transaction) (code : Option Text) (s : Try (Unit {0}))
    (k : Try (Option Text))
    → (s >> (k >>= with_confirmed x r)) ≡ returns (r', code)
    → (r' ≡ confirmed_row x r) × (k ≡ returns code)
success_is x r r' code (raises e) k h = (ground arith, ground arith)
success_is x r r' code (returns u) (raises e) h = (ground arith, ground arith)
success_is x r r' code (returns u) (returns found) h = (ground arith, ground arith)

confirm_success-cases :
    (x : ResolutionPayload) (r r' : Transaction) (code : Option Text)
    → confirm_success x r ≡ returns (r', code)
    → (r' ≡ confirmed_row x r) × (code_of x r ≡ returns code)
unfolding confirm_success
confirm_success-cases x r r' code h = success_is x r r' code (check_success x r) (code_of x r) h

-- The two ways to a decision.
pub resolution_changes-cases :
    (x : ResolutionPayload) (r r' : Transaction) (code : Option Text)
    → resolution_changes x r ≡ returns (r', code)
    → (is_pending r || lacks_code r ≡ true)
      × (((is_pending r ≡ true) × (r' ≡ refused_row x r) × (code ≡ none))
          ⊎ ((r' ≡ confirmed_row x r) × (code_of x r ≡ returns code)))
unfolding resolution_changes
resolution_changes-cases x r r' code = go (check_decision x r) refl
  where
    go :
        (d : Try (Unit {0}))
        → check_decision x r ≡ d
        → (d >> (if is_confirm x.decision then confirm_failure x r else confirm_success x r))
          ≡ returns (r', code)
        → (is_pending r || lacks_code r ≡ true)
          × (((is_pending r ≡ true) × (r' ≡ refused_row x r) × (code ≡ none))
              ⊎ ((r' ≡ confirmed_row x r) × (code_of x r ≡ returns code)))
    go (raises e) is h = ground arith
    go (returns u) is h = elim (Bool-cases (is_confirm x.decision)) [
      | inl confirms ↦ (
        decision_open x r u is,
        inl (confirm_failure-cases x r r' code (ground (arith, h, confirms))),
      )
      | inr records ↦ (
        decision_open x r u is,
        inr (confirm_success-cases x r r' code (ground (arith, h, records))),
      )
    ]

changes-Settles :
    (x : ResolutionPayload) (r r' : Transaction) (code : Option Text)
    → resolution_changes x r ≡ returns (r', code)
    → Settles r r'
changes-Settles x r r' code h = elim (resolution_changes-cases x r r' code h).1 [
  | inl (here, is, no_code) ↦ subst (Settles r) (sym is) (refused_row-Settles x r here)
  | inr (is, with_it) ↦
      subst (Settles r) (sym is)
        (confirmed_row-Settles x r (resolution_changes-cases x r r' code h).0)
]

stored_code-same :
    (c : Crypto) (secret : Text) (code : Option Text) (r : Transaction)
    → ((stored_code c secret code r).pay_attempts ≡ r.pay_attempts)
      × ((stored_code c secret code r).pay_request ≡ r.pay_request)
      × ((stored_code c secret code r).state ≡ r.state)
stored_code-same c secret code r = ground arith

decided_row-Settles :
    (c : Crypto) (secret : Text) (now : ℕ) (code : Option Text) (r r' : Transaction)
    → Settles r r'
    → Settles r (decided_row c secret now code r')
decided_row-Settles c secret now code r r' h =
    let (attempts, body, state) = stored_code-same c secret code r' in
    (
      attempts ∙ h.0,
      body ∙ h.1,
      h.2,
      elim h.3 [ inl not_final ↦ inl not_final | inr same ↦ inr (state ∙ same) ],
      subst (λ s. is_final s ≡ true) (sym state) h.4,
    )

write_decision-cases :
    (c : Crypto) (secret : Text) (clash : Bool) (digest : Text) (now : ℕ) (x : ResolutionPayload)
    (r : Transaction) (decided : List Decided) (r' : Transaction) (code : Option Text)
    → ((write_decision c secret clash digest now x r decided (r', code)).1 ≡ r)
      ⊎ ((write_decision c secret clash digest now x r decided (r', code)).1
          ≡ decided_row c secret now code r')
write_decision-cases c secret clash digest now x r decided r' code =
    elim (Bool-cases (is_some code && is_empty secret)) [
      | inl no_secret ↦ inl (ground arith)
      | inr fine ↦ elim (Bool-cases (is_some code && clash)) [
        | inl taken ↦ inl (ground arith)
        | inr free ↦ inr (ground arith)
      ]
    ]

pub resolve_transaction-Settles :
    (c : Crypto) (secret : Text) (clash : Bool) (digest : Text) (now : ℕ) (x : ResolutionPayload)
    (r : Transaction) (decided : List Decided)
    → ((resolve_transaction c secret clash digest now x r decided).1 ≡ r)
      ⊎ Settles r (resolve_transaction c secret clash digest now x r decided).1
unfolding resolve_transaction
resolve_transaction-Settles c secret clash digest now x r decided =
    elim (Option-cases (find_decided x.request_id decided)) [
      | inr (a, earlier) ↦ inl (ground arith)
      | inl new ↦ rw (new, resolve_transaction) (go (resolution_changes x r) refl)
    ]
  where
    go :
        (changes : Try (Transaction × Option Text))
        → resolution_changes x r ≡ changes
        → ((after_changes c secret clash digest now x r decided changes).1 ≡ r)
          ⊎ Settles r (after_changes c secret clash digest now x r decided changes).1
    go (raises e) is = inl refl
    go (returns (r', code)) is =
        elim (write_decision-cases c secret clash digest now x r decided r' code) [
          | inl same ↦ inl same
          | inr row ↦ inr (
              subst (Settles r) (sym row)
                (decided_row-Settles c secret now code r r' (changes-Settles x r r' code is)))
        ]
