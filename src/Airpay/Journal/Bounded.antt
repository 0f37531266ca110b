-- ===== src/Airpay/Journal/Bounded.antt =====
-- What bounds the payments that a journal of api/airpay_runtime/airpay_repository.py sends.
use homtech_hub.Prelude.{
  ℕ, ◌+◌, ◌≤◌, ◌≡◌, refl, true, not, ◌&&◌, ◌⊎◌, inl, inr, List, [], ◌∷◌, Option, none, some,
  Bool-cases, Fields, total, All, arith, ap, sym, subst, is_empty, ◌∙◌,
}
use homtech_hub.Airpay.Transaction.{Transaction}
use homtech_hub.Airpay.Run.{
  Run, AirpayRequest, shows, fails, breaks, saves, saves_code, asks, asks_balance,
}
use homtech_hub.Airpay.Resolution.{Decided}
use homtech_hub.Airpay.Journal.{Journal, Moment, stamped, proceed_run, start, renewed}
use homtech_hub.Airpay.Journal.Safe.{
  is_pay, body_of, next_pays, is_started, Moves, IsSafe, Safe, IsGood,
}
use homtech_hub.Airpay.Journal.Settles.{Settles}

abbrev pub next_of : Option Run → ℕ
next_of none = 0
next_of (some p) = next_pays p

abbrev pub IsSafeNext : Transaction → Option Run → Type 0
IsSafeNext r none = Unit
IsSafeNext r (some p) = IsSafe r.state r.pay_attempts r.pay_request p

-- A payment that was sent had the body that the row holds.
abbrev pub HasBody : Option Fields → AirpayRequest → Type 0
HasBody body q = (is_pay q ≡ 0) ⊎ (body ≡ some (body_of q))

pub record Bounded (j : Journal) : Type 0 where
  pub good : IsGood j.row
  pub safe : IsSafeNext j.row j.current
  pub counted : total is_pay j.calls + next_of j.current ≤ j.row.pay_attempts
  pub bodies : All (HasBody j.row.pay_request) j.calls

pub none_sent :
    (body body' : Option Fields) (calls : List AirpayRequest)
    → total is_pay calls ≡ 0
    → All (HasBody body) calls
    → All (HasBody body') calls
none_sent body body' [] none_yet h = tt
none_sent body body' (q ∷ calls) none_yet h =
    (inl (omega (arith, none_yet)), none_sent body body' calls (omega (arith, none_yet)) h.1)

-- An update of the running call.
pub moved-Bounded :
    (now : ℕ) (r' : Transaction) (k : Run) (j : Journal)
    → total is_pay j.calls ≤ j.row.pay_attempts
    → All (HasBody j.row.pay_request) j.calls
    → Moves j.row.state j.row.pay_attempts j.row.pay_request r' (next_pays k)
    → IsSafe r'.state r'.pay_attempts r'.pay_request k
    → Bounded (record j { row = stamped now j.row r'; current = some k })
moved-Bounded now r' k j counted bodies moves safe = record {
  good = (moves.1, moves.4);
  safe = safe;
  counted = omega (arith, counted, moves.0);
  bodies = elim moves.3 [
    | inl first ↦
        none_sent j.row.pay_request r'.pay_request j.calls (omega (arith, counted, first)) bodies
    | inr same ↦ subst (λ b. All (HasBody b) j.calls) (sym same) bodies
  ];
}

pub stopped-Bounded : (j : Journal) → Bounded j → Bounded (record j { current = none })
stopped-Bounded j h = record {
  good = h.good;
  safe = tt;
  counted = omega (arith, h.counted);
  bodies = h.bodies;
}

-- One action of the running call.
pub proceed_run-Bounded :
    (m : Moment) (p : Run) (j : Journal)
    → j.current ≡ some p
    → IsSafe j.row.state j.row.pay_attempts j.row.pay_request p
    → total is_pay j.calls + next_pays p ≤ j.row.pay_attempts
    → Bounded j
    → Bounded (proceed_run m p j)
unfolding proceed_run
proceed_run-Bounded m (shows r) j at safe counted h = stopped-Bounded j h
proceed_run-Bounded m (fails e) j at safe counted h = stopped-Bounded j h
proceed_run-Bounded m breaks j at safe counted h = stopped-Bounded j h
proceed_run-Bounded m (saves r' k) j at safe counted h =
    moved-Bounded m.now r' k j (omega (arith, counted)) h.bodies safe.0 safe.1
proceed_run-Bounded m (saves_code r' k) j at safe counted h =
    elim (Bool-cases (m.clash && not (is_empty r'.result_hash))) [
      | inl clash ↦ rw clash (stopped-Bounded j h)
      | inr free ↦
          rw free (moved-Bounded m.now r' k j (omega (arith, counted)) h.bodies safe.0 safe.1)
    ]
proceed_run-Bounded m (asks q k) j at safe counted h =
    let (quiet, safe') = safe.1 m.now m.answer in
    record {
      good = h.good;
      safe = safe';
      counted = omega (arith, counted, quiet);
      bodies = (safe.0, h.bodies);
    }
proceed_run-Bounded m (asks_balance k) j at safe counted h =
    let (quiet, safe') = safe m.now m.balance in
    record {
      good = h.good;
      safe = safe';
      counted = omega (arith, counted, quiet);
      bodies = h.bodies;
    }

-- A call that gets the lock.
pub start-Bounded : (p : Run) (j : Journal) → Safe j.row p → Bounded j → Bounded (start p j)
start-Bounded p j safe h = go j.current refl
  where
    go :
        (current : Option Run)
        → j.current ≡ current
        → Bounded (elim current [ none ↦ record j { current = some p } | some q ↦ j ])
    go none same = record {
      good = h.good;
      safe = safe.safe;
      counted = omega (arith, h.counted, safe.quiet);
      bodies = h.bodies;
    }
    go (some q) same = h

pub settled-Bounded :
    (r' : Transaction) (decided : List Decided) (j : Journal)
    → j.current ≡ none
    → (r' ≡ j.row) ⊎ Settles j.row r'
    → Bounded j
    → Bounded (record j { row = r'; decided = decided })
settled-Bounded r' decided j idle (inl same) h = record {
  good = subst IsGood (sym same) h.good;
  safe = subst (λ p. IsSafeNext r' p) (sym idle) tt;
  counted = omega (arith, h.counted, ap (λ r. r.pay_attempts) same);
  bodies = subst (λ r. All (HasBody r.pay_request) j.calls) (sym same) h.bodies;
}
settled-Bounded r' decided j idle (inr settles) h = record {
  good = (omega (arith, settles.0, h.good.0), inr (ground (arith, settles.4)));
  safe = subst (λ p. IsSafeNext r' p) (sym idle) tt;
  counted = omega (arith, h.counted, settles.0);
  bodies = subst (λ b. All (HasBody b) j.calls) (sym settles.1) h.bodies;
}

pub renewed-same :
    (now key : ℕ) (r : Transaction)
    → ((renewed now key r).pay_attempts ≡ r.pay_attempts)
      × ((renewed now key r).pay_request ≡ r.pay_request)
      × ((renewed now key r).state ≡ r.state)
renewed-same now key r = ground arith

pub same_payment-Bounded :
    (r' : Transaction) (j : Journal)
    → r'.pay_attempts ≡ j.row.pay_attempts
    → r'.pay_request ≡ j.row.pay_request
    → r'.state ≡ j.row.state
    → Bounded j
    → Bounded (record j { row = r' })
same_payment-Bounded r' j attempts body state h = record {
  good = (
    omega (arith, attempts, h.good.0),
    elim h.good.1 [
      | inl unpaid ↦ inl (attempts ∙ unpaid)
      | inr begun ↦ inr (subst (λ s. is_started s ≡ true) (sym state) begun)
    ],
  );
  safe = same_safe j.current h.safe;
  counted = omega (arith, h.counted, attempts);
  bodies = subst (λ b. All (HasBody b) j.calls) (sym body) h.bodies;
}
  where
    same_safe : (p : Option Run) → IsSafeNext j.row p → IsSafeNext r' p
    same_safe none safe = tt
    same_safe (some p) safe =
        subst (λ s. IsSafe s r'.pay_attempts r'.pay_request p) (sym state)
          (subst (λ n. IsSafe j.row.state n r'.pay_request p) (sym attempts)
            (subst (λ b. IsSafe j.row.state j.row.pay_attempts b p) (sym body) safe))
