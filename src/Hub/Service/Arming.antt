-- ===== src/Hub/Service/Arming.antt =====
-- Which programs may be about to call the provider's `pay`: only one that has just been told that its
-- `mark_payment_started` is committed, and for that purchase's operation alone.
use homtech_hub.Prelude.{
  ℕ, ◌≤◌, Text, ◌≡◌, refl, Bool, true, false, to_nat, text_eq, if◌then◌else◌, arith,
}
use homtech_hub.Hub.Domain.{PurchaseState, processing, succeeded, failed, Purchase}
use homtech_hub.Hub.Provider.{Response, Call, pay}
use homtech_hub.Hub.Errors.{Error, Outcome, ok, err}
use homtech_hub.Hub.Repository.Marks.{Mark, mark_payment_started, mark_provider_result}
use homtech_hub.Hub.Program.{
  Prog, done, raise, ask, transact, permit, defer, mark_purchase, lift, call,
}

-- How often a call is a payment of the operation: once or not.
abbrev pub pays : Text → Call → ℕ
pays op (pay o) = to_nat (text_eq o op)
pays op _ = 0

-- The same for the next action of a program.
abbrev pub pending : Text → Prog Purchase → ℕ
pending op (ask call k) = pays op call
pending op _ = 0

abbrev pub starts_payment : Mark → Bool
starts_payment mark_payment_started = true
starts_payment _ = false

-- The states that a provider's result is stored under.
abbrev pub is_result_state : PurchaseState → Bool
is_result_state processing = true
is_result_state succeeded = true
is_result_state failed = true
is_result_state _ = false

abbrev pub is_lawful : Mark → Bool
is_lawful (mark_provider_result _ state _ _ _ _) = is_result_state state
is_lawful _ = true

-- What the answer to a repository call permits: a payment of the purchase that was just started.
abbrev pub granted : Text → Mark → Outcome Purchase → ℕ
granted op m (ok p) = if starts_payment m then to_nat (text_eq p.provider_operation_id op) else 0
granted op m (err e) = 0

abbrev pub IsUnarmed : Prog Purchase → Type 0
IsUnarmed p = (op : Text) → pending op p ≡ 0

abbrev pub IsDisciplined : Prog Purchase → Type 0
IsDisciplined (done p) = Unit
IsDisciplined (raise e) = Unit
IsDisciplined (ask call k) = (r : Response) → IsUnarmed (k r) × IsDisciplined (k r)
IsDisciplined (transact id token m k) =
    (is_lawful m ≡ true)
    × ((o : Outcome Purchase)
        → ((op : Text) → pending op (k o) ≤ granted op m o) × IsDisciplined (k o))
IsDisciplined (permit scope k) = (b : Bool) → IsUnarmed (k b) × IsDisciplined (k b)
IsDisciplined (defer id token k) = IsUnarmed k × IsDisciplined k

-- A program that may start here: it is not about to pay, and stays disciplined.
pub record IsFresh (p : Prog Purchase) : Type 0 where
  pub unarmed : IsUnarmed p
  pub disciplined : IsDisciplined p

pub lift-IsFresh : (o : Outcome Purchase) → IsFresh (lift o)
lift-IsFresh (ok p) = record { unarmed = λ op. refl; disciplined = tt }
lift-IsFresh (err e) = record { unarmed = λ op. refl; disciplined = tt }

pub raise-IsFresh : (e : Error) → IsFresh (raise e)
raise-IsFresh e = record { unarmed = λ op. refl; disciplined = tt }

pub done-IsFresh : (p : Purchase) → IsFresh (done p)
done-IsFresh p = record { unarmed = λ op. refl; disciplined = tt }

-- A transaction that grants no payment, or whose grant is not used.
pub transact-IsFresh :
    (id token : ℕ) (m : Mark) (k : Outcome Purchase → Prog Purchase)
    → is_lawful m ≡ true
    → ((o : Outcome Purchase) → IsFresh (k o))
    → IsFresh (transact id token m k)
transact-IsFresh id token m k lawful h = record {
  unarmed = λ op. refl;
  disciplined = (lawful, λ o. (λ op. omega (arith, (h o).unarmed op), (h o).disciplined));
}

-- A request that is no payment.
pub ask-IsFresh :
    (call : Call) (k : Response → Prog Purchase)
    → ((op : Text) → pays op call ≡ 0)
    → ((r : Response) → IsFresh (k r))
    → IsFresh (ask call k)
ask-IsFresh call k none_paid h = record {
  unarmed = none_paid;
  disciplined = λ r. ((h r).unarmed, (h r).disciplined);
}

pub mark_purchase-IsFresh :
    (id token : ℕ) (m : Mark) → is_lawful m ≡ true → IsFresh (mark_purchase id token m)
mark_purchase-IsFresh id token m lawful = transact-IsFresh id token m lift lawful lift-IsFresh

pub if-is_lawful :
    (b : Bool) (m n : Mark)
    → is_lawful m ≡ true
    → is_lawful n ≡ true
    → is_lawful (if b then m else n) ≡ true
if-is_lawful true m n hm hn = hm
if-is_lawful false m n hm hn = hn

pub if-IsFresh :
    (b : Bool) (p q : Prog Purchase) → IsFresh p → IsFresh q → IsFresh (if b then p else q)
if-IsFresh true p q hp hq = hp
if-IsFresh false p q hp hq = hq
