-- ===== src/Hub/Service/Armed.antt =====
-- The programs of api/hub/service.py, and the commits before their payments.
use homtech_hub.Prelude.{
  ℕ, ◌≤◌, Text, ◌≡◌, refl, Bool, true, false, not, ◌&&◌, ◌||◌, List, inl, inr, Bool-cases, text_eq,
  any, if◌then◌else◌, arith, Decimal,
}
use homtech_hub.Hub.Domain.{
  PurchaseState, created, checked, payment_started, processing, Purchase, is_topup,
}
use homtech_hub.Hub.Provider.{ProviderResult, Response, answered, provider_error, Call}
use homtech_hub.Hub.Errors.{Error, Outcome, ok, err, provider_failed}
use homtech_hub.Hub.Crypto.{Crypto}
use homtech_hub.Hub.Settings.{Settings}
use homtech_hub.Hub.Repository.Marks.{
  Mark, mark_payment_started, mark_preflight_failed, mark_requires_attention, is_created,
  is_checked,
}
use homtech_hub.Hub.Program.{
  Prog, raise, permit, mark_purchase, lift, call, answer, ◌>>=◌, except_provider_error,
}
use homtech_hub.Hub.Service.Process.{
  preflight, save_result, on_response, pay_purchase, check_purchase, dispatch, process_permitted,
  process_claimed, except_duplicate, preflight_topup, preflight_voucher, preflight_error,
  send_payment, check_voucher, after_price, price_is_bad, saved_parts, not_configured,
  scope_of_purchase,
}
use homtech_hub.Hub.Service.Arming.{
  pays, pending, granted, is_result_state, is_lawful, IsDisciplined, IsFresh, raise-IsFresh,
  done-IsFresh, transact-IsFresh, ask-IsFresh, mark_purchase-IsFresh, if-IsFresh, if-is_lawful,
}

saved_state-is_result :
    (c : Crypto) (p : Purchase) (r : ProviderResult) → is_result_state (saved_parts c p r).0 ≡ true
saved_state-is_result c p r = ground arith

except_duplicate-IsFresh :
    (p : Purchase) (token : ℕ) (o : Outcome Purchase) → IsFresh (except_duplicate p token o)
except_duplicate-IsFresh p token (ok q) = done-IsFresh q
except_duplicate-IsFresh p token (err e) =
    if-IsFresh _ _ _ (mark_purchase-IsFresh _ _ _ refl) (raise-IsFresh e)

save_result-IsFresh :
    (c : Crypto) (s : Settings) (p : Purchase) (token : ℕ) (r : ProviderResult) (counts : Bool)
    → IsFresh (save_result c s p token r counts)
unfolding save_result
save_result-IsFresh c s p token r counts =
    if-IsFresh _ _ _ (mark_purchase-IsFresh _ _ _ refl)
      (transact-IsFresh _ _ _ _ (saved_state-is_result c p r) (except_duplicate-IsFresh p token))

on_response-IsFresh :
    (c : Crypto) (s : Settings) (p : Purchase) (token : ℕ) (counts : Bool) (r : Response)
    → IsFresh (on_response c s p token counts r)
on_response-IsFresh c s p token counts (answered r) = save_result-IsFresh c s p token r counts
on_response-IsFresh c s p token counts (provider_error m) = mark_purchase-IsFresh _ _ _ refl

-- The payment itself is armed by the commit of `mark_payment_started`, and by nothing else.
after_start :
    (c : Crypto) (s : Settings) (token : ℕ) (o : Outcome Purchase)
    → ((op : Text)
        → pending op (lift o >>= send_payment c s token) ≤ granted op mark_payment_started o)
      × IsDisciplined (lift o >>= send_payment c s token)
unfolding ◌>>=◌
after_start c s token (ok q) = (
  λ op. omega arith,
  λ r. (
    (on_response-IsFresh c s q token false r).unarmed,
    (on_response-IsFresh c s q token false r).disciplined,
  ),
)
after_start c s token (err e) = (λ op. omega arith, tt)

pay_purchase-IsFresh :
    (c : Crypto) (s : Settings) (p : Purchase) (token : ℕ) → IsFresh (pay_purchase c s p token)
unfolding pay_purchase
pay_purchase-IsFresh c s p token = record {
  unarmed = λ op. refl;
  disciplined = (refl, after_start c s token);
}

check_purchase-IsFresh :
    (c : Crypto) (s : Settings) (p : Purchase) (token : ℕ) → IsFresh (check_purchase c s p token)
unfolding check_purchase
check_purchase-IsFresh c s p token =
    if-IsFresh _ _ _ (mark_purchase-IsFresh _ _ _ refl)
      (ask-IsFresh _ _ (λ op. refl) (on_response-IsFresh c s p token true))

preflight_error-IsFresh :
    (p : Purchase) (token : ℕ) (m : Text) → IsFresh (preflight_error p token m)
preflight_error-IsFresh p token m =
    if-IsFresh _ _ _ (mark_purchase-IsFresh _ _ _ refl) (mark_purchase-IsFresh _ _ _ refl)

-- Inside `_preflight` the handler of `ProviderError` stands around every action.
abbrev guarded : Purchase → ℕ → Prog Purchase → Prog Purchase
guarded p token q = except_provider_error q (preflight_error p token)

guarded-raise : (p : Purchase) (token : ℕ) (e : Error) → IsFresh (guarded p token (raise e))
unfolding except_provider_error
guarded-raise p token (provider_failed m) = preflight_error-IsFresh p token m
guarded-raise p token e = raise-IsFresh e

guarded-lift :
    (p : Purchase) (token : ℕ) (o : Outcome Purchase) → IsFresh (guarded p token (lift o))
unfolding except_provider_error
guarded-lift p token (ok q) = done-IsFresh q
guarded-lift p token (err e) = guarded-raise p token e

guarded-mark_purchase :
    (p : Purchase) (token : ℕ) (m : Mark)
    → is_lawful m ≡ true
    → IsFresh (guarded p token (mark_purchase p.id token m))
unfolding except_provider_error
guarded-mark_purchase p token m lawful = transact-IsFresh _ _ _ _ lawful (guarded-lift p token)

-- A request inside `_preflight`: what follows an answer is guarded, and so is its absence.
guarded-call :
    (p : Purchase) (token : ℕ) (request : Call) (k : ProviderResult → Prog Purchase)
    → ((op : Text) → pays op request ≡ 0)
    → ((r : ProviderResult) → IsFresh (guarded p token (k r)))
    → IsFresh (guarded p token (call request >>= k))
unfolding except_provider_error ◌>>=◌
guarded-call p token request k none_paid h = ask-IsFresh _ _ none_paid after
  where
    after : (r : Response) → IsFresh (guarded p token (answer r >>= k))
    after (answered r) = h r
    after (provider_error m) = preflight_error-IsFresh p token m

preflight_topup-IsFresh :
    (p : Purchase) (token : ℕ) → IsFresh (guarded p token (preflight_topup p token))
unfolding preflight_topup
preflight_topup-IsFresh p token =
    guarded-call p token _ _ (λ op. refl) (λ r. guarded-mark_purchase p token _ (ground arith))

check_voucher-IsFresh :
    (p : Purchase) (token : ℕ) (a : Decimal) → IsFresh (guarded p token (check_voucher p token a))
unfolding check_voucher
check_voucher-IsFresh p token a =
    guarded-call p token _ _ (λ op. refl) (λ r. guarded-mark_purchase p token _ (ground arith))

after_calculate :
    (p : Purchase) (token : ℕ) (r : ProviderResult) (o : Outcome Bool)
    → IsFresh (guarded p token (lift o >>= after_price p token r))
unfolding ◌>>=◌
after_calculate p token r (ok true) = guarded-mark_purchase p token _ refl
after_calculate p token r (ok false) = check_voucher-IsFresh p token r.fixed_amount
after_calculate p token r (err e) = guarded-raise p token e

preflight_voucher-IsFresh :
    (p : Purchase) (token : ℕ) → IsFresh (guarded p token (preflight_voucher p token))
unfolding preflight_voucher
preflight_voucher-IsFresh p token =
    guarded-call p token _ _ (λ op. refl) (λ r. after_calculate p token r (price_is_bad r))

preflight-IsFresh : (p : Purchase) (token : ℕ) → IsFresh (preflight p token)
unfolding preflight
preflight-IsFresh p token = elim (Bool-cases (is_topup p.kind)) [
  | inl topup ↦ rw topup (preflight_topup-IsFresh p token)
  | inr other ↦ rw other (preflight_voucher-IsFresh p token)
]

dispatch-IsFresh :
    (c : Crypto) (s : Settings) (p : Purchase) (token : ℕ) (state : PurchaseState)
    → IsFresh (dispatch c s p token state)
unfolding dispatch
dispatch-IsFresh c s p token created = preflight-IsFresh p token
dispatch-IsFresh c s p token checked = pay_purchase-IsFresh c s p token
dispatch-IsFresh c s p token payment_started = check_purchase-IsFresh c s p token
dispatch-IsFresh c s p token processing = check_purchase-IsFresh c s p token
dispatch-IsFresh c s p token _ = done-IsFresh p

permitted-IsFresh :
    (c : Crypto) (s : Settings) (p : Purchase) (token : ℕ) (allowed : Bool)
    → IsFresh (process_permitted c s p token allowed)
permitted-IsFresh c s p token true = dispatch-IsFresh c s p token p.state
permitted-IsFresh c s p token false = record {
  unarmed = λ op. refl;
  disciplined = (λ op. refl, tt);
}

permit-IsFresh :
    (c : Crypto) (s : Settings) (p : Purchase) (token : ℕ)
    → IsFresh (permit (scope_of_purchase p) (process_permitted c s p token))
permit-IsFresh c s p token = record {
  unarmed = λ op. refl;
  disciplined = λ b. let h = permitted-IsFresh c s p token b in (h.unarmed, h.disciplined);
}

-- What a worker runs on a purchase that it has claimed is not about to pay, and arms itself only by
-- the commit of PAYMENT_STARTED.
pub process_claimed-IsFresh :
    (c : Crypto) (providers : List Text) (s : Settings) (p : Purchase) (token : ℕ)
    → IsFresh (process_claimed c providers s p token)
unfolding process_claimed
process_claimed-IsFresh c providers s p token =
    if-IsFresh (not (any (text_eq p.provider_code) providers)) _ _
      (mark_purchase-IsFresh p.id token
        (if is_created p.state
          then mark_preflight_failed not_configured
          else mark_requires_attention not_configured)
        (if-is_lawful (is_created p.state) _ _ refl refl))
      (if-IsFresh (is_topup p.kind && (is_created p.state || is_checked p.state)) _ _
        (if-IsFresh s.topups_enabled _ _ (permit-IsFresh c s p token)
          (permitted-IsFresh c s p token false))
        (dispatch-IsFresh c s p token p.state))
