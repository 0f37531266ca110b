-- ===== src/Hub/Program.antt =====
-- A run of the service as the sequence of its actions: each repository call is one transaction, each
-- provider call one request, and what follows depends on the answer. Between two actions any other
-- process may run.
use homtech_hub.Prelude.{ℕ, Text, Bool}
use homtech_hub.Hub.Domain.{Purchase}
use homtech_hub.Hub.Provider.{ProviderResult, Response, answered, provider_error, Call}
use homtech_hub.Hub.Errors.{Error, Outcome, ok, err, provider_failed}
use homtech_hub.Hub.Repository.Marks.{Mark, TopupScope}

pub data Prog (A : Type 0) : Type 0 where
  done : A → Prog A
  raise : Error → Prog A
  ask : Call → (Response → Prog A) → Prog A
  transact : ℕ → ℕ → Mark → (Outcome Purchase → Prog A) → Prog A
  permit : TopupScope → (Bool → Prog A) → Prog A
  defer : ℕ → ℕ → Prog A → Prog A

module _ {A B : Type 0} where
  infixl 5 ◌>>=◌
  unfoldable pub ◌>>=◌ : Prog A → (A → Prog B) → Prog B
  done a >>= f = f a
  raise e >>= f = raise e
  ask c k >>= f = ask c (λ r. k r >>= f)
  transact id token m k >>= f = transact id token m (λ r. k r >>= f)
  permit s k >>= f = permit s (λ b. k b >>= f)
  defer id token k >>= f = defer id token (k >>= f)

module _ {A : Type 0} where
  -- `except ProviderError as exc`
  unfoldable pub except_provider_error : Prog A → (Text → Prog A) → Prog A
  except_provider_error (done a) h = done a
  except_provider_error (raise (provider_failed m)) h = h m
  except_provider_error (raise e) h = raise e
  except_provider_error (ask c k) h = ask c (λ r. except_provider_error (k r) h)
  except_provider_error (transact id token m k) h =
      transact id token m (λ r. except_provider_error (k r) h)
  except_provider_error (permit s k) h = permit s (λ b. except_provider_error (k b) h)
  except_provider_error (defer id token k) h = defer id token (except_provider_error k h)

  abbrev pub lift : Outcome A → Prog A
  lift (ok a) = done a
  lift (err e) = raise e

-- A call of the provider raises `ProviderError` if it gets no answer.
abbrev pub answer : Response → Prog ProviderResult
answer (answered r) = done r
answer (provider_error m) = raise (provider_failed m)

abbrev pub call : Call → Prog ProviderResult
call c = ask c answer

-- A repository call, and the exception that it raises.
abbrev pub mark_purchase : ℕ → ℕ → Mark → Prog Purchase
mark_purchase id token m = transact id token m lift
