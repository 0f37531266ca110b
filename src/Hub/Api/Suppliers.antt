-- ===== src/Hub/Api/Suppliers.antt =====
-- The routes of api/hub/app.py about the supplier and the service itself: the quote, the catalogue, the
-- balance, /ready. What the supplier answers comes from outside.
use homtech_hub.Prelude.{
  ℕ, ℤ, Text, Bool, [], ◌∷◌, ◌++◌, Option, none, some, Decimal, Fields, codes,
}
use homtech_hub.Hub.Provider.{ProviderRequest, Response, answered, provider_error}
use homtech_hub.Hub.Settings.{Settings, readiness_errors, live_pay_allowed}
use homtech_hub.Hub.Repository.Table.{uuid_hex}
use homtech_hub.Hub.Api.{
  Reply, replies, refuses, refuse, ◌>>=◌, not_ready, Headers, authenticate, bad_client,
}

pub record ProviderQuoteIn : Type 0 where
  pub service_id : ℤ
  pub account : Text
  pub params : Fields

pub record ProviderQuoteOut : Type 0 where
  pub provider_code : Text
  pub service_id : ℤ
  pub success : Bool
  pub status : ℤ
  pub message : Text
  pub fixed_amount : Decimal

-- What a call of the supplier returned, or its `ProviderError`.
pub data SupplierReply {ℓ} (A : Type ℓ) : Type ℓ where
  supplied : A → SupplierReply A
  supplier_failed : Text → SupplierReply A

abbrev pub or_502 {ℓ} : {A : Type ℓ} → SupplierReply A → Reply A
or_502 (supplied a) = replies a
or_502 (supplier_failed m) = refuse 502 m

-- The tables, as `/ready` finds them.
pub data Probe : Type 0 where
  migrated not_migrated unreachable : Probe

abbrev pub probe_error : Probe → Option Text
probe_error migrated = none
probe_error not_migrated = some (codes "Supplier Hub database migrations are not applied")
probe_error unreachable = some (codes "Supplier Hub database is unavailable")

-- `ready`: the database is looked at only if the settings are whole.
unfoldable pub ready : Settings → Probe → Reply Bool
unfolding readiness_errors live_pay_allowed
ready s probe = elim (readiness_errors s) [
  | e ∷ errors ↦ refuses 503 (not_ready (e ∷ errors) none)
  | [] ↦ elim (probe_error probe) [
    | some text ↦ refuses 503 (not_ready [] (some text))
    | none ↦ replies (live_pay_allowed s)
  ]
]

module _ (s : Settings) where
  -- `provider_services` and `provider_balance`
  unfoldable pub provider_read {ℓ} : {A : Type ℓ} → Headers → SupplierReply A → Reply A
  unfolding authenticate
  provider_read h answer = do name ← authenticate bad_client s.clients h; or_502 answer

  -- `calculate` of the quote; `fresh` is the `uuid4()` of its operation id.
  unfoldable pub quote_request : ℕ → ProviderQuoteIn → ProviderRequest
  unfolding uuid_hex
  quote_request fresh x = record {
    service_id = x.service_id;
    account = x.account;
    params = x.params;
    agent_transaction_id = codes "hub-quote-" ++ uuid_hex fresh;
    amount = none;
  }

  abbrev pub quoted : ProviderQuoteIn → Response → Reply ProviderQuoteOut
  quoted x (provider_error m) = refuse 502 m
  quoted x (answered r) = replies (record {
    provider_code = codes "interhub";
    service_id = x.service_id;
    success = r.success;
    status = r.status;
    message = r.message;
    fixed_amount = r.fixed_amount;
  })

  unfoldable pub provider_quote :
      (ProviderRequest → Response) → ℕ → Headers → ProviderQuoteIn → Reply ProviderQuoteOut
  unfolding authenticate quote_request
  provider_quote calculate fresh h x = do
    name ← authenticate bad_client s.clients h
    quoted x (calculate (quote_request fresh x))
