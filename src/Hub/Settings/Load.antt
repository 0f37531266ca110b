-- ===== src/Hub/Settings/Load.antt =====
-- api/hub/config.py: `env_bool`, `env_int`, `parse_clients` and `load_settings`. `getenv` is the
-- environment, `loads` is `json.loads` with its error as `none`, and `show` is `str` of a JSON value.
use homtech_hub.Prelude.{
  ℕ, ◌≤◌, ◌≡◌, Text, Bool, true, false, List, [], ◌∷◌, Option, none, some, ℤ, pos, negsuc, ltb,
  is_empty, any, map, lower, strip, codes, text_eq, parse_int, Json, object, Fields, no_fields,
  field, if◌then◌else◌, arith, Option-cases, inl, inr,
}
use homtech_hub.Hub.Settings.{Settings, live_pay_allowed}

-- `max(minimum, min(value, maximum))`
unfoldable pub clamped : ℕ → ℕ → ℤ → ℕ
clamped minimum maximum (pos n) =
    let m = if ltb maximum n then maximum else n in if ltb m minimum then minimum else m
clamped minimum maximum (negsuc n) = minimum

abbrev pub yes_words : List Text
yes_words = codes "1" ∷ codes "true" ∷ codes "yes" ∷ codes "on" ∷ []

unfoldable pub is_yes : Text → Bool
unfolding any strip lower
is_yes value = any (text_eq (map lower (strip value))) yes_words

-- A later entry of the same key takes the place of an earlier one.
unfoldable pub put_client : Text → Text → List (Text × Text) → List (Text × Text)
put_client id secret [] = (id, secret) ∷ []
put_client id secret ((k, v) ∷ clients) =
    let rest = put_client id secret clients in
    if text_eq k id then (k, secret) ∷ clients else (k, v) ∷ rest

module _ (getenv : Text → Option Text) (loads : Text → Option Json) (show : Json → Text) where
  unfoldable pub env_bool : Text → Bool → Bool
  unfolding is_yes
  env_bool name default = elim (getenv name) [ none ↦ default | some value ↦ is_yes value ]

  abbrev pub int_or : ℕ → Text → ℤ
  int_or default value = elim (parse_int value) [ none ↦ pos default | some n ↦ n ]

  unfoldable pub env_int : Text → ℕ → ℕ → ℕ → ℕ
  unfolding clamped parse_int
  env_int name default minimum maximum =
      clamped minimum maximum
        (elim (getenv name) [ none ↦ pos default | some value ↦ int_or default value ])

  -- `os.getenv(name, default).strip()`
  unfoldable pub env_text : Text → Text → Text
  unfolding strip
  env_text name default = strip (elim (getenv name) [ none ↦ default | some value ↦ value ])

  unfoldable pub clients_of : List (Text × Text) → Fields → List (Text × Text)
  unfolding strip put_client
  clients_of clients no_fields = clients
  clients_of clients (field key secret fs) =
      clients_of
        (if is_empty (strip key)
          then clients
          else put_client (strip key) (strip (show secret)) clients)
        fs

  unfoldable pub parse_clients : Text → List (Text × Text)
  unfolding strip clients_of
  parse_clients raw =
      if is_empty (strip raw)
      then []
      else elim (loads raw) [ some (object fs) ↦ clients_of [] fs | _ ↦ [] ]

  abbrev pub env_clients : Text → List (Text × Text)
  env_clients name = parse_clients (elim (getenv name) [ none ↦ [] | some raw ↦ raw ])

  unfoldable pub load_settings : Settings
  unfolding env_bool env_int env_text parse_clients
  load_settings = record {
    database_url = env_text (codes "DATABASE_URL") [];
    clients = env_clients (codes "SUPPLIER_HUB_CLIENTS_JSON");
    operators = env_clients (codes "SUPPLIER_HUB_OPERATORS_JSON");
    data_secret = env_text (codes "SUPPLIER_HUB_DATA_SECRET") [];
    purchases_enabled = env_bool (codes "SUPPLIER_HUB_PURCHASES_ENABLED") false;
    worker_poll_sec = env_int (codes "SUPPLIER_HUB_WORKER_POLL_SEC") 5 1 300;
    lease_sec = env_int (codes "SUPPLIER_HUB_LEASE_SEC") 60 15 900;
    max_status_checks = env_int (codes "SUPPLIER_HUB_MAX_STATUS_CHECKS") 120 1 10000;
    stale_after_sec = env_int (codes "SUPPLIER_HUB_STALE_AFTER_SEC") 900 60 86400;
    interhub_api_url = env_text (codes "INTERHUB_API_URL") (codes "https://api.interhub.ae");
    interhub_token = env_text (codes "INTERHUB_TOKEN") [];
    interhub_timeout_sec = env_int (codes "INTERHUB_TIMEOUT_SEC") 20 5 120;
    interhub_ssl_verify = env_bool (codes "INTERHUB_SSL_VERIFY") true;
    interhub_ca_cert_path = env_text (codes "INTERHUB_CA_CERT_PATH") [];
    interhub_proxy_url = env_text (codes "INTERHUB_PROXY_URL") [];
    interhub_calculate_path =
        env_text (codes "INTERHUB_CALCULATE_PATH") (codes "/api/agent/payment/check/calculate");
    interhub_check_path = env_text (codes "INTERHUB_CHECK_PATH") (codes "/api/agent/payment/check");
    interhub_pay_path = env_text (codes "INTERHUB_PAY_PATH") (codes "/api/agent/payment/pay");
    interhub_check_status_path =
        env_text (codes "INTERHUB_CHECK_STATUS_PATH") (codes "/api/agent/payment/check_status");
    interhub_deposit_path = env_text (codes "INTERHUB_DEPOSIT_PATH") (codes "/api/agent/deposit");
    interhub_pay_enabled = env_bool (codes "INTERHUB_PAY_ENABLED") false;
    topups_enabled = env_bool (codes "INTERHUB_TOPUPS_ENABLED") false;
  }

clamped_within :
    (minimum maximum : ℕ) (z : ℤ)
    → minimum ≤ maximum
    → (minimum ≤ clamped minimum maximum z) × (clamped minimum maximum z ≤ maximum)
unfolding clamped
clamped_within minimum maximum (pos n) h = ground arith
clamped_within minimum maximum (negsuc n) h = (omega arith, h)

module _ (getenv : Text → Option Text) (loads : Text → Option Json) (show : Json → Text) where
  env_int_within :
      (name : Text) (default minimum maximum : ℕ)
      → minimum ≤ maximum
      → (minimum ≤ env_int getenv loads show name default minimum maximum)
        × (env_int getenv loads show name default minimum maximum ≤ maximum)
  unfolding env_int
  env_int_within name default minimum maximum h =
      clamped_within minimum maximum
        (elim (getenv name) as (λ _. ℤ) [
          | none ↦ pos default
          | some value ↦ int_or getenv loads show default value
        ])
        h

  -- Whatever the environment holds, the settings keep their limits: a poll of 1 to 300 seconds, a lease of
  -- 15 to 900 seconds, 1 to 10000 status checks and a supplier timeout of 5 to 120 seconds.
  pub settings_are_bounded :
      ((1 ≤ (load_settings getenv loads show).worker_poll_sec)
        × ((load_settings getenv loads show).worker_poll_sec ≤ 300))
      × ((15 ≤ (load_settings getenv loads show).lease_sec)
          × ((load_settings getenv loads show).lease_sec ≤ 900))
      × ((1 ≤ (load_settings getenv loads show).max_status_checks)
          × ((load_settings getenv loads show).max_status_checks ≤ 10000))
      × ((5 ≤ (load_settings getenv loads show).interhub_timeout_sec)
          × ((load_settings getenv loads show).interhub_timeout_sec ≤ 120))
  unfolding load_settings
  settings_are_bounded = (
    env_int_within (codes "SUPPLIER_HUB_WORKER_POLL_SEC") 5 1 300 (omega arith),
    env_int_within (codes "SUPPLIER_HUB_LEASE_SEC") 60 15 900 (omega arith),
    env_int_within (codes "SUPPLIER_HUB_MAX_STATUS_CHECKS") 120 1 10000 (omega arith),
    env_int_within (codes "INTERHUB_TIMEOUT_SEC") 20 5 120 (omega arith),
  )

  -- Unless the environment switches both purchases and the supplier's payments on, no live payment is
  -- allowed.
  pub live_pay_is_switched_on :
      live_pay_allowed (load_settings getenv loads show) ≡ true
      → (value : Text) × (getenv (codes "SUPPLIER_HUB_PURCHASES_ENABLED") ≡ some value)
        × (is_yes value ≡ true)
        × (other : Text) × (getenv (codes "INTERHUB_PAY_ENABLED") ≡ some other)
        × (is_yes other ≡ true)
  unfolding load_settings live_pay_allowed
  live_pay_is_switched_on h =
      elim (Option-cases (getenv (codes "SUPPLIER_HUB_PURCHASES_ENABLED"))) [
        | inl unset ↦ ground (arith, unset, h)
        | inr (value, set) ↦ elim (Option-cases (getenv (codes "INTERHUB_PAY_ENABLED"))) [
          | inl unset ↦ ground (arith, unset, set, h)
          | inr (other, set') ↦
              (value, set, ground (arith, set, set', h), other, set', ground (arith, set, set', h))
        ]
      ]
