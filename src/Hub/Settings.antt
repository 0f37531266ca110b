-- ===== src/Hub/Settings.antt =====
-- api/hub/config.py: `Settings` and what it derives.
pub mod Load
use homtech_hub.Prelude.{
  ℕ, Text, Bool, true, false, ◌&&◌, ◌||◌, List, [], ◌∷◌, ◌++◌, length, ltb, is_empty, any,
}

-- The dictionaries are association lists.
pub record Settings : Type 0 where
  pub database_url : Text
  pub clients : List (Text × Text)
  pub operators : List (Text × Text)
  pub data_secret : Text
  pub purchases_enabled : Bool
  pub worker_poll_sec : ℕ
  pub lease_sec : ℕ
  pub max_status_checks : ℕ
  pub stale_after_sec : ℕ
  pub interhub_api_url : Text
  pub interhub_token : Text
  pub interhub_timeout_sec : ℕ
  pub interhub_ssl_verify : Bool
  pub interhub_ca_cert_path : Text
  pub interhub_proxy_url : Text
  pub interhub_calculate_path : Text
  pub interhub_check_path : Text
  pub interhub_pay_path : Text
  pub interhub_check_status_path : Text
  pub interhub_deposit_path : Text
  pub interhub_pay_enabled : Bool
  pub topups_enabled : Bool

unfoldable pub live_pay_allowed : Settings → Bool
live_pay_allowed s = s.purchases_enabled && s.interhub_pay_enabled

pub data ReadinessError : Type 0 where
  no_database short_data_secret no_clients weak_client no_operators weak_operator : ReadinessError
  no_interhub : ReadinessError

abbrev pub error_if : Bool → ReadinessError → List ReadinessError
error_if true e = e ∷ []
error_if false e = []

abbrev no_entries : List (Text × Text) → Bool
no_entries [] = true
no_entries (_ ∷ _) = false

-- an empty id, or a secret of fewer than 32 characters
abbrev pub is_weak : Text × Text → Bool
is_weak (id, secret) = is_empty id || ltb (length secret) 32

unfoldable pub readiness_errors : Settings → List ReadinessError
unfolding any live_pay_allowed
readiness_errors s =
    error_if (is_empty s.database_url) no_database
    ++ (error_if (ltb (length s.data_secret) 32) short_data_secret
        ++ (error_if (no_entries s.clients) no_clients
            ++ (error_if (any is_weak s.clients) weak_client
                ++ (error_if (no_entries s.operators) no_operators
                    ++ (error_if (any is_weak s.operators) weak_operator
                        ++ error_if
                            (live_pay_allowed s
                              && (is_empty s.interhub_api_url || is_empty s.interhub_token))
                            no_interhub)))))
