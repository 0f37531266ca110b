-- ===== src/Tests/Samples.antt =====
-- Sample values: a hub with one consumer, one provider and toy cryptography.
use homtech_hub.Prelude.{pos, Text, List, [], ◌∷◌, none, some, true, finite, no_fields, codes}
use homtech_hub.Hub.Domain.{PurchaseRequest, Kind}
use homtech_hub.Hub.Provider.{ProviderState, ProviderResult, Response, answered, provider_error}
use homtech_hub.Hub.Crypto.{Crypto}
use homtech_hub.Hub.Settings.{Settings}

-- The hashes keep their input, and the cipher is the identity under the one secret.
abbrev pub crypto : Crypto
crypto = record {
  sha256 = λ t. t;
  request_digest = λ p. p.account;
  action_digest = λ id decision reason digest. reason;
  encrypt = λ value secret. value;
  decrypt = λ ciphertext secret. some ciphertext;
}

abbrev pub interhub : List Text
interhub = codes "interhub" ∷ []

abbrev pub settings : Settings
settings = record {
  database_url = codes "postgresql://hub";
  clients = [];
  operators = [];
  data_secret = codes "data-secret";
  purchases_enabled = true;
  worker_poll_sec = 5;
  lease_sec = 60;
  max_status_checks = 2;
  stale_after_sec = 900;
  interhub_api_url = codes "https://api";
  interhub_token = codes "token";
  interhub_timeout_sec = 20;
  interhub_ssl_verify = true;
  interhub_ca_cert_path = [];
  interhub_proxy_url = [];
  interhub_calculate_path = codes "/calculate";
  interhub_check_path = codes "/check";
  interhub_pay_path = codes "/pay";
  interhub_check_status_path = codes "/status";
  interhub_deposit_path = codes "/deposit";
  interhub_pay_enabled = true;
  topups_enabled = true;
}

abbrev pub voucher_request : PurchaseRequest
voucher_request = record {
  consumer_id = codes "seller";
  idempotency_key = codes "order-1";
  request_id = codes "req-1";
  provider_code = codes "interhub";
  service_id = pos 7;
  max_amount = none;
  account = codes "acc";
  params = no_fields;
  kind = Kind.voucher;
  requested_amount = none;
  workspace_id = none;
  connection_id = none;
}

-- An answer of the provider, with a price of 12.50.
abbrev pub result : ProviderState → Text → ProviderResult
result state secret = record {
  state = state;
  success = true;
  status = pos 0;
  message = [];
  amount = finite (pos 0) 0;
  fixed_amount = finite (pos 1250) 2;
  provider_transaction_id = codes "t-1";
  secret_value = secret;
  public_payload = no_fields;
}

abbrev pub agreed : Response
agreed = answered (result ProviderState.succeeded [])

abbrev pub delivered : Response
delivered = answered (result ProviderState.succeeded (codes "CODE"))

abbrev pub lost : Response
lost = provider_error (codes "timed out")
