-- ===== src/Tests/Answers.antt =====
-- Answers of InterHub.
use homtech_hub.Prelude.{
  ◌≡◌, refl, true, pos, some, Json, object, string, boolean, integer, field, no_fields, Fields,
  codes, text_eq, strip, get_field, [],
}
use homtech_hub.Hub.Provider.{ProviderResult}
use homtech_hub.Hub.InterHub.{normalize, extract_secret, first_code, status_of, normalized}
use homtech_hub.Hub.InterHub.Redaction.{
  redact_payload, redact_fields, IsClean, redact_payload-IsClean,
}
use homtech_hub.Hub.InterHub.Answers.{Answer}

abbrev reply_fields : Fields
reply_fields = field (codes "success") (boolean true) (
    field (codes "status") (integer (pos 0)) (
      field (codes "params") (object (field (codes "pin") (string (codes "1234")) no_fields))
        no_fields))

abbrev reply : Json
reply = object reply_fields

abbrev normal : ProviderResult
normal = normalized (λ v. []) reply_fields (redact_fields reply_fields) (pos 0)

reply_is_normal : normalize (λ v. []) reply ≡ some normal
unfolding normalize status_of codes text_eq get_field
reply_is_normal = refl

reply_has_code : normal.secret_value ≡ codes "1234"
unfolding codes text_eq extract_secret first_code strip get_field
reply_has_code = refl

-- An answer with a code, and its fields in another order than the adapter reads them.
abbrev delivered : Answer
delivered = record {
  success = true;
  status = pos 0;
  message = codes "ok";
  amount = pos 10;
  fixed_amount = pos 9;
  transaction_id = codes "t-1";
  code = codes "1234";
}

abbrev delivered_params : Fields
delivered_params = field (codes "gift_code") (string (codes "1234")) no_fields

abbrev delivered_fields : Fields
delivered_fields = field (codes "params") (object delivered_params) (
    field (codes "balance") (integer (pos 5)) (
      field (codes "transaction_id") (string (codes "t-1")) (
        field (codes "fixed_amount") (integer (pos 9)) (
          field (codes "amount") (integer (pos 10)) (
            field (codes "message") (string (codes "ok")) (
              field (codes "status") (integer (pos 0))
                (field (codes "success") (boolean true) no_fields)))))))

redact_payload-IsClean_example :
    IsClean (redact_payload reply) × (redact_payload (redact_payload reply) ≡ redact_payload reply)
redact_payload-IsClean_example = redact_payload-IsClean reply
