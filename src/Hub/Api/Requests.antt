-- ===== src/Hub/Api/Requests.antt =====
-- The errors of `create_purchase` of api/hub/app.py.
use homtech_hub.Prelude.{
  ℕ, Text, ◌≡◌, refl, subst, ◌⊎◌, inl, inr, Bool, not, Bool-cases, List, strip, text_eq, is_empty,
  if◌then◌else◌, arith,
}
use homtech_hub.Hub.Domain.{Purchase, valid_request_id}
use homtech_hub.Hub.Errors.{Error, Outcome, ok, err}
use homtech_hub.Hub.Crypto.{Crypto}
use homtech_hub.Hub.Settings.{Settings}
use homtech_hub.Hub.Repository.Table.{Db, uuid_text}
use homtech_hub.Hub.Service.Enqueue.{enqueue}
use homtech_hub.Hub.Service.Accepted.{refused_leaves_no_trace}
use homtech_hub.Hub.Api.{
  Reply, replies, refuses, crashes, refuse, Detail, Headers, check_key, authenticate, secret_of,
  bad_client, normalize_request_id,
}
use homtech_hub.Hub.Api.Purchases.{
  PurchaseIn, create_purchase, created_or_refused, is_idempotency_conflict, and_then, enqueue_for,
  request_of,
}

-- The statuses of a refusal of `create_purchase`.
abbrev pub IsRefusal : ℕ → Type 0
IsRefusal status = (status ≡ 401) ⊎ (status ≡ 409) ⊎ (status ≡ 422)

refuses_status {ℓ} :
    {A : Type ℓ} (status status' : ℕ) (detail detail' : Detail)
    → ◌≡◌ {A = Reply A} (refuses status detail) (refuses status' detail')
    → status ≡ status'
refuses_status status status' detail detail' e = ground (arith, e)

and_then-refuses :
    {A B : Type 0} (r : Reply A) (db : Db) (k : A → Reply B × Db) (status : ℕ) (detail : Detail)
    → ((st : ℕ) (d : Detail) → r ≡ refuses st d → IsRefusal st)
    → ((a : A) → (k a).0 ≡ refuses status detail → ((k a).1 ≡ db) × IsRefusal status)
    → (and_then r db k).0 ≡ refuses status detail
    → ((and_then r db k).1 ≡ db) × IsRefusal status
and_then-refuses (replies a) db k status detail first next e = next a e
and_then-refuses (refuses st d) db k status detail first next e =
    (refl, subst IsRefusal (refuses_status st status d detail e) (first st d refl))
and_then-refuses crashes db k status detail first next e = absurd (ground (arith, e))

check_key-refuses :
    (refusal expected key name : Text) (st : ℕ) (d : Detail)
    → check_key refusal expected key name ≡ refuses st d
    → st ≡ 401
unfolding check_key
check_key-refuses refusal expected key name st d e = ground (arith, e)

authenticate-refuses :
    (refusal : Text) (entries : List (Text × Text)) (h : Headers) (st : ℕ) (d : Detail)
    → authenticate refusal entries h ≡ refuses st d
    → st ≡ 401
unfolding authenticate
authenticate-refuses refusal entries h st d e =
    check_key-refuses refusal (secret_of (strip h.name) entries) (strip h.key) (strip h.name) st d e

checked_id :
    (empty same valid : Bool) (fresh value : Text) (m m' : Text) (st : ℕ) (d : Detail)
    → (if empty
        then replies fresh
        else if not same
        then refuse 422 m
        else if not valid
        then refuse 422 m'
        else replies value)
      ≡ refuses st d
    → st ≡ 422
checked_id empty same valid fresh value m m' st d e = ground (arith, e)

normalize_request_id-refuses :
    (fresh : ℕ) (value : Text) (st : ℕ) (d : Detail)
    → normalize_request_id fresh value ≡ refuses st d
    → st ≡ 422
unfolding normalize_request_id
normalize_request_id-refuses fresh value st d e =
    checked_id (is_empty (strip value)) (text_eq (strip value) value)
      (valid_request_id (strip value)) (uuid_text fresh) (strip value) _ _ st d e

created_or_refused-refuses :
    (o : Outcome (Purchase × Bool)) (status : ℕ) (detail : Detail)
    → created_or_refused o ≡ refuses status detail
    → (e : Error) × (o ≡ err e) × IsRefusal status
created_or_refused-refuses (ok (p, is_new)) status detail h = absurd (ground (arith, h))
created_or_refused-refuses (err e) status detail h = (
  e,
  refl,
  elim (Bool-cases (is_idempotency_conflict e)) [
    | inl conflict ↦ inr (inl (ground (arith, conflict, h)))
    | inr other ↦ inr (inr (ground (arith, other, h)))
  ],
)

-- A purchase request that is refused, be it for its key (401), for a conflict (409) or for its content
-- (422), leaves every table as it was, and no other status is a refusal.
pub refused_request :
    (c : Crypto) (providers : List Text) (s : Settings) (now fresh id : ℕ) (h : Headers)
    (header : Text) (p : PurchaseIn) (db : Db) (status : ℕ) (detail : Detail)
    → (create_purchase c providers s now fresh id h header p db).0 ≡ refuses status detail
    → ((create_purchase c providers s now fresh id h header p db).1 ≡ db) × IsRefusal status
unfolding create_purchase
refused_request c providers s now fresh id h header p db status detail =
    and_then-refuses (authenticate bad_client s.clients h) db
      (λ client.
        and_then (normalize_request_id fresh header) db
          (enqueue_for c providers s now id client p db))
      status detail (λ st d e. inl (authenticate-refuses bad_client s.clients h st d e))
      (λ client.
        and_then-refuses (normalize_request_id fresh header) db
          (enqueue_for c providers s now id client p db) status detail
          (λ st d e. inr (inr (normalize_request_id-refuses fresh header st d e)))
          (λ request_id e.
            let (error, raised, refusal) =
              created_or_refused-refuses
                (enqueue c providers s now id (request_of client request_id p) db).0 status detail
                e in
            (
              refused_leaves_no_trace c providers s now id (request_of client request_id p) db error
                  raised,
              refusal,
            )))
