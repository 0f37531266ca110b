-- ===== src/Hub/Service/Accepted.antt =====
-- What `PurchaseService.enqueue` of api/hub/service.py accepts.
use homtech_hub.Prelude.{
  ℕ, pos, Text, ◌≡◌, refl, Bool, true, false, ◌||◌, Bool-cases, inl, inr, List, arith, any, text_eq,
  leb_ℤ, is_empty, strip, length, ltb, ◌⊎◌,
}
use homtech_hub.Hub.Domain.{
  Purchase, PurchaseRequest, Kind, steam_topup, is_topup, is_voucher, valid_request_id,
}
use homtech_hub.Hub.Crypto.{Crypto}
use homtech_hub.Hub.Errors.{Error, Outcome, ok, err}
use homtech_hub.Hub.Settings.{Settings}
use homtech_hub.Hub.Repository.Table.{Db}
use homtech_hub.Hub.Repository.Marks.{topup_allowed}
use homtech_hub.Hub.Repository.Create.{create_or_get}
use homtech_hub.Hub.Repository.Created.{create_or_get-cases}
use homtech_hub.Hub.Service.Enqueue.{
  request_fingerprint, max_amount_is_bad, amount_is_bad, topup_is_bad, scope_of, check_kind,
  validate, enqueue_checked, enqueue,
}

-- What the checks promise of a request.
pub record IsAcceptable (providers : List Text) (s : Settings) (r : PurchaseRequest) (db : Db)
    : Type 0 where
  pub known_provider : any (text_eq r.provider_code) providers ≡ true
  pub positive_service : leb_ℤ r.service_id (pos 0) ≡ false
  pub limit : max_amount_is_bad r.max_amount ≡ ok false
  pub key : is_empty (strip r.idempotency_key) || ltb 200 (length r.idempotency_key) ≡ false
  pub request_id : valid_request_id r.request_id ≡ true
  pub known_kind : is_voucher r.kind || is_topup r.kind ≡ true
  pub topup :
      (is_topup r.kind ≡ false)
      ⊎ ((topup_is_bad r ≡ false)
          × (amount_is_bad r.requested_amount ≡ ok false)
          × (s.topups_enabled ≡ true)
          × (topup_allowed (scope_of r.consumer_id r.workspace_id r.requested_amount) db ≡ true))

topup_checks :
    (s : Settings) (r : PurchaseRequest) (db : Db) (u : Unit {0})
    → check_kind s r steam_topup db ≡ ok u
    → (topup_is_bad r ≡ false)
      × (amount_is_bad r.requested_amount ≡ ok false)
      × (s.topups_enabled ≡ true)
      × (topup_allowed (scope_of r.consumer_id r.workspace_id r.requested_amount) db ≡ true)
unfolding check_kind
topup_checks s r db u h = (ground arith, ground arith, ground arith, ground arith)

kind_checks :
    (s : Settings) (r : PurchaseRequest) (kind : Kind) (db : Db) (u : Unit {0})
    → check_kind s r kind db ≡ ok u
    → is_voucher kind || is_topup kind ≡ true
unfolding check_kind
kind_checks s r kind db u h = ground arith

validate-IsAcceptable :
    (providers : List Text) (s : Settings) (r : PurchaseRequest) (db : Db) (u : Unit {0})
    → validate providers s r db ≡ ok u
    → IsAcceptable providers s r db
unfolding validate
validate-IsAcceptable providers s r db u h = record {
  known_provider = ground arith;
  positive_service = ground arith;
  limit = ground arith;
  key = ground arith;
  request_id = ground arith;
  known_kind = kind_checks s r r.kind db u (ground arith);
  topup = elim (Bool-cases (is_topup r.kind)) [
    | inl is ↦ inr (topup_checks s r db u (ground (arith, is)))
    | inr other ↦ inl other
  ];
}

-- A request that `enqueue` accepts has passed every check: its provider is configured, its ids and key
-- are well formed, and a top-up is permitted for its workspace and amount.
pub enqueue-IsAcceptable :
    (c : Crypto) (providers : List Text) (s : Settings) (now id : ℕ) (r : PurchaseRequest) (db : Db)
    (p : Purchase) (b : Bool)
    → (enqueue c providers s now id r db).0 ≡ ok (p, b)
    → IsAcceptable providers s r db
unfolding enqueue
enqueue-IsAcceptable c providers s now id r db p b =
    go (validate providers s r db) (validate-IsAcceptable providers s r db)
  where
    go :
        (checks : Outcome (Unit {0}))
        → ((u : Unit {0}) → checks ≡ ok u → IsAcceptable providers s r db)
        → (enqueue_checked c now id r db checks).0 ≡ ok (p, b)
        → IsAcceptable providers s r db
    go (ok u) valid h = valid u refl
    go (err e) valid h = ground arith

refused_create :
    (now id : ℕ) (r : PurchaseRequest) (fingerprint : Text) (db : Db) (e : Error)
    → (create_or_get now id r fingerprint db).0 ≡ err e
    → (create_or_get now id r fingerprint db).1 ≡ db
refused_create now id r fingerprint db e h = elim (create_or_get-cases now id r fingerprint db) [
  | inl same ↦ same
  | inr (new, free, done) ↦ ground arith
]

-- A request that `enqueue` refuses, for whatever reason, leaves every table as it was.
pub refused_leaves_no_trace :
    (c : Crypto) (providers : List Text) (s : Settings) (now id : ℕ) (r : PurchaseRequest) (db : Db)
    (e : Error)
    → (enqueue c providers s now id r db).0 ≡ err e
    → (enqueue c providers s now id r db).1 ≡ db
unfolding enqueue
refused_leaves_no_trace c providers s now id r db e = go (validate providers s r db)
  where
    go :
        (checks : Outcome (Unit {0}))
        → (enqueue_checked c now id r db checks).0 ≡ err e
        → (enqueue_checked c now id r db checks).1 ≡ db
    go (ok u) h = refused_create now id r (request_fingerprint c r) db e h
    go (err e') h = refl
