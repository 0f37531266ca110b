-- ===== src/Hub/Api/Private.antt =====
-- The routes of api/hub/app.py for a purchase of another consumer.
use homtech_hub.Prelude.{
  ℕ, Text, ◌≡◌, refl, sym, subst, ap, ◌∙◌, inl, inr, false, Bool-cases, List, [], Option, none,
  some, strip, text_eq, text_eq_iff, is_empty, if◌then◌else◌, arith,
}
use homtech_hub.Hub.Domain.{Purchase, result_available}
use homtech_hub.Hub.Crypto.{Crypto}
use homtech_hub.Hub.Settings.{Settings}
use homtech_hub.Hub.Repository.Table.{Row, Db, find_row}
use homtech_hub.Hub.Repository.Create.{get}
use homtech_hub.Hub.Repository.Queries.{list_events}
use homtech_hub.Hub.Repository.Reconcile.{read_result}
use homtech_hub.Hub.Api.{
  refuse, check_key, ◌>>=◌, Reply, replies, refuses, crashes, Headers, authenticate, secret_of,
  bad_client, found, purchase_out,
}
use homtech_hub.Hub.Api.Purchases.{
  no_result, read_purchase, read_purchase_events, read_purchase_result, shown_result,
}

check_key-replies :
    (refusal expected key name client : Text)
    → check_key refusal expected key name ≡ replies client
    → (client ≡ name) × (expected ≡ key) × (is_empty key ≡ false)
unfolding check_key
check_key-replies refusal expected key name client e = elim (Bool-cases (text_eq expected key)) [
  | inl same ↦
      let equal = (text_eq_iff expected key).0 same in
      (ground (arith, same, e), equal, ground (arith, equal, e))
  | inr different ↦ absurd (ground (arith, different, e))
]

-- Who is let in has given the key of its name, which is no empty one.
pub authenticate-name :
    (refusal : Text) (entries : List (Text × Text)) (h : Headers) (client : Text)
    → authenticate refusal entries h ≡ replies client
    → (client ≡ strip h.name)
      × (secret_of (strip h.name) entries ≡ strip h.key)
      × (is_empty (strip h.key) ≡ false)
unfolding authenticate
authenticate-name refusal entries h client e =
    check_key-replies refusal (secret_of (strip h.name) entries) (strip h.key) (strip h.name) client
      e

get-foreign :
    (id : ℕ) (consumer : Text) (db : Db) (r : Row)
    → find_row id db.purchases ≡ some r
    → text_eq r.consumer_id consumer ≡ false
    → get id (some consumer) db ≡ none
unfolding get
get-foreign id consumer db r there other = ground (arith, there, other)

none_found :
    (s : Settings) (h : Headers) (id : ℕ) (db : Db) (r : Row)
    → find_row id db.purchases ≡ some r
    → text_eq r.consumer_id (strip h.name) ≡ false
    → (client : Text) → authenticate bad_client s.clients h ≡ replies client
    → (get id (some client) db ≡ none)
      × (get id (some client) (record db { purchases = [] }) ≡ none)
unfolding get
none_found s h id db r there other client e =
    let same = (authenticate-name bad_client s.clients h client e).0 in
    (
      get-foreign id client db r there
          (subst (λ n. text_eq r.consumer_id n ≡ false) (sym same) other),
      refl,
    )

-- What stands behind two searches that find nothing does not matter.
hidden :
    {A : Type 0} (reply : Reply Text) (m m' : Text → Option Purchase)
    (k k' : Text → Purchase → Reply A)
    → ((client : Text) → reply ≡ replies client → (m client ≡ none) × (m' client ≡ none))
    → (reply >>= λ client. found (m client) >>= k client)
      ≡ (reply >>= λ client. found (m' client) >>= k' client)
hidden (replies client) m m' k k' h =
    let (none_here, none_there) = h client refl in
    ap (λ o. found o >>= k client) none_here ∙ sym (ap (λ o. found o >>= k' client) none_there)
hidden (refuses status detail) m m' k k' h = refl
hidden crashes m m' k k' h = refl

abbrev result_of : Crypto → Settings → Db → Text → Purchase → Reply Text
result_of c s db client p =
    if result_available p
    then shown_result (read_result c p.id client s.data_secret db)
    else refuse 409 no_result

module _ (c : Crypto) (providers : List Text) (s : Settings) where
  -- A consumer that asks for a purchase of another one, for its events or for its result, is answered as
  -- if there were no such purchase.
  pub foreign_is_missing :
      (h : Headers) (id : ℕ) (db : Db) (r : Row)
      → find_row id db.purchases ≡ some r
      → text_eq r.consumer_id (strip h.name) ≡ false
      → (read_purchase c providers s h id db
          ≡ read_purchase c providers s h id (record db { purchases = [] }))
        × (read_purchase_events c providers s h id db
            ≡ read_purchase_events c providers s h id (record db { purchases = [] }))
        × (read_purchase_result c providers s h id db
            ≡ read_purchase_result c providers s h id (record db { purchases = [] }))
  unfolding read_purchase read_purchase_events read_purchase_result
  foreign_is_missing h id db r there other =
      let who = authenticate bad_client s.clients h in
      let here = λ (client : Text). get id (some client) db in
      let gone = λ (client : Text). get id (some client) (record db { purchases = [] }) in
      let nothing = none_found s h id db r there other in
      (
        hidden who here gone (λ client p. replies (purchase_out p))
            (λ client p. replies (purchase_out p)) nothing,
        hidden who here gone (λ client p. replies (list_events id client db))
            (λ client p. replies (list_events id client (record db { purchases = [] }))) nothing,
        hidden who here gone (result_of c s db) (result_of c s (record db { purchases = [] }))
            nothing,
      )
