-- ===== src/Hub/Repository/Table.antt =====
-- The tables of migrations/*.sql that api/hub/repository.py reads and writes. `find_row` and
-- `put_row` are a select and an update by the primary key.
use homtech_hub.Prelude.{
  ℕ, zero, suc, ◌+◌, ◌-◌, ◌/◌, ◌%◌, ℤ, Text, Bool, ◌≡◌, not, ◌&&◌, List, [], ◌∷◌, ◌++◌, Option,
  none, some, Decimal, Fields, ◌==◌, ltb, if◌then◌else◌, text_eq, is_empty, or_else, any, take,
  drop, total, arith,
}
use homtech_hub.Hub.Domain.{PurchaseState, Purchase}
use homtech_hub.Hub.Crypto.{Decision}

-- A row of `purchases`: what `_purchase` reads, and the columns that stay in the database.
pub record Row : Type 0 where
  pub purchase : Purchase
  pub open purchase use *
  pub provider_response : Fields
  pub next_attempt_at : ℕ
  pub lease_token : Option ℕ
  pub lease_until : Option ℕ

pub data EventType : Type 0 where
  created state_changed operator_reconciled : EventType

pub record Details : Type 0 where
  pub operator_id : Text
  pub operator_request_id : Text
  pub decision : Decision

pub record Event : Type 0 where
  pub purchase_id : ℕ
  pub request_id : Text
  pub event_type : EventType
  pub from_state : Option PurchaseState
  pub to_state : Option PurchaseState
  pub details : Option Details

pub record OperatorAction : Type 0 where
  pub purchase_id : ℕ
  pub operator_id : Text
  pub request_id : Text
  pub action_fingerprint : Text
  pub decision : Decision
  pub reason : Text
  pub result_hash : Text

pub record ResultAccess : Type 0 where
  pub purchase_id : ℕ
  pub operator_id : Text
  pub request_id : Text

pub record TopupPermission : Type 0 where
  pub consumer_id : Text
  pub workspace_id : ℤ
  pub enabled : Bool
  pub max_amount : Decimal

pub record Db : Type 0 where
  pub purchases : List Row
  pub events : List Event
  pub actions : List OperatorAction
  pub accesses : List ResultAccess
  pub permissions : List TopupPermission

hex_digit : ℕ → ℕ
hex_digit d = if ltb d 10 then b'0' + d else b'a' + d - 10

pub hex_digits : ℕ → ℕ → Text
unfolding hex_digit
hex_digits zero n = []
hex_digits (suc k) n = hex_digits k (n / 16) ++ hex_digit (n % 16) ∷ []

-- `UUID.hex`
unfoldable pub uuid_hex : ℕ → Text
unfolding hex_digits
uuid_hex id = hex_digits 32 id

-- `str(UUID)`
unfoldable pub uuid_text : ℕ → Text
unfolding uuid_hex take drop
uuid_text id =
    let h = uuid_hex id in
    let dash = b'-' ∷ [] in
    take 8 h
    ++ (dash
        ++ (take 4 (drop 8 h)
            ++ (dash
                ++ (take 4 (drop 12 h) ++ (dash ++ (take 4 (drop 16 h) ++ (dash ++ drop 20 h)))))))

-- `_purchase`: the columns are typed and not null by the schema, so only the fallback is left.
unfoldable pub purchase_of : Row → Purchase
purchase_of r = record r.purchase { request_id = or_else r.request_id (uuid_text r.id) }

abbrev pub find_row : ℕ → List Row → Option Row
find_row id [] = none
find_row id (r ∷ rows) = if r.id == id then some r else find_row id rows

abbrev pub put_row : Row → List Row → List Row
put_row r' [] = []
put_row r' (r ∷ rows) = if r.id == r'.id then r' ∷ rows else r ∷ put_row r' rows

-- The partial unique index on `result_hash`, and what an update to `r` would violate.
unfoldable pub clashes : Row → List Row → Bool
unfolding any
clashes r rows =
    not (is_empty r.result_hash)
    && any (λ (o : Row). not (o.id == r.id) && text_eq o.result_hash r.result_hash) rows

-- `_event`: the insert selects the request id of the purchase.
unfoldable pub event_of :
    Row → EventType → Option PurchaseState → Option PurchaseState → Option Details → Event
event_of r kind old new details = record {
  purchase_id = r.id;
  request_id = r.request_id;
  event_type = kind;
  from_state = old;
  to_state = new;
  details = details;
}

-- A select by key finds what an update by that key wrote, and nothing else has changed.
pub find_row-put_row :
    (id : ℕ) (r' : Row) (rows : List Row)
    → find_row id (put_row r' rows) ≡ (
        if r'.id == id
        then (elim (find_row id rows) [ none ↦ none | some _ ↦ some r' ])
        else find_row id rows)
find_row-put_row id r' [] = ground arith
find_row-put_row id r' (r ∷ rows) = ground (arith, find_row-put_row id r' rows)

pub find_row-id : (id : ℕ) (rows : List Row) (r : Row) → find_row id rows ≡ some r → r.id ≡ id
find_row-id id [] r h = ground arith
find_row-id id (x ∷ rows) r h = ground (arith, find_row-id id rows r)

-- An update moves a sum over the table by what the row's own share moves.
pub total-put_row :
    (f : Row → ℕ) (r' r : Row) (rows : List Row)
    → find_row r'.id rows ≡ some r
    → total f (put_row r' rows) + f r ≡ total f rows + f r'
total-put_row f r' r [] h = ground arith
total-put_row f r' r (x ∷ rows) h = ground (arith, total-put_row f r' r rows)
