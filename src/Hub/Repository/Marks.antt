-- ===== src/Hub/Repository/Marks.antt =====
-- The leased transitions of api/hub/repository.py: `_transition` and the `mark_*` methods on it.
-- The select takes the row's lock, so the update that follows it meets the same row, and the
-- `RuntimeError` for an update that returns no row cannot be reached.
use homtech_hub.Prelude.{
  ℕ, ◌+◌, ℤ, Text, Bool, true, false, ◌&&◌, ◌||◌, List, [], ◌∷◌, ◌++◌, Option, none, some, Decimal,
  ◌==◌, ltb, if◌then◌else◌, is_empty, truncated, eqb_ℤ, text_eq, le_decimal, any, nan,
}
use homtech_hub.Hub.Domain.{
  PurchaseState, created, checked, payment_started, processing, succeeded, failed,
  requires_attention, Purchase, is_topup,
}
use homtech_hub.Hub.Provider.{ProviderResult}
use homtech_hub.Hub.Errors.{
  Error, Outcome, ok, err, lease_or_state_changed, unique_violation, duplicate_supplier_result,
}
use homtech_hub.Hub.Crypto.{Crypto}
use homtech_hub.Hub.Repository.Table.{
  Row, Db, TopupPermission, EventType, purchase_of, find_row, put_row, clashes, event_of,
}

abbrev pub holds_lease : ℕ → Row → Bool
holds_lease token r = elim r.lease_token [ none ↦ false | some t ↦ t == token ]

-- SELECT state … WHERE id AND lease_token AND state = ANY(allowed) FOR UPDATE
abbrev pub select_leased : ℕ → ℕ → (PurchaseState → Bool) → List Row → Option Row
select_leased id token allowed rows = elim (find_row id rows) [
  | none ↦ none
  | some r ↦ if holds_lease token r && allowed r.state then some r else none
]

-- The row that the update writes; every assignment reads the old row.
abbrev pub written : ℕ → PurchaseState → Text → (Row → Row) → Bool → Row → Row
written now target message assign release r =
    let set = assign r in
    record set {
      purchase = record set.purchase {
        state = target;
        provider_message = truncated message;
        updated_at = now;
      };
      lease_token = if release then none else set.lease_token;
      lease_until = if release then none else set.lease_until;
    }

-- The update and its event, or the violation of the unique index on `result_hash`.
abbrev pub store_transition : Row → Row → Db → Outcome Purchase × Db
store_transition current r' db = if clashes r' db.purchases then (err unique_violation, db) else (
  ok (purchase_of r'),
  record db {
    purchases = put_row r' db.purchases;
    events =
        db.events
        ++ event_of r' EventType.state_changed (some current.state) (some r'.state) none ∷ [];
  },
)

unfoldable pub transition :
    ℕ
    → ℕ
    → ℕ
    → (PurchaseState → Bool)
    → PurchaseState
    → Text
    → (Row → Row)
    → Bool
    → Db
    → Outcome Purchase × Db
transition now id token allowed target message assign release db =
    elim (select_leased id token allowed db.purchases) [
      | none ↦ (err lease_or_state_changed, db)
      | some current ↦
          store_transition current (written now target message assign release current) db
    ]

abbrev pub is_created : PurchaseState → Bool
is_created created = true
is_created _ = false

abbrev pub is_checked : PurchaseState → Bool
is_checked checked = true
is_checked _ = false

-- (PAYMENT_STARTED, PROCESSING)
abbrev pub is_paying : PurchaseState → Bool
is_paying payment_started = true
is_paying processing = true
is_paying _ = false

-- The pause before the next status check, in seconds, by the checks already made.
unfoldable pub backoff : ℕ → ℕ
backoff attempts = if ltb attempts 3 then 60 else if ltb attempts 12 then 300 else 1800

-- `SET status_check_attempts=status_check_attempts + 1` where a status was asked for
abbrev pub counted : Bool → ℕ → ℕ
counted status_check n = if status_check then n + 1 else n

-- The calls of the repository that move a leased purchase.
pub data Mark : Type 0 where
  mark_checked : Option Decimal → ProviderResult → Mark
  mark_preflight_failed : Text → Mark
  mark_payment_started : Mark
  mark_processing : Text → Bool → Mark
  mark_provider_result : ProviderResult → PurchaseState → Text → Text → Text → Bool → Mark
  mark_requires_attention : Text → Mark
  retry_topup_check : Text → Mark

-- The SET lists of the methods.
abbrev pub set_checked : ℕ → Option Decimal → ProviderResult → Row → Row
set_checked now amount result r = record r {
  purchase = record r.purchase {
    amount = amount;
    provider_status = some result.status;
    provider_transaction_id = result.provider_transaction_id;
  };
  provider_response = result.public_payload;
  next_attempt_at = now;
}

abbrev pub set_preflight_failed : ℕ → Text → Row → Row
set_preflight_failed now message r = record r {
  purchase = record r.purchase { last_error = truncated message; completed_at = some now };
}

abbrev pub set_payment_started : ℕ → Row → Row
set_payment_started now r = record r {
  purchase = record r.purchase {
    pay_started_at = elim r.pay_started_at [ none ↦ some now | some t ↦ some t ];
  };
  next_attempt_at = now + 60;
}

abbrev pub set_processing : ℕ → Text → Bool → Row → Row
set_processing now message status_check r = record r {
  purchase = record r.purchase {
    status_check_attempts = counted status_check r.status_check_attempts;
    last_error = truncated message;
  };
  next_attempt_at = now + backoff r.status_check_attempts;
}

abbrev is_processing : PurchaseState → Bool
is_processing processing = true
is_processing _ = false

abbrev is_final : PurchaseState → Bool
is_final succeeded = true
is_final failed = true
is_final _ = false

abbrev pub set_provider_result :
    Crypto → ℕ → ProviderResult → PurchaseState → Text → Text → Text → Bool → Row → Row
set_provider_result c now result state value hash secret status_check r = record r {
  purchase = record r.purchase {
    status_check_attempts = counted status_check r.status_check_attempts;
    provider_status = some result.status;
    provider_transaction_id = result.provider_transaction_id;
    result_ciphertext =
        if is_empty value then r.result_ciphertext else some (c.encrypt value secret);
    result_hash = hash;
    last_error = [];
    completed_at = if is_final state then some now else none;
  };
  provider_response = result.public_payload;
  next_attempt_at = if is_processing state then now + backoff r.status_check_attempts else now;
}

abbrev pub set_requires_attention : Text → Row → Row
set_requires_attention message r = record r {
  purchase = record r.purchase { last_error = truncated message };
}

abbrev pub set_topup_retry : ℕ → Text → Row → Row
set_topup_retry now message r = record r {
  purchase = record r.purchase {
    preflight_attempts = r.preflight_attempts + 1;
    last_error = truncated message;
  };
  next_attempt_at = now + 30;
}

-- `except UniqueViolation` of `mark_provider_result`
abbrev pub renamed : Error → Error
renamed unique_violation = duplicate_supplier_result
renamed e = e

abbrev pub as_duplicate : Outcome Purchase × Db → Outcome Purchase × Db
as_duplicate (ok p, db) = (ok p, db)
as_duplicate (err e, db) = (err (renamed e), db)

unfoldable pub mark : Crypto → ℕ → ℕ → ℕ → Mark → Db → Outcome Purchase × Db
unfolding transition
mark c now id token (mark_checked amount result) db =
    transition now id token is_created checked result.message (set_checked now amount result) true
      db
mark c now id token (mark_preflight_failed message) db =
    transition now id token is_created failed message (set_preflight_failed now message) true db
mark c now id token mark_payment_started db =
    transition now id token is_checked payment_started [] (set_payment_started now) false db
mark c now id token (mark_processing message status_check) db =
    transition now id token is_paying processing message (set_processing now message status_check)
      true db
mark c now id token (mark_provider_result result state value hash secret status_check) db =
    as_duplicate (
      transition now id token is_paying state result.message
        (set_provider_result c now result state value hash secret status_check) true db)
mark c now id token (mark_requires_attention message) db =
    transition now id token is_paying requires_attention message (set_requires_attention message)
      true db
mark c now id token (retry_topup_check message) db =
    transition now id token is_created created message (set_topup_retry now message) true db

abbrev pub deferred : ℕ → Row → Row
deferred now r = record r { lease_token = none; lease_until = none; next_attempt_at = now + 60 }

-- UPDATE … SET lease_token=NULL … WHERE id AND lease_token AND kind='steam_topup' AND state IN (…)
unfoldable pub defer_topup : ℕ → ℕ → ℕ → Db → Db
defer_topup now id token db = elim (find_row id db.purchases) [
  | none ↦ db
  | some r ↦
      if holds_lease token r && is_topup r.kind && (is_created r.state || is_checked r.state)
      then record db { purchases = put_row (deferred now r) db.purchases }
      else db
]

-- The columns of a request or a purchase that `topup_allowed` reads.
pub record TopupScope : Type 0 where
  pub consumer_id : Text
  pub workspace_id : Option ℤ
  pub requested_amount : Option Decimal

-- SQL's `a <= b`, which is not true where either is NULL; NaN is above every number.
abbrev fits : Option Decimal → Decimal → Bool
fits none _ = false
fits (some a) nan = true
fits (some a) b = elim (le_decimal a b) [ none ↦ false | some t ↦ t ]

abbrev permits : TopupScope → TopupPermission → Bool
permits s p =
    text_eq p.consumer_id s.consumer_id
    && elim s.workspace_id [ none ↦ false | some w ↦ eqb_ℤ p.workspace_id w ]
    && p.enabled
    && fits s.requested_amount p.max_amount

unfoldable pub topup_allowed : TopupScope → Db → Bool
unfolding any
topup_allowed scope db = any (permits scope) db.permissions
