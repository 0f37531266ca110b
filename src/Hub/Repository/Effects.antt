-- ===== src/Hub/Repository/Effects.antt =====
-- What a leased transition of api/hub/repository.py can do: refuse and change nothing, or move the
-- one purchase that it names.
use homtech_hub.Prelude.{
  ℕ, Text, ◌≡◌, Bool, true, false, ◌&&◌, ◌||◌, ◌⊎◌, inl, inr, [], ◌∷◌, ◌++◌, none, some,
  Option-cases, Bool-cases, arith,
}
use homtech_hub.Hub.Repository.Claim.{leased, candidate, claim_due}
use homtech_hub.Hub.Domain.{
  is_topup, PurchaseState, checked, payment_started, processing, failed, created,
  requires_attention, Purchase,
}
use homtech_hub.Hub.Errors.{Error, Outcome, ok, err, lease_or_state_changed, unique_violation}
use homtech_hub.Hub.Crypto.{Crypto}
use homtech_hub.Hub.Repository.Table.{
  Row, Db, EventType, purchase_of, find_row, put_row, clashes, event_of,
}
use homtech_hub.Hub.Repository.Marks.{
  holds_lease, written, transition, is_created, is_checked, is_paying, Mark, mark_checked,
  mark_preflight_failed, mark_payment_started, mark_processing, mark_provider_result,
  mark_requires_attention, retry_topup_check, set_checked, set_preflight_failed,
  set_payment_started, set_processing, set_provider_result, set_requires_attention, set_topup_retry,
  renamed, as_duplicate, mark, deferred, defer_topup,
}

-- The states that a call starts from, and the one that it leads to.
abbrev pub starts_in : Mark → PurchaseState → Bool
starts_in (mark_checked _ _) = is_created
starts_in (mark_preflight_failed _) = is_created
starts_in mark_payment_started = is_checked
starts_in (mark_processing _ _) = is_paying
starts_in (mark_provider_result _ _ _ _ _ _) = is_paying
starts_in (mark_requires_attention _) = is_paying
starts_in (retry_topup_check _) = is_created

abbrev pub leads_to : Mark → PurchaseState
leads_to (mark_checked _ _) = checked
leads_to (mark_preflight_failed _) = failed
leads_to mark_payment_started = payment_started
leads_to (mark_processing _ _) = processing
leads_to (mark_provider_result _ state _ _ _ _) = state
leads_to (mark_requires_attention _) = requires_attention
leads_to (retry_topup_check _) = created

-- The row after the call.
abbrev pub row_after : Crypto → ℕ → Mark → Row → Row
row_after c now (mark_checked amount r) =
    written now checked r.message (set_checked now amount r) true
row_after c now (mark_preflight_failed message) =
    written now failed message (set_preflight_failed now message) true
row_after c now mark_payment_started =
    written now payment_started [] (set_payment_started now) false
row_after c now (mark_processing message counts) =
    written now processing message (set_processing now message counts) true
row_after c now (mark_provider_result r state value hash secret counts) =
    written now state r.message (set_provider_result c now r state value hash secret counts) true
row_after c now (mark_requires_attention message) =
    written now requires_attention message (set_requires_attention message) true
row_after c now (retry_topup_check message) =
    written now created message (set_topup_retry now message) true

-- The tables after a row has moved.
abbrev pub moved : Row → Row → Db → Db
moved r r' db = record db {
  purchases = put_row r' db.purchases;
  events =
      db.events ++ event_of r' EventType.state_changed (some r.state) (some r'.state) none ∷ [];
}

-- What a call may come to.
abbrev pub Effect :
    ℕ → ℕ → (PurchaseState → Bool) → (Row → Row) → Db → Outcome Purchase × Db → Type 0
Effect id token allowed after db result =
    ((e : Error) × (result ≡ (err e, db)))
    ⊎ ((r : Row) × (find_row id db.purchases ≡ some r)
        × (holds_lease token r ≡ true)
        × (allowed r.state ≡ true)
        × (clashes (after r) db.purchases ≡ false)
        × (result ≡ (ok (purchase_of (after r)), moved r (after r) db)))

pub transition-Effect :
    (now id token : ℕ) (allowed : PurchaseState → Bool) (target : PurchaseState) (message : Text)
    (assign : Row → Row) (release : Bool) (db : Db)
    → Effect id token allowed
        (written now target message assign release)
        db
        (transition now id token allowed target message assign release db)
unfolding transition
transition-Effect now id token allowed target message assign release db =
    elim (Option-cases (find_row id db.purchases)) [
      | inl missing ↦ inl (lease_or_state_changed, ground arith)
      | inr (r, found) ↦ elim (Bool-cases (holds_lease token r && allowed r.state)) [
        | inl held ↦
            elim (Bool-cases (clashes (written now target message assign release r) db.purchases)) [
              | inl clash ↦ inl (unique_violation, ground arith)
              | inr free ↦ inr (r, found, ground arith, ground arith, free, ground arith)
            ]
        | inr not_held ↦ inl (lease_or_state_changed, ground arith)
      ]
    ]

as_duplicate-Effect :
    (id token : ℕ) (allowed : PurchaseState → Bool) (after : Row → Row) (db : Db)
    (result : Outcome Purchase × Db)
    → Effect id token allowed after db result
    → Effect id token allowed after db (as_duplicate result)
as_duplicate-Effect id token allowed after db (ok p, db') (inl (e, h)) = cc
as_duplicate-Effect id token allowed after db (err x, db') (inl (e, h)) =
    inl (renamed x, ground arith)
as_duplicate-Effect id token allowed after db (ok p, db') (inr (r, found, held, from, free, h)) =
    inr (r, found, held, from, free, h)
as_duplicate-Effect id token allowed after db (err x, db') (inr (r, found, held, from, free, h)) =
    cc

-- Every call refuses and changes nothing, or it moves the purchase that it names, under its lease, from
-- an allowed state to its target.
pub mark-Effect :
    (c : Crypto) (now id token : ℕ) (m : Mark) (db : Db)
    → Effect id token (starts_in m) (row_after c now m) db (mark c now id token m db)
unfolding mark
mark-Effect c now id token (mark_checked amount r) db =
    transition-Effect now id token is_created checked r.message (set_checked now amount r) true db
mark-Effect c now id token (mark_preflight_failed message) db =
    transition-Effect now id token is_created failed message (set_preflight_failed now message) true
      db
mark-Effect c now id token mark_payment_started db =
    transition-Effect now id token is_checked payment_started [] (set_payment_started now) false db
mark-Effect c now id token (mark_processing message counts) db =
    transition-Effect now id token is_paying processing message (set_processing now message counts)
      true db
mark-Effect c now id token (mark_provider_result r state value hash secret counts) db =
    as_duplicate-Effect id token is_paying _ db _ (
      transition-Effect now id token is_paying state r.message
        (set_provider_result c now r state value hash secret counts) true db)
mark-Effect c now id token (mark_requires_attention message) db =
    transition-Effect now id token is_paying requires_attention message
      (set_requires_attention message) true db
mark-Effect c now id token (retry_topup_check message) db =
    transition-Effect now id token is_created created message (set_topup_retry now message) true db

-- A deferral, a claim and a decision likewise: nothing changes, or one row is put.
pub defer_topup-cases :
    (now id token : ℕ) (db : Db)
    → (defer_topup now id token db ≡ db)
      ⊎ ((r : Row) × (find_row id db.purchases ≡ some r)
          × (defer_topup now id token db
              ≡ record db { purchases = put_row (deferred now r) db.purchases }))
unfolding defer_topup
defer_topup-cases now id token db = elim (Option-cases (find_row id db.purchases)) [
  | inl missing ↦ inl (ground arith)
  | inr (r, found) ↦
      elim (Bool-cases
        (holds_lease token r && is_topup r.kind && (is_created r.state || is_checked r.state))) [
          | inl deferrable ↦ inr (r, found, ground arith)
          | inr other ↦ inl (ground arith)
        ]
]

pub claim_due-cases :
    (now token lease_sec : ℕ) (db : Db)
    → ((claim_due now token lease_sec db).1 ≡ db)
      ⊎ ((id : ℕ) × (r : Row) × (find_row id db.purchases ≡ some r)
          × ((claim_due now token lease_sec db).1
              ≡ record db { purchases = put_row (leased now token lease_sec r) db.purchases }))
unfolding claim_due
claim_due-cases now token lease_sec db = elim (Option-cases (candidate now db.purchases)) [
  | inl idle ↦ inl (ground arith)
  | inr (due, chosen) ↦ elim (Option-cases (find_row due.id db.purchases)) [
    | inl missing ↦ inl (ground arith)
    | inr (r, found) ↦ inr (due.id, r, found, ground arith)
  ]
]
