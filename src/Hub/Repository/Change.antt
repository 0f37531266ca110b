-- ===== src/Hub/Repository/Change.antt =====
-- What any transaction of api/hub/repository.py can do to the purchases.
use homtech_hub.Prelude.{
  ℕ, ◌≤◌, Text, ◌≡◌, refl, Bool, true, false, ◌&&◌, ◌||◌, ◌⊎◌, inl, inr, List, [], ◌∷◌, ◌++◌, none,
  some, Option-cases, Bool-cases, arith, total, to_nat, ◌==◌, subst, ap, sym, ◌∙◌,
}
use homtech_hub.Hub.Domain.{
  PurchaseState, created, checked, payment_started, processing, succeeded, failed,
  requires_attention, is_topup, PurchaseRequest,
}
use homtech_hub.Hub.Crypto.{Crypto}
use homtech_hub.Hub.Repository.Table.{Row, Db, find_row, put_row, clashes, find_row-id}
use homtech_hub.Hub.Repository.Marks.{
  holds_lease, is_created, is_checked, Mark, mark, deferred, defer_topup,
}
use homtech_hub.Hub.Repository.Effects.{starts_in, row_after, mark-Effect}
use homtech_hub.Hub.Repository.Create.{new_row, find_key, is_taken, create_or_get}
use homtech_hub.Hub.Repository.Created.{create_or_get-cases}
use homtech_hub.Hub.Repository.Claim.{is_due, candidate, leased, claim_due}
use homtech_hub.Hub.Repository.Reconcile.{Resolution, resolution_row, resolve_attention}
use homtech_hub.Hub.Service.Arming.{is_lawful}
use homtech_hub.Hub.Repository.Decided.{resolve_attention-cases, replay_unchanged}

abbrev pub is_settled : PurchaseState → Bool
is_settled succeeded = true
is_settled failed = true
is_settled _ = false

-- How far a purchase has come.
abbrev pub stage : PurchaseState → ℕ
stage created = 0
stage checked = 1
stage payment_started = 2
stage processing = 3
stage requires_attention = 4
stage succeeded = 5
stage failed = 5

-- What an update leaves as it was, and that it does not go back.
abbrev pub Kept : Row → Row → Type 0
Kept r r' =
    (r'.id ≡ r.id)
    × (r'.consumer_id ≡ r.consumer_id)
    × (r'.idempotency_key ≡ r.idempotency_key)
    × (r'.request_fingerprint ≡ r.request_fingerprint)
    × (r'.provider_operation_id ≡ r.provider_operation_id)
    × (is_settled r.state ≡ false)
    × (stage r.state ≤ stage r'.state)

abbrev pub Updates : List Row → List Row → Type 0
Updates rows rows' =
    (r : Row) × (r' : Row) × (find_row r'.id rows ≡ some r)
    × Kept r r'
    × ((r'.result_hash ≡ r.result_hash) ⊎ (clashes r' rows ≡ false))
    × (rows' ≡ put_row r' rows)

abbrev pub Inserts : List Row → List Row → Type 0
Inserts rows rows' =
    (r : Row) × (find_key r.consumer_id r.idempotency_key rows ≡ none)
    × (is_taken r.id r.provider_operation_id rows ≡ false)
    × (r.result_hash ≡ [])
    × (rows' ≡ rows ++ r ∷ [])

abbrev pub Change : List Row → List Row → Type 0
Change rows rows' = (rows' ≡ rows) ⊎ Updates rows rows' ⊎ Inserts rows rows'

abbrev pub has_id : ℕ → Row → ℕ
has_id id r = to_nat (r.id == id)

found_by_own_id :
    (id : ℕ) (rows : List Row) (r r' : Row)
    → find_row id rows ≡ some r
    → r'.id ≡ r.id
    → find_row r'.id rows ≡ some r
found_by_own_id id rows r r' found same =
    subst (λ i. find_row i rows ≡ some r) (sym (same ∙ find_row-id id rows r found)) found

row_after-Kept :
    (c : Crypto) (now : ℕ) (m : Mark) (r : Row)
    → is_lawful m ≡ true
    → starts_in m r.state ≡ true
    → Kept r (row_after c now m r)
row_after-Kept c now m r lawful from = ground arith

pub mark-Change :
    (c : Crypto) (now id token : ℕ) (m : Mark) (db : Db)
    → is_lawful m ≡ true
    → Change db.purchases (mark c now id token m db).1.purchases
mark-Change c now id token m db lawful = elim (mark-Effect c now id token m db) [
  | inl (e, refused) ↦ inl (ap (λ o. o.1.purchases) refused)
  | inr (r, found, held, from, free, done) ↦
      let kept = row_after-Kept c now m r lawful from in
      inr (
        inl (
          r,
          row_after c now m r,
          found_by_own_id id db.purchases r (row_after c now m r) found kept.0,
          kept,
          inr free,
          ap (λ o. o.1.purchases) done,
        ))
]

deferred-Kept :
    (now : ℕ) (r : Row) → is_created r.state || is_checked r.state ≡ true → Kept r (deferred now r)
deferred-Kept now r from = ground arith

pub defer_topup-Change :
    (now id token : ℕ) (db : Db) → Change db.purchases (defer_topup now id token db).purchases
unfolding defer_topup
defer_topup-Change now id token db = elim (Option-cases (find_row id db.purchases)) [
  | inl missing ↦ rw (missing, defer_topup) (inl refl)
  | inr (r, found) ↦
      elim (Bool-cases
        (holds_lease token r && is_topup r.kind && (is_created r.state || is_checked r.state))) [
          | inr other ↦ inl (ground arith)
          | inl deferrable ↦ inr (
              inl (
                r,
                deferred now r,
                found_by_own_id id db.purchases r (deferred now r) found refl,
                deferred-Kept now r (ground arith),
                inl refl,
                ground arith,
              ))
        ]
]

resolution_row-Kept :
    (c : Crypto) (now : ℕ) (x : Resolution) (r : Row)
    → r.state ≡ requires_attention
    → Kept r (resolution_row c now x r)
resolution_row-Kept c now x r from = ground arith

pub resolve_attention-Change :
    (c : Crypto) (now id : ℕ) (x : Resolution) (db : Db)
    → Change db.purchases (resolve_attention c now id x db).1.purchases
resolve_attention-Change c now id x db = elim (resolve_attention-cases c now id x db) [
  | inl (a, earlier, replayed) ↦ inl (
      ap (λ o. o.1.purchases) replayed
      ∙ ap (λ d. d.purchases) (replay_unchanged x.fingerprint a db))
  | inr (inl (e, new, refused)) ↦ inl (ap (λ o. o.1.purchases) refused)
  | inr (inr (r, new, found, from, free, done)) ↦
      let kept = resolution_row-Kept c now x r from in
      inr (
        inl (
          r,
          resolution_row c now x r,
          found_by_own_id id db.purchases r (resolution_row c now x r) found kept.0,
          kept,
          inr free,
          ap (λ o. o.1.purchases) done,
        ))
]

pub create_or_get-Change :
    (now id : ℕ) (request : PurchaseRequest) (fingerprint : Text) (db : Db)
    → Change db.purchases (create_or_get now id request fingerprint db).1.purchases
unfolding new_row
create_or_get-Change now id request fingerprint db =
    elim (create_or_get-cases now id request fingerprint db) [
      | inl same ↦ inl (ap (λ d. d.purchases) same)
      | inr (new, free, done) ↦
          inr (
            inr (new_row now id request fingerprint, new, free, refl, ap (λ o. o.1.purchases) done))
    ]

-- The purchase that a claim picks is due, and the update by its id meets it again where ids are unique.
candidate-total :
    (now : ℕ) (rows : List Row) (due : Row)
    → candidate now rows ≡ some due
    → 1 ≤ total (has_id due.id) rows
unfolding candidate
candidate-total now [] due chosen = ground arith
candidate-total now (r ∷ rows) due chosen = elim (Option-cases (candidate now rows)) [
  | inl none_there ↦ ground arith
  | inr (s, there) ↦ ground (arith, candidate-total now rows s there)
]

pub candidate-found :
    (now : ℕ) (rows : List Row) (due : Row)
    → candidate now rows ≡ some due
    → total (has_id due.id) rows ≤ 1
    → (find_row due.id rows ≡ some due) × (is_due now due ≡ true)
unfolding candidate
candidate-found now [] due chosen one = ground arith
candidate-found now (r ∷ rows) due chosen one = elim (Option-cases (candidate now rows)) [
  | inl none_there ↦ ground arith
  | inr (s, there) ↦
      ground (arith, candidate-total now rows s there, candidate-found now rows s there)
]

leased-Kept :
    (now token lease_sec : ℕ) (r : Row)
    → is_due now r ≡ true
    → Kept r (leased now token lease_sec r)
unfolding is_due
leased-Kept now token lease_sec r due = ground arith

pub claim_due-Change :
    (now token lease_sec : ℕ) (db : Db)
    → ((id : ℕ) → total (has_id id) db.purchases ≤ 1)
    → Change db.purchases (claim_due now token lease_sec db).1.purchases
unfolding claim_due
claim_due-Change now token lease_sec db unique = elim (Option-cases (candidate now db.purchases)) [
  | inl idle ↦ rw (idle, claim_due) (inl refl)
  | inr (due, chosen) ↦
      let (found, is_due_now) = candidate-found now db.purchases due chosen (unique due.id) in
      inr (
        inl (
          due,
          leased now token lease_sec due,
          found,
          leased-Kept now token lease_sec due is_due_now,
          inl refl,
          ground arith,
        ))
]
