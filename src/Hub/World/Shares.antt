-- ===== src/Hub/World/Shares.antt =====
-- How often an operation may have been paid, read off the table of purchases: once if its purchase
-- has been started, and else never. Each repository call of api/hub/repository.py lets this grow by
-- what it grants, and keeps an operation with one purchase.
use homtech_hub.Hub.Repository.Created.{create_or_get-cases}
use homtech_hub.Hub.Repository.Decided.{resolve_attention-cases, replay_unchanged}
use homtech_hub.Prelude.{
  ℕ, ◌+◌, ◌≤◌, Text, ◌≡◌, refl, true, false, inl, inr, List, [], ◌∷◌, ◌++◌, some, Bool-cases,
  if◌then◌else◌, to_nat, total, total-append, ap, sym, subst, ◌∙◌, text_eq, text_eq_iff, arith,
}
use homtech_hub.Hub.Domain.{PurchaseState, created, checked, requires_attention, PurchaseRequest}
use homtech_hub.Hub.Errors.{ok}
use homtech_hub.Hub.Crypto.{Crypto}
use homtech_hub.Hub.Repository.Table.{
  Row, Db, purchase_of, find_row, put_row, find_row-id, total-put_row,
}
use homtech_hub.Hub.Repository.Marks.{Mark, mark_checked, mark, deferred, defer_topup}
use homtech_hub.Hub.Repository.Effects.{
  starts_in, row_after, mark-Effect, defer_topup-cases, claim_due-cases,
}
use homtech_hub.Hub.Repository.Create.{operation_id, new_row, is_taken, create_or_get}
use homtech_hub.Hub.Repository.Claim.{leased, claim_due}
use homtech_hub.Hub.Repository.Reconcile.{Resolution, resolve_attention, resolution_row}
use homtech_hub.Hub.Service.Arming.{granted, is_lawful}

abbrev pub started : PurchaseState → ℕ
started created = 0
started checked = 0
started _ = 1

-- The row's share of the payments of an operation, and whether it is the operation's row.
abbrev pub share : Text → Row → ℕ
share op r = if text_eq r.provider_operation_id op then started r.state else 0

abbrev pub owns : Text → Row → ℕ
owns op r = to_nat (text_eq r.provider_operation_id op)

pub share-le-owns : (op : Text) (rows : List Row) → total (share op) rows ≤ total (owns op) rows
share-le-owns op [] = omega arith
share-le-owns op (r ∷ rows) = ground (arith, share-le-owns op rows)

-- From `rows` to `rows'` the shares grow by `n`, and an operation of one purchase stays so.
abbrev pub Grows : Text → ℕ → List Row → List Row → Type 0
Grows op n rows rows' =
    (total (share op) rows + n ≤ total (share op) rows')
    × (total (owns op) rows ≤ 1 → total (owns op) rows' ≤ 1)

found_by_own_id :
    (id : ℕ) (r' r : Row) (rows : List Row)
    → find_row id rows ≡ some r
    → r'.id ≡ r.id
    → find_row r'.id rows ≡ some r
found_by_own_id id r' r rows found same =
    subst (λ j. find_row j rows ≡ some r) (sym (same ∙ find_row-id id rows r found)) found

put_row-Grows :
    (op : Text) (n id : ℕ) (rows : List Row) (r' r : Row)
    → find_row id rows ≡ some r
    → r'.id ≡ r.id
    → r'.provider_operation_id ≡ r.provider_operation_id
    → share op r + n ≤ share op r'
    → Grows op n rows (put_row r' rows)
put_row-Grows op n id rows r' r found same_id same more =
    let found' = found_by_own_id id r' r rows found same_id in
    (
      omega (arith, total-put_row (share op) r' r rows found'),
      λ one. omega (
        arith,
        total-put_row (owns op) r' r rows found',
        ap (λ (t : Text). to_nat (text_eq t op)) same,
      ),
    )

unchanged-Grows : (op : Text) (rows : List Row) → Grows op 0 rows rows
unchanged-Grows op rows = (omega arith, λ one. one)

row_after-id : (c : Crypto) (now : ℕ) (m : Mark) (r : Row) → (row_after c now m r).id ≡ r.id
row_after-id c now (mark_checked _ _) r = refl
row_after-id c now _ r = refl

row_after-operation :
    (c : Crypto) (now : ℕ) (m : Mark) (r : Row)
    → (row_after c now m r).provider_operation_id ≡ r.provider_operation_id
row_after-operation c now (mark_checked _ _) r = refl
row_after-operation c now _ r = refl

row_after-share :
    (c : Crypto) (now : ℕ) (m : Mark) (op : Text) (r : Row)
    → is_lawful m ≡ true
    → starts_in m r.state ≡ true
    → share op r + granted op m (ok (purchase_of (row_after c now m r)))
      ≤ share op (row_after c now m r)
unfolding purchase_of
row_after-share c now (mark_checked _ _) op r lawful from = ground arith
row_after-share c now _ op r lawful from = ground arith

pub mark-Grows :
    (op : Text) (c : Crypto) (now id token : ℕ) (m : Mark) (db : Db)
    → is_lawful m ≡ true
    → Grows op
        (granted op m (mark c now id token m db).0)
        db.purchases
        (mark c now id token m db).1.purchases
mark-Grows op c now id token m db lawful = elim (mark-Effect c now id token m db) [
  | inl (e, refused) ↦ rw refused (unchanged-Grows op db.purchases)
  | inr (r, found, held, from, free, done) ↦ rw done (
      put_row-Grows op _ id db.purchases (row_after c now m r) r found (row_after-id c now m r)
        (row_after-operation c now m r) (row_after-share c now m op r lawful from))
]

-- A row that changes neither its operation nor its state.
same_state-share :
    (op : Text) (r' r : Row)
    → r'.provider_operation_id ≡ r.provider_operation_id
    → r'.state ≡ r.state
    → share op r + 0 ≤ share op r'
same_state-share op r' r same_op same = ground arith

pub defer_topup-Grows :
    (op : Text) (now id token : ℕ) (db : Db)
    → Grows op 0 db.purchases (defer_topup now id token db).purchases
defer_topup-Grows op now id token db = elim (defer_topup-cases now id token db) [
  | inl same ↦ rw same (unchanged-Grows op db.purchases)
  | inr (r, found, written) ↦ rw written (
      put_row-Grows op 0 id db.purchases (deferred now r) r found refl refl
        (same_state-share op (deferred now r) r refl refl))
]

pub claim_due-Grows :
    (op : Text) (now token lease_sec : ℕ) (db : Db)
    → Grows op 0 db.purchases (claim_due now token lease_sec db).1.purchases
claim_due-Grows op now token lease_sec db = elim (claim_due-cases now token lease_sec db) [
  | inl same ↦ rw same (unchanged-Grows op db.purchases)
  | inr (id, r, found, claimed) ↦ rw claimed (
      put_row-Grows op 0 id db.purchases (leased now token lease_sec r) r found refl refl
        (same_state-share op (leased now token lease_sec r) r refl refl))
]

resolution_row-share :
    (op : Text) (c : Crypto) (now : ℕ) (x : Resolution) (r : Row)
    → r.state ≡ requires_attention
    → share op r + 0 ≤ share op (resolution_row c now x r)
resolution_row-share op c now x r from = ground arith

resolution_row-same :
    (c : Crypto) (now : ℕ) (x : Resolution) (r : Row)
    → ((resolution_row c now x r).id ≡ r.id)
      × ((resolution_row c now x r).provider_operation_id ≡ r.provider_operation_id)
resolution_row-same c now x r = ground arith

pub resolve_attention-Grows :
    (op : Text) (c : Crypto) (now id : ℕ) (x : Resolution) (db : Db)
    → Grows op 0 db.purchases (resolve_attention c now id x db).1.purchases
resolve_attention-Grows op c now id x db = elim (resolve_attention-cases c now id x db) [
  | inl (a, earlier, replayed) ↦
      rw replayed (rw (replay_unchanged x.fingerprint a db) (unchanged-Grows op db.purchases))
  | inr (inl (e, new, refused)) ↦ rw refused (unchanged-Grows op db.purchases)
  | inr (inr (r, new, found, from, free, done)) ↦
      let (same_id, same_op) = resolution_row-same c now x r in
      rw done (
        put_row-Grows op 0 id db.purchases (resolution_row c now x r) r found same_id same_op
          (resolution_row-share op c now x r from))
]

-- The unique constraint on the operation id keeps a second purchase of it out.
not_taken-owns :
    (id : ℕ) (op : Text) (rows : List Row) → is_taken id op rows ≡ false → total (owns op) rows ≡ 0
unfolding is_taken
not_taken-owns id op [] free = refl
not_taken-owns id op (r ∷ rows) free = ground (arith, not_taken-owns id op rows)

new_row-share :
    (op : Text) (now id : ℕ) (request : PurchaseRequest) (fingerprint : Text)
    → share op (new_row now id request fingerprint) ≡ 0
unfolding new_row
new_row-share op now id request fingerprint = ground arith

new_row-owns :
    (op : Text) (now id : ℕ) (request : PurchaseRequest) (fingerprint : Text)
    → owns op (new_row now id request fingerprint)
      ≡ to_nat (text_eq (operation_id request.provider_code id) op)
unfolding new_row
new_row-owns op now id request fingerprint = refl

new_row-Grows :
    (op : Text) (now id : ℕ) (request : PurchaseRequest) (fingerprint : Text) (rows : List Row)
    → is_taken id (operation_id request.provider_code id) rows ≡ false
    → Grows op 0 rows (rows ++ new_row now id request fingerprint ∷ [])
new_row-Grows op now id request fingerprint rows free = (
  rw (total-append (share op) rows (new_row now id request fingerprint ∷ []))
      (omega (arith, new_row-share op now id request fingerprint)),
  λ one.
      rw (total-append (owns op) rows (new_row now id request fingerprint ∷ []))
        (elim (Bool-cases (text_eq (operation_id request.provider_code id) op)) [
          | inl same ↦ omega (
            arith,
            new_row-owns op now id request fingerprint,
            not_taken-owns id op rows
                (subst (λ o. is_taken id o rows ≡ false) ((text_eq_iff _ op).0 same) free),
            ap to_nat same,
          )
          | inr other ↦
              omega (arith, one, new_row-owns op now id request fingerprint, ap to_nat other)
        ]),
)

-- A new purchase has not been started.
pub create_or_get-Grows :
    (op : Text) (now id : ℕ) (request : PurchaseRequest) (fingerprint : Text) (db : Db)
    → Grows op 0 db.purchases (create_or_get now id request fingerprint db).1.purchases
create_or_get-Grows op now id request fingerprint db =
    elim (create_or_get-cases now id request fingerprint db) [
      | inl same ↦ rw same (unchanged-Grows op db.purchases)
      | inr (new, free, done) ↦
          rw done (new_row-Grows op now id request fingerprint db.purchases free)
    ]

pub same_purchases-Grows :
    (op : Text) (rows rows' : List Row) → rows' ≡ rows → Grows op 0 rows rows'
same_purchases-Grows op rows rows' same = rw same (unchanged-Grows op rows)
