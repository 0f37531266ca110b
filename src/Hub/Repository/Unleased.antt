-- ===== src/Hub/Repository/Unleased.antt =====
-- The transitions of api/hub/repository.py on a purchase that is not leased under their token.
use homtech_hub.Prelude.{
  ℕ, ◌≡◌, Bool, true, false, not, inl, inr, List, [], ◌∷◌, none, some, Option-cases, Bool-cases,
  arith, ap, subst, sym, ◌∙◌, ◌==◌, Text,
}
use homtech_hub.Hub.Domain.{
  PurchaseState, created, checked, payment_started, processing, failed, requires_attention,
}
use homtech_hub.Hub.Crypto.{Crypto}
use homtech_hub.Hub.Errors.{err, lease_or_state_changed}
use homtech_hub.Hub.Repository.Table.{Row, Db, find_row, put_row, find_row-put_row, find_row-id}
use homtech_hub.Hub.Repository.Marks.{
  holds_lease, transition, Mark, mark_checked, mark_preflight_failed, mark_payment_started,
  mark_processing, mark_provider_result, mark_requires_attention, retry_topup_check, mark,
  defer_topup, is_created, is_checked, is_paying, set_checked, set_preflight_failed,
  set_payment_started, set_processing, set_provider_result, set_requires_attention, set_topup_retry,
  as_duplicate,
}
use homtech_hub.Hub.Repository.Effects.{row_after, mark-Effect}

-- No purchase of this id is leased under the token.
abbrev pub lacks : ℕ → ℕ → List Row → Bool
lacks id token rows = elim (find_row id rows) [ none ↦ true | some r ↦ not (holds_lease token r) ]

transition-lacks :
    (now id token : ℕ) (allowed : PurchaseState → Bool) (target : PurchaseState) (message : Text)
    (assign : Row → Row) (release : Bool) (db : Db)
    → lacks id token db.purchases ≡ true
    → transition now id token allowed target message assign release db
      ≡ (err lease_or_state_changed, db)
unfolding transition
transition-lacks now id token allowed target message assign release db h =
    elim (Option-cases (find_row id db.purchases)) [
      | inl missing ↦ ground arith
      | inr (r, found) ↦ ground (arith, found, h)
    ]

pub mark-lacks :
    (c : Crypto) (now id token : ℕ) (m : Mark) (db : Db)
    → lacks id token db.purchases ≡ true
    → mark c now id token m db ≡ (err lease_or_state_changed, db)
unfolding mark
mark-lacks c now id token (mark_checked a x) db h =
    transition-lacks now id token is_created checked x.message (set_checked now a x) true db h
mark-lacks c now id token (mark_preflight_failed t) db h =
    transition-lacks now id token is_created failed t (set_preflight_failed now t) true db h
mark-lacks c now id token mark_payment_started db h =
    transition-lacks now id token is_checked payment_started [] (set_payment_started now) false db h
mark-lacks c now id token (mark_processing t b) db h =
    transition-lacks now id token is_paying processing t (set_processing now t b) true db h
mark-lacks c now id token (mark_provider_result x state value hash secret b) db h =
    ap as_duplicate (
      transition-lacks now id token is_paying state x.message
        (set_provider_result c now x state value hash secret b) true db h)
mark-lacks c now id token (mark_requires_attention t) db h =
    transition-lacks now id token is_paying requires_attention t (set_requires_attention t) true db
      h
mark-lacks c now id token (retry_topup_check t) db h =
    transition-lacks now id token is_created created t (set_topup_retry now t) true db h

pub defer_topup-lacks :
    (now id token : ℕ) (db : Db)
    → lacks id token db.purchases ≡ true
    → defer_topup now id token db ≡ db
unfolding defer_topup
defer_topup-lacks now id token db h = elim (Option-cases (find_row id db.purchases)) [
  | inl missing ↦ ground arith
  | inr (r, found) ↦ ground (arith, found, h)
]

pub row_after-id : (c : Crypto) (now : ℕ) (m : Mark) (r : Row) → (row_after c now m r).id ≡ r.id
row_after-id c now m r = ground arith

row_after-holds :
    (c : Crypto) (now token : ℕ) (m : Mark) (r : Row)
    → holds_lease token r ≡ false
    → holds_lease token (row_after c now m r) ≡ false
row_after-holds c now token m r h = ground (arith, h)

put_row-lacks :
    (id token : ℕ) (r r' : Row) (rows : List Row)
    → find_row r'.id rows ≡ some r
    → (holds_lease token r ≡ false → holds_lease token r' ≡ false)
    → lacks id token rows ≡ true
    → lacks id token (put_row r' rows) ≡ true
put_row-lacks id token r r' rows found keeps h = elim (Bool-cases (r'.id == id)) [
  | inr other ↦ rw (find_row-put_row id r' rows, lacks) (rw other h)
  | inl mine ↦
      let here : find_row id rows ≡ some r = ground (arith, found, mine) in
      let free : holds_lease token r ≡ false = ground (arith, here, h) in
      rw (find_row-put_row id r' rows, lacks) (ground (arith, mine, here, keeps free))
]

-- No transition, whoever makes it, gives a token back to a purchase.
mark-keeps_lacks :
    (c : Crypto) (now id id' token token' : ℕ) (m : Mark) (db : Db)
    → lacks id token db.purchases ≡ true
    → lacks id token (mark c now id' token' m db).1.purchases ≡ true
mark-keeps_lacks c now id id' token token' m db h = elim (mark-Effect c now id' token' m db) [
  | inl (e, refused) ↦
      subst (λ d. lacks id token d.purchases ≡ true) (sym (ap (λ o. o.1) refused)) h
  | inr (r, found, held, from, free, done) ↦
      subst (λ d. lacks id token d.purchases ≡ true) (sym (ap (λ o. o.1) done))
        (put_row-lacks id token r (row_after c now m r) db.purchases
          (subst (λ i. find_row i db.purchases ≡ some r)
            (sym (row_after-id c now m r ∙ find_row-id id' db.purchases r found)) found)
          (row_after-holds c now token m r) h)
]

-- A call of a `mark_*` method, with its time, its purchase and its token.
pub record MarkCall : Type 0 where
  pub now : ℕ
  pub id : ℕ
  pub token : ℕ
  pub method : Mark

pub marked : Crypto → List MarkCall → Db → Db
unfolding mark
marked c [] db = db
marked c (x ∷ calls) db = marked c calls (mark c x.now x.id x.token x.method db).1

pub marked-keeps_lacks :
    (c : Crypto) (id token : ℕ) (calls : List MarkCall) (db : Db)
    → lacks id token db.purchases ≡ true
    → lacks id token (marked c calls db).purchases ≡ true
unfolding marked
marked-keeps_lacks c id token [] db h = h
marked-keeps_lacks c id token (x ∷ calls) db h =
    marked-keeps_lacks c id token calls (mark c x.now x.id x.token x.method db).1
      (mark-keeps_lacks c x.now id x.id token x.token x.method db h)
