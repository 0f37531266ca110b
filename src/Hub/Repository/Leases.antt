-- ===== src/Hub/Repository/Leases.antt =====
-- The leases that `claim_due` of api/hub/repository.py gives: which purchase a worker gets.
use homtech_hub.Prelude.{
  ℕ, ◌≤◌, ◌+◌, ◌≡◌, true, false, inl, inr, List, [], ◌∷◌, some, Option-cases, Bool-cases, arith,
  get_elem?, ap, subst, ◌==◌, zero, suc,
}
use homtech_hub.Hub.Domain.{Purchase}
use homtech_hub.Hub.Repository.Table.{Row, Db, purchase_of, find_row, put_row, find_row-put_row}
use homtech_hub.Hub.Repository.Claim.{is_due, is_before, candidate, leased, claim_due}
use homtech_hub.Hub.Repository.Change.{candidate-found, claim_due-Change}
use homtech_hub.Hub.Repository.Sound.{Sound, Change-Sound}

-- What a claim comes to where ids are unique.
claim_due-found :
    (now token lease_sec : ℕ) (db : Db) (due : Row)
    → candidate now db.purchases ≡ some due
    → Sound db.purchases
    → claim_due now token lease_sec db ≡ (
      some (purchase_of (leased now token lease_sec due), token),
      record db { purchases = put_row (leased now token lease_sec due) db.purchases },
    )
unfolding claim_due
claim_due-found now token lease_sec db due chosen sound =
    ground (arith, (candidate-found now db.purchases due chosen (sound.ids due.id)).0)

due_first :
    (now : ℕ) (rows : List Row) (i : ℕ) (r : Row)
    → get_elem? rows i ≡ some r
    → is_due now r ≡ true
    → (due : Row) × (candidate now rows ≡ some due) × (due.next_attempt_at ≤ r.next_attempt_at)
unfolding candidate
due_first now [] i r there h = ground arith
due_first now (x ∷ rows) zero r there h = elim (Option-cases (candidate now rows)) [
  | inl idle ↦ (x, ground arith, ground arith)
  | inr (s, later) ↦ elim (Bool-cases (is_before x s)) [
    | inl first ↦ (x, ground arith, ground arith)
    | inr second ↦ (s, ground arith, ground arith)
  ]
]
due_first now (x ∷ rows) (suc i) r there h =
    let (s, later, bound) = due_first now rows i r there h in
    elim (Bool-cases (is_due now x)) [
      | inr not_due ↦ (s, ground arith, bound)
      | inl is_due_now ↦ elim (Bool-cases (is_before x s)) [
        | inl first ↦ (x, ground arith, ground arith)
        | inr second ↦ (s, ground arith, bound)
      ]
    ]

-- Where ids are unique and some purchase is due, a claim leases a due one, and none that is due has
-- waited longer.
pub claim_takes_earliest :
    (now token lease_sec : ℕ) (db : Db) (i : ℕ) (r : Row)
    → Sound db.purchases
    → get_elem? db.purchases i ≡ some r
    → is_due now r ≡ true
    → (due : Row) × (find_row due.id db.purchases ≡ some due)
      × (is_due now due ≡ true)
      × (due.next_attempt_at ≤ r.next_attempt_at)
      × (claim_due now token lease_sec db ≡ (
        some (purchase_of (leased now token lease_sec due), token),
        record db { purchases = put_row (leased now token lease_sec due) db.purchases },
      ))
claim_takes_earliest now token lease_sec db i r sound there h =
    let (due, chosen, bound) = due_first now db.purchases i r there h in
    let (found, is_due_now) = candidate-found now db.purchases due chosen (sound.ids due.id) in
    (due, found, is_due_now, bound, claim_due-found now token lease_sec db due chosen sound)

-- The purchase that a claim gives is one of the table that was due.
pub claim_due-origin :
    (now token lease_sec : ℕ) (db db' : Db) (p : Purchase) (t : ℕ)
    → Sound db.purchases
    → claim_due now token lease_sec db ≡ (some (p, t), db')
    → (due : Row) × (find_row p.id db.purchases ≡ some due)
      × (is_due now due ≡ true)
      × (due.id ≡ p.id)
      × (db'.purchases ≡ put_row (leased now token lease_sec due) db.purchases)
unfolding claim_due purchase_of
claim_due-origin now token lease_sec db db' p t sound claimed =
    elim (Option-cases (candidate now db.purchases)) [
      | inl idle ↦ ground arith
      | inr (due, chosen) ↦
          let (found, is_due_now) =
            candidate-found now db.purchases due chosen (sound.ids due.id) in
          (due, ground arith, is_due_now, ground arith, ground arith)
    ]

leased_is_not_due :
    (now now' token lease_sec : ℕ) (r : Row)
    → now' ≤ now + lease_sec
    → is_due now' (leased now token lease_sec r) ≡ false
unfolding is_due
leased_is_not_due now now' token lease_sec r in_time = ground arith

pub leased_row_after :
    (now token lease_sec id : ℕ) (rows : List Row) (due : Row)
    → find_row id rows ≡ some due
    → due.id ≡ id
    → find_row id (put_row (leased now token lease_sec due) rows)
      ≡ some (leased now token lease_sec due)
leased_row_after now token lease_sec id rows due found same =
    ground (arith, find_row-put_row id (leased now token lease_sec due) rows)

-- Where ids are unique, no second claim gets a purchase until its lease is over, whatever the clock of
-- the second worker says before then.
pub lease_is_exclusive :
    (now now' token token' lease_sec lease_sec' : ℕ) (db db' db'' : Db) (p q : Purchase) (t u : ℕ)
    → Sound db.purchases
    → claim_due now token lease_sec db ≡ (some (p, t), db')
    → claim_due now' token' lease_sec' db' ≡ (some (q, u), db'')
    → now' ≤ now + lease_sec
    → (q.id == p.id) ≡ false
lease_is_exclusive now now' token token' lease_sec lease_sec' db db' db'' p q t u sound first second
      in_time =
    let (due, found, is_due_now, same, put) =
      claim_due-origin now token lease_sec db db' p t sound first in
    let sound' =
      subst (λ d. Sound d.purchases) (ap (λ o. o.1) first)
        (Change-Sound db.purchases _ sound (claim_due-Change now token lease_sec db sound.ids)) in
    let (due', found', is_due_then, same', put') =
      claim_due-origin now' token' lease_sec' db' db'' q u sound' second in
    elim (Bool-cases (q.id == p.id)) [
      | inr other ↦ other
      | inl again ↦
          let there : find_row p.id db'.purchases ≡ some (leased now token lease_sec due) =
            rw put (leased_row_after now token lease_sec p.id db.purchases due found same) in
          let here : find_row q.id db'.purchases ≡ some (leased now token lease_sec due) =
            ground (arith, there) in
          ground (
            arith,
            leased_is_not_due now now' token lease_sec due in_time,
            here,
            found',
            is_due_then,
          )
    ]
