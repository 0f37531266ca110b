-- ===== src/Hub/Repository/Handover.antt =====
-- How the transitions of api/hub/repository.py hand a lease on: `lease_token` and `lease_until`.
use homtech_hub.Prelude.{
  ℕ, ◌≡◌, refl, Bool, true, false, ◌⊎◌, inl, inr, List, [], ◌∷◌, ◌++◌, none, some, Bool-cases,
  arith, ap, subst, sym, ◌∙◌, ◌==◌, if◌then◌else◌,
}
use homtech_hub.Hub.Domain.{PurchaseState, Purchase}
use homtech_hub.Hub.Crypto.{Crypto}
use homtech_hub.Hub.Errors.{ok, err, lease_or_state_changed}
use homtech_hub.Hub.Repository.Table.{
  Row, Db, EventType, purchase_of, find_row, put_row, find_row-put_row, find_row-id, event_of,
}
use homtech_hub.Hub.Repository.Marks.{holds_lease, Mark, mark_payment_started, mark, defer_topup}
use homtech_hub.Hub.Repository.Effects.{starts_in, row_after, moved, mark-Effect}
use homtech_hub.Hub.Repository.Claim.{leased, claim_due}
use homtech_hub.Hub.Repository.Change.{is_settled}
use homtech_hub.Hub.Repository.Sound.{Sound}
use homtech_hub.Hub.Repository.Leases.{claim_due-origin, leased_row_after}
use homtech_hub.Hub.Repository.Unleased.{
  lacks, mark-lacks, defer_topup-lacks, row_after-id, MarkCall, marked, marked-keeps_lacks,
}

-- Where the table keeps its constraints: once a claim has leased a purchase to a worker, a worker with another token can
-- do nothing to it, whatever transitions have been tried since, under whatever tokens: each of its
-- `mark_*` calls is refused, its deferral has no effect, and the tables stay as they are.
pub stale_worker_is_refused :
    (c : Crypto) (now now' token token' lease_sec t : ℕ) (p : Purchase) (db db' : Db)
    (calls : List MarkCall) (m : Mark)
    → Sound db.purchases
    → claim_due now token' lease_sec db ≡ (some (p, t), db')
    → (token' == token) ≡ false
    → (mark c now' p.id token m (marked c calls db')
        ≡ (err lease_or_state_changed, marked c calls db'))
      × (defer_topup now' p.id token (marked c calls db') ≡ marked c calls db')
stale_worker_is_refused c now now' token token' lease_sec t p db db' calls m sound claimed other =
    let (due, found, is_due_now, same, put) =
      claim_due-origin now token' lease_sec db db' p t sound claimed in
    let there : find_row p.id db'.purchases ≡ some (leased now token' lease_sec due) =
      rw put (leased_row_after now token' lease_sec p.id db.purchases due found same) in
    let gone = marked-keeps_lacks c p.id token calls db' (ground (arith, there, other)) in
    (
      mark-lacks c now' p.id token m (marked c calls db') gone,
      defer_topup-lacks now' p.id token (marked c calls db') gone,
    )

-- The start of a payment is the only transition after which the worker goes on.
abbrev pub keeps_lease : Mark → Bool
keeps_lease mark_payment_started = true
keeps_lease _ = false

row_after-lease :
    (c : Crypto) (now token : ℕ) (m : Mark) (r : Row)
    → holds_lease token r ≡ true
    → ((row_after c now m r).lease_token ≡ (if keeps_lease m then some token else none))
      × ((row_after c now m r).lease_until ≡ (if keeps_lease m then r.lease_until else none))
row_after-lease c now token m r held = (ground (arith, held), ground arith)

starts_unsettled : (m : Mark) (s : PurchaseState) → starts_in m s ≡ true → is_settled s ≡ false
starts_unsettled m s h = ground (arith, h)

put_row-others :
    (other : ℕ) (r' : Row) (rows : List Row)
    → (r'.id == other) ≡ false
    → find_row other (put_row r' rows) ≡ find_row other rows
put_row-others other r' rows h = rw (find_row-put_row other r' rows) (rw h refl)

put_row-own :
    (id : ℕ) (r r' : Row) (rows : List Row)
    → find_row id rows ≡ some r
    → r'.id ≡ id
    → find_row id (put_row r' rows) ≡ some r'
put_row-own id r r' rows found own = ground (arith, find_row-put_row id r' rows, found, own)

holds-token : (token : ℕ) (r : Row) → holds_lease token r ≡ true → r.lease_token ≡ some token
holds-token token r h = ground (arith, h)

ok-injective : (p q : Purchase) → ok p ≡ ok q → p ≡ q
ok-injective p q h = ground (arith, h)

no_lease-lacks :
    (id token : ℕ) (rows : List Row) (r : Row)
    → find_row id rows ≡ some r
    → r.lease_token ≡ none
    → lacks id token rows ≡ true
no_lease-lacks id token rows r found h = ground (arith, found, h)

-- A transition that succeeds was made under the purchase's lease, and not on a settled one. It moves that
-- purchase, leaves every other one as it is, and records one event with the old and the new state. Only
-- the start of a payment keeps the lease, unchanged; after any other, the lease is gone and every further
-- call on the purchase, under whatever token, is refused and changes nothing.
pub mark_hands_back :
    (c : Crypto) (now id token : ℕ) (m : Mark) (p : Purchase) (db db' : Db) (other now' token' : ℕ)
    (m' : Mark)
    → mark c now id token m db ≡ (ok p, db')
    → (id == other) ≡ false
    → (r : Row) × (r' : Row) × (find_row id db.purchases ≡ some r)
      × (find_row id db'.purchases ≡ some r')
      × (p ≡ purchase_of r')
      × (r.lease_token ≡ some token)
      × (is_settled r.state ≡ false)
      × (find_row other db'.purchases ≡ find_row other db.purchases)
      × (db'.events
          ≡ db.events
            ++ event_of r' EventType.state_changed (some r.state) (some r'.state) none ∷ [])
      × (r'.lease_token ≡ (if keeps_lease m then some token else none))
      × (r'.lease_until ≡ (if keeps_lease m then r.lease_until else none))
      × ((keeps_lease m ≡ true)
          ⊎ (mark c now' id token' m' db' ≡ (err lease_or_state_changed, db')))
mark_hands_back c now id token m p db db' other now' token' m' h apart =
    elim (mark-Effect c now id token m db) [
      | inl (e, refused) ↦ absurd (ground (arith, sym refused ∙ h))
      | inr (r, found, held, from, free, done) ↦
          let r' = row_after c now m r in
          let same : (ok (purchase_of r'), moved r r' db) ≡ (ok p, db') = sym done ∙ h in
          let own : r'.id ≡ id = row_after-id c now m r ∙ find_row-id id db.purchases r found in
          let tables : moved r r' db ≡ db' = ap (λ o. o.1) same in
          let there : find_row id db'.purchases ≡ some r' =
            subst (λ d. find_row id d.purchases ≡ some r') tables
              (put_row-own id r r' db.purchases found own) in
          let (leased_by, until) = row_after-lease c now token m r held in
          (
            r,
            r',
            found,
            there,
            sym (ok-injective (purchase_of r') p (ap (λ o. o.0) same)),
            holds-token token r held,
            starts_unsettled m r.state from,
            subst (λ d. find_row other d.purchases ≡ find_row other db.purchases) tables
                (put_row-others other r' db.purchases (ground (arith, own, apart))),
            sym (ap (λ d. d.events) tables),
            leased_by,
            until,
            elim (Bool-cases (keeps_lease m)) [
              | inl kept ↦ inl kept
              | inr released ↦ inr (
                  mark-lacks c now' id token' m' db' (
                    no_lease-lacks id token' db'.purchases r' there
                      (ground (arith, leased_by, released))))
            ],
          )
    ]
