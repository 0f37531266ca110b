-- ===== src/Hub/Repository/Claim.antt =====
-- `claim_due` of api/hub/repository.py: one statement picks the first due purchase whose lease is
-- free, and leases it. No other transaction is open in it, so it skips no locked row.
use homtech_hub.Prelude.{
  ℕ, ◌+◌, Bool, true, false, ◌&&◌, ◌||◌, List, [], ◌∷◌, Option, none, some, ◌==◌, ltb, leb,
  if◌then◌else◌,
}
use homtech_hub.Hub.Domain.{PurchaseState, Purchase}
use homtech_hub.Hub.Repository.Table.{Row, Db, purchase_of, find_row, put_row}

-- 'created', 'checked', 'payment_started', 'processing'
abbrev pub is_active : PurchaseState → Bool
is_active PurchaseState.created = true
is_active PurchaseState.checked = true
is_active PurchaseState.payment_started = true
is_active PurchaseState.processing = true
is_active _ = false

abbrev pub lease_is_free : ℕ → Row → Bool
lease_is_free now r = elim r.lease_until [ none ↦ true | some t ↦ ltb t now ]

unfoldable pub is_due : ℕ → Row → Bool
is_due now r = is_active r.state && leb r.next_attempt_at now && lease_is_free now r

-- ORDER BY next_attempt_at, created_at
abbrev pub is_before : Row → Row → Bool
is_before a b =
    ltb a.next_attempt_at b.next_attempt_at
    || (a.next_attempt_at == b.next_attempt_at && leb a.created_at b.created_at)

abbrev first_of_two : Row → Option Row → Option Row
first_of_two r none = some r
first_of_two r (some s) = if is_before r s then some r else some s

unfoldable pub candidate : ℕ → List Row → Option Row
candidate now [] = none
candidate now (r ∷ rows) =
    let rest = candidate now rows in if is_due now r then first_of_two r rest else rest

abbrev pub leased : ℕ → ℕ → ℕ → Row → Row
leased now token lease_sec r = record r {
  purchase = record r.purchase { updated_at = now };
  lease_token = some token;
  lease_until = some (now + lease_sec);
}

-- The update joins the candidate by its id. `token` is the `uuid4()` that the claim draws.
unfoldable pub claim_due : ℕ → ℕ → ℕ → Db → Option (Purchase × ℕ) × Db
unfolding candidate
claim_due now token lease_sec db = elim (candidate now db.purchases) [
  | none ↦ (none, db)
  | some due ↦ elim (find_row due.id db.purchases) [
    | none ↦ (none, db)
    | some r ↦
        let r' = leased now token lease_sec r in
        (some (purchase_of r', token), record db { purchases = put_row r' db.purchases })
  ]
]
