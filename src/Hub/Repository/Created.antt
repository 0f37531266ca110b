-- ===== src/Hub/Repository/Created.antt =====
-- What `create_or_get` of api/hub/repository.py comes to.
use homtech_hub.Prelude.{
  ℕ, Text, ◌≡◌, true, false, ◌⊎◌, inl, inr, none, Option-cases, Bool-cases, arith,
}
use homtech_hub.Hub.Domain.{PurchaseRequest}
use homtech_hub.Hub.Errors.{ok}
use homtech_hub.Hub.Repository.Table.{Db, purchase_of}
use homtech_hub.Hub.Repository.Create.{
  operation_id, new_row, find_key, is_taken, with_purchase, create_or_get,
}

-- Either the tables stay as they are, or the purchase is new and its row is added.
pub create_or_get-cases :
    (now id : ℕ) (request : PurchaseRequest) (fingerprint : Text) (db : Db)
    → ((create_or_get now id request fingerprint db).1 ≡ db)
      ⊎ ((find_key request.consumer_id request.idempotency_key db.purchases ≡ none)
          × (is_taken id (operation_id request.provider_code id) db.purchases ≡ false)
          × (create_or_get now id request fingerprint db ≡ (
            ok (purchase_of (new_row now id request fingerprint), true),
            with_purchase (new_row now id request fingerprint) db,
          )))
unfolding create_or_get
create_or_get-cases now id request fingerprint db =
    elim (Option-cases (find_key request.consumer_id request.idempotency_key db.purchases)) [
      | inr (r, found) ↦ inl (ground arith)
      | inl new ↦
          elim (Bool-cases (is_taken id (operation_id request.provider_code id) db.purchases)) [
            | inl taken ↦ inl (ground arith)
            | inr free ↦ inr (new, free, ground arith)
          ]
    ]
