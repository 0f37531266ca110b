-- ===== src/Airpay/Resolution/Repeated.antt =====
-- What a decision on a transaction comes to (`AirpayRepository.resolve`), the first time and repeated.
use homtech_hub.Prelude.{
  ℕ, ◌≡◌, Bool, true, ◌&&◌, inl, inr, Text, List, [], ◌∷◌, ◌++◌, Option, none, some, Option-cases,
  Bool-cases, arith, text_eq, text_eq_refl, find, is_some, is_empty, ap, ◌∙◌,
}
use homtech_hub.Hub.Crypto.{Crypto}
use homtech_hub.Airpay.Http.{Try, returns, raises}
use homtech_hub.Airpay.Transaction.{Transaction}
use homtech_hub.Airpay.Resolution.{
  ResolutionPayload, Decided, find_decided, resolution_changes, after_changes, resolve_transaction,
}

find_decided-append :
    (request : Text) (decided : List Decided) (a : Decided)
    → find_decided request decided ≡ none
    → text_eq a.request_id request ≡ true
    → find_decided request (decided ++ a ∷ []) ≡ some a
unfolding find_decided find
find_decided-append request [] a new mine = ground arith
find_decided-append request (x ∷ decided) a new mine =
    ground (arith, find_decided-append request decided a)

-- After an accepted decision its request id has its digest, and the row is the one that was returned.
decided_after :
    (c : Crypto) (secret : Text) (clash : Bool) (digest : Text) (now : ℕ) (x : ResolutionPayload)
    (r r' : Transaction) (decided decided' : List Decided) (shown : Transaction)
    → resolve_transaction c secret clash digest now x r decided ≡ (returns shown, r', decided')
    → (shown ≡ r')
      × ((a : Decided) × (find_decided x.request_id decided' ≡ some a)
          × (text_eq a.request_hash digest ≡ true))
unfolding resolve_transaction
decided_after c secret clash digest now x r r' decided decided' shown h =
    elim (Option-cases (find_decided x.request_id decided)) [
      | inr (a, earlier) ↦ (ground arith, (a, ground arith, ground arith))
      | inl new ↦ go new (resolution_changes x r) (ground arith)
    ]
  where
    go :
        find_decided x.request_id decided ≡ none
        → (changes : Try (Transaction × Option Text))
        → after_changes c secret clash digest now x r decided changes
          ≡ (returns shown, r', decided')
        → (shown ≡ r')
          × ((a : Decided) × (find_decided x.request_id decided' ≡ some a)
              × (text_eq a.request_hash digest ≡ true))
    go new (raises e) is = ground arith
    go new (returns (row, code)) is = elim (Bool-cases (is_some code && is_empty secret)) [
      | inl no_secret ↦ ground arith
      | inr fine ↦ elim (Bool-cases (is_some code && clash)) [
        | inl taken ↦ ground arith
        | inr free ↦
            let a : Decided = record { request_id = x.request_id; request_hash = digest } in
            let put : decided' ≡ decided ++ a ∷ [] = ground arith in
            (
              ground arith,
              (
                a,
                ap (find_decided x.request_id) put
                    ∙ find_decided-append x.request_id decided a new (text_eq_refl x.request_id),
                text_eq_refl digest,
              ),
            )
      ]
    ]

-- A decision that has been carried out and comes again with the same content shows the same row and changes
-- nothing: neither the row nor the journal of decisions.
pub repeated_resolution :
    (c : Crypto) (secret : Text) (clash clash' : Bool) (digest : Text) (now now' : ℕ)
    (x : ResolutionPayload) (r r' : Transaction) (decided decided' : List Decided)
    (shown : Transaction)
    → resolve_transaction c secret clash digest now x r decided ≡ (returns shown, r', decided')
    → resolve_transaction c secret clash' digest now' x r' decided' ≡ (returns shown, r', decided')
unfolding resolve_transaction
repeated_resolution c secret clash clash' digest now now' x r r' decided decided' shown h =
    let (same, (a, found, digest_same)) =
      decided_after c secret clash digest now x r r' decided decided' shown h in
    ground (arith, found, digest_same, same)
