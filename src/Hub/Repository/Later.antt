-- ===== src/Hub/Repository/Later.antt =====
-- What one purchase of api/hub/repository.py can become, whatever the transactions.
use homtech_hub.Prelude.{
  ℕ, ◌≤◌, ◌≡◌, refl, true, inl, inr, List, [], ◌∷◌, ◌++◌, none, some, Bool-cases, arith, ◌==◌, sym,
  subst, ◌∙◌, ap,
}
use homtech_hub.Hub.Repository.Table.{Row, find_row, find_row-put_row}
use homtech_hub.Hub.Repository.Change.{is_settled, stage, Kept, Change}

-- It keeps what identifies it, does not go back, and does not change at all once it is settled.
pub record Later (r r' : Row) : Type 0 where
  pub id : r'.id ≡ r.id
  pub consumer_id : r'.consumer_id ≡ r.consumer_id
  pub idempotency_key : r'.idempotency_key ≡ r.idempotency_key
  pub request_fingerprint : r'.request_fingerprint ≡ r.request_fingerprint
  pub provider_operation_id : r'.provider_operation_id ≡ r.provider_operation_id
  pub forward : stage r.state ≤ stage r'.state
  pub settled : is_settled r.state ≡ true → r' ≡ r

pub Later-refl : (r : Row) → Later r r
Later-refl r = record {
  id = refl;
  consumer_id = refl;
  idempotency_key = refl;
  request_fingerprint = refl;
  provider_operation_id = refl;
  forward = omega arith;
  settled = λ final. refl;
}

pub Later-trans : (r s t : Row) → Later r s → Later s t → Later r t
Later-trans r s t first second = record {
  id = second.id ∙ first.id;
  consumer_id = second.consumer_id ∙ first.consumer_id;
  idempotency_key = second.idempotency_key ∙ first.idempotency_key;
  request_fingerprint = second.request_fingerprint ∙ first.request_fingerprint;
  provider_operation_id = second.provider_operation_id ∙ first.provider_operation_id;
  forward = omega (arith, first.forward, second.forward);
  settled = λ final.
      let same = first.settled final in
      second.settled (subst (λ q. is_settled q.state ≡ true) (sym same) final) ∙ same;
}

Kept-Later : (r r' : Row) → Kept r r' → Later r r'
Kept-Later r r' kept = record {
  id = kept.0;
  consumer_id = kept.1;
  idempotency_key = kept.2;
  request_fingerprint = kept.3;
  provider_operation_id = kept.4;
  forward = kept.6;
  settled = λ final. ground (arith, kept.5, final);
}

find_row-append :
    (id : ℕ) (rows more : List Row) (r : Row)
    → find_row id rows ≡ some r
    → find_row id (rows ++ more) ≡ some r
find_row-append id [] more r found = ground arith
find_row-append id (x ∷ rows) more r found = ground (arith, find_row-append id rows more r)

same_row :
    (rows : List Row) (id id' : ℕ) (x r : Row)
    → find_row id' rows ≡ some x
    → (id' == id) ≡ true
    → find_row id rows ≡ some r
    → x ≡ r
same_row rows id id' x r there mine found =
    let same : id' ≡ id = ground (arith, mine) in
    ap (λ o. elim o [ none ↦ x | some q ↦ q ])
      (sym there ∙ (ap (λ i. find_row i rows) same ∙ found))

pub Change-Later :
    (rows rows' : List Row) (id : ℕ) (r : Row)
    → Change rows rows'
    → find_row id rows ≡ some r
    → (r' : Row) × (find_row id rows' ≡ some r') × Later r r'
Change-Later rows rows' id r (inl same) found =
    (r, subst (λ q. find_row id q ≡ some r) (sym same) found, Later-refl r)
Change-Later rows rows' id r (inr (inl (x, x', there, kept, fresh, put))) found =
    elim (Bool-cases (x'.id == id)) [
      | inl mine ↦ (
        x',
        rw (put, find_row-put_row id x' rows, mine, found) refl,
        Kept-Later r x' (subst (λ q. Kept q x') (same_row rows id x'.id x r there mine found) kept),
      )
      | inr other ↦ (r, rw (put, find_row-put_row id x' rows, other) found, Later-refl r)
    ]
Change-Later rows rows' id r (inr (inr (x, new, free, blank, put))) found =
    (r, rw put (find_row-append id rows (x ∷ []) r found), Later-refl r)
