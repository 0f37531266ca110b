-- ===== src/Hub/Repository/Sound.antt =====
-- The constraints of migrations/*.sql on the table of purchases, as api/hub/repository.py keeps them.
use homtech_hub.Prelude.{
  ℕ, ◌≤◌, Text, ◌≡◌, refl, Bool, true, false, ◌&&◌, not, inl, inr, List, [], ◌∷◌, none, some,
  Bool-cases, arith, total, total-append, to_nat, ◌==◌, text_eq, text_eq_iff, is_empty, subst, sym,
  ap, any,
}
use homtech_hub.Hub.Repository.Table.{Row, find_row, clashes, total-put_row}
use homtech_hub.Hub.Repository.Create.{find_key, has_key, is_taken}
use homtech_hub.Hub.Repository.Change.{Updates, Inserts, Change, has_id}

abbrev pub with_key : Text → Text → Row → ℕ
with_key consumer key r = to_nat (has_key consumer key r)

abbrev pub with_result : Text → Row → ℕ
with_result hash r = to_nat (text_eq r.result_hash hash)

-- The primary key, the idempotency keys, and the codes that have been handed out.
pub record Sound (rows : List Row) : Type 0 where
  pub ids : (id : ℕ) → total (has_id id) rows ≤ 1
  pub keys : (consumer key : Text) → total (with_key consumer key) rows ≤ 1
  pub results : (hash : Text) → is_empty hash ≡ false → total (with_result hash) rows ≤ 1

no_key :
    (consumer key : Text) (rows : List Row)
    → find_key consumer key rows ≡ none
    → total (with_key consumer key) rows ≡ 0
unfolding find_key
no_key consumer key [] new = refl
no_key consumer key (r ∷ rows) new = ground (arith, no_key consumer key rows)

no_id :
    (id : ℕ) (op : Text) (rows : List Row)
    → is_taken id op rows ≡ false
    → total (has_id id) rows ≡ 0
unfolding is_taken
no_id id op [] free = refl
no_id id op (r ∷ rows) free = ground (arith, no_id id op rows)

-- Whether a row other than `id` has the code.
abbrev others_have : ℕ → Text → Row → Bool
others_have id hash o = not (o.id == id) && text_eq o.result_hash hash

no_other_at_all :
    (id : ℕ) (hash : Text) (rows : List Row)
    → any (others_have id hash) rows ≡ false
    → total (with_result hash) rows ≤ total (has_id id) rows
unfolding any
no_other_at_all id hash [] free = omega arith
no_other_at_all id hash (o ∷ rows) free = ground (arith, no_other_at_all id hash rows)

only_that_one :
    (id : ℕ) (hash : Text) (rows : List Row) (r : Row)
    → find_row id rows ≡ some r
    → total (has_id id) rows ≤ 1
    → any (others_have id hash) rows ≡ false
    → total (with_result hash) rows ≡ with_result hash r
unfolding any
only_that_one id hash [] r found one free = ground arith
only_that_one id hash (o ∷ rows) r found one free =
    ground (arith, only_that_one id hash rows r, no_other_at_all id hash rows)

not_clashing :
    (r : Row) (rows : List Row)
    → clashes r rows ≡ false
    → is_empty r.result_hash ≡ false
    → any (others_have r.id r.result_hash) rows ≡ false
unfolding clashes
not_clashing r rows free full = ground arith

Updates-results :
    (rows rows' : List Row) (hash : Text)
    → is_empty hash ≡ false
    → Sound rows
    → Updates rows rows'
    → total (with_result hash) rows' ≤ 1
Updates-results rows rows' hash full sound (r, r', found, kept, inl same, put) = rw put (
    omega (
      arith,
      total-put_row (with_result hash) r' r rows found,
      sound.results hash full,
      ap (λ h. to_nat (text_eq h hash)) same,
    ))
Updates-results rows rows' hash full sound (r, r', found, kept, inr free, put) =
    elim (Bool-cases (text_eq r'.result_hash hash)) [
      | inl mine ↦
          let same = (text_eq_iff r'.result_hash hash).0 mine in
          let only =
            only_that_one r'.id r'.result_hash rows r found (sound.ids r'.id)
              (not_clashing r' rows free (subst (λ h. is_empty h ≡ false) (sym same) full)) in
          rw put (
            omega (
              arith,
              total-put_row (with_result hash) r' r rows found,
              subst (λ h. total (with_result h) rows ≡ with_result h r) same only,
              ap to_nat mine,
            ))
      | inr other ↦ rw put (
          omega (
            arith,
            total-put_row (with_result hash) r' r rows found,
            sound.results hash full,
            ap to_nat other,
          ))
    ]

Updates-Sound : (rows rows' : List Row) → Sound rows → Updates rows rows' → Sound rows'
Updates-Sound rows rows' sound (r, r', found, kept, fresh, put) = record {
  ids = λ id. rw put (
      omega (
        arith,
        total-put_row (has_id id) r' r rows found,
        sound.ids id,
        ap (λ i. to_nat (i == id)) kept.0,
      ));
  keys = λ consumer key. rw put (
      omega (
        arith,
        total-put_row (with_key consumer key) r' r rows found,
        sound.keys consumer key,
        ap (λ c. to_nat (text_eq c consumer && text_eq r'.idempotency_key key)) kept.1,
        ap (λ k. to_nat (text_eq r.consumer_id consumer && text_eq k key)) kept.2,
      ));
  results =
      λ hash full. Updates-results rows rows' hash full sound (r, r', found, kept, fresh, put);
}

same_id_total :
    (id : ℕ) (r : Row) (rows : List Row)
    → (r.id == id) ≡ true
    → total (has_id r.id) rows ≡ total (has_id id) rows
same_id_total id r rows mine = ap (λ i. total (has_id i) rows) (ground arith)

same_key :
    (consumer key : Text) (r : Row) (rows : List Row)
    → has_key consumer key r ≡ true
    → find_key r.consumer_id r.idempotency_key rows ≡ none
    → find_key consumer key rows ≡ none
same_key consumer key r rows mine new =
    ground (arith, text_eq_iff r.consumer_id consumer, text_eq_iff r.idempotency_key key)

blank_result :
    (hash : Text) (r : Row) → is_empty hash ≡ false → r.result_hash ≡ [] → with_result hash r ≡ 0
blank_result [] r full blank = ground arith
blank_result (x ∷ hash) r full blank = ground (arith, text_eq_iff r.result_hash (x ∷ hash))

Inserts-Sound : (rows rows' : List Row) → Sound rows → Inserts rows rows' → Sound rows'
Inserts-Sound rows rows' sound (r, new, free, blank, put) = record {
  ids = λ id.
      rw (put, total-append (has_id id) rows (r ∷ []))
        (elim (Bool-cases (r.id == id)) [
          | inl mine ↦ omega (
            arith,
            no_id r.id r.provider_operation_id rows free,
            same_id_total id r rows mine,
            ap to_nat mine,
          )
          | inr other ↦ omega (arith, sound.ids id, ap to_nat other)
        ]);
  keys = λ consumer key.
      rw (put, total-append (with_key consumer key) rows (r ∷ []))
        (elim (Bool-cases (has_key consumer key r)) [
          | inl mine ↦ omega (
            arith,
            no_key consumer key rows (same_key consumer key r rows mine new),
            ap to_nat mine,
          )
          | inr other ↦ omega (arith, sound.keys consumer key, ap to_nat other)
        ]);
  results = λ hash full.
      rw (put, total-append (with_result hash) rows (r ∷ []))
        (omega (arith, sound.results hash full, blank_result hash r full blank));
}

pub Change-Sound : (rows rows' : List Row) → Sound rows → Change rows rows' → Sound rows'
Change-Sound rows rows' sound (inl same) = subst Sound (sym same) sound
Change-Sound rows rows' sound (inr (inl updates)) = Updates-Sound rows rows' sound updates
Change-Sound rows rows' sound (inr (inr inserts)) = Inserts-Sound rows rows' sound inserts
