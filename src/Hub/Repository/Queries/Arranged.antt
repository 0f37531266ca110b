-- ===== src/Hub/Repository/Queries/Arranged.antt =====
-- The ORDER BY of `list_purchases` (api/hub/repository.py): its columns, created_at and id leave no two rows
-- open, so every run of it gives the same list.
use Prim.Native.Nat.{Ordering}
use mathlib.Core.List.{Permᴰ}
use homtech_hub.Prelude.{
  ℤ, ℕ, ◌≤◌, ◌≡◌, refl, sym, ap, ◌∙◌, subst, Text, Bool, true, false, not, ◌&&◌, ◌||◌, Bool-cases,
  inl, inr, List, [], ◌∷◌, keep, length, total, All, ◌==◌, leb, leb_ℤ, some, none, Option, arith,
  Decimal, if◌then◌else◌, some-injective,
}
use homtech_hub.Hub.Repository.Table.{Row, find_row}
use homtech_hub.Hub.Repository.Change.{has_id}
use homtech_hub.Hub.Repository.Sql.{Sql}
use homtech_hub.Hub.Repository.Queries.{
  PurchaseQuery, SortColumn, by_created_at, by_amount, by_service_id, by_nominal, nulls_last,
  numeric_le, by_column, is_listed_before, nominal_of,
}

abbrev flipped : Ordering → Ordering
flipped Ordering.lt = Ordering.gt
flipped Ordering.eq = Ordering.eq
flipped Ordering.gt = Ordering.lt

nulls_last-flipped {ℓ} :
    {A : Type ℓ} (up : Bool) (le : A → A → Bool) (a b : Option A)
    → ((x y : A) → le x y || le y x ≡ true)
    → nulls_last up le b a ≡ flipped (nulls_last up le a b)
nulls_last-flipped up le none none total_order = refl
nulls_last-flipped up le none (some b) total_order = refl
nulls_last-flipped up le (some a) none total_order = refl
nulls_last-flipped true le (some a) (some b) total_order = ground (arith, total_order a b)
nulls_last-flipped false le (some a) (some b) total_order = ground (arith, total_order a b)

leb-total : (a b : ℕ) → leb a b || leb b a ≡ true
leb-total a b = ground arith

leb_ℤ-total : (a b : ℤ) → leb_ℤ a b || leb_ℤ b a ≡ true
leb_ℤ-total a b = ground arith

numeric_le-total : (a b : Decimal) → numeric_le a b || numeric_le b a ≡ true
numeric_le-total a b = ground arith

-- `a` stands strictly before `b`.
abbrev pub precedes : (Row → Row → Bool) → Row → Row → Bool
precedes le a b = le a b && not (le b a)

-- No row stands strictly before an earlier one.
unfoldable pub IsArranged : (Row → Row → Bool) → List Row → Type 0
IsArranged le [] = Unit
IsArranged le (r ∷ rows) = All (λ s. precedes le s r ≡ false) rows × IsArranged le rows

module _ (sql : Sql)
    (collate-total : (a b : Text) → sql.collate a b || sql.collate b a ≡ true) where
  by_column-flipped :
      (column : SortColumn) (up : Bool) (a b : Row)
      → by_column sql column up b a ≡ flipped (by_column sql column up a b)
  by_column-flipped by_created_at up a b =
      nulls_last-flipped up leb (some a.created_at) (some b.created_at) leb-total
  by_column-flipped by_amount up a b =
      nulls_last-flipped up numeric_le a.amount b.amount numeric_le-total
  by_column-flipped by_service_id up a b =
      nulls_last-flipped up leb_ℤ (some a.service_id) (some b.service_id) leb_ℤ-total
  by_column-flipped by_nominal up a b =
      nulls_last-flipped up sql.collate (some (nominal_of sql a)) (some (nominal_of sql b))
        collate-total

  -- Two rows that the order leaves open are one.
  pub same_place :
      (q : PurchaseQuery) (a b : Row)
      → precedes (is_listed_before sql q) a b ≡ false
      → precedes (is_listed_before sql q) b a ≡ false
      → (a.id == b.id) ≡ true
  unfolding is_listed_before
  same_place q a b not_before not_after = go (by_column sql q.sort_column q.ascending a b) refl
    where
      go : (o : Ordering) → by_column sql q.sort_column q.ascending a b ≡ o → (a.id == b.id) ≡ true
      go Ordering.lt e =
          ground (arith, e, by_column-flipped q.sort_column q.ascending a b, not_before, not_after)
      go Ordering.gt e =
          ground (arith, e, by_column-flipped q.sort_column q.ascending a b, not_before, not_after)
      go Ordering.eq e =
          ground (arith, e, by_column-flipped q.sort_column q.ascending a b, not_before, not_after)

-- A row that its id leads to.
abbrev pub IsAt : List Row → Row → Type 0
IsAt table r = find_row r.id table ≡ some r

find_row-counts :
    (id : ℕ) (rows : List Row) (r : Row) → find_row id rows ≡ some r → 1 ≤ total (has_id id) rows
find_row-counts id [] r h = absurd (ground (arith, h))
find_row-counts id (x ∷ rows) r h = ground (arith, find_row-counts id rows r)

All-map : {P Q : Row → Type 0} (rows : List Row) → ((r : Row) → P r → Q r) → All P rows → All Q rows
All-map [] f h = tt
All-map (r ∷ rows) f (p, h) = (f r p, All-map rows f h)

stays-IsAt :
    (x r : Row) (rows : List Row)
    → total (has_id x.id) (x ∷ rows) ≤ 1
    → IsAt rows r
    → IsAt (x ∷ rows) r
stays-IsAt x r rows one h = elim (Bool-cases (x.id == r.id)) [
  | inr other ↦ ground (arith, other, h)
  | inl same ↦
      let here : find_row x.id rows ≡ some r = ground (arith, same, h) in
      absurd (ground (arith, find_row-counts x.id rows r here, one))
]

-- Where ids are unique, each row of a table is the one that its id leads to.
pub all-IsAt : (rows : List Row) → ((id : ℕ) → total (has_id id) rows ≤ 1) → All (IsAt rows) rows
all-IsAt [] unique = tt
all-IsAt (x ∷ rows) unique = (
  ground arith,
  All-map rows (λ r h. stays-IsAt x r rows (unique x.id) h)
      (all-IsAt rows (λ id. omega (arith, unique id))),
)

kept :
    (P : Row → Type 0) (b : Bool) (r : Row) (rows : List Row)
    → P r
    → All P rows
    → All P (if b then r ∷ rows else rows)
kept P true r rows x h = (x, h)
kept P false r rows x h = h

pub All-keep :
    (P : Row → Type 0) (p : Row → Bool) (rows : List Row) → All P rows → All P (keep p rows)
unfolding keep
All-keep P p [] h = tt
All-keep P p (r ∷ rows) (x, h) = kept P (p r) r (keep p rows) x (All-keep P p rows h)

pub All-perm : (P : Row → Type 0) (xs ys : List Row) → Permᴰ xs ys → All P ys → All P xs
All-perm P xs ys Permᴰ.nil h = tt
All-perm P (a ∷ xs) (b ∷ ys) (Permᴰ.cons e p) (x, h) = (subst P (sym e) x, All-perm P xs ys p h)
All-perm P (a ∷ b ∷ xs) (a' ∷ b' ∷ ys) (Permᴰ.swap e e') (x, h) =
    (subst P (sym e) h.0, (subst P (sym e') x, h.1))
All-perm P xs zs (Permᴰ.trans {l₂ = ys} p q) h = All-perm P xs ys p (All-perm P ys zs q h)

pub total-perm : (f : Row → ℕ) (xs ys : List Row) → Permᴰ xs ys → total f xs ≡ total f ys
total-perm f xs ys Permᴰ.nil = refl
total-perm f (a ∷ xs) (b ∷ ys) (Permᴰ.cons e p) = omega (arith, ap f e, total-perm f xs ys p)
total-perm f (a ∷ b ∷ xs) (a' ∷ b' ∷ ys) (Permᴰ.swap e e') = omega (arith, ap f e, ap f e')
total-perm f xs zs (Permᴰ.trans {l₂ = ys} p q) = total-perm f xs ys p ∙ total-perm f ys zs q

pub length-perm : (xs ys : List Row) → Permᴰ xs ys → length xs ≡ length ys
length-perm xs ys Permᴰ.nil = refl
length-perm (a ∷ xs) (b ∷ ys) (Permᴰ.cons e p) = omega (arith, length-perm xs ys p)
length-perm (a ∷ b ∷ xs) (a' ∷ b' ∷ ys) (Permᴰ.swap e e') = refl
length-perm xs zs (Permᴰ.trans {l₂ = ys} p q) = length-perm xs ys p ∙ length-perm ys zs q

-- With the same rows, whichever way they are counted, and each at its place.
abbrev IsSame : List Row → List Row → Type 0
IsSame xs ys = (f : Row → ℕ) → total f xs ≡ total f ys

one_of :
    (P : Row → Type 0) (id : ℕ) (rows : List Row)
    → 1 ≤ total (has_id id) rows
    → All P rows
    → (r : Row) × (r.id ≡ id) × P r
one_of P id [] there h = absurd (omega (arith, there))
one_of P id (x ∷ rows) there (p, h) = elim (Bool-cases (x.id == id)) [
  | inl mine ↦ (x, ground (arith, mine), p)
  | inr other ↦ one_of P id rows (ground (arith, other, there)) h
]

All-both :
    (P Q : Row → Type 0) (rows : List Row) → All P rows → All Q rows → All (λ r. P r × Q r) rows
All-both P Q [] h h' = tt
All-both P Q (r ∷ rows) (p, h) (q, h') = ((p, q), All-both P Q rows h h')

same_row :
    (x y : Row) (table : List Row) → IsAt table x → IsAt table y → (y.id == x.id) ≡ true → x ≡ y
same_row x y table at_x at_y equal =
    some-injective _ _ (sym at_x ∙ ap (λ i. find_row i table) (ground (arith, equal)) ∙ at_y)

module _ (le : Row → Row → Bool) (table : List Row)
    (open_is_same : (a b : Row)
      → precedes le a b ≡ false
      → precedes le b a ≡ false
      → (a.id == b.id) ≡ true) where
  -- A row that stands further on in one list than in the other is not before the head.
  not_before :
      (x y : Row) (rows : List Row)
      → (y.id == x.id) ≡ false
      → 1 ≤ total (has_id x.id) (y ∷ rows)
      → IsAt table x
      → All (IsAt table) rows
      → All (λ s. precedes le s y ≡ false) rows
      → precedes le x y ≡ false
  not_before x y rows other there at_x at later =
      let (s, same, (at_s, h)) =
        one_of (λ s. IsAt table s × (precedes le s y ≡ false)) x.id rows
          (ground (arith, other, there))
          (All-both (IsAt table) (λ s. precedes le s y ≡ false) rows at later) in
      subst (λ r. precedes le r y ≡ false)
        (some-injective _ _ (sym at_s ∙ ap (λ i. find_row i table) same ∙ at_x)) h

  pub one_arrangement :
      (xs ys : List Row)
      → IsSame xs ys
      → All (IsAt table) xs
      → All (IsAt table) ys
      → IsArranged le xs
      → IsArranged le ys
      → xs ≡ ys
  unfolding IsArranged
  one_arrangement [] [] same at at' h h' = refl
  one_arrangement [] (y ∷ ys) same at at' h h' = absurd (omega (arith, same (λ r. 1)))
  one_arrangement (x ∷ xs) [] same at at' h h' = absurd (omega (arith, same (λ r. 1)))
  one_arrangement (x ∷ xs) (y ∷ ys) same (at_x, at) (at_y, at') (first, h) (first', h') =
      elim (Bool-cases (y.id == x.id)) [
        | inl equal ↦
            let x_is_y : x ≡ y = same_row x y table at_x at_y equal in
            ap (◌∷◌ x) (one_arrangement xs ys (λ f. omega (arith, same f, ap f x_is_y)) at at' h h')
            ∙ ap (λ r. r ∷ ys) x_is_y
        | inr other ↦
            let before_y =
              not_before x y ys other (ground (arith, same (has_id x.id))) at_x at' first' in
            let before_x =
              not_before y x xs (ground (arith, other)) (ground (arith, same (has_id y.id))) at_y at
                first in
            absurd (ground (arith, open_is_same x y before_y before_x, other))
      ]
