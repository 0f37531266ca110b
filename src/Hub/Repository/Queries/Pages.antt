-- ===== src/Hub/Repository/Queries/Pages.antt =====
-- The pages of the operators' history (`list_purchases` of api/hub/repository.py), put together.
use mathlib.Core.List.{Permᴰ, map-append}
use homtech_hub.Prelude.{
  ℕ, zero, suc, ◌*◌, ◌≤◌, ◌≡◌, refl, sym, ap, ◌∙◌, subst, Text, true, ◌||◌, List, [], ◌++◌, map,
  keep, page, pages, pages_all, total, All,
}
use homtech_hub.Hub.Domain.{Purchase}
use homtech_hub.Hub.Repository.Table.{Row, Db, purchase_of}
use homtech_hub.Hub.Repository.Change.{has_id}
use homtech_hub.Hub.Repository.Sql.{Sql}
use homtech_hub.Hub.Repository.Queries.{
  PurchaseQuery, Arrange, list_purchases, selected, matches, is_listed_before,
}
use homtech_hub.Hub.Repository.Queries.Arranged.{
  IsArranged, same_place, IsAt, all-IsAt, All-keep, All-perm, total-perm, length-perm,
  one_arrangement,
}

module _ (sql : Sql) where
  -- The first `k` pages of `limit` purchases each, as an operator reads them; each comes from a query of its
  -- own, with its own run of ORDER BY.
  unfoldable pub read_pages : (ℕ → Arrange) → ℕ → ℕ → PurchaseQuery → Db → List Purchase
  unfolding list_purchases
  read_pages arrange limit zero q db = []
  read_pages arrange limit (suc k) q db =
      read_pages arrange limit k q db ++ (list_purchases sql (arrange k) limit (k * limit) q db).0

  -- A run of ORDER BY that keeps to it.
  abbrev pub Orders : Arrange → PurchaseQuery → Db → Type 0
  Orders arrange q db =
      let rows = arrange (is_listed_before sql q) (selected sql q db) in
      Permᴰ rows (selected sql q db) × IsArranged (is_listed_before sql q) rows

  read_pages-pages :
      (arrange : ℕ → Arrange) (limit k : ℕ) (q : PurchaseQuery) (db : Db) (rows : List Row)
      → ((i : ℕ) → arrange i (is_listed_before sql q) (selected sql q db) ≡ rows)
      → read_pages arrange limit k q db ≡ map purchase_of (pages limit k rows)
  unfolding read_pages
  read_pages-pages arrange limit zero q db rows same = refl
  read_pages-pages arrange limit (suc k) q db rows same =
      ap
        (λ shown.
          shown
          ++ map purchase_of
              (page limit (k * limit) (arrange k (is_listed_before sql q) (selected sql q db))))
        (read_pages-pages arrange limit k q db rows same)
      ∙ ap
          (λ found.
            map purchase_of (pages limit k rows) ++ map purchase_of (page limit (k * limit) found))
          (same k)
      ∙ sym (map-append purchase_of (pages limit k rows) (page limit (k * limit) rows))

  -- Each page is a query of its own, which may put the rows in any order that its ORDER BY allows. Where ids
  -- are unique and the database compares any two texts, pages that together hold as many purchases as the
  -- list counts show all that match the filters, each once and no other, in the order of the list.
  pub pages_show_all :
      ((a b : Text) → sql.collate a b || sql.collate b a ≡ true)
      → (arrange : ℕ → Arrange) (limit k : ℕ) (q : PurchaseQuery) (db : Db)
      → ((id : ℕ) → total (has_id id) db.purchases ≤ 1)
      → ((i : ℕ) → Orders (arrange i) q db)
      → (list_purchases sql (arrange 0) limit 0 q db).1 ≤ k * limit
      → (rows : List Row) × Permᴰ rows (keep (matches sql q) db.purchases)
        × IsArranged (is_listed_before sql q) rows
        × (read_pages arrange limit k q db ≡ map purchase_of rows)
  unfolding list_purchases
  pages_show_all compares arrange limit k q db unique orders enough =
      let wanted = selected sql q db in
      let le = is_listed_before sql q in
      let at : All (IsAt db.purchases) wanted =
        All-keep (IsAt db.purchases) (matches sql q) db.purchases (all-IsAt db.purchases unique) in
      let rows = arrange 0 le wanted in
      let (perm, ordered) = orders 0 in
      let one : (i : ℕ) → arrange i le wanted ≡ rows = λ i.
        one_arrangement le db.purchases (same_place sql compares q) (arrange i le wanted) rows
          (λ f. total-perm f _ _ (orders i).0 ∙ sym (total-perm f _ _ perm))
          (All-perm (IsAt db.purchases) _ _ (orders i).0 at)
          (All-perm (IsAt db.purchases) _ _ perm at) (orders i).1 ordered in
      (
        rows,
        perm,
        ordered,
        read_pages-pages arrange limit k q db rows one
            ∙ ap (map purchase_of) (
                pages_all limit k rows
                  (subst (λ n. n ≤ k * limit) (sym (length-perm rows wanted perm)) enough)),
      )
