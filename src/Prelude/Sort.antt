-- ===== src/Prelude/Sort.antt =====
-- ORDER BY as an insertion sort, and LIMIT with OFFSET as pages.
use Prim.Native.Nat.{ℕ, zero, suc, ◌+◌, ◌*◌, ◌≤◌}
use mathlib.Core.Path.{◌≡◌, refl, sym, ap, ◌∙◌}
use mathlib.Core.Bool.{Bool, true, false}
use mathlib.Core.List.{List, [], ◌∷◌, ◌++◌, Perm}
use mathlib.Core.List.Perm
use native.Mathlib.Omega.{arith}
use homtech_hub.Prelude.Tests.{if◌then◌else◌}
use homtech_hub.Prelude.Lists.{length, take, drop, take_all}

module _ {ℓ} {A : Type ℓ} (before : A → A → Bool) where
  unfoldable pub insert_by : A → List A → List A
  insert_by x [] = x ∷ []
  insert_by x (y ∷ ys) = if before x y then x ∷ y ∷ ys else y ∷ insert_by x ys

  unfoldable pub sort_by : List A → List A
  unfolding insert_by
  sort_by [] = []
  sort_by (x ∷ xs) = insert_by x (sort_by xs)

  insert_by-perm : (x : A) (xs : List A) → Perm (insert_by x xs) (x ∷ xs)
  unfolding insert_by
  insert_by-perm x [] = Perm.rfl
  insert_by-perm x (y ∷ ys) = go (insert_by-perm x ys) (before x y)
    where
      go :
          Perm (insert_by x ys) (x ∷ ys)
          → (b : Bool) → Perm (if b then x ∷ y ∷ ys else y ∷ insert_by x ys) (x ∷ y ∷ ys)
      go rest true = Perm.rfl
      go rest false = Perm.trans (Perm.cons y rest) (Perm.swap x y ys)

  -- A sort only rearranges.
  pub sort_by-perm : (xs : List A) → Perm (sort_by xs) xs
  unfolding sort_by
  sort_by-perm [] = Perm.rfl
  sort_by-perm (x ∷ xs) = Perm.trans (insert_by-perm x (sort_by xs)) (Perm.cons x (sort_by-perm xs))

  length-insert_by : (x : A) (xs : List A) → length (insert_by x xs) ≡ suc (length xs)
  unfolding insert_by
  length-insert_by x [] = refl
  length-insert_by x (y ∷ ys) = ground (arith, length-insert_by x ys)

  pub length-sort_by : (xs : List A) → length (sort_by xs) ≡ length xs
  unfolding sort_by
  length-sort_by [] = refl
  length-sort_by (x ∷ xs) = omega (arith, length-insert_by x (sort_by xs), length-sort_by xs)

module _ {ℓ} {A : Type ℓ} where
  -- LIMIT limit OFFSET offset
  abbrev pub page : ℕ → ℕ → List A → List A
  page limit offset xs = take limit (drop offset xs)

  -- The first pages of a size, one after the other.
  abbrev pub pages : ℕ → ℕ → List A → List A
  pages limit zero xs = []
  pages limit (suc k) xs = pages limit k xs ++ page limit (k * limit) xs

  take_none : (n : ℕ) → take {A = A} n [] ≡ []
  unfolding take
  take_none zero = refl
  take_none (suc n) = refl

  same_take : (n m : ℕ) (xs : List A) → n ≡ m → take n xs ≡ take m xs
  same_take n m xs e = ap (λ k. take k xs) e

  take-page : (n m : ℕ) (xs : List A) → take n xs ++ page m n xs ≡ take (n + m) xs
  unfolding take drop
  take-page zero m xs = same_take m (0 + m) xs (omega arith)
  take-page (suc n) m [] = take_none m ∙ sym (take_none (suc n + m))
  take-page (suc n) m (x ∷ xs) =
      ap (◌∷◌ x) (take-page n m xs) ∙ same_take (suc (n + m)) (suc n + m) (x ∷ xs) (omega arith)

  pages-take : (limit k : ℕ) (xs : List A) → pages limit k xs ≡ take (k * limit) xs
  unfolding take
  pages-take limit zero xs = same_take 0 (0 * limit) xs (omega arith)
  pages-take limit (suc k) xs =
      ap (λ shown. shown ++ page limit (k * limit) xs) (pages-take limit k xs)
      ∙ take-page (k * limit) limit xs
      ∙ same_take (k * limit + limit) (suc k * limit) xs (grind arith)

  -- Enough pages show everything, in order, once.
  pub pages_all : (limit k : ℕ) (xs : List A) → length xs ≤ k * limit → pages limit k xs ≡ xs
  pages_all limit k xs h = pages-take limit k xs ∙ take_all (k * limit) xs h
