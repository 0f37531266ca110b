-- ===== src/Airpay/History/Search.antt =====
-- The search text of `history_where` in api/airpay_runtime/airpay_history.py, as a pattern of ILIKE.
use mathlib.Core.List.{map-append}
use homtech_hub.Prelude.{
  ℕ, ◌≡◌, refl, ap, ◌∙◌, Text, Bool, true, false, ◌&&◌, ◌||◌, Bool-cases, inl, inr, [], ◌∷◌, ◌++◌,
  map, if◌then◌else◌, ◌==◌, is_empty, arith, any_text, literal, like_items, matches_items,
  starts_with, occurs_in, some_tail,
}
use homtech_hub.Airpay.History.{escaped, finds}

abbrev is_special : ℕ → Bool
is_special c = c == 0x5c || c == b'%' || c == b'_'

escaped-cons :
    (c : ℕ) (q : Text)
    → escaped (c ∷ q) ≡ (if is_special c then 0x5c ∷ c ∷ escaped q else c ∷ escaped q)
unfolding escaped
escaped-cons c q = ground arith

escaped_nil : escaped [] ≡ []
unfolding escaped
escaped_nil = refl

plain_item :
    (c : ℕ) (p : Text)
    → is_special c ≡ false
    → like_items false (c ∷ p) ≡ literal c ∷ like_items false p
unfolding like_items
plain_item c p h = ground arith

guarded_item : (c : ℕ) (p : Text) → like_items false (0x5c ∷ c ∷ p) ≡ literal c ∷ like_items false p
unfolding like_items
guarded_item c p = refl

-- Lowering leaves \, % and _ as they are, and makes no other character into one of them.
pub record KeepsSpecial (fold : ℕ → ℕ) : Type 0 where
  pub special : (c : ℕ) → is_special (fold c) ≡ is_special c
  pub fixed : (c : ℕ) → is_special c ≡ true → fold c ≡ c

module _ (fold : ℕ → ℕ) (keeps : KeepsSpecial fold) where
  -- The pattern of an escaped text is the text's own characters.
  escaped-items :
      (q rest : Text)
      → like_items false (map fold (escaped q) ++ rest)
        ≡ map literal (map fold q) ++ like_items false rest
  escaped-items [] rest = rw escaped_nil
  escaped-items (c ∷ q) rest = elim (Bool-cases (is_special c)) [
    | inl special ↦ rw (escaped-cons c q) (
        rw special (
          rw (keeps.fixed 0x5c refl) (
            guarded_item (fold c) (map fold (escaped q) ++ rest)
            ∙ ap (◌∷◌ (literal (fold c))) (escaped-items q rest))))
    | inr plain ↦ rw (escaped-cons c q) (
        rw plain (
          plain_item (fold c) (map fold (escaped q) ++ rest) (keeps.special c ∙ plain)
          ∙ ap (◌∷◌ (literal (fold c))) (escaped-items q rest)))
  ]

any_matches : (t : Text) → matches_items (any_text ∷ []) t ≡ true
unfolding matches_items
any_matches [] = refl
any_matches (c ∷ t) = any_matches t

literals-match : (q t : Text) → matches_items (map literal q ++ any_text ∷ []) t ≡ starts_with q t
unfolding matches_items starts_with
literals-match [] t = any_matches t
literals-match (x ∷ q) [] = refl
literals-match (x ∷ q) (y ∷ t) = ap (λ b. x == y && b) (literals-match q t)

starts_with_nothing : (q : Text) → starts_with q [] ≡ is_empty q
unfolding starts_with
starts_with_nothing [] = refl
starts_with_nothing (x ∷ q) = refl

tails-match :
    (q t : Text) → matches_items (any_text ∷ (map literal q ++ any_text ∷ [])) t ≡ occurs_in q t
unfolding matches_items occurs_in
tails-match q [] = literals-match q [] ∙ starts_with_nothing q
tails-match q (c ∷ t) =
    ap (λ b. b || some_tail (matches_items (map literal q ++ any_text ∷ [])) t)
      (literals-match q (c ∷ t))
    ∙ ap (λ b. starts_with q (c ∷ t) || b) (tails-match q t)

module _ (fold : ℕ → ℕ) (keeps : KeepsSpecial fold) where
  pattern_items :
      (q : Text)
      → like_items false (map fold (escaped q ++ b'%' ∷ []))
        ≡ map literal (map fold q) ++ any_text ∷ []
  unfolding like_items
  pattern_items q =
      ap (like_items false) (map-append fold (escaped q) (b'%' ∷ []))
      ∙ rw (keeps.fixed b'%' refl) (escaped-items fold keeps q (b'%' ∷ []))

  -- The search of the history finds a column exactly if it contains the text, both with their letters lowered
  -- as the database does it, of whatever alphabet: characters that mean something to ILIKE stand for
  -- themselves. This takes it that lowering leaves these characters alone.
  pub search_is_literal :
      (q column : Text) → finds fold q column ≡ occurs_in (map fold q) (map fold column)
  unfolding finds matches_items
  search_is_literal q column = rw (keeps.fixed b'%' refl) (
      ap (λ items. some_tail (matches_items items) (map fold column)) (pattern_items q)
      ∙ tails-match (map fold q) (map fold column))
