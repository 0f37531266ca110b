-- ===== src/Prelude/Like.antt =====
-- SQL's LIKE and ILIKE, `str.replace` of one character, and Python's `s in t`.
use Prim.Native.Nat.{ℕ}
use mathlib.Core.Bool.{Bool, true, false, ◌&&◌, ◌||◌}
use mathlib.Core.List.{List, [], ◌∷◌, ◌++◌, map}
use homtech_hub.Prelude.Tests.{◌==◌, if◌then◌else◌}
use homtech_hub.Prelude.Strings.{Text, is_empty}

unfoldable pub starts_with : Text → Text → Bool
starts_with [] t = true
starts_with (x ∷ s) [] = false
starts_with (x ∷ s) (y ∷ t) = x == y && starts_with s t

-- `s in t`
unfoldable pub occurs_in : Text → Text → Bool
unfolding starts_with
occurs_in s [] = is_empty s
occurs_in s (y ∷ t) = starts_with s (y ∷ t) || occurs_in s t

-- `text.replace(c, by)` for a character `c`
unfoldable pub replace_char : ℕ → Text → Text → Text
replace_char c by [] = []
replace_char c by (x ∷ s) =
    let rest = replace_char c by s in if x == c then by ++ rest else x ∷ rest

pub data LikeItem : Type 0 where
  any_text any_char : LikeItem
  literal : ℕ → LikeItem

-- A pattern, where \ makes the next character an ordinary one.
unfoldable pub like_items : Bool → Text → List LikeItem
like_items escaped [] = []
like_items true (c ∷ p) = literal c ∷ like_items false p
like_items false (c ∷ p) =
    let escape = like_items true p in
    let rest = like_items false p in
    if c == 0x5c
    then escape
    else if c == b'%'
    then any_text ∷ rest
    else if c == b'_'
    then any_char ∷ rest
    else literal c ∷ rest

-- A test of a text or of one of its ends.
abbrev pub some_tail : (Text → Bool) → Text → Bool
some_tail p [] = p []
some_tail p (c ∷ t) = p (c ∷ t) || some_tail p t

unfoldable pub matches_items : List LikeItem → Text → Bool
matches_items [] t = is_empty t
matches_items (any_text ∷ items) t = some_tail (matches_items items) t
matches_items (any_char ∷ items) [] = false
matches_items (any_char ∷ items) (c ∷ t) = matches_items items t
matches_items (literal x ∷ items) [] = false
matches_items (literal x ∷ items) (c ∷ t) = x == c && matches_items items t

-- `text ILIKE pattern`, where `fold` is how the database lowers a character
unfoldable pub ilike : (ℕ → ℕ) → Text → Text → Bool
unfolding like_items matches_items
ilike fold pattern text = matches_items (like_items false (map fold pattern)) (map fold text)
