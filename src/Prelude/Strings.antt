-- ===== src/Prelude/Strings.antt =====
-- Python's `str` as the list of its code points.
use Prim.Native.Nat.{ℕ, ◌≤◌}
use Prim.Native.Char.{code}
use Prim.Native.String.{String}
use mathlib.Core.Path.{◌≡◌, refl, sym}
use mathlib.Core.Logic.{◌↔◌, inl, inr}
use mathlib.Core.Bool.{Bool, true, false, ◌&&◌, ◌||◌}
use mathlib.Core.List.{List, [], ◌∷◌, reverse}
use native.Mathlib.Omega.{arith}
use homtech_hub.Prelude.Tests.{◌==◌, leb, if◌then◌else◌, Bool-cases}
use homtech_hub.Prelude.Lists.{length, take, length-take}

abbrev pub Text : Type 0
Text = List ℕ

-- The code points of a literal. Shut, so that a message in a model stays one term.
unfoldable pub codes : String → Text
codes String.[] = []
codes (String.◌∷◌ c s) = code c ∷ codes s

unfoldable pub text_eq : Text → Text → Bool
text_eq [] [] = true
text_eq [] (_ ∷ _) = false
text_eq (_ ∷ _) [] = false
text_eq (x ∷ xs) (y ∷ ys) = x == y && text_eq xs ys

pub text_eq_iff : (s t : Text) → (text_eq s t ≡ true) ↔ (s ≡ t)
unfolding text_eq
text_eq_iff [] [] = ground arith
text_eq_iff [] (_ ∷ _) = ground arith
text_eq_iff (_ ∷ _) [] = ground arith
text_eq_iff (x ∷ xs) (y ∷ ys) = ground (arith, text_eq_iff xs ys)

pub text_eq_refl : (s : Text) → text_eq s s ≡ true
text_eq_refl s = (text_eq_iff s s).1 refl

pub text_eq_sym : (a b : Text) → text_eq a b ≡ false → text_eq b a ≡ false
text_eq_sym a b differ = elim (Bool-cases (text_eq b a)) [
  | inl same ↦ absurd (ground (arith, (text_eq_iff a b).1 (sym ((text_eq_iff b a).0 same)), differ))
  | inr other ↦ other
]

-- The truth value of a `str`.
abbrev pub is_empty : Text → Bool
is_empty [] = true
is_empty (_ ∷ _) = false

-- `a or b` on texts.
abbrev pub or_else : Text → Text → Text
or_else [] t = t
or_else (c ∷ s) _ = c ∷ s

-- The ASCII part of what `str.strip` removes.
abbrev pub is_space : ℕ → Bool
is_space c = (leb 9 c && leb c 13) || (leb 28 c && leb c 32)

unfoldable pub lstrip : Text → Text
lstrip [] = []
lstrip (c ∷ s) = if is_space c then lstrip s else c ∷ s

unfoldable pub strip : Text → Text
unfolding lstrip
strip s = reverse (lstrip (reverse (lstrip s)))

-- `message[:2000]`
unfoldable pub truncated : Text → Text
unfolding take
truncated s = take 2000 s

pub length-truncated : (s : Text) → length (truncated s) ≤ 2000
unfolding truncated
length-truncated s = length-take 2000 s
