-- ===== src/Prelude/Strip.antt =====
-- What `strip` leaves has no space at its ends, so that a second `strip` changes nothing.
use Prim.Native.Nat.{ℕ}
use mathlib.Core.Path.{◌≡◌, refl, ap, ◌∙◌}
use mathlib.Core.Logic.{◌⊎◌, inl, inr}
use mathlib.Core.Bool.{Bool, true, false, ◌&&◌}
use mathlib.Core.List.{[], ◌∷◌, ◌++◌, reverse, reverse-cons, reverse-append}
use native.Mathlib.Omega.{arith}
use homtech_hub.Prelude.Tests.{if◌then◌else◌, Bool-cases}
use homtech_hub.Prelude.Strings.{Text, is_empty, is_space, lstrip, strip}

rstrip : Text → Text
rstrip s = reverse (lstrip (reverse s))

lstrip-snoc :
    (s : Text) (c : ℕ)
    → lstrip (s ++ c ∷ [])
      ≡ (if is_empty (lstrip s) then (if is_space c then [] else c ∷ []) else lstrip s ++ c ∷ [])
unfolding lstrip
lstrip-snoc [] c = refl
lstrip-snoc (x ∷ s) c = elim (Bool-cases (is_space x)) [
  | inl space ↦ rw space (lstrip-snoc s c)
  | inr letter ↦ rw letter refl
]

is_empty-snoc : (s : Text) (c : ℕ) → is_empty (s ++ c ∷ []) ≡ false
is_empty-snoc [] c = refl
is_empty-snoc (x ∷ s) c = refl

is_empty-reverse : (s : Text) → is_empty (reverse s) ≡ is_empty s
is_empty-reverse [] = refl
is_empty-reverse (c ∷ s) = ap is_empty (reverse-cons c s) ∙ is_empty-snoc (reverse s) c

reverse_if :
    (t : Text) (c : ℕ) (space : Bool)
    → reverse (if is_empty t then (if space then [] else c ∷ []) else t ++ c ∷ [])
      ≡ (if is_empty (reverse t) && space then [] else c ∷ reverse t)
reverse_if [] c true = refl
reverse_if [] c false = refl
reverse_if (x ∷ t) c space = rw (is_empty-reverse (x ∷ t)) (reverse-append (x ∷ t) (c ∷ []))

rstrip-cons :
    (c : ℕ) (s : Text)
    → rstrip (c ∷ s) ≡ (if is_empty (rstrip s) && is_space c then [] else c ∷ rstrip s)
unfolding rstrip
rstrip-cons c s =
    ap (λ t. reverse (lstrip t)) (reverse-cons c s)
    ∙ ap reverse (lstrip-snoc (reverse s) c)
    ∙ reverse_if (lstrip (reverse s)) c (is_space c)

rstrip-nil : rstrip [] ≡ []
unfolding rstrip lstrip
rstrip-nil = refl

rstrip-rstrip : (s : Text) → rstrip (rstrip s) ≡ rstrip s
rstrip-rstrip [] = ap rstrip rstrip-nil
rstrip-rstrip (c ∷ s) = elim (Bool-cases (is_empty (rstrip s) && is_space c)) [
  | inl ends ↦ rw (rstrip-cons c s) (rw ends rstrip-nil)
  | inr stays ↦
      rw (rstrip-cons c s)
        (rw stays (rstrip-cons c (rstrip s) ∙ rw (rstrip-rstrip s) (rw stays refl)))
]

lstrip-cases :
    (s : Text)
    → (lstrip s ≡ []) ⊎ ((c : ℕ) × (t : Text) × (lstrip s ≡ c ∷ t) × (is_space c ≡ false))
unfolding lstrip
lstrip-cases [] = inl refl
lstrip-cases (c ∷ s) = elim (Bool-cases (is_space c)) [
  | inl space ↦ rw space (lstrip-cases s)
  | inr letter ↦ inr (c, s, rw letter refl, letter)
]

strip-nil : strip [] ≡ []
unfolding strip lstrip
strip-nil = refl

rstrip-letter : (c : ℕ) (s : Text) → is_space c ≡ false → rstrip (c ∷ s) ≡ c ∷ rstrip s
rstrip-letter c s letter = rw (rstrip-cons c s) (rw letter (ground arith))

lstrip-letter : (c : ℕ) (s : Text) → is_space c ≡ false → lstrip (c ∷ s) ≡ c ∷ s
unfolding lstrip
lstrip-letter c s letter = rw letter refl

strip-rstrip : (s : Text) → strip s ≡ rstrip (lstrip s)
unfolding strip rstrip
strip-rstrip s = refl

pub strip-strip : (s : Text) → strip (strip s) ≡ strip s
strip-strip s = elim (lstrip-cases s) [
  | inl nothing ↦
      let empty : strip s ≡ [] = strip-rstrip s ∙ ap rstrip nothing ∙ rstrip-nil in
      rw empty strip-nil
  | inr (c, t, e, letter) ↦
      let same : strip s ≡ c ∷ rstrip t = strip-rstrip s ∙ ap rstrip e ∙ rstrip-letter c t letter in
      rw same (
        strip-rstrip (c ∷ rstrip t)
        ∙ ap rstrip (lstrip-letter c (rstrip t) letter)
        ∙ rstrip-letter c (rstrip t) letter
        ∙ ap (◌∷◌ c) (rstrip-rstrip t))
]
