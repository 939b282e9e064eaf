-- ===== src/Common/Sets.antt =====
-- A `Set` of texts, as a list that has each of them once, in the order of insertion.
use Prim.Native.String.{String}
use mathlib.Core.Path.{◌≡◌, refl, ◌∙◌}
use mathlib.Core.Logic.{inl, inr}
use mathlib.Core.Bool.{Bool, true, false, ◌&&◌, ◌||◌, not}
use Prim.Native.Nat.{◌≤◌}
use mathlib.Core.List.{List, [], ◌∷◌}
use native.Mathlib.Omega.{arith}
use text.Mathlib.Text.{◌==◌ as str_eq}
use text.Mathlib.TextEquality.{eq_iff}
use federal_mcps.Common.Tests.{if◌then◌else◌, Bool-cases}
use federal_mcps.Common.Lists.{length}
use federal_mcps.Common.Members.{Member}

-- `s.has(x)`, `xs.includes(x)`
unfoldable pub has : String → List String → Bool
has x [] = false
has x (y ∷ ys) = str_eq y x || has x ys

unfoldable pub leave_out : String → List String → List String
leave_out x [] = []
leave_out x (y ∷ ys) = let rest = leave_out x ys in if str_eq y x then rest else y ∷ rest

-- `[...new Set(xs)]`
unfoldable pub distinct : List String → List String
distinct [] = []
distinct (x ∷ xs) = x ∷ leave_out x (distinct xs)

-- No text stands in the list twice.
unfoldable pub are_distinct : List String → Bool
are_distinct [] = true
are_distinct (x ∷ xs) = not (has x xs) && are_distinct xs

has-leave_out :
    (x y : String) (l : List String) → has x (leave_out y l) ≡ (has x l && not (str_eq y x))
unfolding has leave_out
has-leave_out x y [] = refl
has-leave_out x y (z ∷ l) = ground (arith, has-leave_out x y l, eq_iff z y, eq_iff z x, eq_iff y x)

-- The set has what the list has.
pub has-distinct : (x : String) (l : List String) → has x (distinct l) ≡ has x l
unfolding has distinct
has-distinct x [] = refl
has-distinct x (y ∷ l) = ground (arith, has-leave_out x y (distinct l), has-distinct x l)

are_distinct-leave_out :
    (x : String) (l : List String) → are_distinct l ≡ true → are_distinct (leave_out x l) ≡ true
unfolding are_distinct leave_out
are_distinct-leave_out x [] h = refl
are_distinct-leave_out x (y ∷ l) h = ground (arith, has-leave_out y x l, are_distinct-leave_out x l)

pub are_distinct-distinct : (l : List String) → are_distinct (distinct l) ≡ true
unfolding are_distinct distinct
are_distinct-distinct [] = refl
are_distinct-distinct (x ∷ l) = ground (
  arith,
  has-leave_out x x (distinct l),
  are_distinct-distinct l,
  are_distinct-leave_out x (distinct l),
  eq_iff x x,
)

single : (d : List String) (x y : String) → length d ≤ 1 → has x d ≡ true → has y d ≡ true → x ≡ y
unfolding has
single [] x y h hx hy = cc
single (z ∷ []) x y h hx hy = ground (arith, eq_iff z x, eq_iff z y)
single (z ∷ w ∷ d) x y h hx hy = absurd (omega arith)

-- Of a list that has one text only, in whatever number, any two are the same.
pub distinct-single :
    (l : List String) (x y : String)
    → length (distinct l) ≤ 1
    → has x l ≡ true
    → has y l ≡ true
    → x ≡ y
distinct-single l x y short hx hy =
    single (distinct l) x y short (has-distinct x l ∙ hx) (has-distinct y l ∙ hy)

pub has-Member : (x : String) (l : List String) → Member x l → has x l ≡ true
unfolding has
has-Member x [] m = absurd m
has-Member x (y ∷ l) m = elim m [
  | inl e ↦ ground (arith, eq_iff y x)
  | inr later ↦ ground (arith, has-Member x l later)
]

pub Member-has : (x : String) (l : List String) → has x l ≡ true → Member x l
unfolding has
Member-has x [] h = cc
Member-has x (y ∷ l) h = elim (Bool-cases (str_eq y x)) [
  | inl same ↦ inl ((eq_iff y x).0 same)
  | inr other ↦ inr (Member-has x l (ground arith))
]
