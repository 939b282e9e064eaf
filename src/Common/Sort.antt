-- ===== src/Common/Sort.antt =====
-- `Array.prototype.sort` with a comparison: `before a b` says that the comparison of `a` with `b` is
-- negative. The sort is stable, as the language demands.
use mathlib.Core.Path.{◌≡◌}
use mathlib.Core.Logic.{inl, inr}
use mathlib.Core.Bool.{Bool, true, false}
use mathlib.Core.List.{List, [], ◌∷◌, Perm, Mem}
use mathlib.Core.List.Perm
use federal_mcps.Common.Tests.{if◌then◌else◌, Bool-cases}
use federal_mcps.Common.Lists.{All}

module _ {ℓ} {A : Type ℓ} (before : A → A → Bool) where
  unfoldable pub sort_in : A → List A → List A
  sort_in x [] = x ∷ []
  sort_in x (y ∷ ys) = let rest = sort_in x ys in if before y x then y ∷ rest else x ∷ y ∷ ys

  unfoldable pub sort : List A → List A
  sort [] = []
  sort (x ∷ xs) = sort_in x (sort xs)

  sort_in-Perm : (x : A) (l : List A) → Perm (sort_in x l) (x ∷ l)
  unfolding sort_in
  sort_in-Perm x [] = Perm.rfl
  sort_in-Perm x (y ∷ ys) = elim (Bool-cases (before y x)) [
    | inl first ↦
        rw (first, sort_in) (Perm.trans (Perm.cons y (sort_in-Perm x ys)) (Perm.swap x y ys))
    | inr later ↦ rw (later, sort_in) Perm.rfl
  ]

  -- Sorting rearranges.
  pub sort-Perm : (l : List A) → Perm (sort l) l
  unfolding sort
  sort-Perm [] = Perm.rfl
  sort-Perm (x ∷ xs) = Perm.trans (sort_in-Perm x (sort xs)) (Perm.cons x (sort-Perm xs))

  -- No item of the list comes before `x`.
  abbrev pub IsFirst : A → List A → Type 0
  IsFirst x l = All (λ y. before y x ≡ false) l

  abbrev pub IsSorted : List A → Type 0
  IsSorted [] = Unit
  IsSorted (x ∷ xs) = IsFirst x xs × IsSorted xs

  pub sort-Mem : (x : A) (l : List A) → Mem x (sort l) → Mem x l
  sort-Mem x l m = (Perm.mem_iff (sort-Perm l)).0 m

  pub sort-Mem' : (x : A) (l : List A) → Mem x l → Mem x (sort l)
  sort-Mem' x l m = (Perm.mem_iff (sort-Perm l)).1 m

  -- What the language demands of a comparison.
  pub record IsOrder : Type ℓ where
    pub asymmetric : (a b : A) → before a b ≡ true → before b a ≡ false
    pub transitive : (a b c : A) → before b a ≡ false → before c b ≡ false → before c a ≡ false

  module _ (o : IsOrder) where
    IsFirst-trans : (x y : A) (l : List A) → before y x ≡ false → IsFirst y l → IsFirst x l
    IsFirst-trans x y [] e h = tt
    IsFirst-trans x y (z ∷ l) e (k, h) = (o.transitive x y z e k, IsFirst-trans x y l e h)

    sort_in-IsFirst :
        (x y : A) (l : List A) → before x y ≡ false → IsFirst y l → IsFirst y (sort_in x l)
    unfolding sort_in
    sort_in-IsFirst x y [] e h = (e, tt)
    sort_in-IsFirst x y (z ∷ l) e (k, h) = elim (Bool-cases (before z x)) [
      | inl first ↦ rw (first, sort_in) (k, sort_in-IsFirst x y l e h)
      | inr later ↦ rw (later, sort_in) (e, (k, h))
    ]

    sort_in-IsSorted : (x : A) (l : List A) → IsSorted l → IsSorted (sort_in x l)
    unfolding sort_in
    sort_in-IsSorted x [] h = (tt, tt)
    sort_in-IsSorted x (y ∷ l) (k, h) = elim (Bool-cases (before y x)) [
      | inl first ↦
          rw (first, sort_in)
            (sort_in-IsFirst x y l (o.asymmetric y x first) k, sort_in-IsSorted x l h)
      | inr later ↦ rw (later, sort_in) ((later, IsFirst-trans x y l later k), (k, h))
    ]

    -- After sorting no item comes before an earlier one.
    pub sort-IsSorted : (l : List A) → IsSorted (sort l)
    unfolding sort
    sort-IsSorted [] = tt
    sort-IsSorted (x ∷ l) = sort_in-IsSorted x (sort l) (sort-IsSorted l)
