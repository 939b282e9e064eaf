-- ===== src/Common/Members.antt =====
-- Membership in a list that says where the item stands.
use mathlib.Core.Path.{◌≡◌, refl, sym, subst, ap, ◌∙◌}
use mathlib.Core.Logic.{◌⊎◌, inl, inr}
use mathlib.Core.Bool.{Bool, true, true≢false}
use mathlib.Core.List.{List, [], ◌∷◌, ◌++◌, map}
use federal_mcps.Common.Tests.{Bool-cases}
use federal_mcps.Common.Lists.{All, filter, take}
use federal_mcps.Common.Sort.{sort_in, sort}
use Prim.Native.Nat.{ℕ, zero, suc}

abbrev pub Member : {A : Type 0} → A → List A → Type 0
Member x [] = ⊥
Member x (y ∷ ys) = (y ≡ x) ⊎ Member x ys

module _ {A : Type 0} where
  pub All-Member : (P : A → Type 0) (l : List A) (x : A) → All P l → Member x l → P x
  All-Member P [] x h m = absurd m
  All-Member P (y ∷ l) x (p, h) m = elim m [
    | inl e ↦ subst P e p
    | inr later ↦ All-Member P l x h later
  ]

  pub All-of_Member : (P : A → Type 0) (l : List A) → ((x : A) → Member x l → P x) → All P l
  All-of_Member P [] f = tt
  All-of_Member P (x ∷ l) f = (f x (inl refl), All-of_Member P l (λ y m. f y (inr m)))

  Member-append : (x : A) (k l : List A) → Member x (k ++ l) → Member x k ⊎ Member x l
  Member-append x [] l m = inr m
  Member-append x (y ∷ k) l m = elim m [
    | inl e ↦ inl (inl e)
    | inr later ↦ elim (Member-append x k l later) [ inl a ↦ inl (inr a) | inr b ↦ inr b ]
  ]

  pub Member-append_left : (x : A) (k l : List A) → Member x k → Member x (k ++ l)
  Member-append_left x [] l m = absurd m
  Member-append_left x (y ∷ k) l m = elim m [
    | inl e ↦ inl e
    | inr later ↦ inr (Member-append_left x k l later)
  ]

  pub Member-append_right : (x : A) (k l : List A) → Member x l → Member x (k ++ l)
  Member-append_right x [] l m = m
  Member-append_right x (y ∷ k) l m = inr (Member-append_right x k l m)

  pub take-Member : (n : ℕ) (x : A) (l : List A) → Member x (take n l) → Member x l
  take-Member zero x l m = absurd m
  take-Member (suc n) x [] m = absurd m
  take-Member (suc n) x (y ∷ l) m = elim m [
    | inl e ↦ inl e
    | inr later ↦ inr (take-Member n x l later)
  ]

  pub filter-Member :
      (p : A → Bool) (x : A) (l : List A) → Member x (filter p l) → Member x l × (p x ≡ true)
  unfolding filter
  filter-Member p x [] m = absurd m
  filter-Member p x (y ∷ l) m = elim (Bool-cases (p y)) [
    | inl holds ↦ elim (rw (holds, filter) at m) [
      | inl e ↦ (inl e, ap p (sym e) ∙ holds)
      | inr later ↦ let (k, h) = filter-Member p x l later in (inr k, h)
    ]
    | inr fails ↦ let (k, h) = filter-Member p x l (rw (fails, filter) at m) in (inr k, h)
  ]

  pub Member-filter :
      (p : A → Bool) (x : A) (l : List A) → Member x l → p x ≡ true → Member x (filter p l)
  unfolding filter
  Member-filter p x [] m h = absurd m
  Member-filter p x (y ∷ l) m h = elim (Bool-cases (p y)) [
    | inl holds ↦
        rw (holds, filter)
          (elim m [ inl e ↦ inl e | inr later ↦ inr (Member-filter p x l later h) ])
    | inr fails ↦
        rw (fails, filter)
          (elim m [
            | inl e ↦ absurd (true≢false (sym h ∙ ap p (sym e) ∙ fails))
            | inr later ↦ Member-filter p x l later h
          ])
  ]

  pub All-filter : (P : A → Type 0) (p : A → Bool) (l : List A) → All P l → All P (filter p l)
  All-filter P p l h =
      All-of_Member P (filter p l)
        (λ x m. let (k, _) = filter-Member p x l m in All-Member P l x h k)

  pub filter-All : (p : A → Bool) (l : List A) → All (λ x. p x ≡ true) (filter p l)
  filter-All p l =
      All-of_Member (λ x. p x ≡ true) (filter p l) (λ x m. let (_, h) = filter-Member p x l m in h)

  pub All-take : (P : A → Type 0) (n : ℕ) (l : List A) → All P l → All P (take n l)
  All-take P n l h = All-of_Member P (take n l) (λ x m. All-Member P l x h (take-Member n x l m))

  pub Member-map :
      {B : Type 0} (f : A → B) (x : A) (l : List A) → Member x l → Member (f x) (map f l)
  Member-map f x [] m = absurd m
  Member-map f x (y ∷ l) m = elim m [
    | inl e ↦ inl (ap f e)
    | inr later ↦ inr (Member-map f x l later)
  ]

  module _ (before : A → A → Bool) where
    sort_in-Member : (x y : A) (l : List A) → Member y (sort_in before x l) → (x ≡ y) ⊎ Member y l
    unfolding sort_in
    sort_in-Member x y [] m = elim m [ inl e ↦ inl e | inr later ↦ inr later ]
    sort_in-Member x y (z ∷ l) m = elim (Bool-cases (before z x)) [
      | inl first ↦ elim (rw (first, sort_in) at m) [
        | inl e ↦ inr (inl e)
        | inr later ↦ elim (sort_in-Member x y l later) [ inl e ↦ inl e | inr k ↦ inr (inr k) ]
      ]
      | inr last ↦ elim (rw (last, sort_in) at m) [ inl e ↦ inl e | inr later ↦ inr later ]
    ]

    Member-sort_in : (x y : A) (l : List A) → (x ≡ y) ⊎ Member y l → Member y (sort_in before x l)
    unfolding sort_in
    Member-sort_in x y [] m = elim m [ inl e ↦ inl e | inr later ↦ inr later ]
    Member-sort_in x y (z ∷ l) m = elim (Bool-cases (before z x)) [
      | inl first ↦
          rw (first, sort_in)
            (elim m [
              | inl e ↦ inr (Member-sort_in x y l (inl e))
              | inr k ↦ elim k [
                | inl e ↦ inl e
                | inr later ↦ inr (Member-sort_in x y l (inr later))
              ]
            ])
      | inr last ↦ rw (last, sort_in) (elim m [ inl e ↦ inl e | inr later ↦ inr later ])
    ]

    pub sort-Member : (y : A) (l : List A) → Member y (sort before l) → Member y l
    unfolding sort
    sort-Member y [] m = m
    sort-Member y (x ∷ l) m = elim (sort_in-Member x y (sort before l) m) [
      | inl e ↦ inl e
      | inr later ↦ inr (sort-Member y l later)
    ]

    pub Member-sort : (y : A) (l : List A) → Member y l → Member y (sort before l)
    unfolding sort
    Member-sort y [] m = m
    Member-sort y (x ∷ l) m =
        Member-sort_in x y (sort before l)
          (elim m [ inl e ↦ inl e | inr later ↦ inr (Member-sort y l later) ])

    pub All-sort : (P : A → Type 0) (l : List A) → All P l → All P (sort before l)
    All-sort P l h = All-of_Member P (sort before l) (λ x m. All-Member P l x h (sort-Member x l m))
