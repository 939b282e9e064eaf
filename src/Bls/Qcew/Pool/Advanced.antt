-- ===== src/Bls/Qcew/Pool/Advanced.antt =====
-- One step of a worker leaves the slices covered (packages/server-bls/src/qcew-indicators.ts:
-- `fetchSlicesBounded`).
use federal_mcps.Common.{
  ℕ, ◌≤◌, ◌<◌, ◌≡◌, ◌⊎◌, inl, inr, refl, ap, leb, ◌==◌, leb→le, lt→ltb, Bool, true, false, Option,
  none, some, List, [], ◌∷◌, ◌++◌, arith, if-cases, if-both, Bool-cases,
}
use federal_mcps.Common.Members.{Member}
use federal_mcps.Bls.Qcew.History.{Slice}
use federal_mcps.Bls.Qcew.Pool.{Worker, fetching, finished, failed, Pool, put, fill, advance}

abbrev pub is_filled : Option Slice → Bool
is_filled none = false
is_filled (some slice) = true

-- Every slice that was begun has a result, or is being fetched, or its worker has thrown.
abbrev pub IsCovered : ℕ → Pool → Type 0
IsCovered size p =
    (j : ℕ)
    → j < size
    → j < p.cursor
    → (is_filled (p.results j) ≡ true) ⊎ (Member (fetching j) p.workers ⊎ Member failed p.workers)

-- A worker returns only when every slice was begun.
abbrev pub IsDrained : ℕ → Pool → Type 0
IsDrained size p = Member finished p.workers → size ≤ p.cursor

abbrev pub IsSound : ℕ → Pool → Type 0
IsSound size p = IsCovered size p × IsDrained size p

-- What a worker's step does to what was begun: it begins the next slice, or marks the rest.
abbrev pub IsAdvanced : ℕ → Pool → Worker × Pool → Type 0
IsAdvanced size p (w, q) =
    ((j : ℕ)
      → j < size
      → j < q.cursor
      → (is_filled (q.results j) ≡ true)
        ⊎ ((w ≡ fetching j) ⊎ ((j < p.cursor) × (q.results j ≡ p.results j))))
    × (w ≡ finished → size ≤ q.cursor)
    × (p.cursor ≤ q.cursor)

pub filled-put :
    (i j : ℕ) (slice : Slice) (results : ℕ → Option Slice)
    → is_filled (results j) ≡ true
    → is_filled (put i slice results j) ≡ true
filled-put i j slice results h = if-both (λ o. is_filled o ≡ true) (j == i) refl h

fill-cases :
    (cursor size j : ℕ) (results : ℕ → Option Slice)
    → j < size
    → (is_filled (fill cursor size results j) ≡ true)
      ⊎ ((j < cursor) × (fill cursor size results j ≡ results j))
fill-cases cursor size j results within = elim (Bool-cases (leb cursor j)) [
  | inl later ↦ inl (rw (later, lt→ltb j size within) refl)
  | inr before ↦ inr (ground (arith, before), rw before refl)
]

pub advance-IsAdvanced : (size : ℕ) (p : Pool) → IsAdvanced size p (advance size p)
unfolding advance
advance-IsAdvanced size p =
    if-both (IsAdvanced size p) p.aborted
      (
        λ j within begun. elim (fill-cases p.cursor size j p.results within) [
          | inl full ↦ inl full
          | inr kept ↦ inr (inr kept)
        ],
        λ done. omega arith,
        omega arith,
      )
      (if-cases (IsAdvanced size p) (leb size p.cursor)
        (λ all. (
          λ j within begun. inr (inr (omega (arith, leb→le size p.cursor all, within), refl)),
          λ done. omega (arith, leb→le size p.cursor all),
          omega arith,
        ))
        (λ more. (
          λ j within begun. elim (Bool-cases (leb p.cursor j)) [
            | inl next ↦
                let same : p.cursor ≡ j = omega (arith, leb→le p.cursor j next, begun) in
                inr (inl (ap fetching same))
            | inr before ↦ inr (inr (ground (arith, before), refl))
          ],
          λ (done : fetching p.cursor ≡ finished). cc,
          omega arith,
        )))

pub Member-middle : (z : Worker) (before after : List Worker) → Member z (before ++ z ∷ after)
Member-middle z [] after = inl refl
Member-middle z (x ∷ before) after = inr (Member-middle z before after)

-- What is in a list is what is replaced, or stays.
pub Member-replace :
    (x y z : Worker) (before after : List Worker)
    → Member x (before ++ y ∷ after)
    → (y ≡ x) ⊎ Member x (before ++ z ∷ after)
Member-replace x y z [] after m = elim m [ inl e ↦ inl e | inr later ↦ inr (inr later) ]
Member-replace x y z (w ∷ before) after m = elim m [
  | inl e ↦ inr (inl e)
  | inr later ↦ elim (Member-replace x y z before after later) [
    | inl e ↦ inl e
    | inr there ↦ inr (inr there)
  ]
]

pub fetching-failed : (i : ℕ) → fetching i ≡ failed → ⊥
fetching-failed i e = cc

pub failed-finished : failed ≡ finished → ⊥
failed-finished e = cc

pub fetching-inj : (i j : ℕ) → fetching i ≡ fetching j → i ≡ j
fetching-inj i j e = cc

pub put-same :
    (i j : ℕ) (slice : Slice) (results : ℕ → Option Slice)
    → i ≡ j
    → put i slice results j ≡ some slice
put-same i j slice results e = let same : (j == i) ≡ true = ground (arith, e) in rw same refl
