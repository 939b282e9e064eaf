-- ===== src/Server/Render/Fits.antt =====
-- What the text form of an answer shows and keeps (server/wrap.ts).
use Prim.Native.String.{len}
use mathlib.Core.List.{
  Mem, mem-append_left, mem-append_right, mem-map_of_mem, mem-cons_of_mem, mem-cons_self,
}
use federal_mcps.Common.{
  append_empty, All, ℕ, ◌+◌, ◌≤◌, ◌<◌, ◌≡◌, refl, sym, ap, ◌∙◌, String, Option, List, [], ◌∷◌, ◌++◌,
  arith, ltb, length, max, inl, inr, ◌⊎◌, Bool-cases,
}
use federal_mcps.Server.Render.{
  CompactRendering, Rendered, fitting, notices, render_compact, render_lines, cost, first_item,
  footnote_line, header, limitation_line,
}

-- How the shown items end: with all of them, or before one that does not fit.
abbrev pub IsCut : ℕ → ℕ → List String → List String → Type 0
IsCut budget used items shown =
    (items ≡ shown)
    ⊎ ((item : String) × (rest : List String) × (items ≡ shown ++ item ∷ rest)
        × (budget < used + cost shown + (len item + 1)))

fitting-step :
    (budget used : ℕ) (item : String) (items shown : List String)
    → used + (len item + 1) ≤ budget
    → used + (len item + 1) + cost shown ≤ max (used + (len item + 1)) budget
    → IsCut budget (used + (len item + 1)) items shown
    → (used + cost (item ∷ shown) ≤ max used budget)
      × IsCut budget used (item ∷ items) (item ∷ shown)
fitting-step budget used item items shown fits le (inl e) =
    (omega arith, inl (ap (λ r. item ∷ r) e))
fitting-step budget used item items shown fits le (inr (next, rest, e, over)) =
    (omega arith, inr (next, rest, ap (λ r. item ∷ r) e, omega arith))

fitting-IsCut :
    (budget used : ℕ) (items : List String)
    → (used + cost (fitting budget used items) ≤ max used budget)
      × IsCut budget used items (fitting budget used items)
unfolding fitting
fitting-IsCut budget used [] = (omega arith, inl refl)
fitting-IsCut budget used (item ∷ items) = elim (Bool-cases (ltb budget (used + (len item + 1)))) [
  | inl over ↦ rw (over, fitting) (omega arith, inr (item, items, refl, ground arith))
  | inr fits ↦
      rw (fits, fitting)
        (let (le, cut) = fitting-IsCut budget (used + (len item + 1)) items in
          fitting-step budget used item items (fitting budget (used + (len item + 1)) items)
            (ground arith) le cut)
]

-- The compact form is its head, whole items from the first on, and a notice. The items shown stay
-- within the budget, unless the head alone is past it, and stop only before one that would pass it.
pub render_compact-IsCut :
    (r : CompactRendering) (budget : ℕ)
    → (shown : List String) × (render_compact r budget
        ≡ r.head ++ shown ++ notices r budget (length shown))
      × (cost r.head + cost shown ≤ max (cost r.head) budget)
      × IsCut budget (cost r.head) r.items shown
unfolding render_compact
render_compact-IsCut r budget =
    let (le, cut) = fitting-IsCut budget (cost r.head) r.items in
    (fitting budget (cost r.head) r.items, refl, le, cut)

cost-append : (xs ys : List String) → cost (xs ++ ys) ≡ cost xs + cost ys
cost-append [] ys = omega arith
cost-append (x ∷ xs) ys = omega (arith, cost-append xs ys)

all_fit :
    (budget used : ℕ) (items shown : List String)
    → used + cost items ≤ budget
    → IsCut budget used items shown
    → shown ≡ items
all_fit budget used items shown le (inl e) = sym e
all_fit budget used items shown le (inr (item, rest, e, over)) =
    absurd (omega (arith, ap cost e, cost-append shown (item ∷ rest)))

no_notice : (r : CompactRendering) (budget : ℕ) → notices r budget (length r.items) ≡ []
unfolding notices
no_notice r budget = ground arith

-- A rendering whose head and items are within the budget is shown whole, with no notice.
pub render_compact_whole :
    (r : CompactRendering) (budget : ℕ)
    → cost r.head + cost r.items ≤ budget
    → render_compact r budget ≡ r.head ++ r.items
render_compact_whole r budget le =
    let (shown, e, fits, cut) = render_compact-IsCut r budget in
    let same = all_fit budget (cost r.head) r.items shown le cut in
    e
    ∙ ap (λ xs. r.head ++ xs ++ notices r budget (length xs)) same
    ∙ ap (λ n. r.head ++ r.items ++ n) (no_notice r budget)
    ∙ append_empty (r.head ++ r.items)

All-of_mem : {A : Type 0} (P : A → Type 0) (xs : List A) → ((x : A) → Mem x xs → P x) → All P xs
All-of_mem P [] h = tt
All-of_mem P (x ∷ xs) h = (h x mem-cons_self, All-of_mem P xs (λ y m. h y (mem-cons_of_mem x m)))

-- However the data is rendered and cut, every footnote and every limitation has its line in the
-- text, and the text starts with the line that names the source.
pub render_lines-caveats :
    (env : Rendered) (compact : Option CompactRendering) (json : String) (budget : Option ℕ)
    → let lines = render_lines env compact json budget in
      All (λ f. Mem (footnote_line f) lines) env.footnotes
      × All (λ l. Mem (limitation_line l) lines) env.limitations
      × (first_item lines ≡ header env compact)
unfolding render_lines
render_lines-caveats env compact json budget = (
  All-of_mem _ env.footnotes (λ f m.
      mem-cons_of_mem _ (mem-append_left _ (mem-append_right _ (mem-map_of_mem footnote_line m)))),
  All-of_mem _ env.limitations
      (λ l m. mem-cons_of_mem _ (mem-append_right _ (mem-map_of_mem limitation_line m))),
  refl,
)
