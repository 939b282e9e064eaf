-- ===== src/Bls/Qcew/Pool.antt =====
-- The workers that fetch a window of slices (packages/server-bls/src/qcew-indicators.ts:
-- `fetchSlicesBounded`). A worker runs without a break up to its next fetch; fetches settle in any
-- order, and the signal is aborted at any time between.
pub mod Advanced
pub mod Complete
pub mod Bounded
use federal_mcps.Common.{
  ℕ, zero, suc, ◌+◌, min, max, ◌≡◌, leb, ltb, ◌==◌, Bool, true, false, ◌&&◌, Option, none, some,
  List, [], ◌∷◌, ◌++◌, if◌then◌else◌,
}
use federal_mcps.Bls.Qcew.History.{Slice, timed_out}

abbrev pub concurrency : ℕ
concurrency = 6

-- A worker waits for the fetch of a slice, has returned, or has thrown.
pub data Worker : Type 0 where
  fetching : ℕ → Worker
  finished failed : Worker

-- What a fetch ends with: what it read, `DeadlineExceededError`, or another error.
pub data Outcome : Type 0 where
  delivered : Slice → Outcome
  deadline broken : Outcome

pub record Pool : Type 0 where
  pub results : ℕ → Option Slice
  pub cursor : ℕ
  pub workers : List Worker
  pub aborted : Bool

abbrev pub put : ℕ → Slice → (ℕ → Option Slice) → ℕ → Option Slice
put i slice results j = if j == i then some slice else results j

-- `while (cursor < window.length)`: every slice from the cursor on is marked.
abbrev pub fill : ℕ → ℕ → (ℕ → Option Slice) → ℕ → Option Slice
fill cursor size results j = if leb cursor j && ltb j size then some timed_out else results j

-- A worker's loop up to its next fetch or its end.
unfoldable pub advance : ℕ → Pool → Worker × Pool
advance size p =
    if p.aborted
    then (finished, record p { results = fill p.cursor size p.results; cursor = max p.cursor size })
    else if leb size p.cursor
    then (finished, record p { cursor = suc p.cursor })
    else (fetching p.cursor, record p { cursor = suc p.cursor })

abbrev pub join_worker : Worker × Pool → Pool
join_worker (w, p) = record p { workers = w ∷ p.workers }

-- The workers are started one after another; their order in the list means nothing.
unfoldable pub start_workers : ℕ → ℕ → Pool → Pool
start_workers zero size p = p
start_workers (suc n) size p = start_workers n size (join_worker (advance size p))

abbrev pub idle : Bool → Pool
idle aborted = record { results = λ i. none; cursor = 0; workers = []; aborted = aborted }

abbrev pub start : ℕ → Bool → Pool
start size aborted = start_workers (min concurrency size) size (idle aborted)

abbrev pub place_worker : List Worker → List Worker → Worker × Pool → Pool
place_worker before after (w, p) = record p { workers = before ++ w ∷ after }

-- The fetch of slice `i` ends, between the workers before and after its own.
unfoldable pub settle : ℕ → List Worker → List Worker → ℕ → Outcome → Pool → Pool
settle size before after i (delivered slice) p =
    place_worker before after (advance size (record p { results = put i slice p.results }))
settle size before after i deadline p =
    place_worker before after (advance size (record p { results = put i timed_out p.results }))
settle size before after i broken p = record p { workers = before ++ failed ∷ after }

module _ (size : ℕ) where
  -- A run of the pool, with the number of fetches that settle in it.
  pub data Run : Pool → ℕ → Pool → Type 0 where
    ends : (p : Pool) → Run p 0 p
    abort_then : {p q : Pool} {n : ℕ} → Run (record p { aborted = true }) n q → Run p n q
    settle_then :
        {p q : Pool} {n : ℕ} (before after : List Worker) (i : ℕ) (o : Outcome)
        → p.workers ≡ before ++ fetching i ∷ after
        → Run (settle size before after i o p) n q
        → Run p (suc n) q
