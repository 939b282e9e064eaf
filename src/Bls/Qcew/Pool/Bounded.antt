-- ===== src/Bls/Qcew/Pool/Bounded.antt =====
-- That the workers come to an end (packages/server-bls/src/qcew-indicators.ts: `fetchSlicesBounded`).
use federal_mcps.Common.{
  ℕ, zero, suc, ◌+◌, ◌-◌, ◌≤◌, ◌<◌, min, ◌≡◌, refl, ap, leb, Bool, List, [], ◌∷◌, ◌++◌, arith,
  if-cases, if-both,
}
use federal_mcps.Bls.Qcew.History.{timed_out}
use federal_mcps.Bls.Qcew.Pool.{
  Worker, fetching, finished, failed, Outcome, delivered, deadline, broken, Pool, put, advance,
  join_worker, start_workers, idle, start, place_worker, settle, Run, ends, abort_then, settle_then,
  concurrency,
}

abbrev pub busy_one : Worker → ℕ
busy_one (fetching i) = 1
busy_one finished = 0
busy_one failed = 0

abbrev pub busy : List Worker → ℕ
busy [] = 0
busy (w ∷ workers) = busy_one w + busy workers

-- The slices that are not begun, and the fetches in flight.
abbrev left : ℕ → Pool → ℕ
left size p = size - p.cursor + busy p.workers

busy-middle :
    (w : Worker) (before after : List Worker)
    → busy (before ++ w ∷ after) ≡ busy_one w + (busy before + busy after)
busy-middle w [] after = omega arith
busy-middle w (x ∷ before) after = omega (arith, busy-middle w before after)

-- A worker takes up no more than it takes off the slices that are not begun.
abbrev IsPaid : ℕ → Pool → Worker × Pool → Type 0
IsPaid size p (w, q) = (busy_one w + (size - q.cursor) ≤ size - p.cursor) × (q.workers ≡ p.workers)

advance-IsPaid : (size : ℕ) (p : Pool) → IsPaid size p (advance size p)
unfolding advance
advance-IsPaid size p =
    if-both (IsPaid size p) p.aborted (omega arith, refl)
      (if-cases (IsPaid size p) (leb size p.cursor) (λ all. (omega arith, refl))
        (λ more. (ground (arith, more), refl)))

place_worker-left :
    (size i : ℕ) (before after : List Worker) (p : Pool) (next : Worker × Pool)
    → p.workers ≡ before ++ fetching i ∷ after
    → busy_one next.0 + (size - next.1.cursor) ≤ size - p.cursor
    → left size (place_worker before after next) < left size p
place_worker-left size i before after p (w, q) here paid =
    let was = busy-middle (fetching i) before after in
    let now = busy-middle w before after in
    let same = ap busy here in omega (arith, was, now, same, paid)

-- A fetch that settles brings the end nearer.
settle-left :
    (size i : ℕ) (before after : List Worker) (o : Outcome) (p : Pool)
    → p.workers ≡ before ++ fetching i ∷ after
    → left size (settle size before after i o p) < left size p
unfolding settle
settle-left size i before after (delivered slice) p here =
    place_worker-left size i before after p
      (advance size (record p { results = put i slice p.results })) here
      (advance-IsPaid size (record p { results = put i slice p.results })).0
settle-left size i before after deadline p here =
    place_worker-left size i before after p
      (advance size (record p { results = put i timed_out p.results })) here
      (advance-IsPaid size (record p { results = put i timed_out p.results })).0
settle-left size i before after broken p here =
    let was = busy-middle (fetching i) before after in
    let now = busy-middle failed before after in
    let same = ap busy here in omega (arith, was, now, same)

Run-left : (size n : ℕ) (p q : Pool) → Run size p n q → n + left size q ≤ left size p
Run-left size n p q (ends _) = omega arith
Run-left size n p q (abort_then run) = Run-left size n _ q run
Run-left size n p q (settle_then before after i o here run) =
    omega (arith, Run-left size _ _ q run, settle-left size i before after o p here)

start_workers-left : (n size : ℕ) (p : Pool) → left size (start_workers n size p) ≤ left size p
unfolding start_workers
start_workers-left zero size p = omega arith
start_workers-left (suc n) size p =
    let (paid, same) = advance-IsPaid size p in
    let before = ap busy same in
    omega (arith, start_workers-left n size (join_worker (advance size p)), paid, before)

-- However the fetches of a window settle and whenever the signal is aborted, those that have settled
-- and those in flight are together no more than the window has slices, so a run of the workers ends.
pub Run-IsBounded :
    (size n : ℕ) (aborted : Bool) (q : Pool)
    → Run size (start size aborted) n q
    → n + busy q.workers ≤ size
Run-IsBounded size n aborted q run =
    omega (
      arith,
      Run-left size n _ q run,
      start_workers-left (min concurrency size) size (idle aborted),
    )
