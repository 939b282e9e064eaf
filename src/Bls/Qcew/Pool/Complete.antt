-- ===== src/Bls/Qcew/Pool/Complete.antt =====
-- That the workers leave no slice of the window behind (packages/server-bls/src/qcew-indicators.ts:
-- `fetchSlicesBounded`).
use federal_mcps.Common.{
  ℕ, zero, suc, ◌+◌, ◌<◌, min, ◌≡◌, inl, inr, refl, sym, ap, ◌∙◌, subst, leb, Bool, true, List, [],
  ◌∷◌, ◌++◌, All, length, arith, if-both,
}
use federal_mcps.Common.Members.{Member}
use federal_mcps.Bls.Qcew.History.{Slice, timed_out}
use federal_mcps.Bls.Qcew.Pool.{
  Worker, fetching, finished, failed, Outcome, delivered, deadline, broken, Pool, put, advance,
  join_worker, start_workers, idle, start, place_worker, settle, Run, ends, abort_then, settle_then,
  concurrency,
}
use federal_mcps.Bls.Qcew.Pool.Advanced.{
  is_filled, IsSound, IsAdvanced, filled-put, advance-IsAdvanced, Member-middle, Member-replace,
  fetching-failed, failed-finished, fetching-inj, put-same,
}

module _ (size : ℕ) (before after : List Worker) (i : ℕ) where
  -- One result more, and the worker goes on.
  place_worker-IsSound :
      (slice : Slice) (p : Pool) (next : Worker × Pool)
      → p.workers ≡ before ++ fetching i ∷ after
      → IsSound size p
      → IsAdvanced size (record p { results = put i slice p.results }) next
      → IsSound size (place_worker before after next)
  place_worker-IsSound slice p (w, q) here (covered, drained) (begins, done, further) = (
    λ j within begun. elim (begins j within begun) [
      | inl full ↦ inl full
      | inr next ↦ elim next [
        | inl e ↦
            inr (inl (subst (λ x. Member x (before ++ w ∷ after)) e (Member-middle w before after)))
        | inr (old, kept) ↦ elim (covered j within old) [
          | inl full ↦ inl (ap is_filled kept ∙ filled-put i j slice p.results full)
          | inr rest ↦ elim rest [
            | inl busy ↦
                elim (Member-replace (fetching j) (fetching i) w before after
                  (subst (λ l. Member (fetching j) l) here busy)) [
                    | inl same ↦
                        inl (
                          ap is_filled
                            (kept ∙ put-same i j slice p.results (fetching-inj i j same)))
                    | inr there ↦ inr (inl there)
                  ]
            | inr fails ↦
                elim (Member-replace failed (fetching i) w before after
                  (subst (λ l. Member failed l) here fails)) [
                    | inl other ↦ absurd (fetching-failed i other)
                    | inr there ↦ inr (inr there)
                  ]
          ]
        ]
      ]
    ],
    λ m. elim (Member-replace finished w (fetching i) before after m) [
      | inl e ↦ done e
      | inr there ↦
          let reached = drained (subst (λ l. Member finished l) (sym here) there) in
          omega (arith, reached, further)
    ],
  )

  failed-IsSound :
      (p : Pool)
      → p.workers ≡ before ++ fetching i ∷ after
      → IsSound size p
      → IsSound size (record p { workers = before ++ failed ∷ after })
  failed-IsSound p here (covered, drained) = (
    λ j within begun. elim (covered j within begun) [
      | inl full ↦ inl full
      | inr rest ↦ inr (inr (Member-middle failed before after))
    ],
    λ m. elim (Member-replace finished failed (fetching i) before after m) [
      | inl other ↦ absurd (failed-finished other)
      | inr there ↦ drained (subst (λ l. Member finished l) (sym here) there)
    ],
  )

  settle-IsSound :
      (o : Outcome) (p : Pool)
      → p.workers ≡ before ++ fetching i ∷ after
      → IsSound size p
      → IsSound size (settle size before after i o p)
  unfolding settle
  settle-IsSound (delivered slice) p here h =
      place_worker-IsSound slice p (advance size (record p { results = put i slice p.results }))
        here h (advance-IsAdvanced size (record p { results = put i slice p.results }))
  settle-IsSound deadline p here h =
      place_worker-IsSound timed_out p
        (advance size (record p { results = put i timed_out p.results })) here h
        (advance-IsAdvanced size (record p { results = put i timed_out p.results }))
  settle-IsSound broken p here h = failed-IsSound p here h

join_worker-IsSound :
    (size : ℕ) (p : Pool) (next : Worker × Pool)
    → next.1.workers ≡ p.workers
    → IsSound size p
    → IsAdvanced size p next
    → IsSound size (join_worker next)
join_worker-IsSound size p (w, q) same (covered, drained) (begins, done, further) = (
  λ j within begun. elim (begins j within begun) [
    | inl full ↦ inl full
    | inr next ↦ elim next [
      | inl e ↦ inr (inl (inl e))
      | inr (old, kept) ↦ elim (covered j within old) [
        | inl full ↦ inl (ap is_filled kept ∙ full)
        | inr rest ↦ elim rest [
          | inl busy ↦ inr (inl (inr (subst (λ l. Member (fetching j) l) (sym same) busy)))
          | inr fails ↦ inr (inr (inr (subst (λ l. Member failed l) (sym same) fails)))
        ]
      ]
    ]
  ],
  λ m. elim m [
    | inl e ↦ done e
    | inr there ↦
        let reached = drained (subst (λ l. Member finished l) same there) in
        omega (arith, reached, further)
  ],
)

advance-workers : (size : ℕ) (p : Pool) → (advance size p).1.workers ≡ p.workers
unfolding advance
advance-workers size p =
    if-both (λ (x : Worker × Pool). x.1.workers ≡ p.workers) p.aborted refl
      (if-both (λ (x : Worker × Pool). x.1.workers ≡ p.workers) (leb size p.cursor) refl refl)

start_workers-IsSound :
    (n size : ℕ) (p : Pool) → IsSound size p → IsSound size (start_workers n size p)
unfolding start_workers
start_workers-IsSound zero size p h = h
start_workers-IsSound (suc n) size p h =
    start_workers-IsSound n size (join_worker (advance size p)) (
      join_worker-IsSound size p (advance size p) (advance-workers size p) h
        (advance-IsAdvanced size p))

Run-IsSound : (size n : ℕ) (p q : Pool) → Run size p n q → IsSound size p → IsSound size q
Run-IsSound size n p q (ends _) h = h
Run-IsSound size n p q (abort_then run) h = Run-IsSound size n _ q run h
Run-IsSound size n p q (settle_then before after i o here run) h =
    Run-IsSound size _ _ q run (settle-IsSound size before after i o p here h)

length-middle :
    (y z : Worker) (before after : List Worker)
    → length (before ++ z ∷ after) ≡ length (before ++ y ∷ after)
length-middle y z [] after = omega arith
length-middle y z (x ∷ before) after = omega (arith, length-middle y z before after)

settle-length :
    (size i : ℕ) (before after : List Worker) (o : Outcome) (p : Pool)
    → length (settle size before after i o p).workers ≡ length (before ++ fetching i ∷ after)
unfolding settle
settle-length size i before after (delivered slice) p = length-middle (fetching i) _ before after
settle-length size i before after deadline p = length-middle (fetching i) _ before after
settle-length size i before after broken p = length-middle (fetching i) failed before after

start_workers-length :
    (n size : ℕ) (p : Pool) → length (start_workers n size p).workers ≡ n + length p.workers
unfolding start_workers
start_workers-length zero size p = omega arith
start_workers-length (suc n) size p =
    let more = ap length (advance-workers size p) in
    omega (arith, start_workers-length n size (join_worker (advance size p)), more)

Run-length : (size n : ℕ) (p q : Pool) → Run size p n q → length q.workers ≡ length p.workers
Run-length size n p q (ends _) = refl
Run-length size n p q (abort_then run) = Run-length size n _ q run
Run-length size n p q (settle_then before after i o here run) =
    Run-length size _ _ q run ∙ settle-length size i before after o p ∙ sym (ap length here)

first-Member : (l : List Worker) → 0 < length l → All (λ w. w ≡ finished) l → Member finished l
first-Member [] some_there h = absurd (omega arith)
first-Member (w ∷ l) some_there (e, h) = inl e

not_there : (x : Worker) (l : List Worker) → All (λ w. w ≡ finished) l → Member x l → x ≡ finished
not_there x [] h m = absurd m
not_there x (w ∷ l) (e, h) m = elim m [
  | inl same ↦ sym same ∙ e
  | inr later ↦ not_there x l h later
]

fetching-finished : (i : ℕ) → fetching i ≡ finished → ⊥
fetching-finished i e = cc

-- However the fetches of a window settle and whenever the signal is aborted, there are never more
-- workers than six or than slices, and when they have all returned every slice of the window has a
-- result.
pub Run-complete :
    (size n : ℕ) (aborted : Bool) (q : Pool)
    → Run size (start size aborted) n q
    → (length q.workers ≡ min concurrency size)
      × (All (λ w. w ≡ finished) q.workers → (j : ℕ) → j < size → is_filled (q.results j) ≡ true)
Run-complete size n aborted q run =
    let (covered, drained) = Run-IsSound size n _ q run (
      start_workers-IsSound (min concurrency size) size (idle aborted)
        (λ j within begun. absurd (omega arith), λ m. absurd m)) in
    let count : length q.workers ≡ min concurrency size = omega (
      arith,
      Run-length size n _ q run,
      start_workers-length (min concurrency size) size (idle aborted),
    ) in
    (
      count,
      λ over j within.
          let reached = drained (first-Member q.workers (omega (arith, count, within)) over) in
          elim (covered j within (omega (arith, reached, within))) [
            | inl full ↦ full
            | inr rest ↦ elim rest [
              | inl busy ↦ absurd (fetching-finished j (not_there (fetching j) q.workers over busy))
              | inr fails ↦ absurd (failed-finished (not_there failed q.workers over fails))
            ]
          ],
    )
