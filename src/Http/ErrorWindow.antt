-- ===== src/Http/ErrorWindow.antt =====
-- The per-minute error budget of the HTTP client (http/client.ts: `rollErrorWindow`,
-- `checkErrorLimit`, `noteError`).
use federal_mcps.Common.{ℕ, ◌+◌, ◌≤◌, ◌≡◌, Option, none, some, arith, leb, ltb, if◌then◌else◌}

pub record Window : Type 0 where
  pub error_count : ℕ
  pub start_ms : ℕ

abbrev pub minute_ms : ℕ
minute_ms = 60_000

unfoldable pub initial : ℕ → Window
initial now = record { error_count = 0; start_ms = now }

-- `nowMs - errorWindowStartMs >= 60_000`
unfoldable pub roll : ℕ → Window → Window
roll now w =
    if leb (w.start_ms + minute_ms) now then record { error_count = 0; start_ms = now } else w

-- The time at which the window ends when the call is refused.
unfoldable pub check_error_limit : Option ℕ → ℕ → Window → Option ℕ × Window
unfolding roll
check_error_limit none now w = (none, w)
check_error_limit (some limit) now w =
    let w' = roll now w in
    (if leb limit w'.error_count then some (w'.start_ms + minute_ms) else none, w')

unfoldable pub note_error : Option ℕ → ℕ → Window → Window
unfolding roll
note_error none now w = w
note_error (some limit) now w =
    let w' = roll now w in record w' { error_count = w'.error_count + 1 }

-- A call that is let through while the budget is kept, and then fails once, keeps it.
pub note_error_after_check :
    (limit now later : ℕ) (w : Window)
    → now ≤ later
    → (check_error_limit (some limit) now w).0 ≡ none
    → 1 ≤ limit
    → (note_error (some limit) later (check_error_limit (some limit) now w).1).error_count ≤ limit
unfolding check_error_limit note_error
note_error_after_check limit now later w h free pos = ground arith

-- A call is refused exactly while a full window lasts, and the refusal names its end.
pub check_error_limit_iff :
    (limit now : ℕ) (w : Window)
    → limit ≤ w.error_count
    → 1 ≤ limit
    → (check_error_limit (some limit) now w).0
      ≡ (if ltb now (w.start_ms + minute_ms) then some (w.start_ms + minute_ms) else none)
unfolding check_error_limit
check_error_limit_iff limit now w full pos = ground arith
