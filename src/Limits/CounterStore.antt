-- ===== src/Limits/CounterStore.antt =====
-- The counter store's interface (limits/counter-store.ts) and the contract that the limiter relies
-- on. A promise that is rejected is `none`; the state comes back either way.
use federal_mcps.Common.{
  ℕ, ◌+◌, ◌≤◌, ◌<◌, String, ◌≡◌, ◌≢◌, Bool, true, false, Option, none, some, ◌⊎◌,
}

pub record IncrementResult : Type 0 where
  pub value : ℕ
  pub applied : Bool

-- `now` is what the clock shows at the call, in milliseconds.
pub record CounterStore : Type 1 where
  pub State : Type 0
  pub increment :
      (now : ℕ) (pk : String) (by expires_at : ℕ) (most : Option ℕ)
      → State
      → Option IncrementResult × State
  pub get : String → State → Option ℕ × State

-- `by` can be added under the limit at all.
abbrev pub Fits : ℕ → Option ℕ → Type 0
Fits by none = Unit {0}
Fits by (some m) = by ≤ m

abbrev pub Within : ℕ → Option ℕ → Type 0
Within total none = Unit {0}
Within total (some m) = total ≤ m

-- What a call of `increment` may return and leave, by the count before and after. A call that fails
-- may have written or not, but never past the limit.
abbrev pub Incremented : ℕ → ℕ → Option ℕ → Option IncrementResult → ℕ → Type 0
Incremented before by most none after =
    (after ≡ before) ⊎ ((after ≡ before + by) × Within (before + by) most)
Incremented before by none (some r) after =
    (r.applied ≡ true) × (r.value ≡ before + by) × (after ≡ before + by)
Incremented before by (some m) (some r) after =
    (before + by ≤ m → (r.applied ≡ true) × (r.value ≡ before + by) × (after ≡ before + by))
    × (m < before + by → (r.applied ≡ false) × (r.value ≡ before) × (after ≡ before))

-- The contract: the count of a key moves as `Incremented` says, other counts never grow (a store
-- may drop those that have expired), and a read changes nothing.
pub record IsCounterStore (c : CounterStore) : Type 0 where
  pub count : c.State → String → ℕ
  pub increment_self :
      (now : ℕ) (pk : String) (by expires_at : ℕ) (most : Option ℕ) (s : c.State)
      → Fits by most
      → let (r, s') = c.increment now pk by expires_at most s in
        Incremented (count s pk) by most r (count s' pk)
  pub increment_other :
      (now : ℕ) (pk : String) (by expires_at : ℕ) (most : Option ℕ) (s : c.State) (j : String)
      → pk ≢ j
      → count (c.increment now pk by expires_at most s).1 j ≤ count s j
  pub get_state : (pk : String) (s : c.State) → (c.get pk s).1 ≡ s
  pub get_value : (pk : String) (s : c.State) (v : ℕ) → (c.get pk s).0 ≡ some v → v ≡ count s pk
