-- ===== src/Time/Width.antt =====
-- The width of `dayKey` (limits/persistent-limiter.ts).
use Prim.Native.String.{count}
use text.Mathlib.TextLemmas.{length-append}
use federal_mcps.Common.{ℕ, zero, suc, ◌≡◌, refl}
use federal_mcps.Time.{digit, two_digits, four_digits, day_key}

count-digit : (n : ℕ) → count (digit n) ≡ 1
unfolding digit
count-digit zero = refl
count-digit (suc zero) = refl
count-digit (suc (suc zero)) = refl
count-digit (suc (suc (suc zero))) = refl
count-digit (suc (suc (suc (suc zero)))) = refl
count-digit (suc (suc (suc (suc (suc zero))))) = refl
count-digit (suc (suc (suc (suc (suc (suc zero)))))) = refl
count-digit (suc (suc (suc (suc (suc (suc (suc zero))))))) = refl
count-digit (suc (suc (suc (suc (suc (suc (suc (suc zero)))))))) = refl
count-digit _ = refl

pub count-day_key : (at : ℕ) → count (day_key at) ≡ 10
unfolding day_key two_digits four_digits
count-day_key at = simp (length-append, count-digit)
