-- ===== src/Time.antt =====
-- `Date` as the sources use it: an instant is its milliseconds since 1970-01-01T00:00:00Z, never
-- before it. `toISOString` is written out for the years 1970 to 9999, in the proleptic Gregorian
-- calendar that ECMAScript prescribes.
pub mod Width
use federal_mcps.Common.{
  ℕ, zero, suc, ◌+◌, ◌-◌, ◌*◌, ◌/◌, ◌%◌, String, ◌≡◌, refl, [], ◌∷◌, leb, ltb, if◌then◌else◌,
}
use federal_mcps.Common.Text.{template}

abbrev pub day_ms : ℕ
day_ms = 86_400_000

-- `Date.UTC(getUTCFullYear(), getUTCMonth(), getUTCDate())`
abbrev pub day_start : ℕ → ℕ
day_start at = at / day_ms * day_ms

unfoldable pub digit : ℕ → String
digit zero = "0"
digit (suc zero) = "1"
digit (suc (suc zero)) = "2"
digit (suc (suc (suc zero))) = "3"
digit (suc (suc (suc (suc zero)))) = "4"
digit (suc (suc (suc (suc (suc zero))))) = "5"
digit (suc (suc (suc (suc (suc (suc zero)))))) = "6"
digit (suc (suc (suc (suc (suc (suc (suc zero))))))) = "7"
digit (suc (suc (suc (suc (suc (suc (suc (suc zero)))))))) = "8"
digit _ = "9"

pub two_digits : ℕ → String
unfolding digit
two_digits n = template (digit (n / 10 % 10) ∷ digit (n % 10) ∷ [])

three_digits : ℕ → String
unfolding digit
three_digits n = template (digit (n / 100 % 10) ∷ digit (n / 10 % 10) ∷ digit (n % 10) ∷ [])

pub four_digits : ℕ → String
unfolding two_digits
four_digits n = template (two_digits (n / 100) ∷ two_digits (n % 100) ∷ [])

-- year, month and day of a day number; the year of the count starts on 1 March
pub civil : ℕ → ℕ × ℕ × ℕ
civil day =
    let z = day + 719_468 in
    let doe = z % 146_097 in
    let yoe = (doe - doe / 1460 + doe / 36_524 - doe / 146_096) / 365 in
    let doy = doe - (365 * yoe + yoe / 4 - yoe / 100) in
    let mp = (5 * doy + 2) / 153 in
    let d = doy - (153 * mp + 2) / 5 + 1 in
    let m = if ltb mp 10 then mp + 3 else mp - 9 in
    let y = yoe + z / 146_097 * 400 in (if leb m 2 then y + 1 else y, m, d)

-- `toISOString().slice(0, 10)`
unfoldable pub day_key : ℕ → String
unfolding four_digits civil
day_key at =
    let (y, m, d) = civil (at / day_ms) in
    template (four_digits y ∷ "-" ∷ two_digits m ∷ "-" ∷ two_digits d ∷ [])

-- `toISOString()`
unfoldable pub iso_string : ℕ → String
unfolding day_key three_digits
iso_string at = template (
    day_key at
    ∷ "T"
    ∷ two_digits (at / 3_600_000 % 24)
    ∷ ":"
    ∷ two_digits (at / 60_000 % 60)
    ∷ ":"
    ∷ two_digits (at / 1000 % 60)
    ∷ "."
    ∷ three_digits (at % 1000)
    ∷ "Z"
    ∷ [])

-- the UTC midnight that ends the day of `at`
unfoldable pub resets_at : ℕ → String
unfolding iso_string
resets_at at = iso_string (day_start at + day_ms)

leap_day : iso_string 1_709_251_199_007 ≡ "2024-02-29T23:59:59.007Z"
unfolding iso_string
leap_day = refl

next_midnight : resets_at 1_735_689_599_999 ≡ "2025-01-01T00:00:00.000Z"
unfolding resets_at
next_midnight = refl
