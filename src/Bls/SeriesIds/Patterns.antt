-- ===== src/Bls/SeriesIds/Patterns.antt =====
-- How a text that is put together of parts meets a pattern of character classes
-- (packages/server-bls/src/laus.ts and the other BLS programs).
use Prim.Native.Char.{Char}
use Prim.Native.String
use Prim.Native.String.append
use federal_mcps.Common.{
  ℕ, suc, ◌+◌, ◌≡◌, refl, sym, ap, ◌∙◌, subst, String, Bool, true, false, not, some, List, [], ◌∷◌,
  ◌++◌, arith, Bool-cases, inl, inr, true≢false,
}
use federal_mcps.Common.Chars.{is_digit, is_line_end, every_char, units_of, has_digits, units}
use federal_mcps.Bls.SeriesIds.{
  CharClass, matches, replicate, is_code_char, is_end, is_seasonal, seasonal_letter, is_code,
}

-- A text of the characters of the classes, one for each, is passed over.
pub matches-append :
    (classes more : List CharClass) (rest : String → Bool) (s t : String)
    → matches classes is_end s ≡ true
    → matches (classes ++ more) rest (String.◌++◌ s t) ≡ matches more rest t
unfolding matches
matches-append [] more rest String.[] t h = ap (matches more rest) (append.nil t)
matches-append [] more rest (String.◌∷◌ c s) t h = absurd (true≢false (sym h))
matches-append (p ∷ classes) more rest String.[] t h = absurd (true≢false (sym h))
matches-append (p ∷ classes) more rest (String.◌∷◌ c s) t h = elim (Bool-cases (p c)) [
  | inl fits ↦
      ap (matches (p ∷ classes ++ more) rest) (append.cons c s t)
      ∙ rw fits (matches-append classes more rest s t (sym (rw fits refl) ∙ h))
  | inr fails ↦ absurd (true≢false (sym h ∙ rw fails refl))
]

-- Characters that are each one unit and of a class match it as often as the text is long.
pub replicate-matches :
    (p q : CharClass) (s : String)
    → ((c : Char) → p c ≡ true → (q c ≡ true) × (units c ≡ 1))
    → every_char p s ≡ true
    → matches (replicate (units_of s) q) is_end s ≡ true
unfolding matches every_char units_of
replicate-matches p q String.[] single h = refl
replicate-matches p q (String.◌∷◌ c s) single h = elim (Bool-cases (p c)) [
  | inl fits ↦
      let (also, one) = single c fits in
      let longer : suc (units_of s) ≡ units c + units_of s = omega (arith, one) in
      subst (λ n. matches (replicate n q) is_end (String.◌∷◌ c s) ≡ true) longer
        (rw also (replicate-matches p q s single (sym (rw fits refl) ∙ h)))
  | inr fails ↦ absurd (true≢false (sym h ∙ rw fails refl))
]

pub is_digit-single : (c : Char) → is_digit c ≡ true → (is_digit c ≡ true) × (units c ≡ 1)
is_digit-single c h = (h, ground arith)

pub is_code_char-single :
    (c : Char) → is_code_char c ≡ true → (is_code_char c ≡ true) × (units c ≡ 1)
is_code_char-single c h = (h, ground arith)

abbrev pub is_not_line_end : CharClass
is_not_line_end c = not (is_line_end c)

pub is_code_char-in_line :
    (c : Char) → is_code_char c ≡ true → (is_not_line_end c ≡ true) × (units c ≡ 1)
unfolding is_line_end
is_code_char-in_line c h = (ground arith, ground arith)

-- A text of `n` digits is passed over as `n` digits.
pub digits-matches :
    (n : ℕ) (s : String) → has_digits n s ≡ true → matches (replicate n is_digit) is_end s ≡ true
digits-matches n s h =
    let all_digits : every_char is_digit s ≡ true = ground (arith, h) in
    let long : units_of s ≡ n = ground (arith, h) in
    subst (λ k. matches (replicate k is_digit) is_end s ≡ true) long
      (replicate-matches is_digit is_digit s is_digit-single all_digits)

pub seasonal-matches :
    (adjusted : Bool) → matches (is_seasonal ∷ []) is_end (seasonal_letter adjusted) ≡ true
unfolding matches
seasonal-matches true = refl
seasonal-matches false = refl

pub code-matches :
    (s : String) → is_code 4 (some 4) s ≡ true → matches (replicate 4 is_code_char) is_end s ≡ true
code-matches s h =
    let all_code : every_char is_code_char s ≡ true = ground (arith, h) in
    let long : units_of s ≡ 4 = ground (arith, h) in
    subst (λ k. matches (replicate k is_code_char) is_end s ≡ true) long
      (replicate-matches is_code_char is_code_char s is_code_char-single all_code)

-- What follows the two letters of a program and the seasonal letter.
pub prefix-matches :
    (a b : CharClass) (more : List CharClass) (rest : String → Bool) (program : String)
    (adjusted : Bool) (t : String)
    → matches (a ∷ b ∷ []) is_end program ≡ true
    → matches
        (a ∷ b ∷ is_seasonal ∷ more)
        rest
        (String.◌++◌ program (String.◌++◌ (seasonal_letter adjusted) t))
      ≡ matches more rest t
prefix-matches a b more rest program adjusted t h =
    matches-append (a ∷ b ∷ []) (is_seasonal ∷ more) rest program _ h
    ∙ matches-append (is_seasonal ∷ []) more rest (seasonal_letter adjusted) t
        (seasonal-matches adjusted)
