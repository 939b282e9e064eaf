-- ===== src/Bls/SeriesIds/Recognized.antt =====
-- That the ids of a program are built as it recognizes them (packages/server-bls/src: laus.ts, cpi.ts,
-- ces.ts, jt.ts, cps.ts and ppi.ts).
use Prim.Native.Char.{Char, code}
use Prim.Native.String
use Prim.Native.String.append
use federal_mcps.Common.{
  ◌≡◌, refl, ap, ◌∙◌, subst, ◌==◌, String, Bool, true, false, ◌||◌, not, none, some, [], ◌∷◌, ◌++◌,
  arith, if-cases,
}
use federal_mcps.Common.Chars.{is_digit, is_upper, every_char, units_of, has_digits}
use federal_mcps.Common.Checked.{Checked, valid, invalid}
use federal_mcps.Common.Text.{append_nothing}
use federal_mcps.Bls.SeriesIds.{
  matches, replicate, is_char, is_code_char, is_end, is_code, build_sm_series_id, is_sm_series_id,
  LausMeasure, unemployment_rate, unemployment, employment, labor_force, laus_measure_code,
  JtDataElement, job_openings, hires, quits, layoffs, jt_data_element, build_laus_series_id,
  is_measure_end, is_laus_series_id, build_cu_series_id, is_cu_series_id,
  build_ces_national_series_id, is_ces_national_series_id, build_jt_series_id, is_jt_series_id,
  build_cps_series_id, is_cps_series_id, build_wpu_series_id, is_wpu_series_id,
}
use federal_mcps.Bls.SeriesIds.Patterns.{
  matches-append, replicate-matches, is_not_line_end, is_code_char-in_line, digits-matches,
  code-matches, prefix-matches,
}

-- A series that is asked of a program.
pub data SeriesRequest : Type 0 where
  laus : String → LausMeasure → SeriesRequest
  cpi : String → String → SeriesRequest
  ces : String → SeriesRequest
  ces_national : SeriesRequest
  jolts : String → JtDataElement → SeriesRequest
  cps : LausMeasure → SeriesRequest
  ppi : String → SeriesRequest

abbrev pub build_series_id : SeriesRequest → Bool → Checked String
build_series_id (laus area measure) adjusted = build_laus_series_id area measure adjusted
build_series_id (cpi area item) adjusted = build_cu_series_id area (some item) adjusted
build_series_id (ces area) adjusted = build_sm_series_id area adjusted
build_series_id ces_national adjusted = valid (build_ces_national_series_id adjusted)
build_series_id (jolts state element) adjusted = build_jt_series_id state element adjusted
build_series_id (cps measure) adjusted = valid (build_cps_series_id measure adjusted)
build_series_id (ppi item) adjusted = build_wpu_series_id item adjusted

abbrev pub is_series_id : SeriesRequest → String → Bool
is_series_id (laus area measure) = is_laus_series_id
is_series_id (cpi area item) = is_cu_series_id
is_series_id (ces area) = is_sm_series_id
is_series_id ces_national = is_ces_national_series_id
is_series_id (jolts state element) = is_jt_series_id
is_series_id (cps measure) = is_cps_series_id
is_series_id (ppi item) = is_wpu_series_id

-- What the builders do not look at: the characters of a LAUS area, and a CPI item.
abbrev pub IsPlain : SeriesRequest → Type 0
IsPlain (laus area measure) = every_char is_code_char area ≡ true
IsPlain (cpi area item) = is_code 3 none item ≡ true
IsPlain _ = Unit

abbrev IsRecognized : (String → Bool) → Checked String → Type 0
IsRecognized test (invalid message) = Unit
IsRecognized test (valid id) = test id ≡ true

measure-matches :
    (measure : LausMeasure)
    → matches (is_char 48 ∷ is_measure_end ∷ []) is_end (String.◌++◌ (laus_measure_code measure) "")
      ≡ true
unfolding matches
measure-matches unemployment_rate = refl
measure-matches unemployment = refl
measure-matches employment = refl
measure-matches labor_force = refl

element-matches :
    (element : JtDataElement)
    → matches (is_upper ∷ is_upper ∷ []) is_end (jt_data_element element) ≡ true
unfolding matches
element-matches job_openings = refl
element-matches hires = refl
element-matches quits = refl
element-matches layoffs = refl

laus-IsRecognized :
    (area : String) (measure : LausMeasure) (adjusted : Bool)
    → every_char is_code_char area ≡ true
    → IsRecognized is_laus_series_id (build_laus_series_id area measure adjusted)
unfolding build_laus_series_id is_laus_series_id
laus-IsRecognized area measure adjusted plain =
    if-cases (IsRecognized is_laus_series_id) (not (units_of area == 15)) (λ other. tt)
      (λ fits.
        let long : units_of area ≡ 15 = ground (arith, fits) in
        let line =
          subst (λ k. matches (replicate k is_not_line_end) is_end area ≡ true) long
            (replicate-matches is_code_char is_not_line_end area is_code_char-in_line plain) in
        prefix-matches (is_char 76) (is_char 65) _ is_end "LA" adjusted _ (unfold matches in refl)
        ∙ matches-append (replicate 15 is_not_line_end) (is_char 48 ∷ is_measure_end ∷ []) is_end
            area _ line
        ∙ measure-matches measure)

cu-IsRecognized :
    (area item : String) (adjusted : Bool)
    → is_code 3 none item ≡ true
    → IsRecognized is_cu_series_id (build_cu_series_id area (some item) adjusted)
unfolding build_cu_series_id is_cu_series_id
cu-IsRecognized area item adjusted plain =
    let monthly = λ (c : Char). code c == 82 || code c == 83 in
    if-cases (IsRecognized is_cu_series_id) (not (is_code 4 (some 4) area)) (λ other. tt)
      (λ fits.
        let four : is_code 4 (some 4) area ≡ true = ground (arith, fits) in
        prefix-matches (is_char 67) (is_char 85) (monthly ∷ replicate 4 is_code_char)
          (is_code 3 none) "CU" adjusted _ (unfold matches in refl)
        ∙ matches-append (monthly ∷ []) (replicate 4 is_code_char) (is_code 3 none) "R" _
            (unfold matches in refl)
        ∙ matches-append (replicate 4 is_code_char) [] (is_code 3 none) area _
            (code-matches area four)
        ∙ unfold matches in (ap (is_code 3 none) (append_nothing item) ∙ plain))

sm-IsRecognized :
    (area : String) (adjusted : Bool)
    → IsRecognized is_sm_series_id (build_sm_series_id area adjusted)
unfolding build_sm_series_id is_sm_series_id
sm-IsRecognized area adjusted =
    if-cases (IsRecognized is_sm_series_id) (not (has_digits 7 area)) (λ other. tt)
      (λ fits.
        let seven : has_digits 7 area ≡ true = ground (arith, fits) in
        prefix-matches (is_char 83) (is_char 77) (replicate 17 is_digit) is_end "SM" adjusted _
          (unfold matches in refl)
        ∙ matches-append (replicate 7 is_digit) (replicate 10 is_digit) is_end area _
            (digits-matches 7 area seven)
        ∙ (unfold matches in refl))

jt-IsRecognized :
    (state : String) (element : JtDataElement) (adjusted : Bool)
    → IsRecognized is_jt_series_id (build_jt_series_id state element adjusted)
unfolding build_jt_series_id is_jt_series_id
jt-IsRecognized state element adjusted =
    let letters = is_upper ∷ is_upper ∷ is_upper ∷ [] in
    if-cases (IsRecognized is_jt_series_id) (not (has_digits 2 state)) (λ other. tt)
      (λ fits.
        let two : has_digits 2 state ≡ true = ground (arith, fits) in
        prefix-matches (is_char 74) (is_char 84) (replicate 15 is_digit ++ letters) is_end "JT"
          adjusted _ (unfold matches in refl)
        ∙ matches-append (replicate 6 is_digit) (replicate 9 is_digit ++ letters) is_end "000000" _
            (unfold matches in refl)
        ∙ matches-append (replicate 2 is_digit) (replicate 7 is_digit ++ letters) is_end state _
            (digits-matches 2 state two)
        ∙ matches-append (replicate 5 is_digit) (replicate 2 is_digit ++ letters) is_end "00000" _
            (unfold matches in refl)
        ∙ matches-append (replicate 2 is_digit) letters is_end "00" _ (unfold matches in refl)
        ∙ matches-append (is_upper ∷ is_upper ∷ []) (is_upper ∷ []) is_end (jt_data_element element)
            _ (element-matches element)
        ∙ (unfold matches in refl))

wpu-IsRecognized :
    (item : String) (adjusted : Bool)
    → IsRecognized is_wpu_series_id (build_wpu_series_id item adjusted)
unfolding build_wpu_series_id is_wpu_series_id
wpu-IsRecognized item adjusted =
    if-cases (IsRecognized is_wpu_series_id) (not (is_code 2 (some 12) item)) (λ other. tt)
      (λ fits.
        let code_of_item : is_code 2 (some 12) item ≡ true = ground (arith, fits) in
        prefix-matches (is_char 87) (is_char 80) [] (is_code 2 (some 12)) "WP" adjusted _
          (unfold matches in refl)
        ∙ unfold matches in (ap (is_code 2 (some 12)) (append_nothing item) ∙ code_of_item))

cps-IsRecognized :
    (measure : LausMeasure) (adjusted : Bool)
    → is_cps_series_id (build_cps_series_id measure adjusted) ≡ true
unfolding build_cps_series_id is_cps_series_id matches
cps-IsRecognized unemployment_rate true = refl
cps-IsRecognized unemployment_rate false = refl
cps-IsRecognized unemployment true = refl
cps-IsRecognized unemployment false = refl
cps-IsRecognized employment true = refl
cps-IsRecognized employment false = refl
cps-IsRecognized labor_force true = refl
cps-IsRecognized labor_force false = refl

ces_national-IsRecognized :
    (adjusted : Bool) → is_ces_national_series_id (build_ces_national_series_id adjusted) ≡ true
unfolding build_ces_national_series_id is_ces_national_series_id matches
ces_national-IsRecognized true = refl
ces_national-IsRecognized false = refl

request-IsRecognized :
    (request : SeriesRequest) (adjusted : Bool)
    → IsPlain request
    → IsRecognized (is_series_id request) (build_series_id request adjusted)
request-IsRecognized (laus area measure) adjusted plain =
    laus-IsRecognized area measure adjusted plain
request-IsRecognized (cpi area item) adjusted plain = cu-IsRecognized area item adjusted plain
request-IsRecognized (ces area) adjusted plain = sm-IsRecognized area adjusted
request-IsRecognized ces_national adjusted plain = ces_national-IsRecognized adjusted
request-IsRecognized (jolts state element) adjusted plain = jt-IsRecognized state element adjusted
request-IsRecognized (cps measure) adjusted plain = cps-IsRecognized measure adjusted
request-IsRecognized (ppi item) adjusted plain = wpu-IsRecognized item adjusted

-- An id that is built for a program is one that the program recognizes, whatever its area, its state or
-- its item may be; of a LAUS area the characters are to be digits and capitals, and of a CPI item too, at
-- least three.
pub is_series_id-build_series_id :
    (request : SeriesRequest) (adjusted : Bool) (id : String)
    → IsPlain request
    → build_series_id request adjusted ≡ valid id
    → is_series_id request id ≡ true
is_series_id-build_series_id request adjusted id plain e =
    subst (IsRecognized (is_series_id request)) e (request-IsRecognized request adjusted plain)
