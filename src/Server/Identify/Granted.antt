-- ===== src/Server/Identify/Granted.antt =====
-- Which limits an identified caller has (server/identify.ts: `createIdentify`, `parseTestLimit`).
use federal_mcps.Common.{
  ℕ, ◌≤◌, ◌≡◌, refl, sym, ◌∙◌, String, Bool, true, false, true≢false, ◌&&◌, Option, none, some,
  List, [], ◌∷◌, arith, ◌==◌, or_else, str_eq, eq_iff, if◌then◌else◌, Bool-cases, ◌⊎◌, inl, inr,
  Option-cases,
}
use federal_mcps.Common.Dict.{Dict, lookup}
use federal_mcps.Common.Chars.{in_range, is_empty, every_char, units_of, split_at, trim}
use federal_mcps.Limits.Config.{Caller}
use federal_mcps.Server.Identify.Hex.{digits_value, parse_decimal}
use federal_mcps.Server.Identify.Address.{is_colon, network_of, is_claude_ai_pool}
use federal_mcps.Server.Identify.{
  operator_bypass_header, test_limit_header, source_ip_header, TestLimit, is_limit,
  match_test_limit, parse_test_limit, labels_from, Identity, token_matches, real_caller,
  choose_caller, caller_at, identify,
}

one_digit-range :
    (s : String)
    → (units_of s == 1 && every_char (in_range 49 57) s) ≡ true
    → (1 ≤ parse_decimal s) × (parse_decimal s ≤ 10)
unfolding units_of every_char digits_value
one_digit-range String.[] h = ground arith
one_digit-range (String.◌∷◌ c String.[]) h = ground arith
one_digit-range (String.◌∷◌ c (String.◌∷◌ d s)) h = ground arith

ten-range : (s : String) → s ≡ "10" → (1 ≤ parse_decimal s) × (parse_decimal s ≤ 10)
unfolding digits_value
ten-range s e = rw e (omega arith)

is_limit-range : (s : String) → is_limit s ≡ true → (1 ≤ parse_decimal s) × (parse_decimal s ≤ 10)
is_limit-range s h = elim (Bool-cases (str_eq s "10")) [
  | inl ten ↦ ten-range s ((eq_iff s "10").0 ten)
  | inr other ↦ one_digit-range s (sym (rw other refl) ∙ h)
]

match_test_limit-range :
    (pieces : List String) (test : TestLimit)
    → match_test_limit pieces ≡ some test
    → (1 ≤ test.limit) × (test.limit ≤ 10)
unfolding match_test_limit
match_test_limit-range [] test e = cc
match_test_limit-range (limit ∷ []) test e = cc
match_test_limit-range (limit ∷ run_id ∷ []) test e = ground (arith, is_limit-range limit)
match_test_limit-range (_ ∷ _ ∷ _ ∷ _) test e = cc

module _ (i : Identity) where
  -- The limits that a caller is held to: its share and no other, unless the operator's token was
  -- valid; with it, none, or a test limit from 1 to 10.
  abbrev pub IsGranted : Bool → Option Caller → Type 0
  IsGranted token none = Unit
  IsGranted token (some caller) =
      ((caller.bypass ≡ false) × (caller.test_limit ≡ none))
      ⊎ ((token ≡ true)
          × (((caller.bypass ≡ true) × (caller.test_limit ≡ none))
              ⊎ ((caller.bypass ≡ false)
                  × ((n : ℕ) × (caller.test_limit ≡ some n) × (1 ≤ n) × (n ≤ 10)))))

  real_caller-IsGranted :
      (network : String) (label : Option String) (bypass : Bool) (now : ℕ)
      → IsGranted bypass (some (real_caller i network label bypass now))
  unfolding real_caller
  real_caller-IsGranted network label true now = elim (Bool-cases (is_claude_ai_pool network)) [
    | inl pool ↦ rw (pool, real_caller) (inr (refl, inl (refl, refl)))
    | inr other ↦ rw (other, real_caller) (inr (refl, inl (refl, refl)))
  ]
  real_caller-IsGranted network label false now = elim (Bool-cases (is_claude_ai_pool network)) [
    | inl pool ↦ rw (pool, real_caller) (inl (refl, refl))
    | inr other ↦ rw (other, real_caller) (inl (refl, refl))
  ]

  chosen-IsGranted :
      (test : Option TestLimit) (network : String) (label : Option String) (token : Bool) (now : ℕ)
      → ((t : TestLimit) → test ≡ some t → (token ≡ true) × (1 ≤ t.limit) × (t.limit ≤ 10))
      → IsGranted token (some (choose_caller i test network label token now))
  chosen-IsGranted none network label token now h = real_caller-IsGranted network label token now
  chosen-IsGranted (some t) network label token now h =
      let (valid, low, high) = h t refl in inr (valid, inr (refl, (t.limit, refl, low, high)))

  read_limit-range :
      (token : Bool) (header : Option String) (t : TestLimit)
      → (if token then parse_test_limit header else none) ≡ some t
      → (token ≡ true) × (1 ≤ t.limit) × (t.limit ≤ 10)
  unfolding parse_test_limit
  read_limit-range true header t e =
      let (low, high) = match_test_limit-range (split_at is_colon (trim (or_else header ""))) t e in
      (refl, low, high)
  read_limit-range false header t e = cc

  caller_at-IsGranted :
      (address : String) (headers : Dict String) (now : ℕ)
      → IsGranted
          (token_matches i (lookup operator_bypass_header headers))
          (some (caller_at i address headers now))
  unfolding caller_at
  caller_at-IsGranted address headers now =
      let token = token_matches i (lookup operator_bypass_header headers) in
      chosen-IsGranted (if token then parse_test_limit (lookup test_limit_header headers) else none)
        (network_of address) (labels_from (lookup "user-agent" headers)) token now
        (read_limit-range token (lookup test_limit_header headers))

  -- Whoever is identified has the limits of its share alone, or the request carries the operator's
  -- token and the caller is a bypass without a test limit, or no bypass with one from 1 to 10.
  pub identify-IsGranted :
      (headers : Dict String) (now : ℕ)
      → IsGranted (token_matches i (lookup operator_bypass_header headers)) (identify i headers now)
  unfolding identify
  identify-IsGranted headers now = elim (Bool-cases (str_eq i.secret "")) [
    | inl off ↦ rw (off, identify) tt
    | inr on ↦ elim (Option-cases (lookup source_ip_header headers)) [
      | inl missing ↦ rw (on, missing, identify) tt
      | inr (text, found) ↦ elim (Bool-cases (is_empty (trim text))) [
        | inl blank ↦ rw (on, found, blank, identify) tt
        | inr named ↦ rw (on, found, named, identify) (caller_at-IsGranted (trim text) headers now)
      ]
    ]
  ]

  -- A caller whose limits are neither lifted nor replaced.
  abbrev pub IsLimited : Option Caller → Type 0
  IsLimited none = Unit
  IsLimited (some caller) = (caller.bypass ≡ false) × (caller.test_limit ≡ none)

  granted-IsLimited :
      (token : Bool) (caller : Option Caller)
      → token ≡ false
      → IsGranted token caller
      → IsLimited caller
  granted-IsLimited token none e g = tt
  granted-IsLimited token (some caller) e (inl limited) = limited
  granted-IsLimited token (some caller) e (inr (valid, _)) = absurd (true≢false (sym valid ∙ e))

  -- Without the operator's token no header lifts a caller's limits or sets its own: whoever is
  -- identified has no bypass and no test limit.
  pub identify-IsLimited :
      (headers : Dict String) (now : ℕ)
      → token_matches i (lookup operator_bypass_header headers) ≡ false
      → IsLimited (identify i headers now)
  identify-IsLimited headers now e =
      granted-IsLimited _ (identify i headers now) e (identify-IsGranted headers now)
