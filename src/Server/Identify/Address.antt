-- ===== src/Server/Identify/Address.antt =====
-- The network that an address stands for (server/identify.ts: `networkOf`, `isClaudeAiPool`,
-- `ipv4ToInt`, `expandIPv6`). `isIPv4` and `isIPv6` are those of `node:net`, as documented: four decimal
-- octets without leading zeros; eight groups of one to four hexadecimal digits, of which `::` stands
-- for one or more, the last two of which may be written as an IPv4 address.
use Prim.Native.Char.{Char, code}
use federal_mcps.Common.{
  ℕ, zero, suc, ◌+◌, ◌-◌, ◌*◌, ◌/◌, ◌%◌, ◌^◌, String, Bool, true, false, ◌&&◌, ◌||◌, not, Option,
  none, some, List, [], ◌∷◌, ◌++◌, map, length, all, ltb, leb, ◌==◌, if◌then◌else◌,
}
use federal_mcps.Common.Text.{template, join}
use federal_mcps.Common.Chars.{
  is_digit, is_empty, every_char, units_of, split_at, put_first, slice_to, trim, to_lower_case,
}
use federal_mcps.Http.Notes.{decimal}
use federal_mcps.Server.Identify.Hex.{is_hex_digit, parse_hex, parse_decimal, to_hex}

abbrev pub is_dot : Char → Bool
is_dot c = code c == 46

abbrev pub is_colon : Char → Bool
is_colon c = code c == 58

abbrev pub starts_zero : String → Bool
starts_zero String.[] = false
starts_zero (String.◌∷◌ c s) = code c == 48

unfoldable pub is_octet : String → Bool
is_octet s =
    every_char is_digit s
    && leb 1 (units_of s)
    && leb (units_of s) 3
    && (units_of s == 1 || not (starts_zero s))
    && leb (parse_decimal s) 255

abbrev pub octets_of : String → List String
octets_of s = split_at is_dot s

unfoldable pub is_ipv4 : String → Bool
is_ipv4 s = length (octets_of s) == 4 && all is_octet (octets_of s)

-- `((value << 8) | octet) >>> 0`, for an octet below 256.
abbrev pub shift_in : ℕ → ℕ → ℕ
shift_in value octet = value * 256 % 2 ^ 32 + octet

unfoldable pub fold_octets : ℕ → List String → ℕ
fold_octets value [] = value
fold_octets value (octet ∷ octets) = fold_octets (shift_in value (parse_decimal octet)) octets

unfoldable pub ipv4_to_int : String → ℕ
unfolding fold_octets
ipv4_to_int s = fold_octets 0 (octets_of s)

unfoldable pub is_group : String → Bool
is_group s = every_char is_hex_digit s && leb 1 (units_of s) && leb (units_of s) 4

abbrev pub one_more : Option ℕ → Option ℕ
one_more none = none
one_more (some n) = some (suc n)

-- How many groups the pieces stand for, if they are groups, the last perhaps an IPv4 address.
unfoldable pub count_groups : (tail : Bool) → List String → Option ℕ
count_groups tail [] = some 0
count_groups tail (s ∷ []) =
    if is_group s then some 1 else if tail && is_ipv4 s then some 2 else none
count_groups tail (s ∷ t ∷ pieces) =
    if is_group s then one_more (count_groups tail (t ∷ pieces)) else none

abbrev pub groups_in : Bool → String → Option ℕ
groups_in tail part = if is_empty part then some 0 else count_groups tail (split_at is_colon part)

-- `text.split("::")`
unfoldable pub split_double : String → List String
split_double String.[] = "" ∷ []
split_double (String.◌∷◌ c String.[]) = String.◌∷◌ c "" ∷ []
split_double (String.◌∷◌ c (String.◌∷◌ d s)) = elim (is_colon c && is_colon d) [
  | true ↦ "" ∷ split_double s
  | false ↦ put_first c (split_double (String.◌∷◌ d s))
]

abbrev pub or_zero : Option ℕ → ℕ
or_zero none = 0
or_zero (some n) = n

abbrev pub fill_eight : Option ℕ → Option ℕ → Bool
fill_eight (some front) (some back) = ltb (front + back) 8
fill_eight _ _ = false

abbrev pub spells_eight : List String → Bool
spells_eight [] = false
spells_eight (whole ∷ []) = or_zero (groups_in true whole) == 8
spells_eight (front ∷ back ∷ []) = fill_eight (groups_in false front) (groups_in true back)
spells_eight (_ ∷ _ ∷ _ ∷ _) = false

unfoldable pub is_ipv6 : String → Bool
is_ipv6 s = spells_eight (split_double s)

unfoldable pub has_colon : String → Bool
has_colon s = not (every_char (λ c. not (is_colon c)) s)

-- `text.slice(text.lastIndexOf(":") + 1)` and what stands before it.
unfoldable pub after_last_colon : String → String
after_last_colon String.[] = ""
after_last_colon (String.◌∷◌ c s) =
    let later = after_last_colon s in
    if has_colon s then later else if is_colon c then s else String.◌∷◌ c s

unfoldable pub through_last_colon : String → String
through_last_colon String.[] = ""
through_last_colon (String.◌∷◌ c s) =
    let later = through_last_colon s in
    if has_colon s then String.◌∷◌ c later else if is_colon c then ":" else ""

-- A dotted tail as two groups: `value >>> 16` and `value & 0xffff`.
unfoldable pub with_hex_tail : String → String
with_hex_tail text =
    let tail = after_last_colon text in
    let value = ipv4_to_int tail in
    if is_ipv4 tail
    then template
        (through_last_colon text ∷ to_hex (value / 65_536) ∷ ":" ∷ to_hex (value % 65_536) ∷ [])
    else text

unfoldable pub hextets_of : String → List ℕ
hextets_of part = if is_empty part then [] else map parse_hex (split_at is_colon part)

unfoldable pub zeros : ℕ → List ℕ
zeros zero = []
zeros (suc n) = 0 ∷ zeros n

-- `missing < 1` where the parts have eight groups or more.
unfoldable pub fill_zeros : List ℕ → List ℕ → Option (List ℕ)
fill_zeros front back =
    if ltb (length front + length back) 8
    then some (front ++ zeros (8 - length front - length back) ++ back)
    else none

unfoldable pub expand_parts : List String → Option (List ℕ)
unfolding hextets_of
expand_parts [] = none
expand_parts (head ∷ []) = if length (hextets_of head) == 8 then some (hextets_of head) else none
expand_parts (head ∷ tail ∷ []) = fill_zeros (hextets_of head) (hextets_of tail)
expand_parts (_ ∷ _ ∷ _ ∷ _) = none

unfoldable pub expand_ipv6 : String → Option (List ℕ)
expand_ipv6 text = expand_parts (split_double (with_hex_tail text))

abbrev pub dotted : ℕ → ℕ → String
dotted high low = template (
    decimal (high / 256)
    ∷ "."
    ∷ decimal (high % 256)
    ∷ "."
    ∷ decimal (low / 256)
    ∷ "."
    ∷ decimal (low % 256)
    ∷ [])

-- The text of eight groups: dotted for a mapped address, the first four groups for another.
unfoldable pub network_of_groups : List ℕ → String
network_of_groups (g₀ ∷ g₁ ∷ g₂ ∷ g₃ ∷ g₄ ∷ g₅ ∷ g₆ ∷ g₇ ∷ _) =
    if all (λ g. g == 0) (g₀ ∷ g₁ ∷ g₂ ∷ g₃ ∷ g₄ ∷ []) && g₅ == 65_535
    then dotted g₆ g₇
    else template (join ":" (map to_hex (g₀ ∷ g₁ ∷ g₂ ∷ g₃ ∷ [])) ∷ "::/64" ∷ [])
network_of_groups _ = ""

abbrev pub network_of_expanded : String → Option (List ℕ) → String
network_of_expanded cleaned none = cleaned
network_of_expanded cleaned (some groups) = network_of_groups groups

unfoldable pub before_zone : String → String
before_zone String.[] = ""
before_zone (String.◌∷◌ c s) =
    let rest = before_zone s in if code c == 37 then "" else String.◌∷◌ c rest

abbrev pub max_address_length : ℕ
max_address_length = 64

abbrev pub cleaned_of : String → String
cleaned_of address = before_zone (slice_to max_address_length (to_lower_case (trim address)))

unfoldable pub network_of : String → String
network_of address =
    let cleaned = cleaned_of address in
    if is_ipv4 cleaned
    then cleaned
    else if not (is_ipv6 cleaned)
    then cleaned
    else network_of_expanded cleaned (expand_ipv6 cleaned)

-- `(value & 0xfffff800) >>> 0`, which drops eleven bits.
abbrev pub pool_part : ℕ → ℕ
pool_part value = value / 2048 * 2048

unfoldable pub pool_base : ℕ
unfolding ipv4_to_int
pool_base = ipv4_to_int "160.79.104.0"

unfoldable pub is_claude_ai_pool : String → Bool
is_claude_ai_pool address =
    let network = network_of address in
    if is_ipv4 network then pool_part (ipv4_to_int network) == pool_base else false
