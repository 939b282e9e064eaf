-- ===== src/Server/Identify/Pool.antt =====
-- The addresses of the claude.ai pool (server/identify.ts: `isClaudeAiPool`), and the groups of an
-- address (`expandIPv6`).
use federal_mcps.Common.{
  ℕ, zero, suc, ap, ◌-◌, ◌<◌, ◌≡◌, refl, String, Bool, true, false, ◌&&◌, some, List, [], ◌∷◌, ◌++◌,
  length, length-append, all, arith, leb, ◌==◌, Bool-cases, inl, inr,
}
use federal_mcps.Common.Chars.{split_at}
use federal_mcps.Server.Identify.Hex.{digits_value, parse_decimal}
use federal_mcps.Server.Identify.Address.{
  is_octet, octets_of, is_ipv4, shift_in, fold_octets, ipv4_to_int, network_of, pool_part,
  pool_base, is_claude_ai_pool, zeros, fill_zeros, hextets_of, expand_parts, expand_ipv6,
  split_double, with_hex_tail,
}

octet_bound : (s : String) → is_octet s ≡ true → parse_decimal s < 256
unfolding is_octet
octet_bound s h = ground arith

-- Whether the octets are those of 160.79.104.0 to 160.79.111.255.
abbrev pub in_pool_range : List String → Bool
in_pool_range (a ∷ b ∷ c ∷ d ∷ []) =
    parse_decimal a == 160
    && parse_decimal b == 79
    && leb 104 (parse_decimal c)
    && leb (parse_decimal c) 111
in_pool_range _ = false

fold-pool :
    (a b c d : ℕ)
    → a < 256
    → b < 256
    → c < 256
    → d < 256
    → (pool_part (shift_in (shift_in (shift_in (shift_in 0 a) b) c) d) == 2_689_558_528)
      ≡ (a == 160 && b == 79 && leb 104 c && leb c 111)
fold-pool a b c d ha hb hc hd = ground arith

folded-pool :
    (octets : List String)
    → (length octets == 4 && all is_octet octets) ≡ true
    → (pool_part (fold_octets 0 octets) == pool_base) ≡ in_pool_range octets
unfolding fold_octets pool_base split_at digits_value
folded-pool [] h = cc
folded-pool (a ∷ []) h = cc
folded-pool (a ∷ b ∷ []) h = cc
folded-pool (a ∷ b ∷ c ∷ []) h = cc
folded-pool (a ∷ b ∷ c ∷ d ∷ e ∷ r) h = ground arith
folded-pool (a ∷ b ∷ c ∷ d ∷ []) h =
    let ha : is_octet a ≡ true = ground arith in
    let hb : is_octet b ≡ true = ground arith in
    let hc : is_octet c ≡ true = ground arith in
    let hd : is_octet d ≡ true = ground arith in
    fold-pool (parse_decimal a) (parse_decimal b) (parse_decimal c) (parse_decimal d)
      (octet_bound a ha) (octet_bound b hb) (octet_bound c hc) (octet_bound d hd)

-- An address is one of the claude.ai pool exactly if its network is an IPv4 address from 160.79.104.0
-- to 160.79.111.255.
pub is_claude_ai_pool-range :
    (address : String)
    → is_claude_ai_pool address
      ≡ (is_ipv4 (network_of address) && in_pool_range (octets_of (network_of address)))
unfolding is_claude_ai_pool is_ipv4 ipv4_to_int
is_claude_ai_pool-range address = elim (Bool-cases (is_ipv4 (network_of address))) [
  | inl v4 ↦ rw (v4, is_claude_ai_pool, is_ipv4) (folded-pool (octets_of (network_of address)) v4)
  | inr other ↦ rw (other, is_claude_ai_pool, is_ipv4) refl
]

length-zeros : (n : ℕ) → length (zeros n) ≡ n
unfolding zeros
length-zeros zero = refl
length-zeros (suc n) = ap suc (length-zeros n)

fill_zeros-eight :
    (front back groups : List ℕ) → fill_zeros front back ≡ some groups → length groups ≡ 8
unfolding fill_zeros
fill_zeros-eight front back groups e =
    let missing = 8 - length front - length back in
    ground (
      arith,
      length-append (front ++ zeros missing) back,
      length-append front (zeros missing),
      length-zeros missing,
    )

expand_parts-eight :
    (parts : List String) (groups : List ℕ) → expand_parts parts ≡ some groups → length groups ≡ 8
unfolding expand_parts
expand_parts-eight [] groups e = cc
expand_parts-eight (head ∷ []) groups e = ground arith
expand_parts-eight (head ∷ tail ∷ []) groups e =
    fill_zeros-eight (hextets_of head) (hextets_of tail) groups e
expand_parts-eight (_ ∷ _ ∷ _ ∷ _) groups e = cc

-- An address that is expanded has eight groups.
pub length-expand_ipv6 :
    (text : String) (groups : List ℕ) → expand_ipv6 text ≡ some groups → length groups ≡ 8
unfolding expand_ipv6
length-expand_ipv6 text = expand_parts-eight (split_double (with_hex_tail text))
