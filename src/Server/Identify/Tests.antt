-- ===== src/Server/Identify/Tests.antt =====
-- Tests and instances for the parts that say who is calling.
use federal_mcps.Common.{◌≡◌, refl, String, ◌&&◌, none, some, [], ◌∷◌, str_eq}
use federal_mcps.Common.Dict.{Dict, lookup}
use federal_mcps.Common.Chars.{
  units_of, every_char, trim_start, trim_end, is_space, map_chars, counterpart, slice_to, split_at,
}
use federal_mcps.Common.Text.{join}
use federal_mcps.Http.Notes.{decimal}
use federal_mcps.Server.Identify.Hex.{
  is_hex_digit, hex_digit_value, digits_value, to_hex, hex_from, hex_digit,
}
use federal_mcps.Server.Identify.Address.{
  is_octet, octets_of, is_ipv4, is_ipv6, fold_octets, ipv4_to_int, is_group, count_groups,
  split_double, has_colon, after_last_colon, through_last_colon, with_hex_tail, hextets_of, zeros,
  fill_zeros, expand_parts, expand_ipv6, network_of_groups, before_zone, network_of,
  is_claude_ai_pool,
}
use federal_mcps.Server.Identify.Pool.{in_pool_range, is_claude_ai_pool-range}
use federal_mcps.Server.Identify.{
  operator_bypass_header, source_ip_header, test_limit_header, Identity, token_matches,
  match_test_limit, parse_test_limit, identify,
}
use federal_mcps.Server.Identify.Granted.{IsGranted, identify-IsGranted}

networks :
    (network_of "198.51.100.7" ≡ "198.51.100.7")
    × (network_of " ::FFFF:198.51.100.7 " ≡ "198.51.100.7")
    × (network_of "::ffff:c633:6407" ≡ "198.51.100.7")
    × (network_of "2001:DB8:1:2::1" ≡ "2001:db8:1:2::/64")
    × (network_of "fe80::1%eth0" ≡ "fe80:0:0:0::/64")
    × (network_of "1:2:3:4:5:6:7:8" ≡ "1:2:3:4::/64")
    × (network_of "1::2::3" ≡ "1::2::3")
    × (network_of "198.51.100.07" ≡ "198.51.100.07")
unfolding network_of is_ipv4 is_ipv6 is_octet is_group count_groups split_double has_colon
    after_last_colon through_last_colon with_hex_tail ipv4_to_int fold_octets hextets_of zeros
    fill_zeros expand_parts expand_ipv6 network_of_groups before_zone trim_start trim_end is_space
    map_chars counterpart slice_to split_at units_of every_char is_hex_digit hex_digit_value
    digits_value to_hex hex_from hex_digit join decimal
networks = (refl, refl, refl, refl, refl, refl, refl, refl)

test_limits :
    (parse_test_limit (some "3:run-20261006a")
      ≡ some (record { limit = 3; run_id = "run-20261006a" }))
    × (parse_test_limit (some "10:12345678") ≡ some (record { limit = 10; run_id = "12345678" }))
    × (parse_test_limit (some "11:12345678") ≡ none)
    × (parse_test_limit (some "3:short") ≡ none)
    × (parse_test_limit none ≡ none)
unfolding parse_test_limit match_test_limit split_at trim_start trim_end is_space every_char
    units_of digits_value
test_limits = (refl, refl, refl, refl, refl)

-- An identity whose digests are the same for the same texts.
abbrev identity : Identity
identity = record {
  secret = "secret";
  operator_token = "token";
  hmac = λ secret text. text;
  same_digest = str_eq;
}

abbrev headers : Dict String
headers =
    (source_ip_header, "203.0.113.9")
    ∷ (operator_bypass_header, "token")
    ∷ (test_limit_header, "3:run-20261006a")
    ∷ []

is_claude_ai_pool-range_example : is_claude_ai_pool "160.79.104.10" ≡ (
    is_ipv4 (network_of "160.79.104.10") && in_pool_range (octets_of (network_of "160.79.104.10")))
is_claude_ai_pool-range_example = is_claude_ai_pool-range "160.79.104.10"

identify-IsGranted_example :
    IsGranted identity
      (token_matches identity (lookup operator_bypass_header headers))
      (identify identity headers 0)
identify-IsGranted_example = identify-IsGranted identity headers 0
