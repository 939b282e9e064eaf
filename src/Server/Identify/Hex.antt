-- ===== src/Server/Identify/Hex.antt =====
-- Numbers as hexadecimal text, and digits as numbers (server/identify.ts: `toString(16)` on 16 bits and
-- `Number.parseInt` on a text that has digits only).
use Prim.Native.Char.{Char, code}
use Prim.Native.String
use Prim.Native.String.append
use federal_mcps.Common.{
  refl, Bool-cases, ltb→lt, inl, inr, ◌<◌, ◌≡◌, ap, ◌∙◌, arith, ℕ, zero, suc, ◌+◌, ◌-◌, ◌*◌, ◌/◌,
  ◌%◌, String, Bool, ◌||◌, ltb, if◌then◌else◌,
}
use federal_mcps.Common.Chars.{in_range, is_digit}

unfoldable pub is_hex_digit : Char → Bool
is_hex_digit c = is_digit c || in_range 65 70 c || in_range 97 102 c

unfoldable pub hex_digit_value : Char → ℕ
hex_digit_value c =
    if is_digit c then code c - 48 else if in_range 65 70 c then code c - 55 else code c - 87

abbrev pub decimal_digit_value : Char → ℕ
decimal_digit_value c = code c - 48

-- The number that the digits spell behind `n`, in a base.
unfoldable pub digits_value : ℕ → (Char → ℕ) → ℕ → String → ℕ
digits_value base digit n String.[] = n
digits_value base digit n (String.◌∷◌ c s) = digits_value base digit (n * base + digit c) s

abbrev pub parse_hex : String → ℕ
parse_hex = digits_value 16 hex_digit_value 0

abbrev pub parse_decimal : String → ℕ
parse_decimal = digits_value 10 decimal_digit_value 0

high_hex_digit : ℕ → Char
high_hex_digit zero = "a"
high_hex_digit (suc zero) = "b"
high_hex_digit (suc (suc zero)) = "c"
high_hex_digit (suc (suc (suc zero))) = "d"
high_hex_digit (suc (suc (suc (suc zero)))) = "e"
high_hex_digit _ = "f"

-- The digit of a number below 16.
unfoldable pub hex_digit : ℕ → Char
unfolding high_hex_digit
hex_digit zero = "0"
hex_digit (suc zero) = "1"
hex_digit (suc (suc zero)) = "2"
hex_digit (suc (suc (suc zero))) = "3"
hex_digit (suc (suc (suc (suc zero)))) = "4"
hex_digit (suc (suc (suc (suc (suc zero))))) = "5"
hex_digit (suc (suc (suc (suc (suc (suc zero)))))) = "6"
hex_digit (suc (suc (suc (suc (suc (suc (suc zero))))))) = "7"
hex_digit (suc (suc (suc (suc (suc (suc (suc (suc zero)))))))) = "8"
hex_digit (suc (suc (suc (suc (suc (suc (suc (suc (suc zero))))))))) = "9"
hex_digit (suc (suc (suc (suc (suc (suc (suc (suc (suc (suc n)))))))))) = high_hex_digit n

unfoldable pub hex_from : ℕ → ℕ → String
hex_from zero n = String.◌∷◌ (hex_digit n) ""
hex_from (suc more) n =
    let front = hex_from more (n / 16) in
    if ltb n 16
    then String.◌∷◌ (hex_digit n) ""
    else String.◌++◌ front (String.◌∷◌ (hex_digit (n % 16)) "")

-- Four digits are enough for 16 bits.
unfoldable pub to_hex : ℕ → String
to_hex = hex_from 3

digits_value-append :
    (n d : ℕ) (s : String)
    → digits_value 16 hex_digit_value n (String.◌++◌ s (String.◌∷◌ (hex_digit d) ""))
      ≡ digits_value 16 hex_digit_value n s * 16 + hex_digit_value (hex_digit d)
unfolding digits_value
digits_value-append n d String.[] =
    ap (digits_value 16 hex_digit_value n) (append.nil (String.◌∷◌ (hex_digit d) ""))
digits_value-append n d (String.◌∷◌ c s) =
    ap (digits_value 16 hex_digit_value n) (append.cons c s (String.◌∷◌ (hex_digit d) ""))
    ∙ digits_value-append (n * 16 + hex_digit_value c) d s

hex_digit_value-hex_digit : (d : ℕ) → d < 16 → hex_digit_value (hex_digit d) ≡ d
unfolding hex_digit_value hex_digit
hex_digit_value-hex_digit zero h = refl
hex_digit_value-hex_digit (suc zero) h = refl
hex_digit_value-hex_digit (suc (suc zero)) h = refl
hex_digit_value-hex_digit (suc (suc (suc zero))) h = refl
hex_digit_value-hex_digit (suc (suc (suc (suc zero)))) h = refl
hex_digit_value-hex_digit (suc (suc (suc (suc (suc zero))))) h = refl
hex_digit_value-hex_digit (suc (suc (suc (suc (suc (suc zero)))))) h = refl
hex_digit_value-hex_digit (suc (suc (suc (suc (suc (suc (suc zero))))))) h = refl
hex_digit_value-hex_digit (suc (suc (suc (suc (suc (suc (suc (suc zero)))))))) h = refl
hex_digit_value-hex_digit (suc (suc (suc (suc (suc (suc (suc (suc (suc zero))))))))) h = refl
hex_digit_value-hex_digit (suc (suc (suc (suc (suc (suc (suc (suc (suc (suc zero)))))))))) h = refl
hex_digit_value-hex_digit (suc (suc (suc (suc (suc (suc (suc (suc (suc (suc (suc zero))))))))))) h =
    refl
hex_digit_value-hex_digit
      (suc (suc (suc (suc (suc (suc (suc (suc (suc (suc (suc (suc zero)))))))))))) h =
    refl
hex_digit_value-hex_digit
      (suc (suc (suc (suc (suc (suc (suc (suc (suc (suc (suc (suc (suc zero))))))))))))) h =
    refl
hex_digit_value-hex_digit
      (suc (suc (suc (suc (suc (suc (suc (suc (suc (suc (suc (suc (suc (suc zero)))))))))))))) h =
    refl
hex_digit_value-hex_digit
      (suc (suc (suc (suc (suc (suc (suc (suc (suc (suc (suc (suc (suc (suc (suc zero)))))))))))))))
      h =
    refl
hex_digit_value-hex_digit
      (suc
        (suc (suc (suc (suc (suc (suc (suc (suc (suc (suc (suc (suc (suc (suc (suc n))))))))))))))))
      h =
    absurd (omega arith)

-- The numbers below a power of 16.
abbrev bound : ℕ → ℕ
bound zero = 16
bound (suc more) = 16 * bound more

parse_hex-hex_from : (more n : ℕ) → n < bound more → parse_hex (hex_from more n) ≡ n
unfolding digits_value hex_from
parse_hex-hex_from zero n h = ground (arith, hex_digit_value-hex_digit n h)
parse_hex-hex_from (suc more) n h = elim (Bool-cases (ltb n 16)) [
  | inl small ↦
      rw (small, hex_from) (ground (arith, hex_digit_value-hex_digit n (ltb→lt n 16 small)))
  | inr large ↦
      let lower : n / 16 < bound more = omega arith in
      let last : n % 16 < 16 = omega arith in
      rw (large, hex_from)
        (digits_value-append 0 (n % 16) (hex_from more (n / 16))
          ∙ omega (
            arith,
            parse_hex-hex_from more (n / 16) lower,
            hex_digit_value-hex_digit (n % 16) last,
          ))
]

-- A group of 16 bits is read back as it was written.
pub parse_hex-to_hex : (n : ℕ) → n < 65_536 → parse_hex (to_hex n) ≡ n
unfolding to_hex
parse_hex-to_hex n h = parse_hex-hex_from 3 n h
