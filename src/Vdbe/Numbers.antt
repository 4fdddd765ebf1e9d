-- ===== src/Vdbe/Numbers.antt =====
-- vdbe/coerce.rs: the scan for a number in a text, and the parsing of an i64.
use sqlite_rs.Prelude.{
  ℕ, suc, ◌+◌, ◌-◌, ◌*◌, ◌==◌, leb, Bool, true, false, ◌&&◌, ◌||◌, not, if◌then◌else◌, List, [],
  ◌∷◌, drop, get_elem?, Option, none, some,
}
use sqlite_rs.Prelude.Int.{ℤ, pos, sub_ℕ}
use sqlite_rs.Record.Value.{fits_signed}

-- `is_ascii_digit`, `is_ascii_whitespace` (space, tab, line feed, form feed, carriage return)
unfoldable pub is_ascii_digit : ℕ → Bool
is_ascii_digit c = leb 48 c && leb c 57

unfoldable pub is_ascii_whitespace : ℕ → Bool
is_ascii_whitespace c = (c == 32) || (c == 9) || (c == 10) || (c == 12) || (c == 13)

-- The loop of `skip_while`: how many bytes in front satisfy the test.
unfoldable pub run_length : (ℕ → Bool) → List ℕ → ℕ
run_length pred [] = 0
run_length pred (c ∷ cs) = let rest = run_length pred cs in if pred c then suc rest else 0

-- The count; the position moves on by it.
unfoldable pub skip_while : List ℕ → ℕ → (ℕ → Bool) → ℕ
skip_while b at pred = run_length pred (drop at b)

-- `matches!(b.get(i), Some(x) | Some(y))`
unfoldable pub byte_is : List ℕ → ℕ → ℕ → ℕ → Bool
byte_is b i x y = elim (get_elem? b i) [ none ↦ false | some c ↦ (c == x) || (c == y) ]

-- Past a sign, if there is one.
unfoldable pub after_sign : List ℕ → ℕ → ℕ
after_sign b i = if byte_is b i 43 45 then i + 1 else i

-- The fraction: the end of the literal and whether it is one of a real, from the end of its integer
-- part and the length of that.
unfoldable pub scan_fraction : List ℕ → ℕ → ℕ → ℕ × Bool
scan_fraction b end int_len =
    let frac_len = skip_while b (end + 1) is_ascii_digit in
    if byte_is b end 46 46 && (not (int_len == 0) || not (frac_len == 0))
    then (end + 1 + frac_len, true)
    else (end, false)

unfoldable pub scan_exponent : List ℕ → ℕ × Bool → ℕ × Bool
scan_exponent b (end, is_float) =
    let j = after_sign b (end + 1) in
    let exp_digits = skip_while b j is_ascii_digit in
    if byte_is b end 101 69 && not (exp_digits == 0)
    then (j + exp_digits, true)
    else (end, is_float)

-- Start and end of the literal, and whether it is one of a real.
unfoldable pub scan_number_prefix : List ℕ → Option (ℕ × (ℕ × Bool))
scan_number_prefix b =
    let start = skip_while b 0 is_ascii_whitespace in
    let first = after_sign b start in
    let int_len = skip_while b first is_ascii_digit in
    let mantissa = scan_fraction b (first + int_len) int_len in
    if (int_len == 0) && not (mantissa.1) then none else some (start, scan_exponent b mantissa)

-- `literal.parse::<i64>()`: a sign or none, digits, and the range.
unfoldable pub digits_value : ℕ → List ℕ → Option ℕ
digits_value acc [] = some acc
digits_value acc (c ∷ cs) =
    let rest = digits_value (acc * 10 + (c - 48)) cs in if is_ascii_digit c then rest else none

unfoldable pub in_range : Option ℕ → Bool → Option ℤ
in_range none negative = none
in_range (some n) negative =
    let i = if negative then sub_ℕ 0 n else pos n in if fits_signed 63 i then some i else none

unfoldable pub parse_digits : List ℕ → Bool → Option ℤ
parse_digits [] negative = none
parse_digits (c ∷ cs) negative = in_range (digits_value 0 (c ∷ cs)) negative

unfoldable pub parse_i64 : List ℕ → Option ℤ
parse_i64 [] = none
parse_i64 (c ∷ cs) =
    if c == 45
    then parse_digits cs true
    else if c == 43
    then parse_digits cs false
    else parse_digits (c ∷ cs) false
