-- ===== src/Vdbe/Coerce.antt =====
-- vdbe/coerce.rs: the coercion of values to numbers, and arithmetic on them.
use sqlite_rs.Prelude.{
  ℕ, zero, suc, ◌+◌, ◌-◌, ◌*◌, ◌/◌, ◌%◌, ◌^◌, ◌==◌, ltb, leb, Bool, true, false, ◌&&◌, ◌||◌, not,
  if◌then◌else◌, List, [], ◌∷◌, length, drop, get_elem?, Option, none, some,
}
pub mod Integers
use Prim.Native.Nat.{bit_and, bit_or}
use sqlite_rs.Prelude.Bytes.{slice}
use sqlite_rs.Prelude.Text.{as_bytes}
use sqlite_rs.Prelude.Int.{ℤ, pos, negsuc, pos_part, neg_part, sub_ℕ, ltb_ℤ, ◌+ℤ◌, ◌-ℤ◌, ◌*ℤ◌}
use sqlite_rs.Record.Value as V
use sqlite_rs.Record.Value.{Value, as_unsigned, as_signed, fits_signed}
use sqlite_rs.Vdbe.Floats.{Floats}
use sqlite_rs.Vdbe.Numbers.{scan_number_prefix, parse_i64}

-- `x as u64` and back.
abbrev pub as_u64 : ℤ → ℕ
as_u64 x = as_unsigned 64 x

abbrev pub as_i64 : ℕ → ℤ
as_i64 v = as_signed 63 v

-- `checked_add`, `checked_sub`, `checked_mul` of i64
abbrev pub in_i64 : ℤ → Option ℤ
in_i64 i = if fits_signed 63 i then some i else none

-- The quotient and the remainder of a division that truncates, where y is not 0.
unfoldable pub truncated_div : ℤ → ℤ → ℤ
truncated_div x y =
    let q = (pos_part x + neg_part x) / (pos_part y + neg_part y) in
    if (neg_part x == 0) && (neg_part y == 0) || not (neg_part x == 0) && not (neg_part y == 0)
    then pos q
    else sub_ℕ 0 q

unfoldable pub truncated_rem : ℤ → ℤ → ℤ
truncated_rem x y =
    let r = (pos_part x + neg_part x) % (pos_part y + neg_part y) in
    if neg_part x == 0 then pos r else sub_ℕ 0 r

unfoldable pub is_zero_int : ℤ → Bool
is_zero_int (pos n) = n == 0
is_zero_int (negsuc n) = false

-- `shift` after the turn of its direction.
unfoldable pub shift_by : ℤ → ℕ → Bool → ℤ
shift_by a n left =
    if leb 64 n
    then (if neg_part a == 0 then pos 0 else negsuc 0)
    else if left
    then as_i64 (as_u64 a * 2 ^ n % 2 ^ 64)
    else if neg_part a == 0
    then as_i64 (as_u64 a / 2 ^ n)
    else as_i64 (2 ^ 64 - 1 - (2 ^ 64 - 1 - as_u64 a) / 2 ^ n)

-- A negative amount of -63 or more is negated, one below counts as 64.
unfoldable pub shift : ℤ → ℤ → Bool → ℤ
shift a (pos n) left = shift_by a n left
shift a (negsuc n) left = shift_by a (if ltb n 63 then n + 1 else 64) (not left)

module _ (f : Floats) where
  -- `parse::<f64>().map_or(Value::Integer(0), Value::Real)`
  unfoldable pub real_or_zero : Option ℕ → Value
  real_or_zero none = V.integer (pos 0)
  real_or_zero (some r) = V.real r

  unfoldable pub parse_literal : List ℕ → Bool → Value
  parse_literal literal is_float =
      if is_float
      then real_or_zero (f.parse literal)
      else elim (parse_i64 literal) [ some i ↦ V.integer i | none ↦ real_or_zero (f.parse literal) ]

  -- The slice of a literal that was found in the text does not fail.
  unfoldable pub coerce_text_to_numeric : List ℕ → Value
  coerce_text_to_numeric s = elim (scan_number_prefix (as_bytes s)) [
    | none ↦ V.integer (pos 0)
    | some (start, (end, is_float)) ↦ elim (slice (as_bytes s) start end) [
      | none ↦ V.integer (pos 0)
      | some literal ↦ parse_literal literal is_float
    ]
  ]

  unfoldable pub as_numeric : Value → Value
  as_numeric V.null = V.integer (pos 0)
  as_numeric (V.integer i) = V.integer i
  as_numeric (V.real r) = V.real r
  as_numeric (V.text s) = coerce_text_to_numeric s
  as_numeric (V.blob b) = V.integer (pos 0)

  -- `0.0` has the bits 0.
  unfoldable pub to_f64 : Value → ℕ
  to_f64 V.null = 0
  to_f64 (V.integer i) = f.of_int i
  to_f64 (V.real r) = r
  to_f64 (V.text s) = 0
  to_f64 (V.blob b) = 0

  unfoldable pub int_or_real : Option ℤ → ℕ → Value
  int_or_real (some v) r = V.integer v
  int_or_real none r = V.real r

  unfoldable pub arith_numeric : Value → Value → (ℤ → ℤ → Option ℤ) → (ℕ → ℕ → ℕ) → Value
  arith_numeric (V.integer x) (V.integer y) int_op float_op =
      int_or_real (int_op x y) (float_op (f.of_int x) (f.of_int y))
  arith_numeric x y int_op float_op = V.real (float_op (to_f64 x) (to_f64 y))

  unfoldable pub arith_op : Value → Value → (ℤ → ℤ → Option ℤ) → (ℕ → ℕ → ℕ) → Value
  arith_op a b int_op float_op = arith_numeric (as_numeric a) (as_numeric b) int_op float_op

  unfoldable pub checked_add : Value → Value → Value
  checked_add a b = arith_op a b (λ x y. in_i64 (x +ℤ y)) (f.add)

  unfoldable pub checked_sub : Value → Value → Value
  checked_sub a b = arith_op a b (λ x y. in_i64 (x -ℤ y)) (f.sub)

  unfoldable pub checked_mul : Value → Value → Value
  checked_mul a b = arith_op a b (λ x y. in_i64 (x *ℤ y)) (f.mul)

  unfoldable pub div_real : ℕ → ℕ → Value
  div_real x y = if f.is_zero y then V.null else V.real (f.div x y)

  unfoldable pub div_numeric : Value → Value → Value
  div_numeric (V.integer x) (V.integer y) =
      if is_zero_int y
      then V.null
      else int_or_real (in_i64 (truncated_div x y)) (f.div (f.of_int x) (f.of_int y))
  div_numeric x y = div_real (to_f64 x) (to_f64 y)

  unfoldable pub checked_div : Value → Value → Value
  checked_div a b = div_numeric (as_numeric a) (as_numeric b)

  unfoldable pub int_of_numeric : Value → ℤ
  int_of_numeric (V.integer i) = i
  int_of_numeric (V.real r) = f.to_int r
  int_of_numeric _ = pos 0

  unfoldable pub cast_to_integer : Value → ℤ
  cast_to_integer V.null = pos 0
  cast_to_integer (V.integer i) = i
  cast_to_integer (V.real r) = f.to_int r
  cast_to_integer (V.text s) = int_of_numeric (coerce_text_to_numeric s)
  cast_to_integer (V.blob b) = pos 0

  -- `matches!(v, Value::Real(_))`
  unfoldable pub is_real : Value → Bool
  is_real (V.real r) = true
  is_real _ = false

  -- i64::MIN % -1, the one remainder that checked_rem refuses, is 0 all the same.
  unfoldable pub rem_of : ℤ → ℤ → Bool → Value
  rem_of x y real =
      if is_zero_int y
      then V.null
      else if real
      then V.real (f.of_int (truncated_rem x y))
      else V.integer (truncated_rem x y)

  unfoldable pub checked_rem : Value → Value → Value
  checked_rem a b =
      rem_of (cast_to_integer (as_numeric a)) (cast_to_integer (as_numeric b))
        (is_real (as_numeric a) || is_real (as_numeric b))

  unfoldable pub and_bits : Value → Value → Value
  and_bits a b = V.integer (
      as_i64 (
        bit_and (as_u64 (cast_to_integer (as_numeric a)))
          (as_u64 (cast_to_integer (as_numeric b)))))

  unfoldable pub or_bits : Value → Value → Value
  or_bits a b = V.integer (
      as_i64 (
        bit_or (as_u64 (cast_to_integer (as_numeric a))) (as_u64 (cast_to_integer (as_numeric b)))))

  unfoldable pub not_bits : Value → Value
  not_bits a = V.integer (as_i64 (2 ^ 64 - 1 - as_u64 (cast_to_integer (as_numeric a))))

  unfoldable pub shift_left : Value → Value → Value
  shift_left a b =
      V.integer (shift (cast_to_integer (as_numeric a)) (cast_to_integer (as_numeric b)) true)

  unfoldable pub shift_right : Value → Value → Value
  shift_right a b =
      V.integer (shift (cast_to_integer (as_numeric a)) (cast_to_integer (as_numeric b)) false)
