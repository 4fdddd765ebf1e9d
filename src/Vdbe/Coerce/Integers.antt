-- ===== src/Vdbe/Coerce/Integers.antt =====
-- What the integer operations compute.
use native.Mathlib.Nat.{pow-le-pow_right, div-lt_iff_lt-mul, div-le_self, mod-add-div', mod-lt}
use sqlite_rs.Prelude.{
  ℕ, suc, ◌+◌, ◌/◌, ◌%◌, ◌^◌, ◌≤◌, ◌<◌, leb, leb→le, ◌≡◌, sym, ap, arith, false, Bool-cases, inl,
  inr,
}
use sqlite_rs.Prelude.Int.{ℤ, pos, negsuc, pos_part, neg_part, ◌+ℤ◌, ◌*ℤ◌}
use sqlite_rs.Record.Value.{IsI64}
use sqlite_rs.Vdbe.Coerce.{truncated_div, truncated_rem, is_zero_int, shift_by, shift}

-- The integer a / 2^n, rounded towards minus infinity.
unfoldable floor_div : ℤ → ℕ → ℤ
floor_div (pos m) d = pos (m / d)
floor_div (negsuc m) d = negsuc (m / d)

half_small : (m n : ℕ) → m < 2 ^ 63 → 64 ≤ n → m / 2 ^ n ≡ 0
half_small m n h k =
    let power : 2 ^ 64 ≤ 2 ^ n = pow-le-pow_right {n = 2} (omega arith) k in
    let below : m / 2 ^ n < 1 =
      (div-lt_iff_lt-mul {k = 2 ^ n} {x = m} {y = 1} (omega (arith, power))).1
        (omega (arith, power)) in
    omega (arith, below)

-- A shift of an i64 to the right by any amount, 64 and more included, is the division by a power of two
-- that rounds down.
shift_right_floor : (a : ℤ) (n : ℕ) → IsI64 a → shift a (pos n) false ≡ floor_div a (2 ^ n)
unfolding shift shift_by floor_div
shift_right_floor (pos m) n p = elim (Bool-cases (leb 64 n)) [
  | inl e ↦ rw e (ap pos (sym (half_small m n p (leb→le 64 n e))))
  | inr e ↦ rw e (ground (arith, div-le_self m (2 ^ n)))
]
shift_right_floor (negsuc m) n p = elim (Bool-cases (leb 64 n)) [
  | inl e ↦ rw e (ground (arith, half_small m n p (leb→le 64 n e)))
  | inr e ↦ rw e (ground (arith, div-le_self m (2 ^ n)))
]

rem_small : (m d : ℕ) → 0 < d → m % d < d
rem_small m d h = mod-lt m h

-- Where the divisor is not zero, the dividend is the quotient times the divisor plus the remainder, and
-- the remainder is smaller than the divisor, both without their signs.
truncated_div-truncated_rem :
    (x y : ℤ)
    → is_zero_int y ≡ false
    → (truncated_div x y *ℤ y +ℤ truncated_rem x y ≡ x)
      × (pos_part (truncated_rem x y) + neg_part (truncated_rem x y) < pos_part y + neg_part y)
unfolding truncated_div truncated_rem is_zero_int ◌*ℤ◌ ◌+ℤ◌
truncated_div-truncated_rem (pos m) (pos d) h =
    let small = rem_small m d (ground arith) in
    (ground (arith, mod-add-div' m d), ground (arith, small))
truncated_div-truncated_rem (pos m) (negsuc d) h =
    (ground (arith, mod-add-div' m (suc d)), ground (arith, rem_small m (suc d) (omega arith)))
truncated_div-truncated_rem (negsuc m) (pos d) h =
    let small = rem_small (suc m) d (ground arith) in
    (ground (arith, mod-add-div' (suc m) d), ground (arith, small))
truncated_div-truncated_rem (negsuc m) (negsuc d) h = (
  ground (arith, mod-add-div' (suc m) (suc d)),
  ground (arith, rem_small (suc m) (suc d) (omega arith)),
)
