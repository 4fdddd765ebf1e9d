-- ===== src/Vdbe/Floats.antt =====
-- The operations on f64 that the values of the query engine use. The machine's arithmetic is a
-- parameter: an f64 is its bit pattern.
pub mod Toy
use Prim.Native.Nat.{Ordering}
use sqlite_rs.Prelude.{
  ℕ, ◌-◌, ◌^◌, ◌≤◌, ◌<◌, ◌≡◌, Bool, true, false, ◌||◌, not, ltb, if◌then◌else◌, List, Option, none,
  some,
}
use sqlite_rs.Prelude.Int.{ℤ, pos, negsuc, ◌+ℤ◌, ◌-ℤ◌, ltb_ℤ}
use sqlite_rs.Record.Value.{FitsSigned, IsI64}

pub record Floats : Type 0 where
  pub is_nan : ℕ → Bool
  -- `x < y`
  pub lt : ℕ → ℕ → Bool
  pub add : ℕ → ℕ → ℕ
  pub sub : ℕ → ℕ → ℕ
  pub mul : ℕ → ℕ → ℕ
  pub div : ℕ → ℕ → ℕ
  -- `i as f64`, of an i64 or an i128
  pub of_int : ℤ → ℕ
  -- `r as i64`, which is also `r.trunc() as i64`
  pub to_int : ℕ → ℤ
  -- `literal.parse::<f64>().ok()`, of ASCII bytes
  pub parse : List ℕ → Option ℕ
  -- `x == 0.0`
  pub is_zero : ℕ → Bool

-- 9223372036854775808.0 and its negation
abbrev pub two_63 : ℕ
two_63 = 0x43E0000000000000

abbrev pub minus_two_63 : ℕ
minus_two_63 = 0xC3E0000000000000

-- `x >= y`
unfoldable pub ge : Floats → ℕ → ℕ → Bool
ge f x y = not (f.is_nan x || f.is_nan y || f.lt x y)

unfoldable pub partial_cmp : Floats → ℕ → ℕ → Option Ordering
partial_cmp f x y =
    if f.is_nan x || f.is_nan y
    then none
    else if f.lt x y
    then some Ordering.lt
    else if f.lt y x
    then some Ordering.gt
    else some Ordering.eq

-- What IEEE 754 and the casts of Rust promise. `exact` is the value of a double that is not NaN,
-- counted in multiples of the smallest positive double from a number below them all, and `whole` the
-- value of an integer counted like that.
pub record IsExact (f : Floats) : Type 0 where
  pub exact : ℕ → ℕ
  pub whole : ℤ → ℕ
  pub whole_lt :
      (i j : ℤ) → FitsSigned 64 i → FitsSigned 64 j → ltb_ℤ i j ≡ true → whole i < whole j
  pub lt_exact :
      (x y : ℕ) → f.is_nan x ≡ false → f.is_nan y ≡ false → f.lt x y ≡ ltb (exact x) (exact y)
  pub exact_two_63 : exact two_63 ≡ whole (pos (2 ^ 63))
  pub exact_minus_two_63 : exact minus_two_63 ≡ whole (negsuc (2 ^ 63 - 1))
  pub two_63_number : f.is_nan two_63 ≡ false
  pub minus_two_63_number : f.is_nan minus_two_63 ≡ false
  pub of_int_number : (i : ℤ) → f.is_nan (f.of_int i) ≡ false
  pub to_int_fits : (r : ℕ) → IsI64 (f.to_int r)
  -- Within the range of i64 the cast truncates towards zero.
  pub to_int_near :
      (r : ℕ)
      → f.is_nan r ≡ false
      → exact minus_two_63 ≤ exact r
      → exact r < exact two_63
      → (whole (f.to_int r -ℤ pos 1) < exact r) × (exact r < whole (f.to_int r +ℤ pos 1))
  -- The integer part of a double is a double.
  pub of_int_to_int :
      (r : ℕ)
      → f.is_nan r ≡ false
      → exact minus_two_63 ≤ exact r
      → exact r < exact two_63
      → exact (f.of_int (f.to_int r)) ≡ whole (f.to_int r)
