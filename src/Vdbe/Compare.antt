-- ===== src/Vdbe/Compare.antt =====
-- vdbe/compare.rs: the order of values across their types.
pub mod Lex
pub mod Keys
pub mod Order
use Prim.Native.Nat.{compare, Ordering}
use sqlite_rs.Prelude.{ℕ, ◌+◌, Bool, true, false, ◌==◌, not, if◌then◌else◌, Option, none, some}
use sqlite_rs.Prelude.Int.{ℤ, pos_part, neg_part, ltb_ℤ}
use sqlite_rs.Record.Value as V
use sqlite_rs.Record.Value.{Value}
use sqlite_rs.Record.Collation.{Collation, compare_bytes, compare_text}
use sqlite_rs.Vdbe.Floats.{Floats, two_63, minus_two_63, ge, partial_cmp}

unfoldable pub value_rank : Value → ℕ
value_rank V.null = 0
value_rank (V.integer i) = 1
value_rank (V.real r) = 1
value_rank (V.text s) = 2
value_rank (V.blob b) = 3

-- `x.cmp(y)` of two integers.
abbrev pub compare_int : ℤ → ℤ → Ordering
compare_int x y = compare (pos_part x + neg_part y) (pos_part y + neg_part x)

abbrev pub unwrap_or : Option Ordering → Ordering → Ordering
unwrap_or none other = other
unwrap_or (some o) other = o

-- `Ordering::reverse`
unfoldable pub reverse : Ordering → Ordering
reverse Ordering.lt = Ordering.gt
reverse Ordering.eq = Ordering.eq
reverse Ordering.gt = Ordering.lt

module _ (f : Floats) where
  unfoldable pub compare_int_real : ℤ → ℕ → Ordering
  compare_int_real i r =
      if f.is_nan r
      then Ordering.lt
      else if f.lt r minus_two_63
      then Ordering.gt
      else if ge f r two_63
      then Ordering.lt
      else if ltb_ℤ i (f.to_int r)
      then Ordering.lt
      else if ltb_ℤ (f.to_int r) i
      then Ordering.gt
      else unwrap_or (partial_cmp f (f.of_int i) r) Ordering.eq

  unfoldable pub compare_real : ℕ → ℕ → Ordering
  compare_real x y =
      if f.is_nan x
      then if f.is_nan y then Ordering.eq else Ordering.gt
      else if f.is_nan y
      then Ordering.lt
      else unwrap_or (partial_cmp f x y) Ordering.eq

  -- The match on the two values, of one rank.
  unfoldable pub compare_same_rank : Value → Value → Collation → Ordering
  compare_same_rank V.null V.null collation = Ordering.eq
  compare_same_rank (V.integer x) (V.integer y) collation = compare_int x y
  compare_same_rank (V.real x) (V.real y) collation = compare_real x y
  compare_same_rank (V.integer x) (V.real y) collation = compare_int_real x y
  compare_same_rank (V.real x) (V.integer y) collation = reverse (compare_int_real y x)
  compare_same_rank (V.text x) (V.text y) collation = compare_text x y collation
  compare_same_rank (V.blob x) (V.blob y) collation = compare_bytes x y
  compare_same_rank _ _ collation = Ordering.eq

  unfoldable pub compare_values : Value → Value → Collation → Ordering
  compare_values a b collation =
      if not (value_rank a == value_rank b)
      then compare (value_rank a) (value_rank b)
      else compare_same_rank a b collation
