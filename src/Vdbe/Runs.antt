-- ===== src/Vdbe/Runs.antt =====
-- Concrete runs of the affinities, the comparisons and the logic.
use Prim.Native.Nat.{Ordering}
use sqlite_rs.Prelude.{◌≡◌, ◌≢◌, refl, arith, true, false, [], ◌∷◌}
use sqlite_rs.Prelude.Int.{pos}
use sqlite_rs.Record.Value as V
use sqlite_rs.Record.Value.{Value}
use sqlite_rs.Record.Collation.{binary, compare_bytes}
use sqlite_rs.Vdbe.Floats.{two_63, ge, partial_cmp}
use sqlite_rs.Vdbe.Floats.Toy.{toy, toy_exact_floats}
use sqlite_rs.Vdbe.Compare.{compare_values, value_rank, compare_same_rank, compare_int_real}
use sqlite_rs.Vdbe.Compare.Keys.{sort_key, compare_values-sort_key}
use sqlite_rs.Vdbe.Compare.Order.{compare_values_trans}
use sqlite_rs.Vdbe.Logic.{is, is_null, is_equal}
use sqlite_rs.Vdbe.Affinity.{
  integer, ascii_uppercase, to_ascii_uppercase, starts_with, contains, is_empty, affinity_of_upper,
  affinity_of,
}

tinyint : affinity_of (116 ∷ 105 ∷ 110 ∷ 121 ∷ 105 ∷ 110 ∷ 116 ∷ []) ≡ integer
unfolding affinity_of affinity_of_upper to_ascii_uppercase ascii_uppercase contains starts_with
    is_empty
tinyint = refl

abbrev seven : Value
seven = V.integer (pos 7)

abbrev real_seven : Value
real_seven = V.real 7

-- 2^63 is past every i64.
integer_below_real : compare_values toy seven (V.real two_63) binary ≡ Ordering.lt
unfolding compare_values value_rank compare_same_rank compare_int_real ge
integer_below_real = refl

compare_values-sort_key_example :
    compare_values toy seven (V.real two_63) binary
    ≡ compare_bytes
        (sort_key toy toy_exact_floats seven binary)
        (sort_key toy toy_exact_floats (V.real two_63) binary)
compare_values-sort_key_example =
    compare_values-sort_key toy toy_exact_floats seven (V.real two_63) binary (omega arith)
      (omega arith)

null_below : compare_values toy V.null seven binary ≢ Ordering.gt
unfolding compare_values value_rank
null_below h = ground arith

below_real : compare_values toy seven real_seven binary ≢ Ordering.gt
unfolding compare_values value_rank compare_same_rank compare_int_real ge partial_cmp
below_real h = ground arith

compare_values_trans_example : compare_values toy V.null real_seven binary ≢ Ordering.gt
compare_values_trans_example =
    compare_values_trans toy toy_exact_floats binary V.null seven real_seven tt (omega arith)
      (omega arith) null_below below_real

equal_seven : compare_values toy seven real_seven binary ≡ Ordering.eq
unfolding compare_values value_rank compare_same_rank compare_int_real ge partial_cmp
equal_seven = refl

no_null : is_null seven ≡ false
unfolding is_null
no_null = refl

seven_is : is toy seven real_seven binary ≡ true
unfolding is is_null is_equal compare_values value_rank compare_same_rank compare_int_real ge
    partial_cmp
seven_is = refl
