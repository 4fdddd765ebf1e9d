-- ===== src/Vdbe/Aggregate/Sum.antt =====
-- The sum of integers is exact.
use sqlite_rs.Prelude.{
  ℕ, ◌+◌, ◌*◌, ◌^◌, ◌≤◌, ◌<◌, ◌≡◌, refl, ap, ◌∙◌, arith, Bool, true, false, ◌||◌, if◌then◌else◌,
  List, [], ◌∷◌, length, map, Option, none, some,
}
use sqlite_rs.Prelude.Bytes.{All}
use sqlite_rs.Prelude.Int.{ℤ, pos, negsuc, pos_part, neg_part, ◌+ℤ◌, +ℤ_assoc}
use sqlite_rs.Prelude.Outcome.{Result, ok, err}
use sqlite_rs.Record.Value as V
use sqlite_rs.Record.Value.{Value, IsI64, FitsSigned, fits_signed}
use sqlite_rs.Record.Collation.{Collation, to_ascii_lowercase}
use sqlite_rs.Vdbe.Floats.{Floats}
use sqlite_rs.Vdbe.Aggregate.{
  FunctionError, integer_overflow, sum, saturate, sum_name, initial, initial_of, same_name, first,
  step, step_state, step_sum, state_or_initial, numeric_arg, numeric_of, add_integer, with_sum,
  finalize, finalize_sum, finalize_none,
}
use sqlite_rs.Vdbe.Aggregate.Run.{run_from, run}

-- A column of integers and NULLs.
abbrev pub cell : Option ℤ → Value
cell none = V.null
cell (some i) = V.integer i

abbrev pub IsCell : Option ℤ → Type 0
IsCell none = Unit {0}
IsCell (some i) = IsI64 i

unfoldable pub total : List (Option ℤ) → ℤ
total [] = pos 0
total (none ∷ xs) = total xs
total (some i ∷ xs) = i +ℤ total xs

unfoldable pub any : List (Option ℤ) → Bool
any [] = false
any (none ∷ xs) = any xs
any (some i ∷ xs) = true

-- NULL where there was no integer, the total where it fits, and the error of the overflow else.
unfoldable pub exact_sum : ℤ → Bool → Result FunctionError Value
exact_sum t seen =
    if seen
    then (if fits_signed 63 t then ok (V.integer t) else err integer_overflow)
    else ok V.null

saturate_fits : (t : ℤ) → pos_part t < 2 ^ 127 → neg_part t ≤ 2 ^ 127 → saturate 127 t ≡ t
unfolding saturate
saturate_fits (pos n) p q = ground arith
saturate_fits (negsuc n) p q = ground arith

+ℤ_zero : (t : ℤ) → t +ℤ pos 0 ≡ t
unfolding ◌+ℤ◌
+ℤ_zero t = ground arith

zero_+ℤ : (t : ℤ) → pos 0 +ℤ t ≡ t
unfolding ◌+ℤ◌
zero_+ℤ t = ground arith

or_true : (b : Bool) → (b || true) ≡ true
or_true true = refl
or_true false = refl

pos_add : (t i : ℤ) → IsI64 i → pos_part (t +ℤ i) < pos_part t + 2 ^ 63
unfolding ◌+ℤ◌
pos_add t i p = ground arith

neg_add : (t i : ℤ) → IsI64 i → neg_part (t +ℤ i) ≤ neg_part t + 2 ^ 63
unfolding ◌+ℤ◌
neg_add t i p = ground arith

module _ (f : Floats) (from_utf8_lossy : List ℕ → List ℕ) (name : List ℕ)
    (collation : Collation) where
  -- What the accumulator ends with.
  or_false :
      (seen : Bool) (t : ℤ)
      → finalize f from_utf8_lossy name (some (sum t 0 false seen)) ≡ exact_sum t (seen || false)
  unfolding finalize finalize_sum exact_sum
  or_false true t = refl
  or_false false t = refl

  run_from-sum :
      (xs : List (Option ℤ)) (t : ℤ) (seen : Bool)
      → All IsCell xs
      → pos_part t + length xs * 2 ^ 63 < 2 ^ 127
      → neg_part t + length xs * 2 ^ 63 < 2 ^ 127
      → run_from f from_utf8_lossy name collation (some (sum t 0 false seen)) (map cell xs)
        ≡ exact_sum (t +ℤ total xs) (seen || any xs)
  unfolding run_from step state_or_initial step_state step_sum numeric_arg numeric_of first total
      any add_integer with_sum
  run_from-sum [] t seen good p q = rw (+ℤ_zero t) (or_false seen t)
  run_from-sum (none ∷ xs) t seen (c, good) p q =
      run_from-sum xs t seen good (omega arith) (omega arith)
  run_from-sum (some i ∷ xs) t seen (c, good) p q =
      let fits =
        saturate_fits (t +ℤ i) (omega (arith, pos_add t i c)) (omega (arith, neg_add t i c)) in
      let rest =
        run_from-sum xs (t +ℤ i) true good (omega (arith, pos_add t i c))
          (omega (arith, neg_add t i c)) in
      rw fits (rest ∙ rw (or_true seen) (ap (λ u. exact_sum u true) (+ℤ_assoc t i (total xs))))

  starts : to_ascii_lowercase name ≡ sum_name → initial name ≡ ok (sum (pos 0) 0 false false)
  unfolding initial initial_of same_name
  starts named = rw named refl

  -- sum, its name in any case, over a column of integers that fit an i64 and NULLs, of fewer rows than
  -- 2^63, is exact: NULL without an integer, the total where it fits, and an overflow else.
  pub run-exact_sum :
      (xs : List (Option ℤ))
      → to_ascii_lowercase name ≡ sum_name
      → All IsCell xs
      → length xs < 2 ^ 63
      → run f from_utf8_lossy name collation (map cell xs) ≡ exact_sum (total xs) (any xs)
  unfolding run run_from finalize finalize_none same_name total any exact_sum step state_or_initial
  run-exact_sum [] named good small = rw named refl
  run-exact_sum (x ∷ xs) named good small = rw (starts named) (
      run_from-sum (x ∷ xs) (pos 0) false good (omega arith) (omega arith)
      ∙ ap (λ t. exact_sum t (any (x ∷ xs))) (zero_+ℤ (total (x ∷ xs))))
