-- ===== src/Vdbe/Aggregate.antt =====
-- vdbe/aggregate.rs: the accumulators of count, sum, avg, min and max.
pub mod Run
pub mod Sum
pub mod Extremum
mod Runs
use Prim.Native.Nat.{Ordering}
use sqlite_rs.Prelude.{
  ℕ, ◌+◌, ◌-◌, ◌^◌, ◌==◌, Bool, true, false, ◌&&◌, if◌then◌else◌, List, [], ◌∷◌, Option, none, some,
}
use sqlite_rs.Prelude.Int.{ℤ, pos, negsuc, ◌+ℤ◌}
use sqlite_rs.Prelude.Outcome.{Result, ok, err, ◌>>=◌}
use sqlite_rs.Record.Value as V
use sqlite_rs.Record.Value.{Value, fits_signed}
use sqlite_rs.Record.Collation.{Collation, to_ascii_lowercase}
use sqlite_rs.Vdbe.Floats.{Floats}
use sqlite_rs.Vdbe.Compare.{compare_values}
use sqlite_rs.Vdbe.Coerce.{coerce_text_to_numeric}
use sqlite_rs.Vdbe.Logic.{is_null, is_equal, is_less}

pub data FunctionError : Type 0 where
  unknown : List ℕ → ℕ → FunctionError
  wrong_arity : List ℕ → FunctionError
  integer_overflow : FunctionError

pub data AggState : Type 0 where
  count : ℤ → AggState
  -- int_total, real_total, saw_real, saw_any
  sum : ℤ → ℕ → Bool → Bool → AggState
  -- int_total, real_total, saw_real, count
  avg : ℤ → ℕ → Bool → ℤ → AggState
  min : Option Value → AggState
  max : Option Value → AggState

-- `saturating_add` of integers of w + 1 bits
unfoldable pub saturate : ℕ → ℤ → ℤ
saturate w (pos n) = if fits_signed w (pos n) then pos n else pos (2 ^ w - 1)
saturate w (negsuc n) = if fits_signed w (negsuc n) then negsuc n else negsuc (2 ^ w - 1)

unfoldable pub same_name : List ℕ → List ℕ → Bool
same_name [] [] = true
same_name [] (y ∷ ys) = false
same_name (x ∷ xs) [] = false
same_name (x ∷ xs) (y ∷ ys) = (x == y) && same_name xs ys

-- The names, in ASCII: count, sum, avg, min, max.
abbrev pub count_name : List ℕ
count_name = 99 ∷ 111 ∷ 117 ∷ 110 ∷ 116 ∷ []

abbrev pub sum_name : List ℕ
sum_name = 115 ∷ 117 ∷ 109 ∷ []

abbrev pub avg_name : List ℕ
avg_name = 97 ∷ 118 ∷ 103 ∷ []

abbrev pub min_name : List ℕ
min_name = 109 ∷ 105 ∷ 110 ∷ []

abbrev pub max_name : List ℕ
max_name = 109 ∷ 97 ∷ 120 ∷ []

-- The match on the name in lower case.
unfoldable pub initial_of : List ℕ → Result FunctionError AggState
initial_of name =
    if same_name name count_name
    then ok (count (pos 0))
    else if same_name name sum_name
    then ok (sum (pos 0) 0 false false)
    else if same_name name avg_name
    then ok (avg (pos 0) 0 false (pos 0))
    else if same_name name min_name
    then ok (min none)
    else if same_name name max_name
    then ok (max none)
    else err (unknown name 1)

unfoldable pub initial : List ℕ → Result FunctionError AggState
initial name = initial_of (to_ascii_lowercase name)

-- `args.first()`
unfoldable pub first : List Value → Option Value
first [] = none
first (v ∷ vs) = some v

-- `args.first().filter(|v| !matches!(v, Value::Null))`
unfoldable pub first_value : List Value → Option Value
first_value [] = none
first_value (v ∷ vs) = if is_null v then none else some v

-- `args.first().is_none_or(|v| !matches!(v, Value::Null))`
unfoldable pub counts : List Value → Bool
counts [] = true
counts (v ∷ vs) = if is_null v then false else true

unfoldable pub is_greater : Ordering → Bool
is_greater Ordering.lt = false
is_greater Ordering.eq = false
is_greater Ordering.gt = true

unfoldable pub or_null : Option Value → Value
or_null none = V.null
or_null (some v) = v

-- `String::from_utf8_lossy`, as far as the scan for a number sees it.
module _ (f : Floats) (from_utf8_lossy : List ℕ → List ℕ) where
  unfoldable pub numeric_of : Value → Option Value
  numeric_of V.null = none
  numeric_of (V.integer i) = some (V.integer i)
  numeric_of (V.real r) = some (V.real r)
  numeric_of (V.text s) = some (coerce_text_to_numeric f s)
  numeric_of (V.blob b) = some (coerce_text_to_numeric f (from_utf8_lossy b))

  unfoldable pub numeric_arg : Option Value → Option Value
  numeric_arg none = none
  numeric_arg (some v) = numeric_of v

  -- The total of integers and that of reals, with what was seen: an integer, then a real, is added.
  unfoldable pub add_integer : ℤ → ℕ → Bool → ℤ → ℤ × (ℕ × Bool)
  add_integer int_total real_total saw_real i =
      if saw_real
      then (int_total, (f.add real_total (f.of_int i), saw_real))
      else (saturate 127 (int_total +ℤ i), (real_total, saw_real))

  unfoldable pub add_real : ℤ → ℕ → Bool → ℕ → ℤ × (ℕ × Bool)
  add_real int_total real_total saw_real r =
      if saw_real
      then (int_total, (f.add real_total r, saw_real))
      else (pos 0, (f.add (f.add real_total (f.of_int int_total)) r, true))

  unfoldable pub with_sum : ℤ × (ℕ × Bool) → AggState
  with_sum (int_total, (real_total, saw_real)) = sum int_total real_total saw_real true

  unfoldable pub with_avg : ℤ × (ℕ × Bool) → ℤ → AggState
  with_avg (int_total, (real_total, saw_real)) n =
      avg int_total real_total saw_real (saturate 63 (n +ℤ pos 1))

  unfoldable pub step_sum : ℤ → ℕ → Bool → Bool → Option Value → AggState
  step_sum it rt saw_real saw_any (some (V.integer i)) = with_sum (add_integer it rt saw_real i)
  step_sum it rt saw_real saw_any (some (V.real r)) = with_sum (add_real it rt saw_real r)
  step_sum it rt saw_real saw_any _ = sum it rt saw_real saw_any

  unfoldable pub step_avg : ℤ → ℕ → Bool → ℤ → Option Value → AggState
  step_avg it rt saw_real n (some (V.integer i)) = with_avg (add_integer it rt saw_real i) n
  step_avg it rt saw_real n (some (V.real r)) = with_avg (add_real it rt saw_real r) n
  step_avg it rt saw_real n _ = avg it rt saw_real n

  -- The extremum: the value where there is none yet, or where the test on the comparison holds.
  unfoldable pub step_extremum :
      (Ordering → Bool) → Option Value → Option Value → Collation → Option Value
  step_extremum test current none collation = current
  step_extremum test none (some v) collation = some v
  step_extremum test (some c) (some v) collation =
      if test (compare_values f v c collation) then some v else some c

  unfoldable pub step_state : AggState → List Value → Collation → AggState
  step_state (count n) args collation =
      if counts args then count (saturate 63 (n +ℤ pos 1)) else count n
  step_state (sum it rt saw_real saw_any) args collation =
      step_sum it rt saw_real saw_any (numeric_arg (first args))
  step_state (avg it rt saw_real n) args collation =
      step_avg it rt saw_real n (numeric_arg (first args))
  step_state (min current) args collation =
      min (step_extremum is_less current (first_value args) collation)
  step_state (max current) args collation =
      max (step_extremum is_greater current (first_value args) collation)

  -- `match state { Some(s) => s, None => AggState::initial(name)? }`
  unfoldable pub state_or_initial : List ℕ → Option AggState → Result FunctionError AggState
  state_or_initial name none = initial name
  state_or_initial name (some s) = ok s

  unfoldable pub step :
      List ℕ → Option AggState → List Value → Collation → Result FunctionError AggState
  step name state args collation = do
    s ← state_or_initial name state
    ok (step_state s args collation)

  unfoldable pub finalize_none : List ℕ → Result FunctionError Value
  finalize_none name =
      if same_name name count_name
      then ok (V.integer (pos 0))
      else if same_name name sum_name
      then ok V.null
      else if same_name name avg_name
      then ok V.null
      else if same_name name min_name
      then ok V.null
      else if same_name name max_name
      then ok V.null
      else err (unknown name 1)

  unfoldable pub finalize_sum : ℤ → ℕ → Bool → Result FunctionError Value
  finalize_sum int_total real_total saw_real =
      if saw_real
      then ok (V.real (f.add real_total (f.of_int int_total)))
      else if fits_signed 63 int_total
      then ok (V.integer int_total)
      else err integer_overflow

  unfoldable pub is_zero_count : ℤ → Bool
  is_zero_count (pos n) = n == 0
  is_zero_count (negsuc n) = false

  unfoldable pub finalize_avg : ℤ → ℕ → Bool → ℤ → Value
  finalize_avg int_total real_total saw_real n =
      let total = if saw_real then f.add real_total (f.of_int int_total) else f.of_int int_total in
      if is_zero_count n then V.null else V.real (f.div total (f.of_int n))

  unfoldable pub finalize : List ℕ → Option AggState → Result FunctionError Value
  finalize name none = finalize_none (to_ascii_lowercase name)
  finalize name (some (count n)) = ok (V.integer n)
  finalize name (some (sum it rt saw_real saw_any)) =
      if saw_any then finalize_sum it rt saw_real else ok V.null
  finalize name (some (avg it rt saw_real n)) = ok (finalize_avg it rt saw_real n)
  finalize name (some (min v)) = ok (or_null v)
  finalize name (some (max v)) = ok (or_null v)
