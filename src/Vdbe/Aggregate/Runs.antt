-- ===== src/Vdbe/Aggregate/Runs.antt =====
-- Concrete aggregations.
use sqlite_rs.Prelude.{ℕ, ◌-◌, ◌^◌, ◌≡◌, refl, arith, List, [], ◌∷◌, Option, none, some, map, ◌⊎◌}
use sqlite_rs.Prelude.Bytes.{All}
use sqlite_rs.Prelude.Int.{ℤ, pos, ◌+ℤ◌}
use sqlite_rs.Prelude.Outcome.{ok, err}
use sqlite_rs.Record.Value as V
use sqlite_rs.Record.Value.{Value}
use sqlite_rs.Record.Collation.{binary, to_ascii_lowercase, ascii_lowercase}
use sqlite_rs.Vdbe.Floats.Toy.{toy, toy_exact_floats}
use sqlite_rs.Vdbe.Aggregate.{integer_overflow, max_name}
use sqlite_rs.Vdbe.Aggregate.Run.{run}
use sqlite_rs.Vdbe.Aggregate.Sum.{cell, exact_sum, total, any, run-exact_sum}
use sqlite_rs.Vdbe.Aggregate.Extremum.{Among, NotAbove, run-max}

abbrev lossy : List ℕ → List ℕ
lossy b = b

abbrev upper_sum : List ℕ
upper_sum = 83 ∷ 85 ∷ 77 ∷ []

lower_sum : to_ascii_lowercase upper_sum ≡ 115 ∷ 117 ∷ 109 ∷ []
unfolding to_ascii_lowercase ascii_lowercase
lower_sum = refl

lower_max : to_ascii_lowercase max_name ≡ max_name
unfolding to_ascii_lowercase ascii_lowercase
lower_max = refl

abbrev column : List (Option ℤ)
column = some (pos (2 ^ 63 - 1)) ∷ none ∷ some (pos 1) ∷ []

sum_overflows : exact_sum (total column) (any column) ≡ err integer_overflow
unfolding exact_sum total any ◌+ℤ◌
sum_overflows = refl

run-exact_sum_example :
    run toy lossy upper_sum binary (map cell column) ≡ exact_sum (total column) (any column)
run-exact_sum_example =
    run-exact_sum toy lossy upper_sum binary column lower_sum (omega arith, (tt, (omega arith, tt)))
      (omega arith)

abbrev values : List Value
values = V.integer (pos 7) ∷ V.null ∷ V.text (97 ∷ []) ∷ []

run-max_example :
    (r : Value) × (run toy lossy max_name binary values ≡ ok r)
    × ((r ≡ V.null) ⊎ Among r values)
    × All (NotAbove toy toy_exact_floats lossy max_name binary r) values
run-max_example =
    run-max toy toy_exact_floats lossy max_name binary values lower_max
      (omega arith, (tt, ((omega arith, tt), tt)))
