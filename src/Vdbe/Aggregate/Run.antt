-- ===== src/Vdbe/Aggregate/Run.antt =====
-- A whole aggregation: AggStep for every row of one argument, then AggFinal.
use sqlite_rs.Prelude.{ℕ, List, [], ◌∷◌, Option, none, some}
use sqlite_rs.Prelude.Outcome.{Result, ◌>>=◌}
use sqlite_rs.Record.Value.{Value}
use sqlite_rs.Record.Collation.{Collation}
use sqlite_rs.Vdbe.Floats.{Floats}
use sqlite_rs.Vdbe.Aggregate.{FunctionError, AggState, step, finalize}

module _ (f : Floats) (from_utf8_lossy : List ℕ → List ℕ) (name : List ℕ)
    (collation : Collation) where
  unfoldable pub run_from : Option AggState → List Value → Result FunctionError Value
  run_from state [] = finalize f from_utf8_lossy name state
  run_from state (v ∷ vs) = do
    s ← step f from_utf8_lossy name state (v ∷ []) collation
    run_from (some s) vs

  unfoldable pub run : List Value → Result FunctionError Value
  run vs = run_from none vs
