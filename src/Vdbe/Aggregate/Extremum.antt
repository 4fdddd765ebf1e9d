-- ===== src/Vdbe/Aggregate/Extremum.antt =====
-- min and max find an extremum.
use Prim.Native.Nat.{Ordering}
use sqlite_rs.Prelude.{
  ℕ, ◌≡◌, ◌≢◌, refl, sym, ap, ◌∙◌, arith, true, false, Bool-cases, ◌⊎◌, inl, inr, List, [], ◌∷◌,
  none, some,
}
use sqlite_rs.Prelude.Bytes.{All}
use sqlite_rs.Prelude.Outcome.{ok}
use sqlite_rs.Record.Value as V
use sqlite_rs.Record.Value.{Value, IsValue}
use sqlite_rs.Record.Collation.{Collation, to_ascii_lowercase}
use sqlite_rs.Vdbe.Floats.{Floats, IsExact}
use sqlite_rs.Vdbe.Compare.{compare_values, reverse}
use sqlite_rs.Vdbe.Compare.Order.{reverse-compare_values, compare_values_trans}
use sqlite_rs.Vdbe.Logic.{is_null}
use sqlite_rs.Vdbe.Aggregate.{
  max, max_name, is_greater, initial, initial_of, same_name, first_value, step, step_state,
  step_extremum, state_or_initial, or_null, finalize, finalize_none,
}
use sqlite_rs.Vdbe.Aggregate.Run.{run_from, run}

abbrev pub Among : Value → List Value → Type 0
Among r [] = ⊥
Among r (v ∷ vs) = (r ≡ v) ⊎ Among r vs

below_or_equal : (o : Ordering) → is_greater o ≡ false → o ≢ Ordering.gt
unfolding is_greater
below_or_equal o h k = ground arith

above_reversed : (o : Ordering) → is_greater o ≡ true → reverse o ≢ Ordering.gt
unfolding is_greater reverse
above_reversed o h k = ground arith

module _ (f : Floats) (e : IsExact f) (from_utf8_lossy : List ℕ → List ℕ) (name : List ℕ)
    (collation : Collation) where
  -- v does not stand above r, or is NULL.
  abbrev pub NotAbove : Value → Value → Type 0
  NotAbove r v = (is_null v ≡ true) ⊎ (compare_values f v r collation ≢ Ordering.gt)

  -- r is the outcome of the rest, from a current value.
  record IsGreatest (current r : Value) (vs : List Value) : Type 0 where
    valid : IsValue r
    above_current : compare_values f current r collation ≢ Ordering.gt
    above_all : All (NotAbove r) vs
    among : (r ≡ current) ⊎ Among r vs

  compare_self : (a : Value) → IsValue a → compare_values f a a collation ≢ Ordering.gt
  unfolding reverse
  compare_self a p h =
      let back : Ordering.lt ≡ Ordering.gt =
        ap reverse (sym h) ∙ reverse-compare_values f e collation a a p p ∙ h in
      ground arith

  -- A value that is taken, or passed over.
  takes :
      (c v r : Value) (vs : List Value)
      → IsValue c
      → IsValue v
      → is_greater (compare_values f v c collation) ≡ true
      → IsGreatest v r vs
      → IsGreatest c r (v ∷ vs)
  takes c v r vs p q g best =
      let below : compare_values f c v collation ≢ Ordering.gt =
        rw (← reverse-compare_values f e collation v c q p)
          (above_reversed (compare_values f v c collation) g) in
      record {
        valid = best.valid;
        above_current =
            compare_values_trans f e collation c v r p q (best.valid) below (best.above_current);
        above_all = (inr (best.above_current), best.above_all);
        among = inr (best.among);
      }

  passes :
      (c v r : Value) (vs : List Value)
      → IsValue c
      → IsValue v
      → (is_null v ≡ true) ⊎ (compare_values f v c collation ≢ Ordering.gt)
      → IsGreatest c r vs
      → IsGreatest c r (v ∷ vs)
  passes c v r vs p q g best = record {
    valid = best.valid;
    above_current = best.above_current;
    above_all = (not_above g, best.above_all);
    among = later (best.among);
  }
    where
      not_above : (is_null v ≡ true) ⊎ (compare_values f v c collation ≢ Ordering.gt) → NotAbove r v
      not_above (inl n) = inl n
      not_above (inr h) =
          inr (compare_values_trans f e collation v c r q p (best.valid) h (best.above_current))

      later : (r ≡ c) ⊎ Among r vs → (r ≡ c) ⊎ Among r (v ∷ vs)
      later (inl same) = inl same
      later (inr there) = inr (inr there)

  run_from-max :
      (c : Value) (vs : List Value)
      → IsValue c
      → All IsValue vs
      → (r : Value) × (run_from f from_utf8_lossy name collation (some (max (some c))) vs ≡ ok r)
        × IsGreatest c r vs
  unfolding run_from step state_or_initial step_state step_extremum first_value or_null finalize
  run_from-max c [] p good =
      let here : IsGreatest c c [] = record {
        valid = p;
        above_current = compare_self c p;
        above_all = tt;
        among = inl refl;
      } in
      (c, refl, here)
  run_from-max c (v ∷ vs) p (q, good) = elim (Bool-cases (is_null v)) [
    | inl n ↦
        let (r, done, best) = run_from-max c vs p good in
        (r, rw n done, passes c v r vs p q (inl n) best)
    | inr n ↦ elim (Bool-cases (is_greater (compare_values f v c collation))) [
      | inl g ↦
          let (r, done, best) = run_from-max v vs q good in
          (r, rw (n, g) done, takes c v r vs p q g best)
      | inr g ↦
          let (r, done, best) = run_from-max c vs p good in
          (
            r,
            rw (n, g) done,
            passes c v r vs p q (inr (below_or_equal (compare_values f v c collation) g)) best,
          )
    ]
  ]

  -- Before the first value that is not NULL.
  run_from-max_none :
      (vs : List Value)
      → All IsValue vs
      → (r : Value) × (run_from f from_utf8_lossy name collation (some (max none)) vs ≡ ok r)
        × ((r ≡ V.null) ⊎ Among r vs)
        × All (NotAbove r) vs
  unfolding run_from step state_or_initial step_state step_extremum first_value or_null finalize
  run_from-max_none [] good = (V.null, refl, inl refl, tt)
  run_from-max_none (v ∷ vs) (q, good) = elim (Bool-cases (is_null v)) [
    | inl n ↦
        let (r, done, place, above) = run_from-max_none vs good in
        (r, rw n done, later r place, (inl n, above))
    | inr n ↦
        let (r, done, best) = run_from-max v vs q good in
        (r, rw n done, inr (best.among), (inr (best.above_current), best.above_all))
  ]
    where
      later : (r : Value) → (r ≡ V.null) ⊎ Among r vs → (r ≡ V.null) ⊎ Among r (v ∷ vs)
      later r (inl empty) = inl empty
      later r (inr there) = inr (inr there)

  starts : to_ascii_lowercase name ≡ max_name → initial name ≡ ok (max none)
  unfolding initial initial_of same_name
  starts named = rw named refl

  -- max, its name in any case, of a column gives NULL or one of its values, and no value of the column
  -- that is not NULL stands above that, on doubles that keep the laws of IsExact.
  pub run-max :
      (vs : List Value)
      → to_ascii_lowercase name ≡ max_name
      → All IsValue vs
      → (r : Value) × (run f from_utf8_lossy name collation vs ≡ ok r)
        × ((r ≡ V.null) ⊎ Among r vs)
        × All (NotAbove r) vs
  unfolding run run_from step state_or_initial finalize finalize_none same_name
  run-max [] named good = (V.null, rw named refl, inl refl, tt)
  run-max (v ∷ vs) named good =
      let (r, done, place, above) = run_from-max_none (v ∷ vs) good in
      (r, rw (starts named) done, place, above)
