-- ===== src/Vdbe/Execution/Steps.antt =====
-- The step limit bounds the loop, and a run that has ended stays so.
use sqlite_rs.Prelude.{
  ℕ, zero, suc, ◌+◌, ◌≤◌, ◌<◌, ltb, ltb_false→le, Bool-cases, inl, inr, List, [], ◌∷◌, get_elem?,
  Option, none, some, ◌≡◌, refl, ap, ◌∙◌, arith,
}
use sqlite_rs.Prelude.Bytes.{saturating_add}
use sqlite_rs.Prelude.Outcome.{ok, err}
use sqlite_rs.Record.Value.{Value}
use sqlite_rs.Vdbe.Floats.{Floats}
use sqlite_rs.Vdbe.Coerce.{is_zero_int}
use sqlite_rs.Vdbe.Machine.{
  program_counter_out_of_range, Step, next, jump, halt, Instruction, Handled,
}
use sqlite_rs.Vdbe.Machine.Dispatch.{dispatch}
use sqlite_rs.Vdbe.Execution.{
  Execution, max_steps, count_step, Polled, finished, drain_rows, Round, over, again, pop_or_again,
  after_step, take_step, handle, round, row_loop,
}

-- A round that goes on leaves a state with a property.
abbrev Going : (Execution → Type 0) → Round → Type 0
Going P (over r) = Unit {0}
Going P (again e) = P e

-- The count is one that the round was given.
abbrev Counted : ℕ → Round → Type 0
Counted n r = Going (λ e. e.steps ≡ n) r

pop_or_again-Counted :
    (e : Execution) (rows : List (List Value)) → Counted (e.steps) (pop_or_again e rows)
unfolding pop_or_again
pop_or_again-Counted e [] = refl
pop_or_again-Counted e (row ∷ rows) = tt

after_step-Counted : (e : Execution) → Counted (e.steps) (after_step e)
unfolding after_step drain_rows
after_step-Counted e = go (e.vm.rows)
  where
    go :
        (rows : List (List Value))
        → Counted (e.steps) (elim rows [
          | [] ↦ again e
          | row ∷ rest ↦ pop_or_again (drain_rows e) ((drain_rows e).pending)
        ])
    go [] = refl
    go (row ∷ rest) = pop_or_again-Counted (drain_rows e) ((drain_rows e).pending)

take_step-Counted : (e : Execution) (s : Step) → Counted (e.steps) (take_step e s)
unfolding take_step
take_step-Counted e next = after_step-Counted (record e { pc = saturating_add (e.pc) 1 })
take_step-Counted e (jump target) = after_step-Counted (record e { pc = target })
take_step-Counted e (halt code message) = elim (Bool-cases (is_zero_int code)) [
  | inl z ↦ rw z tt
  | inr z ↦ rw z tt
]

handle-Counted : (e : Execution) (h : Handled) → Counted (e.steps) (handle e h)
unfolding handle
handle-Counted e (ok step, vm) = take_step-Counted (record e { vm = vm }) step
handle-Counted e (err error, vm) = tt

-- A state within the limit, one step on.
abbrev OneOn : ℕ → Execution → Type 0
OneOn n e = (e.steps ≡ count_step n) × (e.steps ≤ max_steps)

within_limit :
    (n : ℕ) (r : Round) → count_step n ≤ max_steps → Counted (count_step n) r → Going (OneOn n) r
within_limit n (over r) h counted = tt
within_limit n (again e) h counted = (counted, omega (arith, counted, h))

module _ (f : Floats) where
  -- A round that goes on has counted one step, within the limit.
  round-OneOn : (e : Execution) → Going (OneOn (e.steps)) (round f e)
  unfolding round
  round-OneOn e = elim (Bool-cases (ltb max_steps (count_step (e.steps)))) [
    | inl far ↦ rw far tt
    | inr near ↦
        rw near
          (go (get_elem? (e.program) (e.pc)) (ltb_false→le max_steps (count_step (e.steps)) near))
  ]
    where
      go :
          (o : Option Instruction)
          → count_step (e.steps) ≤ max_steps
          → Going (OneOn (e.steps)) (elim o [
            | none ↦ over (
              err (program_counter_out_of_range (e.pc)),
              finished (record e { steps = count_step (e.steps) }),
            )
            | some instr ↦
                handle (record e { steps = count_step (e.steps) }) (dispatch f (e.vm) (e.pc) instr)
          ])
      go none h = tt
      go (some instr) h =
          let e' = record e { steps = count_step (e.steps) } in
          let handled = dispatch f (e.vm) (e.pc) instr in
          within_limit (e.steps) (handle e' handled) h (handle-Counted e' handled)

  one_round :
      (n : ℕ) (e : Execution) (r : Round)
      → ((e' : Execution)
          → max_steps < n + e'.steps
          → 0 < n
          → row_loop f (suc n) e' ≡ row_loop f n e')
      → max_steps < suc n + e.steps
      → Going (OneOn (e.steps)) r
      → ◌≡◌ {A = Polled}
          (elim r [ over r ↦ r | again e' ↦ row_loop f (suc n) e' ])
          (elim r [ over r ↦ r | again e' ↦ row_loop f n e' ])
  one_round n e (over r) rest h going = refl
  one_round n e (again e') rest h (counted, within) = rest e' (ground arith) (ground arith)

  row_loop-suc :
      (fuel : ℕ) (e : Execution)
      → max_steps < fuel + e.steps
      → 0 < fuel
      → row_loop f (suc fuel) e ≡ row_loop f fuel e
  unfolding row_loop
  row_loop-suc zero e h p = absurd (omega arith)
  row_loop-suc (suc n) e h p = one_round n e (round f e) (row_loop-suc n) h (round-OneOn e)

  -- The loop of next_row ends within as many rounds as the step limit allows and one more: on any fuel
  -- above the limit it gives the same result and leaves the same state.
  pub row_loop-max_steps :
      (more : ℕ) (e : Execution)
      → row_loop f (more + (max_steps + 1)) e ≡ row_loop f (max_steps + 1) e
  row_loop-max_steps zero e = refl
  row_loop-max_steps (suc more) e =
      let next_fuel : suc more + (max_steps + 1) ≡ suc (more + (max_steps + 1)) = omega arith in
      ap (λ k. row_loop f k e) next_fuel
      ∙ row_loop-suc (more + (max_steps + 1)) e (omega arith) (omega arith)
      ∙ row_loop-max_steps more e
