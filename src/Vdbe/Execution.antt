-- ===== src/Vdbe/Execution.antt =====
-- `Execution` of vdbe/exec.rs: a program runs until its next row, on a machine without a database, so
-- that a halt commits nothing.
pub mod Steps
mod Runs
use sqlite_rs.Prelude.{
  ℕ, zero, suc, ◌+◌, ◌-◌, ◌==◌, ◌≤◌, ltb, Bool, true, false, if◌then◌else◌, List, [], ◌∷◌, ◌++◌,
  get_elem?, Option, none, some, ◌≡◌, refl,
}
use sqlite_rs.Prelude.Bytes.{saturating_add}
use sqlite_rs.Prelude.Int.{ℤ}
use sqlite_rs.Prelude.Outcome.{Result, ok, err}
use sqlite_rs.Record.Value.{Value}
use sqlite_rs.Vdbe.Floats.{Floats}
use sqlite_rs.Vdbe.Coerce.{is_zero_int}
use sqlite_rs.Vdbe.Machine.{
  ExecError, step_limit_exceeded, program_counter_out_of_range, halted, Step, next, jump, halt,
  Instruction, Vm, Handled,
}
use sqlite_rs.Vdbe.Machine.Dispatch.{dispatch}

pub record Execution : Type 0 where
  pub vm : Vm
  pub program : List Instruction
  pub pc : ℕ
  pub steps : ℕ
  pub done : Bool
  pub pending : List (List Value)

abbrev pub max_steps : ℕ
max_steps = 50_000_000

-- `saturating_add(1)` of a u32
abbrev pub count_step : ℕ → ℕ
count_step n = if n == 4_294_967_295 then n else n + 1

abbrev pub Polled : Type 0
Polled = Result ExecError (Option (List Value)) × Execution

unfoldable pub start : Vm → List Instruction → Execution
start vm program = record {
  vm = vm;
  program = program;
  pc = 0;
  steps = 0;
  done = false;
  pending = [];
}

unfoldable pub finished : Execution → Execution
finished e = record e { done = true }

-- `pending.extend(rows.drain(..))`
unfoldable pub drain_rows : Execution → Execution
drain_rows e = record e { pending = e.pending ++ e.vm.rows; vm = record (e.vm) { rows = [] } }

-- Either the run is over for this call, or the loop goes round with the state.
pub data Round : Type 0 where
  over : Polled → Round
  again : Execution → Round

-- `pending.pop_front()`, or the next round.
unfoldable pub pop_or_again : Execution → List (List Value) → Round
pop_or_again e [] = again e
pop_or_again e (row ∷ rows) = over (ok (some row), record e { pending = rows })

unfoldable pub after_step : Execution → Round
after_step e = elim (e.vm.rows) [
  | [] ↦ again e
  | row ∷ rows ↦ pop_or_again (drain_rows e) ((drain_rows e).pending)
]

unfoldable pub take_step : Execution → Step → Round
take_step e next = after_step (record e { pc = saturating_add (e.pc) 1 })
take_step e (jump target) = after_step (record e { pc = target })
take_step e (halt code message) =
    if is_zero_int code
    then over (ok none, finished e)
    else over (err (halted code message), finished e)

-- The `?` on the result of a dispatch leaves the loop with the state as it is.
unfoldable pub handle : Execution → Handled → Round
handle e (ok step, vm) = take_step (record e { vm = vm }) step
handle e (err error, vm) = over (err error, record e { vm = vm })

module _ (f : Floats) where
  unfoldable pub round : Execution → Round
  round e =
      let e' = record e { steps = count_step (e.steps) } in
      if ltb max_steps (e'.steps)
      then over (err step_limit_exceeded, finished e')
      else elim (get_elem? (e'.program) (e'.pc)) [
        | none ↦ over (err (program_counter_out_of_range (e'.pc)), finished e')
        | some instr ↦ handle e' (dispatch f (e'.vm) (e'.pc) instr)
      ]

  -- The loop, on fuel; without fuel it gives what the step limit gives.
  unfoldable pub row_loop : ℕ → Execution → Polled
  row_loop zero e = (err step_limit_exceeded, finished e)
  row_loop (suc fuel) e = elim (round e) [ over r ↦ r | again e' ↦ row_loop fuel e' ]

  -- The step limit bounds the rounds.
  unfoldable pub next_row : Execution → Polled
  next_row e = elim (e.pending) [
    | row ∷ rows ↦ (ok (some row), record e { pending = rows })
    | [] ↦ if e.done then (ok none, e) else row_loop (max_steps + 1) e
  ]
