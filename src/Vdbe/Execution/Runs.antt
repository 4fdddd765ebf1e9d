-- ===== src/Vdbe/Execution/Runs.antt =====
-- Concrete runs of the opcodes and of whole programs.
use sqlite_rs.Prelude.{suc, ◌+◌, ◌≡◌, refl, arith, true, false, [], ◌∷◌, some}
use sqlite_rs.Prelude.Int.{ℤ, pos, negsuc}
use sqlite_rs.Prelude.Outcome.{ok, err}
use sqlite_rs.Record.Value as V
use sqlite_rs.Record.Value.{Value}
use sqlite_rs.Vdbe.Floats.Toy.{toy}
use sqlite_rs.Vdbe.Coerce.{is_zero_int, shift, shift_by}
use sqlite_rs.Vdbe.Machine.{
  malformed_instruction, other, decr_jump_zero, int64, Opcode, Instruction, Vm, index, grown,
  register, set_register,
}
use sqlite_rs.Vdbe.Machine.Load.{load_int64}
use sqlite_rs.Vdbe.Machine.Dispatch.{dispatch_op}
use sqlite_rs.Vdbe.Machine.Dispatch.{dispatch}
use sqlite_rs.Vdbe.Machine.Limit.{rounds, rounds-limit}
use sqlite_rs.Vdbe.Execution.{Execution, start, max_steps, round, row_loop, next_row, handle}
use sqlite_rs.Vdbe.Execution.Steps.{row_loop-max_steps}

-- SQLite gives 0 for -5 << 64.
left_shift_keeps_sign : shift (negsuc 4) (pos 64) true ≡ negsuc 0
unfolding shift shift_by
left_shift_keeps_sign = refl

not_zero : is_zero_int (negsuc 2) ≡ false
unfolding is_zero_int
not_zero = refl

abbrev seven : Value
seven = V.integer (pos 7)

abbrev one_register : Vm
one_register = record { registers = seven ∷ []; once_fired = []; params = []; rows = [] }

abbrev grown_registers : Vm
grown_registers = record {
  registers = seven ∷ V.null ∷ V.null ∷ seven ∷ [];
  once_fired = [];
  params = [];
  rows = [];
}

grows : set_register one_register (pos 3) seven ≡ ok grown_registers
unfolding set_register index grown
grows = refl

abbrev instruction : Opcode → ℤ → ℤ → Instruction
instruction op a b = record { opcode = op; p1 = a; p2 = b; p3 = pos 0; p4 = other }

holds_seven : register one_register (pos 0) ≡ ok seven
unfolding register index
holds_seven = refl

rounds-limit_example :
    rounds 9 one_register (instruction decr_jump_zero (pos 0) (pos 5)) ≡ some (suc 6)
rounds-limit_example =
    rounds-limit 6 9 one_register (instruction decr_jump_zero (pos 0) (pos 5)) holds_seven
      (omega arith) (omega arith)

abbrev bad_program : Execution
bad_program = start one_register (instruction int64 (pos 0) (pos 0) ∷ [])

row_loop-max_steps_example :
    row_loop toy (3 + (max_steps + 1)) bad_program ≡ row_loop toy (max_steps + 1) bad_program
row_loop-max_steps_example = row_loop-max_steps toy 3 bad_program

-- After an error of an opcode the program is not done: polled again, it gives the error again.
error_repeats : (next_row toy ((next_row toy bad_program).1)).0 ≡ err malformed_instruction
unfolding next_row start row_loop round handle dispatch dispatch_op load_int64
error_repeats = refl
