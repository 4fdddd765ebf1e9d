-- ===== src/Vdbe/Machine/Dispatch.antt =====
-- `dispatch` of vdbe/exec.rs, for the opcodes that work on registers.
use sqlite_rs.Prelude.{ℕ}
use sqlite_rs.Prelude.Outcome.{ok}
use sqlite_rs.Vdbe.Floats.{Floats}
use sqlite_rs.Vdbe.Machine.{
  next, Opcode, init, goto, once, begin_subrtn, return, halt_op, is_null_op, not_null, if_not,
  offset_limit, if_pos, if_not_zero, decr_jump_zero, add, subtract, multiply, divide, remainder,
  bit_and, bit_or, shift_left_op, shift_right_op, not_op, bit_not, integer, int64, real_op, blob_op,
  null_op, variable, string8, copy, result_row, Instruction, Vm, Handled,
}
use sqlite_rs.Vdbe.Machine.Control.{
  run_once, run_init, run_goto, run_return, run_halt, run_is_null, run_not_null, run_if_not,
  do_offset_limit, do_if_pos, do_if_not_zero, do_decr_jump_zero,
}
use sqlite_rs.Vdbe.Machine.Arithmetic.{
  run_add, run_subtract, run_multiply, run_divide, run_remainder, run_bit_and, run_bit_or,
  run_shift_left, run_shift_right, run_not, run_bit_not,
}
use sqlite_rs.Vdbe.Machine.Load.{
  load_integer, load_int64, load_real, load_blob, load_string, load_variable, copy_register,
  do_null, do_result_row,
}

module _ (f : Floats) where
  unfoldable pub dispatch_op : Opcode → Vm → ℕ → Instruction → Handled
  dispatch_op init vm pc instr = run_init vm instr
  dispatch_op goto vm pc instr = run_goto vm instr
  dispatch_op once vm pc instr = run_once vm pc instr
  dispatch_op begin_subrtn vm pc instr = (ok next, vm)
  dispatch_op return vm pc instr = run_return vm instr
  dispatch_op halt_op vm pc instr = run_halt vm instr
  dispatch_op is_null_op vm pc instr = run_is_null vm instr
  dispatch_op not_null vm pc instr = run_not_null vm instr
  dispatch_op if_not vm pc instr = run_if_not f vm instr
  dispatch_op offset_limit vm pc instr = do_offset_limit vm instr
  dispatch_op if_pos vm pc instr = do_if_pos vm instr
  dispatch_op if_not_zero vm pc instr = do_if_not_zero vm instr
  dispatch_op decr_jump_zero vm pc instr = do_decr_jump_zero vm instr
  dispatch_op add vm pc instr = run_add f vm instr
  dispatch_op subtract vm pc instr = run_subtract f vm instr
  dispatch_op multiply vm pc instr = run_multiply f vm instr
  dispatch_op divide vm pc instr = run_divide f vm instr
  dispatch_op remainder vm pc instr = run_remainder f vm instr
  dispatch_op bit_and vm pc instr = run_bit_and f vm instr
  dispatch_op bit_or vm pc instr = run_bit_or f vm instr
  dispatch_op shift_left_op vm pc instr = run_shift_left f vm instr
  dispatch_op shift_right_op vm pc instr = run_shift_right f vm instr
  dispatch_op not_op vm pc instr = run_not f vm instr
  dispatch_op bit_not vm pc instr = run_bit_not f vm instr
  dispatch_op integer vm pc instr = load_integer vm instr
  dispatch_op int64 vm pc instr = load_int64 vm instr (instr.p4)
  dispatch_op real_op vm pc instr = load_real vm instr (instr.p4)
  dispatch_op blob_op vm pc instr = load_blob vm instr (instr.p4)
  dispatch_op null_op vm pc instr = do_null vm instr
  dispatch_op variable vm pc instr = load_variable vm instr
  dispatch_op string8 vm pc instr = load_string vm instr (instr.p4)
  dispatch_op copy vm pc instr = copy_register vm instr
  dispatch_op result_row vm pc instr = do_result_row vm instr

  unfoldable pub dispatch : Vm → ℕ → Instruction → Handled
  dispatch vm pc instr = dispatch_op (instr.opcode) vm pc instr
