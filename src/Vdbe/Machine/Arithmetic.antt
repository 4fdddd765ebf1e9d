-- ===== src/Vdbe/Machine/Arithmetic.antt =====
-- vdbe/arithmetic.rs: the opcodes that compute. Concat is left out with the printing of numbers.
use sqlite_rs.Prelude.{◌||◌, if◌then◌else◌}
use sqlite_rs.Prelude.Int.{pos}
use sqlite_rs.Record.Value as V
use sqlite_rs.Record.Value.{Value}
use sqlite_rs.Vdbe.Floats.{Floats}
use sqlite_rs.Vdbe.Logic.{is_null}
use sqlite_rs.Vdbe.Coerce.{
  checked_add, checked_sub, checked_mul, checked_div, checked_rem, and_bits, or_bits, not_bits,
  shift_left, shift_right,
}
use sqlite_rs.Vdbe.Machine.{next, Instruction, Vm, Handled, with_register, write_register}
use sqlite_rs.Vdbe.Machine.Control.{is_falsy}

module _ (f : Floats) where
  unfoldable pub null_or : Value → Value → (Value → Value → Value) → Value
  null_or a b op = if is_null a || is_null b then V.null else op a b

  -- `binary_op`, and the opcodes that exchange their operands.
  unfoldable pub binary_op : Vm → Instruction → (Value → Value → Value) → Handled
  binary_op vm instr op =
      with_register vm (instr.p1)
        (λ a. with_register vm (instr.p2) (λ b. write_register vm (instr.p3) (null_or a b op) next))

  unfoldable pub falsy_bit : Value → Value
  falsy_bit v = if is_null v then V.null else V.integer (pos (if is_falsy f v then 1 else 0))

  unfoldable pub unless_null : Value → (Value → Value) → Value
  unless_null v op = if is_null v then V.null else op v

  unfoldable pub run_add : Vm → Instruction → Handled
  run_add vm instr = binary_op vm instr (checked_add f)

  unfoldable pub run_subtract : Vm → Instruction → Handled
  run_subtract vm instr = binary_op vm instr (λ a b. checked_sub f b a)

  unfoldable pub run_multiply : Vm → Instruction → Handled
  run_multiply vm instr = binary_op vm instr (checked_mul f)

  unfoldable pub run_divide : Vm → Instruction → Handled
  run_divide vm instr = binary_op vm instr (λ a b. checked_div f b a)

  unfoldable pub run_remainder : Vm → Instruction → Handled
  run_remainder vm instr = binary_op vm instr (λ a b. checked_rem f b a)

  unfoldable pub run_bit_and : Vm → Instruction → Handled
  run_bit_and vm instr = binary_op vm instr (and_bits f)

  unfoldable pub run_bit_or : Vm → Instruction → Handled
  run_bit_or vm instr = binary_op vm instr (or_bits f)

  unfoldable pub run_shift_left : Vm → Instruction → Handled
  run_shift_left vm instr = binary_op vm instr (λ a b. shift_left f b a)

  unfoldable pub run_shift_right : Vm → Instruction → Handled
  run_shift_right vm instr = binary_op vm instr (λ a b. shift_right f b a)

  unfoldable pub run_not : Vm → Instruction → Handled
  run_not vm instr =
      with_register vm (instr.p1) (λ v. write_register vm (instr.p2) (falsy_bit v) next)

  unfoldable pub run_bit_not : Vm → Instruction → Handled
  run_bit_not vm instr =
      with_register vm (instr.p1)
        (λ v. write_register vm (instr.p2) (unless_null v (not_bits f)) next)
