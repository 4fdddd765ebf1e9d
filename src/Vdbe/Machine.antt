-- ===== src/Vdbe/Machine.antt =====
-- The registers of vdbe/exec.rs, and the opcodes of arithmetic.rs, control.rs and result.rs that work
-- on them. A handler gives its step, or an error, and the machine as it left it.
pub mod Registers
pub mod Control
pub mod Limit
pub mod Arithmetic
pub mod Load
pub mod Dispatch
use sqlite_rs.Prelude.{
  ℕ, ◌+◌, ◌-◌, ltb, Bool, if◌then◌else◌, List, ◌++◌, length, get_or, set, replicate, Option,
}
use sqlite_rs.Prelude.Int.{ℤ, pos, negsuc}
use sqlite_rs.Prelude.Outcome.{Result, ok, err, ◌>>=◌}
use sqlite_rs.Record.Value as V
use sqlite_rs.Record.Value.{Value}
use sqlite_rs.Vdbe.Coerce.{is_zero_int}

-- Without the names of the opcodes, which the messages show.
pub data ExecError : Type 0 where
  register_out_of_range : ℤ → ExecError
  register_range_too_large : ℤ → ExecError
  type_mismatch : Value → ExecError
  malformed_instruction : ExecError
  step_limit_exceeded : ExecError
  program_counter_out_of_range : ℕ → ExecError
  halted : ℤ → Option (List ℕ) → ExecError

pub data Step : Type 0 where
  next : Step
  jump : ℕ → Step
  halt : ℤ → Option (List ℕ) → Step

-- The kinds of the fourth operand that these opcodes read; `other` stands for the rest.
pub data P4 : Type 0 where
  other : P4
  int : ℤ → P4
  real : ℕ → P4
  blob : List ℕ → P4
  str : List ℕ → P4

pub data Opcode : Type 0 where
  init goto once begin_subrtn return halt_op is_null_op not_null if_not : Opcode
  offset_limit if_pos if_not_zero decr_jump_zero : Opcode
  add subtract multiply divide remainder bit_and bit_or shift_left_op shift_right_op not_op
        bit_not :
      Opcode
  integer int64 real_op blob_op null_op variable string8 copy result_row : Opcode

pub record Instruction : Type 0 where
  pub opcode : Opcode
  pub p1 : ℤ
  pub p2 : ℤ
  pub p3 : ℤ
  pub p4 : P4

-- The part of `Vm` that these opcodes touch.
pub record Vm : Type 0 where
  pub registers : List Value
  pub once_fired : List ℕ
  pub params : List Value
  pub rows : List (List Value)

abbrev pub max_registers : ℕ
max_registers = 1048576

unfoldable pub index : ℤ → Result ExecError ℕ
index (pos n) = if ltb max_registers n then err (register_out_of_range (pos n)) else ok n
index (negsuc n) = err (register_out_of_range (negsuc n))

unfoldable pub register : Vm → ℤ → Result ExecError Value
register vm reg = do i ← index reg; ok (get_or (vm.registers) i V.null)

-- `resize`, where the register is past the end.
unfoldable pub grown : List Value → ℕ → List Value
grown regs i = regs ++ replicate (i + 1 - length regs) V.null

unfoldable pub set_register : Vm → ℤ → Value → Result ExecError Vm
set_register vm reg value = do
  i ← index reg
  ok (record vm { registers = set (grown (vm.registers) i) i value })

-- `std::mem::replace(slot, Value::Null)` of a register in the file.
unfoldable pub take_register : Vm → ℤ → Result ExecError (Value × Vm)
take_register vm reg = do
  i ← index reg
  ok (get_or (vm.registers) i V.null, record vm { registers = set (vm.registers) i V.null })

unfoldable pub bounded_count : ℤ → Result ExecError ℕ
bounded_count (pos n) = if ltb max_registers n then err (register_range_too_large (pos n)) else ok n
bounded_count (negsuc n) = err (register_range_too_large (negsuc n))

abbrev pub Handled : Type 0
Handled = Result ExecError Step × Vm

-- `vm.register(reg)?`
unfoldable pub with_register : Vm → ℤ → (Value → Handled) → Handled
with_register vm reg rest = elim (register vm reg) [ ok v ↦ rest v | err e ↦ (err e, vm) ]

-- `vm.set_register(reg, value)?; Ok(step)`
unfoldable pub write_register : Vm → ℤ → Value → Step → Handled
write_register vm reg value step = elim (set_register vm reg value) [
  | ok vm' ↦ (ok step, vm')
  | err e ↦ (err e, vm)
]

unfoldable pub to_pc : ℤ → ℕ
to_pc (pos n) = n
to_pc (negsuc n) = 0

unfoldable pub jump_or_next : ℤ → Step
jump_or_next p2 = if is_zero_int p2 then next else jump (to_pc p2)

unfoldable pub jump_if : Bool → ℤ → Step
jump_if take_jump p2 = if take_jump then jump (to_pc p2) else next

unfoldable pub counter : Vm → ℤ → (ℤ → Handled) → Handled
counter vm reg rest = with_register vm reg (λ v. elim v [
  | V.integer i ↦ rest i
  | V.null ↦ (err (type_mismatch V.null), vm)
  | V.real r ↦ (err (type_mismatch (V.real r)), vm)
  | V.text s ↦ (err (type_mismatch (V.text s)), vm)
  | V.blob b ↦ (err (type_mismatch (V.blob b)), vm)
])
