-- ===== src/Vdbe/Machine/Load.antt =====
-- vdbe/result.rs: literals, copies and rows. MakeRecord is left out with the affinities' printing.
use sqlite_rs.Prelude.{ℕ, zero, suc, ◌+◌, if◌then◌else◌, List, [], ◌∷◌, ◌++◌, get_or}
use sqlite_rs.Prelude.Int.{ℤ, pos, negsuc, ◌+ℤ◌, ◌-ℤ◌}
use sqlite_rs.Prelude.Outcome.{ok, err}
use sqlite_rs.Record.Value as V
use sqlite_rs.Record.Value.{Value, fits_signed}
use sqlite_rs.Vdbe.Machine.{
  register_out_of_range, malformed_instruction, next, P4, int, real, blob, str, Instruction, Vm,
  Handled, set_register, take_register, bounded_count, with_register, write_register,
}

unfoldable pub load : Vm → Instruction → Value → Handled
load vm instr v = write_register vm (instr.p2) v next

unfoldable pub load_int64 : Vm → Instruction → P4 → Handled
load_int64 vm instr (int i) = load vm instr (V.integer i)
load_int64 vm instr _ = (err malformed_instruction, vm)

unfoldable pub load_real : Vm → Instruction → P4 → Handled
load_real vm instr (real r) = load vm instr (V.real r)
load_real vm instr _ = (err malformed_instruction, vm)

unfoldable pub load_blob : Vm → Instruction → P4 → Handled
load_blob vm instr (blob b) = load vm instr (V.blob b)
load_blob vm instr _ = (err malformed_instruction, vm)

unfoldable pub load_string : Vm → Instruction → P4 → Handled
load_string vm instr (str s) = load vm instr (V.text s)
load_string vm instr _ = (err malformed_instruction, vm)

-- The loop over `p2..=last`, on the number of registers left.
unfoldable pub null_loop : ℕ → Vm → ℤ → Handled
null_loop zero vm reg = (ok next, vm)
null_loop (suc n) vm reg = elim (set_register vm reg V.null) [
  | ok vm' ↦ null_loop n vm' (reg +ℤ pos 1)
  | err e ↦ (err e, vm)
]

abbrev span : ℤ → ℕ
span (pos n) = n
span (negsuc n) = 0

unfoldable pub do_null : Vm → Instruction → Handled
do_null vm instr = null_loop (span (instr.p3 -ℤ instr.p2) + 1) vm (instr.p2)

-- The parameters count from 1.
unfoldable pub param : Vm → ℤ → Value
param vm (pos zero) = V.null
param vm (pos (suc n)) = get_or (vm.params) n V.null
param vm (negsuc n) = V.null

-- The loop of `result_row`: `p1.checked_add(i)` in i32, then the register.
unfoldable pub row_loop : ℕ → Vm → ℤ → ℤ → List Value → Handled
row_loop zero vm p1 reg row = (ok next, record vm { rows = vm.rows ++ (row ∷ []) })
row_loop (suc n) vm p1 reg row =
    if fits_signed 31 reg
    then elim (take_register vm reg) [
      | ok (v, vm') ↦ row_loop n vm' p1 (reg +ℤ pos 1) (row ++ (v ∷ []))
      | err e ↦ (err e, vm)
    ]
    else (err (register_out_of_range p1), vm)

unfoldable pub do_result_row : Vm → Instruction → Handled
do_result_row vm instr = elim (bounded_count (instr.p2)) [
  | ok n ↦ row_loop n vm (instr.p1) (instr.p1) []
  | err e ↦ (err e, vm)
]

unfoldable pub load_integer : Vm → Instruction → Handled
load_integer vm instr = load vm instr (V.integer (instr.p1))

unfoldable pub load_variable : Vm → Instruction → Handled
load_variable vm instr = load vm instr (param vm (instr.p1))

unfoldable pub copy_register : Vm → Instruction → Handled
copy_register vm instr = with_register vm (instr.p1) (λ v. load vm instr v)
