-- ===== src/Vdbe/Machine/Control.antt =====
-- vdbe/control.rs: jumps, subroutines, and the counters of LIMIT and OFFSET.
use sqlite_rs.Prelude.{
  ℕ, ◌==◌, Bool, true, false, ◌||◌, not, if◌then◌else◌, List, [], ◌∷◌, Option, none, some,
}
use sqlite_rs.Prelude.Int.{ℤ, pos, negsuc, ◌+ℤ◌, ◌-ℤ◌, ltb_ℤ}
use sqlite_rs.Prelude.Outcome.{Result, ok, err}
use sqlite_rs.Record.Value as V
use sqlite_rs.Record.Value.{Value, fits_signed}
use sqlite_rs.Vdbe.Floats.{Floats}
use sqlite_rs.Vdbe.Logic.{is_null}
use sqlite_rs.Vdbe.Aggregate.{saturate}
use sqlite_rs.Vdbe.Coerce.{coerce_text_to_numeric, is_zero_int}
use sqlite_rs.Vdbe.Machine.{
  ExecError, type_mismatch, malformed_instruction, Step, next, jump, halt, P4, str, Instruction, Vm,
  Handled, with_register, write_register, to_pc, jump_or_next, jump_if, counter,
}

-- `vm.once_fired.insert(pc)`
unfoldable pub has_fired : List ℕ → ℕ → Bool
has_fired [] pc = false
has_fired (p ∷ ps) pc = (p == pc) || has_fired ps pc

unfoldable pub run_once : Vm → ℕ → Instruction → Handled
run_once vm pc instr =
    if has_fired (vm.once_fired) pc
    then (ok (jump (to_pc (instr.p2))), vm)
    else (ok next, record vm { once_fired = pc ∷ vm.once_fired })

unfoldable pub return_to : Value → Result ExecError Step
return_to (V.integer i) =
    if fits_signed 31 i then ok (jump (to_pc i)) else err malformed_instruction
return_to v = err (type_mismatch v)

unfoldable pub message_of : P4 → Option (List ℕ)
message_of (str s) = some s
message_of _ = none

unfoldable pub combined_limit : ℤ → ℤ → ℤ
combined_limit limit offset =
    if ltb_ℤ (pos 0) limit
    then saturate 63 (limit +ℤ (if ltb_ℤ offset (pos 0) then pos 0 else offset))
    else negsuc 0

unfoldable pub do_offset_limit : Vm → Instruction → Handled
do_offset_limit vm instr = counter vm (instr.p1) (λ limit.
    counter vm (instr.p3)
      (λ offset. write_register vm (instr.p2) (V.integer (combined_limit limit offset)) next))

unfoldable pub do_if_pos : Vm → Instruction → Handled
do_if_pos vm instr = counter vm (instr.p1) (λ v.
    if ltb_ℤ (pos 0) v
    then write_register vm (instr.p1) (V.integer (saturate 63 (v -ℤ instr.p3)))
        (jump (to_pc (instr.p2)))
    else (ok next, vm))

unfoldable pub do_if_not_zero : Vm → Instruction → Handled
do_if_not_zero vm instr = counter vm (instr.p1) (λ v.
    if is_zero_int v
    then (ok next, vm)
    else if ltb_ℤ (pos 0) v
    then write_register vm (instr.p1) (V.integer (saturate 63 (v -ℤ pos 1)))
        (jump (to_pc (instr.p2)))
    else (ok (jump (to_pc (instr.p2))), vm))

unfoldable pub do_decr_jump_zero : Vm → Instruction → Handled
do_decr_jump_zero vm instr = counter vm (instr.p1) (λ v.
    let less = saturate 63 (v -ℤ pos 1) in
    write_register vm (instr.p1) (V.integer less) (jump_if (is_zero_int less) (instr.p2)))

unfoldable pub run_init : Vm → Instruction → Handled
run_init vm instr = (ok (jump_or_next (instr.p2)), vm)

unfoldable pub run_goto : Vm → Instruction → Handled
run_goto vm instr = (ok (jump (to_pc (instr.p2))), vm)

unfoldable pub run_return : Vm → Instruction → Handled
run_return vm instr = with_register vm (instr.p1) (λ v. (return_to v, vm))

unfoldable pub run_halt : Vm → Instruction → Handled
run_halt vm instr = (ok (halt (instr.p1) (message_of (instr.p4))), vm)

unfoldable pub run_is_null : Vm → Instruction → Handled
run_is_null vm instr = with_register vm (instr.p1) (λ v. (ok (jump_if (is_null v) (instr.p2)), vm))

unfoldable pub run_not_null : Vm → Instruction → Handled
run_not_null vm instr =
    with_register vm (instr.p1) (λ v. (ok (jump_if (not (is_null v)) (instr.p2)), vm))

module _ (f : Floats) where
  unfoldable pub numeric_is_falsy : Value → Bool
  numeric_is_falsy (V.integer i) = is_zero_int i
  numeric_is_falsy (V.real r) = f.is_zero r
  numeric_is_falsy _ = true

  unfoldable pub is_falsy : Value → Bool
  is_falsy V.null = false
  is_falsy (V.integer i) = is_zero_int i
  is_falsy (V.real r) = f.is_zero r
  is_falsy (V.text s) = numeric_is_falsy (coerce_text_to_numeric f s)
  is_falsy (V.blob b) = true

  unfoldable pub falls : Value → ℤ → Bool
  falls v p3 = if is_null v then not (is_zero_int p3) else is_falsy v

  unfoldable pub run_if_not : Vm → Instruction → Handled
  run_if_not vm instr =
      with_register vm (instr.p1) (λ v. (ok (jump_if (falls v (instr.p3)) (instr.p2)), vm))
