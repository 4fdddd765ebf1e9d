-- ===== src/Vdbe/Machine/Limit.antt =====
-- The counters of LIMIT: how many rows DecrJumpZero lets through.
use sqlite_rs.Prelude.{ℕ, zero, suc, ◌^◌, ◌<◌, ◌≡◌, refl, ◌∙◌, arith, false, Option, none, some}
use sqlite_rs.Prelude.Int.{ℤ, pos, ◌-ℤ◌}
use sqlite_rs.Prelude.Outcome.{Result, ok, err}
use sqlite_rs.Record.Value as V
use sqlite_rs.Record.Value.{Value}
use sqlite_rs.Vdbe.Coerce.{is_zero_int}
use sqlite_rs.Vdbe.Aggregate.{saturate}
use sqlite_rs.Vdbe.Machine.{
  Step, next, jump, halt, Instruction, Vm, Handled, ExecError, register, set_register,
  with_register, counter, write_register, jump_if,
}
use sqlite_rs.Vdbe.Machine.Control.{do_decr_jump_zero}
use sqlite_rs.Vdbe.Machine.Registers.{
  register-set_register, set_register_defined, same_register_self,
}

unfoldable pub counted : Result ExecError Step → Option ℕ → Option ℕ
counted (ok next) none = none
counted (ok next) (some n) = some (suc n)
counted (ok (jump target)) rest = some 1
counted (ok (halt code message)) rest = none
counted (err e) rest = none

-- A loop that runs the opcode at the end of each round: the rounds up to the jump, that one included.
unfoldable pub rounds : ℕ → Vm → Instruction → Option ℕ
rounds zero vm instr = none
rounds (suc fuel) vm instr =
    let handled = do_decr_jump_zero vm instr in counted (handled.0) (rounds fuel (handled.1) instr)

saturate_less : (n : ℕ) → suc n < 2 ^ 63 → saturate 63 (pos (suc n) -ℤ pos 1) ≡ pos n
unfolding saturate ◌-ℤ◌
saturate_less n h = ground arith

positive : (n : ℕ) → is_zero_int (pos (suc n)) ≡ false
unfolding is_zero_int
positive n = ground arith

counter-register :
    (vm : Vm) (reg i : ℤ) (rest : ℤ → Handled)
    → register vm reg ≡ ok (V.integer i)
    → counter vm reg rest ≡ rest i
unfolding counter with_register
counter-register vm reg i rest held = rw (counter, with_register, held) refl

write_register-set_register :
    (vm vm' : Vm) (reg : ℤ) (v : Value) (step : Step)
    → set_register vm reg v ≡ ok vm'
    → write_register vm reg v step ≡ (ok step, vm')
unfolding write_register
write_register-set_register vm vm' reg v step done = rw (write_register, done) refl

-- One round.
decr_jump_zero-counts :
    (n : ℕ) (vm : Vm) (instr : Instruction)
    → register vm (instr.p1) ≡ ok (V.integer (pos (suc n)))
    → suc n < 2 ^ 63
    → (vm' : Vm) × (do_decr_jump_zero vm instr
        ≡ (ok (jump_if (is_zero_int (pos n)) (instr.p2)), vm'))
      × (register vm' (instr.p1) ≡ ok (V.integer (pos n)))
unfolding do_decr_jump_zero
decr_jump_zero-counts n vm instr held small =
    let (vm', done) =
      set_register_defined vm (instr.p1) (V.integer (pos (suc n))) (V.integer (pos n)) held in
    (
      vm',
      counter-register vm (instr.p1) (pos (suc n))
            (λ v.
              let less = saturate 63 (v -ℤ pos 1) in
              write_register vm (instr.p1) (V.integer less) (jump_if (is_zero_int less) (instr.p2)))
            held
          ∙ rw (saturate_less n small) (
              write_register-set_register vm vm' (instr.p1) (V.integer (pos n))
                (jump_if (is_zero_int (pos n)) (instr.p2)) done),
      register-set_register vm vm' (instr.p1) (instr.p1) (V.integer (pos n)) done
          ∙ rw (same_register_self (instr.p1)) refl,
    )

-- With n + 1 in the register, a number below 2^63, and fuel for more than n rounds, the loop leaves by
-- the jump after n + 1 rounds.
pub rounds-limit :
    (n fuel : ℕ) (vm : Vm) (instr : Instruction)
    → register vm (instr.p1) ≡ ok (V.integer (pos (suc n)))
    → suc n < 2 ^ 63
    → n < fuel
    → rounds fuel vm instr ≡ some (suc n)
unfolding rounds counted jump_if is_zero_int
rounds-limit n zero vm instr held small h = absurd (omega arith)
rounds-limit zero (suc fuel) vm instr held small h =
    let (vm', done, held') = decr_jump_zero-counts zero vm instr held small in rw done refl
rounds-limit (suc n) (suc fuel) vm instr held small h =
    let (vm', done, held') = decr_jump_zero-counts (suc n) vm instr held small in
    rw (done, rounds-limit n fuel vm' instr held' (omega arith) (omega arith), positive n) refl
