-- ===== src/Vdbe/Machine/Registers.antt =====
-- The register file: what is written is read, and nothing else changes.
use sqlite_rs.Prelude.{
  ℕ, zero, suc, ◌+◌, ◌-◌, ◌==◌, ==_iff, ltb, ◌<◌, ◌≡◌, ◌≢◌, refl, sym, ap, ◌∙◌, arith, Bool, true,
  false, Bool-cases, inl, inr, if◌then◌else◌, List, [], ◌∷◌, ◌++◌, length, length-append,
  length-replicate, get_or, set, replicate,
}
use sqlite_rs.Prelude.Int.{ℤ, pos, negsuc}
use sqlite_rs.Prelude.Outcome.{Result, ok, err}
use sqlite_rs.Record.Value as V
use sqlite_rs.Record.Value.{Value}
use sqlite_rs.Vdbe.Machine.{
  ExecError, register_out_of_range, Vm, max_registers, index, register, grown, set_register,
}

unfoldable pub same_register : ℤ → ℤ → Bool
same_register (pos i) (pos j) = i == j
same_register (pos i) (negsuc j) = false
same_register (negsuc i) (pos j) = false
same_register (negsuc i) (negsuc j) = i == j

get_or-replicate : (n j : ℕ) → get_or (replicate n V.null) j V.null ≡ V.null
get_or-replicate zero j = refl
get_or-replicate (suc n) zero = refl
get_or-replicate (suc n) (suc j) = get_or-replicate n j

get_or-append :
    (xs : List Value) (n j : ℕ) → get_or (xs ++ replicate n V.null) j V.null ≡ get_or xs j V.null
get_or-append [] n j = get_or-replicate n j
get_or-append (x ∷ xs) n zero = refl
get_or-append (x ∷ xs) n (suc j) = get_or-append xs n j

get_or-set_self :
    (xs : List Value) (i : ℕ) (v : Value) → i < length xs → get_or (set xs i v) i V.null ≡ v
get_or-set_self [] i v h = absurd (omega arith)
get_or-set_self (x ∷ xs) zero v h = refl
get_or-set_self (x ∷ xs) (suc i) v h = get_or-set_self xs i v (omega arith)

get_or-set_ne :
    (xs : List Value) (i j : ℕ) (v : Value)
    → i ≢ j
    → get_or (set xs i v) j V.null ≡ get_or xs j V.null
get_or-set_ne [] i j v h = refl
get_or-set_ne (x ∷ xs) zero zero v h = absurd (h refl)
get_or-set_ne (x ∷ xs) zero (suc j) v h = refl
get_or-set_ne (x ∷ xs) (suc i) zero v h = refl
get_or-set_ne (x ∷ xs) (suc i) (suc j) v h = get_or-set_ne xs i j v (λ e. h (ap suc e))

length-grown : (xs : List Value) (i : ℕ) → i < length (grown xs i)
unfolding grown
length-grown xs i = omega (
  arith,
  length-append xs (replicate (i + 1 - length xs) V.null),
  length-replicate (i + 1 - length xs) V.null,
)

abbrev written : Vm → ℕ → Value → Vm
written vm i v = record vm { registers = set (grown (vm.registers) i) i v }

value_or : Result ExecError Vm → Vm → Vm
value_or (ok a) other = a
value_or (err e) other = other

ok_is_no_err : (vm : Vm) (e : ExecError) → ¬ (ok vm ≡ err e)
ok_is_no_err vm e h = cc

value_is_no_err : (a : Value) (e : ExecError) → ¬ (ok a ≡ err e)
value_is_no_err a e h = cc

read_written :
    (vm : Vm) (i j : ℕ) (v : Value)
    → get_or (set (grown (vm.registers) i) i v) j V.null
      ≡ (if i == j then v else get_or (vm.registers) j V.null)
unfolding grown
read_written vm i j v = elim (Bool-cases (i == j)) [
  | inl e ↦ rw e (
      ap (λ t. get_or (set (grown (vm.registers) i) i v) t V.null) (sym ((==_iff i j).0 e))
      ∙ get_or-set_self (grown (vm.registers) i) i v (length-grown (vm.registers) i))
  | inr e ↦ rw e (
      get_or-set_ne (grown (vm.registers) i) i j v (λ h. ground (arith, (==_iff i j).1 h))
      ∙ get_or-append (vm.registers) (i + 1 - length (vm.registers)) j)
]

register-written :
    (vm : Vm) (i : ℕ) (other : ℤ) (v : Value)
    → ltb max_registers i ≡ false
    → register (written vm i v) other
      ≡ (if same_register (pos i) other then ok v else register vm other)
unfolding register index same_register
register-written vm i (pos j) v small = elim (Bool-cases (i == j)) [
  | inl e ↦
      let fits : ltb max_registers j ≡ false =
        ap (λ t. ltb max_registers t) (sym ((==_iff i j).0 e)) ∙ small in
      rw (fits, read_written vm i j v, e) refl
  | inr e ↦ elim (Bool-cases (ltb max_registers j)) [
    | inl far ↦ rw (far, e) refl
    | inr near ↦ rw (near, read_written vm i j v, e) refl
  ]
]
register-written vm i (negsuc j) v small = refl

-- After a write that succeeded the register reads as the value; every other one, never written ones
-- included, reads as it did.
pub register-set_register :
    (vm vm' : Vm) (reg other : ℤ) (v : Value)
    → set_register vm reg v ≡ ok vm'
    → register vm' other ≡ (if same_register reg other then ok v else register vm other)
unfolding set_register index value_or
register-set_register vm vm' (pos i) other v h = elim (Bool-cases (ltb max_registers i)) [
  | inl e ↦
      let refused : set_register vm (pos i) v ≡ err (register_out_of_range (pos i)) = rw e refl in
      absurd (ok_is_no_err vm' (register_out_of_range (pos i)) (sym h ∙ refused))
  | inr e ↦
      let done : set_register vm (pos i) v ≡ ok (written vm i v) = rw e refl in
      let same : vm' ≡ written vm i v = ap (λ t. value_or t vm) (sym h ∙ done) in
      ap (λ t. register t other) same ∙ register-written vm i other v e
]
register-set_register vm vm' (negsuc i) other v h =
    absurd (ok_is_no_err vm' (register_out_of_range (negsuc i)) (sym h))

-- A register that can be read can be written.
pub set_register_defined :
    (vm : Vm) (reg : ℤ) (a v : Value)
    → register vm reg ≡ ok a
    → (vm' : Vm) × (set_register vm reg v ≡ ok vm')
unfolding register set_register index
set_register_defined vm (pos i) a v h = elim (Bool-cases (ltb max_registers i)) [
  | inl e ↦
      let refused : register vm (pos i) ≡ err (register_out_of_range (pos i)) = rw e refl in
      absurd (value_is_no_err a (register_out_of_range (pos i)) (sym h ∙ refused))
  | inr e ↦ (written vm i v, rw e refl)
]
set_register_defined vm (negsuc i) a v h =
    absurd (value_is_no_err a (register_out_of_range (negsuc i)) (sym h))

-- A register is itself.
pub same_register_self : (reg : ℤ) → same_register reg reg ≡ true
unfolding same_register
same_register_self (pos i) = (==_iff i i).1 refl
same_register_self (negsuc i) = (==_iff i i).1 refl
