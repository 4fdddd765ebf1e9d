-- ===== src/Vdbe/Floats/Toy.antt =====
-- A machine for the tests, whose doubles are natural numbers: one set of operations that keeps the
-- laws.
use sqlite_rs.Prelude.{
  ℕ, ◌+◌, ◌-◌, ◌^◌, ◌<◌, ◌≡◌, refl, arith, Bool, true, false, ltb, ◌==◌, not, ◌&&◌, if◌then◌else◌,
  none,
}
use sqlite_rs.Prelude.Int.{ℤ, pos, negsuc, ltb_ℤ, ◌+ℤ◌, ◌-ℤ◌}
use sqlite_rs.Record.Value.{IsI64, FitsSigned}
use sqlite_rs.Vdbe.Floats.{Floats, IsExact, two_63, minus_two_63}

abbrev pub toy_nan : ℕ → Bool
toy_nan x = x == 2 ^ 64 - 1

abbrev pub toy_exact : ℕ → ℕ
toy_exact x =
    if x == minus_two_63
    then 2 ^ 64 - 2 ^ 63
    else if x == two_63
    then 2 ^ 64 + 2 ^ 63
    else 2 ^ 64 + x

abbrev pub toy_whole : ℤ → ℕ
toy_whole (pos n) = 2 ^ 64 + n
toy_whole (negsuc n) = 2 ^ 64 - 1 - n

abbrev pub toy_of_int : ℤ → ℕ
toy_of_int (pos n) = if ltb n (2 ^ 63) then n else 0
toy_of_int (negsuc n) = minus_two_63

abbrev pub toy_to_int : ℕ → ℤ
toy_to_int x =
    if x == minus_two_63 then negsuc (2 ^ 63 - 1) else if ltb x (2 ^ 63) then pos x else pos 0

abbrev pub toy : Floats
toy = record {
  is_nan = toy_nan;
  lt = λ x y. not (toy_nan x) && not (toy_nan y) && ltb (toy_exact x) (toy_exact y);
  add = λ x y. x + y;
  sub = λ x y. x - y;
  mul = λ x y. x;
  div = λ x y. x;
  of_int = toy_of_int;
  to_int = toy_to_int;
  parse = λ literal. none;
  is_zero = λ x. x == 0;
}

whole_lt_toy :
    (i j : ℤ) → FitsSigned 64 i → FitsSigned 64 j → ltb_ℤ i j ≡ true → toy_whole i < toy_whole j
whole_lt_toy i j p q h = ground arith

to_int_fits_toy : (r : ℕ) → IsI64 (toy_to_int r)
to_int_fits_toy r = ground arith

of_int_number_toy : (i : ℤ) → toy_nan (toy_of_int i) ≡ false
of_int_number_toy (pos n) = ground arith
of_int_number_toy (negsuc n) = refl

to_int_near_toy :
    (r : ℕ)
    → toy_exact r < toy_exact two_63
    → (toy_whole (toy_to_int r -ℤ pos 1) < toy_exact r)
      × (toy_exact r < toy_whole (toy_to_int r +ℤ pos 1))
unfolding ◌+ℤ◌ ◌-ℤ◌
to_int_near_toy r h = ground arith

of_int_to_int_toy :
    (r : ℕ)
    → toy_exact r < toy_exact two_63
    → toy_exact (toy_of_int (toy_to_int r)) ≡ toy_whole (toy_to_int r)
of_int_to_int_toy r h = ground arith

pub toy_exact_floats : IsExact toy
toy_exact_floats = record {
  exact = toy_exact;
  whole = toy_whole;
  whole_lt = whole_lt_toy;
  lt_exact = λ x y p q. rw (p, q) refl;
  exact_two_63 = refl;
  exact_minus_two_63 = refl;
  two_63_number = refl;
  minus_two_63_number = refl;
  of_int_number = of_int_number_toy;
  to_int_fits = to_int_fits_toy;
  to_int_near = λ r n l h. to_int_near_toy r h;
  of_int_to_int = λ r n l h. of_int_to_int_toy r h;
}
