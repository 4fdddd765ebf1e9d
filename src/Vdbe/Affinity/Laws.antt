-- ===== src/Vdbe/Affinity/Laws.antt =====
-- Laws of the affinities, with their tests.
use sqlite_rs.Prelude.{ℕ, ◌≡◌, refl, ap, arith, List, [], ◌∷◌, Option, none, some}
use sqlite_rs.Vdbe.Affinity.{
  Affinity, text, numeric, integer, real, blob, ascii_uppercase, to_ascii_uppercase,
  affinity_of_upper, affinity_of, to_p4_byte, from_p4_byte, comparison_affinity,
}

ascii_uppercase_twice : (c : ℕ) → ascii_uppercase (ascii_uppercase c) ≡ ascii_uppercase c
unfolding ascii_uppercase
ascii_uppercase_twice c = ground arith

uppercase_twice : (s : List ℕ) → to_ascii_uppercase (to_ascii_uppercase s) ≡ to_ascii_uppercase s
unfolding to_ascii_uppercase
uppercase_twice [] = refl
uppercase_twice (c ∷ cs) = rw (ascii_uppercase_twice c, uppercase_twice cs) refl

-- The affinity of a declared type does not depend on the case of its ASCII letters.
affinity_of-to_ascii_uppercase :
    (declared_type : List ℕ)
    → affinity_of (to_ascii_uppercase declared_type) ≡ affinity_of declared_type
unfolding affinity_of
affinity_of-to_ascii_uppercase declared_type = ap affinity_of_upper (uppercase_twice declared_type)

-- An affinity is read back from its byte in a program's P4 operand.
from_p4_byte-to_p4_byte : (a : Affinity) → from_p4_byte (to_p4_byte a) ≡ a
unfolding from_p4_byte to_p4_byte
from_p4_byte-to_p4_byte text = refl
from_p4_byte-to_p4_byte numeric = refl
from_p4_byte-to_p4_byte integer = refl
from_p4_byte-to_p4_byte real = refl
from_p4_byte-to_p4_byte blob = refl

-- The affinity of a comparison does not depend on the order of its operands.
pub comparison_affinity_comm :
    (a b : Option Affinity) → comparison_affinity a b ≡ comparison_affinity b a
unfolding comparison_affinity
comparison_affinity_comm none none = refl
comparison_affinity_comm none (some b) = refl
comparison_affinity_comm (some a) none = refl
comparison_affinity_comm (some a) (some b) = ground arith
