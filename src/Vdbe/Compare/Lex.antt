-- ===== src/Vdbe/Compare/Lex.antt =====
-- Lexicographic comparison, and the bounds of an i64.
use Prim.Native.Nat.{compare, Ordering}
use sqlite_rs.Prelude.{ℕ, ◌-◌, ◌^◌, ◌<◌, ◌≡◌, refl, arith, true, false, List, [], ◌∷◌}
use sqlite_rs.Prelude.Int.{ℤ, pos, negsuc, ◌+ℤ◌, ◌-ℤ◌, ltb_ℤ}
use sqlite_rs.Record.Value.{IsI64, FitsSigned}
use sqlite_rs.Record.Collation.{compare_bytes}
use sqlite_rs.Vdbe.Compare.{reverse}

-- Two numbers that are first apart in two keys.
pub lex_lt : (k a b : ℕ) → a < b → compare_bytes (k ∷ a ∷ []) (k ∷ b ∷ []) ≡ Ordering.lt
unfolding compare_bytes
lex_lt k a b h = ground arith

pub lex_gt : (k a b : ℕ) → b < a → compare_bytes (k ∷ a ∷ []) (k ∷ b ∷ []) ≡ Ordering.gt
unfolding compare_bytes
lex_gt k a b h = ground arith

pub lex_compare : (k a b : ℕ) → compare_bytes (k ∷ a ∷ []) (k ∷ b ∷ []) ≡ compare a b
unfolding compare_bytes
lex_compare k a b = ground arith

pub reverse-compare_bytes : (xs ys : List ℕ) → reverse (compare_bytes xs ys) ≡ compare_bytes ys xs
unfolding compare_bytes reverse
reverse-compare_bytes [] [] = refl
reverse-compare_bytes [] (y ∷ ys) = refl
reverse-compare_bytes (x ∷ xs) [] = refl
reverse-compare_bytes (x ∷ xs) (y ∷ ys) = ground (arith, reverse-compare_bytes xs ys)

pub fits_65 : (i : ℤ) → IsI64 i → FitsSigned 64 i
fits_65 (pos n) p = omega arith
fits_65 (negsuc n) p = omega arith

pub fits_below : (i : ℤ) → IsI64 i → FitsSigned 64 (i -ℤ pos 1)
unfolding ◌-ℤ◌
fits_below (pos n) p = ground arith
fits_below (negsuc n) p = ground arith

pub fits_above : (i : ℤ) → IsI64 i → FitsSigned 64 (i +ℤ pos 1)
unfolding ◌+ℤ◌
fits_above (pos n) p = ground arith
fits_above (negsuc n) p = ground arith

pub i64_min : (i : ℤ) → IsI64 i → ltb_ℤ i (negsuc (2 ^ 63 - 1)) ≡ false
i64_min (pos n) p = ground arith
i64_min (negsuc n) p = ground arith

pub i64_max : (i : ℤ) → IsI64 i → ltb_ℤ i (pos (2 ^ 63)) ≡ true
i64_max (pos n) p = ground arith
i64_max (negsuc n) p = ground arith
