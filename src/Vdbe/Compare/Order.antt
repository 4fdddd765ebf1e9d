-- ===== src/Vdbe/Compare/Order.antt =====
-- The comparison of values is a total order, up to values that compare equal.
use Prim.Native.Nat.{Ordering}
use sqlite_rs.Prelude.{◌≡◌, ◌≢◌, refl, sym, ap, ◌∙◌, arith, ℕ, List, [], ◌∷◌}
use sqlite_rs.Record.Value.{Value, IsValue}
use sqlite_rs.Record.Collation.{Collation, compare_bytes}
use sqlite_rs.Vdbe.Floats.{Floats, IsExact}
use sqlite_rs.Vdbe.Compare.{reverse, compare_values}
use sqlite_rs.Vdbe.Compare.Lex.{reverse-compare_bytes}
use sqlite_rs.Vdbe.Compare.Keys.{sort_key, compare_values-sort_key}

compare_bytes_eq : (xs ys : List ℕ) → compare_bytes xs ys ≡ Ordering.eq → xs ≡ ys
unfolding compare_bytes
compare_bytes_eq [] [] h = refl
compare_bytes_eq [] (y ∷ ys) h = ground arith
compare_bytes_eq (x ∷ xs) [] h = ground arith
compare_bytes_eq (x ∷ xs) (y ∷ ys) h = ground (arith, compare_bytes_eq xs ys)

compare_bytes_trans :
    (xs ys zs : List ℕ)
    → compare_bytes xs ys ≢ Ordering.gt
    → compare_bytes ys zs ≢ Ordering.gt
    → compare_bytes xs zs ≢ Ordering.gt
unfolding compare_bytes
compare_bytes_trans [] ys [] p q h = ground arith
compare_bytes_trans [] ys (z ∷ zs) p q h = ground arith
compare_bytes_trans (x ∷ xs) [] zs p q h = p refl
compare_bytes_trans (x ∷ xs) (y ∷ ys) [] p q h = q refl
compare_bytes_trans (x ∷ xs) (y ∷ ys) (z ∷ zs) p q h = ground (arith, compare_bytes_trans xs ys zs)

-- The doubles keep the laws of IsExact, and the values are such that their integers fit an i64.
module _ (f : Floats) (e : IsExact f) (collation : Collation) where
  -- Exchanging the values reverses the result.
  pub reverse-compare_values :
      (a b : Value)
      → IsValue a
      → IsValue b
      → reverse (compare_values f a b collation) ≡ compare_values f b a collation
  reverse-compare_values a b p q =
      ap reverse (compare_values-sort_key f e a b collation p q)
      ∙ reverse-compare_bytes (sort_key f e a collation) (sort_key f e b collation)
      ∙ sym (compare_values-sort_key f e b a collation q p)

  -- "Not above" is transitive, for values on doubles that keep the laws of IsExact.
  pub compare_values_trans :
      (a b c : Value)
      → IsValue a
      → IsValue b
      → IsValue c
      → compare_values f a b collation ≢ Ordering.gt
      → compare_values f b c collation ≢ Ordering.gt
      → compare_values f a c collation ≢ Ordering.gt
  compare_values_trans a b c p q r ab bc ac =
      compare_bytes_trans (sort_key f e a collation) (sort_key f e b collation)
        (sort_key f e c collation) (λ h. ab (compare_values-sort_key f e a b collation p q ∙ h))
        (λ h. bc (compare_values-sort_key f e b c collation q r ∙ h))
        (sym (compare_values-sort_key f e a c collation p r) ∙ ac)

  -- Values that compare equal stand in the same place: nothing compares differently with them, on
  -- doubles that keep the laws of IsExact.
  pub compare_values_same :
      (a b c : Value)
      → IsValue a
      → IsValue b
      → IsValue c
      → compare_values f a b collation ≡ Ordering.eq
      → compare_values f a c collation ≡ compare_values f b c collation
  compare_values_same a b c p q r ab =
      compare_values-sort_key f e a c collation p r
      ∙ ap (λ t. compare_bytes t (sort_key f e c collation))
          (compare_bytes_eq (sort_key f e a collation) (sort_key f e b collation)
            (sym (compare_values-sort_key f e a b collation p q) ∙ ab))
      ∙ sym (compare_values-sort_key f e b c collation q r)
