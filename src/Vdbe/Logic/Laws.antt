-- ===== src/Vdbe/Logic/Laws.antt =====
-- The laws of the comparisons and of the three-valued logic.
use Prim.Native.Nat.{Ordering}
use sqlite_rs.Prelude.{
  ◌≡◌, refl, sym, ◌∙◌, arith, Bool, true, false, Bool-cases, inl, inr, ◌↔◌, ◌⊎◌, Option, none, some,
}
use sqlite_rs.Record.Value.{Value, IsValue}
use sqlite_rs.Record.Collation.{Collation}
use sqlite_rs.Vdbe.Floats.{Floats, IsExact}
use sqlite_rs.Vdbe.Compare.{compare_values, reverse}
use sqlite_rs.Vdbe.Compare.Order.{reverse-compare_values, compare_values_same}
use sqlite_rs.Vdbe.Logic.{is_null, is_equal, is_less, sql_eq, sql_lt, is, not, and, or}

is_equal_iff : (o : Ordering) → (is_equal o ≡ true) ↔ (o ≡ Ordering.eq)
unfolding is_equal
is_equal_iff o = ground arith

-- De Morgan's law holds with NULL.
not-and : (a b : Option Bool) → not (and a b) ≡ or (not a) (not b)
unfolding not and or
not-and none none = refl
not-and none (some true) = refl
not-and none (some false) = refl
not-and (some true) none = refl
not-and (some true) (some true) = refl
not-and (some true) (some false) = refl
not-and (some false) b = refl

unfoldable OneOf : Option Bool → Option Bool → Option Bool → Type 0
OneOf lt eq gt =
    (lt ≡ some true) × (eq ≡ some false) × (gt ≡ some false)
    ⊎ (lt ≡ some false) × (eq ≡ some true) × (gt ≡ some false)
    ⊎ (lt ≡ some false) × (eq ≡ some false) × (gt ≡ some true)

one_of : (o : Ordering) → OneOf (some (is_less o)) (some (is_equal o)) (some (is_less (reverse o)))
unfolding is_less is_equal reverse OneOf
one_of Ordering.lt = inl (refl, refl, refl)
one_of Ordering.eq = inr (inl (refl, refl, refl))
one_of Ordering.gt = inr (inr (refl, refl, refl))

module _ (f : Floats) (e : IsExact f) (collation : Collation) where
  -- Of two values that are not NULL one is less than the other or they are equal, and not two of these,
  -- on doubles that keep the laws of IsExact.
  sql_lt-sql_eq :
      (a b : Value)
      → IsValue a
      → IsValue b
      → is_null a ≡ false
      → is_null b ≡ false
      → OneOf (sql_lt f a b collation) (sql_eq f a b collation) (sql_lt f b a collation)
  unfolding sql_lt sql_eq
  sql_lt-sql_eq a b p q na nb =
      rw (na, nb, ← reverse-compare_values f e collation a b p q)
        (one_of (compare_values f a b collation))

  -- Two values that IS takes for the same agree on every third one, on doubles that keep the laws of
  -- IsExact.
  is_same :
      (a b c : Value)
      → IsValue a
      → IsValue b
      → IsValue c
      → is f a b collation ≡ true
      → is f a c collation ≡ is f b c collation
  unfolding is
  is_same a b c p q r h = elim (Bool-cases (is_null a)) [
    | inl na ↦ let nb : is_null b ≡ true = sym (rw na refl) ∙ h in rw (na, nb) refl
    | inr na ↦ elim (Bool-cases (is_null b)) [
      | inl nb ↦
          let differs : is f a b collation ≡ false = rw (na, nb) refl in
          let clash : false ≡ true = sym differs ∙ h in ground arith
      | inr nb ↦
          let compared : is f a b collation ≡ is_equal (compare_values f a b collation) =
            rw (na, nb) refl in
          let equal : compare_values f a b collation ≡ Ordering.eq =
            (is_equal_iff (compare_values f a b collation)).0 (sym compared ∙ h) in
          rw (na, nb, compare_values_same f e collation a b c p q r equal) refl
    ]
  ]
