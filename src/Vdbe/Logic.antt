-- ===== src/Vdbe/Logic.antt =====
-- vdbe/value.rs: comparisons, NOT, AND and OR where a value or a truth value may be NULL.
pub mod Laws
use Prim.Native.Nat.{Ordering}
use sqlite_rs.Prelude.{◌≡◌, refl, Bool, true, false, ◌||◌, if◌then◌else◌, Option, none, some}
use sqlite_rs.Record.Value as V
use sqlite_rs.Record.Value.{Value}
use sqlite_rs.Record.Collation.{Collation}
use sqlite_rs.Vdbe.Floats.{Floats}
use sqlite_rs.Vdbe.Compare.{compare_values}

-- `matches!(v, Value::Null)`
unfoldable pub is_null : Value → Bool
is_null V.null = true
is_null (V.integer i) = false
is_null (V.real r) = false
is_null (V.text s) = false
is_null (V.blob b) = false

-- `o == Ordering::Equal`, `o == Ordering::Less`
unfoldable pub is_equal : Ordering → Bool
is_equal Ordering.lt = false
is_equal Ordering.eq = true
is_equal Ordering.gt = false

unfoldable pub is_less : Ordering → Bool
is_less Ordering.lt = true
is_less Ordering.eq = false
is_less Ordering.gt = false

module _ (f : Floats) where
  unfoldable pub sql_eq : Value → Value → Collation → Option Bool
  sql_eq a b collation =
      if is_null a || is_null b then none else some (is_equal (compare_values f a b collation))

  unfoldable pub sql_lt : Value → Value → Collation → Option Bool
  sql_lt a b collation =
      if is_null a || is_null b then none else some (is_less (compare_values f a b collation))

  unfoldable pub is : Value → Value → Collation → Bool
  is a b collation =
      if is_null a
      then is_null b
      else if is_null b
      then false
      else is_equal (compare_values f a b collation)

  unfoldable pub is_not : Value → Value → Collation → Bool
  is_not a b collation = if is a b collation then false else true

unfoldable pub not : Option Bool → Option Bool
not none = none
not (some true) = some false
not (some false) = some true

unfoldable pub and : Option Bool → Option Bool → Option Bool
and (some false) b = some false
and none (some false) = some false
and (some true) (some false) = some false
and (some true) (some true) = some true
and (some true) none = none
and none (some true) = none
and none none = none

unfoldable pub or : Option Bool → Option Bool → Option Bool
or (some true) b = some true
or none (some true) = some true
or (some false) (some true) = some true
or (some false) (some false) = some false
or (some false) none = none
or none (some false) = none
or none none = none
