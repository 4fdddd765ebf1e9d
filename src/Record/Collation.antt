-- ===== src/Record/Collation.antt =====
-- record/collation.rs: the collating functions.
use Prim.Native.Nat.{compare, Ordering}
use sqlite_rs.Prelude.{ℕ, ◌+◌, ◌==◌, leb, ◌&&◌, if◌then◌else◌, List, [], ◌∷◌}
use sqlite_rs.Prelude.Text.{as_bytes}

pub data Collation : Type 0 where
  binary no_case r_trim : Collation

-- `cmp` of two byte strings, or of iterators over bytes.
unfoldable pub compare_bytes : List ℕ → List ℕ → Ordering
compare_bytes [] [] = Ordering.eq
compare_bytes [] (y ∷ ys) = Ordering.lt
compare_bytes (x ∷ xs) [] = Ordering.gt
compare_bytes (x ∷ xs) (y ∷ ys) = elim (compare x y) [
  | Ordering.lt ↦ Ordering.lt
  | Ordering.eq ↦ compare_bytes xs ys
  | Ordering.gt ↦ Ordering.gt
]

-- `u8::to_ascii_lowercase` of each byte.
unfoldable pub ascii_lowercase : ℕ → ℕ
ascii_lowercase b = if leb 65 b && leb b 90 then b + 32 else b

unfoldable pub to_ascii_lowercase : List ℕ → List ℕ
to_ascii_lowercase [] = []
to_ascii_lowercase (b ∷ bs) = ascii_lowercase b ∷ to_ascii_lowercase bs

unfoldable pub trim_cons : ℕ → List ℕ → List ℕ
trim_cons c [] = if c == 32 then [] else c ∷ []
trim_cons c (d ∷ ds) = c ∷ d ∷ ds

-- `trim_end_matches(' ')`
unfoldable pub trim_end : List ℕ → List ℕ
trim_end [] = []
trim_end (c ∷ cs) = trim_cons c (trim_end cs)

-- The bytes that a collation compares.
unfoldable pub collation_key : List ℕ → Collation → List ℕ
collation_key s binary = as_bytes s
collation_key s no_case = to_ascii_lowercase (as_bytes s)
collation_key s r_trim = as_bytes (trim_end s)

unfoldable pub compare_text : List ℕ → List ℕ → Collation → Ordering
compare_text a b collation = compare_bytes (collation_key a collation) (collation_key b collation)
