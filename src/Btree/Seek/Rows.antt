-- ===== src/Btree/Seek/Rows.antt =====
-- The rows of the lists that a search tree is made of.
use sqlite_rs.Prelude.{
  ℕ, zero, suc, ◌+◌, ◌≤◌, ◌<◌, ◌≡◌, ap, subst, arith, ltb, Bool-cases, ◌⊎◌, inl, inr, List, [], ◌∷◌,
  ◌++◌,
}
use sqlite_rs.Prelude.Int.{ℤ}
use sqlite_rs.Btree.Seek.Tree.{IsRow, tabulate, concat_from}

pub IsRow-tabulate :
    (g : ℕ → ℤ) (t : ℤ) (i left : ℕ)
    → IsRow t (tabulate g i left)
    → (j : ℕ) × (i ≤ j) × (j < i + left) × (g j ≡ t)
unfolding tabulate
IsRow-tabulate g t i zero h = elim h [ ]
IsRow-tabulate g t i (suc left) (inl e) = (i, omega arith, omega arith, e)
IsRow-tabulate g t i (suc left) (inr h) =
    let (j, above, inside, e) = IsRow-tabulate g t (i + 1) left h in
    (j, omega arith, omega arith, e)

pub tabulate-IsRow :
    (g : ℕ → ℤ) (left i j : ℕ) → i ≤ j → j < i + left → IsRow (g j) (tabulate g i left)
unfolding tabulate
tabulate-IsRow g zero i j above inside = absurd (omega arith)
tabulate-IsRow g (suc left) i j above inside = elim (Bool-cases (ltb i j)) [
  | inl less ↦ inr (tabulate-IsRow g left (i + 1) j (ground arith) (omega arith))
  | inr same ↦ inl (ap g (ground arith))
]

IsRow-append : (t : ℤ) (xs ys : List ℤ) → IsRow t (xs ++ ys) → IsRow t xs ⊎ IsRow t ys
IsRow-append t [] ys h = inr h
IsRow-append t (x ∷ xs) ys (inl e) = inl (inl e)
IsRow-append t (x ∷ xs) ys (inr h) = elim (IsRow-append t xs ys h) [
  | inl k ↦ inl (inr k)
  | inr k ↦ inr k
]

append-IsRow_left : (t : ℤ) (xs ys : List ℤ) → IsRow t xs → IsRow t (xs ++ ys)
append-IsRow_left t [] ys h = elim h [ ]
append-IsRow_left t (x ∷ xs) ys (inl e) = inl e
append-IsRow_left t (x ∷ xs) ys (inr h) = inr (append-IsRow_left t xs ys h)

append-IsRow_right : (t : ℤ) (xs ys : List ℤ) → IsRow t ys → IsRow t (xs ++ ys)
append-IsRow_right t [] ys h = h
append-IsRow_right t (x ∷ xs) ys h = inr (append-IsRow_right t xs ys h)

IsRow-concat_from :
    (g : ℕ → List ℤ) (t : ℤ) (i left : ℕ)
    → IsRow t (concat_from g i left)
    → (j : ℕ) × (i ≤ j) × (j < i + left) × IsRow t (g j)
unfolding concat_from
IsRow-concat_from g t i zero h = elim h [ ]
IsRow-concat_from g t i (suc left) h = elim (IsRow-append t (g i) (concat_from g (i + 1) left) h) [
  | inl here ↦ (i, omega arith, omega arith, here)
  | inr there ↦
      let (j, above, inside, k) = IsRow-concat_from g t (i + 1) left there in
      (j, omega arith, omega arith, k)
]

concat_from-IsRow :
    (g : ℕ → List ℤ) (t : ℤ) (left i j : ℕ)
    → i ≤ j
    → j < i + left
    → IsRow t (g j)
    → IsRow t (concat_from g i left)
unfolding concat_from
concat_from-IsRow g t zero i j above inside h = absurd (omega arith)
concat_from-IsRow g t (suc left) i j above inside h = elim (Bool-cases (ltb i j)) [
  | inl less ↦
      append-IsRow_right t (g i) (concat_from g (i + 1) left)
        (concat_from-IsRow g t left (i + 1) j (ground arith) (omega arith) h)
  | inr same ↦
      append-IsRow_left t (g i) (concat_from g (i + 1) left)
        (subst (λ k. IsRow t (g k)) (ground arith) h)
]

-- The rows of all the children of a page.
pub rows_cases :
    (g : ℕ → List ℤ) (t : ℤ) (n : ℕ)
    → IsRow t (concat_from g 0 n ++ g n)
    → (j : ℕ) × (j ≤ n) × IsRow t (g j)
rows_cases g t n h = elim (IsRow-append t (concat_from g 0 n) (g n) h) [
  | inl early ↦ let (j, above, inside, k) = IsRow-concat_from g t 0 n early in (j, omega arith, k)
  | inr late ↦ (n, omega arith, late)
]

pub rows_at :
    (g : ℕ → List ℤ) (t : ℤ) (n j : ℕ) → j ≤ n → IsRow t (g j) → IsRow t (concat_from g 0 n ++ g n)
rows_at g t n j inside h = elim (Bool-cases (ltb j n)) [
  | inl less ↦
      append-IsRow_left t (concat_from g 0 n) (g n)
        (concat_from-IsRow g t n 0 j (omega arith) (ground arith) h)
  | inr same ↦
      append-IsRow_right t (concat_from g 0 n) (g n) (subst (λ k. IsRow t (g k)) (ground arith) h)
]
