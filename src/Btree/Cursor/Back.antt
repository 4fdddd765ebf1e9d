-- ===== src/Btree/Cursor/Back.antt =====
-- src/btree.rs: pieces of a backward cursor's scan, and the lists they are read from.
use mathlib.Core.List.{append-nil, append_assoc}
use sqlite_rs.Prelude.{
  ℕ, zero, suc, ◌+◌, ◌≡◌, refl, sym, ap, ◌∙◌, arith, ◌-◌, ◌==◌, ltb, true, false, List, [], ◌∷◌,
  ◌++◌,
}
use sqlite_rs.Prelude.Outcome.{Result, ok}
use sqlite_rs.Prelude.Int.{ℤ}
use sqlite_rs.Btree.Error.{BtreeError}
use sqlite_rs.Btree.Cursor.{
  Frame, TableCursor, go_on, read_interior_child, leaf_cell, settle, decode_leaf_cell, descend,
  push_page, advance_rev_top,
}
use sqlite_rs.Btree.Cursor.Walk.{rows_from, subtrees, rows_from-suc, subtrees-suc}

-- The rows from the last to the first.
unfoldable pub rev : List ℤ → List ℤ
rev [] = []
rev (x ∷ xs) = rev xs ++ (x ∷ [])

pub rev-append : (xs ys : List ℤ) → rev (xs ++ ys) ≡ rev ys ++ rev xs
unfolding rev
rev-append [] ys = sym (append-nil (rev ys))
rev-append (x ∷ xs) ys =
    ap (λ t. t ++ (x ∷ [])) (rev-append xs ys) ∙ append_assoc (rev ys) (rev xs) (x ∷ [])

module _ {V : Type 0} where
  -- The last cell of those that are left, and the ones before it.
  pub rows_from-last :
      (read : ℕ → Result (BtreeError V) (ℤ × ℕ × ℕ)) (left i : ℕ) (rows : List ℤ)
      → rows_from read i (suc left) ≡ ok rows
      → (cell : ℤ × ℕ × ℕ) × (before : List ℤ) × (read (i + left) ≡ ok cell)
        × (rows_from read i left ≡ ok before)
        × (before ++ (cell.0 ∷ []) ≡ rows)
  unfolding rows_from
  rows_from-last read zero i rows e =
      let (cell, rest, found, none_left, split) = rows_from-suc read i 0 rows e in
      let nothing : [] ≡ rest = cc in
      let here : i + 0 ≡ i = omega arith in
      (cell, [], ap read here ∙ found, refl, ap (λ t. cell.0 ∷ t) nothing ∙ split)
  rows_from-last read (suc left) i rows e =
      let (cell, rest, found, more, split) = rows_from-suc read i (suc left) rows e in
      let (last, before, found', more', split') = rows_from-last read left (i + 1) rest more in
      let here : i + suc left ≡ i + 1 + left = omega arith in
      (
        last,
        cell.0 ∷ before,
        ap read here ∙ found',
        rw (found, more') refl,
        ap (λ t. cell.0 ∷ t) split' ∙ split,
      )

  pub subtrees-last :
      (tree : ℕ → Result (BtreeError V) (ℕ × List ℤ)) (child : ℕ → Result (BtreeError V) ℕ)
      (left i pages : ℕ) (rows : List ℤ)
      → subtrees tree child i (suc left) ≡ ok (pages, rows)
      → (p : ℕ) × (here others : ℕ × List ℤ) × (child (i + left) ≡ ok p)
        × (tree p ≡ ok here)
        × (subtrees tree child i left ≡ ok others)
        × (others.0 + here.0 ≡ pages)
        × (others.1 ++ here.1 ≡ rows)
  unfolding subtrees
  subtrees-last tree child zero i pages rows e =
      let (p, here, others, found, below, none_left, sum, split) =
        subtrees-suc tree child i 0 pages rows e in
      let no_pages : 0 ≡ others.0 = cc in
      let no_rows : [] ≡ others.1 = cc in
      let at : i + 0 ≡ i = omega arith in
      (
        p,
        here,
        (0, []),
        ap child at ∙ found,
        below,
        refl,
        omega arith,
        sym (append-nil (here.1)) ∙ (ap (λ t. here.1 ++ t) no_rows ∙ split),
      )
  subtrees-last tree child (suc left) i pages rows e =
      let (p, here, others, found, below, more, sum, split) =
        subtrees-suc tree child i (suc left) pages rows e in
      let (q, last, before, found', below', more', sum', split') =
        subtrees-last tree child left (i + 1) (others.0) (others.1) more in
      let at : i + suc left ≡ i + 1 + left = omega arith in
      (
        q,
        last,
        (here.0 + before.0, here.1 ++ before.1),
        ap child at ∙ found',
        below',
        rw (found, below, more') refl,
        omega arith,
        append_assoc (here.1) (before.1) (last.1) ∙ (ap (λ t. here.1 ++ t) split' ∙ split),
      )

module _ {V : Type 0} (source : ℕ → Result V (List ℕ)) where
  -- The rounds of `advance_rev`, by the frame on top.
  pub back_leaf_end :
      (c : TableCursor) (f : Frame) (rest : List Frame)
      → f.is_interior ≡ false
      → f.next_cell ≡ 0
      → advance_rev_top source c f rest ≡ go_on (record c { stack = rest })
  unfolding advance_rev_top
  back_leaf_end c f rest leaf ends = rw (leaf, ends) refl

  pub back_leaf_row :
      (c : TableCursor) (f : Frame) (rest : List Frame) (k : ℕ) (cell : ℤ × ℕ × ℕ)
      → f.is_interior ≡ false
      → f.next_cell ≡ suc k
      → leaf_cell {V = V} f k ≡ ok cell
      → advance_rev_top source c f rest
        ≡ settle (record c { stack = record f { next_cell = k } ∷ rest }) f (ok cell)
  unfolding advance_rev_top decode_leaf_cell settle leaf_cell
  back_leaf_row c f rest k cell leaf more found =
      let some_left : (f.next_cell == 0) ≡ false = ground arith in
      let at : f.next_cell - 1 ≡ k = omega arith in rw (leaf, some_left, at, found) refl

  pub back_rightmost :
      (c : TableCursor) (f : Frame) (rest : List Frame)
      → f.is_interior ≡ true
      → f.rightmost_done ≡ false
      → advance_rev_top source c f rest
        ≡ push_page source
            (record c { stack = record f { rightmost_done = true } ∷ rest })
            true
            (f.rightmost)
  unfolding advance_rev_top
  back_rightmost c f rest interior undone = rw (interior, undone) refl

  pub back_child :
      (c : TableCursor) (f : Frame) (rest : List Frame) (k child : ℕ)
      → f.is_interior ≡ true
      → f.rightmost_done ≡ true
      → f.next_cell ≡ suc k
      → read_interior_child {V = V} f k ≡ ok child
      → advance_rev_top source c f rest
        ≡ push_page source (record c { stack = record f { next_cell = k } ∷ rest }) true child
  unfolding advance_rev_top descend read_interior_child push_page
  back_child c f rest k child interior done more found =
      let some_left : ltb 0 (f.next_cell) ≡ true = ground arith in
      let at : f.next_cell - 1 ≡ k = omega arith in rw (interior, done, some_left, at, found) refl

  pub back_end :
      (c : TableCursor) (f : Frame) (rest : List Frame)
      → f.is_interior ≡ true
      → f.rightmost_done ≡ true
      → f.next_cell ≡ 0
      → advance_rev_top source c f rest ≡ go_on (record c { stack = rest })
  unfolding advance_rev_top
  back_end c f rest interior done ends = rw (interior, done, ends) refl
