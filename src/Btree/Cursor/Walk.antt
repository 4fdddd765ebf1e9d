-- ===== src/Btree/Cursor/Walk.antt =====
-- src/btree.rs: the walk of a tree by recursion on its depth, and the rounds of a cursor as a
-- relation that keeps the rows they return.
use sqlite_rs.Prelude.{
  ℕ, zero, suc, ◌+◌, ◌≡◌, refl, sym, ap, ◌∙◌, if◌then◌else◌, Bool, true, false, List, [], ◌∷◌, ◌++◌,
  some,
}
use sqlite_rs.Prelude.Outcome.{Result, ok, err, ◌>>=◌, >>=-eq-ok}
use sqlite_rs.Prelude.Int.{ℤ}
use sqlite_rs.Btree.Error.{BtreeError, traversal_too_long}
use sqlite_rs.Btree.Page.{fetch}
use sqlite_rs.Btree.Cursor.{
  Frame, TableCursor, Round, go_on, returns, frame_of, read_interior_child, leaf_cell, round,
}

pub if_true : {A : Type 0} (b : Bool) → b ≡ true → (x y : A) → x ≡ (if b then x else y)
if_true b e x y = rw e refl

pub if_false : {A : Type 0} (b : Bool) → b ≡ false → (x y : A) → y ≡ (if b then x else y)
if_false b e x y = rw e refl

module _ {V : Type 0} where
  -- The rowids of cells `i` to `i + left - 1`.
  unfoldable pub rows_from :
      (ℕ → Result (BtreeError V) (ℤ × ℕ × ℕ)) → ℕ → ℕ → Result (BtreeError V) (List ℤ)
  rows_from cell i zero = ok []
  rows_from cell i (suc left) = do
    head ← cell i
    rest ← rows_from cell (i + 1) left
    ok (head.0 ∷ rest)

  -- The pages and the rows below children `i` to `i + left - 1`.
  unfoldable pub subtrees :
      (ℕ → Result (BtreeError V) (ℕ × List ℤ))
      → (ℕ → Result (BtreeError V) ℕ)
      → ℕ
      → ℕ
      → Result (BtreeError V) (ℕ × List ℤ)
  subtrees tree child i zero = ok (0, [])
  subtrees tree child i (suc left) = do
    page_num ← child i
    here ← tree page_num
    rest ← subtrees tree child (i + 1) left
    ok (here.0 + rest.0, here.1 ++ rest.1)

  unfoldable pub interior_rows :
      (ℕ → Result (BtreeError V) (ℕ × List ℤ)) → Frame → Result (BtreeError V) (ℕ × List ℤ)
  interior_rows tree f = do
    left ← subtrees tree (read_interior_child f) 0 (f.num_cells)
    right ← tree (f.rightmost)
    ok (left.0 + right.0 + 1, left.1 ++ right.1)

  unfoldable pub leaf_rows : Frame → Result (BtreeError V) (ℕ × List ℤ)
  leaf_rows f = do rows ← rows_from (leaf_cell f) 0 (f.num_cells); ok (1, rows)

  -- The rows below a page, given the walk of its children.
  unfoldable pub rows_below :
      (ℕ → Result (BtreeError V) (ℕ × List ℤ)) → Frame → Result (BtreeError V) (ℕ × List ℤ)
  rows_below tree f = if f.is_interior then interior_rows tree f else leaf_rows f

  -- The number of pages of the tree below `page_num` and its rows in order; a tree deeper than
  -- `depth` levels is refused.
  unfoldable pub in_order : (ℕ → Result V (List ℕ)) → ℕ → ℕ → Result (BtreeError V) (ℕ × List ℤ)
  in_order source zero page_num = err (traversal_too_long 0)
  in_order source (suc depth) page_num =
      fetch source page_num >>= frame_of page_num false >>= rows_below (in_order source depth)

  -- The rounds of a loop from one cursor to another, and the rows that they return.
  pub data Emits (top : TableCursor → Frame → List Frame → Round V)
      : TableCursor → List ℤ → TableCursor → Type 0 where
    stop : {c : TableCursor} → Emits top c [] c
    silent :
        {c c' c'' : TableCursor} {rows : List ℤ}
        → round top c (c.stack) ≡ go_on c'
        → Emits top c' rows c''
        → Emits top c rows c''
    row :
        {c c' c'' : TableCursor} {rowid : ℤ} {rows : List ℤ}
        → round top c (c.stack) ≡ returns c' (ok (some rowid))
        → Emits top c' rows c''
        → Emits top c (rowid ∷ rows) c''

  pub Emits-append :
      (top : TableCursor → Frame → List Frame → Round V) {c c' c'' : TableCursor} {xs ys : List ℤ}
      → Emits top c xs c'
      → Emits top c' ys c''
      → Emits top c (xs ++ ys) c''
  Emits-append top stop q = q
  Emits-append top (silent e p) q = silent e (Emits-append top p q)
  Emits-append top (row e p) q = row e (Emits-append top p q)

  -- The loop comes back to the stack `rest`, with `pages` more pages visited.
  abbrev pub Leads :
      (TableCursor → Frame → List Frame → Round V) → TableCursor → List ℤ → List Frame → ℕ → Type 0
  Leads top c rows rest visits =
      (c' : TableCursor) × Emits top c rows c' × (c'.stack ≡ rest) × (c'.pages_visited ≡ visits)

  pub Leads-append :
      (top : TableCursor → Frame → List Frame → Round V) (c c' : TableCursor) (xs ys : List ℤ)
      (rest : List Frame) (visits : ℕ)
      → Emits top c xs c'
      → Leads top c' ys rest visits
      → Leads top c (xs ++ ys) rest visits
  Leads-append top c c' xs ys rest visits p (c'', q, back, count) =
      (c'', Emits-append top p q, back, count)

  pub rows_from-suc :
      (read : ℕ → Result (BtreeError V) (ℤ × ℕ × ℕ)) (i left : ℕ) (rows : List ℤ)
      → rows_from read i (suc left) ≡ ok rows
      → (cell : ℤ × ℕ × ℕ) × (rest : List ℤ) × (read i ≡ ok cell)
        × (rows_from read (i + 1) left ≡ ok rest)
        × (cell.0 ∷ rest ≡ rows)
  unfolding rows_from
  rows_from-suc read i left rows e =
      let (cell, found, e') =
        >>=-eq-ok (read i) (λ head. rows_from read (i + 1) left >>= (λ rest. ok (head.0 ∷ rest)))
          e in
      let (rest, found', e'') =
        >>=-eq-ok (rows_from read (i + 1) left) (λ rest. ok (cell.0 ∷ rest)) e' in
      (cell, rest, found, found', cc)

  pub subtrees-suc :
      (tree : ℕ → Result (BtreeError V) (ℕ × List ℤ)) (child : ℕ → Result (BtreeError V) ℕ)
      (i left pages : ℕ) (rows : List ℤ)
      → subtrees tree child i (suc left) ≡ ok (pages, rows)
      → (p : ℕ) × (here others : ℕ × List ℤ) × (child i ≡ ok p)
        × (tree p ≡ ok here)
        × (subtrees tree child (i + 1) left ≡ ok others)
        × (here.0 + others.0 ≡ pages)
        × (here.1 ++ others.1 ≡ rows)
  unfolding subtrees
  subtrees-suc tree child i left pages rows e =
      let after = λ (here : ℕ × List ℤ).
        subtrees tree child (i + 1) left
        >>= (λ (rest : ℕ × List ℤ). ok (here.0 + rest.0, here.1 ++ rest.1)) in
      let (p, e1, r1) = >>=-eq-ok (child i) (λ p. tree p >>= after) e in
      let (here, e2, r2) = >>=-eq-ok (tree p) after r1 in
      let (others, e3, r3) =
        >>=-eq-ok (subtrees tree child (i + 1) left)
          (λ rest. ok (here.0 + rest.0, here.1 ++ rest.1)) r2 in
      (p, here, others, e1, e2, e3, cc, cc)

  pub interior_rows-ok :
      (tree : ℕ → Result (BtreeError V) (ℕ × List ℤ)) (f : Frame) (pages : ℕ) (rows : List ℤ)
      → interior_rows tree f ≡ ok (pages, rows)
      → (left right : ℕ × List ℤ) × (subtrees tree (read_interior_child f) 0 (f.num_cells)
          ≡ ok left)
        × (tree (f.rightmost) ≡ ok right)
        × (left.0 + right.0 + 1 ≡ pages)
        × (left.1 ++ right.1 ≡ rows)
  unfolding interior_rows
  interior_rows-ok tree f pages rows e =
      let after = λ (left : ℕ × List ℤ).
        tree (f.rightmost)
        >>= (λ (right : ℕ × List ℤ). ok (left.0 + right.0 + 1, left.1 ++ right.1)) in
      let (left, e1, r1) =
        >>=-eq-ok (subtrees tree (read_interior_child f) 0 (f.num_cells)) after e in
      let (right, e2, r2) =
        >>=-eq-ok (tree (f.rightmost)) (λ right. ok (left.0 + right.0 + 1, left.1 ++ right.1)) r1 in
      (left, right, e1, e2, cc, cc)

  pub leaf_rows-ok :
      (f : Frame) (pages : ℕ) (rows : List ℤ)
      → leaf_rows f ≡ ok (pages, rows)
      → (rows_from (leaf_cell f) 0 (f.num_cells) ≡ ok rows) × (1 ≡ pages)
  unfolding leaf_rows
  leaf_rows-ok f pages rows e =
      let (found, e1, r1) =
        >>=-eq-ok (rows_from (leaf_cell f) 0 (f.num_cells)) (λ found. ok (1, found)) e in
      (e1 ∙ ap ok (cc r1), cc)

module _ {V : Type 0} (source : ℕ → Result V (List ℕ)) where
  pub in_order-leaf :
      (depth p : ℕ) (page : List ℕ) (f : Frame)
      → fetch source p ≡ ok page
      → frame_of {V = V} p false page ≡ ok f
      → f.is_interior ≡ false
      → in_order source (suc depth) p ≡ leaf_rows f
  unfolding in_order rows_below
  in_order-leaf depth p page f was_read framed kind =
      rw (was_read, framed) (sym (if_false (f.is_interior) kind _ _))

  pub in_order-interior :
      (depth p : ℕ) (page : List ℕ) (f : Frame)
      → fetch source p ≡ ok page
      → frame_of {V = V} p false page ≡ ok f
      → f.is_interior ≡ true
      → in_order source (suc depth) p ≡ interior_rows (in_order source depth) f
  unfolding in_order rows_below
  in_order-interior depth p page f was_read framed kind =
      rw (was_read, framed) (sym (if_true (f.is_interior) kind _ _))
