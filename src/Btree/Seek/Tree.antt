-- ===== src/Btree/Seek/Tree.antt =====
-- src/btree.rs: search trees, which `seek` and the scan read: the rows of a subtree lie between the
-- keys around its page number.
use sqlite_rs.Prelude.{
  ℕ, zero, suc, ◌+◌, ◌≤◌, ◌<◌, ◌≡◌, refl, ◌∙◌, arith, true, false, ◌⊎◌, List, [], ◌∷◌, ◌++◌,
}
use sqlite_rs.Prelude.Outcome.{Result, ok}
use sqlite_rs.Prelude.Int.{ℤ, ◌≤ℤ◌}
use sqlite_rs.Btree.Error.{BtreeError}
use sqlite_rs.Btree.Page.{fetch, read_u32}
use sqlite_rs.Btree.Cursor.{Frame, frame_of, leaf_cell, read_interior_child}
use sqlite_rs.Btree.Cursor.Walk.{
  rows_from, subtrees, interior_rows, leaf_rows, in_order, in_order-leaf, in_order-interior,
}
use sqlite_rs.Btree.Seek.{interior_key_at}
use sqlite_rs.Btree.Seek.Search.{◌<ℤ◌}
use sqlite_rs.Btree.Seek.Frames.{read_interior_child-at}

-- The values of `g` at `i` to `i + left - 1`, their concatenation, and their sum.
unfoldable pub tabulate : {A : Type 0} → (ℕ → A) → ℕ → ℕ → List A
tabulate g i zero = []
tabulate g i (suc left) = g i ∷ tabulate g (i + 1) left

unfoldable pub concat_from : {A : Type 0} → (ℕ → List A) → ℕ → ℕ → List A
concat_from g i zero = []
concat_from g i (suc left) = g i ++ concat_from g (i + 1) left

unfoldable pub sum_from : (ℕ → ℕ) → ℕ → ℕ → ℕ
sum_from g i zero = 0
sum_from g i (suc left) = g i + sum_from g (i + 1) left

abbrev pub IsRow : ℤ → List ℤ → Type 0
IsRow rowid [] = ⊥
IsRow rowid (r ∷ rows) = (r ≡ rowid) ⊎ IsRow rowid rows

-- A search tree by depth: its root page, the number of its pages, and its rows in order.
pub data SearchTree {V : Type 0} (source : ℕ → Result V (List ℕ))
    : ℕ → ℕ → ℕ → List ℤ → Type 0 where
  leaf :
      {depth p : ℕ} (page : List ℕ) (f : Frame) (head : ℕ → ℤ × ℕ × ℕ)
      → fetch source p ≡ ok page
      → frame_of {V = V} p false page ≡ ok f
      → f.is_interior ≡ false
      → ((i : ℕ) → i < f.num_cells → leaf_cell {V = V} f i ≡ ok (head i))
      → ((i j : ℕ) → i < j → j < f.num_cells → (head i).0 <ℤ (head j).0)
      → SearchTree source (suc depth) p 1 (tabulate (λ i. (head i).0) 0 (f.num_cells))
  node :
      {depth p : ℕ} (page : List ℕ) (f : Frame) (key : ℕ → ℤ) (start page_at pages_at : ℕ → ℕ)
      (rows_at : ℕ → List ℤ)
      → fetch source p ≡ ok page
      → frame_of {V = V} p false page ≡ ok f
      → f.is_interior ≡ true
      → ((i : ℕ)
          → i < f.num_cells
          → interior_key_at {V = V} page p (f.cell_ptr_base) i ≡ ok (key i, start i))
      → ((i : ℕ) → i < f.num_cells → read_u32 {V = V} page (start i) p ≡ ok (page_at i))
      → page_at (f.num_cells) ≡ f.rightmost
      → ((i j : ℕ) → i ≤ j → j < f.num_cells → key i ≤ℤ key j)
      → ((i : ℕ) → i ≤ f.num_cells → SearchTree source depth (page_at i) (pages_at i) (rows_at i))
      → ((i : ℕ) → i < f.num_cells → (t : ℤ) → IsRow t (rows_at i) → t ≤ℤ key i)
      → ((i : ℕ) → i < f.num_cells → (t : ℤ) → IsRow t (rows_at (i + 1)) → key i <ℤ t)
      → SearchTree source
          (suc depth)
          p
          (sum_from pages_at 0 (f.num_cells) + pages_at (f.num_cells) + 1)
          (concat_from rows_at 0 (f.num_cells) ++ rows_at (f.num_cells))

module _ {V : Type 0} where
  rows_from-tabulate :
      (cell : ℕ → Result (BtreeError V) (ℤ × ℕ × ℕ)) (head : ℕ → ℤ × ℕ × ℕ) (n left i : ℕ)
      → ((j : ℕ) → j < n → cell j ≡ ok (head j))
      → i + left ≡ n
      → rows_from cell i left ≡ ok (tabulate (λ j. (head j).0) i left)
  unfolding rows_from tabulate
  rows_from-tabulate cell head n zero i reads ends = refl
  rows_from-tabulate cell head n (suc left) i reads ends =
      rw
        (
          rows_from,
          reads i (omega arith),
          rows_from-tabulate cell head n left (i + 1) reads (omega arith),
        )
        refl

  subtrees-concat :
      (tree : ℕ → Result (BtreeError V) (ℕ × List ℤ)) (child : ℕ → Result (BtreeError V) ℕ)
      (page_at pages_at : ℕ → ℕ) (rows_at : ℕ → List ℤ) (n left i : ℕ)
      → ((j : ℕ) → j < n → child j ≡ ok (page_at j))
      → ((j : ℕ) → j < n → tree (page_at j) ≡ ok (pages_at j, rows_at j))
      → i + left ≡ n
      → subtrees tree child i left ≡ ok (sum_from pages_at i left, concat_from rows_at i left)
  unfolding subtrees sum_from concat_from
  subtrees-concat tree child page_at pages_at rows_at n zero i reads walks ends = refl
  subtrees-concat tree child page_at pages_at rows_at n (suc left) i reads walks ends =
      rw
        (
          subtrees,
          reads i (omega arith),
          walks i (omega arith),
          subtrees-concat tree child page_at pages_at rows_at n left (i + 1) reads walks
              (omega arith),
        )
        refl

-- The walk of a search tree finds its rows.
pub SearchTree-in_order :
    {V : Type 0} (source : ℕ → Result V (List ℕ)) {depth p pages : ℕ} {rows : List ℤ}
    → SearchTree source depth p pages rows
    → in_order source depth p ≡ ok (pages, rows)
unfolding leaf_rows tabulate interior_rows sum_from concat_from
SearchTree-in_order source (leaf {depth} {p} page f head was_read framed kind reads up) =
    in_order-leaf source depth p page f was_read framed kind
    ∙ rw
        (
          leaf_rows,
          rows_from-tabulate (leaf_cell f) head (f.num_cells) (f.num_cells) 0 reads (omega arith),
        )
        refl
SearchTree-in_order source
      (node {depth} {p} page f key start page_at pages_at rows_at was_read framed kind keys children
        last up trees under over) =
    let walk = λ (i : ℕ) (h : i ≤ f.num_cells). SearchTree-in_order source (trees i h) in
    in_order-interior source depth p page f was_read framed kind
    ∙ rw
        (
          interior_rows,
          subtrees-concat (in_order source depth) (read_interior_child f) page_at pages_at rows_at
              (f.num_cells) (f.num_cells) 0
              (λ i h.
                read_interior_child-at p page f i (start i) (page_at i) (key i) framed kind
                  (keys i h) (children i h))
              (λ i h. walk i (omega arith)) (omega arith),
          ← last,
          walk (f.num_cells) (omega arith),
        )
        refl
