-- ===== src/Btree/Cursor/Rounds.antt =====
-- src/btree.rs: one round of `advance`, by the frame on top of the stack.
use sqlite_rs.Prelude.{
  ℕ, ◌+◌, ◌^◌, ◌≤◌, ◌<◌, ◌≡◌, refl, ap, arith, leb, ltb, Bool, true, false, List, ◌∷◌,
}
use sqlite_rs.Prelude.Bytes.{saturating_add}
use sqlite_rs.Prelude.Outcome.{Result, ok}
use sqlite_rs.Prelude.Int.{ℤ}
use sqlite_rs.Btree.Page.{max_pages_visited, fetch}
use sqlite_rs.Btree.Cursor.{
  Frame, TableCursor, Round, go_on, frame_of, read_interior_child, leaf_cell, settle,
  decode_leaf_cell, visited, read_page, pushed, push_page, descend, advance_top, round,
}

module _ {V : Type 0} (source : ℕ → Result V (List ℕ)) where
  -- A push that succeeded.
  pub push_page-go_on :
      (c : TableCursor) (reverse : Bool) (p : ℕ) (page : List ℕ) (f : Frame)
      → fetch source p ≡ ok page
      → frame_of {V = V} p reverse page ≡ ok f
      → c.pages_visited < max_pages_visited
      → push_page source c reverse p
        ≡ go_on (record c { stack = f ∷ c.stack; pages_visited = c.pages_visited + 1 })
  unfolding push_page read_page visited pushed
  push_page-go_on c reverse p page f was_read framed within =
      let small : saturating_add (c.pages_visited) 1 ≡ c.pages_visited + 1 = omega arith in
      let under : ltb max_pages_visited (c.pages_visited + 1) ≡ false = ground arith in
      rw (small, under, was_read, framed) refl

  -- The rounds of `advance`, by the frame on top.
  pub round-stack :
      (top : TableCursor → Frame → List Frame → Round V) (c : TableCursor) (f : Frame)
      (rest : List Frame)
      → c.stack ≡ f ∷ rest
      → round top c (c.stack) ≡ top c f rest
  unfolding round
  round-stack top c f rest e = ap (round top c) e

  pub leaf_end :
      (c : TableCursor) (f : Frame) (rest : List Frame)
      → f.is_interior ≡ false
      → f.num_cells ≤ f.next_cell
      → advance_top source c f rest ≡ go_on (record c { stack = rest })
  unfolding advance_top
  leaf_end c f rest leaf ends =
      let over : leb (f.num_cells) (f.next_cell) ≡ true = ground arith in rw (leaf, over) refl

  pub leaf_row :
      (c : TableCursor) (f : Frame) (rest : List Frame) (cell : ℤ × ℕ × ℕ)
      → f.is_interior ≡ false
      → f.next_cell < f.num_cells
      → f.num_cells < 2 ^ 16
      → leaf_cell {V = V} f (f.next_cell) ≡ ok cell
      → advance_top source c f rest
        ≡ settle (record c { stack = record f { next_cell = f.next_cell + 1 } ∷ rest }) f (ok cell)
  unfolding advance_top decode_leaf_cell settle leaf_cell
  leaf_row c f rest cell leaf more small found =
      let under : leb (f.num_cells) (f.next_cell) ≡ false = ground arith in
      let add : saturating_add (f.next_cell) 1 ≡ f.next_cell + 1 = omega arith in
      rw (leaf, under, found, add) refl

  pub interior_child :
      (c : TableCursor) (f : Frame) (rest : List Frame) (child : ℕ)
      → f.is_interior ≡ true
      → f.next_cell < f.num_cells
      → f.num_cells < 2 ^ 16
      → read_interior_child {V = V} f (f.next_cell) ≡ ok child
      → advance_top source c f rest
        ≡ push_page source
            (record c { stack = record f { next_cell = f.next_cell + 1 } ∷ rest })
            false
            child
  unfolding advance_top descend read_interior_child push_page
  interior_child c f rest child interior more small found =
      let under : ltb (f.next_cell) (f.num_cells) ≡ true = ground arith in
      let add : saturating_add (f.next_cell) 1 ≡ f.next_cell + 1 = omega arith in
      rw (interior, under, found, add) refl

  pub interior_rightmost :
      (c : TableCursor) (f : Frame) (rest : List Frame)
      → f.is_interior ≡ true
      → f.num_cells ≤ f.next_cell
      → f.rightmost_done ≡ false
      → advance_top source c f rest
        ≡ push_page source
            (record c { stack = record f { rightmost_done = true } ∷ rest })
            false
            (f.rightmost)
  unfolding advance_top
  interior_rightmost c f rest interior ends undone =
      let over : ltb (f.next_cell) (f.num_cells) ≡ false = ground arith in
      rw (interior, over, undone) refl

  pub interior_end :
      (c : TableCursor) (f : Frame) (rest : List Frame)
      → f.is_interior ≡ true
      → f.num_cells ≤ f.next_cell
      → f.rightmost_done ≡ true
      → advance_top source c f rest ≡ go_on (record c { stack = rest })
  unfolding advance_top
  interior_end c f rest interior ends done =
      let over : ltb (f.next_cell) (f.num_cells) ≡ false = ground arith in
      rw (interior, over, done) refl
