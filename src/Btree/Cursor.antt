-- ===== src/Btree/Cursor.antt =====
-- src/btree.rs: the cursor over a table b-tree. The stack is a list whose head is the top frame; the
-- page source is a parameter, and a method gives back the cursor it leaves next to its result.
pub mod Work
pub mod Ends
pub mod Walk
pub mod Rounds
pub mod Visits
pub mod Scan
pub mod Back
pub mod BackVisits
pub mod BackTree
pub mod BackScan
use sqlite_rs.Prelude.{
  ℕ, zero, suc, ◌+◌, ◌-◌, ◌*◌, ◌==◌, ltb, leb, not, if◌then◌else◌, Bool, true, false, List, [], ◌∷◌,
  Option, none, some,
}
use sqlite_rs.Prelude.Bytes.{saturating_add}
use sqlite_rs.Prelude.Outcome.{Result, ok, err, ok_or, ◌>>=◌, ◌>>◌}
use sqlite_rs.Prelude.Int.{ℤ}
use sqlite_rs.Btree.Error.{
  BtreeError, cursor_not_positioned, prev_call, unexpected_page_type, traversal_too_long,
}
use sqlite_rs.Btree.Page.{
  leaf_table, interior_table, max_pages_visited, page1_header_start, cell_ptr_offset,
  read_page_type, read_num_cells, require_interior_header, read_u32, read_cell_pointer,
  decode_cell_head, fetch,
}

pub record Frame : Type 0 where
  pub page_num : ℕ
  pub is_interior : Bool
  pub num_cells : ℕ
  pub cell_ptr_base : ℕ
  pub next_cell : ℕ
  pub rightmost : ℕ
  pub rightmost_done : Bool
  pub page : List ℕ

pub record CurrentCell : Type 0 where
  pub page : List ℕ
  pub page_num : ℕ
  pub tail_start : ℕ
  pub payload_len : ℕ

-- The page source is kept apart.
pub record TableCursor : Type 0 where
  pub usable_size : ℕ
  pub root_page : ℕ
  pub stack : List Frame
  pub pages_visited : ℕ
  pub positioned_reverse : Bool
  pub current : Option CurrentCell

unfoldable pub new : ℕ → ℕ → TableCursor
new usable_size root_page = record {
  usable_size = usable_size;
  root_page = root_page;
  stack = [];
  pages_visited = 0;
  positioned_reverse = false;
  current = none;
}

-- `match page_type` of `push_page`: whether the page is an interior one.
unfoldable pub interior_test : {V : Type 0} → ℕ → ℕ → Result (BtreeError V) Bool
interior_test page_type page_num =
    if page_type == leaf_table
    then ok false
    else if page_type == interior_table
    then ok true
    else err (unexpected_page_type page_num page_type)

-- One round of a cursor's loop: the next round, or the method's return.
pub data Round (V : Type 0) : Type 0 where
  go_on : TableCursor → Round V
  returns : TableCursor → Result (BtreeError V) (Option ℤ) → Round V

-- A page is pushed at most a million times, and a frame is on top of the stack for at most 65,537
-- rounds.
abbrev pub loop_fuel : ℕ
loop_fuel = max_pages_visited * 65538 + 1

-- `read_page` is `visited` and then the read.
unfoldable pub visited : TableCursor → TableCursor
visited c = record c { pages_visited = saturating_add (c.pages_visited) 1 }

module _ {V : Type 0} where
  -- What `push_page` makes of the page it read.
  unfoldable pub leaf_frame : ℕ → Bool → List ℕ → Result (BtreeError V) Frame
  leaf_frame page_num reverse page = do
    cells ← read_num_cells page (page1_header_start page_num) page_num
    ok (record {
      page_num = page_num;
      is_interior = false;
      num_cells = cells;
      cell_ptr_base = saturating_add (page1_header_start page_num) 8;
      next_cell = if reverse then cells else 0;
      rightmost = 0;
      rightmost_done = true;
      page = page;
    })

  unfoldable pub interior_frame : ℕ → Bool → List ℕ → Result (BtreeError V) Frame
  interior_frame page_num reverse page = do
    enough ← require_interior_header page (page1_header_start page_num) page_num
    cells ← read_num_cells page (page1_header_start page_num) page_num
    last ← read_u32 page (saturating_add (page1_header_start page_num) 8) page_num
    ok (record {
      page_num = page_num;
      is_interior = true;
      num_cells = cells;
      cell_ptr_base = saturating_add (page1_header_start page_num) 12;
      next_cell = if reverse then cells else 0;
      rightmost = last;
      rightmost_done = false;
      page = page;
    })

  unfoldable pub frame_of : ℕ → Bool → List ℕ → Result (BtreeError V) Frame
  frame_of page_num reverse page = do
    page_type ← read_page_type page (page1_header_start page_num) page_num
    is_interior ← interior_test page_type page_num
    if is_interior then interior_frame page_num reverse page else leaf_frame page_num reverse page

  unfoldable pub read_interior_child : Frame → ℕ → Result (BtreeError V) ℕ
  read_interior_child frame cell_index = do
    cell_start ←
        read_cell_pointer (frame.page) (cell_ptr_offset (frame.cell_ptr_base) cell_index)
          (frame.page_num) cell_index
    read_u32 (frame.page) cell_start (frame.page_num)

  unfoldable pub leaf_cell : Frame → ℕ → Result (BtreeError V) (ℤ × ℕ × ℕ)
  leaf_cell frame cell_index = do
    cell_start ←
        read_cell_pointer (frame.page) (cell_ptr_offset (frame.cell_ptr_base) cell_index)
          (frame.page_num) cell_index
    decode_cell_head (frame.page) cell_start (frame.page_num)

  -- The cell becomes the current one.
  unfoldable pub settle : TableCursor → Frame → Result (BtreeError V) (ℤ × ℕ × ℕ) → Round V
  settle c frame (err e) = returns c (err e)
  settle c frame (ok (rowid, payload_len, tail_start)) =
      returns
        (record c {
          current = some (record {
            page = frame.page;
            page_num = frame.page_num;
            tail_start = tail_start;
            payload_len = payload_len;
          });
        })
        (ok (some rowid))

  unfoldable pub decode_leaf_cell : TableCursor → Frame → ℕ → Round V
  decode_leaf_cell c frame cell_index = settle c frame (leaf_cell frame cell_index)

  -- A frame for the stack, or the error that ends the method.
  unfoldable pub pushed : TableCursor → Result (BtreeError V) Frame → Round V
  pushed c (err e) = returns c (err e)
  pushed c (ok frame) = go_on (record c { stack = frame ∷ c.stack })

  -- A round of either loop: an empty stack is the end.
  unfoldable pub round :
      (TableCursor → Frame → List Frame → Round V) → TableCursor → List Frame → Round V
  round top c [] = returns (record c { current = none }) (ok none)
  round top c (f ∷ rest) = top c f rest

  -- `loop`, on fuel.
  unfoldable pub run_loop :
      (TableCursor → Frame → List Frame → Round V)
      → ℕ
      → TableCursor
      → Option (TableCursor × Result (BtreeError V) (Option ℤ))
  run_loop top zero c = none
  run_loop top (suc fuel) c = elim (round top c (c.stack)) [
    | returns c' r ↦ some (c', r)
    | go_on c' ↦ run_loop top fuel c'
  ]

  -- `self.push_page(self.root_page, reverse)?` and the loop behind it.
  unfoldable pub after_push :
      (TableCursor → Frame → List Frame → Round V)
      → Round V
      → Option (TableCursor × Result (BtreeError V) (Option ℤ))
  after_push top (returns c r) = some (c, r)
  after_push top (go_on c) = run_loop top loop_fuel c

module _ {V : Type 0} (source : ℕ → Result V (List ℕ)) where
  unfoldable pub read_page : TableCursor → ℕ → Result (BtreeError V) (List ℕ)
  read_page c page_num =
      if ltb max_pages_visited (saturating_add (c.pages_visited) 1)
      then err (traversal_too_long max_pages_visited)
      else fetch source page_num

  unfoldable pub push_page : TableCursor → Bool → ℕ → Round V
  push_page c reverse page_num =
      pushed (visited c) (read_page c page_num >>= frame_of page_num reverse)

  unfoldable pub descend : TableCursor → Bool → Result (BtreeError V) ℕ → Round V
  descend c reverse (err e) = returns c (err e)
  descend c reverse (ok child) = push_page c reverse child

  -- One round of `advance` with the frame `f` on top of `rest`.
  unfoldable pub advance_top : TableCursor → Frame → List Frame → Round V
  advance_top c f rest =
      let stepped = record f { next_cell = saturating_add (f.next_cell) 1 } in
      let done = record f { rightmost_done = true } in
      if not (f.is_interior)
      then (if leb (f.num_cells) (f.next_cell)
          then go_on (record c { stack = rest })
          else decode_leaf_cell (record c { stack = stepped ∷ rest }) f (f.next_cell))
      else if ltb (f.next_cell) (f.num_cells)
      then descend (record c { stack = stepped ∷ rest }) false (read_interior_child f (f.next_cell))
      else if not (f.rightmost_done)
      then push_page (record c { stack = done ∷ rest }) false (f.rightmost)
      else go_on (record c { stack = rest })

  -- One round of `advance_rev`.
  unfoldable pub advance_rev_top : TableCursor → Frame → List Frame → Round V
  advance_rev_top c f rest =
      let idx = f.next_cell - 1 in
      let stepped = record f { next_cell = idx } in
      let done = record f { rightmost_done = true } in
      if not (f.is_interior)
      then (if f.next_cell == 0
          then go_on (record c { stack = rest })
          else decode_leaf_cell (record c { stack = stepped ∷ rest }) f idx)
      else if not (f.rightmost_done)
      then push_page (record c { stack = done ∷ rest }) true (f.rightmost)
      else if ltb 0 (f.next_cell)
      then descend (record c { stack = stepped ∷ rest }) true (read_interior_child f idx)
      else go_on (record c { stack = rest })

  unfoldable pub advance : TableCursor → Option (TableCursor × Result (BtreeError V) (Option ℤ))
  advance c = run_loop advance_top loop_fuel c

  unfoldable pub advance_rev : TableCursor → Option (TableCursor × Result (BtreeError V) (Option ℤ))
  advance_rev c = run_loop advance_rev_top loop_fuel c

  unfoldable pub first : TableCursor → Option (TableCursor × Result (BtreeError V) (Option ℤ))
  first c = after_push advance_top (
      push_page (record c { stack = []; pages_visited = 0; positioned_reverse = false }) false
        (c.root_page))

  unfoldable pub next : TableCursor → Option (TableCursor × Result (BtreeError V) (Option ℤ))
  next c = advance c

  unfoldable pub last : TableCursor → Option (TableCursor × Result (BtreeError V) (Option ℤ))
  last c = after_push advance_rev_top (
      push_page (record c { stack = []; pages_visited = 0; positioned_reverse = true }) true
        (c.root_page))

  unfoldable pub prev : TableCursor → Option (TableCursor × Result (BtreeError V) (Option ℤ))
  prev c =
      if not (c.positioned_reverse)
      then some (c, err (cursor_not_positioned prev_call))
      else advance_rev c
