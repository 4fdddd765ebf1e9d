-- ===== src/Btree/Cursor/Visits.antt =====
-- src/btree.rs: the rounds of the forward cursor visit the rows of a tree in order.
use mathlib.Core.List.{append-nil}
use sqlite_rs.Prelude.{
  ℕ, zero, suc, ◌+◌, ◌^◌, ◌≤◌, ◌<◌, ◌≡◌, refl, sym, ap, subst, ◌∙◌, arith, not, true, false,
  Bool-cases, inl, inr, List, [], ◌∷◌, ◌++◌, some,
}
use sqlite_rs.Prelude.Outcome.{Result, ok, ◌>>=◌, >>=-eq-ok}
use sqlite_rs.Prelude.Int.{ℤ}
use sqlite_rs.Btree.Error.{BtreeError}
use sqlite_rs.Btree.Page.{max_pages_visited, fetch}
use sqlite_rs.Btree.Cursor.{
  Frame, TableCursor, go_on, interior_frame, leaf_frame, frame_of, read_interior_child, leaf_cell,
  settle, push_page, advance_top,
}
use sqlite_rs.Btree.Cursor.Work.{frame_of-work}
use sqlite_rs.Btree.Cursor.Walk.{
  rows_from, subtrees, interior_rows, rows_below, in_order, Emits, stop, silent, row, Emits-append,
  Leads, rows_from-suc, subtrees-suc, interior_rows-ok, leaf_rows-ok, if_true, if_false,
}
use sqlite_rs.Btree.Cursor.Rounds.{
  push_page-go_on, round-stack, leaf_end, leaf_row, interior_child, interior_rightmost,
  interior_end,
}

module _ {V : Type 0} (source : ℕ → Result V (List ℕ)) where
  -- What is left of a leaf is returned row by row.
  leaf-Leads :
      (left i : ℕ) (read : ℕ → Result (BtreeError V) (ℤ × ℕ × ℕ)) (rows : List ℤ)
      → rows_from read i left ≡ ok rows
      → (c : TableCursor) (f : Frame) (rest : List Frame) → c.stack ≡ f ∷ rest
      → leaf_cell f ≡ read
      → f.is_interior ≡ false
      → f.next_cell ≡ i
      → i + left ≡ f.num_cells
      → f.num_cells < 2 ^ 16
      → Leads (advance_top source) c rows rest (c.pages_visited)
  unfolding rows_from settle leaf_cell
  leaf-Leads zero i read rows e c f rest top same leaf at_i ends small =
      let none_left : [] ≡ rows = cc in
      let over : f.num_cells ≤ f.next_cell = omega arith in
      (
        record c { stack = rest },
        subst (λ rows. Emits (advance_top source) c rows (record c { stack = rest })) none_left
            (silent
              (round-stack source (advance_top source) c f rest top
                ∙ leaf_end source c f rest leaf over)
              stop),
        refl,
        refl,
      )
  leaf-Leads (suc left) i read rows e c f rest top same leaf at_i ends small =
      let (cell, others, found, found', split) = rows_from-suc read i left rows e in
      let here : leaf_cell {V = V} f (f.next_cell) ≡ ok cell =
        ap (leaf_cell f) at_i ∙ (ap (λ t. t i) same ∙ found) in
      let f' = record f { next_cell = f.next_cell + 1 } in
      let c' = record c {
        stack = f' ∷ rest;
        current = some (record {
          page = f.page;
          page_num = f.page_num;
          tail_start = cell.2;
          payload_len = cell.1;
        });
      } in
      let (c'', p, back, count) =
        leaf-Leads left (i + 1) read others found' c' f' rest refl same leaf (omega arith)
          (omega arith) small in
      let this =
        round-stack source (advance_top source) c f rest top
        ∙ leaf_row source c f rest cell leaf (omega arith) small here in
      (c'', subst (λ rows. Emits (advance_top source) c rows c'') split (row this p), back, count)

  -- A page that is pushed is followed by its rows.
  abbrev Visits : ℕ → ℕ → List ℤ → Type 0
  Visits page_num pages rows =
      (c : TableCursor)
      → c.pages_visited + pages ≤ max_pages_visited
      → (c' : TableCursor) × (push_page source c false page_num ≡ go_on c')
        × Leads (advance_top source) c' rows (c.stack) (c.pages_visited + pages)

  -- A pushed page below a frame on top.
  descend-Leads :
      (c c' : TableCursor) (f : Frame) (rest : List Frame) (p pages : ℕ) (rows : List ℤ)
      → c.stack ≡ f ∷ rest
      → advance_top source c f rest ≡ push_page source c' false p
      → Visits p pages rows
      → c'.pages_visited + pages ≤ max_pages_visited
      → Leads (advance_top source) c rows (c'.stack) (c'.pages_visited + pages)
  descend-Leads c c' f rest p pages rows top same visits within =
      let (c1, went, (c2, emits, back, count)) = visits c' within in
      (
        c2,
        silent (round-stack source (advance_top source) c f rest top ∙ (same ∙ went)) emits,
        back,
        count,
      )

  -- The children that are left of an interior page are walked in order.
  children-Leads :
      (tree : ℕ → Result (BtreeError V) (ℕ × List ℤ))
      → ((p pages : ℕ) (rows : List ℤ) → tree p ≡ ok (pages, rows) → Visits p pages rows)
      → (left i : ℕ) (child : ℕ → Result (BtreeError V) ℕ) (pages : ℕ) (rows : List ℤ)
      → subtrees tree child i left ≡ ok (pages, rows)
      → (c : TableCursor) (f : Frame) (rest : List Frame) → c.stack ≡ f ∷ rest
      → read_interior_child f ≡ child
      → f.is_interior ≡ true
      → f.next_cell ≡ i
      → i + left ≡ f.num_cells
      → f.num_cells < 2 ^ 16
      → c.pages_visited + pages ≤ max_pages_visited
      → Leads
          (advance_top source)
          c
          rows
          (record f { next_cell = f.num_cells } ∷ rest)
          (c.pages_visited + pages)
  unfolding subtrees read_interior_child
  children-Leads tree visit zero i child pages rows e c f rest top same interior at_i ends small
        within =
      let none_left : [] ≡ rows = cc in
      let none_read : 0 ≡ pages = cc in
      let over : f ≡ record f { next_cell = f.num_cells } =
        ap (λ n. record f { next_cell = n }) (omega arith) in
      (
        c,
        subst (λ rows. Emits (advance_top source) c rows c) none_left stop,
        top ∙ ap (λ g. g ∷ rest) over,
        omega arith,
      )
  children-Leads tree visit (suc left) i child pages rows e c f rest top same interior at_i ends
        small within =
      let (p, here, others, found, below, found', sum, split) =
        subtrees-suc tree child i left pages rows e in
      let at : read_interior_child {V = V} f (f.next_cell) ≡ ok p =
        ap (read_interior_child f) at_i ∙ (ap (λ t. t i) same ∙ found) in
      let f' = record f { next_cell = f.next_cell + 1 } in
      let c' = record c { stack = f' ∷ rest } in
      let (c1, emits, back, count) =
        descend-Leads c c' f rest p (here.0) (here.1) top
          (interior_child source c f rest p interior (omega arith) small at)
          (visit p (here.0) (here.1) below) (omega arith) in
      let (c2, emits', back', count') =
        children-Leads tree visit left (i + 1) child (others.0) (others.1) found' c1 f' rest back
          same interior (omega arith) (omega arith) small (omega arith) in
      let all : pages ≡ here.0 + others.0 = sym sum in
      (
        c2,
        subst (λ rows. Emits (advance_top source) c rows c2) split
            (Emits-append (advance_top source) emits emits'),
        back',
        omega arith,
      )

  -- The rows below an interior page whose frame was just pushed.
  interior-Leads :
      (tree : ℕ → Result (BtreeError V) (ℕ × List ℤ))
      → ((p pages : ℕ) (rows : List ℤ) → tree p ≡ ok (pages, rows) → Visits p pages rows)
      → (c : TableCursor) (f : Frame) (rest : List Frame) (pages : ℕ) (rows : List ℤ)
      → c.stack ≡ f ∷ rest
      → f.next_cell ≡ 0
      → f.is_interior ≡ true
      → f.rightmost_done ≡ false
      → f.num_cells < 2 ^ 16
      → interior_rows tree f ≡ ok (pages, rows)
      → (visits : ℕ) → visits ≤ max_pages_visited
      → c.pages_visited + pages ≡ visits + 1
      → Leads (advance_top source) c rows rest visits
  interior-Leads tree visit c f rest pages rows top start interior undone small e visits within
        count =
      let (left, right, e1, e2, sum, split) = interior_rows-ok tree f pages rows e in
      let full = record f { next_cell = f.num_cells } in
      let done = record full { rightmost_done = true } in
      let (c1, emits1, back1, count1) =
        children-Leads tree visit (f.num_cells) 0 (read_interior_child f) (left.0) (left.1) e1 c f
          rest top refl interior start (omega arith) small (omega arith) in
      let (c2, emits2, back2, count2) =
        descend-Leads c1 (record c1 { stack = done ∷ rest }) full rest (f.rightmost) (right.0)
          (right.1) back1 (interior_rightmost source c1 full rest interior (omega arith) undone)
          (visit (f.rightmost) (right.0) (right.1) e2) (omega arith) in
      let end =
        round-stack source (advance_top source) c2 done rest back2
        ∙ interior_end source c2 done rest interior (omega arith) refl in
      (
        record c2 { stack = rest },
        subst (λ rows. Emits (advance_top source) c rows (record c2 { stack = rest }))
            (ap (λ t. left.1 ++ t) (append-nil (right.1)) ∙ split)
            (Emits-append (advance_top source) emits1
              (Emits-append (advance_top source) emits2 (silent end stop))),
        refl,
        omega arith,
      )

  -- The kinds of frame that `push_page` makes.
  frame_of-cases :
      (p : ℕ) (page : List ℕ) (f : Frame)
      → frame_of {V = V} p false page ≡ ok f
      → (f.next_cell ≡ 0) × (f.rightmost_done ≡ not (f.is_interior))
  unfolding frame_of interior_frame leaf_frame
  frame_of-cases p page f e = ground arith

  -- A page below which the walk finds rows returns them when it is pushed.
  pub in_order-Visits :
      (depth p pages : ℕ) (rows : List ℤ)
      → in_order source depth p ≡ ok (pages, rows)
      → Visits p pages rows
  unfolding in_order rows_below
  in_order-Visits zero p pages rows e c within = absurd cc
  in_order-Visits (suc depth) p pages rows e c within =
      let (f, e1, below) =
        >>=-eq-ok (fetch source p >>= frame_of p false) (rows_below (in_order source depth)) e in
      let (page, was_read, framed) = >>=-eq-ok (fetch source p) (frame_of p false) e1 in
      let (start, undone) = frame_of-cases p page f framed in
      let (work, small) = frame_of-work p false false page f framed in
      let c1 = record c { stack = f ∷ c.stack; pages_visited = c.pages_visited + 1 } in
      elim (Bool-cases (f.is_interior)) [
        | inl interior ↦
            let found : interior_rows (in_order source depth) f ≡ ok (pages, rows) =
              if_true (f.is_interior) interior _ _ ∙ below in
            let (left, right, l, r, sum, split) =
              interior_rows-ok (in_order source depth) f pages rows found in
            (
              c1,
              push_page-go_on source c false p page f was_read framed (omega arith),
              interior-Leads (in_order source depth) (in_order-Visits depth) c1 f (c.stack) pages
                  rows refl start interior (undone ∙ ap not interior) small found
                  (c.pages_visited + pages) within (omega arith),
            )
        | inr leaf ↦
            let (found, one) =
              leaf_rows-ok f pages rows (if_false (f.is_interior) leaf _ _ ∙ below) in
            (
              c1,
              push_page-go_on source c false p page f was_read framed (omega arith),
              subst (Leads (advance_top source) c1 rows (c.stack))
                  (ap (λ n. c.pages_visited + n) one)
                  (leaf-Leads (f.num_cells) 0 (leaf_cell f) rows found c1 f (c.stack) refl refl leaf
                    start (omega arith) small),
            )
      ]
