-- ===== src/Btree/Cursor/BackVisits.antt =====
-- src/btree.rs: the rounds of the backward cursor visit the rows of a tree from the last to the first.
use sqlite_rs.Prelude.{
  ℕ, zero, suc, ◌+◌, ◌≤◌, ◌≡◌, refl, sym, ap, subst, ◌∙◌, arith, true, false, List, [], ◌∷◌, ◌++◌,
  some,
}
use sqlite_rs.Prelude.Outcome.{Result, ok}
use sqlite_rs.Prelude.Int.{ℤ}
use sqlite_rs.Btree.Error.{BtreeError}
use sqlite_rs.Btree.Page.{max_pages_visited}
use sqlite_rs.Btree.Cursor.{
  Frame, TableCursor, go_on, read_interior_child, leaf_cell, settle, push_page, advance_rev_top,
}
use sqlite_rs.Btree.Cursor.Walk.{
  rows_from, subtrees, interior_rows, Emits, stop, silent, row, Emits-append, Leads,
  interior_rows-ok,
}
use sqlite_rs.Btree.Cursor.Rounds.{round-stack}
use sqlite_rs.Btree.Cursor.Back.{
  rev, rev-append, rows_from-last, subtrees-last, back_leaf_end, back_leaf_row, back_rightmost,
  back_child, back_end,
}

module _ {V : Type 0} (source : ℕ → Result V (List ℕ)) where
  -- What is left of a leaf is returned row by row, from the last.
  pub leaf-Leads_back :
      (left : ℕ) (read : ℕ → Result (BtreeError V) (ℤ × ℕ × ℕ)) (rows : List ℤ)
      → rows_from read 0 left ≡ ok rows
      → (c : TableCursor) (f : Frame) (rest : List Frame) → c.stack ≡ f ∷ rest
      → leaf_cell f ≡ read
      → f.is_interior ≡ false
      → f.next_cell ≡ left
      → Leads (advance_rev_top source) c (rev rows) rest (c.pages_visited)
  unfolding rows_from settle leaf_cell rev
  leaf-Leads_back zero read rows e c f rest top same leaf ends =
      let none_left : [] ≡ rows = cc in
      let c' = record c { stack = rest } in
      (
        c',
        subst (λ rows. Emits (advance_rev_top source) c (rev rows) c') none_left
            (silent
              (round-stack source (advance_rev_top source) c f rest top
                ∙ back_leaf_end source c f rest leaf ends)
              stop),
        refl,
        refl,
      )
  leaf-Leads_back (suc k) read rows e c f rest top same leaf ends =
      let (cell, before, found, others, split) = rows_from-last read k 0 rows e in
      let at : 0 + k ≡ k = omega arith in
      let here : leaf_cell {V = V} f k ≡ ok cell =
        ap (λ t. t k) same ∙ (ap read (sym at) ∙ found) in
      let c' = record c {
        stack = record f { next_cell = k } ∷ rest;
        current = some (record {
          page = f.page;
          page_num = f.page_num;
          tail_start = cell.2;
          payload_len = cell.1;
        });
      } in
      let (c'', p, back, count) =
        leaf-Leads_back k read before others c' (record f { next_cell = k }) rest refl same leaf
          refl in
      let this =
        round-stack source (advance_rev_top source) c f rest top
        ∙ back_leaf_row source c f rest k cell leaf ends here in
      let order : cell.0 ∷ rev before ≡ rev rows =
        sym (rev-append before (cell.0 ∷ [])) ∙ ap rev split in
      (
        c'',
        subst (λ rows. Emits (advance_rev_top source) c rows c'') order (row this p),
        back,
        count,
      )

  -- A page that is pushed is followed by its rows, from the last.
  abbrev pub VisitsBack : ℕ → ℕ → List ℤ → Type 0
  VisitsBack page_num pages rows =
      (c : TableCursor)
      → c.pages_visited + pages ≤ max_pages_visited
      → (c' : TableCursor) × (push_page source c true page_num ≡ go_on c')
        × Leads (advance_rev_top source) c' (rev rows) (c.stack) (c.pages_visited + pages)

  descend-Leads_back :
      (c c' : TableCursor) (f : Frame) (rest : List Frame) (p pages : ℕ) (rows : List ℤ)
      → c.stack ≡ f ∷ rest
      → advance_rev_top source c f rest ≡ push_page source c' true p
      → VisitsBack p pages rows
      → c'.pages_visited + pages ≤ max_pages_visited
      → Leads (advance_rev_top source) c (rev rows) (c'.stack) (c'.pages_visited + pages)
  descend-Leads_back c c' f rest p pages rows top same visits within =
      let (c1, went, (c2, emits, back, count)) = visits c' within in
      (
        c2,
        silent (round-stack source (advance_rev_top source) c f rest top ∙ (same ∙ went)) emits,
        back,
        count,
      )

  -- The children that are left are walked from the last, and the page is left.
  children-Leads_back :
      (tree : ℕ → Result (BtreeError V) (ℕ × List ℤ))
      → ((p pages : ℕ) (rows : List ℤ) → tree p ≡ ok (pages, rows) → VisitsBack p pages rows)
      → (left : ℕ) (child : ℕ → Result (BtreeError V) ℕ) (pages : ℕ) (rows : List ℤ)
      → subtrees tree child 0 left ≡ ok (pages, rows)
      → (c : TableCursor) (f : Frame) (rest : List Frame) → c.stack ≡ f ∷ rest
      → read_interior_child f ≡ child
      → f.is_interior ≡ true
      → f.rightmost_done ≡ true
      → f.next_cell ≡ left
      → c.pages_visited + pages ≤ max_pages_visited
      → Leads (advance_rev_top source) c (rev rows) rest (c.pages_visited + pages)
  unfolding subtrees read_interior_child rev
  children-Leads_back tree visit zero child pages rows e c f rest top same interior done ends
        within =
      let none_left : [] ≡ rows = cc in
      let none_read : 0 ≡ pages = cc in
      let c' = record c { stack = rest } in
      (
        c',
        subst (λ rows. Emits (advance_rev_top source) c (rev rows) c') none_left
            (silent
              (round-stack source (advance_rev_top source) c f rest top
                ∙ back_end source c f rest interior done ends)
              stop),
        refl,
        omega arith,
      )
  children-Leads_back tree visit (suc k) child pages rows e c f rest top same interior done ends
        within =
      let (p, here, others, found, below, firsts, sum, split) =
        subtrees-last tree child k 0 pages rows e in
      let at : 0 + k ≡ k = omega arith in
      let this : read_interior_child {V = V} f k ≡ ok p =
        ap (λ t. t k) same ∙ (ap child (sym at) ∙ found) in
      let f' = record f { next_cell = k } in
      let c' = record c { stack = f' ∷ rest } in
      let (c1, emits, back, count) =
        descend-Leads_back c c' f rest p (here.0) (here.1) top
          (back_child source c f rest k p interior done ends this) (visit p (here.0) (here.1) below)
          (omega arith) in
      let (c2, emits', back', count') =
        children-Leads_back tree visit k child (others.0) (others.1) firsts c1 f' rest back same
          interior done refl (omega arith) in
      let order : rev (here.1) ++ rev (others.1) ≡ rev rows =
        sym (rev-append (others.1) (here.1)) ∙ ap rev split in
      (
        c2,
        subst (λ rows. Emits (advance_rev_top source) c rows c2) order
            (Emits-append (advance_rev_top source) emits emits'),
        back',
        omega arith,
      )

  pub interior-Leads_back :
      (tree : ℕ → Result (BtreeError V) (ℕ × List ℤ))
      → ((p pages : ℕ) (rows : List ℤ) → tree p ≡ ok (pages, rows) → VisitsBack p pages rows)
      → (c : TableCursor) (f : Frame) (rest : List Frame) (pages : ℕ) (rows : List ℤ)
      → c.stack ≡ f ∷ rest
      → f.next_cell ≡ f.num_cells
      → f.is_interior ≡ true
      → f.rightmost_done ≡ false
      → interior_rows tree f ≡ ok (pages, rows)
      → (visits : ℕ) → visits ≤ max_pages_visited
      → c.pages_visited + pages ≡ visits + 1
      → Leads (advance_rev_top source) c (rev rows) rest visits
  unfolding read_interior_child
  interior-Leads_back tree visit c f rest pages rows top start interior undone e visits within
        count =
      let (left, right, e1, e2, sum, split) = interior_rows-ok tree f pages rows e in
      let done = record f { rightmost_done = true } in
      let (c1, emits1, back1, count1) =
        descend-Leads_back c (record c { stack = done ∷ rest }) f rest (f.rightmost) (right.0)
          (right.1) top (back_rightmost source c f rest interior undone)
          (visit (f.rightmost) (right.0) (right.1) e2) (omega arith) in
      let (c2, emits2, back2, count2) =
        children-Leads_back tree visit (f.num_cells) (read_interior_child f) (left.0) (left.1) e1 c1
          done rest back1 refl interior refl start (omega arith) in
      let order : rev (right.1) ++ rev (left.1) ≡ rev rows =
        sym (rev-append (left.1) (right.1)) ∙ ap rev split in
      (
        c2,
        subst (λ rows. Emits (advance_rev_top source) c rows c2) order
            (Emits-append (advance_rev_top source) emits1 emits2),
        back2,
        omega arith,
      )
