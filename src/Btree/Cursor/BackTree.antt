-- ===== src/Btree/Cursor/BackTree.antt =====
-- src/btree.rs: a whole tree, visited from its last row to its first.
use sqlite_rs.Prelude.{
  ℕ, zero, suc, ◌+◌, ◌≡◌, refl, ap, subst, ◌∙◌, arith, not, if◌then◌else◌, true, false, Bool-cases,
  inl, inr, List, ◌∷◌,
}
use sqlite_rs.Prelude.Outcome.{Result, ok, ◌>>=◌, >>=-eq-ok}
use sqlite_rs.Prelude.Int.{ℤ}
use sqlite_rs.Btree.Error.{BtreeError}
use sqlite_rs.Btree.Page.{
  fetch, page1_header_start, read_page_type, read_num_cells, read_u32, require_interior_header,
}
use sqlite_rs.Prelude.Bytes.{saturating_add}
use sqlite_rs.Btree.Cursor.{
  Frame, interior_frame, leaf_frame, frame_of, interior_test, read_interior_child, leaf_cell,
  advance_rev_top,
}
use sqlite_rs.Btree.Cursor.Walk.{
  interior_rows, rows_below, in_order, Leads, interior_rows-ok, leaf_rows-ok, if_true, if_false,
}
use sqlite_rs.Btree.Cursor.Rounds.{push_page-go_on}
use sqlite_rs.Btree.Cursor.Back.{rev}
use sqlite_rs.Btree.Cursor.BackVisits.{VisitsBack, leaf-Leads_back, interior-Leads_back}

abbrev leaf_of : ℕ → List ℕ → ℕ → ℕ → Frame
leaf_of p page cells next = record {
  page_num = p;
  is_interior = false;
  num_cells = cells;
  cell_ptr_base = saturating_add (page1_header_start p) 8;
  next_cell = next;
  rightmost = 0;
  rightmost_done = true;
  page = page;
}

abbrev interior_of : ℕ → List ℕ → ℕ → ℕ → ℕ → Frame
interior_of p page cells last next = record {
  page_num = p;
  is_interior = true;
  num_cells = cells;
  cell_ptr_base = saturating_add (page1_header_start p) 12;
  next_cell = next;
  rightmost = last;
  rightmost_done = false;
  page = page;
}

module _ {V : Type 0} where
  framed : Frame → Result (BtreeError V) Frame
  framed f = ok f

  leaf_frame-back :
      (p : ℕ) (page : List ℕ) (f : Frame)
      → leaf_frame {V = V} p false page ≡ ok f
      → leaf_frame {V = V} p true page ≡ ok (record f { next_cell = f.num_cells })
  unfolding leaf_frame framed
  leaf_frame-back p page f e =
      let (n, counted, r1) =
        >>=-eq-ok (read_num_cells {V = V} page (page1_header_start p) p)
          (λ n. framed (leaf_of p page n 0)) e in
      let same : leaf_of p page n 0 ≡ f = cc in
      subst (λ g. leaf_frame {V = V} p true page ≡ ok (record g { next_cell = g.num_cells })) same
        (rw counted refl)

  interior_frame-back :
      (p : ℕ) (page : List ℕ) (f : Frame)
      → interior_frame {V = V} p false page ≡ ok f
      → interior_frame {V = V} p true page ≡ ok (record f { next_cell = f.num_cells })
  unfolding interior_frame framed
  interior_frame-back p page f e =
      let h = page1_header_start p in
      let last = read_u32 {V = V} page (saturating_add h 8) p in
      let cells = read_num_cells {V = V} page h p in
      let (u, enough, r1) =
        >>=-eq-ok (require_interior_header page h p)
          (λ _. cells >>= (λ n. last >>= (λ r. framed (interior_of p page n r 0)))) e in
      let (n, counted, r2) =
        >>=-eq-ok cells (λ n. last >>= (λ r. framed (interior_of p page n r 0))) r1 in
      let (r, ended, r3) = >>=-eq-ok last (λ r. framed (interior_of p page n r 0)) r2 in
      let same : interior_of p page n r 0 ≡ f = cc in
      subst (λ g. interior_frame {V = V} p true page ≡ ok (record g { next_cell = g.num_cells }))
        same (rw (enough, counted, ended) refl)

  frame_of-back :
      (p : ℕ) (page : List ℕ) (f : Frame)
      → frame_of {V = V} p false page ≡ ok f
      → frame_of {V = V} p true page ≡ ok (record f { next_cell = f.num_cells })
  unfolding frame_of
  frame_of-back p page f e =
      let kinds = λ (kind : ℕ). interior_test kind p in
      let (kind, typed, r1) =
        >>=-eq-ok (read_page_type page (page1_header_start p) p)
          (λ kind.
            kinds kind
            >>= (λ b. if b then interior_frame p false page else leaf_frame p false page))
          e in
      let (b, tested, r2) =
        >>=-eq-ok (kinds kind)
          (λ b. if b then interior_frame p false page else leaf_frame p false page) r1 in
      elim (Bool-cases b) [
        | inl interior ↦
            rw (typed, tested, interior)
              (interior_frame-back p page f (if_true b interior _ _ ∙ r2))
        | inr leaf ↦ rw (typed, tested, leaf) (leaf_frame-back p page f (if_false b leaf _ _ ∙ r2))
      ]

module _ {V : Type 0} (source : ℕ → Result V (List ℕ)) where
  frame_of-undone :
      (p : ℕ) (page : List ℕ) (f : Frame)
      → frame_of {V = V} p false page ≡ ok f
      → f.rightmost_done ≡ not (f.is_interior)
  unfolding frame_of interior_frame leaf_frame
  frame_of-undone p page f e = ground arith

  -- A page below which the walk finds rows returns them from the last when it is pushed.
  pub in_order-VisitsBack :
      (depth p pages : ℕ) (rows : List ℤ)
      → in_order source depth p ≡ ok (pages, rows)
      → VisitsBack source p pages rows
  unfolding in_order rows_below leaf_cell interior_rows read_interior_child
  in_order-VisitsBack zero p pages rows e c within = absurd cc
  in_order-VisitsBack (suc depth) p pages rows e c within =
      let (f, e1, below) =
        >>=-eq-ok (fetch source p >>= frame_of p false) (rows_below (in_order source depth)) e in
      let (page, was_read, framed) = >>=-eq-ok (fetch source p) (frame_of p false) e1 in
      let undone = frame_of-undone p page f framed in
      let g = record f { next_cell = f.num_cells } in
      let c1 = record c { stack = g ∷ c.stack; pages_visited = c.pages_visited + 1 } in
      elim (Bool-cases (f.is_interior)) [
        | inl interior ↦
            let found : interior_rows (in_order source depth) f ≡ ok (pages, rows) =
              if_true (f.is_interior) interior _ _ ∙ below in
            let (left, right, l, r, sum, split) =
              interior_rows-ok (in_order source depth) f pages rows found in
            (
              c1,
              push_page-go_on source c true p page g was_read (frame_of-back p page f framed)
                  (omega arith),
              interior-Leads_back source (in_order source depth) (in_order-VisitsBack depth) c1 g
                  (c.stack) pages rows refl refl interior (undone ∙ ap not interior) found
                  (c.pages_visited + pages) within (omega arith),
            )
        | inr leaf ↦
            let (found, one) =
              leaf_rows-ok f pages rows (if_false (f.is_interior) leaf _ _ ∙ below) in
            (
              c1,
              push_page-go_on source c true p page g was_read (frame_of-back p page f framed)
                  (omega arith),
              subst (Leads (advance_rev_top source) c1 (rev rows) (c.stack))
                  (ap (λ n. c.pages_visited + n) one)
                  (leaf-Leads_back source (f.num_cells) (leaf_cell f) rows found c1 g (c.stack) refl
                    refl leaf refl),
            )
      ]
