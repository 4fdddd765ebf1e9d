-- ===== src/Btree/Cursor/Work.antt =====
-- src/btree.rs: a measure of the work that a cursor's loop has left, which every round shrinks.
use sqlite_rs.Prelude.{
  ℕ, ◌+◌, ◌-◌, ◌*◌, ◌^◌, ◌≤◌, ◌<◌, ◌≡◌, refl, arith, ◌==◌, ltb, leb, not, if◌then◌else◌, Bool, true,
  false, inl, inr, List, [], ◌∷◌,
}
use sqlite_rs.Prelude.Bytes.{All}
use sqlite_rs.Prelude.Outcome.{Result, ok, err, ◌>>=◌, >>=-eq-ok, Result-cases}
use sqlite_rs.Prelude.Int.{ℤ}
use sqlite_rs.Btree.Error.{BtreeError}
use sqlite_rs.Btree.Page.{max_pages_visited, page1_header_start, read_num_cells}
use sqlite_rs.Btree.Cursor.{
  Frame, TableCursor, Round, go_on, returns, leaf_frame, interior_frame, frame_of, settle,
  decode_leaf_cell, visited, read_page, pushed, push_page, descend, advance_top, advance_rev_top,
}

-- The rounds that a frame can still be on top of the stack for.
abbrev pub frame_work : Bool → Frame → ℕ
frame_work reverse f =
    if f.is_interior
    then (if reverse then f.next_cell else f.num_cells - f.next_cell)
      + (if f.rightmost_done then 0 else 1)
      + 1
    else 1

abbrev pub stack_work : Bool → List Frame → ℕ
stack_work reverse [] = 0
stack_work reverse (f ∷ rest) = frame_work reverse f + stack_work reverse rest

abbrev pub work : Bool → TableCursor → ℕ
work reverse c = stack_work reverse (c.stack) + (max_pages_visited - c.pages_visited) * 65538

abbrev pub IsFrame : Frame → Type 0
IsFrame f = f.num_cells < 2 ^ 16

-- A round leaves less work and a stack of frames with 16-bit counts, or the method returns with no more.
abbrev pub Shrinks : {V : Type 0} → Bool → ℕ → Round V → Type 0
Shrinks reverse n (go_on c) =
    (work reverse c < n) × All IsFrame (c.stack) × (c.positioned_reverse ≡ reverse)
Shrinks reverse n (returns c r) =
    (work reverse c ≤ n) × All IsFrame (c.stack) × (c.positioned_reverse ≡ reverse)

module _ {V : Type 0} where
  pub read_num_cells-bound :
      (page : List ℕ) (h p : ℕ) (n : ℕ) → read_num_cells {V = V} page h p ≡ ok n → n < 2 ^ 16
  unfolding read_num_cells
  read_num_cells-bound page h p n e = ground arith

  leaf_frame-work :
      (p : ℕ) (reverse direction : Bool) (page : List ℕ) (f : Frame)
      → leaf_frame {V = V} p direction page ≡ ok f
      → (frame_work reverse f ≤ 65537) × IsFrame f
  unfolding leaf_frame
  leaf_frame-work p reverse direction page f e =
      let h = page1_header_start p in
      elim (Result-cases (read_num_cells {V = V} page h p)) [
        | inl (n, got) ↦ ground (arith, got, read_num_cells-bound page h p n got)
        | inr (x, got) ↦ ground (arith, got)
      ]

  interior_frame-work :
      (p : ℕ) (reverse direction : Bool) (page : List ℕ) (f : Frame)
      → interior_frame {V = V} p direction page ≡ ok f
      → (frame_work reverse f ≤ 65537) × IsFrame f
  unfolding interior_frame
  interior_frame-work p reverse direction page f e =
      let h = page1_header_start p in
      elim (Result-cases (read_num_cells {V = V} page h p)) [
        | inl (n, got) ↦ ground (arith, got, read_num_cells-bound page h p n got)
        | inr (x, got) ↦ ground (arith, got)
      ]

  pub frame_of-work :
      (p : ℕ) (reverse direction : Bool) (page : List ℕ) (f : Frame)
      → frame_of {V = V} p direction page ≡ ok f
      → (frame_work reverse f ≤ 65537) × IsFrame f
  unfolding frame_of
  frame_of-work p reverse direction page f e = ground (
    arith,
    leaf_frame-work p reverse direction page f,
    interior_frame-work p reverse direction page f,
  )

  if-Shrinks :
      (reverse : Bool) (n : ℕ) (b : Bool) (x y : Round V)
      → (b ≡ true → Shrinks reverse n x)
      → (b ≡ false → Shrinks reverse n y)
      → Shrinks reverse n (if b then x else y)
  if-Shrinks reverse n true x y h k = h refl
  if-Shrinks reverse n false x y h k = k refl

  -- A pushed page is paid for by the count of the pages visited.
  pub push_page-Shrinks :
      (source : ℕ → Result V (List ℕ)) (reverse : Bool) (c : TableCursor) (p : ℕ) (n : ℕ)
      → (work reverse c ≤ n) × All IsFrame (c.stack) × (c.positioned_reverse ≡ reverse)
      → Shrinks reverse n (push_page source c reverse p)
  unfolding push_page visited pushed read_page
  push_page-Shrinks source reverse c p n h =
      elim (Result-cases (read_page source c p >>= frame_of p reverse)) [
        | inl (f, got) ↦
            let (page, was_read, framed) =
              >>=-eq-ok (read_page source c p) (frame_of p reverse) got in
            let small = frame_of-work p reverse reverse page f framed in
            let within : c.pages_visited + 1 ≤ max_pages_visited = ground (arith, was_read) in
            rw got (omega arith, (small.1, h.1), h.2)
        | inr (e, got) ↦ rw got (omega arith, h.1, h.2)
      ]

  descend-Shrinks :
      (source : ℕ → Result V (List ℕ)) (reverse : Bool) (c : TableCursor)
      (child : Result (BtreeError V) ℕ) (n : ℕ)
      → (work reverse c ≤ n) × All IsFrame (c.stack) × (c.positioned_reverse ≡ reverse)
      → Shrinks reverse n (descend source c reverse child)
  unfolding descend
  descend-Shrinks source reverse c (err e) n h = h
  descend-Shrinks source reverse c (ok p) n h = push_page-Shrinks source reverse c p n h

  settle-Shrinks :
      (reverse : Bool) (c : TableCursor) (f : Frame) (cell : Result (BtreeError V) (ℤ × ℕ × ℕ))
      (n : ℕ)
      → (work reverse c ≤ n) × All IsFrame (c.stack) × (c.positioned_reverse ≡ reverse)
      → Shrinks reverse n (settle c f cell)
  unfolding settle
  settle-Shrinks reverse c f (err e) n h = h
  settle-Shrinks reverse c f (ok (rowid, payload_len, tail_start)) n h = h

  pub advance_top-Shrinks :
      (source : ℕ → Result V (List ℕ)) (c : TableCursor) (f : Frame) (rest : List Frame)
      → All IsFrame (f ∷ rest)
      → c.positioned_reverse ≡ false
      → (n : ℕ)
      → frame_work false f + stack_work false rest + (max_pages_visited - c.pages_visited) * 65538
        ≤ n
      → Shrinks false n (advance_top source c f rest)
  unfolding advance_top decode_leaf_cell
  advance_top-Shrinks source c f rest small way n bound =
      let fits : f.num_cells < 2 ^ 16 = small.0 in
      if-Shrinks false n (not (f.is_interior)) _ _
        (λ leaf.
          if-Shrinks false n (leb (f.num_cells) (f.next_cell)) _ _
            (λ _. (ground arith, small.1, way))
            (λ _. settle-Shrinks false _ f _ n (ground arith, small, way)))
        (λ interior.
          if-Shrinks false n (ltb (f.next_cell) (f.num_cells)) _ _
            (λ more. descend-Shrinks source false _ _ n (ground arith, small, way))
            (λ _.
              if-Shrinks false n (not (f.rightmost_done)) _ _
                (λ last.
                  push_page-Shrinks source false _ (f.rightmost) n (ground arith, small, way))
                (λ _. (ground arith, small.1, way))))

  pub advance_rev_top-Shrinks :
      (source : ℕ → Result V (List ℕ)) (c : TableCursor) (f : Frame) (rest : List Frame)
      → All IsFrame (f ∷ rest)
      → c.positioned_reverse ≡ true
      → (n : ℕ)
      → frame_work true f + stack_work true rest + (max_pages_visited - c.pages_visited) * 65538 ≤ n
      → Shrinks true n (advance_rev_top source c f rest)
  unfolding advance_rev_top decode_leaf_cell
  advance_rev_top-Shrinks source c f rest small way n bound =
      if-Shrinks true n (not (f.is_interior)) _ _
        (λ leaf.
          if-Shrinks true n (f.next_cell == 0) _ _ (λ _. (ground arith, small.1, way))
            (λ _. settle-Shrinks true _ f _ n (ground arith, small, way)))
        (λ interior.
          if-Shrinks true n (not (f.rightmost_done)) _ _
            (λ last. push_page-Shrinks source true _ (f.rightmost) n (ground arith, small, way))
            (λ _.
              if-Shrinks true n (ltb 0 (f.next_cell)) _ _
                (λ more. descend-Shrinks source true _ _ n (ground arith, small, way))
                (λ _. (ground arith, small.1, way))))
