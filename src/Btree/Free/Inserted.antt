-- ===== src/Btree/Free/Inserted.antt =====
-- src/btree.rs: a cell that is spliced into a leaf page is one cell more of the page, in its place.
use sqlite_rs.Prelude.{
  ℕ, suc, ◌+◌, ◌-◌, ◌*◌, ◌%◌, ◌^◌, ◌≤◌, ◌<◌, ◌≡◌, refl, subst, arith, ltb, leb, min, ◌||◌,
  if◌then◌else◌, ◌⊎◌, inl, inr, Bool, Bool-cases, true, false, List, ◌∷◌, ◌++◌, length,
  length-append,
}
use sqlite_rs.Prelude.Bytes.{saturating_add, to_be}
use sqlite_rs.Prelude.Outcome.{ok, ◌>>=◌, Gives, Gives-bind}
use sqlite_rs.Prelude.Int.{ℤ}
use sqlite_rs.Btree.Page.{cell_ptr_offset}
use sqlite_rs.Btree.Free.{put_bytes, write_u16, write_content_start}
use sqlite_rs.Btree.Free.Splice.{shift_up, splice_insert_cell}
use sqlite_rs.Btree.Rebuild.Bytes.{Holds}
use sqlite_rs.Btree.Rebuild.Leaf.{IsLeaf, read_num_cells-held}
use sqlite_rs.Btree.Rebuild.Keeps.{
  Keeps, Keeps-trans, Keeps-widen, put_bytes-Keeps, put_u16-Keeps, Points-lower, Points-Keeps,
}
use sqlite_rs.Btree.Free.Pointers.{
  Points-append, Points-split, read_content_start-held, shift_up-Points,
}

-- The test of the gap.
gap_cases :
    (low header_start n size : ℕ)
    → header_start + 8 + 2 * n ≤ low
    → low ≤ 65536
    → size ≤ 65536
    → ((ltb low (cell_ptr_offset (saturating_add header_start 8) n)
            || ltb
                (low - cell_ptr_offset (saturating_add header_start 8) n)
                (saturating_add size 2))
          ≡ true)
        × (low < header_start + 8 + 2 * n + (size + 2))
      ⊎ ((ltb low (cell_ptr_offset (saturating_add header_start 8) n)
            || ltb
                (low - cell_ptr_offset (saturating_add header_start 8) n)
                (saturating_add size 2))
          ≡ false)
        × (header_start + 8 + 2 * n + (size + 2) ≤ low)
unfolding cell_ptr_offset
gap_cases low header_start n size above small fits =
    let end : min (min (header_start + 8) (2 ^ 64 - 1) + min (n * 2) (2 ^ 64 - 1)) (2 ^ 64 - 1)
        ≡ header_start + 8 + 2 * n =
      omega arith in
    elim (Bool-cases (ltb (low - (header_start + 8 + 2 * n)) (size + 2))) [
      | inl less ↦ inl (ground arith, ground arith)
      | inr more ↦ inr (ground arith, ground arith)
    ]

-- What a splice gives: the page as it is, where the gap is too small, or the page with the cell.
abbrev pub Spliced :
    List ℕ → ℕ → ℕ → List (ℤ × List ℕ) → ℤ × List ℕ → List (ℤ × List ℕ) → Bool × List ℕ → Type 0
Spliced page header_start low front cell back (done, page') =
    (done ≡ false)
      × (page' ≡ page)
      × (low < header_start + 8 + 2 * length (front ++ back) + (length (cell.1) + 2))
    ⊎ (done ≡ true)
      × Keeps (header_start + 3) low page page'
      × IsLeaf page' header_start (low - length (cell.1)) (front ++ (cell ∷ back))

module _ {V : Type 0} (page_num : ℕ) where
  -- The content's start and the count are put last.
  put_counts :
      (page : List ℕ) (header_start count low : ℕ)
      → length page ≤ 65536
      → count < 65535
      → low < 65536
      → header_start + 8 ≤ length page
      → Gives {A = Bool × List ℕ}
          (write_content_start {V = V} page header_start low page_num >>= (λ started.
            write_u16 started (saturating_add header_start 3) (saturating_add count 1) page_num
            >>= (λ counted. ok (true, counted))))
          (λ done.
            (done.0 ≡ true)
            × Keeps (header_start + 3) (header_start + 8) page (done.1)
            × Holds (done.1) (header_start + 3) (to_be 2 (suc count))
            × Holds (done.1) (header_start + 5) (to_be 2 (low % 65536)))
  unfolding write_content_start write_u16
  put_counts page header_start count low small few below inside =
      let from : ℕ = header_start + 3 in
      let to : ℕ = header_start + 8 in
      Gives-bind _ _ _ _
        (put_u16-Keeps {V = V} page (saturating_add header_start 5) (header_start + 5)
          ((if leb 65536 low then 0 else low) % 2 ^ 16) (low % 65536) page_num (omega arith)
          (ground arith) (omega arith) small)
        (λ page1 done1.
          Gives-bind _ _ _ _
            (put_u16-Keeps {V = V} page1 (saturating_add header_start 3) from
              (saturating_add count 1 % 2 ^ 16) (suc count) page_num (omega arith) (omega arith)
              (omega (arith, done1.1.0)) (omega (arith, done1.1.0)))
            (λ page2 done2. (
              (true, page2),
              refl,
              (
                refl,
                Keeps-trans from to page page1 page2
                    (Keeps-widen (header_start + 5) (header_start + 5 + 2) from to page page1
                      (omega arith) (omega arith) (done1.1))
                    (Keeps-widen from (from + 2) from to page1 page2 (omega arith) (omega arith)
                      (done2.1)),
                done2.0,
                done2.1.1 (header_start + 5) (to_be 2 (low % 65536)) (inr (omega arith)) (done1.0),
              ),
            )))

  splice_room :
      (page : List ℕ) (header_start low : ℕ) (front : List (ℤ × List ℕ)) (cell : ℤ × List ℕ)
      (back : List (ℤ × List ℕ))
      → IsLeaf page header_start low (front ++ back)
      → 0 < length (cell.1)
      → header_start + 8 + 2 * length (front ++ back) + (length (cell.1) + 2) ≤ low
      → Gives {A = Bool × List ℕ}
          (put_bytes {V = V} page (low - length (cell.1)) (cell.1) page_num >>= (λ filled.
            shift_up filled page_num
              (saturating_add header_start 8)
              (length front)
              (length (front ++ back) - length front)
            >>= (λ shifted.
                write_u16 shifted
                  (cell_ptr_offset (saturating_add header_start 8) (length front))
                  (low - length (cell.1))
                  page_num
                >>= (λ pointed.
                    write_content_start pointed header_start (low - length (cell.1)) page_num
                    >>= (λ started.
                        write_u16 started
                          (saturating_add header_start 3)
                          (saturating_add (length (front ++ back)) 1)
                          page_num
                        >>= (λ counted. ok (true, counted)))))))
          (λ done.
            (done.0 ≡ true)
            × Keeps (header_start + 3) low page (done.1)
            × IsLeaf (done.1) header_start (low - length (cell.1)) (front ++ (cell ∷ back)))
  unfolding write_u16 cell_ptr_offset
  splice_room page header_start low front cell back (small, counted, started, room, inside, points)
        some_byte gap =
      let new : ℕ = low - length (cell.1) in
      let base : ℕ = header_start + 8 in
      let at : ℕ = base + 2 * length front in
      let from : ℕ = header_start + 3 in
      let total = length-append front back in
      let total' = length-append front (cell ∷ back) in
      let (left, right) = Points-split page base at low front back refl points in
      Gives-bind _ _ _ _ (put_bytes-Keeps {V = V} page new (cell.1) page_num (omega arith) small)
        (λ page1 done1.
          let keeps1 = done1.1 in
          let left1 =
            Points-Keeps new (new + length (cell.1)) page page1 base low front keeps1 (omega arith)
              (inr (omega arith)) left in
          let right1 =
            Points-Keeps new (new + length (cell.1)) page page1 at low back keeps1 (omega arith)
              (inr (omega arith)) right in
          Gives-bind _ _ _ _
            (shift_up-Points {V = V} page_num (length (front ++ back) - length front) page1
              (saturating_add header_start 8) (length front) at new back (omega (arith, keeps1.0))
              (omega arith) (omega arith) (omega arith) (omega (arith, keeps1.0))
              (Points-lower page1 at low new back (omega arith) right1))
            (λ page2 done2.
              Gives-bind _ _ _ _
                (put_u16-Keeps {V = V} page2
                  (cell_ptr_offset (saturating_add header_start 8) (length front)) at (new % 2 ^ 16)
                  new page_num (omega arith) (omega arith) (omega (arith, keeps1.0, done2.0.0))
                  (omega (arith, keeps1.0, done2.0.0)))
                (λ page3 done3.
                  let (page4, put, (fine, keeps4, count4, low4)) =
                    put_counts page3 header_start (length (front ++ back)) new
                      (omega (arith, keeps1.0, done2.0.0, done3.1.0)) (omega arith) (omega arith)
                      (omega (arith, keeps1.0, done2.0.0, done3.1.0)) in
                  let after =
                    Keeps-trans from new page1 page2 (page4.1)
                      (Keeps-widen (at + 2) (at + 2 + 2 * (length (front ++ back) - length front))
                        from new page1 page2 (omega arith) (omega arith) (done2.0))
                      (Keeps-trans from new page2 page3 (page4.1)
                        (Keeps-widen at (at + 2) from new page2 page3 (omega arith) (omega arith)
                          (done3.1))
                        (Keeps-widen from (header_start + 8) from new page3 (page4.1) (omega arith)
                          (omega arith) keeps4)) in
                  let whole =
                    Keeps-trans from low page page1 (page4.1)
                      (Keeps-widen new (new + length (cell.1)) from low page page1 (omega arith)
                        (omega arith) keeps1)
                      (Keeps-widen from new from low page1 (page4.1) (omega arith) (omega arith)
                        after) in
                  let left4 =
                    Points-Keeps from (header_start + 8) page3 (page4.1) base new front keeps4
                      (omega arith) (inl (omega arith))
                      (Points-Keeps at (at + 2) page2 page3 base new front (done3.1) (omega arith)
                        (inr (omega arith))
                        (Points-Keeps (at + 2)
                          (at + 2 + 2 * (length (front ++ back) - length front)) page1 page2 base
                          new front (done2.0) (omega arith) (inr (omega arith))
                          (Points-lower page1 base low new front (omega arith) left1))) in
                  let right4 =
                    Points-Keeps from (header_start + 8) page3 (page4.1) (at + 2) new back keeps4
                      (omega arith) (inl (omega arith))
                      (Points-Keeps at (at + 2) page2 page3 (at + 2) new back (done3.1)
                        (omega arith) (inl (omega arith)) (done2.1)) in
                  let pointer = keeps4.1 at (to_be 2 new) (inr (omega arith)) (done3.0) in
                  let stands = after.1 new (cell.1) (inr (omega arith)) (done1.0) in
                  let more : suc (length (front ++ back)) ≡ length (front ++ (cell ∷ back)) =
                    omega arith in
                  (
                    page4,
                    put,
                    (
                      fine,
                      whole,
                      (
                        omega (arith, whole.0),
                        subst (λ n. Holds (page4.1) from (to_be 2 n)) more count4,
                        low4,
                        omega arith,
                        omega (arith, whole.0),
                        Points-append (page4.1) base at new front (cell ∷ back) refl left4
                            (new, pointer, stands, omega arith, omega arith, right4),
                      ),
                    ),
                  ))))

  -- On a leaf page `splice_insert_cell` succeeds for a cell of 1 to 65536 bytes. Where the gap between the pointers and the content
  -- has no room for the cell and its pointer, the page comes back as it is, with `false`. Else the
  -- cell stands between the cells before and behind `index`, with the content's start moved down by
  -- its length, and nothing of the page changes before the count or from the content on.
  pub splice_insert_cell-IsLeaf :
      (page : List ℕ) (header_start low : ℕ) (front : List (ℤ × List ℕ)) (cell : ℤ × List ℕ)
      (back : List (ℤ × List ℕ))
      → IsLeaf page header_start low (front ++ back)
      → 0 < length (cell.1)
      → length (cell.1) ≤ 65536
      → Gives
          (splice_insert_cell {V = V} page header_start page_num (length front) (cell.1))
          (Spliced page header_start low front cell back)
  unfolding splice_insert_cell
  splice_insert_cell-IsLeaf page header_start low front cell back leaf some_byte fits =
      let (small, counted, started, room, inside, points) = leaf in
      let n : ℕ = length (front ++ back) in
      let count =
        read_num_cells-held {V = V} page page_num 0 header_start n counted (omega arith)
          (omega arith) in
      let content =
        read_content_start-held {V = V} page_num page header_start low started (omega arith)
          (omega arith) in
      Gives-bind _ _ (λ v. v ≡ n) _ (n, count, refl)
        (λ v same.
          Gives-bind _ _ (λ w. w ≡ low) _ (low, content, refl)
            (λ w same'.
              elim (gap_cases low header_start n (length (cell.1)) room (omega arith) fits) [
                | inl (full, less) ↦
                    ((false, page), rw (same, same', full) refl, inl (refl, refl, less))
                | inr (free, more) ↦
                    let (done, spliced, good) =
                      splice_room page header_start low front cell back leaf some_byte more in
                    (done, rw (same, same', free) spliced, inr good)
              ]))
