-- ===== src/Btree/Rebuild/RoundTrip.antt =====
-- src/btree.rs: a rebuilt leaf page holds its cells, and they are collected from it.
use sqlite_rs.Prelude.{
  ℕ, suc, ◌+◌, ◌-◌, ◌*◌, ◌%◌, ◌^◌, ◌≤◌, ◌≡◌, refl, ap, subst, ◌∙◌, arith, le→ltb_false, inl, List,
  [], ◌∷◌, ◌++◌, length, take, replicate, length-append, length-take, length-replicate,
}
use sqlite_rs.Prelude.Bytes.{saturating_add, to_be, length-to_be}
use sqlite_rs.Prelude.Outcome.{ok, ◌>>=◌, Gives, Gives-bind}
use sqlite_rs.Prelude.Int.{ℤ}
use sqlite_rs.Btree.Page.{leaf_table}
use sqlite_rs.Btree.Free.{put_bytes, put_u8}
use sqlite_rs.Btree.Leaf.{collect_leaf_cells}
use sqlite_rs.Btree.Leaf.Scans.{bytes_in}
use sqlite_rs.Btree.Rebuild.{cell_bytes, as_u16, cleared, write_page_common, write_leaf_page}
use sqlite_rs.Btree.Rebuild.Bytes.{Holds, Holds-append}
use sqlite_rs.Btree.Rebuild.Leaf.{
  AllCells, AllCells-Solid, Solid, Points, IsLayout, IsLeaf, collect_leaf_cells-IsLeaf,
}
use sqlite_rs.Btree.Rebuild.Keeps.{
  Keeps, Keeps-trans, Keeps-widen, put_bytes-Keeps, put_u16-Keeps, Points-Keeps,
}
use sqlite_rs.Btree.Rebuild.Written.{as_u16-mod, Placed, place_cells-Placed, write_pointers-Points}

length-cell_bytes : (cells : List (ℤ × List ℕ)) → length (cell_bytes cells) ≡ length cells
unfolding cell_bytes
length-cell_bytes [] = refl
length-cell_bytes (cell ∷ cells) = ap suc (length-cell_bytes cells)

module _ {V : Type 0} (page_num : ℕ) where
  -- The three fields of the header that are put last, with what follows them in the code.
  put_header-IsLayout :
      (page : List ℕ) (header_start header_len count end low : ℕ) (cells : List (ℤ × List ℕ))
      → length page ≤ 65536
      → count ≡ length cells
      → end ≡ low
      → 8 ≤ header_len
      → header_start + header_len + 2 * length cells ≤ low
      → low ≤ length page
      → Points page (header_start + header_len) low cells
      → Gives
          (put_bytes {V = V} page
              (saturating_add header_start 3)
              (to_be 2 (count % 2 ^ 16))
              page_num
            >>= (λ counted.
                put_bytes counted (saturating_add header_start 5) (to_be 2 (as_u16 end)) page_num
                >>= (λ started. put_u8 started (saturating_add header_start 7) 0 page_num)))
          (λ page'.
            Keeps (header_start + 3) (header_start + 8) page page'
            × IsLayout page' header_start header_len low cells)
  unfolding put_u8
  put_header-IsLayout page header_start header_len count end low cells small counts ends wide room
        inside points =
      let from : ℕ = header_start + 3 in
      let to : ℕ = header_start + 8 in
      let seventh : saturating_add header_start 7 ≡ header_start + 7 = omega arith in
      Gives-bind _ _ _ _
        (put_u16-Keeps {V = V} page (saturating_add header_start 3) from (count % 2 ^ 16)
          (length cells) page_num (omega arith) (omega arith) (omega arith) small)
        (λ page1 done1.
          Gives-bind _ _ _ _
            (put_u16-Keeps {V = V} page1 (saturating_add header_start 5) (header_start + 5)
              (as_u16 end) (low % 65536) page_num (omega arith)
              (ap as_u16 ends ∙ as_u16-mod low (omega arith)) (omega (arith, done1.1.0))
              (omega (arith, done1.1.0)))
            (λ page2 done2.
              let (page3, put3, (fragments, keeps3)) =
                put_bytes-Keeps {V = V} page2 (header_start + 7) (0 ∷ []) page_num
                  (omega (arith, done1.1.0, done2.1.0)) (omega (arith, done1.1.0, done2.1.0)) in
              let whole =
                Keeps-trans from to page page1 page3
                  (Keeps-widen from (from + 2) from to page page1 (omega arith) (omega arith)
                    (done1.1))
                  (Keeps-trans from to page1 page2 page3
                    (Keeps-widen (header_start + 5) (header_start + 5 + 2) from to page1 page2
                      (omega arith) (omega arith) (done2.1))
                    (Keeps-widen (header_start + 7) (header_start + 7 + 1) from to page2 page3
                      (omega arith) (omega arith) keeps3)) in
              (
                page3,
                ap (λ o. put_bytes page2 o (0 ∷ []) page_num) seventh ∙ put3,
                (
                  whole,
                  (
                    omega (arith, whole.0),
                    keeps3.1 from (to_be 2 (length cells))
                        (inl (omega (arith, length-to_be 2 (length cells))))
                        (done2.1.1 from (to_be 2 (length cells))
                          (inl (omega (arith, length-to_be 2 (length cells)))) (done1.0)),
                    keeps3.1 (header_start + 5) (to_be 2 (low % 65536))
                        (inl (omega (arith, length-to_be 2 (low % 65536)))) (done2.0),
                    room,
                    omega (arith, whole.0),
                    Points-Keeps from to page page3 (header_start + header_len) low cells whole
                        (omega arith) (inl (omega arith)) points,
                  ),
                ),
              )))

  -- The part of the page from the header on is zeroed, the rest stays.
  cleared-Keeps :
      (page : List ℕ) (header_start : ℕ)
      → header_start ≤ length page
      → Gives
          (cleared {V = V} page header_start page_num)
          (λ page'. (length page' ≡ length page) × Holds page' 0 (take header_start page))
  unfolding cleared
  cleared-Keeps page header_start inside =
      let zeros = replicate (length page - header_start) 0 in
      (
        take header_start page ++ zeros,
        rw (le→ltb_false (length page) header_start inside) refl,
        (
          omega (
            arith,
            length-append (take header_start page) zeros,
            length-take header_start page,
            length-replicate {0} {A = ℕ} (length page - header_start) 0,
          ),
          Holds-append (take header_start page) zeros,
        ),
      )

  -- A page that has room for the pointers and the cells is laid out with them, packed at its end;
  -- what stands before the header stays.
  pub write_page_common-IsLayout :
      (page : List ℕ) (header_start page_type header_len : ℕ) (cells : List (ℤ × List ℕ))
      → length page ≤ 65536
      → 8 ≤ header_len
      → header_start + header_len + 2 * length cells + bytes_in cells ≤ length page
      → Solid cells
      → Gives
          (write_page_common {V = V} page header_start page_num page_type header_len
            (cell_bytes cells))
          (λ page'.
            Holds page' 0 (take header_start page)
            × Holds page' header_start (page_type ∷ [])
            × IsLayout page' header_start header_len (length page - bytes_in cells) cells)
  unfolding write_page_common put_u8
  write_page_common-IsLayout page header_start page_type header_len cells small wide room all =
      let low : ℕ = length page - bytes_in cells in
      let front = length-take header_start page in
      Gives-bind _ _ _ _ (cleared-Keeps page header_start (omega arith)) (λ page0 done0.
        Gives-bind _ _ _ _
          (put_bytes-Keeps {V = V} page0 header_start (page_type ∷ []) page_num
            (omega (arith, done0.0)) (omega (arith, done0.0)))
          (λ page1 done1.
            Gives-bind _ _ _ _
              (place_cells-Placed {V = V} page_num page1 cells (omega (arith, done0.0, done1.1.0))
                (omega (arith, done0.0, done1.1.0)) all)
              (λ placed done2.
                let (end, keeps2, stand) = done2 in
                let size1 : length page1 ≡ length page = done1.1.0 ∙ done0.0 in
                let low1 : length page1 - bytes_in cells ≡ low = omega arith in
                Gives-bind _ _ _ _
                  (write_pointers-Points {V = V} page_num (placed.0)
                    (saturating_add header_start header_len) 0 low (placed.2) cells
                    (omega (arith, keeps2.0)) (omega arith) (omega (arith, keeps2.0))
                    (subst (λ low. Placed (placed.0) low (placed.2) cells) low1 stand))
                  (λ page3 done3.
                    let base : saturating_add header_start header_len + 2 * 0
                        ≡ header_start + header_len =
                      omega arith in
                    let keeps3 = done3.0 in
                    let (page4, put, (keeps4, leaf)) =
                      put_header-IsLayout page3 header_start header_len (length (cell_bytes cells))
                        (placed.1) low cells (omega (arith, keeps2.0, keeps3.0))
                        (length-cell_bytes cells) (end ∙ low1) wide (omega arith)
                        (omega (arith, keeps2.0, keeps3.0))
                        (subst (λ at. Points page3 at low cells) base (done3.1)) in
                    let from : ℕ = header_start + 3 in
                    let to : ℕ = length page in
                    let after =
                      Keeps-trans from to page1 (placed.0) page4
                        (Keeps-widen (length page1 - bytes_in cells) (length page1) from to page1
                          (placed.0) (omega arith) (omega arith) keeps2)
                        (Keeps-trans from to (placed.0) page3 page4
                          (Keeps-widen (saturating_add header_start header_len + 2 * 0) low from to
                            (placed.0) page3 (omega arith) (omega arith) keeps3)
                          (Keeps-widen from (header_start + 8) from to page3 page4 (omega arith)
                            (omega arith) keeps4)) in
                    (
                      page4,
                      put,
                      (
                        after.1 0 (take header_start page) (inl (omega arith))
                            (done1.1.1 0 (take header_start page) (inl (omega arith)) (done0.1)),
                        after.1 header_start (page_type ∷ []) (inl (omega arith)) (done1.0),
                        leaf,
                      ),
                    )))))

  pub write_leaf_page-IsLeaf :
      (page : List ℕ) (header_start : ℕ) (cells : List (ℤ × List ℕ))
      → length page ≤ 65536
      → header_start + 8 + 2 * length cells + bytes_in cells ≤ length page
      → Solid cells
      → Gives (write_leaf_page {V = V} page header_start page_num (cell_bytes cells)) (λ page'.
        Holds page' 0 (take header_start page)
        × Holds page' header_start (leaf_table ∷ [])
        × IsLeaf page' header_start (length page - bytes_in cells) cells)
  unfolding write_leaf_page
  write_leaf_page-IsLeaf page header_start cells small room all =
      write_page_common-IsLayout page header_start leaf_table 8 cells small (omega arith) room all

  -- Cells that are written to a leaf page with room for them, 8 bytes of header and 2 for each
  -- pointer counted, are collected from it in order, whatever the page held before.
  pub write_leaf_page-collect_leaf_cells :
      (page : List ℕ) (header_start usable_size : ℕ) (cells : List (ℤ × List ℕ))
      → length page ≤ 65536
      → header_start + 8 + 2 * length cells + bytes_in cells ≤ length page
      → AllCells usable_size cells
      → (write_leaf_page {V = V} page header_start page_num (cell_bytes cells)
          >>= (λ page'. collect_leaf_cells page' page_num usable_size header_start))
        ≡ ok cells
  write_leaf_page-collect_leaf_cells page header_start usable_size cells small room all =
      let (page', put, (front, kind, leaf)) =
        write_leaf_page-IsLeaf page header_start cells small room
          (AllCells-Solid usable_size cells all) in
      ap (λ r. r >>= (λ page'. collect_leaf_cells page' page_num usable_size header_start)) put
      ∙ collect_leaf_cells-IsLeaf page' page_num usable_size header_start
          (length page - bytes_in cells) cells leaf all
