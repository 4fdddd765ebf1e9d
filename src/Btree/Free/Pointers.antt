-- ===== src/Btree/Free/Pointers.antt =====
-- src/btree.rs: the pointers of a leaf page, moved up by one from an index on.
use sqlite_rs.Prelude.{
  ℕ, zero, suc, ◌+◌, ◌*◌, ◌%◌, ◌^◌, ◌≤◌, ◌≡◌, refl, sym, ap, subst, ◌∙◌, arith, inr, List, [], ◌∷◌,
  ◌++◌, length,
}
use sqlite_rs.Prelude.Bytes.{saturating_add, to_be, length-to_be, from_be-to_be}
use sqlite_rs.Prelude.Outcome.{ok, Gives, Gives-bind}
use sqlite_rs.Prelude.Int.{ℤ}
use sqlite_rs.Btree.Page.{cell_ptr_offset, read_cell_pointer}
use sqlite_rs.Btree.Free.{read_u16, write_u16, read_content_start}
use sqlite_rs.Btree.Free.Splice.{shift_up}
use sqlite_rs.Btree.Rebuild.Bytes.{Holds, Holds-slice}
use sqlite_rs.Btree.Rebuild.Leaf.{Points, read_cell_pointer-held}
use sqlite_rs.Btree.Rebuild.Keeps.{
  Keeps, Keeps-refl, Keeps-trans, Keeps-widen, put_u16-Keeps, Points-Keeps,
}

split_last :
    (xs : List (ℤ × List ℕ)) (n : ℕ)
    → length xs ≡ suc n
    → (front : List (ℤ × List ℕ)) × (x : ℤ × List ℕ) × (front ++ (x ∷ []) ≡ xs) × (length front ≡ n)
split_last [] n e = absurd (omega arith)
split_last (x ∷ []) zero e = ([], x, refl, refl)
split_last (x ∷ []) (suc n) e = absurd (omega arith)
split_last (x ∷ (y ∷ xs)) zero e = absurd (omega arith)
split_last (x ∷ (y ∷ xs)) (suc n) e =
    let (front, last, same, size) = split_last (y ∷ xs) n (omega arith) in
    (x ∷ front, last, ap (λ t. x ∷ t) same, omega arith)

pub Points-append :
    (page : List ℕ) (at at' low : ℕ) (front back : List (ℤ × List ℕ))
    → at' ≡ at + 2 * length front
    → Points page at low front
    → Points page at' low back
    → Points page at low (front ++ back)
Points-append page at at' low [] back e p q =
    let here : at' ≡ at = omega arith in subst (λ at. Points page at low back) here q
Points-append page at at' low (cell ∷ front) back e (start, pointed, stands, above, below, more) q =
    (
      start,
      pointed,
      stands,
      above,
      below,
      Points-append page (at + 2) at' low front back (omega arith) more q,
    )

pub Points-split :
    (page : List ℕ) (at at' low : ℕ) (front back : List (ℤ × List ℕ))
    → at' ≡ at + 2 * length front
    → Points page at low (front ++ back)
    → Points page at low front × Points page at' low back
Points-split page at at' low [] back e p =
    let here : at ≡ at' = omega arith in (tt, subst (λ at. Points page at low back) here p)
Points-split page at at' low (cell ∷ front) back e (start, pointed, stands, above, below, more) =
    let (p, q) = Points-split page (at + 2) at' low front back (omega arith) more in
    ((start, pointed, stands, above, below, p), q)

module _ {V : Type 0} (page_num : ℕ) where
  pub read_content_start-held :
      (page : List ℕ) (header_start low : ℕ)
      → Holds page (header_start + 5) (to_be 2 (low % 65536))
      → header_start + 8 ≤ low
      → low ≤ 65536
      → read_content_start {V = V} page header_start page_num ≡ ok low
  unfolding read_content_start read_u16
  read_content_start-held page header_start low held above small =
      let same : saturating_add header_start 5 ≡ header_start + 5 = omega arith in
      rw
        (
          same,
          Holds-slice page (header_start + 5) (to_be 2 (low % 65536))
              (saturating_add (header_start + 5) 2) held
              (omega (arith, length-to_be 2 (low % 65536))),
          length-to_be 2 (low % 65536),
          from_be-to_be 2 (low % 65536),
        )
        (ap ok (ground arith))

  -- The pointers from `index` on move up by one, the last one first.
  pub shift_up-Points :
      (left : ℕ) (page : List ℕ) (ptr_base index at low : ℕ) (back : List (ℤ × List ℕ))
      → length page ≤ 65536
      → at ≡ ptr_base + 2 * index
      → length back ≡ left
      → at + 2 * left + 2 ≤ low
      → low ≤ length page
      → Points page at low back
      → Gives
          (shift_up {V = V} page page_num ptr_base index left)
          (λ page'. Keeps (at + 2) (at + 2 + 2 * left) page page' × Points page' (at + 2) low back)
  unfolding shift_up cell_ptr_offset write_u16
  shift_up-Points zero page ptr_base index at low [] small p e room inside points =
      (page, refl, (Keeps-refl (at + 2) (at + 2 + 2 * 0) page, tt))
  shift_up-Points zero page ptr_base index at low (cell ∷ back) small p e room inside points =
      absurd (omega arith)
  shift_up-Points (suc left) page ptr_base index at low back small p e room inside points =
      let (front, cell, whole, size) = split_last back left e in
      let last : ℕ = at + 2 * left in
      let (before, (start, pointed, stands, above, below, end)) =
        Points-split page at last low front (cell ∷ []) (omega arith)
          (subst (λ cells. Points page at low cells) (sym whole) points) in
      let here : cell_ptr_offset ptr_base (index + left) ≡ last = omega arith in
      Gives-bind _ _ (λ v. v ≡ start) _
        (
          start,
          ap (λ o. read_cell_pointer page o page_num (index + left)) here
              ∙ read_cell_pointer-held {V = V} page page_num 0 last (index + left) start pointed
                  below (omega arith),
          refl,
        )
        (λ v found.
          Gives-bind _ _ _ _
            (put_u16-Keeps {V = V} page (cell_ptr_offset ptr_base (saturating_add (index + left) 1))
              (last + 2) (v % 2 ^ 16) start page_num (omega arith) (omega arith) (omega arith)
              small)
            (λ page1 done.
              let (moved, keeps) = done in
              let (page2, rest, (keeps', points')) =
                shift_up-Points left page1 ptr_base index at low front (omega (arith, keeps.0)) p
                  size (omega arith) (omega (arith, keeps.0))
                  (Points-Keeps (last + 2) (last + 2 + 2) page page1 at low front keeps
                    (omega arith) (inr (omega arith)) before) in
              (
                page2,
                rest,
                (
                  Keeps-trans (at + 2) (at + 2 + 2 * suc left) page page1 page2
                      (Keeps-widen (last + 2) (last + 2 + 2) (at + 2) (at + 2 + 2 * suc left) page
                        page1 (omega arith) (omega arith) keeps)
                      (Keeps-widen (at + 2) (at + 2 + 2 * left) (at + 2) (at + 2 + 2 * suc left)
                        page1 page2 (omega arith) (omega arith) keeps'),
                  subst (λ cells. Points page2 (at + 2) low cells) whole
                      (Points-append page2 (at + 2) (last + 2) low front (cell ∷ []) (omega arith)
                        points'
                        (
                          start,
                          keeps'.1 (last + 2) (to_be 2 start) (inr (omega arith)) moved,
                          keeps'.1 start (cell.1) (inr (omega arith))
                              (keeps.1 start (cell.1) (inr (omega arith)) stands),
                          above,
                          below,
                          tt,
                        )),
                ),
              )))
