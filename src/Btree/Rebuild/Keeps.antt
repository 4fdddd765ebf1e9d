-- ===== src/Btree/Rebuild/Keeps.antt =====
-- src/btree.rs: pages that differ in one range only.
use sqlite_rs.Prelude.{
  ℕ, ◌+◌, ◌*◌, ◌≤◌, ◌≡◌, refl, ap, ◌∙◌, arith, ◌⊎◌, inl, inr, List, [], ◌∷◌, length,
}
use sqlite_rs.Prelude.Bytes.{to_be, length-to_be}
use sqlite_rs.Prelude.Outcome.{Gives}
use sqlite_rs.Prelude.Int.{ℤ}
use sqlite_rs.Btree.Free.{put_bytes}
use sqlite_rs.Btree.Rebuild.Bytes.{
  Holds, overwrite, length-overwrite, Holds-overwrite_same, Holds-overwrite-Apart,
  put_bytes-overwrite,
}
use sqlite_rs.Btree.Rebuild.Leaf.{Points}

-- Outside of a range.
abbrev pub Outside : ℕ → ℕ → ℕ → List ℕ → Type 0
Outside from to a bytes = (a + length bytes ≤ from) ⊎ (to ≤ a)

-- The second page has the length of the first, and its bytes outside of the range.
abbrev pub Keeps : ℕ → ℕ → List ℕ → List ℕ → Type 0
Keeps from to page page' =
    (length page' ≡ length page)
    × ((a : ℕ) (bytes : List ℕ)
        → Outside from to a bytes
        → Holds page a bytes
        → Holds page' a bytes)

pub Keeps-refl : (from to : ℕ) (page : List ℕ) → Keeps from to page page
Keeps-refl from to page = (refl, λ a bytes out h. h)

pub Keeps-trans :
    (from to : ℕ) (page page' page'' : List ℕ)
    → Keeps from to page page'
    → Keeps from to page' page''
    → Keeps from to page page''
Keeps-trans from to page page' page'' (same, keep) (same', keep') =
    (same' ∙ same, λ a bytes out h. keep' a bytes out (keep a bytes out h))

Outside-narrow :
    (from to from' to' a : ℕ) (bytes : List ℕ)
    → from' ≤ from
    → to ≤ to'
    → Outside from' to' a bytes
    → Outside from to a bytes
Outside-narrow from to from' to' a bytes p q (inl h) = inl (omega arith)
Outside-narrow from to from' to' a bytes p q (inr h) = inr (omega arith)

pub Keeps-widen :
    (from to from' to' : ℕ) (page page' : List ℕ)
    → from' ≤ from
    → to ≤ to'
    → Keeps from to page page'
    → Keeps from' to' page page'
Keeps-widen from to from' to' page page' p q (same, keep) =
    (same, λ a bytes out h. keep a bytes (Outside-narrow from to from' to' a bytes p q out) h)

-- A `put` that fits succeeds: the bytes are there, and the page is kept around them.
pub put_bytes-Keeps :
    {V : Type 0} (page : List ℕ) (o : ℕ) (bytes : List ℕ) (page_num : ℕ)
    → o + length bytes ≤ length page
    → length page ≤ 65536
    → Gives
        (put_bytes {V = V} page o bytes page_num)
        (λ page'. Holds page' o bytes × Keeps o (o + length bytes) page page')
put_bytes-Keeps page o bytes page_num fits small = (
  overwrite page o bytes,
  put_bytes-overwrite page o bytes page_num fits small,
  (
    Holds-overwrite_same page o bytes fits,
    (length-overwrite page o bytes, λ a cs out h. Holds-overwrite-Apart page o bytes a cs out h),
  ),
)

-- A u16 that is put, with the offset and the value as the code computes them.
pub put_u16-Keeps :
    {V : Type 0} (page : List ℕ) (o' o v' v page_num : ℕ)
    → o' ≡ o
    → v' ≡ v
    → o + 2 ≤ length page
    → length page ≤ 65536
    → Gives
        (put_bytes {V = V} page o' (to_be 2 v') page_num)
        (λ page'. Holds page' o (to_be 2 v) × Keeps o (o + 2) page page')
put_u16-Keeps {V} page o' o v' v page_num p q fits small =
    let (page', put, (held, keeps)) =
      put_bytes-Keeps {V = V} page o (to_be 2 v) page_num (omega (arith, length-to_be 2 v)) small in
    (
      page',
      ap (λ o. put_bytes page o (to_be 2 v') page_num) p
          ∙ ap (λ v. put_bytes page o (to_be 2 v) page_num) q
          ∙ put,
      (
        held,
        Keeps-widen o (o + length (to_be 2 v)) o (o + 2) page page' (omega arith)
            (omega (arith, length-to_be 2 v)) keeps,
      ),
    )

pub Points-lower :
    (page : List ℕ) (at low low' : ℕ) (cells : List (ℤ × List ℕ))
    → low' ≤ low
    → Points page at low cells
    → Points page at low' cells
Points-lower page at low low' [] p points = tt
Points-lower page at low low' (cell ∷ cells) p (start, pointed, stands, above, below, more) =
    (start, pointed, stands, omega arith, below, Points-lower page (at + 2) low low' cells p more)

-- A change before the pointers, or between them and the cells, keeps both.
pub Points-Keeps :
    (from to : ℕ) (page page' : List ℕ) (at low : ℕ) (cells : List (ℤ × List ℕ))
    → Keeps from to page page'
    → to ≤ low
    → (to ≤ at) ⊎ (at + 2 * length cells ≤ from)
    → Points page at low cells
    → Points page' at low cells
Points-Keeps from to page page' at low [] keeps p side points = tt
Points-Keeps from to page page' at low (cell ∷ cells) keeps p (inl before)
      (start, pointed, stands, above, below, more) =
    (
      start,
      keeps.1 at (to_be 2 start) (inr before) pointed,
      keeps.1 start (cell.1) (inr (omega arith)) stands,
      above,
      below,
      Points-Keeps from to page page' (at + 2) low cells keeps p (inl (omega arith)) more,
    )
Points-Keeps from to page page' at low (cell ∷ cells) keeps p (inr behind)
      (start, pointed, stands, above, below, more) =
    (
      start,
      keeps.1 at (to_be 2 start) (inl (omega (arith, length-to_be 2 start))) pointed,
      keeps.1 start (cell.1) (inr (omega arith)) stands,
      above,
      below,
      Points-Keeps from to page page' (at + 2) low cells keeps p (inr (omega arith)) more,
    )
