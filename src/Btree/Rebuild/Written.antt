-- ===== src/Btree/Rebuild/Written.antt =====
-- src/btree.rs: the cells of a rebuilt page are placed from its end, and the pointers lead to them.
use native.Mathlib.Nat.{mod-eq_of_lt}
use sqlite_rs.Prelude.{
  ℕ, ◌+◌, ◌-◌, ◌*◌, ◌%◌, ◌≤◌, ◌<◌, ◌≡◌, refl, sym, ap, subst, ◌∙◌, arith, inl, inr, List, [], ◌∷◌,
  length,
}
use sqlite_rs.Prelude.Bytes.{saturating_add, saturating_mul, to_be, length-to_be}
use sqlite_rs.Prelude.Outcome.{ok, ◌>>=◌, Gives, Gives-bind}
use sqlite_rs.Prelude.Int.{ℤ}
use sqlite_rs.Btree.Leaf.Scans.{bytes_in}
use sqlite_rs.Btree.Rebuild.{cell_bytes, as_u16, place_cells, write_pointers}
use sqlite_rs.Btree.Rebuild.Bytes.{Holds}
use sqlite_rs.Btree.Rebuild.Leaf.{Solid, Points}
use sqlite_rs.Btree.Rebuild.Keeps.{
  Keeps, Keeps-refl, Keeps-trans, Keeps-widen, put_bytes-Keeps, put_u16-Keeps,
}

-- The cells stand at these offsets, all behind `low`.
abbrev pub Placed : List ℕ → ℕ → List ℕ → List (ℤ × List ℕ) → Type 0
Placed page low [] [] = Unit {0}
Placed page low [] (cell ∷ cells) = ⊥
Placed page low (off ∷ offs) [] = ⊥
Placed page low (off ∷ offs) (cell ∷ cells) =
    Holds page off (cell.1) × (low ≤ off) × (off < 65536) × Placed page low offs cells

Placed-Keeps :
    (from to : ℕ) (page page' : List ℕ) (low low' : ℕ) (offs : List ℕ) (cells : List (ℤ × List ℕ))
    → Keeps from to page page'
    → to ≤ low
    → low' ≤ low
    → Placed page low offs cells
    → Placed page' low' offs cells
Placed-Keeps from to page page' low low' [] [] keeps p q placed = tt
Placed-Keeps from to page page' low low' [] (cell ∷ cells) keeps p q placed = elim placed [ ]
Placed-Keeps from to page page' low low' (off ∷ offs) [] keeps p q placed = elim placed [ ]
Placed-Keeps from to page page' low low' (off ∷ offs) (cell ∷ cells) keeps p q
      (stands, above, below, more) =
    (
      keeps.1 off (cell.1) (inr (omega arith)) stands,
      omega arith,
      below,
      Placed-Keeps from to page page' low low' offs cells keeps p q more,
    )

pub as_u16-mod : (v : ℕ) → v ≤ 65536 → as_u16 v ≡ v % 65536
as_u16-mod v h = ground arith

module _ {V : Type 0} (page_num : ℕ) where
  pub place_cells-Placed :
      (page : List ℕ) (cells : List (ℤ × List ℕ))
      → length page ≤ 65536
      → bytes_in cells ≤ length page
      → Solid cells
      → Gives (place_cells {V = V} page page_num (cell_bytes cells)) (λ placed.
        (placed.1 ≡ length page - bytes_in cells)
        × Keeps (length page - bytes_in cells) (length page) page (placed.0)
        × Placed (placed.0) (length page - bytes_in cells) (placed.2) cells)
  unfolding place_cells cell_bytes bytes_in
  place_cells-Placed page [] small room all = (
    (page, length page, []),
    refl,
    (omega arith, Keeps-refl (length page - 0) (length page) page, tt),
  )
  place_cells-Placed page (cell ∷ cells) small room all =
      Gives-bind _ _ _ _ (place_cells-Placed page cells small (omega arith) (all.1)) (λ before done.
        let (end, keeps, placed) = done in
        let some_byte = all.0 in
        let low = length page - bytes_in (cell ∷ cells) in
        let low' = length page - bytes_in cells in
        let off = before.1 - length (cell.1) in
        let (page', put, (stands, keeps')) =
          put_bytes-Keeps {V = V} (before.0) off (cell.1) page_num (omega (arith, keeps.0))
            (omega (arith, keeps.0)) in
        (
          (page', off, off ∷ before.2),
          ap (λ r. r >>= (λ page. ok (page, off, off ∷ before.2))) put,
          (
            omega arith,
            Keeps-trans low (length page) page (before.0) page'
                (Keeps-widen low' (length page) low (length page) page (before.0) (omega arith)
                  (omega arith) keeps)
                (Keeps-widen off (off + length (cell.1)) low (length page) (before.0) page'
                  (omega arith) (omega arith) keeps'),
            (
              stands,
              omega arith,
              omega arith,
              Placed-Keeps off (off + length (cell.1)) (before.0) page' low' low (before.2) cells
                  keeps' (omega arith) (omega arith) placed,
            ),
          ),
        ))

  pub write_pointers-Points :
      (page : List ℕ) (ptr_base i low : ℕ) (offs : List ℕ) (cells : List (ℤ × List ℕ))
      → length page ≤ 65536
      → ptr_base + 2 * i + 2 * length cells ≤ low
      → low ≤ length page
      → Placed page low offs cells
      → Gives (write_pointers {V = V} page page_num ptr_base i offs) (λ page'.
        Keeps (ptr_base + 2 * i) low page page' × Points page' (ptr_base + 2 * i) low cells)
  unfolding write_pointers
  write_pointers-Points page ptr_base i low [] [] small room inside placed =
      (page, refl, (Keeps-refl (ptr_base + 2 * i) low page, tt))
  write_pointers-Points page ptr_base i low [] (cell ∷ cells) small room inside placed =
      elim placed [ ]
  write_pointers-Points page ptr_base i low (off ∷ offs) [] small room inside placed =
      elim placed [ ]
  write_pointers-Points page ptr_base i low (off ∷ offs) (cell ∷ cells) small room inside
        (stands, above, below, more) =
      let at : ℕ = ptr_base + 2 * i in
      let at' : ℕ = ptr_base + 2 * (i + 1) in
      let along : at + 2 ≡ at' = omega arith in
      Gives-bind _ _ _ _
        (put_u16-Keeps {V = V} page (saturating_add ptr_base (saturating_mul i 2)) at (as_u16 off)
          off page_num (omega arith) (as_u16-mod off (omega arith) ∙ mod-eq_of_lt below)
          (omega arith) small)
        (λ page1 done.
          let (pointed, keeps) = done in
          let (page2, rest, (keeps', points)) =
            write_pointers-Points page1 ptr_base (i + 1) low offs cells (omega (arith, keeps.0))
              (omega arith) (omega (arith, keeps.0))
              (Placed-Keeps at (at + 2) page page1 low low offs cells keeps (omega arith)
                (omega arith) more) in
          (
            page2,
            rest,
            (
              Keeps-trans at low page page1 page2
                  (Keeps-widen at (at + 2) at low page page1 (omega arith) (omega arith) keeps)
                  (Keeps-widen at' low at low page1 page2 (omega arith) (omega arith) keeps'),
              (
                off,
                keeps'.1 at (to_be 2 off) (inl (omega (arith, length-to_be 2 off))) pointed,
                keeps'.1 off (cell.1) (inr above) (keeps.1 off (cell.1) (inr (omega arith)) stands),
                above,
                below,
                subst (λ at. Points page2 at low cells) (sym along) points,
              ),
            ),
          ))
