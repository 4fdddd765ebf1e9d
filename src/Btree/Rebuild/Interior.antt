-- ===== src/Btree/Rebuild/Interior.antt =====
-- src/btree.rs: a rebuilt interior page, from which its entries are collected.
use native.Mathlib.Nat.{mod-eq_of_lt}
use sqlite_rs.Prelude.{
  ℕ, suc, ◌+◌, ◌-◌, ◌*◌, ◌%◌, ◌^◌, ◌≤◌, ◌<◌, ◌≡◌, refl, ap, subst, ◌∙◌, arith, inl, List, [], ◌∷◌,
  length, length-append,
}
use sqlite_rs.Prelude.Bytes.{saturating_add, IsU32, to_be, length-to_be, from_be-to_be}
use sqlite_rs.Prelude.Outcome.{ok, ◌>>=◌, Gives, Gives-bind}
use sqlite_rs.Prelude.Int.{ℤ, pos, negsuc}
use sqlite_rs.Record.Value.{IsI64, as_signed, as_unsigned}
use sqlite_rs.Record.Varint.{encode_varint}
use sqlite_rs.Record.Varint.RoundTrip.{decode_varint-encode_varint}
use sqlite_rs.Btree.Page.{cell_ptr_offset, interior_table, read_u32}
use sqlite_rs.Btree.Free.{put_bytes}
use sqlite_rs.Btree.Interior.{interior_entry_at, entries_from, collect_interior_entries}
use sqlite_rs.Btree.Leaf.Scans.{bytes_in}
use sqlite_rs.Btree.Rebuild.{build_interior_cell, cell_bytes, write_interior_page}
use sqlite_rs.Btree.Rebuild.Bytes.{Holds, Holds-slice, Holds-slice_from, Holds-split}
use sqlite_rs.Btree.Rebuild.Leaf.{
  Solid, Points, IsLayout, read_cell_pointer-held, read_num_cells-held,
}
use sqlite_rs.Btree.Rebuild.Keeps.{put_bytes-Keeps, Points-Keeps}
use sqlite_rs.Btree.Rebuild.RoundTrip.{write_page_common-IsLayout}

-- The cells that the code builds for the entries, each with its key.
abbrev pub built : List (ℕ × ℤ) → List (ℤ × List ℕ)
built [] = []
built (entry ∷ entries) = (entry.1, build_interior_cell (entry.0) (entry.1)) ∷ built entries

-- The children are u32, the keys i64.
abbrev pub AreEntries : List (ℕ × ℤ) → Type 0
AreEntries [] = Unit {0}
AreEntries (entry ∷ entries) = IsU32 (entry.0) × IsI64 (entry.1) × AreEntries entries

built-Solid : (entries : List (ℕ × ℤ)) → Solid (built entries)
unfolding build_interior_cell
built-Solid [] = tt
built-Solid ((child, key) ∷ entries) = (
  omega (
    arith,
    length-append (to_be 4 (child % 2 ^ 32)) (encode_varint (as_unsigned 64 key)),
    length-to_be 4 (child % 2 ^ 32),
  ),
  built-Solid entries,
)

length-built : (entries : List (ℕ × ℤ)) → length (built entries) ≡ length entries
length-built [] = refl
length-built (entry ∷ entries) = ap suc (length-built entries)

pub as_signed-as_unsigned : (key : ℤ) → IsI64 key → as_signed 63 (as_unsigned 64 key) ≡ key
as_signed-as_unsigned (pos n) h = ground arith
as_signed-as_unsigned (negsuc n) h = ground arith

pub as_unsigned-bound : (key : ℤ) → as_unsigned 64 key < 2 ^ 64
as_unsigned-bound (pos n) = omega arith
as_unsigned-bound (negsuc n) = omega arith

module _ {V : Type 0} (page_num : ℕ) where
  read_u32-held :
      (page : List ℕ) (at v : ℕ)
      → Holds page at (to_be 4 v)
      → at < 65536
      → IsU32 v
      → read_u32 {V = V} page at page_num ≡ ok v
  unfolding read_u32
  read_u32-held page at v h low small =
      rw
        (
          Holds-slice page at (to_be 4 v) (saturating_add at 4) h (omega (arith, length-to_be 4 v)),
          length-to_be 4 v,
          from_be-to_be 4 v,
        )
        (ap ok (omega arith))

  interior_entry_at-held :
      (page : List ℕ) (ptr_base i start child : ℕ) (key : ℤ)
      → Holds page (ptr_base + 2 * i) (to_be 2 start)
      → Holds page start (build_interior_cell child key)
      → start < 65536
      → ptr_base + 2 * i < 65536
      → IsU32 child
      → IsI64 key
      → interior_entry_at {V = V} page page_num ptr_base i ≡ ok (child, key)
  unfolding interior_entry_at cell_ptr_offset build_interior_cell
  interior_entry_at-held page ptr_base i start child key pointed stands below low small fits =
      let bits : ℕ = as_unsigned 64 key in
      let at : cell_ptr_offset ptr_base i ≡ ptr_base + 2 * i = omega arith in
      let (number, varint) =
        Holds-split page start (to_be 4 (child % 2 ^ 32)) (encode_varint bits) stands in
      let behind : start + length (to_be 4 (child % 2 ^ 32)) ≡ saturating_add start 4 =
        omega (arith, length-to_be 4 (child % 2 ^ 32)) in
      let word : child % 2 ^ 32 ≡ child = mod-eq_of_lt small in
      let (back, found) =
        Holds-slice_from page (saturating_add start 4) (encode_varint bits)
          (subst (λ a. Holds page a (encode_varint bits)) behind varint) in
      rw
        (
          at,
          read_cell_pointer-held {V = V} page page_num 0 (ptr_base + 2 * i) i start pointed below
              low,
          read_u32-held page start child (subst (λ v. Holds page start (to_be 4 v)) word number)
              below small,
          found,
          decode_varint-encode_varint bits back (as_unsigned-bound key),
        )
        (ap (λ k. ok (child, k)) (as_signed-as_unsigned key fits))

  entries_from-Points :
      (page : List ℕ) (ptr_base i low : ℕ) (entries : List (ℕ × ℤ))
      → length page ≤ 65536
      → ptr_base + 2 * i + 2 * length entries ≤ low
      → low ≤ length page
      → Points page (ptr_base + 2 * i) low (built entries)
      → AreEntries entries
      → entries_from (interior_entry_at {V = V} page page_num ptr_base) i (length entries)
        ≡ ok entries
  unfolding entries_from
  entries_from-Points page ptr_base i low [] small room inside points all = refl
  entries_from-Points page ptr_base i low ((child, key) ∷ entries) small room inside
        (start, pointed, stands, above, below, more) (fits, range, all) =
      let along : ptr_base + 2 * i + 2 ≡ ptr_base + 2 * (i + 1) = omega arith in
      rw
        (
          interior_entry_at-held page ptr_base i start child key pointed stands below (omega arith)
              fits range,
          entries_from-Points page ptr_base (i + 1) low entries small (omega arith) inside
              (subst (λ at. Points page at low (built entries)) along more) all,
        )
        refl

  collect_interior_entries-IsLayout :
      (page : List ℕ) (header_start low rightmost : ℕ) (entries : List (ℕ × ℤ))
      → IsLayout page header_start 12 low (built entries)
      → Holds page (header_start + 8) (to_be 4 rightmost)
      → IsU32 rightmost
      → AreEntries entries
      → collect_interior_entries {V = V} page header_start page_num ≡ ok (entries, rightmost)
  unfolding collect_interior_entries
  collect_interior_entries-IsLayout page header_start low rightmost entries
        (small, counted, started, room, inside, points) last fits all =
      let size = length-built entries in
      let count =
        read_num_cells-held {V = V} page page_num 0 header_start (length entries)
          (subst (λ n. Holds page (header_start + 3) (to_be 2 n)) size counted) (omega arith)
          (omega arith) in
      let base : saturating_add header_start 12 ≡ header_start + 12 = omega arith in
      let eighth : saturating_add header_start 8 ≡ header_start + 8 = omega arith in
      let zeroth : header_start + 12 ≡ header_start + 12 + 2 * 0 = omega arith in
      let read =
        entries_from-Points page (header_start + 12) 0 low entries small (omega arith) inside
          (subst (λ at. Points page at low (built entries)) zeroth points) all in
      rw
        (
          count,
          base,
          read,
          eighth,
          read_u32-held page (header_start + 8) rightmost last (omega arith) fits,
        )
        refl

  write_interior_page-IsLayout :
      (page : List ℕ) (header_start rightmost : ℕ) (entries : List (ℕ × ℤ))
      → length page ≤ 65536
      → header_start + 12 + 2 * length entries + bytes_in (built entries) ≤ length page
      → IsU32 rightmost
      → Gives
          (write_interior_page {V = V} page header_start page_num
            (cell_bytes (built entries))
            rightmost)
          (λ page'.
            IsLayout page' header_start 12 (length page - bytes_in (built entries)) (built entries)
            × Holds page' (header_start + 8) (to_be 4 rightmost))
  unfolding write_interior_page
  write_interior_page-IsLayout page header_start rightmost entries small room fits =
      let size = length-built entries in
      let low : ℕ = length page - bytes_in (built entries) in
      let eighth : saturating_add header_start 8 ≡ header_start + 8 = omega arith in
      let word : rightmost % 2 ^ 32 ≡ rightmost = mod-eq_of_lt fits in
      let width = length-to_be 4 rightmost in
      Gives-bind _ _ _ _
        (write_page_common-IsLayout {V = V} page_num page header_start interior_table 12
          (built entries) small (omega arith) (omega arith) (built-Solid entries))
        (λ page1 done.
          let (front, kind, (small1, counted, started, above, inside, points)) = done in
          let (page2, put, (held, keeps)) =
            put_bytes-Keeps {V = V} page1 (header_start + 8) (to_be 4 rightmost) page_num
              (omega arith) small1 in
          (
            page2,
            ap (λ o. put_bytes page1 o (to_be 4 (rightmost % 2 ^ 32)) page_num) eighth
                ∙ ap (λ v. put_bytes page1 (header_start + 8) (to_be 4 v) page_num) word
                ∙ put,
            (
              (
                omega (arith, keeps.0),
                keeps.1 (header_start + 3) (to_be 2 (length (built entries)))
                    (inl (omega (arith, length-to_be 2 (length (built entries))))) counted,
                keeps.1 (header_start + 5) (to_be 2 (low % 65536))
                    (inl (omega (arith, length-to_be 2 (low % 65536)))) started,
                above,
                omega (arith, keeps.0),
                Points-Keeps (header_start + 8) (header_start + 8 + length (to_be 4 rightmost))
                    page1 page2 (header_start + 12) low (built entries) keeps (omega arith)
                    (inl (omega arith)) points,
              ),
              held,
            ),
          ))

  -- Entries that are written to an interior page with room for their cells, 12 bytes of header and 2
  -- for each pointer counted, are collected from it in order, with the rightmost child, whatever
  -- the page held before.
  pub write_interior_page-collect_interior_entries :
      (page : List ℕ) (header_start rightmost : ℕ) (entries : List (ℕ × ℤ))
      → length page ≤ 65536
      → header_start + 12 + 2 * length entries + bytes_in (built entries) ≤ length page
      → IsU32 rightmost
      → AreEntries entries
      → (write_interior_page {V = V} page header_start page_num
            (cell_bytes (built entries))
            rightmost
          >>= (λ page'. collect_interior_entries page' header_start page_num))
        ≡ ok (entries, rightmost)
  write_interior_page-collect_interior_entries page header_start rightmost entries small room fits
        all =
      let (page', put, (layout, last)) =
        write_interior_page-IsLayout page header_start rightmost entries small room fits in
      ap (λ r. r >>= (λ page'. collect_interior_entries page' header_start page_num)) put
      ∙ collect_interior_entries-IsLayout page' header_start
          (length page - bytes_in (built entries)) rightmost entries layout last fits all
