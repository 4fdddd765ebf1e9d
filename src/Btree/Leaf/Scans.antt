-- ===== src/Btree/Leaf/Scans.antt =====
-- src/btree.rs: the scans without copies say of a leaf page what the collected cells say.
use native.Mathlib.Nat.{suc-mul, mul-le-mul}
use sqlite_rs.Prelude.{
  ℕ, zero, suc, ◌+◌, ◌-◌, ◌*◌, ◌^◌, ◌≤◌, ◌<◌, ◌≡◌, refl, sym, ap, subst, ◌∙◌, arith, ◌==◌, ltb,
  ◌&&◌, ◌||◌, if◌then◌else◌, Bool, false, Bool-cases, inl, inr, List, [], ◌∷◌, length, length-take,
  length-drop, drop, some,
}
use sqlite_rs.Prelude.Bytes.{saturating_add, slice, slice-length}
use sqlite_rs.Prelude.Outcome.{Result, ok, err, ok_or, ok_or-eq-ok, ◌>>=◌, >>=-eq-ok}
use sqlite_rs.Prelude.Int.{ℤ}
use sqlite_rs.Btree.Error.{BtreeError, payload_too_short, duplicate_rowid}
use sqlite_rs.Btree.Page.{read_num_cells}
use sqlite_rs.Btree.Cursor.Work.{read_num_cells-bound}
use sqlite_rs.Btree.Leaf.{
  eq_ℤ, gt_ℤ, end_of_cell, cell_at, collect_from, collect_leaf_cells, scan_from, scan_leaf_cells,
}

-- Whether one of the cells has the rowid.
unfoldable pub has_rowid : ℤ → List (ℤ × List ℕ) → Bool
has_rowid rowid [] = false
has_rowid rowid (cell ∷ cells) = eq_ℤ (cell.0) rowid || has_rowid rowid cells

-- The number of cells before the first one with a greater rowid.
unfoldable pub before : ℤ → List (ℤ × List ℕ) → ℕ
before rowid [] = 0
before rowid (cell ∷ cells) = if gt_ℤ (cell.0) rowid then 0 else suc (before rowid cells)

-- The bytes of the cells.
unfoldable pub bytes_in : List (ℤ × List ℕ) → ℕ
bytes_in [] = 0
bytes_in (cell ∷ cells) = length (cell.1) + bytes_in cells

-- What the scan is to give for these cells.
unfoldable pub scan_answer :
    {V : Type 0} → ℤ → List (ℤ × List ℕ) → ℕ → ℕ → ℕ → Result (BtreeError V) (ℕ × ℕ × ℕ)
scan_answer rowid cells insert_pos num_cells total =
    if has_rowid rowid cells then err (duplicate_rowid rowid) else ok (insert_pos, num_cells, total)

pub slice-inside :
    (xs : List ℕ) (a b : ℕ) (ys : List ℕ)
    → slice xs a b ≡ some ys
    → (b ≤ length xs) × (length ys ≤ length xs)
unfolding slice
slice-inside xs a b ys e = ground (arith, length-take (b - a) (drop a xs), length-drop a xs)

-- The position at the end of the cells.
kept : (pos n i : ℕ) → i + 0 ≡ n → pos ≡ (if pos == n then i + 0 else pos)
kept pos n i e = ground arith

plus_zero : (n : ℕ) → n ≡ n + 0
plus_zero n = omega arith

zero_plus : (n : ℕ) → n ≡ 0 + n
zero_plus n = omega arith

-- A cell more on the page.
grow : (a b n l : ℕ) → a ≤ l → b ≤ n * l → a + b ≤ suc n * l
grow a b n l h k = omega (arith, suc-mul n l)

product : (n l : ℕ) → n < 2 ^ 16 → l < 2 ^ 32 → n * l ≤ 65536 * 2 ^ 32
product n l h k =
    let a : n ≤ 65536 = omega arith in let b : l ≤ 2 ^ 32 = omega arith in mul-le-mul a b

-- The position behind a cell.
kept_on :
    (cell : ℤ × ℕ × ℕ × ℕ) (bytes : List ℕ) (rest : List (ℤ × List ℕ)) (rowid : ℤ) (pos n i : ℕ)
    → i < n
    → (if (if gt_ℤ (cell.0) rowid && (pos == n) then i else pos) == n
        then i + 1 + before rowid rest
        else (if gt_ℤ (cell.0) rowid && (pos == n) then i else pos))
      ≡ (if pos == n then i + before rowid ((cell.0, bytes) ∷ rest) else pos)
unfolding before
kept_on cell bytes rest rowid pos n i inside = ground arith

module _ {V : Type 0} (buf : List ℕ) (page_num usable_size : ℕ) where
  one : ℤ × List ℕ → List (ℤ × List ℕ) → Result (BtreeError V) (List (ℤ × List ℕ))
  one cell rest = ok (cell ∷ rest)

  pub collect_from-suc :
      (ptr_base i left : ℕ) (cells : List (ℤ × List ℕ))
      → collect_from {V = V} buf page_num usable_size ptr_base i (suc left) ≡ ok cells
      → (cell : ℤ × ℕ × ℕ × ℕ) × (bytes : List ℕ) × (rest : List (ℤ × List ℕ)) × (cell_at {V = V}
            buf page_num usable_size ptr_base i
          ≡ ok cell)
        × (slice buf (cell.1) (end_of_cell usable_size (cell.2) (cell.3)) ≡ some bytes)
        × (collect_from {V = V} buf page_num usable_size ptr_base (i + 1) left ≡ ok rest)
        × ((cell.0, bytes) ∷ rest ≡ cells)
  unfolding collect_from one
  collect_from-suc ptr_base i left cells e =
      let base = ptr_base in
      let tail = λ (cell : ℤ × ℕ × ℕ × ℕ) (bytes : List ℕ) (rest : List (ℤ × List ℕ)).
        one (cell.0, bytes) rest in
      let cut = λ (cell : ℤ × ℕ × ℕ × ℕ).
        ok_or {E = BtreeError V} (slice buf (cell.1) (end_of_cell usable_size (cell.2) (cell.3)))
          (payload_too_short page_num) in
      let more = collect_from {V = V} buf page_num usable_size base (i + 1) left in
      let (cell, e1, r1) =
        >>=-eq-ok (cell_at {V = V} buf page_num usable_size base i)
          (λ cell. cut cell >>= (λ bytes. more >>= tail cell bytes)) e in
      let (bytes, e2, r2) = >>=-eq-ok (cut cell) (λ bytes. more >>= tail cell bytes) r1 in
      let (rest, e3, r3) = >>=-eq-ok more (tail cell bytes) r2 in
      (cell, bytes, rest, e1, ok_or-eq-ok _ _ bytes e2, e3, cc)

  -- The position kept, or that of the first greater rowid.
  scan_from_lem :
      (ptr_base n : ℕ) (rowid : ℤ) (left i insert_pos total : ℕ) (cells : List (ℤ × List ℕ))
      → collect_from {V = V} buf page_num usable_size ptr_base i left ≡ ok cells
      → i + left ≡ n
      → total + bytes_in cells < 2 ^ 64
      → scan_from {V = V} buf page_num usable_size ptr_base n rowid insert_pos total i left
        ≡ scan_answer rowid cells
            (if insert_pos == n then i + before rowid cells else insert_pos)
            n
            (total + bytes_in cells)
  unfolding collect_from scan_from has_rowid before bytes_in scan_answer
  scan_from_lem ptr_base n rowid zero i insert_pos total cells e ends few =
      let none_left : [] ≡ cells = cc in
      subst
        (λ cells.
          ok (insert_pos, n, total)
          ≡ scan_answer {V = V} rowid cells
              (if insert_pos == n then i + before rowid cells else insert_pos) n
              (total + bytes_in cells))
        none_left
        (ap (λ q. ok (q, n, total)) (kept insert_pos n i ends)
          ∙ ap (λ t. ok (if insert_pos == n then i + 0 else insert_pos, n, t)) (plus_zero total))
  scan_from_lem ptr_base n rowid (suc left) i insert_pos total cells e ends few =
      let (cell, bytes, rest, got, cut, more, split) = collect_from-suc ptr_base i left cells e in
      let long = slice-length buf (cell.1) (end_of_cell usable_size (cell.2) (cell.3)) bytes cut in
      let (inside, short) =
        slice-inside buf (cell.1) (end_of_cell usable_size (cell.2) (cell.3)) bytes cut in
      let counted : total + (length bytes + bytes_in rest) < 2 ^ 64 =
        subst (λ c. total + bytes_in c < 2 ^ 64) (sym split) few in
      subst
        (λ cells.
          scan_from {V = V} buf page_num usable_size ptr_base n rowid insert_pos total i (suc left)
          ≡ scan_answer rowid cells (if insert_pos == n then i + before rowid cells else insert_pos)
              n (total + bytes_in cells))
        split
        (elim (Bool-cases (eq_ℤ (cell.0) rowid)) [
          | inl same ↦ rw (got, same) refl
          | inr other ↦
              let end = end_of_cell usable_size (cell.2) (cell.3) in
              let next = if gt_ℤ (cell.0) rowid && (insert_pos == n) then i else insert_pos in
              let under : ltb (length buf) end ≡ false = ground (arith, inside) in
              let size : saturating_add total (end - cell.1) ≡ total + length bytes = omega arith in
              let rec =
                scan_from_lem ptr_base n rowid left (i + 1) next (total + length bytes) rest more
                  (omega arith) (omega arith) in
              let sum : total + length bytes + bytes_in rest
                  ≡ total + (length bytes + bytes_in rest) =
                omega arith in
              let place = kept_on cell bytes rest rowid insert_pos n i (omega arith) in
              rw (got, other, under, size, rec, sum, place) refl
        ])

  pub bytes_in-bound :
      (ptr_base left i : ℕ) (cells : List (ℤ × List ℕ))
      → collect_from {V = V} buf page_num usable_size ptr_base i left ≡ ok cells
      → (length cells ≡ left) × (bytes_in cells ≤ left * length buf)
  unfolding collect_from bytes_in
  bytes_in-bound ptr_base zero i cells e =
      let none_left : [] ≡ cells = cc in
      subst (λ c. (length c ≡ 0) × (bytes_in c ≤ 0 * length buf)) none_left (refl, omega arith)
  bytes_in-bound ptr_base (suc left) i cells e =
      let (cell, bytes, rest, got, cut, more, split) = collect_from-suc ptr_base i left cells e in
      let (inside, short) =
        slice-inside buf (cell.1) (end_of_cell usable_size (cell.2) (cell.3)) bytes cut in
      let (long, few) = bytes_in-bound ptr_base left (i + 1) rest more in
      subst (λ c. (length c ≡ suc left) × (bytes_in c ≤ suc left * length buf)) split
        (ap suc long, grow (length bytes) (bytes_in rest) left (length buf) short few)

  -- Where the cells of a leaf can be collected, `scan_leaf_cells` finds a rowid that one of them has,
  -- and otherwise gives the number of cells before the first greater rowid, the number of cells, and
  -- the number of their bytes; the page has fewer than 2^32 bytes.
  pub scan_leaf_cells_lem :
      (header_start : ℕ) (rowid : ℤ) (cells : List (ℤ × List ℕ))
      → length buf < 2 ^ 32
      → collect_leaf_cells {V = V} buf page_num usable_size header_start ≡ ok cells
      → scan_leaf_cells {V = V} buf page_num usable_size header_start rowid
        ≡ scan_answer rowid cells (before rowid cells) (length cells) (bytes_in cells)
  unfolding collect_leaf_cells scan_leaf_cells
  scan_leaf_cells_lem header_start rowid cells small e =
      let base = saturating_add header_start 8 in
      let (n, counted, all) =
        >>=-eq-ok (read_num_cells buf header_start page_num)
          (λ n. collect_from buf page_num usable_size base 0 n) e in
      let bound = read_num_cells-bound buf header_start page_num n counted in
      let (long, few) = bytes_in-bound base n 0 cells all in
      let room : n * length buf ≤ 65536 * 2 ^ 32 = product n (length buf) bound small in
      let start : (if n == n then 0 + before rowid cells else n) ≡ before rowid cells =
        ground arith in
      let scanned = scan_from_lem base n rowid n 0 n 0 cells all (omega arith) (omega arith) in
      rw counted (
        scanned
        ∙ (ap (λ p. scan_answer rowid cells p n (0 + bytes_in cells)) start
            ∙ (ap (λ t. scan_answer rowid cells (before rowid cells) n t)
                  (sym (zero_plus (bytes_in cells)))
                ∙ ap (λ m. scan_answer rowid cells (before rowid cells) m (bytes_in cells))
                    (sym long))))
