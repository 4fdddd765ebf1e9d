-- ===== src/Btree/Interior/Count.antt =====
-- src/btree.rs: `count_table_rows` counts the rows of a search tree.
use sqlite_rs.Prelude.{
  ℕ, zero, suc, ◌+◌, ◌-◌, ◌^◌, ◌≤◌, ◌<◌, ◌≡◌, refl, ap, ◌∙◌, arith, ltb, min, false, List, ◌++◌,
  length, length-append,
}
use sqlite_rs.Prelude.Bytes.{saturating_add}
use sqlite_rs.Prelude.Outcome.{Result, ok}
use sqlite_rs.Prelude.Int.{ℤ}
use sqlite_rs.Btree.Error.{BtreeError}
use sqlite_rs.Btree.Page.{max_pages_visited}
use sqlite_rs.Btree.Seek.Tree.{SearchTree, leaf, node, tabulate, concat_from, sum_from}
use sqlite_rs.Btree.Interior.{count_children, count_table_rows_inner, count_table_rows}
use sqlite_rs.Btree.Interior.Entries.{collect_interior_entries_lem, read_kind_lem, leaf_count}

length-tabulate : {A : Type 0} (g : ℕ → A) (left i : ℕ) → length (tabulate g i left) ≡ left
unfolding tabulate
length-tabulate g zero i = refl
length-tabulate g (suc left) i = ap suc (length-tabulate g left (i + 1))

module _ {V : Type 0} where
  -- The children are counted one after the other.
  count_children_lem :
      (count : ℕ → ℕ × ℕ → Result (BtreeError V) (ℕ × ℕ)) (key : ℕ → ℤ) (page_at pages_at : ℕ → ℕ)
      (rows_at : ℕ → List ℤ) (n : ℕ)
      → ((i : ℕ)
          → i ≤ n
          → (visited total : ℕ) → visited + pages_at i ≤ max_pages_visited
          → total + length (rows_at i) < 2 ^ 63
          → count (page_at i) (visited, total)
            ≡ ok (visited + pages_at i, total + length (rows_at i)))
      → (left i visited total : ℕ) → i + left ≡ n
      → visited + sum_from pages_at i left ≤ max_pages_visited
      → total + length (concat_from rows_at i left) < 2 ^ 63
      → count_children count (tabulate (λ j. (page_at j, key j)) i left) (visited, total)
        ≡ ok (visited + sum_from pages_at i left, total + length (concat_from rows_at i left))
  unfolding count_children tabulate sum_from concat_from
  count_children_lem count key page_at pages_at rows_at n each zero i visited total ends small few =
      let v : visited ≡ visited + 0 = omega arith in
      let t : total ≡ total + 0 = omega arith in
      ap (λ x. ok (x, total)) v ∙ ap (λ y. ok (visited + 0, y)) t
  count_children_lem count key page_at pages_at rows_at n each (suc left) i visited total ends small
        few =
      let parts = length-append (rows_at i) (concat_from rows_at (i + 1) left) in
      let here = each i (omega arith) visited total (omega arith) (omega arith) in
      let rest =
        count_children_lem count key page_at pages_at rows_at n each left (i + 1)
          (visited + pages_at i) (total + length (rows_at i)) (omega arith) (omega arith)
          (omega arith) in
      let v : visited + pages_at i + sum_from pages_at (i + 1) left
          ≡ visited + (pages_at i + sum_from pages_at (i + 1) left) =
        omega arith in
      let t : total + length (rows_at i) + length (concat_from rows_at (i + 1) left)
          ≡ total + length (rows_at i ++ concat_from rows_at (i + 1) left) =
        omega arith in
      rw (here, rest, v, t) refl

module _ {V : Type 0} (source : ℕ → Result V (List ℕ)) where
  count_inner_lem :
      {depth p pages : ℕ} {rows : List ℤ}
      → SearchTree source depth p pages rows
      → (fuel visited total : ℕ) → depth ≤ fuel
      → visited + pages ≤ max_pages_visited
      → total + length rows < 2 ^ 63
      → count_table_rows_inner source fuel p (visited, total)
        ≡ ok (visited + pages, total + length rows)
  unfolding count_table_rows_inner
  count_inner_lem (leaf page f head was_read framed kind reads up) zero visited total enough small
        few =
      absurd (omega arith)
  count_inner_lem (leaf {depth} {p} page f head was_read framed kind reads up) (suc fuel) visited
        total enough small few =
      let read = read_kind_lem source p page f was_read framed ∙ ap (λ b. ok (b, page)) kind in
      let counted = leaf_count source p page f framed kind in
      let long = length-tabulate (λ i. (head i).0) (f.num_cells) 0 in
      let within : ltb max_pages_visited (visited + 1) ≡ false = ground arith in
      let add : saturating_add visited 1 ≡ visited + 1 = omega arith in
      let sum : min (total + f.num_cells) (2 ^ 63 - 1) ≡ total + f.num_cells = omega arith in
      rw (add, within, read, counted, sum, long) refl
  count_inner_lem
        (node page f key start page_at pages_at rows_of was_read framed kind keys children last up
          trees under over)
        zero visited total enough small few =
      absurd (omega arith)
  count_inner_lem
        (node {depth} {p} page f key start page_at pages_at rows_of was_read framed kind keys
          children last up trees under over)
        (suc fuel) visited total enough small few =
      let n = f.num_cells in
      let read = read_kind_lem source p page f was_read framed ∙ ap (λ b. ok (b, page)) kind in
      let entries =
        collect_interior_entries_lem p page f key start page_at framed kind keys children in
      let parts = length-append (concat_from rows_of 0 n) (rows_of n) in
      let each =
        λ (i : ℕ) (h : i ≤ n) (v t : ℕ). count_inner_lem (trees i h) fuel v t (omega arith) in
      let firsts =
        count_children_lem (count_table_rows_inner source fuel) key page_at pages_at rows_of n each
          n 0 (visited + 1) total (omega arith) (omega arith) (omega arith) in
      let final =
        each n (omega arith) (visited + 1 + sum_from pages_at 0 n)
          (total + length (concat_from rows_of 0 n)) (omega arith) (omega arith) in
      let within : ltb max_pages_visited (visited + 1) ≡ false = ground arith in
      let add : saturating_add visited 1 ≡ visited + 1 = omega arith in
      let v : visited + 1 + sum_from pages_at 0 n + pages_at n
          ≡ visited + (sum_from pages_at 0 n + pages_at n + 1) =
        omega arith in
      let t : total + length (concat_from rows_of 0 n) + length (rows_of n)
          ≡ total + length (concat_from rows_of 0 n ++ rows_of n) =
        omega arith in
      rw (add, within, read, entries, firsts, ← last, final, v, t) refl

  -- On a search tree of at most a million pages, `count_table_rows` gives the number of its rows.
  pub count_table_rows_lem :
      (depth root_page pages : ℕ) (rows : List ℤ)
      → SearchTree source depth root_page pages rows
      → depth ≤ max_pages_visited
      → pages ≤ max_pages_visited
      → length rows < 2 ^ 63
      → count_table_rows source root_page ≡ ok (length rows)
  unfolding count_table_rows
  count_table_rows_lem depth root_page pages rows tree shallow small few =
      rw
        (count_inner_lem tree (max_pages_visited + 1) 0 0 (omega arith) (omega arith) (omega arith))
        (ap ok (omega arith))
