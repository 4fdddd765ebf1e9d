-- ===== src/Btree/Seek/Found.antt =====
-- src/btree.rs: `seek` finds a rowid exactly when it is a row of the search tree.
use sqlite_rs.Prelude.{
  ℕ, zero, suc, ◌+◌, ◌-◌, ◌≤◌, ◌<◌, ◌≡◌, refl, sym, ap, subst, ◌∙◌, arith, ltb, false, Bool-cases,
  ◌⊎◌, inl, inr, List, ◌++◌, Option, none, some,
}
use sqlite_rs.Prelude.Outcome.{Result, ok}
use sqlite_rs.Prelude.Int.{ℤ, ◌≤ℤ◌}
use sqlite_rs.Btree.Error.{BtreeError}
use sqlite_rs.Btree.Page.{fetch, read_u32, max_pages_visited}
use sqlite_rs.Btree.Cursor.{Frame, TableCursor, frame_of, leaf_cell}
use sqlite_rs.Btree.Cursor.Work.{frame_of-work}
use sqlite_rs.Btree.Seek.{
  Probe, found, absent, below, probe_of, probe_page, seek_loop, settle_seek, seek, search_leaf,
  interior_key_at,
}
use sqlite_rs.Btree.Seek.Search.{◌<ℤ◌, LeafAnswer, search_leaf_lem, search_child_lem}
use sqlite_rs.Btree.Seek.Frames.{probe_page-leaf, probe_page-interior}
use sqlite_rs.Btree.Seek.Tree.{SearchTree, leaf, node, IsRow, tabulate, concat_from}
use sqlite_rs.Btree.Seek.Rows.{IsRow-tabulate, tabulate-IsRow, rows_cases, rows_at}

module _ {V : Type 0} (source : ℕ → Result V (List ℕ)) where
  -- The rowid is found, and is a row, or it is not found, and is none.
  abbrev pub SeekAnswer :
      ℤ → List ℤ → Result (BtreeError V) (Option (ℤ × ℕ × ℕ × ℕ × List ℕ)) → Type 0
  SeekAnswer target rows r =
      ((len at p : ℕ) × (page : List ℕ) × (r ≡ ok (some (target, len, at, p, page)))
        × IsRow target rows)
      ⊎ ((r ≡ ok none) × ¬ IsRow target rows)

  pub seek_loop-probe :
      (target : ℤ) (visits p : ℕ) (page : List ℕ) (probe : Probe)
      → fetch source p ≡ ok page
      → probe_page {V = V} target p page ≡ ok probe
      → seek_loop source target (suc visits) p ≡ elim probe [
        | found (rowid, payload_len, tail_start) ↦
            ok (some (rowid, payload_len, tail_start, p, page))
        | absent ↦ ok none
        | below next_page ↦ seek_loop source target visits next_page
      ]
  unfolding seek_loop
  seek_loop-probe target visits p page probe was_read probed = rw (was_read, probed) refl

  leaf-SeekAnswer :
      (target : ℤ) (visits p : ℕ) (page : List ℕ) (f : Frame) (head : ℕ → ℤ × ℕ × ℕ)
      → fetch source p ≡ ok page
      → frame_of {V = V} p false page ≡ ok f
      → f.is_interior ≡ false
      → LeafAnswer {V = V} head
          (f.num_cells)
          target
          (search_leaf (leaf_cell f) target (f.num_cells) 0 (f.num_cells))
      → SeekAnswer target
          (tabulate (λ i. (head i).0) 0 (f.num_cells))
          (seek_loop source target (suc visits) p)
  unfolding probe_of
  leaf-SeekAnswer target visits p page f head was_read framed kind (inl (i, inside, hit, same)) =
      let probed = probe_page-leaf target p page f framed kind ∙ rw hit refl in
      let len = (head i).1 in
      let at = (head i).2 in
      inl (
        len,
        at,
        p,
        page,
        seek_loop-probe target visits p page (found (head i)) was_read probed
            ∙ ap (λ t. ok (some (t, len, at, p, page))) same,
        subst (λ t. IsRow t (tabulate (λ j. (head j).0) 0 (f.num_cells))) same
            (tabulate-IsRow (λ j. (head j).0) (f.num_cells) 0 i (omega arith) (omega arith)),
      )
  leaf-SeekAnswer target visits p page f head was_read framed kind (inr (missed, others)) =
      let probed = probe_page-leaf target p page f framed kind ∙ rw missed refl in
      inr (
        seek_loop-probe target visits p page absent was_read probed,
        λ h.
            (let (j, above, inside, e) =
                IsRow-tabulate (λ j. (head j).0) target 0 (f.num_cells) h in
              others j (omega arith) e),
      )

  -- A row of a page's subtrees is below the child that the search picks.
  picked :
      (key : ℕ → ℤ) (rows : ℕ → List ℤ) (n : ℕ) (target : ℤ)
      → ((i j : ℕ) → i ≤ j → j < n → key i ≤ℤ key j)
      → ((i : ℕ) → i < n → (t : ℤ) → IsRow t (rows i) → t ≤ℤ key i)
      → ((i : ℕ) → i < n → (t : ℤ) → IsRow t (rows (i + 1)) → key i <ℤ t)
      → (i : ℕ) → i ≤ n
      → ((j : ℕ) → j < i → key j <ℤ target)
      → (i < n → target ≤ℤ key i)
      → (j : ℕ) → j ≤ n
      → IsRow target (rows j)
      → IsRow target (rows i)
  picked key rows n target up under over i inside smaller bound j within h =
      elim (Bool-cases (ltb j i)) [
        | inl less ↦
            let low = under j (ground arith) target h in
            let high = smaller j (ground arith) in absurd (omega arith)
        | inr rest ↦ elim (Bool-cases (ltb i j)) [
          | inl more ↦
              let before : j - 1 + 1 ≡ j = ground arith in
              let low =
                over (j - 1) (ground arith) target
                  (subst (λ k. IsRow target (rows k)) (sym before) h) in
              let high = bound (ground arith) in
              let between = up i (j - 1) (ground arith) (ground arith) in absurd (omega arith)
          | inr same ↦ subst (λ k. IsRow target (rows k)) (ground arith) h
        ]
      ]

  SeekAnswer-map :
      (target : ℤ) (xs ys : List ℤ) (r : Result (BtreeError V) (Option (ℤ × ℕ × ℕ × ℕ × List ℕ)))
      → (IsRow target xs → IsRow target ys)
      → (IsRow target ys → IsRow target xs)
      → SeekAnswer target xs r
      → SeekAnswer target ys r
  SeekAnswer-map target xs ys r to from (inl (len, at, p, page, e, h)) =
      inl (len, at, p, page, e, to h)
  SeekAnswer-map target xs ys r to from (inr (e, h)) = inr (e, λ k. h (from k))

  -- The search below a page with enough visits left.
  seek_loop-SeekAnswer :
      {depth p pages : ℕ} {rows : List ℤ}
      → SearchTree source depth p pages rows
      → (target : ℤ) (visits : ℕ) → depth ≤ visits
      → SeekAnswer target rows (seek_loop source target visits p)
  seek_loop-SeekAnswer (leaf page f head was_read framed kind reads up) target zero enough =
      absurd (omega arith)
  seek_loop-SeekAnswer (leaf {depth} {p} page f head was_read framed kind reads up) target
        (suc visits) enough =
      let (work, small) = frame_of-work p false false page f framed in
      leaf-SeekAnswer target visits p page f head was_read framed kind (
        search_leaf_lem (leaf_cell f) head (f.num_cells) target reads up small (f.num_cells) 0
          (f.num_cells) (omega arith) (omega arith) (λ i h. absurd (omega arith))
          (λ i h k. absurd (omega arith)))
  seek_loop-SeekAnswer
        (node page f key start page_at pages_at rows_of was_read framed kind keys children last up
          trees under over)
        target zero enough =
      absurd (omega arith)
  seek_loop-SeekAnswer
        (node {depth} {p} page f key start page_at pages_at rows_of was_read framed kind keys
          children last up trees under over)
        target (suc visits) enough =
      let n = f.num_cells in
      let (work, small) = frame_of-work p false false page f framed in
      let (i, inside, hit, smaller, bound) =
        search_child_lem (interior_key_at page p (f.cell_ptr_base))
          (λ cell_start. read_u32 page cell_start p) key start page_at n target keys children up
          small n 0 n (omega arith) (omega arith) (omega arith) (λ i h. absurd (omega arith))
          (λ h. absurd (omega arith)) in
      let probed = probe_page-interior target p page f framed kind ∙ rw (← last, hit) refl in
      let went = seek_loop-probe target visits p page (below (page_at i)) was_read probed in
      let answer = seek_loop-SeekAnswer (trees i inside) target visits (omega arith) in
      subst (SeekAnswer target (concat_from rows_of 0 n ++ rows_of n)) (sym went) (
        SeekAnswer-map target (rows_of i) (concat_from rows_of 0 n ++ rows_of n) _
          (rows_at rows_of target n i inside)
          (λ h.
            (let (j, within, k) = rows_cases rows_of target n h in
              picked key rows_of n target up under over i inside smaller bound j within k))
          answer)

  -- On a search tree of at most a million levels, `seek` gives a rowid back that is a row of the tree
  -- and none for any other.
  pub seek_lem :
      (c : TableCursor) (depth pages : ℕ) (rows : List ℤ)
      → SearchTree source depth (c.root_page) pages rows
      → depth ≤ max_pages_visited
      → (target : ℤ)
      → (((seek source c target).1 ≡ ok (some target)) × IsRow target rows)
        ⊎ (((seek source c target).1 ≡ ok none) × ¬ IsRow target rows)
  unfolding seek settle_seek
  seek_lem c depth pages rows tree shallow target =
      elim (seek_loop-SeekAnswer tree target max_pages_visited shallow) [
        | inl (len, at, p, page, e, h) ↦ inl (ap (λ r. (settle_seek c r).1) e, h)
        | inr (e, h) ↦ inr (ap (λ r. (settle_seek c r).1) e, h)
      ]
