-- ===== src/Btree/Interior/Descent.antt =====
-- src/btree.rs: `find_leaf_page` comes to the leaf that `seek` searches.
use Prim.Native.Nat.{Ordering}
use mathlib.Core.List.{append-nil, append_assoc}
use sqlite_rs.Prelude.{
  ℕ, zero, suc, ◌+◌, ◌≤◌, ◌<◌, ◌≡◌, refl, sym, ap, subst, ◌∙◌, arith, ltb, false, true, Bool-cases,
  inl, inr, List, [], ◌∷◌, ◌++◌, length, ◌⊎◌,
}
use sqlite_rs.Prelude.Outcome.{Result, ok}
use sqlite_rs.Prelude.Int.{ℤ, ◌≤ℤ◌}
use sqlite_rs.Btree.Page.{read_u32, page1_header_start}
use sqlite_rs.Btree.Cursor.Work.{frame_of-work}
use sqlite_rs.Btree.Seek.{cmp, below, seek_loop, interior_key_at}
use sqlite_rs.Btree.Seek.Search.{◌<ℤ◌, cmp-cases, search_child_lem}
use sqlite_rs.Btree.Seek.Frames.{probe_page-interior}
use sqlite_rs.Btree.Seek.Tree.{SearchTree, leaf, node, tabulate}
use sqlite_rs.Btree.Seek.Found.{seek_loop-probe}
use sqlite_rs.Btree.Interior.{pick_child, read_kind, collect_interior_entries, find_leaf_page}
use sqlite_rs.Btree.Interior.Entries.{collect_interior_entries_lem, read_kind_lem}

-- The linear search picks the child that the binary search picks.
pick_child_lem :
    (key : ℕ → ℤ) (page_at : ℕ → ℕ) (target : ℤ) (n k : ℕ)
    → ((j : ℕ) → j < k → key j <ℤ target)
    → (k < n → target ≤ℤ key k)
    → k ≤ n
    → (left i : ℕ) → i + left ≡ n
    → i ≤ k
    → pick_child (tabulate (λ j. (page_at j, key j)) i left) target (page_at n) ≡ page_at k
unfolding pick_child tabulate
pick_child_lem key page_at target n k smaller bound inside zero i ends before =
    ap page_at (omega arith)
pick_child_lem key page_at target n k smaller bound inside (suc left) i ends before =
    elim (Bool-cases (ltb i k)) [
      | inl less ↦
          let over = smaller i (ground arith) in
          let c : cmp target (key i) ≡ Ordering.gt = ground arith in
          rw (pick_child, c)
            (pick_child_lem key page_at target n k smaller bound inside left (i + 1) (omega arith)
              (ground arith))
      | inr same ↦
          let here : i ≡ k = ground arith in
          let no_more : target ≤ℤ key i =
            subst (λ j. target ≤ℤ key j) (sym here) (bound (omega arith)) in
          elim (cmp-cases target (key i)) [
            | inl (c, e) ↦ rw (pick_child, c) (ap page_at here)
            | inr (inl (c, e)) ↦ rw (pick_child, c) (ap page_at here)
            | inr (inr (c, e)) ↦ absurd (omega arith)
          ]
    ]

-- The child of the first key that is no less than the target, else the rightmost child.
abbrev pub IsFirst : List (ℕ × ℤ) → ℕ → ℤ → ℕ → Type 0
IsFirst [] rightmost target child = child ≡ rightmost
IsFirst ((first, key) ∷ entries) rightmost target child =
    ((target ≤ℤ key) × (child ≡ first)) ⊎ ((key <ℤ target) × IsFirst entries rightmost target child)

pick_child-IsFirst :
    (entries : List (ℕ × ℤ)) (rightmost : ℕ) (target : ℤ)
    → IsFirst entries rightmost target (pick_child entries target rightmost)
unfolding pick_child
pick_child-IsFirst [] rightmost target = refl
pick_child-IsFirst ((child, key) ∷ entries) rightmost target =
    ground (arith, cmp-cases target key, pick_child-IsFirst entries rightmost target)

module _ {V : Type 0} (source : ℕ → Result V (List ℕ)) where
  -- The pages of a way down, the last of which is a leaf: each of the others is an interior page, and
  -- its keys lead the target to the next one.
  abbrev pub WayDown : ℤ → ℕ → List ℕ → ℕ → Type 0
  WayDown target page [] last =
      (page ≡ last) × (bytes : List ℕ) × (read_kind source page ≡ ok (false, bytes))
  WayDown target page (ancestor ∷ ancestors) last =
      (ancestor ≡ page)
      × (bytes : List ℕ) × (entries : List (ℕ × ℤ)) × (rightmost next : ℕ) × (read_kind source page
          ≡ ok (true, bytes))
      × (collect_interior_entries {V = V} bytes (page1_header_start page) page
          ≡ ok (entries, rightmost))
      × IsFirst entries rightmost target next
      × WayDown target next ancestors last

  -- On a search tree `find_leaf_page` with enough visits left gives back a leaf and the pages on the way
  -- down to it: each of these is an interior page of which the next is the child of the first key that
  -- is no less than the target, or the rightmost child. What `seek` finds from the root, it finds from
  -- that leaf, which is as many visits further as there are ancestors.
  pub find_leaf_page-seek_loop :
      {depth p pages : ℕ} {rows : List ℤ}
      → SearchTree source depth p pages rows
      → (target : ℤ) (visits : ℕ) (before : List ℕ) → depth ≤ visits
      → (ancestors : List ℕ) × (last left : ℕ) × (find_leaf_page source target visits p before
          ≡ ok (before ++ ancestors, last))
        × WayDown target p ancestors last
        × (seek_loop source target visits p ≡ seek_loop source target left last)
        × (length ancestors + left ≡ visits)
  unfolding find_leaf_page
  find_leaf_page-seek_loop (leaf page f head was_read framed kind reads up) target zero before
        enough =
      absurd (omega arith)
  find_leaf_page-seek_loop (leaf {depth} {p} page f head was_read framed kind reads up) target
        (suc visits) before enough =
      let read = read_kind_lem source p page f was_read framed ∙ ap (λ b. ok (b, page)) kind in
      (
        [],
        p,
        suc visits,
        rw read (ap (λ t. ok (t, p)) (sym (append-nil before))),
        (refl, page, read),
        refl,
        omega arith,
      )
  find_leaf_page-seek_loop
        (node page f key start page_at pages_at rows_of was_read framed kind keys children last up
          trees under over)
        target zero before enough =
      absurd (omega arith)
  find_leaf_page-seek_loop
        (node {depth} {p} page f key start page_at pages_at rows_of was_read framed kind keys
          children last up trees under over)
        target (suc visits) before enough =
      let n = f.num_cells in
      let (work, small) = frame_of-work p false false page f framed in
      let (i, inside, hit, smaller, bound) =
        search_child_lem (interior_key_at page p (f.cell_ptr_base))
          (λ cell_start. read_u32 page cell_start p) key start page_at n target keys children up
          small n 0 n (omega arith) (omega arith) (omega arith) (λ i h. absurd (omega arith))
          (λ h. absurd (omega arith)) in
      let probed = probe_page-interior target p page f framed kind ∙ rw (← last, hit) refl in
      let went = seek_loop-probe source target visits p page (below (page_at i)) was_read probed in
      let (ancestors, end, left, found, way, sought, count) =
        find_leaf_page-seek_loop (trees i inside) target visits (before ++ (p ∷ []))
          (omega arith) in
      let read = read_kind_lem source p page f was_read framed ∙ ap (λ b. ok (b, page)) kind in
      let entries =
        collect_interior_entries_lem p page f key start page_at framed kind keys children in
      let picked =
        pick_child_lem key page_at target n i smaller bound inside n 0 (omega arith)
          (omega arith) in
      let listed : List (ℕ × ℤ) = tabulate (λ j. (page_at j, key j)) 0 n in
      let first =
        subst (IsFirst listed (page_at n) target) picked
          (pick_child-IsFirst listed (page_at n) target) in
      (
        p ∷ ancestors,
        end,
        left,
        rw (read, entries, ← last, picked, found)
            (ap (λ t. ok (t, end)) (append_assoc before (p ∷ []) ancestors)),
        (
          refl,
          page,
          listed,
          f.rightmost,
          page_at i,
          read,
          entries,
          subst (λ r. IsFirst listed r target (page_at i)) last first,
          way,
        ),
        went ∙ sought,
        omega arith,
      )
