-- ===== src/Btree/Cursor/BackScan.antt =====
-- src/btree.rs: a backward scan, `last` and then `prev` again and again, over a whole tree.
use sqlite_rs.Prelude.{
  ℕ, suc, ◌+◌, ◌≤◌, ◌≡◌, refl, arith, List, [], ◌∷◌, length, true, Option, some,
}
use sqlite_rs.Prelude.Outcome.{Result, ok}
use sqlite_rs.Prelude.Int.{ℤ}
use sqlite_rs.Btree.Error.{BtreeError}
use sqlite_rs.Btree.Page.{max_pages_visited}
use sqlite_rs.Btree.Cursor.{
  TableCursor, go_on, run_loop, loop_fuel, after_push, push_page, advance_rev_top, advance_rev,
  last, prev,
}
use sqlite_rs.Btree.Cursor.Ends.{IsCursor, last-Returns, prev-Returns, prev-advance_rev}
use sqlite_rs.Btree.Cursor.Walk.{in_order}
use sqlite_rs.Btree.Cursor.Back.{rev}
use sqlite_rs.Btree.Cursor.BackTree.{in_order-VisitsBack}
use sqlite_rs.Btree.Cursor.Scan.{calls_after, answers, calls-some, calls_after-answers}

module _ {V : Type 0} (source : ℕ → Result V (List ℕ)) where
  -- `last` and then `n` calls of `prev` return, whatever the pages hold.
  scan_back-returns :
      (c : TableCursor) (n : ℕ)
      → (rs : List (Result (BtreeError V) (Option ℤ))) × (calls_after
            (last source)
            (prev source)
            n
            c
          ≡ some rs)
        × (length rs ≡ n + 1)
  unfolding calls_after
  scan_back-returns c n =
      let (c', r, found, good) = last-Returns source c in
      let (rs, found', long) =
        calls-some (prev source) (IsCursor true) (prev-Returns source) n c' good in
      (r ∷ rs, rw (found, found') refl, omega arith)

  prev-run_loop :
      (c : TableCursor)
      → IsCursor true c
      → prev source c ≡ run_loop (advance_rev_top source) loop_fuel c
  unfolding advance_rev
  prev-run_loop c good = prev-advance_rev source c (good.2)

  last-run_loop :
      (c c' : TableCursor)
      → push_page source
          (record c { stack = []; pages_visited = 0; positioned_reverse = true })
          true
          (c.root_page)
        ≡ go_on c'
      → last source c ≡ run_loop (advance_rev_top source) loop_fuel c'
  unfolding last after_push
  last-run_loop c c' e = rw e refl

  -- On a tree of at most a million pages, which a walk by recursion on its depth reads without an
  -- error, `last` and any number of calls of `prev` behind it return the rowids of the tree from the
  -- last to the first and then none, whatever the cursor did before.
  pub scan_back-in_order :
      (depth : ℕ) (c : TableCursor) (pages : ℕ) (rows : List ℤ)
      → in_order source depth (c.root_page) ≡ ok (pages, rows)
      → pages ≤ max_pages_visited
      → (n : ℕ) → calls_after (last source) (prev source) n c ≡ some (answers (rev rows) (suc n))
  scan_back-in_order depth c pages rows walk small n =
      let (c', r, found, good) = last-Returns source c in
      let start = record c { stack = []; pages_visited = 0; positioned_reverse = true } in
      let (c1, went, (end, emits, empty, count)) =
        in_order-VisitsBack source depth (c.root_page) pages rows walk start (omega arith) in
      calls_after-answers (advance_rev_top source) (prev source) (IsCursor true)
        (prev-Returns source) prev-run_loop (last source) c c1 c' end r (rev rows)
        (last-run_loop c c1 went) found good emits empty n
