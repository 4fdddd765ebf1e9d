-- ===== src/Btree/Cursor/Scan.antt =====
-- src/btree.rs: a scan, `first` and then `next` again and again, over a whole tree.
use sqlite_rs.Prelude.{
  ℕ, zero, suc, ◌+◌, ◌≤◌, ◌≡◌, refl, sym, ap, subst, ◌∙◌, arith, List, [], ◌∷◌, length, false,
  Option, none, some,
}
use sqlite_rs.Prelude.Outcome.{Result, ok, or_break}
use sqlite_rs.Prelude.Int.{ℤ}
use sqlite_rs.Btree.Error.{BtreeError}
use sqlite_rs.Btree.Page.{max_pages_visited}
use sqlite_rs.Btree.Cursor.{
  TableCursor, Frame, Round, go_on, round, run_loop, loop_fuel, after_push, push_page, advance_top,
  first, next, advance,
}
use sqlite_rs.Btree.Cursor.Ends.{
  IsCursor, first-Returns, next-Returns, run_loop-go_on, run_loop-returns,
}
use sqlite_rs.Btree.Cursor.Walk.{Emits, stop, silent, row, in_order}
use sqlite_rs.Btree.Cursor.Visits.{in_order-Visits}

-- The results of `n` calls, each on the cursor that the call before it left.
unfoldable pub calls :
    {R : Type 0} → (TableCursor → Option (TableCursor × R)) → ℕ → TableCursor → Option (List R)
calls call zero c = some []
calls call (suc n) c =
    or_break (call c) (λ done. or_break (calls call n (done.0)) (λ others. some (done.1 ∷ others)))

-- The results of one call and of `n` calls of another kind behind it.
unfoldable pub calls_after :
    {R : Type 0}
    → (TableCursor → Option (TableCursor × R))
    → (TableCursor → Option (TableCursor × R))
    → ℕ
    → TableCursor
    → Option (List R)
calls_after start call n c =
    or_break (start c) (λ done. or_break (calls call n (done.0)) (λ others. some (done.1 ∷ others)))

module _ {R : Type 0} where
  -- Calls that return, and keep what the next one needs, all return.
  pub calls-some :
      (call : TableCursor → Option (TableCursor × R)) (P : TableCursor → Type 0)
      → ((c : TableCursor) → P c → (c' : TableCursor) × (r : R) × (call c ≡ some (c', r)) × P c')
      → (n : ℕ) (c : TableCursor) → P c
      → (rs : List R) × (calls call n c ≡ some rs) × (length rs ≡ n)
  unfolding calls
  calls-some call P step zero c p = ([], refl, refl)
  calls-some call P step (suc n) c p =
      let (c', r, found, p') = step c p in
      let (rs, found', long) = calls-some call P step n c' p' in
      (r ∷ rs, rw (calls, found, found') refl, ap suc long)

-- What `n` calls over these rows are to return: the rows in order, and then none.
unfoldable pub answers : {E : Type 0} → List ℤ → ℕ → List (Result E (Option ℤ))
answers rows zero = []
answers [] (suc n) = ok none ∷ answers [] n
answers (rowid ∷ rows) (suc n) = ok (some rowid) ∷ answers rows n

-- A cursor's loop by the rounds of `top`.
module _ {V : Type 0} (top : TableCursor → Frame → List Frame → Round V) where
  -- What a call returns: the first row of those that the rounds return, or none at their end.
  abbrev Gives : List ℤ → TableCursor → TableCursor × Result (BtreeError V) (Option ℤ) → Type 0
  Gives [] end done = (done.1 ≡ ok none) × ((done.0).stack ≡ [])
  Gives (rowid ∷ rows) end done = (done.1 ≡ ok (some rowid)) × Emits {V = V} top (done.0) rows end

  no_fuel :
      (c : TableCursor) (done : TableCursor × Result (BtreeError V) (Option ℤ))
      → ¬ (run_loop top 0 c ≡ some done)
  unfolding run_loop
  no_fuel c done e = absurd cc

  run_loop-Gives :
      {c end : TableCursor} {rows : List ℤ}
      → Emits top c rows end
      → end.stack ≡ []
      → (fuel : ℕ) (done : TableCursor × Result (BtreeError V) (Option ℤ))
      → run_loop top fuel c ≡ some done
      → Gives rows end done
  unfolding round
  run_loop-Gives stop empty zero done e = absurd (no_fuel _ done e)
  run_loop-Gives {c} stop empty (suc fuel) done e =
      let last = record c { current = none } in
      let returned = run_loop-returns top fuel c last (ok none) (ap (round top c) empty) in
      let same : (last, ok none) ≡ done = cc in subst (Gives [] c) same (refl, empty)
  run_loop-Gives (silent same p) empty zero done e = absurd (no_fuel _ done e)
  run_loop-Gives (silent {c} {c'} same p) empty (suc fuel) done e =
      run_loop-Gives p empty fuel done (sym (run_loop-go_on top fuel c c' same) ∙ e)
  run_loop-Gives (row same p) empty zero done e = absurd (no_fuel _ done e)
  run_loop-Gives (row {c} {c'} {c''} {rowid} same p) empty (suc fuel) done e =
      let returned = run_loop-returns top fuel c c' (ok (some rowid)) same in
      let done_same : (c', ok (some rowid)) ≡ done = cc in
      subst (Gives (rowid ∷ _) c'') done_same (refl, p)

-- Calls that run the loop from every cursor of `P`, and leave one.
module _ {V : Type 0} (top : TableCursor → Frame → List Frame → Round V)
    (call : TableCursor → Option (TableCursor × Result (BtreeError V) (Option ℤ)))
    (P : TableCursor → Type 0)
    (total : (c : TableCursor)
      → P c
      → (c' : TableCursor) × (r : Result (BtreeError V) (Option ℤ)) × (call c ≡ some (c', r))
        × P c')
    (runs : (c : TableCursor) → P c → call c ≡ run_loop top loop_fuel c) where
  -- A call from a cursor whose rounds return these rows gives the first of them and leaves the rest.
  call-Gives :
      (rows : List ℤ) (end : TableCursor)
      → end.stack ≡ []
      → (done : TableCursor × Result (BtreeError V) (Option ℤ)) (n : ℕ) → Gives top rows end done
      → ((rows' : List ℤ) (c' : TableCursor)
          → Emits {V = V} top (done.0) rows' c'
          → c'.stack ≡ []
          → calls call n (done.0) ≡ some (answers rows' n))
      → or_break (calls call n (done.0)) (λ others. some (done.1 ∷ others))
        ≡ some (answers rows (suc n))
  unfolding answers
  call-Gives [] end empty done n (none_left, nothing) rest =
      rw (rest [] (done.0) stop nothing, none_left) refl
  call-Gives (rowid ∷ rows) end empty done n (here, emits) rest =
      rw (rest rows end emits empty, here) refl

  calls-answers :
      (n : ℕ) (c end : TableCursor) (rows : List ℤ)
      → P c
      → Emits {V = V} top c rows end
      → end.stack ≡ []
      → calls call n c ≡ some (answers rows n)
  unfolding calls answers
  calls-answers zero c end rows good emits empty = refl
  calls-answers (suc n) c end rows good emits empty =
      let (c', r, found, good') = total c good in
      let gives = run_loop-Gives top emits empty loop_fuel (c', r) (sym (runs c good) ∙ found) in
      ap
        (λ t.
          or_break t (λ done. or_break (calls call n (done.0)) (λ others. some (done.1 ∷ others))))
        found
      ∙ call-Gives rows end empty (c', r) n gives
          (λ rows' end' p q. calls-answers n c' end' rows' good' p q)

  pub calls_after-answers :
      (start : TableCursor → Option (TableCursor × Result (BtreeError V) (Option ℤ)))
      (c c1 c' end : TableCursor) (r : Result (BtreeError V) (Option ℤ)) (rows : List ℤ)
      → start c ≡ run_loop top loop_fuel c1
      → start c ≡ some (c', r)
      → P c'
      → Emits {V = V} top c1 rows end
      → end.stack ≡ []
      → (n : ℕ) → calls_after start call n c ≡ some (answers rows (suc n))
  unfolding calls_after
  calls_after-answers start c c1 c' end r rows ran found good emits empty n =
      let gives = run_loop-Gives top emits empty loop_fuel (c', r) (sym ran ∙ found) in
      ap
        (λ t.
          or_break t (λ done. or_break (calls call n (done.0)) (λ others. some (done.1 ∷ others))))
        found
      ∙ call-Gives rows end empty (c', r) n gives
          (λ rows' end' p q. calls-answers n c' end' rows' good p q)

module _ {V : Type 0} (source : ℕ → Result V (List ℕ)) where
  -- `first` and then `n` calls of `next` return, whatever the pages hold.
  pub scan-returns :
      (c : TableCursor) (n : ℕ)
      → (rs : List (Result (BtreeError V) (Option ℤ))) × (calls_after
            (first source)
            (next source)
            n
            c
          ≡ some rs)
        × (length rs ≡ n + 1)
  unfolding calls_after
  scan-returns c n =
      let (c', r, found, good) = first-Returns source c in
      let (rs, found', long) =
        calls-some (next source) (IsCursor false) (next-Returns source) n c' good in
      (r ∷ rs, rw (found, found') refl, omega arith)

  next-run_loop : (c : TableCursor) → next source c ≡ run_loop (advance_top source) loop_fuel c
  unfolding next advance
  next-run_loop c = refl

  first-run_loop :
      (c c' : TableCursor)
      → push_page source
          (record c { stack = []; pages_visited = 0; positioned_reverse = false })
          false
          (c.root_page)
        ≡ go_on c'
      → first source c ≡ run_loop (advance_top source) loop_fuel c'
  unfolding first after_push
  first-run_loop c c' e = rw e refl

  -- On a tree of at most a million pages, which a walk by recursion on its depth reads without an
  -- error, `first` and any number of calls of `next` behind it return the rowids of the tree in
  -- order and then none, whatever the cursor did before.
  pub scan-in_order :
      (depth : ℕ) (c : TableCursor) (pages : ℕ) (rows : List ℤ)
      → in_order source depth (c.root_page) ≡ ok (pages, rows)
      → pages ≤ max_pages_visited
      → (n : ℕ) → calls_after (first source) (next source) n c ≡ some (answers rows (suc n))
  scan-in_order depth c pages rows walk small n =
      let (c', r, found, good) = first-Returns source c in
      let start = record c { stack = []; pages_visited = 0; positioned_reverse = false } in
      let (c1, went, (end, emits, empty, count)) =
        in_order-Visits source depth (c.root_page) pages rows walk start (omega arith) in
      calls_after-answers (advance_top source) (next source) (IsCursor false) (next-Returns source)
        (λ c _. next-run_loop c) (first source) c c1 c' end r rows (first-run_loop c c1 went) found
        good emits empty n
