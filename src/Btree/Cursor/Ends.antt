-- ===== src/Btree/Cursor/Ends.antt =====
-- src/btree.rs: the loops of the cursor end, on any page source, cyclic files included.
use sqlite_rs.Prelude.{
  ℕ, zero, suc, ◌+◌, ◌-◌, ◌*◌, ◌≤◌, ◌<◌, ◌≡◌, refl, ap, subst, ◌∙◌, arith, not, if◌then◌else◌, Bool,
  true, false, ◌⊎◌, inl, inr, List, [], ◌∷◌, Option, some,
}
use sqlite_rs.Prelude.Bytes.{All}
use sqlite_rs.Prelude.Outcome.{Result}
use sqlite_rs.Prelude.Int.{ℤ}
use sqlite_rs.Btree.Error.{BtreeError}
use sqlite_rs.Btree.Page.{max_pages_visited}
use sqlite_rs.Btree.Cursor.{
  Frame, TableCursor, Round, go_on, returns, push_page, advance_top, advance_rev_top, round,
  run_loop, loop_fuel, advance, advance_rev, after_push, first, next, last, prev,
}
use sqlite_rs.Btree.Cursor.Work.{
  frame_work, stack_work, work, IsFrame, Shrinks, push_page-Shrinks, advance_top-Shrinks,
  advance_rev_top-Shrinks,
}

module _ {V : Type 0} where
  -- What the two loops have in common.
  abbrev TopShrinks : Bool → (TableCursor → Frame → List Frame → Round V) → Type 0
  TopShrinks reverse top =
      (c : TableCursor) (f : Frame) (rest : List Frame)
      → All IsFrame (f ∷ rest)
      → c.positioned_reverse ≡ reverse
      → (n : ℕ)
      → frame_work reverse f
          + stack_work reverse rest
          + (max_pages_visited - c.pages_visited) * 65538
        ≤ n
      → Shrinks reverse n (top c f rest)

  -- A loop with fuel for its work returns, and leaves no more work.
  abbrev Ends : Bool → ℕ → Option (TableCursor × Result (BtreeError V) (Option ℤ)) → Type 0
  Ends reverse n out =
      (c : TableCursor) × (r : Result (BtreeError V) (Option ℤ)) × (out ≡ some (c, r))
      × (work reverse c ≤ n)
      × All IsFrame (c.stack)
      × (c.positioned_reverse ≡ reverse)

  pub run_loop-go_on :
      (top : TableCursor → Frame → List Frame → Round V) (fuel : ℕ) (c c' : TableCursor)
      → round top c (c.stack) ≡ go_on c'
      → run_loop top (suc fuel) c ≡ run_loop top fuel c'
  unfolding run_loop
  run_loop-go_on top fuel c c' got = rw (run_loop, got) refl

  pub run_loop-returns :
      (top : TableCursor → Frame → List Frame → Round V) (fuel : ℕ) (c c' : TableCursor)
      (r : Result (BtreeError V) (Option ℤ))
      → round top c (c.stack) ≡ returns c' r
      → run_loop top (suc fuel) c ≡ some (c', r)
  unfolding run_loop
  run_loop-returns top fuel c c' r got = rw (run_loop, got) refl

  Round-cases :
      (r : Round V)
      → ((c : TableCursor) × (r ≡ go_on c))
        ⊎ ((c : TableCursor) × (x : Result (BtreeError V) (Option ℤ)) × (r ≡ returns c x))
  Round-cases (go_on c) = inl (c, refl)
  Round-cases (returns c x) = inr (c, x, refl)

  round-Shrinks :
      (reverse : Bool) (top : TableCursor → Frame → List Frame → Round V)
      → TopShrinks reverse top
      → (c : TableCursor) (frames : List Frame) → c.stack ≡ frames
      → All IsFrame frames
      → c.positioned_reverse ≡ reverse
      → Shrinks reverse (work reverse c) (round top c frames)
  unfolding round
  round-Shrinks reverse top shrinks c [] e small way = (omega arith, rw e tt, way)
  round-Shrinks reverse top shrinks c (f ∷ rest) e small way =
      shrinks c f rest small way (work reverse c) (omega (arith, ap (stack_work reverse) e))

  run_loop-Ends :
      (reverse : Bool) (top : TableCursor → Frame → List Frame → Round V)
      → TopShrinks reverse top
      → (fuel : ℕ) (c : TableCursor) → All IsFrame (c.stack)
      → c.positioned_reverse ≡ reverse
      → work reverse c < fuel
      → Ends reverse (work reverse c) (run_loop top fuel c)
  run_loop-Ends reverse top shrinks zero c small way enough = absurd (omega arith)
  run_loop-Ends reverse top shrinks (suc fuel) c small way enough =
      let rec = run_loop-Ends reverse top shrinks fuel in
      let shrunk = round-Shrinks reverse top shrinks c (c.stack) refl small way in
      elim (Round-cases (round top c (c.stack))) [
        | inl (c', got) ↦
            let (less, small', way') = subst (Shrinks reverse (work reverse c)) got shrunk in
            let (last, r, found, left, small'', way'') = rec c' small' way' (omega arith) in
            (last, r, run_loop-go_on top fuel c c' got ∙ found, omega arith, small'', way'')
        | inr (c', r, got) ↦
            let (less, small', way') = subst (Shrinks reverse (work reverse c)) got shrunk in
            (c', r, run_loop-returns top fuel c c' r got, less, small', way')
      ]

-- A cursor with frames of 16-bit counts and no more work than a fresh one is left with.
abbrev pub IsCursor : Bool → TableCursor → Type 0
IsCursor reverse c =
    (work reverse c < loop_fuel) × All IsFrame (c.stack) × (c.positioned_reverse ≡ reverse)

module _ {V : Type 0} (source : ℕ → Result V (List ℕ)) where
  abbrev pub Returns : Bool → Option (TableCursor × Result (BtreeError V) (Option ℤ)) → Type 0
  Returns reverse out =
      (c : TableCursor) × (r : Result (BtreeError V) (Option ℤ)) × (out ≡ some (c, r))
      × IsCursor reverse c

  after_push-Returns :
      (reverse : Bool) (top : TableCursor → Frame → List Frame → Round V)
      → TopShrinks reverse top
      → (r : Round V) (n : ℕ) → n < loop_fuel
      → Shrinks reverse n r
      → Returns reverse (after_push top r)
  unfolding after_push
  after_push-Returns reverse top shrinks (returns c r) n small h =
      (c, r, refl, (omega arith, h.1, h.2))
  after_push-Returns reverse top shrinks (go_on c) n small h =
      let (c', r, found, left, small', way') =
        run_loop-Ends reverse top shrinks loop_fuel c (h.1) (h.2) (omega arith) in
      (c', r, found, (omega arith, small', way'))

  -- A first call returns on every page source and every cursor, and leaves a cursor to go on with.
  pub first-Returns : (c : TableCursor) → Returns false (first source c)
  unfolding first
  first-Returns c =
      let start = record c { stack = []; pages_visited = 0; positioned_reverse = false } in
      after_push-Returns false (advance_top source) (advance_top-Shrinks source)
        (push_page source start false (c.root_page)) (work false start) (omega arith)
        (push_page-Shrinks source false start (c.root_page) (work false start)
          (omega arith, tt, refl))

  pub last-Returns : (c : TableCursor) → Returns true (last source c)
  unfolding last
  last-Returns c =
      let start = record c { stack = []; pages_visited = 0; positioned_reverse = true } in
      after_push-Returns true (advance_rev_top source) (advance_rev_top-Shrinks source)
        (push_page source start true (c.root_page)) (work true start) (omega arith)
        (push_page-Shrinks source true start (c.root_page) (work true start)
          (omega arith, tt, refl))

  pub next-Returns : (c : TableCursor) → IsCursor false c → Returns false (next source c)
  unfolding next advance
  next-Returns c h =
      let (c', r, found, left, small, way) =
        run_loop-Ends false (advance_top source) (advance_top-Shrinks source) loop_fuel c (h.1)
          (h.2) (h.0) in
      (c', r, found, (omega arith, small, way))

  if-not-true : {A : Type 0} (b : Bool) (x y : A) → b ≡ true → (if not b then x else y) ≡ y
  if-not-true true x y e = refl
  if-not-true false x y e = ground arith

  -- A cursor that `last` placed.
  pub prev-advance_rev :
      (c : TableCursor) → c.positioned_reverse ≡ true → prev source c ≡ advance_rev source c
  unfolding prev
  prev-advance_rev c e = if-not-true (c.positioned_reverse) _ _ e

  pub prev-Returns : (c : TableCursor) → IsCursor true c → Returns true (prev source c)
  unfolding advance_rev
  prev-Returns c h =
      let (c', r, found, left, small, way) =
        run_loop-Ends true (advance_rev_top source) (advance_rev_top-Shrinks source) loop_fuel c
          (h.1) (h.2) (h.0) in
      (c', r, prev-advance_rev c (h.2) ∙ found, (omega arith, small, way))
