-- ===== src/Btree/Insert/Parent.antt =====
-- src/btree/table/insert.rs: the parent of a page that was split leads to both halves.
use sqlite_rs.Prelude.{
  ℕ, suc, ◌+◌, ◌==◌, ◌≤◌, ◌<◌, ◌≡◌, refl, ◌^◌, arith, ◌≢◌, ◌⊎◌, inl, inr, if◌then◌else◌, List, [],
  ◌∷◌, ◌++◌, length, take, drop, none, some,
}
use sqlite_rs.Prelude.Bytes.{saturating_add}
use sqlite_rs.Prelude.Outcome.{ok, Gives}
use sqlite_rs.Prelude.Int.{ℤ, pos_part, neg_part}
use sqlite_rs.Btree.Leaf.{gt_ℤ}
use sqlite_rs.Btree.Interior.{pick_child}
use sqlite_rs.Btree.Insert.{position_of, set_child, place_split}

-- No entry leads to the page.
abbrev pub Absent : ℕ → List (ℕ × ℤ) → ℕ → Type 0
Absent old_page [] rightmost = rightmost ≢ old_page
Absent old_page (entry ∷ entries) rightmost =
    (entry.0 ≢ old_page) × Absent old_page entries rightmost

-- One entry leads to the page, with a key that is no less than the divider.
abbrev pub Leads : ℕ → ℤ → List (ℕ × ℤ) → ℕ → Type 0
Leads old_page divider [] rightmost = rightmost ≡ old_page
Leads old_page divider (entry ∷ entries) rightmost =
    (entry.0 ≡ old_page)
      × (pos_part divider + neg_part (entry.1) ≤ pos_part (entry.1) + neg_part divider)
      × Absent old_page entries rightmost
    ⊎ (entry.0 ≢ old_page) × Leads old_page divider entries rightmost

-- Where a rowid is to be led that was led to this child before.
abbrev pub led : ℕ → ℕ → ℤ → ℤ → ℕ → ℕ
led old_page new_page divider rowid child =
    if child == old_page then (if gt_ℤ rowid divider then new_page else old_page) else child

-- The entries by the first that leads to the page.
placed : List (ℕ × ℤ) → ℕ → ℕ → ℤ → List (ℕ × ℤ)
placed [] old_page new_page divider = (old_page, divider) ∷ []
placed ((child, key) ∷ entries) old_page new_page divider =
    if child == old_page
    then (old_page, divider) ∷ ((new_page, key) ∷ entries)
    else (child, key) ∷ placed entries old_page new_page divider

-- The rightmost child behind them.
rightmost_of : List (ℕ × ℤ) → ℕ → ℕ → ℕ → ℕ
rightmost_of [] rightmost old_page new_page = new_page
rightmost_of (entry ∷ entries) rightmost old_page new_page =
    if entry.0 == old_page then rightmost else rightmost_of entries rightmost old_page new_page

pick_child-Absent :
    (entries : List (ℕ × ℤ)) (rightmost old_page : ℕ) (rowid : ℤ)
    → Absent old_page entries rightmost
    → pick_child entries rowid rightmost ≢ old_page
unfolding pick_child
pick_child-Absent [] rightmost old_page rowid absent = absent
pick_child-Absent (entry ∷ entries) rightmost old_page rowid absent =
    ground (arith, pick_child-Absent entries rightmost old_page rowid (absent.1))

pick_child-placed :
    (entries : List (ℕ × ℤ)) (rightmost old_page new_page : ℕ) (divider rowid : ℤ)
    → Leads old_page divider entries rightmost
    → pick_child
        (placed entries old_page new_page divider)
        rowid
        (rightmost_of entries rightmost old_page new_page)
      ≡ led old_page new_page divider rowid (pick_child entries rowid rightmost)
unfolding pick_child placed rightmost_of
pick_child-placed [] rightmost old_page new_page divider rowid leads = ground arith
pick_child-placed (entry ∷ entries) rightmost old_page new_page divider rowid
      (inl (same, under, absent)) =
    ground (arith, pick_child-Absent entries rightmost old_page rowid absent)
pick_child-placed (entry ∷ entries) rightmost old_page new_page divider rowid (inr (other, leads)) =
    ground (arith, pick_child-placed entries rightmost old_page new_page divider rowid leads)

-- Where the entry is, and what the insert before it and the write behind come to.
data Site (entries : List (ℕ × ℤ)) (rightmost old_page new_page : ℕ) (divider : ℤ) : Type 0 where
  inside :
      (idx : ℕ)
      → position_of entries old_page ≡ some idx
      → idx < length entries
      → set_child (take idx entries ++ ((old_page, divider) ∷ drop idx entries)) (suc idx) new_page
        ≡ some (placed entries old_page new_page divider)
      → rightmost_of entries rightmost old_page new_page ≡ rightmost
      → Site entries rightmost old_page new_page divider
  behind :
      position_of entries old_page ≡ none
      → rightmost ≡ old_page
      → entries ++ ((old_page, divider) ∷ []) ≡ placed entries old_page new_page divider
      → rightmost_of entries rightmost old_page new_page ≡ new_page
      → Site entries rightmost old_page new_page divider

site :
    (entries : List (ℕ × ℤ)) (rightmost old_page new_page : ℕ) (divider : ℤ)
    → Leads old_page divider entries rightmost
    → Site entries rightmost old_page new_page divider
unfolding position_of set_child placed rightmost_of
site [] rightmost old_page new_page divider leads = behind refl leads refl refl
site ((child, key) ∷ entries) rightmost old_page new_page divider (inl (same, under, absent)) =
    inside 0 (ground arith) (omega arith) (ground arith) (ground arith)
site ((child, key) ∷ entries) rightmost old_page new_page divider (inr (other, leads)) =
    elim (site entries rightmost old_page new_page divider leads) [
      | inside idx at few there stays ↦
          inside (suc idx) (ground (arith, at)) (omega arith) (ground (arith, there))
            (ground (arith, stays))
      | behind nowhere last there new ↦
          behind (ground (arith, nowhere)) last (ground (arith, there)) (ground (arith, new))
    ]

place_split-placed :
    {V : Type 0} (parent_page : ℕ) (entries : List (ℕ × ℤ)) (rightmost old_page new_page : ℕ)
    (divider : ℤ)
    → Leads old_page divider entries rightmost
    → length entries < 2 ^ 63
    → place_split {V = V} parent_page entries rightmost old_page new_page divider
      ≡ ok (
        placed entries old_page new_page divider,
        rightmost_of entries rightmost old_page new_page,
      )
unfolding place_split
place_split-placed parent_page entries rightmost old_page new_page divider leads few =
    elim (site entries rightmost old_page new_page divider leads) [
      | inside idx at within there stays ↦
          let next : saturating_add idx 1 ≡ suc idx = omega arith in
          rw (at, place_split, next, there, stays) refl
      | behind nowhere last there new ↦ rw (nowhere, place_split, there, new) (ground (arith, last))
    ]

-- Where one child of a page with fewer than 2^63 entries, the rightmost or one whose key is no less
-- than the divider, was split, the page's new entries lead each rowid as before, but those above the divider that were led to that child to
-- its new half.
pub place_split-led :
    {V : Type 0} (parent_page : ℕ) (entries : List (ℕ × ℤ)) (rightmost old_page new_page : ℕ)
    (divider rowid : ℤ)
    → Leads old_page divider entries rightmost
    → length entries < 2 ^ 63
    → Gives (place_split {V = V} parent_page entries rightmost old_page new_page divider) (λ placed.
      pick_child (placed.0) rowid (placed.1)
      ≡ led old_page new_page divider rowid (pick_child entries rowid rightmost))
place_split-led {V} parent_page entries rightmost old_page new_page divider rowid leads few = (
  (placed entries old_page new_page divider, rightmost_of entries rightmost old_page new_page),
  place_split-placed parent_page entries rightmost old_page new_page divider leads few,
  pick_child-placed entries rightmost old_page new_page divider rowid leads,
)
