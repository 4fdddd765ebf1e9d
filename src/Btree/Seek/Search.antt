-- ===== src/Btree/Seek/Search.antt =====
-- src/btree.rs: the binary searches of `seek` in cells with ascending keys.
use Prim.Native.Nat.{Ordering}
use sqlite_rs.Prelude.{
  ℕ, zero, suc, ◌+◌, ◌^◌, ◌≤◌, ◌<◌, ◌≡◌, ◌≢◌, refl, sym, ap, subst, ◌∙◌, arith, ltb, true,
  Bool-cases, ◌⊎◌, inl, inr, Option, none, some,
}
use sqlite_rs.Prelude.Bytes.{saturating_add}
use sqlite_rs.Prelude.Outcome.{Result, ok, ◌>>=◌}
use sqlite_rs.Prelude.Int.{ℤ, pos_part, neg_part, ◌≤ℤ◌, eq_of_parts}
use sqlite_rs.Btree.Error.{BtreeError}
use sqlite_rs.Btree.Seek.{cmp, middle, search_leaf, search_child}

infix 50 ◌<ℤ◌
abbrev pub ◌<ℤ◌ : ℤ → ℤ → Type 0
a <ℤ b = pos_part a + neg_part b < pos_part b + neg_part a

pub cmp-cases :
    (a b : ℤ)
    → ((cmp a b ≡ Ordering.eq) × (a ≡ b))
      ⊎ (((cmp a b ≡ Ordering.lt) × (a <ℤ b)) ⊎ ((cmp a b ≡ Ordering.gt) × (b <ℤ a)))
cmp-cases a b = ground (arith, eq_of_parts a b)

middle-bounds : (lo hi : ℕ) → lo < hi → hi < 2 ^ 60 → (lo ≤ middle lo hi) × (middle lo hi < hi)
unfolding middle
middle-bounds lo hi less small = (omega arith, omega arith)

less_ne : (a b : ℤ) → a <ℤ b → a ≢ b
less_ne a b h e = omega (arith, ap pos_part e, ap neg_part e)

greater_ne : (a b : ℤ) → b <ℤ a → a ≢ b
greater_ne a b h e = omega (arith, ap pos_part e, ap neg_part e)

none_left :
    (head : ℕ → ℤ × ℕ × ℕ) (n : ℕ) (target : ℤ) (lo hi : ℕ)
    → hi ≤ lo
    → ((i : ℕ) → i < lo → (head i).0 <ℤ target)
    → ((i : ℕ) → hi ≤ i → i < n → target <ℤ (head i).0)
    → (i : ℕ) → i < n
    → (head i).0 ≢ target
none_left head n target lo hi met under over i small = elim (Bool-cases (ltb i lo)) [
  | inl left ↦ less_ne ((head i).0) target (under i (ground arith))
  | inr right ↦ greater_ne ((head i).0) target (over i (ground arith) small)
]

-- Ascending keys below and above a cell.
up_to :
    (head : ℕ → ℤ × ℕ × ℕ) (n : ℕ) (target : ℤ)
    → ((i j : ℕ) → i < j → j < n → (head i).0 <ℤ (head j).0)
    → (mid : ℕ) → (head mid).0 <ℤ target
    → mid < n
    → (i : ℕ) → i ≤ mid
    → (head i).0 <ℤ target
up_to head n target up mid smaller inside i h = elim (Bool-cases (ltb i mid)) [
  | inl less ↦ let step = up i mid (ground arith) inside in omega arith
  | inr same ↦ let e : i ≡ mid = ground arith in subst (λ j. (head j).0 <ℤ target) (sym e) smaller
]

from :
    (head : ℕ → ℤ × ℕ × ℕ) (n : ℕ) (target : ℤ)
    → ((i j : ℕ) → i < j → j < n → (head i).0 <ℤ (head j).0)
    → (mid : ℕ) → target <ℤ (head mid).0
    → (i : ℕ) → mid ≤ i
    → i < n
    → target <ℤ (head i).0
from head n target up mid greater i h inside = elim (Bool-cases (ltb mid i)) [
  | inl less ↦ let step = up mid i (ground arith) inside in omega arith
  | inr same ↦ let e : i ≡ mid = ground arith in subst (λ j. target <ℤ (head j).0) (sym e) greater
]

module _ {V : Type 0} where
  -- The cell with the key that is looked for, or that no cell has it.
  abbrev pub LeafAnswer :
      (ℕ → ℤ × ℕ × ℕ) → ℕ → ℤ → Result (BtreeError V) (Option (ℤ × ℕ × ℕ)) → Type 0
  LeafAnswer head n target r =
      ((i : ℕ) × (i < n) × (r ≡ ok (some (head i))) × ((head i).0 ≡ target))
      ⊎ ((r ≡ ok none) × ((i : ℕ) → i < n → (head i).0 ≢ target))

  search_leaf-round :
      (cell : ℕ → Result (BtreeError V) (ℤ × ℕ × ℕ)) (target : ℤ) (fuel lo hi : ℕ)
      (head : ℤ × ℕ × ℕ)
      → ltb lo hi ≡ true
      → cell (middle lo hi) ≡ ok head
      → search_leaf cell target (suc fuel) lo hi ≡ elim (cmp (head.0) target) [
        | Ordering.eq ↦ ok (some head)
        | Ordering.lt ↦ search_leaf cell target fuel (saturating_add (middle lo hi) 1) hi
        | Ordering.gt ↦ search_leaf cell target fuel lo (middle lo hi)
      ]
  unfolding search_leaf
  search_leaf-round cell target fuel lo hi head less got = rw (search_leaf, less, got) refl

  pub search_leaf_lem :
      (cell : ℕ → Result (BtreeError V) (ℤ × ℕ × ℕ)) (head : ℕ → ℤ × ℕ × ℕ) (n : ℕ) (target : ℤ)
      → ((i : ℕ) → i < n → cell i ≡ ok (head i))
      → ((i j : ℕ) → i < j → j < n → (head i).0 <ℤ (head j).0)
      → n < 2 ^ 16
      → (fuel lo hi : ℕ) → hi ≤ lo + fuel
      → hi ≤ n
      → ((i : ℕ) → i < lo → (head i).0 <ℤ target)
      → ((i : ℕ) → hi ≤ i → i < n → target <ℤ (head i).0)
      → LeafAnswer head n target (search_leaf cell target fuel lo hi)
  unfolding search_leaf
  search_leaf_lem cell head n target reads up small zero lo hi enough in_page under over =
      inr (refl, none_left head n target lo hi (omega arith) under over)
  search_leaf_lem cell head n target reads up small (suc fuel) lo hi enough in_page under over =
      let search = search_leaf_lem cell head n target reads up small fuel in
      let whole = search_leaf cell target (suc fuel) lo hi in
      let mid = middle lo hi in
      let key = (head mid).0 in
      elim (Bool-cases (ltb lo hi)) [
        | inl less ↦
            let (above, below) = middle-bounds lo hi (ground arith) (omega arith) in
            let got = reads mid (omega arith) in
            let round = search_leaf-round cell target fuel lo hi (head mid) less got in
            elim (cmp-cases key target) [
              | inl (c, same) ↦ inl (mid, omega arith, round ∙ rw c refl, same)
              | inr (inl (c, smaller)) ↦
                  let add : saturating_add mid 1 ≡ mid + 1 = omega arith in
                  let e : whole ≡ search_leaf cell target fuel (mid + 1) hi =
                    round ∙ rw (c, add) refl in
                  let under' : (i : ℕ) → i < mid + 1 → (head i).0 <ℤ target =
                    λ i h. up_to head n target up mid smaller (omega arith) i (omega arith) in
                  subst (LeafAnswer head n target) (sym e)
                    (search (mid + 1) hi (omega arith) in_page under' over)
              | inr (inr (c, greater)) ↦
                  let e : whole ≡ search_leaf cell target fuel lo mid = round ∙ rw c refl in
                  let over' : (i : ℕ) → mid ≤ i → i < n → target <ℤ (head i).0 =
                    λ i h k. from head n target up mid greater i h k in
                  subst (LeafAnswer head n target) (sym e)
                    (search lo mid (omega arith) (omega arith) under over')
            ]
        | inr met ↦
            inr
              (rw (search_leaf, met) refl, none_left head n target lo hi (ground arith) under over)
      ]

  search_child-round :
      (entry : ℕ → Result (BtreeError V) (ℤ × ℕ)) (child : ℕ → Result (BtreeError V) ℕ) (target : ℤ)
      (fuel lo hi next_page : ℕ) (key : ℤ) (start : ℕ)
      → ltb lo hi ≡ true
      → entry (middle lo hi) ≡ ok (key, start)
      → search_child entry child target (suc fuel) lo hi next_page ≡ elim (cmp target key) [
        | Ordering.gt ↦
            search_child entry child target fuel (saturating_add (middle lo hi) 1) hi next_page
        | _ ↦
            child start >>= (λ below. search_child entry child target fuel lo (middle lo hi) below)
      ]
  unfolding search_child
  search_child-round entry child target fuel lo hi next_page key start less got =
      rw (search_child, less, got) refl

  -- Where the binary search of an interior page may end: at child `i`, the first whose key is no less
  -- than the target, or the rightmost one behind the last key.
  abbrev pub ChildAnswer : (ℕ → ℤ) → (ℕ → ℕ) → ℕ → ℤ → Result (BtreeError V) ℕ → Type 0
  ChildAnswer key page_at n target r =
      (i : ℕ) × (i ≤ n)
      × (r ≡ ok (page_at i))
      × ((j : ℕ) → j < i → key j <ℤ target)
      × (i < n → target ≤ℤ key i)

  pub search_child_lem :
      (entry : ℕ → Result (BtreeError V) (ℤ × ℕ)) (child : ℕ → Result (BtreeError V) ℕ)
      (key : ℕ → ℤ) (start page_at : ℕ → ℕ) (n : ℕ) (target : ℤ)
      → ((i : ℕ) → i < n → entry i ≡ ok (key i, start i))
      → ((i : ℕ) → i < n → child (start i) ≡ ok (page_at i))
      → ((i j : ℕ) → i ≤ j → j < n → key i ≤ℤ key j)
      → n < 2 ^ 16
      → (fuel lo hi : ℕ) → hi ≤ lo + fuel
      → hi ≤ n
      → lo ≤ hi
      → ((i : ℕ) → i < lo → key i <ℤ target)
      → (hi < n → target ≤ℤ key hi)
      → ChildAnswer key page_at n target (search_child entry child target fuel lo hi (page_at hi))
  unfolding search_child
  search_child_lem entry child key start page_at n target reads pages up small zero lo hi enough
        in_page order under over =
      (hi, in_page, refl, (λ j h. under j (omega arith)), over)
  search_child_lem entry child key start page_at n target reads pages up small (suc fuel) lo hi
        enough in_page order under over =
      let search =
        search_child_lem entry child key start page_at n target reads pages up small fuel in
      let whole = search_child entry child target (suc fuel) lo hi (page_at hi) in
      let mid = middle lo hi in
      elim (Bool-cases (ltb lo hi)) [
        | inl less ↦
            let (above, below) = middle-bounds lo hi (ground arith) (omega arith) in
            let round =
              search_child-round entry child target fuel lo hi (page_at hi) (key mid) (start mid)
                less (reads mid (omega arith)) in
            let there = pages mid (omega arith) in
            let left =
              λ (e : whole ≡ search_child entry child target fuel lo mid (page_at mid))
                  (h : target ≤ℤ key mid).
                subst (ChildAnswer key page_at n target) (sym e)
                  (search lo mid (omega arith) (omega arith) (omega arith) under (λ _. h)) in
            elim (cmp-cases target (key mid)) [
              | inl (c, same) ↦
                  left (round ∙ rw (c, there) refl)
                    (omega (arith, ap pos_part same, ap neg_part same))
              | inr (inl (c, smaller)) ↦ left (round ∙ rw (c, there) refl) (omega arith)
              | inr (inr (c, greater)) ↦
                  let add : saturating_add mid 1 ≡ mid + 1 = omega arith in
                  let e : whole ≡ search_child entry child target fuel (mid + 1) hi (page_at hi) =
                    round ∙ rw (c, add) refl in
                  let under' : (i : ℕ) → i < mid + 1 → key i <ℤ target =
                    λ i h. (let step = up i mid (omega arith) (omega arith) in omega arith) in
                  subst (ChildAnswer key page_at n target) (sym e)
                    (search (mid + 1) hi (omega arith) in_page (omega arith) under' over)
            ]
        | inr met ↦
            let e : lo ≡ hi = ground arith in
            (hi, in_page, rw (search_child, met) refl, (λ j h. under j (omega arith)), over)
      ]
