-- ===== src/Btree/Free/Positions.antt =====
-- src/btree.rs: `add_freeblock` by its positions is the insertion by recursion.
use sqlite_rs.Prelude.{
  ℕ, zero, suc, ◌+◌, ◌-◌, ◌≤◌, ◌<◌, ◌≡◌, refl, sym, ap, subst, ◌∙◌, arith, ◌==◌, ltb, leb, ◌&&◌,
  ◌||◌, if◌then◌else◌, Bool, true, false, Bool-cases, Option-cases, ◌⊎◌, inl, inr, [], ◌∷◌,
  get_elem?,
}
use sqlite_rs.Prelude.Bytes.{saturating_add}
use sqlite_rs.Btree.Free.{
  Blocks, remove_at, insert_at, partition_point, join_prev_at, join_prev, join_next_at, join_next,
  add_freeblock,
}
use sqlite_rs.Btree.Free.Blocks.{
  IsChain, IsApart, covers, place, add_rec, add_rec-IsChain, no_earlier,
}

-- No sum of the first block's size saturates.
abbrev HeadFits : Blocks → Type 0
HeadFits [] = Unit {0}
HeadFits (b ∷ bs) = b.1 ≤ 65536

HeadFits-IsChain : (end : ℕ) (bs : Blocks) → IsChain end bs → HeadFits bs
HeadFits-IsChain end [] chain = tt
HeadFits-IsChain end (b ∷ bs) (above, full, inside, chain) = omega arith

join_next-zero :
    (bs : Blocks) (start size : ℕ)
    → start + size ≤ 65536
    → HeadFits bs
    → join_next (bs, start, size, 0) ≡ place bs start size
unfolding join_next join_next_at place insert_at remove_at
join_next-zero [] start size small fits = refl
join_next-zero (b ∷ bs) start size small fits =
    let ends : saturating_add start size ≡ start + size = omega arith in
    let sizes : saturating_add size (b.1) ≡ size + b.1 = omega arith in rw (ends, sizes) refl

join_next-suc :
    (b : ℕ × ℕ) (bs : Blocks) (start size k : ℕ)
    → join_next (b ∷ bs, start, size, suc k) ≡ b ∷ join_next (bs, start, size, k)
unfolding join_next join_next_at insert_at remove_at
join_next-suc b bs start size k = elim (Option-cases (get_elem? bs k)) [
  | inl missing ↦ rw missing refl
  | inr (c, found) ↦ elim (Bool-cases (saturating_add start size == c.0)) [
    | inl touch ↦ rw (found, touch) refl
    | inr apart ↦ rw (found, apart) refl
  ]
]

-- The block before the new one is at the same place in the blocks behind `b`.
join_prev-suc :
    (b : ℕ × ℕ) (bs : Blocks) (start size k : ℕ)
    → join_next (join_prev (b ∷ bs) start size (suc (suc k)))
      ≡ b ∷ join_next (join_prev bs start size (suc k))
unfolding join_prev join_prev_at remove_at
join_prev-suc b bs start size k =
    let one : suc (suc k) - 1 ≡ suc k = omega arith in
    let two : suc k - 1 ≡ k = omega arith in
    let more : ltb 0 (suc (suc k)) ≡ true = ground arith in
    let some_before : ltb 0 (suc k) ≡ true = ground arith in
    elim (Option-cases (get_elem? bs k)) [
      | inl missing ↦
          rw (more, some_before, one, two, missing) (join_next-suc b bs start size (suc k))
      | inr (c, found) ↦ elim (Bool-cases (saturating_add (c.0) (c.1) == start)) [
        | inl touch ↦
            rw (more, some_before, one, two, found, touch, one, two)
              (join_next-suc b (remove_at bs k) (c.0) (saturating_add size (c.1)) k)
        | inr apart ↦
            rw (more, some_before, one, two, found, apart) (join_next-suc b bs start size (suc k))
      ]
    ]

join_prev-zero : (bs : Blocks) (start size : ℕ) → join_prev bs start size 0 ≡ (bs, start, size, 0)
unfolding join_prev
join_prev-zero bs start size = refl

-- The first block is the one before the new one.
join_prev-one :
    (b : ℕ × ℕ) (bs : Blocks) (start size : ℕ)
    → b.0 + b.1 ≤ 65536
    → size ≤ 65536
    → start + size ≤ 65536
    → HeadFits bs
    → join_next (join_prev (b ∷ bs) start size 1)
      ≡ (if b.0 + b.1 == start then place bs (b.0) (size + b.1) else b ∷ place bs start size)
unfolding join_prev join_prev_at remove_at
join_prev-one b bs start size inside small upper fits =
    let ends : saturating_add (b.0) (b.1) ≡ b.0 + b.1 = omega arith in
    let sizes : saturating_add size (b.1) ≡ size + b.1 = omega arith in
    elim (Bool-cases (b.0 + b.1 == start)) [
      | inl touch ↦
          rw (ends, touch, sizes) (join_next-zero bs (b.0) (size + b.1) (ground arith) fits)
      | inr apart ↦
          rw (ends, apart)
            (join_next-suc b bs start size 0
              ∙ ap (λ t. b ∷ t) (join_next-zero bs start size upper fits))
    ]

add_rec-place :
    (bs : Blocks) (start size : ℕ)
    → partition_point bs start ≡ 0
    → add_rec bs start size ≡ place bs start size
unfolding add_rec partition_point place
add_rec-place [] start size e = refl
add_rec-place (b ∷ bs) start size e =
    let more : ltb (b.0) start ≡ false = ground arith in rw more refl

ℕ-cases : (n : ℕ) → (n ≡ 0) ⊎ ((k : ℕ) × (n ≡ suc k))
ℕ-cases zero = inl refl
ℕ-cases (suc k) = inr (k, refl)

add_rec-one :
    (b : ℕ × ℕ) (bs : Blocks) (start size : ℕ)
    → ltb (b.0) start ≡ true
    → partition_point bs start ≡ 0
    → add_rec (b ∷ bs) start size
      ≡ (if b.0 + b.1 == start then place bs (b.0) (size + b.1) else b ∷ place bs start size)
unfolding add_rec
add_rec-one b bs start size less none_before =
    rw (less, none_before, add_rec-place bs start size none_before) refl

add_rec-suc :
    (b : ℕ × ℕ) (bs : Blocks) (start size k : ℕ)
    → ltb (b.0) start ≡ true
    → partition_point bs start ≡ suc k
    → add_rec (b ∷ bs) start size ≡ b ∷ add_rec bs start size
unfolding add_rec
add_rec-suc b bs start size k less before =
    let later : (partition_point bs start == 0) ≡ false = ground arith in rw (less, later) refl

partition_point-suc :
    (b : ℕ × ℕ) (bs : Blocks) (start : ℕ)
    → ltb (b.0) start ≡ true
    → partition_point (b ∷ bs) start ≡ suc (partition_point bs start)
unfolding partition_point
partition_point-suc b bs start less = rw less refl

add_freeblock-add_rec :
    (end : ℕ) (blocks : Blocks) (start size : ℕ)
    → IsChain end blocks
    → start + size ≤ 65536
    → add_freeblock blocks start size ≡ add_rec blocks start size
unfolding add_freeblock partition_point join_prev
add_freeblock-add_rec end [] start size chain upper =
    join_next-zero [] start size upper tt ∙ sym (add_rec-place [] start size refl)
add_freeblock-add_rec end (b ∷ bs) start size (above, full, inside, chain) upper =
    let at = λ (p : ℕ). join_next (join_prev (b ∷ bs) start size p) in
    elim (Bool-cases (ltb (b.0) start)) [
      | inl less ↦ elim (ℕ-cases (partition_point bs start)) [
        | inl first ↦
            ap at (partition_point-suc b bs start less ∙ ap suc first)
            ∙ (join_prev-one b bs start size inside (omega arith) upper
                  (HeadFits-IsChain (b.0 + b.1) bs chain)
                ∙ sym (add_rec-one b bs start size less first))
        | inr (k, later) ↦
            ap at (partition_point-suc b bs start less ∙ ap suc later)
            ∙ (join_prev-suc b bs start size k
                ∙ (ap (λ p. b ∷ join_next (join_prev bs start size p)) (sym later)
                    ∙ (ap (λ t. b ∷ t) (add_freeblock-add_rec (b.0 + b.1) bs start size chain upper)
                        ∙ sym (add_rec-suc b bs start size k less later))))
      ]
      | inr more ↦
          ap at (no_earlier b bs start more)
          ∙ (join_next-zero (b ∷ bs) start size upper (omega arith)
              ∙ sym (add_rec-place (b ∷ bs) start size (no_earlier b bs start more)))
    ]

-- Whether a byte is in the range.
abbrev pub in_range : ℕ → ℕ → ℕ → Bool
in_range start size p = leb start p && ltb p (start + size)

place-covers :
    (bs : Blocks) (start size p : ℕ)
    → covers (place bs start size) p ≡ (in_range start size p || covers bs p)
unfolding covers place
place-covers [] start size p = ground arith
place-covers (b ∷ bs) start size p = ground arith

add_rec-covers :
    (blocks : Blocks) (start size p : ℕ)
    → covers (add_rec blocks start size) p ≡ (in_range start size p || covers blocks p)
unfolding covers add_rec
add_rec-covers [] start size p = ground arith
add_rec-covers (b ∷ bs) start size p = ground (
  arith,
  add_rec-covers bs start size p,
  place-covers bs (b.0) (size + b.1) p,
  place-covers (b ∷ bs) start size p,
)

-- Adding a range that is apart from the free blocks of a page keeps them ascending, apart from each
-- other and inside a page of 64 KiB, none of them empty, and makes the bytes of the range free
-- and no others.
pub add_freeblock_lem :
    (blocks : Blocks) (start size : ℕ)
    → IsChain 0 blocks
    → IsApart start size blocks
    → 0 < start
    → 0 < size
    → start + size ≤ 65536
    → IsChain 0 (add_freeblock blocks start size)
      × ((p : ℕ)
          → covers (add_freeblock blocks start size) p ≡ (in_range start size p || covers blocks p))
add_freeblock_lem blocks start size chain apart above some_bytes upper =
    let same = add_freeblock-add_rec 0 blocks start size chain upper in
    (
      subst (IsChain 0) (sym same)
          (add_rec-IsChain 0 blocks start size chain apart above some_bytes upper),
      λ p. ap (λ t. covers t p) same ∙ add_rec-covers blocks start size p,
    )
