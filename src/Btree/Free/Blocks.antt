-- ===== src/Btree/Free/Blocks.antt =====
-- src/btree.rs: `add_freeblock` keeps the free blocks of a page ascending and apart, and frees exactly
-- the new range.
use sqlite_rs.Prelude.{
  ℕ, ◌+◌, ◌≤◌, ◌<◌, ◌≡◌, refl, subst, arith, ◌==◌, ltb, leb, ◌&&◌, ◌||◌, if◌then◌else◌, Bool, false,
  Bool-cases, ◌⊎◌, inl, inr, [], ◌∷◌,
}
use sqlite_rs.Btree.Free.{Blocks, partition_point}

-- Ascending blocks behind `end`, none of them empty, with bytes between them, inside a page.
abbrev pub IsChain : ℕ → Blocks → Type 0
IsChain end [] = Unit {0}
IsChain end (b ∷ bs) = (end < b.0) × (0 < b.1) × (b.0 + b.1 ≤ 65536) × IsChain (b.0 + b.1) bs

-- The same, but the first block may touch `end`.
abbrev IsBehind : ℕ → Blocks → Type 0
IsBehind end [] = Unit {0}
IsBehind end (b ∷ bs) = (end ≤ b.0) × (0 < b.1) × (b.0 + b.1 ≤ 65536) × IsChain (b.0 + b.1) bs

-- No block has a byte of the range.
abbrev pub IsApart : ℕ → ℕ → Blocks → Type 0
IsApart start size [] = Unit {0}
IsApart start size (b ∷ bs) = ((b.0 + b.1 ≤ start) ⊎ (start + size ≤ b.0)) × IsApart start size bs

-- Whether a byte is in one of the blocks.
unfoldable pub covers : Blocks → ℕ → Bool
covers [] p = false
covers (b ∷ bs) p = (leb (b.0) p && ltb p (b.0 + b.1)) || covers bs p

-- The new block at the head of blocks that start behind it.
unfoldable pub place : Blocks → ℕ → ℕ → Blocks
place [] start size = (start, size) ∷ []
place (b ∷ bs) start size =
    if start + size == b.0 then (start, size + b.1) ∷ bs else (start, size) ∷ (b ∷ bs)

-- The same insertion by recursion on the blocks.
unfoldable pub add_rec : Blocks → ℕ → ℕ → Blocks
add_rec [] start size = (start, size) ∷ []
add_rec (b ∷ bs) start size =
    let rest = add_rec bs start size in
    if ltb (b.0) start
    then (if (partition_point bs start == 0) && (b.0 + b.1 == start)
        then place bs (b.0) (size + b.1)
        else b ∷ rest)
    else place (b ∷ bs) start size

place-IsChain :
    (end : ℕ) (blocks : Blocks) (start size : ℕ)
    → IsBehind (start + size) blocks
    → end < start
    → 0 < size
    → start + size ≤ 65536
    → IsChain end (place blocks start size)
unfolding place
place-IsChain end [] start size h lower some_bytes upper = (lower, some_bytes, upper, tt)
place-IsChain end (b ∷ bs) start size (behind, full, inside, chain) lower some_bytes upper =
    elim (Bool-cases (start + size == b.0)) [
      | inl touch ↦
          let sum : b.0 + b.1 ≡ start + (size + b.1) = ground arith in
          rw touch (lower, omega arith, omega arith, subst (λ e. IsChain e bs) sum chain)
      | inr apart ↦ rw apart (lower, some_bytes, upper, (ground arith, full, inside, chain))
    ]

-- Blocks that start no earlier than the new range, and are apart from it, are behind it.
behind :
    (end : ℕ) (blocks : Blocks) (start size : ℕ)
    → partition_point blocks start ≡ 0
    → IsChain end blocks
    → IsApart start size blocks
    → IsBehind (start + size) blocks
unfolding partition_point
behind end [] start size none_before chain apart = tt
behind end (b ∷ bs) start size none_before (above, full, inside, chain) (inl low, rest) =
    absurd (ground arith)
behind end (b ∷ bs) start size none_before (above, full, inside, chain) (inr high, rest) =
    (high, full, inside, chain)

-- A block that starts before the range ends before it.
ends_before :
    (b : ℕ × ℕ) (start size : ℕ)
    → b.0 < start
    → (b.0 + b.1 ≤ start) ⊎ (start + size ≤ b.0)
    → b.0 + b.1 ≤ start
ends_before b start size h (inl low) = low
ends_before b start size h (inr high) = absurd (omega arith)

-- Behind a block that is not the one before the range, or does not touch it.
gap :
    (b : ℕ × ℕ) (bs : Blocks) (start size : ℕ)
    → IsChain (b.0 + b.1) bs
    → b.0 + b.1 ≤ start
    → ((partition_point bs start == 0) && (b.0 + b.1 == start)) ≡ false
    → b.0 + b.1 < start
unfolding partition_point
gap b [] start size chain low e = ground arith
gap b (c ∷ cs) start size (above, full, inside, rest) low e = ground arith

pub no_earlier :
    (b : ℕ × ℕ) (bs : Blocks) (start : ℕ)
    → ltb (b.0) start ≡ false
    → partition_point (b ∷ bs) start ≡ 0
unfolding partition_point
no_earlier b bs start e = rw e refl

pub add_rec-IsChain :
    (end : ℕ) (blocks : Blocks) (start size : ℕ)
    → IsChain end blocks
    → IsApart start size blocks
    → end < start
    → 0 < size
    → start + size ≤ 65536
    → IsChain end (add_rec blocks start size)
unfolding add_rec
add_rec-IsChain end [] start size chain apart lower some_bytes upper =
    (lower, some_bytes, upper, tt)
add_rec-IsChain end (b ∷ bs) start size (above, full, inside, chain) (side, apart) lower some_bytes
      upper =
    elim (Bool-cases (ltb (b.0) start)) [
      | inl less ↦
          let low = ends_before b start size (ground arith) side in
          elim (Bool-cases ((partition_point bs start == 0) && (b.0 + b.1 == start))) [
            | inl touch ↦
                let sum : start + size ≡ b.0 + (size + b.1) = ground arith in
                let after =
                  subst (λ e. IsBehind e bs) sum
                    (behind (b.0 + b.1) bs start size (ground arith) chain apart) in
                rw (less, touch)
                  (place-IsChain end bs (b.0) (size + b.1) after above (omega arith) (omega arith))
            | inr loose ↦
                rw (less, loose)
                  (
                    above,
                    full,
                    inside,
                    add_rec-IsChain (b.0 + b.1) bs start size chain apart
                        (gap b bs start size chain low loose) some_bytes upper,
                  )
          ]
      | inr more ↦ rw more (
          place-IsChain end (b ∷ bs) start size
            (behind end (b ∷ bs) start size (no_earlier b bs start more)
              (above, full, inside, chain) (side, apart))
            lower some_bytes upper)
    ]
