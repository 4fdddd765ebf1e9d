-- ===== src/Pager/Freelist/Layout.antt =====
-- What TrunkPage::write leaves in the buffer, as a list of bytes.
use mathlib.Core.List.{append-nil, append_assoc}
use native.Mathlib.Nat.{mod-eq_of_lt}
use sqlite_rs.Prelude.{
  ℕ, zero, suc, ◌+◌, ◌-◌, ◌*◌, ◌%◌, ◌^◌, ◌≤◌, ◌<◌, ◌≡◌, refl, ap, sym, ◌∙◌, arith, le→leb, List, [],
  ◌∷◌, ◌++◌, length, take, drop, length-append, length-drop,
}
use sqlite_rs.Prelude.Outcome.{ok, ◌>>=◌}
use sqlite_rs.Prelude.Bytes.{
  saturating_add, saturating_mul, slice, take-append, to_be, length-to_be, in_bounds,
}
use sqlite_rs.Pager.Freelist.{
  write_u32, overwrite, leaf_offset, write_leaves, zeros, fill_tail, TrunkPage, write,
}

unfoldable pub leaf_bytes : List ℕ → List ℕ
leaf_bytes [] = []
leaf_bytes (leaf ∷ rest) = to_be 4 leaf ++ leaf_bytes rest

-- A trunk page of `size` bytes, by the file format: the next trunk, the count, the leaves, zeros.
unfoldable pub trunk_bytes : TrunkPage → ℕ → List ℕ
trunk_bytes trunk size =
    to_be 4 (trunk.next_trunk)
    ++ (to_be 4 (length (trunk.leaves))
        ++ (leaf_bytes (trunk.leaves) ++ zeros (size - (8 + 4 * length (trunk.leaves)))))

pub length-leaf_bytes : (xs : List ℕ) → length (leaf_bytes xs) ≡ 4 * length xs
unfolding leaf_bytes
length-leaf_bytes [] = refl
length-leaf_bytes (x ∷ xs) =
    omega (arith, length-append (to_be 4 x) (leaf_bytes xs), length-to_be 4 x, length-leaf_bytes xs)

drop_past : (xs ys : List ℕ) (n k : ℕ) → k ≡ length xs + n → drop k (xs ++ ys) ≡ drop n ys
drop_past [] ys n k e = ap (λ (i : ℕ). drop i ys) (zero_add e)
  where
    zero_add : {a b : ℕ} → a ≡ 0 + b → a ≡ b
    zero_add e = omega (arith, e)
drop_past (x ∷ xs) ys n zero e = absurd (omega (arith, e))
drop_past (x ∷ xs) ys n (suc k) e = drop_past xs ys n k (omega (arith, e))

drop-drop : (m n k : ℕ) (xs : List ℕ) → k ≡ m + n → drop n (drop m xs) ≡ drop k xs
drop-drop zero n k xs e = ap (λ (i : ℕ). drop i xs) (zero_add e)
  where
    zero_add : {a b : ℕ} → a ≡ 0 + b → b ≡ a
    zero_add e = omega (arith, e)
drop-drop (suc m) n zero xs e = absurd (omega (arith, e))
drop-drop (suc m) zero (suc k) [] e = refl
drop-drop (suc m) (suc n) (suc k) [] e = refl
drop-drop (suc m) n (suc k) (x ∷ xs) e = drop-drop m n k xs (omega (arith, e))

-- A field written just after `front` takes the place of four bytes.
pub write_u32_at :
    (front back : List ℕ) (offset v : ℕ)
    → offset ≡ length front
    → 4 ≤ length back
    → length front + length back < 2 ^ 62
    → write_u32 (front ++ back) offset v ≡ ok ((front ++ to_be 4 v) ++ drop 4 back)
unfolding write_u32 overwrite slice
write_u32_at front back offset v p q r =
    let there =
      in_bounds offset (saturating_add offset 4) (length (front ++ back)) (omega arith)
        (omega (arith, length-append front back)) in
    let before = ap (λ (n : ℕ). take n (front ++ back)) p ∙ take-append front back in
    let after =
      drop_past front back 4 (offset + length (to_be 4 v)) (omega (arith, length-to_be 4 v)) in
    rw (there, before, after) (ap ok (sym (append_assoc front (to_be 4 v) (drop 4 back))))

pub write_leaves_at :
    (leaves front back : List ℕ) (i : ℕ)
    → length front ≡ 8 + 4 * i
    → 4 * length leaves ≤ length back
    → length front + length back < 2 ^ 62
    → write_leaves (front ++ back) i leaves
      ≡ ok ((front ++ leaf_bytes leaves) ++ drop (4 * length leaves) back)
unfolding write_leaves leaf_bytes leaf_offset
write_leaves_at [] front back i p q r = ap (λ (t : List ℕ). ok (t ++ back)) (sym (append-nil front))
write_leaves_at (leaf ∷ rest) front back i p q r =
    let e = write_u32_at front back (leaf_offset i) leaf (omega arith) (omega arith) r in
    let ih =
      write_leaves_at rest (front ++ to_be 4 leaf) (drop 4 back) (i + 1)
        (omega (arith, length-append front (to_be 4 leaf), length-to_be 4 leaf))
        (omega (arith, length-drop 4 back))
        (omega
          (arith, length-drop 4 back, length-append front (to_be 4 leaf), length-to_be 4 leaf)) in
    let bytes = append_assoc front (to_be 4 leaf) (leaf_bytes rest) in
    let left = drop-drop 4 (4 * length rest) (4 * suc (length rest)) back (omega arith) in
    ap (λ r. r >>= (λ buf'. write_leaves buf' (i + 1) rest)) e
    ∙ ih
    ∙ ap (λ (t : List ℕ). ok (t ++ drop (4 * length rest) (drop 4 back))) bytes
    ∙ ap (λ (t : List ℕ). ok ((front ++ (to_be 4 leaf ++ leaf_bytes rest)) ++ t)) left

pub length-zeros : (n : ℕ) → length (zeros n) ≡ n
unfolding zeros
length-zeros zero = refl
length-zeros (suc n) = omega (arith, length-zeros n)

fill_tail_at :
    (front back : List ℕ) (start size : ℕ)
    → start ≡ length front
    → size ≡ length back
    → fill_tail (front ++ back) start ≡ front ++ zeros size
unfolding fill_tail
fill_tail_at front back start size p q =
    let inside = le→leb start (length (front ++ back)) (omega (arith, length-append front back)) in
    let before = ap (λ (n : ℕ). take n (front ++ back)) p ∙ take-append front back in
    let width : length (front ++ back) - start ≡ size = omega (arith, length-append front back) in
    rw (inside, before, width) refl

regroup : (a b c d : List ℕ) → ((a ++ b) ++ c) ++ d ≡ a ++ (b ++ (c ++ d))
regroup a b c d = append_assoc (a ++ b) c d ∙ append_assoc a b (c ++ d)

-- On a page that has room for its leaves a trunk page is written with no error, as the file format
-- has it; the rest of the page is zero, whatever the page held before.
pub write-trunk_bytes :
    (trunk : TrunkPage) (buf : List ℕ)
    → 8 + 4 * length (trunk.leaves) ≤ length buf
    → length buf ≤ 65536
    → write trunk buf ≡ ok (trunk_bytes trunk (length buf))
unfolding write trunk_bytes
write-trunk_bytes trunk buf p q =
    let next = to_be 4 (trunk.next_trunk) in
    let count = to_be 4 (length (trunk.leaves)) in
    let items = leaf_bytes (trunk.leaves) in
    let rest = drop 4 (drop 4 buf) in
    let head_length : length (next ++ count) ≡ 8 = omega (
      arith,
      length-append next count,
      length-to_be 4 (trunk.next_trunk),
      length-to_be 4 (length (trunk.leaves)),
    ) in
    let rest_length : length rest + 8 ≡ length buf =
      omega (arith, length-drop 4 buf, length-drop 4 (drop 4 buf)) in
    let small : length (trunk.leaves) % 2 ^ 32 ≡ length (trunk.leaves) =
      mod-eq_of_lt (omega arith) in
    let e1 = write_u32_at [] buf 0 (trunk.next_trunk) refl (omega arith) (omega arith) in
    let e2 =
      write_u32_at next (drop 4 buf) 4 (length (trunk.leaves))
        (sym (length-to_be 4 (trunk.next_trunk))) (omega (arith, length-drop 4 buf))
        (omega (arith, length-drop 4 buf, length-to_be 4 (trunk.next_trunk))) in
    let e3 =
      write_leaves_at (trunk.leaves) (next ++ count) rest 0 (omega (arith, head_length))
        (omega (arith, rest_length)) (omega (arith, head_length, rest_length)) in
    let e4 =
      fill_tail_at ((next ++ count) ++ items) (drop (4 * length (trunk.leaves)) rest)
        (saturating_add 8 (saturating_mul (length (trunk.leaves)) 4))
        (length buf - (8 + 4 * length (trunk.leaves)))
        (omega (
          arith,
          head_length,
          length-append (next ++ count) items,
          length-leaf_bytes (trunk.leaves),
        ))
        (omega (arith, rest_length, length-drop (4 * length (trunk.leaves)) rest)) in
    rw (e1, small, e2, e3, e4) (ap ok (regroup next count items _))
