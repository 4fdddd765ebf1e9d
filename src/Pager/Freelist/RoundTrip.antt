-- ===== src/Pager/Freelist/RoundTrip.antt =====
-- Writing a trunk page gives the file format's bytes, and reading those gives the trunk page back.
use mathlib.Core.List.{append_assoc}
use native.Mathlib.Nat.{mod-eq_of_lt}
use sqlite_rs.Prelude.{
  ℕ, ◌+◌, ◌-◌, ◌*◌, ◌/◌, ◌^◌, ◌≤◌, ◌<◌, ◌≡◌, refl, ap, sym, ◌∙◌, arith, min, List, [], ◌∷◌, ◌++◌,
  length, length-append,
}
use sqlite_rs.Prelude.Outcome.{Result, ok, ◌>>=◌}
use sqlite_rs.Prelude.Bytes.{
  All, IsU32, saturating_add, slice_middle, to_be, length-to_be, from_be-to_be,
}
use sqlite_rs.Pager.Freelist.{
  FreelistError, read_u32, leaf_offset, parse_leaves, parse, zeros, TrunkPage, write,
}
use sqlite_rs.Pager.Freelist.Layout.{
  leaf_bytes, trunk_bytes, length-zeros, write-trunk_bytes, length-leaf_bytes,
}

read_u32_at :
    (front back : List ℕ) (offset v : ℕ)
    → offset ≡ length front
    → length front + length back < 2 ^ 62
    → IsU32 v
    → read_u32 (front ++ (to_be 4 v ++ back)) offset ≡ ok v
unfolding read_u32
read_u32_at front back offset v p q r =
    let e =
      slice_middle front (to_be 4 v) back offset (saturating_add offset 4) p
        (omega (arith, length-to_be 4 v)) in
    rw (e, length-to_be 4 v) (ap ok (from_be-to_be 4 v ∙ mod-eq_of_lt r))

parse_leaves_at :
    (leaves front back : List ℕ) (i : ℕ)
    → length front ≡ 8 + 4 * i
    → length front + 4 * length leaves + length back < 2 ^ 61
    → All IsU32 leaves
    → parse_leaves (front ++ (leaf_bytes leaves ++ back)) i (length leaves) ≡ ok leaves
unfolding parse_leaves leaf_bytes leaf_offset
parse_leaves_at [] front back i p q r = refl
parse_leaves_at (leaf ∷ rest) front back i p q r =
    let more = leaf_bytes rest ++ back in
    let e =
      read_u32_at front more (leaf_offset i) leaf (omega arith)
        (omega (arith, length-append (leaf_bytes rest) back, length-leaf_bytes rest)) (r.0) in
    let ih =
      parse_leaves_at rest (front ++ to_be 4 leaf) back (i + 1)
        (omega (arith, length-append front (to_be 4 leaf), length-to_be 4 leaf))
        (omega (arith, length-append front (to_be 4 leaf), length-to_be 4 leaf)) (r.1) in
    let inner = append_assoc (to_be 4 leaf) (leaf_bytes rest) back in
    let outer = append_assoc front (to_be 4 leaf) more in
    let e' = ap (λ (b : List ℕ). read_u32 (front ++ b) (leaf_offset i)) inner ∙ e in
    let ih' =
      ap (λ (b : List ℕ). parse_leaves (front ++ b) (i + 1) (length rest)) inner
      ∙ ap (λ (b : List ℕ). parse_leaves b (i + 1) (length rest)) (sym outer)
      ∙ ih in
    rw (e', ih') refl

-- The bytes of a trunk page are read as that trunk page.
parse-trunk_bytes :
    (trunk : TrunkPage) (size : ℕ)
    → IsU32 (trunk.next_trunk)
    → All IsU32 (trunk.leaves)
    → 8 + 4 * length (trunk.leaves) ≤ size
    → size ≤ 65536
    → parse (trunk_bytes trunk size) ≡ ok trunk
unfolding parse trunk_bytes
parse-trunk_bytes trunk size h k p q =
    let next = to_be 4 (trunk.next_trunk) in
    let count = to_be 4 (length (trunk.leaves)) in
    let items = leaf_bytes (trunk.leaves) in
    let tail = zeros (size - (8 + 4 * length (trunk.leaves))) in
    let items_length : length (items ++ tail) + 8 ≡ size = omega (
      arith,
      length-append items tail,
      length-leaf_bytes (trunk.leaves),
      length-zeros (size - (8 + 4 * length (trunk.leaves))),
    ) in
    let head_length : length (next ++ count) ≡ 8 = omega (
      arith,
      length-append next count,
      length-to_be 4 (trunk.next_trunk),
      length-to_be 4 (length (trunk.leaves)),
    ) in
    let page_length : length (next ++ (count ++ (items ++ tail))) ≡ size = omega (
      arith,
      length-append next (count ++ (items ++ tail)),
      length-append count (items ++ tail),
      length-append next count,
    ) in
    let fits : min (length (trunk.leaves)) ((length (next ++ (count ++ (items ++ tail))) - 8) / 4)
        ≡ length (trunk.leaves) =
      omega arith in
    let e1 =
      read_u32_at [] (count ++ (items ++ tail)) 0 (trunk.next_trunk) refl
        (omega (arith, length-append next (count ++ (items ++ tail)))) h in
    let e2 =
      read_u32_at next (items ++ tail) 4 (length (trunk.leaves))
        (sym (length-to_be 4 (trunk.next_trunk))) (omega (arith, length-to_be 4 (trunk.next_trunk)))
        (omega arith) in
    let e3 =
      parse_leaves_at (trunk.leaves) (next ++ count) tail 0 (omega arith)
        (omega (arith, length-append items tail, length-leaf_bytes (trunk.leaves))) k in
    let e3' =
      ap (λ (b : List ℕ). parse_leaves b 0 (length (trunk.leaves)))
        (sym (append_assoc next count (items ++ tail)))
      ∙ e3 in
    rw (e1, e2, fits, e3') refl

-- A trunk page that fits its page is read back as it was written, whatever the page held before.
pub parse-write :
    (trunk : TrunkPage) (buf : List ℕ)
    → IsU32 (trunk.next_trunk)
    → All IsU32 (trunk.leaves)
    → 8 + 4 * length (trunk.leaves) ≤ length buf
    → length buf ≤ 65536
    → (write trunk buf >>= parse) ≡ ok trunk
parse-write trunk buf h k p q =
    ap (λ (r : Result FreelistError (List ℕ)). r >>= parse) (write-trunk_bytes trunk buf p q)
    ∙ parse-trunk_bytes trunk (length buf) h k p q
