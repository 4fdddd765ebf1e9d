-- ===== src/Pager/Freelist/Bounds.antt =====
-- TrunkPage::parse on any page: it fails on the eight header bytes only, and stays inside the page.
use sqlite_rs.Prelude.{
  ℕ, zero, suc, ◌+◌, ◌-◌, ◌*◌, ◌/◌, ◌^◌, ◌≤◌, ◌<◌, ◌≡◌, refl, arith, min, ◌&&◌, leb, ltb, ltb→lt,
  Bool-cases, false, inl, inr, List, [], ◌∷◌, length, length-take, length-drop, take, drop,
}
use sqlite_rs.Prelude.Outcome.{ok, err}
use sqlite_rs.Prelude.Bytes.{saturating_add, slice, in_bounds, from_be}
use sqlite_rs.Pager.Freelist.{
  page_too_short, read_u32, leaf_offset, parse_leaves, TrunkPage, parse, max_leaves_per_trunk,
}

read_u32_inside :
    (buf : List ℕ) (offset : ℕ)
    → offset + 4 ≤ length buf
    → length buf < 2 ^ 62
    → read_u32 buf offset ≡ ok (from_be (take 4 (drop offset buf)))
unfolding read_u32 slice
read_u32_inside buf offset p q =
    let there =
      in_bounds offset (saturating_add offset 4) (length buf) (omega arith) (omega arith) in
    let width : saturating_add offset 4 - offset ≡ 4 = omega arith in
    let four : length (take 4 (drop offset buf)) ≡ 4 =
      omega (arith, length-take 4 (drop offset buf), length-drop offset buf) in
    rw (there, width, four) refl

not_in_bounds : (a b n : ℕ) → n < b → (leb a b && leb b n) ≡ false
not_in_bounds a b n p = ground arith

read_u32_outside :
    (buf : List ℕ) (offset : ℕ)
    → length buf < offset + 4
    → offset < 2 ^ 62
    → read_u32 buf offset ≡ err (page_too_short offset (length buf))
unfolding read_u32 slice
read_u32_outside buf offset p q =
    rw (not_in_bounds offset (saturating_add offset 4) (length buf) (omega arith)) refl

parse_leaves_inside :
    (left i : ℕ) (buf : List ℕ)
    → 8 + 4 * (i + left) ≤ length buf
    → length buf < 2 ^ 61
    → (found : List ℕ) × (parse_leaves buf i left ≡ ok found) × (length found ≡ left)
unfolding parse_leaves leaf_offset
parse_leaves_inside zero i buf p q = ([], refl, refl)
parse_leaves_inside (suc left) i buf p q =
    let (found, e, n) = parse_leaves_inside left (i + 1) buf (omega arith) q in
    let first = read_u32_inside buf (leaf_offset i) (omega arith) (omega arith) in
    (from_be (take 4 (drop (leaf_offset i) buf)) ∷ found, rw (first, e) refl, omega (arith, n))

-- A page of at least eight bytes is always read as a trunk page, and the leaves found are the
-- claimed count or, where that is larger, all that the page has room for.
parse_inside :
    (buf : List ℕ)
    → 8 ≤ length buf
    → length buf < 2 ^ 32
    → (trunk : TrunkPage) × (parse buf ≡ ok trunk)
      × (length (trunk.leaves)
          ≡ min (from_be (take 4 (drop 4 buf))) (max_leaves_per_trunk (length buf)))
unfolding parse max_leaves_per_trunk
parse_inside buf p q =
    let count = min (from_be (take 4 (drop 4 buf))) ((length buf - 8) / 4) in
    let (found, e, n) = parse_leaves_inside count 0 buf (omega arith) (omega arith) in
    let e1 = read_u32_inside buf 0 (omega arith) (omega arith) in
    let e2 = read_u32_inside buf 4 (omega arith) (omega arith) in
    (record { next_trunk = from_be (take 4 buf); leaves = found }, rw (e1, e2, e) refl, n)

-- A shorter page is refused at the header field that it cuts.
parse_too_short :
    (buf : List ℕ)
    → length buf < 8
    → (offset : ℕ) × (parse buf ≡ err (page_too_short offset (length buf)))
      × (offset ≤ length buf)
      × (length buf < offset + 4)
unfolding parse
parse_too_short buf p = elim (Bool-cases (ltb (length buf) 4)) [
  | inl e ↦
      let short = ltb→lt (length buf) 4 e in
      (0, rw (read_u32_outside buf 0 short (omega arith)) refl, omega arith, short)
  | inr e ↦
      let long : 4 ≤ length buf = ground arith in
      let next = read_u32_inside buf 0 long (omega arith) in
      (4, rw (next, read_u32_outside buf 4 p (omega arith)) refl, long, p)
]
