-- ===== src/Pager/Header/Prefix.antt =====
-- DatabaseHeader::parse reads the first hundred bytes only.
use sqlite_rs.Prelude.{
  ℕ, zero, suc, ◌+◌, ◌-◌, ◌≤◌, ◌<◌, ◌≡◌, refl, ap, arith, le→leb, le→ltb_false, List, [], ◌∷◌, ◌++◌,
  length, take, drop, get_elem?, length-append, length-take, length-drop, some,
}
use sqlite_rs.Prelude.Bytes.{usize_max, slice, in_bounds}
use sqlite_rs.Pager.Header.{
  read_u8, read_u32, is_magic, has_magic, read_page_size, read_version_byte, read_reserved, parse,
}

get_elem?-append :
    (xs ys : List ℕ) (i : ℕ) → i < length xs → get_elem? (xs ++ ys) i ≡ get_elem? xs i
get_elem?-append [] ys i h = absurd (omega (arith, h))
get_elem?-append (x ∷ xs) ys zero h = refl
get_elem?-append (x ∷ xs) ys (suc i) h = get_elem?-append xs ys i (omega (arith, h))

get_elem?-inside : (xs : List ℕ) (i : ℕ) → i < length xs → (x : ℕ) × (get_elem? xs i ≡ some x)
get_elem?-inside [] i h = absurd (omega (arith, h))
get_elem?-inside (x ∷ xs) zero h = (x, refl)
get_elem?-inside (x ∷ xs) (suc i) h = get_elem?-inside xs i (omega (arith, h))

pub take-drop-append :
    (xs ys : List ℕ) (a n : ℕ) → a + n ≤ length xs → take n (drop a (xs ++ ys)) ≡ take n (drop a xs)
take-drop-append xs ys a zero h = refl
take-drop-append [] ys zero (suc n) h = absurd (omega (arith, h))
take-drop-append [] ys (suc a) (suc n) h = absurd (omega (arith, h))
take-drop-append (x ∷ xs) ys zero (suc n) h =
    ap (λ t. x ∷ t) (take-drop-append xs ys zero n (omega (arith, h)))
take-drop-append (x ∷ xs) ys (suc a) (suc n) h = take-drop-append xs ys a (suc n) (omega (arith, h))

slice-append :
    (xs ys : List ℕ) (a b : ℕ) → a ≤ b → b ≤ length xs → slice (xs ++ ys) a b ≡ slice xs a b
unfolding slice
slice-append xs ys a b p q =
    let all = in_bounds a b (length (xs ++ ys)) p (omega (arith, q, length-append xs ys)) in
    let part = in_bounds a b (length xs) p q in
    rw (all, part, take-drop-append xs ys a (b - a) (omega (arith, p, q))) refl

read_u8-append :
    (buf more : List ℕ) (i : ℕ) → i < length buf → read_u8 (buf ++ more) i ≡ read_u8 buf i
unfolding read_u8
read_u8-append buf more i h =
    let (x, e) = get_elem?-inside buf i h in rw (get_elem?-append buf more i h, e) refl

slice_inside :
    (buf : List ℕ) (a b : ℕ)
    → a ≤ b
    → b ≤ length buf
    → slice buf a b ≡ some (take (b - a) (drop a buf))
unfolding slice
slice_inside buf a b p q = rw (in_bounds a b (length buf) p q) refl

read_u32-append :
    (buf more : List ℕ) (i : ℕ)
    → i + 4 ≤ length buf
    → i < 100
    → read_u32 (buf ++ more) i ≡ read_u32 buf i
unfolding read_u32
read_u32-append buf more i h small =
    let four : length (take (i + 4 - i) (drop i buf)) ≡ 4 =
      omega (arith, h, length-take (i + 4 - i) (drop i buf), length-drop i buf) in
    let bounded = le→leb (i + 4) usize_max (omega arith) in
    let there = slice_inside buf i (i + 4) (omega arith) h in
    rw (bounded, slice-append buf more i (i + 4) (omega arith) h, there, four) refl

has_magic-append : (buf more : List ℕ) → 16 ≤ length buf → has_magic (buf ++ more) ≡ has_magic buf
unfolding has_magic
has_magic-append buf more h = ap is_magic (slice-append buf more 0 16 (omega arith) h)

-- What follows the first hundred bytes does not matter: a whole page parses as its header does, and
-- fails as it does.
pub parse-append : (buf more : List ℕ) → 100 ≤ length buf → parse (buf ++ more) ≡ parse buf
unfolding parse read_page_size read_version_byte read_reserved
parse-append buf more h =
    rw
      (
        le→ltb_false (length (buf ++ more)) 100 (omega (arith, h, length-append buf more)),
        le→ltb_false (length buf) 100 h,
        has_magic-append buf more (omega (arith, h)),
        byte 16 (omega arith),
        byte 17 (omega arith),
        byte 18 (omega arith),
        byte 19 (omega arith),
        byte 20 (omega arith),
        word 28 (omega arith),
        word 32 (omega arith),
        word 36 (omega arith),
        word 40 (omega arith),
        word 44 (omega arith),
        word 52 (omega arith),
        word 56 (omega arith),
        word 60 (omega arith),
        word 68 (omega arith),
      )
      refl
  where
    byte : (i : ℕ) → i < 100 → read_u8 (buf ++ more) i ≡ read_u8 buf i
    byte i p = read_u8-append buf more i (omega (arith, p, h))

    word : (i : ℕ) → i + 4 ≤ 100 → read_u32 (buf ++ more) i ≡ read_u32 buf i
    word i p = read_u32-append buf more i (omega (arith, p, h)) (omega (arith, p))
