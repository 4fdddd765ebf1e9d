-- ===== src/Record/Varint/RoundTrip.antt =====
-- `decode_varint` reads back what `write_varint_into` wrote.
use Prim.Native.Nat.{bit_and, bit_or}
use mathlib.Core.List.{append_assoc}
use native.Mathlib.Nat.{mod-eq_of_lt, mul-le-mul_right, mul-le-mul_left, pow-le-pow_right}
use native.Mathlib.Decide.{dec_lt}
use sqlite_rs.Prelude.{
  ℕ, zero, suc, ◌+◌, ◌*◌, ◌/◌, ◌%◌, ◌^◌, ◌≤◌, ◌<◌, ◌≡◌, ap, ◌∙◌, List, [], ◌∷◌, ◌++◌, arith, length,
  length-append,
}
use sqlite_rs.Prelude.Outcome.{ok}
use sqlite_rs.Prelude.Bytes.{IsU64, split_128}
use sqlite_rs.Prelude.Bits.{bit_and_127, bit_and_128, bit_or-disjoint}
use sqlite_rs.Record.Varint.{
  shl64, decode_loop, decode_ninth, decode_varint, encode_varint, varint_len,
}
use sqlite_rs.Record.Varint.Groups.{
  flagged, groups_of, shift_seven, one-le-shift, groups_for, groups_for_bounds, groups_for_fits,
  write_varint_into-small, write_varint_into-large, varint_len-small, varint_len-large,
  length-flagged, length-groups_of,
}

-- One round: a byte's low group joins the accumulator.
pub join_group :
    (r b : ℕ) → r * 128 < 2 ^ 64 → bit_or (shl64 r 7) (bit_and b 0x7f) ≡ r * 128 + b % 128
join_group r b h =
    rw (bit_and_127 b, mod-eq_of_lt {n = r * 2 ^ 7} h) (bit_or-disjoint 7 r (b % 128) (omega arith))

pub last_round :
    (n i r g : ℕ) (rest : List ℕ)
    → g < 128
    → r * 128 < 2 ^ 64
    → decode_loop (suc n) i r (g ∷ rest) ≡ ok (r * 128 + g, i + 1)
unfolding decode_loop
last_round n i r g rest hg hr = ground (arith, join_group r g hr, bit_and_128 g)

pub inner_round :
    (n i r g : ℕ) (rest : List ℕ)
    → g < 128
    → r * 128 < 2 ^ 64
    → decode_loop (suc n) i r ((g + 128) ∷ rest) ≡ decode_loop n (i + 1) (r * 128 + g) rest
unfolding decode_loop
inner_round n i r g rest hg hr = ground (arith, join_group r (g + 128) hr, bit_and_128 (g + 128))

-- The room above shrinks with each group, so no shift loses a bit.
room : (r g p m : ℕ) → g < 128 → (r + 1) * (128 * p) ≤ m → (r * 128 + g + 1) * p ≤ m
room r g p m hg h =
    let q : (r * 128 + g + 1) * p ≤ (r + 1) * 128 * p = mul-le-mul_right p (omega arith) in
    omega arith

no_overflow : (r p : ℕ) → 1 ≤ p → (r + 1) * (128 * p) ≤ 2 ^ 64 → r * 128 < 2 ^ 64
no_overflow r p hp h =
    let q : (r + 1) * 128 * 1 ≤ (r + 1) * 128 * p = mul-le-mul_left ((r + 1) * 128) hp in
    omega arith

decode_loop-groups_of :
    (m n i r v : ℕ) (rest : List ℕ)
    → m ≤ n
    → (r + 1) * 2 ^ (7 * suc m) ≤ 2 ^ 64
    → decode_loop (suc n) i r (groups_of (suc m) v ++ rest)
      ≡ ok (r * 2 ^ (7 * suc m) + v % 2 ^ (7 * suc m), i + suc m)
unfolding groups_of
decode_loop-groups_of zero n i r v rest h fits =
    last_round n i r (v % 128) rest (omega arith) (omega arith)
decode_loop-groups_of (suc m) zero i r v rest h fits = absurd (omega arith)
decode_loop-groups_of (suc m) (suc n) i r v rest h fits =
    let p = 2 ^ (7 * suc m) in
    let g = v / p % 128 in
    let fits' : (r + 1) * (128 * p) ≤ 2 ^ 64 = rw (← shift_seven (suc m)) fits in
    inner_round (suc n) i r g (groups_of (suc m) v ++ rest) (omega arith)
      (no_overflow r p (one-le-shift (suc m)) fits')
    ∙ decode_loop-groups_of m n (i + 1) (r * 128 + g) v rest (omega arith)
        (room r g p (2 ^ 64) (omega arith) fits')
    ∙ ground (arith, total)
  where
    total :
        (r * 128 + v / 2 ^ (7 * suc m) % 128) * 2 ^ (7 * suc m) + v % 2 ^ (7 * suc m)
        ≡ r * 2 ^ (7 * suc (suc m)) + v % 2 ^ (7 * suc (suc m))
    total = rw (shift_seven (suc m)) (omega (arith, split_128 v (2 ^ (7 * suc m))))

-- The eight flagged groups of the nine-byte form, and the whole byte behind them.
decode_loop-flagged :
    (n i r v : ℕ) (rest : List ℕ)
    → (r + 1) * 2 ^ (7 * n) ≤ 2 ^ 57
    → decode_loop n i r (flagged n v ++ rest)
      ≡ decode_ninth (r * 2 ^ (7 * n) + v % 2 ^ (7 * n)) rest
unfolding flagged
decode_loop-flagged zero i r v rest h =
    unfold decode_loop in ap (λ (t : ℕ). decode_ninth t rest) (omega arith)
decode_loop-flagged (suc n) i r v rest h =
    let p = 2 ^ (7 * n) in
    let g = v / p % 128 in
    let h' : (r + 1) * (128 * p) ≤ 2 ^ 57 = rw (← shift_seven n) h in
    inner_round n i r g (flagged n v ++ rest) (omega arith)
      (no_overflow r p (one-le-shift n) (omega arith))
    ∙ decode_loop-flagged n (i + 1) (r * 128 + g) v rest (room r g p (2 ^ 57) (omega arith) h')
    ∙ ap (λ (t : ℕ). decode_ninth t rest) total
  where
    total :
        (r * 128 + v / 2 ^ (7 * n) % 128) * 2 ^ (7 * n) + v % 2 ^ (7 * n)
        ≡ r * 2 ^ (7 * suc n) + v % 2 ^ (7 * suc n)
    total = rw (shift_seven n) (omega (arith, split_128 v (2 ^ (7 * n))))

ninth_byte :
    (v : ℕ) (rest : List ℕ)
    → IsU64 v
    → decode_ninth (v / 2 ^ 8 % 2 ^ 56) (v % 256 ∷ rest) ≡ ok (v, 9)
unfolding decode_ninth
ninth_byte v rest h =
    let e : v / 2 ^ 8 % 2 ^ 56 * 2 ^ 8 % 2 ^ 64 ≡ v / 2 ^ 8 * 2 ^ 8 = omega arith in
    rw (e, bit_or-disjoint 8 (v / 2 ^ 8) (v % 256) (omega arith)) (ground arith)

-- The two forms.
decode-large :
    (v : ℕ) (rest : List ℕ)
    → IsU64 v
    → 2 ^ 56 ≤ v
    → decode_varint (encode_varint v ++ rest) ≡ ok (v, 9)
unfolding decode_varint encode_varint
decode-large v rest h l =
    let top = flagged 8 (v / 2 ^ 8) in
    rw (write_varint_into-large v [] l, append_assoc top (v % 256 ∷ []) rest)
      (decode_loop-flagged 8 0 0 (v / 2 ^ 8) (v % 256 ∷ rest) (omega arith)
        ∙ ap (λ (t : ℕ). decode_ninth t (v % 256 ∷ rest)) (omega arith)
        ∙ ninth_byte v rest h)

length-large : (v : ℕ) → 2 ^ 56 ≤ v → length (encode_varint v) ≡ 9
unfolding encode_varint
length-large v l =
    let top = flagged 8 (v / 2 ^ 8) in
    rw (write_varint_into-large v [] l)
      (omega (arith, length-append top (v % 256 ∷ []), length-flagged 8 (v / 2 ^ 8)))

eight_groups : (m : ℕ) → suc m ≤ 8 → 7 * suc m ≤ 56
eight_groups m h = omega arith

decode-small :
    (v : ℕ) (rest : List ℕ)
    → v < 2 ^ 56
    → (decode_varint (encode_varint v ++ rest) ≡ ok (v, groups_for v))
      × (length (encode_varint v) ≡ groups_for v)
unfolding decode_varint encode_varint
decode-small v rest h =
    let (lo, hi) = groups_for_bounds v in
    rw (write_varint_into-small v [] h)
      (small (groups_for v) lo hi (groups_for_fits v h), length-groups_of (groups_for v) v)
  where
    small :
        (g : ℕ)
        → 1 ≤ g
        → g ≤ 8
        → v < 2 ^ (7 * g)
        → decode_loop 8 0 0 (groups_of g v ++ rest) ≡ ok (v, g)
    small zero lo hi fits = absurd (omega arith)
    small (suc m) lo hi fits =
        decode_loop-groups_of m 7 0 0 v rest (omega arith)
          (omega (arith, pow-le-pow_right {n = 2} (omega arith) (eight_groups m hi)))
        ∙ ground (arith, mod-eq_of_lt fits)

-- `decode_varint` gives back every u64 that `encode_varint` wrote, whatever bytes follow, and
-- counts exactly the bytes of the encoding.
pub decode_varint-encode_varint :
    (v : ℕ) (rest : List ℕ)
    → IsU64 v
    → decode_varint (encode_varint v ++ rest) ≡ ok (v, length (encode_varint v))
decode_varint-encode_varint v rest h = elim (dec_lt v (2 ^ 56)) [
  | yes small ↦ let (d, l) = decode-small v rest small in rw l d
  | no large ↦ rw (length-large v (omega arith)) (decode-large v rest h (omega arith))
]

-- `varint_len` is the number of bytes that `encode_varint` writes, 1 to 9.
pub length-encode_varint :
    (v : ℕ) → (length (encode_varint v) ≡ varint_len v) × (1 ≤ varint_len v) × (varint_len v ≤ 9)
length-encode_varint v = elim (dec_lt v (2 ^ 56)) [
  | yes small ↦
      ground (arith, (decode-small v [] small).1, varint_len-small v small, groups_for_bounds v)
  | no large ↦ omega (arith, length-large v (omega arith), varint_len-large v (omega arith))
]
