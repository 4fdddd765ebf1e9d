-- ===== src/Record/Integers.antt =====
-- Integer columns: each serial type's body reads back, and the type chosen is the narrowest.
use Prim.Native.Nat.{bit_or}
use sqlite_rs.Prelude.{
  ℕ, zero, suc, ◌+◌, ◌-◌, ◌*◌, ◌/◌, ◌%◌, ◌^◌, ◌≤◌, ◌<◌, ◌≡◌, refl, ap, ◌∙◌, ◌⊎◌, inl, inr, arith,
  Bool, true, false, ◌==◌, le→ltb_false, if◌then◌else◌, List, [], ◌∷◌, ◌++◌, length, drop,
}
use sqlite_rs.Prelude.Int.{ℤ, pos, negsuc, ◌-ℤ◌}
use sqlite_rs.Prelude.Outcome.{ok}
use sqlite_rs.Prelude.Bits.{bit_or-disjoint, bit_and_128}
use sqlite_rs.Prelude.Bytes.{
  All, IsByte, usize_max, slice_middle, to_be, from_be, from_be_loop, from_be-to_be,
  from_be_loop-to_be, length-to_be, to_be-IsByte,
}
use sqlite_rs.Record.Value.{
  integer, TextEncoding, FitsSigned, IsI64, fits_signed, as_unsigned, as_signed,
}
use sqlite_rs.Record.Encode.{integer_serial_type, write_integer_body_into}
use sqlite_rs.Record.Decode.{take_bytes, int24, int48, fold_bytes, sign_extend, decode_serial_value}

-- The bytes between two others.
pub take_bytes_middle :
    (xs ys zs : List ℕ) (len : ℕ)
    → len ≡ length ys
    → length xs + len ≤ usize_max
    → take_bytes (xs ++ (ys ++ zs)) (length xs) len ≡ ok ys
unfolding take_bytes
take_bytes_middle xs ys zs len e h =
    rw
      (
        le→ltb_false usize_max (length xs + len) h,
        slice_middle xs ys zs (length xs) (length xs + len) refl (omega arith),
      )
      refl

-- The bytes of an integer's body in the record format, which are six for serial type 5.
unfoldable pub integer_width : ℕ → ℕ
integer_width serial_type =
    if serial_type == 1
    then 1
    else if serial_type == 2
    then 2
    else if serial_type == 3
    then 3
    else if serial_type == 4
    then 4
    else if serial_type == 5
    then 6
    else if serial_type == 6
    then 8
    else 0

-- The body that serial type `st` gives `i` decodes to `i`, wherever it stands.
abbrev pub ReadsBack : ℤ → ℕ → Type 0
ReadsBack i st =
    (xs zs : List ℕ) (encoding : TextEncoding)
    → length xs + integer_width st ≤ usize_max
    → (decode_serial_value st (xs ++ (write_integer_body_into i st [] ++ zs)) (length xs) encoding
        ≡ ok (integer i, integer_width st))
      × (length (write_integer_body_into i st []) ≡ integer_width st)

signed_8 : (i : ℤ) → fits_signed 7 i ≡ true → as_signed 7 (as_unsigned 8 i % 256 ^ 1) ≡ i
signed_8 i h = ground arith

signed_16 : (i : ℤ) → fits_signed 15 i ≡ true → as_signed 15 (as_unsigned 16 i % 256 ^ 2) ≡ i
signed_16 i h = ground arith

signed_32 : (i : ℤ) → fits_signed 31 i ≡ true → as_signed 31 (as_unsigned 32 i % 256 ^ 4) ≡ i
signed_32 i h = ground arith

signed_64 : (i : ℤ) → IsI64 i → as_signed 63 (as_unsigned 64 i % 256 ^ 8) ≡ i
signed_64 (pos n) h = ground arith
signed_64 (negsuc n) h = ground arith

from_be_one : (x : ℕ) → from_be (x ∷ []) ≡ x
unfolding from_be from_be_loop
from_be_one x = omega arith

pub take_be :
    (k v : ℕ) (xs zs : List ℕ)
    → length xs + k ≤ usize_max
    → take_bytes (xs ++ (to_be k v ++ zs)) (length xs) k ≡ ok (to_be k v)
take_be k v xs zs room =
    take_bytes_middle xs (to_be k v) zs k (omega (arith, length-to_be k v)) room

ReadsBack-8 : (i : ℤ) → fits_signed 7 i ≡ true → ReadsBack i 1
unfolding decode_serial_value write_integer_body_into integer_width
ReadsBack-8 i h xs zs encoding room = (
  rw (take_bytes_middle xs (as_unsigned 8 i ∷ []) zs 1 refl room)
      (rw (from_be_one (as_unsigned 8 i)) (ap (λ j. ok (integer j, 1)) (narrow i h))),
  refl,
)
  where
    narrow : (i : ℤ) → fits_signed 7 i ≡ true → as_signed 7 (as_unsigned 8 i) ≡ i
    narrow i h = ground arith

ReadsBack-16 : (i : ℤ) → fits_signed 15 i ≡ true → ReadsBack i 2
unfolding decode_serial_value write_integer_body_into integer_width
ReadsBack-16 i h xs zs encoding room =
    let v = as_unsigned 16 i in
    (
      rw (take_be 2 v xs zs room)
          (rw (from_be-to_be 2 v) (ap (λ j. ok (integer j, 2)) (signed_16 i h))),
      length-to_be 2 v,
    )

ReadsBack-32 : (i : ℤ) → fits_signed 31 i ≡ true → ReadsBack i 4
unfolding decode_serial_value write_integer_body_into integer_width
ReadsBack-32 i h xs zs encoding room =
    let v = as_unsigned 32 i in
    (
      rw (take_be 4 v xs zs room)
          (rw (from_be-to_be 4 v) (ap (λ j. ok (integer j, 4)) (signed_32 i h))),
      length-to_be 4 v,
    )

ReadsBack-64 : (i : ℤ) → IsI64 i → ReadsBack i 6
unfolding decode_serial_value write_integer_body_into integer_width
ReadsBack-64 i h xs zs encoding room =
    let v = as_unsigned 64 i in
    (
      rw (take_be 8 v xs zs room)
          (rw (from_be-to_be 8 v) (ap (λ j. ok (integer j, 8)) (signed_64 i h))),
      length-to_be 8 v,
    )

-- 24 bits: the three bytes joined by shifts are the number, and the top bit is its sign.
join_24 :
    (b0 b1 b2 : ℕ)
    → b0 < 256
    → b1 < 256
    → b2 < 256
    → bit_or (bit_or (b0 * 2 ^ 16) (b1 * 2 ^ 8)) b2 ≡ b0 * 65536 + b1 * 256 + b2
join_24 b0 b1 b2 h0 h1 h2 =
    let e : bit_or (b0 * 2 ^ 16) (b1 * 2 ^ 8) ≡ (b0 * 256 + b1) * 2 ^ 8 =
      bit_or-disjoint 16 b0 (b1 * 2 ^ 8) (omega arith) ∙ omega arith in
    rw e (bit_or-disjoint 8 (b0 * 256 + b1) b2 (omega arith) ∙ omega arith)

sign_24 :
    (i : ℤ)
    → fits_signed 23 i ≡ true
    → sign_extend 24 (as_unsigned 64 i / 65536 % 256) (as_unsigned 64 i % 2 ^ 24) ≡ i
unfolding ◌-ℤ◌
sign_24 (pos n) h = ground (arith, bit_and_128 (n % 2 ^ 64 / 65536 % 256))
sign_24 (negsuc n) h = ground (arith, bit_and_128 ((2 ^ 64 - 1 - n % 2 ^ 64) / 65536 % 256))

last_three : (v : ℕ) → drop 5 (to_be 8 v) ≡ to_be 3 v
unfolding to_be
last_three v = refl

int24-to_be :
    (i : ℤ) → fits_signed 23 i ≡ true → int24 (to_be 3 (as_unsigned 64 i)) ≡ ok (integer i, 3)
unfolding int24 to_be
int24-to_be i h =
    let v = as_unsigned 64 i in
    let e : bit_or (bit_or (v / 65536 % 256 * 2 ^ 16) (v / 256 % 256 * 2 ^ 8)) (v / 1 % 256)
        ≡ v % 2 ^ 24 =
      join_24 (v / 65536 % 256) (v / 256 % 256) (v / 1 % 256) (omega arith) (omega arith)
        (omega arith)
      ∙ omega arith in
    rw e (ap (λ j. ok (integer j, 3)) (sign_24 i h))

ReadsBack-24 : (i : ℤ) → fits_signed 23 i ≡ true → ReadsBack i 3
unfolding decode_serial_value write_integer_body_into integer_width
ReadsBack-24 i h xs zs encoding room =
    let v = as_unsigned 64 i in
    rw (last_three v) (rw (take_be 3 v xs zs room) (int24-to_be i h), length-to_be 3 v)

-- 48 bits: the loop of shifts is the big-endian number.
fold_bytes-from_be_loop :
    (v : ℕ) (bs : List ℕ) → All IsByte bs → fold_bytes v bs ≡ from_be_loop v bs
unfolding fold_bytes from_be_loop
fold_bytes-from_be_loop v [] h = refl
fold_bytes-from_be_loop v (b ∷ bs) h =
    rw (bit_or-disjoint 8 v b h.0) (fold_bytes-from_be_loop (v * 2 ^ 8 + b) bs h.1)

sign_48 :
    (i : ℤ)
    → fits_signed 47 i ≡ true
    → sign_extend 48 (as_unsigned 64 i / 256 ^ 5 % 256) (as_unsigned 64 i % 256 ^ 6) ≡ i
unfolding ◌-ℤ◌
sign_48 (pos n) h = ground (arith, bit_and_128 (n % 2 ^ 64 / 256 ^ 5 % 256))
sign_48 (negsuc n) h = ground (arith, bit_and_128 ((2 ^ 64 - 1 - n % 2 ^ 64) / 256 ^ 5 % 256))

last_six : (v : ℕ) → drop 2 (to_be 8 v) ≡ to_be 6 v
unfolding to_be
last_six v = refl

int48-fold :
    (b : ℕ) (bs : List ℕ)
    → int48 (b ∷ bs) ≡ ok (integer (sign_extend 48 b (fold_bytes 0 (b ∷ bs))), 6)
unfolding int48
int48-fold b bs = refl

fold_bytes-to_be : (v : ℕ) → fold_bytes 0 (to_be 6 v) ≡ v % 256 ^ 6
fold_bytes-to_be v =
    fold_bytes-from_be_loop 0 (to_be 6 v) (to_be-IsByte 6 v)
    ∙ omega (arith, from_be_loop-to_be 6 v 0)

six_bytes : (v : ℕ) → to_be 6 v ≡ (v / 256 ^ 5 % 256) ∷ to_be 5 v
unfolding to_be
six_bytes v = refl

int48-to_be :
    (i : ℤ) → fits_signed 47 i ≡ true → int48 (to_be 6 (as_unsigned 64 i)) ≡ ok (integer i, 6)
int48-to_be i h =
    let v = as_unsigned 64 i in
    ap int48 (six_bytes v)
    ∙ int48-fold (v / 256 ^ 5 % 256) (to_be 5 v)
    ∙ rw (← six_bytes v, fold_bytes-to_be v) (ap (λ j. ok (integer j, 6)) (sign_48 i h))

ReadsBack-48 : (i : ℤ) → fits_signed 47 i ≡ true → ReadsBack i 5
unfolding decode_serial_value write_integer_body_into integer_width
ReadsBack-48 i h xs zs encoding room =
    let v = as_unsigned 64 i in
    rw (last_six v) (rw (take_be 6 v xs zs room) (int48-to_be i h), length-to_be 6 v)

-- The ladder of width tests: a property of each rung is one of the choice.
ladder :
    (P : ℕ → Type 0) (b1 b2 b3 b4 b5 : Bool)
    → (b1 ≡ true → P 1)
    → (b2 ≡ true → P 2)
    → (b3 ≡ true → P 3)
    → (b4 ≡ true → P 4)
    → (b5 ≡ true → P 5)
    → P 6
    → P (
        if b1 then 1 else if b2 then 2 else if b3 then 3 else if b4 then 4 else if b5 then 5 else 6)
ladder P true b2 b3 b4 b5 p1 p2 p3 p4 p5 p6 = p1 refl
ladder P false true b3 b4 b5 p1 p2 p3 p4 p5 p6 = p2 refl
ladder P false false true b4 b5 p1 p2 p3 p4 p5 p6 = p3 refl
ladder P false false false true b5 p1 p2 p3 p4 p5 p6 = p4 refl
ladder P false false false false true p1 p2 p3 p4 p5 p6 = p5 refl
ladder P false false false false false p1 p2 p3 p4 p5 p6 = p6

ladder-ReadsBack :
    (i : ℤ)
    → IsI64 i
    → ReadsBack i (
        if fits_signed 7 i
        then 1
        else if fits_signed 15 i
        then 2
        else if fits_signed 23 i
        then 3
        else if fits_signed 31 i
        then 4
        else if fits_signed 47 i
        then 5
        else 6)
ladder-ReadsBack i h =
    ladder (ReadsBack i) (fits_signed 7 i) (fits_signed 15 i) (fits_signed 23 i) (fits_signed 31 i)
      (fits_signed 47 i) (ReadsBack-8 i) (ReadsBack-16 i) (ReadsBack-24 i) (ReadsBack-32 i)
      (ReadsBack-48 i) (ReadsBack-64 i h)

-- The serial type that the encoder picks for an i64 reads back as that number, wherever the body
-- stands in a buffer, and the body has the width of that serial type.
pub integer-ReadsBack : (i : ℤ) → IsI64 i → ReadsBack i (integer_serial_type i)
unfolding integer_serial_type
integer-ReadsBack (pos zero) h xs zs encoding room =
    unfold decode_serial_value write_integer_body_into integer_width in (refl, refl)
integer-ReadsBack (pos (suc zero)) h xs zs encoding room =
    unfold decode_serial_value write_integer_body_into integer_width in (refl, refl)
integer-ReadsBack (pos (suc (suc n))) h xs zs encoding room =
    ladder-ReadsBack (pos (suc (suc n))) h xs zs encoding room
integer-ReadsBack (negsuc n) h xs zs encoding room =
    ladder-ReadsBack (negsuc n) h xs zs encoding room

abbrev pub body_width : ℤ → ℕ
body_width i = integer_width (integer_serial_type i)

-- The body widths of the record format.
abbrev pub IsWidth : ℕ → Type 0
IsWidth n = (n ≡ 1) ⊎ (n ≡ 2) ⊎ (n ≡ 3) ⊎ (n ≡ 4) ⊎ (n ≡ 6) ⊎ (n ≡ 8)

narrow_1 : (i : ℤ) → FitsSigned 7 i → body_width i ≤ 1
unfolding integer_serial_type integer_width
narrow_1 (pos zero) h = ground arith
narrow_1 (pos (suc zero)) h = ground arith
narrow_1 (pos (suc (suc n))) h = ground arith
narrow_1 (negsuc n) h = ground arith

narrow_2 : (i : ℤ) → FitsSigned 15 i → body_width i ≤ 2
unfolding integer_serial_type integer_width
narrow_2 (pos zero) h = ground arith
narrow_2 (pos (suc zero)) h = ground arith
narrow_2 (pos (suc (suc n))) h = ground arith
narrow_2 (negsuc n) h = ground arith

narrow_3 : (i : ℤ) → FitsSigned 23 i → body_width i ≤ 3
unfolding integer_serial_type integer_width
narrow_3 (pos zero) h = ground arith
narrow_3 (pos (suc zero)) h = ground arith
narrow_3 (pos (suc (suc n))) h = ground arith
narrow_3 (negsuc n) h = ground arith

narrow_4 : (i : ℤ) → FitsSigned 31 i → body_width i ≤ 4
unfolding integer_serial_type integer_width
narrow_4 (pos zero) h = ground arith
narrow_4 (pos (suc zero)) h = ground arith
narrow_4 (pos (suc (suc n))) h = ground arith
narrow_4 (negsuc n) h = ground arith

narrow_6 : (i : ℤ) → FitsSigned 47 i → body_width i ≤ 6
unfolding integer_serial_type integer_width
narrow_6 (pos zero) h = ground arith
narrow_6 (pos (suc zero)) h = ground arith
narrow_6 (pos (suc (suc n))) h = ground arith
narrow_6 (negsuc n) h = ground arith

narrow_8 : (i : ℤ) → body_width i ≤ 8
unfolding integer_serial_type integer_width
narrow_8 (pos zero) = ground arith
narrow_8 (pos (suc zero)) = ground arith
narrow_8 (pos (suc (suc n))) = ground arith
narrow_8 (negsuc n) = ground arith

-- A number that fits a width of the format, 1, 2, 3, 4, 6 or 8 bytes in two's complement, is never
-- given a wider body.
integer_narrowest : (i : ℤ) (n : ℕ) → IsWidth n → FitsSigned (8 * n - 1) i → body_width i ≤ n
integer_narrowest i n (inl e) h = rw e (narrow_1 i (rw e at h))
integer_narrowest i n (inr (inl e)) h = rw e (narrow_2 i (rw e at h))
integer_narrowest i n (inr (inr (inl e))) h = rw e (narrow_3 i (rw e at h))
integer_narrowest i n (inr (inr (inr (inl e)))) h = rw e (narrow_4 i (rw e at h))
integer_narrowest i n (inr (inr (inr (inr (inl e))))) h = rw e (narrow_6 i (rw e at h))
integer_narrowest i n (inr (inr (inr (inr (inr e))))) h = rw e (narrow_8 i)
