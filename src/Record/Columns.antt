-- ===== src/Record/Columns.antt =====
-- Column bodies: what `write_body_into` writes, `decode_serial_value` reads back.
use sqlite_rs.Prelude.{
  ℕ, ◌+◌, ◌-◌, ◌*◌, ◌/◌, ◌%◌, ◌^◌, ◌≤◌, ◌<◌, ◌≡◌, refl, arith, true, false, ◌==◌, if◌then◌else◌,
  List, [], ◌∷◌, ◌++◌, length, not,
}
use sqlite_rs.Prelude.Outcome.{ok, ◌>>=◌}
use sqlite_rs.Prelude.Bytes.{All, All-append, IsByte, IsU64, usize_max, from_be-to_be, length-to_be}
use sqlite_rs.Prelude.Text.{
  IsScalar, encode_utf16, utf16_char, from_utf8-as_bytes, decode_utf16-encode_utf16,
}
use sqlite_rs.Record.Value.{
  Value, null, integer, real, text, blob, TextEncoding, utf8, utf16_le, utf16_be, IsValue, is_nan,
}
use sqlite_rs.Record.Encode.{
  write_text_body_into, write_body_into, encoded_text_len, blob_serial_type, text_serial_type,
  serial_type_and_body_len, unit_bytes_le, unit_bytes_be,
}
use sqlite_rs.Record.Decode.{take_bytes, decode_text, decode_serial_value, units_le, units_be}
use sqlite_rs.Record.Integers.{take_bytes_middle, take_be, integer-ReadsBack, body_width}

-- What a column can hold after a round trip: a Rust value that is no NaN (a NaN decodes as NULL).
abbrev pub IsStored : Value → Type 0
IsStored null = Unit {0}
IsStored (integer i) = IsValue (integer i)
IsStored (real bits) = IsU64 bits × (is_nan bits ≡ false)
IsStored (text cs) = All IsScalar cs
IsStored (blob bytes) = All IsByte bytes

abbrev pub serial_type : Value → TextEncoding → ℕ
serial_type v encoding = (serial_type_and_body_len v encoding).0

-- The bytes of a column's body.
abbrev pub body_size : Value → TextEncoding → ℕ
body_size null encoding = 0
body_size (integer i) encoding = body_width i
body_size (real r) encoding = 8
body_size (blob b) encoding = length b
body_size (text s) encoding = encoded_text_len s encoding

abbrev pub body : Value → TextEncoding → List ℕ
body v encoding = write_body_into v (serial_type v encoding) encoding []

-- Serial types above 11 are the sized ones.
pub sized_test : (t k : ℕ) → 12 ≤ t → k < 12 → (t == k) ≡ false
sized_test t k h l = ground arith

pub decode_sized :
    (t : ℕ) (buf : List ℕ) (at : ℕ) (encoding : TextEncoding)
    → 12 ≤ t
    → decode_serial_value t buf at encoding ≡ (
        if t % 2 == 0
        then (do
          let len = (t + 2 ^ 64 - 12) % 2 ^ 64 / 2
          bytes ← take_bytes buf at len
          ok (blob bytes, len))
        else (do
          let len = (t + 2 ^ 64 - 13) % 2 ^ 64 / 2
          bytes ← take_bytes buf at len
          s ← decode_text bytes encoding
          ok (text s, len)))
unfolding decode_serial_value
decode_sized t buf at encoding h =
    rw
      (
        sized_test t 0 h (omega arith),
        sized_test t 1 h (omega arith),
        sized_test t 2 h (omega arith),
        sized_test t 3 h (omega arith),
        sized_test t 4 h (omega arith),
        sized_test t 5 h (omega arith),
        sized_test t 6 h (omega arith),
        sized_test t 7 h (omega arith),
        sized_test t 8 h (omega arith),
        sized_test t 9 h (omega arith),
        sized_test t 10 h (omega arith),
        sized_test t 11 h (omega arith),
      )
      refl

blob_len : (len : ℕ) → len < 2 ^ 62 → (12 + 2 * len + 2 ^ 64 - 12) % 2 ^ 64 / 2 ≡ len
blob_len len h = omega arith

text_len : (len : ℕ) → len < 2 ^ 62 → (13 + 2 * len + 2 ^ 64 - 13) % 2 ^ 64 / 2 ≡ len
text_len len h = omega arith

blob_type : (len : ℕ) → len < 2 ^ 62 → blob_serial_type len ≡ 12 + 2 * len
unfolding blob_serial_type
blob_type len h = omega arith

text_type : (len : ℕ) → len < 2 ^ 62 → text_serial_type len ≡ 13 + 2 * len
unfolding text_serial_type
text_type len h = omega arith

even_test : (len : ℕ) → ((12 + 2 * len) % 2 == 0) ≡ true
even_test len = ground arith

odd_test : (len : ℕ) → ((13 + 2 * len) % 2 == 0) ≡ false
odd_test len = ground arith

decode_blob :
    (b xs zs : List ℕ) (encoding : TextEncoding)
    → length b < 2 ^ 62
    → length xs + length b ≤ usize_max
    → decode_serial_value (blob_serial_type (length b)) (xs ++ (b ++ zs)) (length xs) encoding
      ≡ ok (blob b, length b)
decode_blob b xs zs encoding h room =
    rw
      (
        blob_type (length b) h,
        decode_sized (12 + 2 * length b) _ (length xs) encoding (omega arith),
        even_test (length b),
        blob_len (length b) h,
      )
      (rw (take_bytes_middle xs b zs (length b) refl room) refl)

decode_text_column :
    (s b xs zs : List ℕ) (encoding : TextEncoding)
    → decode_text b encoding ≡ ok s
    → length b < 2 ^ 62
    → length xs + length b ≤ usize_max
    → decode_serial_value (text_serial_type (length b)) (xs ++ (b ++ zs)) (length xs) encoding
      ≡ ok (text s, length b)
decode_text_column s b xs zs encoding d h room =
    rw
      (
        text_type (length b) h,
        decode_sized (13 + 2 * length b) _ (length xs) encoding (omega arith),
        odd_test (length b),
        text_len (length b) h,
      )
      (rw (take_bytes_middle xs b zs (length b) refl room, d) refl)

abbrev IsUnit : ℕ → Type 0
IsUnit u = u < 65536

units_le-unit_bytes_le : (us : List ℕ) → All IsUnit us → units_le (unit_bytes_le us) ≡ us
unfolding units_le unit_bytes_le
units_le-unit_bytes_le [] h = refl
units_le-unit_bytes_le (u ∷ us) h =
    let e : u / 256 % 256 * 256 + u % 256 ≡ u = omega arith in
    rw (e, units_le-unit_bytes_le us h.1) refl

units_be-unit_bytes_be : (us : List ℕ) → All IsUnit us → units_be (unit_bytes_be us) ≡ us
unfolding units_be unit_bytes_be
units_be-unit_bytes_be [] h = refl
units_be-unit_bytes_be (u ∷ us) h =
    let e : u / 256 % 256 * 256 + u % 256 ≡ u = omega arith in
    rw (e, units_be-unit_bytes_be us h.1) refl

length-unit_bytes_le : (us : List ℕ) → length (unit_bytes_le us) ≡ 2 * length us
unfolding unit_bytes_le
length-unit_bytes_le [] = refl
length-unit_bytes_le (u ∷ us) = omega (arith, length-unit_bytes_le us)

length-unit_bytes_be : (us : List ℕ) → length (unit_bytes_be us) ≡ 2 * length us
unfolding unit_bytes_be
length-unit_bytes_be [] = refl
length-unit_bytes_be (u ∷ us) = omega (arith, length-unit_bytes_be us)

utf16_char-IsUnit : (c : ℕ) → IsScalar c → All IsUnit (utf16_char c)
unfolding utf16_char
utf16_char-IsUnit c h = ground arith

encode_utf16-IsUnit : (cs : List ℕ) → All IsScalar cs → All IsUnit (encode_utf16 cs)
unfolding encode_utf16
encode_utf16-IsUnit [] h = tt
encode_utf16-IsUnit (c ∷ cs) h =
    All-append IsUnit (utf16_char c) (encode_utf16 cs) (utf16_char-IsUnit c h.0)
      (encode_utf16-IsUnit cs h.1)

abbrev text_body : List ℕ → TextEncoding → List ℕ
text_body s encoding = write_text_body_into s encoding []

even_length : (n k : ℕ) → n ≡ 2 * k → not (n % 2 == 0) ≡ false
even_length n k h = ground arith

decode_text-text_body :
    (s : List ℕ) (encoding : TextEncoding)
    → All IsScalar s
    → decode_text (text_body s encoding) encoding ≡ ok s
unfolding decode_text write_text_body_into
decode_text-text_body s utf8 h = rw (from_utf8-as_bytes s h) refl
decode_text-text_body s utf16_le h =
    let us = encode_utf16 s in
    rw
      (
        even_length _ (length us) (length-unit_bytes_le us),
        units_le-unit_bytes_le us (encode_utf16-IsUnit s h),
        decode_utf16-encode_utf16 s h,
      )
      refl
decode_text-text_body s utf16_be h =
    let us = encode_utf16 s in
    rw
      (
        even_length _ (length us) (length-unit_bytes_be us),
        units_be-unit_bytes_be us (encode_utf16-IsUnit s h),
        decode_utf16-encode_utf16 s h,
      )
      refl

length-text_body :
    (s : List ℕ) (encoding : TextEncoding)
    → encoded_text_len s encoding < 2 ^ 62
    → length (text_body s encoding) ≡ encoded_text_len s encoding
unfolding encoded_text_len write_text_body_into
length-text_body s utf8 h = refl
length-text_body s utf16_le h = omega (arith, length-unit_bytes_le (encode_utf16 s))
length-text_body s utf16_be h = omega (arith, length-unit_bytes_be (encode_utf16 s))

-- The body of a column decodes to its value, wherever it stands, and has the length in the table.
pub column-reads_back :
    (v : Value) (encoding : TextEncoding) (xs zs : List ℕ)
    → IsStored v
    → body_size v encoding < 2 ^ 62
    → length xs + body_size v encoding ≤ usize_max
    → (decode_serial_value
          (serial_type v encoding)
          (xs ++ (body v encoding ++ zs))
          (length xs)
          encoding
        ≡ ok (v, body_size v encoding))
      × (length (body v encoding) ≡ body_size v encoding)
unfolding serial_type_and_body_len write_body_into
column-reads_back null encoding xs zs h small room = unfold decode_serial_value in (refl, refl)
column-reads_back (integer i) encoding xs zs h small room =
    integer-ReadsBack i h xs zs encoding room
column-reads_back (real r) encoding xs zs h small room =
    unfold decode_serial_value in
    let e : r % 256 ^ 8 ≡ r = omega arith in
    (rw (take_be 8 r xs zs room) (rw (from_be-to_be 8 r, e, h.1) refl), length-to_be 8 r)
column-reads_back (blob b) encoding xs zs h small room =
    (decode_blob b xs zs encoding small room, refl)
column-reads_back (text s) encoding xs zs h small room =
    let l = length-text_body s encoding small in
    let d =
      decode_text_column s (text_body s encoding) xs zs encoding
        (decode_text-text_body s encoding h) in
    (rw l at (d (omega (arith, l)) (omega (arith, l))), l)
