-- ===== src/Record/Encode.antt =====
-- The rest of record/encode.rs: serial types, column bodies, whole records.
use sqlite_rs.Prelude.{
  ℕ, zero, suc, ◌/◌, ◌%◌, ◌==◌, if◌then◌else◌, List, [], ◌∷◌, ◌++◌, drop, length,
}
use sqlite_rs.Prelude.Int.{ℤ, pos}
use sqlite_rs.Prelude.Bytes.{saturating_add, saturating_mul, to_be}
use sqlite_rs.Prelude.Text.{as_bytes, encode_utf16}
use sqlite_rs.Record.Value.{
  Value, null, integer, real, text, blob, TextEncoding, utf8, utf16_le, utf16_be, fits_signed,
  as_unsigned,
}
use sqlite_rs.Record.Varint.{write_varint_into, varint_len}

unfoldable pub integer_serial_type : ℤ → ℕ
integer_serial_type (pos zero) = 8
integer_serial_type (pos (suc zero)) = 9
integer_serial_type i =
    if fits_signed 7 i
    then 1
    else if fits_signed 15 i
    then 2
    else if fits_signed 23 i
    then 3
    else if fits_signed 31 i
    then 4
    else if fits_signed 47 i
    then 5
    else 6

-- The source has 5 for serial type 5, whose body `write_integer_body_into` gives six bytes.
unfoldable pub integer_body_len : ℕ → ℕ
integer_body_len serial_type =
    if serial_type == 1
    then 1
    else if serial_type == 2
    then 2
    else if serial_type == 3
    then 3
    else if serial_type == 4
    then 4
    else if serial_type == 5
    then 5
    else if serial_type == 6
    then 8
    else 0

-- `i.to_be_bytes()[from..8]` of an i64.
abbrev be_tail : ℕ → ℤ → List ℕ
be_tail from i = drop from (to_be 8 (as_unsigned 64 i))

unfoldable pub write_integer_body_into : ℤ → ℕ → List ℕ → List ℕ
write_integer_body_into i serial_type out =
    if serial_type == 1
    then out ++ (as_unsigned 8 i ∷ [])
    else if serial_type == 2
    then out ++ to_be 2 (as_unsigned 16 i)
    else if serial_type == 3
    then out ++ be_tail 5 i
    else if serial_type == 4
    then out ++ to_be 4 (as_unsigned 32 i)
    else if serial_type == 5
    then out ++ be_tail 2 i
    else if serial_type == 6
    then out ++ to_be 8 (as_unsigned 64 i)
    else out

unfoldable pub encoded_text_len : List ℕ → TextEncoding → ℕ
encoded_text_len s utf8 = length (as_bytes s)
encoded_text_len s utf16_le = saturating_mul (length (encode_utf16 s)) 2
encoded_text_len s utf16_be = saturating_mul (length (encode_utf16 s)) 2

-- `u.to_le_bytes()` and `u.to_be_bytes()` of each unit.
unfoldable pub unit_bytes_le : List ℕ → List ℕ
unit_bytes_le [] = []
unit_bytes_le (u ∷ us) = (u % 256) ∷ (u / 256 % 256) ∷ unit_bytes_le us

unfoldable pub unit_bytes_be : List ℕ → List ℕ
unit_bytes_be [] = []
unit_bytes_be (u ∷ us) = (u / 256 % 256) ∷ (u % 256) ∷ unit_bytes_be us

unfoldable pub write_text_body_into : List ℕ → TextEncoding → List ℕ → List ℕ
write_text_body_into s utf8 out = out ++ as_bytes s
write_text_body_into s utf16_le out = out ++ unit_bytes_le (encode_utf16 s)
write_text_body_into s utf16_be out = out ++ unit_bytes_be (encode_utf16 s)

unfoldable pub blob_serial_type : ℕ → ℕ
blob_serial_type len = saturating_add 12 (saturating_mul 2 len)

unfoldable pub text_serial_type : ℕ → ℕ
text_serial_type len = saturating_add 13 (saturating_mul 2 len)

unfoldable pub serial_type_and_body_len : Value → TextEncoding → ℕ × ℕ
serial_type_and_body_len null encoding = (0, 0)
serial_type_and_body_len (integer i) encoding =
    let st = integer_serial_type i in (st, integer_body_len st)
serial_type_and_body_len (real r) encoding = (7, 8)
serial_type_and_body_len (blob b) encoding = (blob_serial_type (length b), length b)
serial_type_and_body_len (text s) encoding =
    let len = encoded_text_len s encoding in (text_serial_type len, len)

unfoldable pub write_body_into : Value → ℕ → TextEncoding → List ℕ → List ℕ
write_body_into null serial_type encoding out = out
write_body_into (integer i) serial_type encoding out = write_integer_body_into i serial_type out
write_body_into (real r) serial_type encoding out = out ++ to_be 8 r
write_body_into (blob b) serial_type encoding out = out ++ b
write_body_into (text s) serial_type encoding out = write_text_body_into s encoding out

-- The sum of the lengths of the serial types' varints.
unfoldable pub header_body_len_loop : ℕ → List (ℕ × ℕ) → ℕ
header_body_len_loop acc [] = acc
header_body_len_loop acc ((st, len) ∷ rest) =
    header_body_len_loop (saturating_add acc (varint_len st)) rest

-- `while varint_len(header_len) + header_body_len != header_len { header_len += 1 }`, on fuel.
unfoldable pub header_len_loop : ℕ → ℕ → ℕ → ℕ
header_len_loop zero body_len header_len = header_len
header_len_loop (suc fuel) body_len header_len =
    let more = header_len_loop fuel body_len (saturating_add header_len 1) in
    if saturating_add (varint_len header_len) body_len == header_len then header_len else more

unfoldable pub write_serial_types : List (ℕ × ℕ) → List ℕ → List ℕ
write_serial_types [] out = out
write_serial_types ((st, len) ∷ rest) out = write_serial_types rest (write_varint_into st out)

unfoldable pub write_bodies : List Value → List (ℕ × ℕ) → TextEncoding → List ℕ → List ℕ
write_bodies [] sts encoding out = out
write_bodies (v ∷ vs) [] encoding out = out
write_bodies (v ∷ vs) ((st, len) ∷ sts) encoding out =
    write_bodies vs sts encoding (write_body_into v st encoding out)

unfoldable pub serial_types_of : List Value → TextEncoding → List (ℕ × ℕ)
serial_types_of [] encoding = []
serial_types_of (v ∷ vs) encoding =
    serial_type_and_body_len v encoding ∷ serial_types_of vs encoding

-- The buffers are cleared first, so what they held does not count, and the sum of the bodies' lengths
-- only reserves room in `out`; the header's length varint has 9 bytes at most, so nine rounds of its
-- loop are enough.
unfoldable pub encode_record : List Value → TextEncoding → List ℕ
encode_record values encoding =
    let serial_types = serial_types_of values encoding in
    let body_len = header_body_len_loop 0 serial_types in
    let header_len = header_len_loop 9 body_len (saturating_add body_len 1) in
    write_bodies values serial_types encoding
      (write_serial_types serial_types (write_varint_into header_len []))
