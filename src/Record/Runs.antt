-- ===== src/Record/Runs.antt =====
-- Concrete runs of the record codec.
use sqlite_rs.Prelude.{ℕ, ◌^◌, ◌≤◌, ◌<◌, ◌≡◌, refl, List, [], ◌∷◌, ◌++◌, length, arith}
use sqlite_rs.Prelude.Int.{pos, negsuc, ◌-ℤ◌}
use sqlite_rs.Prelude.Outcome.{ok, err}
use sqlite_rs.Prelude.Bytes.{All, IsU64, slice, slice_from, to_be, from_be, from_be_loop}
use sqlite_rs.Prelude.Text.{as_bytes, utf8_char, from_utf8, utf8_run, utf8_step, is_scalar}
use sqlite_rs.Record.Error.{unexpected_eof, trailing_data}
use sqlite_rs.Record.Value.{Value, null, integer, text, blob, utf8}
use sqlite_rs.Record.Varint.{
  encode_varint, decode_varint, decode_loop, decode_ninth, write_varint_into, varint_len,
  count_groups, push_groups, group_at, push_top,
}
use sqlite_rs.Record.Encode.{
  encode_record, serial_types_of, serial_type_and_body_len, integer_serial_type, integer_body_len,
  encoded_text_len, text_serial_type, blob_serial_type, header_body_len_loop, header_len_loop,
  write_serial_types, write_bodies, write_body_into, write_integer_body_into, write_text_body_into,
}
use sqlite_rs.Record.Decode.{
  decode_varint_at, decode_serial_value, take_bytes, int24, int48, fold_bytes, decode_text,
}
use sqlite_rs.Record.Walk.{
  decode_record, read_header_len, types_loop, read_entry, bodies_loop, decode_column,
  decode_record_only,
}
use sqlite_rs.Record.Varint.RoundTrip.{decode_varint-encode_varint}
use sqlite_rs.Record.Varint.Input.{decode_varint_bounds, decode_varint_truncated}
use sqlite_rs.Record.Integers.{integer_width}
use sqlite_rs.Record.Columns.{IsStored}
use sqlite_rs.Record.Layout.{record_size}
use sqlite_rs.Record.RoundTrip.{decode_record-encode_record}
use sqlite_rs.Record.Agree.{decode_column-decode_record}
use sqlite_rs.Record.Single.{decode_record_only-decode_record}

abbrev sample : List Value
sample =
    null
    ∷ integer (pos 0)
    ∷ integer (pos 42)
    ∷ integer (negsuc 70000)
    ∷ text (97 ∷ 233 ∷ [])
    ∷ blob (1 ∷ [])
    ∷ integer (pos (2 ^ 40))
    ∷ []

abbrev sample_bytes : List ℕ
sample_bytes =
    (8 ∷ 0 ∷ 8 ∷ 1 ∷ 3 ∷ 19 ∷ 14 ∷ 5 ∷ 42 ∷ 254 ∷ 238 ∷ 143 ∷ 97 ∷ 195 ∷ 169 ∷ [])
    ++ (1 ∷ 1 ∷ 0 ∷ 0 ∷ 0 ∷ 0 ∷ 0 ∷ [])

encodes : encode_record sample utf8 ≡ sample_bytes
unfolding encode_record serial_types_of serial_type_and_body_len integer_serial_type
    integer_body_len encoded_text_len text_serial_type blob_serial_type header_body_len_loop
    varint_len count_groups header_len_loop write_serial_types write_varint_into push_groups
    group_at push_top write_bodies write_body_into write_integer_body_into write_text_body_into
    as_bytes utf8_char to_be
encodes = refl

-- For a number of 48 bits the length that is added up for the buffer is one byte below the body's.
six_bytes_written :
    (serial_type_and_body_len (integer (pos (2 ^ 40))) utf8 ≡ (5, 5))
    × (length (write_body_into (integer (pos (2 ^ 40))) 5 utf8 []) ≡ 6)
unfolding serial_type_and_body_len integer_serial_type integer_body_len write_body_into
    write_integer_body_into to_be
six_bytes_written = (refl, refl)

decodes : decode_record sample_bytes utf8 ≡ ok sample
unfolding decode_record read_header_len decode_varint_at slice_from decode_varint decode_loop
    decode_ninth types_loop read_entry bodies_loop decode_serial_value take_bytes slice from_be
    from_be_loop int24 int48 fold_bytes decode_text from_utf8 utf8_run utf8_step is_scalar ◌-ℤ◌
decodes = refl

cut_short : decode_record (3 ∷ 1 ∷ 9 ∷ []) utf8 ≡ err (unexpected_eof 3)
unfolding decode_record read_header_len decode_varint_at slice_from decode_varint decode_loop
    decode_ninth types_loop read_entry bodies_loop decode_serial_value take_bytes slice
cut_short = refl

trailing : decode_record (2 ∷ 9 ∷ 0 ∷ []) utf8 ≡ err (trailing_data 1)
unfolding decode_record read_header_len decode_varint_at slice_from decode_varint decode_loop
    decode_ninth types_loop read_entry bodies_loop decode_serial_value take_bytes slice
trailing = refl

decode_varint-encode_varint_example :
    decode_varint (encode_varint 300 ++ (7 ∷ [])) ≡ ok (300, length (encode_varint 300))
decode_varint-encode_varint_example = decode_varint-encode_varint 300 (7 ∷ []) (omega arith)

-- A padded varint, which the encoder never writes.
padded : decode_varint (0x80 ∷ 0x80 ∷ 5 ∷ 9 ∷ []) ≡ ok (5, 3)
unfolding decode_varint decode_loop decode_ninth
padded = refl

decode_varint_bounds_example : IsU64 5 × (1 ≤ 3) × (3 ≤ 9) × (3 ≤ 4) × (varint_len 5 ≤ 3)
decode_varint_bounds_example =
    decode_varint_bounds (0x80 ∷ 0x80 ∷ 5 ∷ 9 ∷ []) 5 3 (omega arith) padded

open_ended : decode_varint (0x81 ∷ []) ≡ err (unexpected_eof 1)
unfolding decode_varint decode_loop decode_ninth
open_ended = refl

encodes_300 : encode_varint 300 ≡ (0x82 ∷ []) ++ (0x2c ∷ [])
unfolding encode_varint write_varint_into count_groups push_groups group_at push_top
encodes_300 = refl

decode_varint_truncated_example : decode_varint (0x82 ∷ []) ≡ err (unexpected_eof 1)
decode_varint_truncated_example =
    decode_varint_truncated 300 0x2c (0x82 ∷ []) [] (omega arith) encodes_300

sample-IsStored : All IsStored sample
sample-IsStored = omega arith

sample_size : record_size sample utf8 < 2 ^ 61
unfolding integer_serial_type integer_width encoded_text_len as_bytes utf8_char
sample_size = omega arith

decode_record-encode_record_example : decode_record (encode_record sample utf8) utf8 ≡ ok sample
decode_record-encode_record_example =
    decode_record-encode_record sample utf8 sample-IsStored sample_size

decode_column-decode_record_example : decode_column sample_bytes 4 utf8 ≡ ok (text (97 ∷ 233 ∷ []))
decode_column-decode_record_example = decode_column-decode_record sample_bytes 4 utf8 sample decodes

decode_record_only-decode_record_example :
    decode_record_only sample_bytes (2 ∷ 9 ∷ 2 ∷ []) utf8
    ≡ ok (integer (pos 42) ∷ null ∷ integer (pos 42) ∷ [])
decode_record_only-decode_record_example =
    decode_record_only-decode_record sample_bytes (2 ∷ 9 ∷ 2 ∷ []) utf8 sample decodes (omega arith)
