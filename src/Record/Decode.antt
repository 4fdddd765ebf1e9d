-- ===== src/Record/Decode.antt =====
-- record/decode.rs.
use Prim.Native.Nat.{bit_and, bit_or}
use sqlite_rs.Prelude.{
  ℕ, ◌+◌, ◌-◌, ◌*◌, ◌/◌, ◌%◌, ◌^◌, not, ◌||◌, ltb, ◌==◌, if◌then◌else◌, List, [], ◌∷◌, length,
}
use sqlite_rs.Prelude.Int.{ℤ, pos, ◌-ℤ◌}
use sqlite_rs.Prelude.Outcome.{Result, ok, err, ◌>>=◌, ok_or, map_err}
use sqlite_rs.Prelude.Bytes.{saturating_add, slice, slice_from, from_be, usize_max}
use sqlite_rs.Prelude.Text.{from_utf8, decode_utf16}
use sqlite_rs.Record.Error.{
  RecordError, unexpected_eof, header_too_short, header_overrun, trailing_data, invalid_utf8,
  invalid_utf16,
}
use sqlite_rs.Record.Value.{
  Value, null, integer, real, text, blob, TextEncoding, utf8, utf16_le, utf16_be, as_signed, is_nan,
}
use sqlite_rs.Record.Varint.{decode_varint}

-- The offset of an end-of-input error counts from the start of the buffer.
abbrev pub shift_eof : ℕ → RecordError → RecordError
shift_eof at (unexpected_eof offset) = unexpected_eof (saturating_add at offset)
shift_eof at (header_too_short d n) = header_too_short d n
shift_eof at (header_overrun o h) = header_overrun o h
shift_eof at (trailing_data t) = trailing_data t
shift_eof at invalid_utf8 = invalid_utf8
shift_eof at invalid_utf16 = invalid_utf16

unfoldable pub decode_varint_at : List ℕ → ℕ → Result RecordError (ℕ × ℕ)
decode_varint_at buf at = do
  rest ← ok_or (slice_from buf at) (unexpected_eof at)
  map_err (shift_eof at) (decode_varint rest)

-- `take`: `checked_add`, then `buf.get(pos..end)`.
unfoldable pub take_bytes : List ℕ → ℕ → ℕ → Result RecordError (List ℕ)
take_bytes buf at len =
    if ltb usize_max (at + len)
    then err (unexpected_eof at)
    else ok_or (slice buf at (at + len)) (unexpected_eof at)

-- Pairs of bytes as 16-bit units.
unfoldable pub units_le : List ℕ → List ℕ
units_le [] = []
units_le (b ∷ []) = []
units_le (b0 ∷ b1 ∷ rest) = (b1 * 256 + b0) ∷ units_le rest

unfoldable pub units_be : List ℕ → List ℕ
units_be [] = []
units_be (b ∷ []) = []
units_be (b0 ∷ b1 ∷ rest) = (b0 * 256 + b1) ∷ units_be rest

unfoldable pub decode_text : List ℕ → TextEncoding → Result RecordError (List ℕ)
decode_text bytes utf8 = ok_or (from_utf8 bytes) invalid_utf8
decode_text bytes utf16_le =
    if not (length bytes % 2 == 0)
    then err invalid_utf16
    else ok_or (decode_utf16 (units_le bytes)) invalid_utf16
decode_text bytes utf16_be =
    if not (length bytes % 2 == 0)
    then err invalid_utf16
    else ok_or (decode_utf16 (units_be bytes)) invalid_utf16

unfoldable pub serial_type_len : ℕ → ℕ
serial_type_len t =
    if t == 0 || (t == 8 || (t == 9 || (t == 10 || t == 11)))
    then 0
    else if t == 1
    then 1
    else if t == 2
    then 2
    else if t == 3
    then 3
    else if t == 4
    then 4
    else if t == 5
    then 6
    else if t == 6 || t == 7
    then 8
    else if t % 2 == 0
    then (t + 2 ^ 64 - 12) % 2 ^ 64 / 2
    else (t + 2 ^ 64 - 13) % 2 ^ 64 / 2

-- `v.wrapping_sub(1 << w)` where the first byte's top bit is set; `v` is below 2^w.
abbrev pub sign_extend : ℕ → ℕ → ℕ → ℤ
sign_extend w b0 v = if bit_and b0 0x80 == 0 then pos v else pos v -ℤ pos (2 ^ w)

-- `((b0 as i64) << 16) | ((b1 as i64) << 8) | (b2 as i64)`
unfoldable pub int24 : List ℕ → Result RecordError (Value × ℕ)
int24 (b0 ∷ b1 ∷ b2 ∷ []) =
    let v = bit_or (bit_or (b0 * 2 ^ 16) (b1 * 2 ^ 8)) b2 in ok (integer (sign_extend 24 b0 v), 3)
int24 _ = err (unexpected_eof 0)

-- `v = (v << 8) | byte as i64` over the bytes.
unfoldable pub fold_bytes : ℕ → List ℕ → ℕ
fold_bytes v [] = v
fold_bytes v (byte ∷ rest) = fold_bytes (bit_or (v * 2 ^ 8) byte) rest

unfoldable pub int48 : List ℕ → Result RecordError (Value × ℕ)
int48 [] = err (unexpected_eof 0)
int48 (b0 ∷ rest) = ok (integer (sign_extend 48 b0 (fold_bytes 0 (b0 ∷ rest))), 6)

-- `take_array` has as many bytes as its pattern names, so its length test never fails and the
-- error of `int24` and `int48` on other lengths is never returned.
unfoldable pub decode_serial_value : ℕ → List ℕ → ℕ → TextEncoding → Result RecordError (Value × ℕ)
decode_serial_value t buf at encoding =
    if t == 0
    then ok (null, 0)
    else if t == 1
    then (do b ← take_bytes buf at 1; ok (integer (as_signed 7 (from_be b)), 1))
    else if t == 2
    then (do b ← take_bytes buf at 2; ok (integer (as_signed 15 (from_be b)), 2))
    else if t == 3
    then (do b ← take_bytes buf at 3; int24 b)
    else if t == 4
    then (do b ← take_bytes buf at 4; ok (integer (as_signed 31 (from_be b)), 4))
    else if t == 5
    then (do b ← take_bytes buf at 6; int48 b)
    else if t == 6
    then (do b ← take_bytes buf at 8; ok (integer (as_signed 63 (from_be b)), 8))
    else if t == 7
    then (do
      b ← take_bytes buf at 8
      if is_nan (from_be b) then ok (null, 8) else ok (real (from_be b), 8))
    else if t == 8
    then ok (integer (pos 0), 0)
    else if t == 9
    then ok (integer (pos 1), 0)
    else if t == 10 || t == 11
    then ok (null, 0)
    else if t % 2 == 0
    then (do
      let len = (t + 2 ^ 64 - 12) % 2 ^ 64 / 2
      bytes ← take_bytes buf at len
      ok (blob bytes, len))
    else (do
      let len = (t + 2 ^ 64 - 13) % 2 ^ 64 / 2
      bytes ← take_bytes buf at len
      s ← decode_text bytes encoding
      ok (text s, len))
