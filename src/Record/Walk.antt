-- ===== src/Record/Walk.antt =====
-- record/decode.rs: the header walk, and the functions over a whole record.
use sqlite_rs.Prelude.{
  ℕ, zero, suc, ◌-◌, min, ltb, leb, ◌==◌, if◌then◌else◌, List, [], ◌∷◌, take, get_elem?, length,
  Option, none, some,
}
use sqlite_rs.Prelude.Outcome.{Result, ok, ◌>>=◌, ◌>>◌, guard}
use sqlite_rs.Prelude.Bytes.{saturating_add}
use sqlite_rs.Record.Error.{RecordError, header_too_short, header_overrun, trailing_data}
use sqlite_rs.Record.Value.{Value, null, TextEncoding}
use sqlite_rs.Record.Decode.{decode_varint_at, decode_serial_value, serial_type_len}

-- The header's length and the length of its own varint.
unfoldable pub read_header_len : List ℕ → Result RecordError (ℕ × ℕ)
read_header_len payload = do
  (header_len, n) ← decode_varint_at payload 0
  guard (leb n header_len) (header_too_short header_len n)
  ok (header_len, n)

-- One header entry: a serial type and where the next entry starts.
unfoldable pub read_entry : List ℕ → ℕ → ℕ → Result RecordError (ℕ × ℕ)
read_entry payload header_len at = do
  (serial_type, len) ← decode_varint_at payload at
  guard (leb (saturating_add at len) header_len) (header_overrun at header_len)
  ok (serial_type, saturating_add at len)

-- `while pos < header_len` of `decode_record`. Every entry moves `pos` on, so `header_len - pos`
-- bounds the rounds left: with no round left the test is false and the loop ends.
unfoldable pub types_loop : ℕ → List ℕ → ℕ → ℕ → Result RecordError (List ℕ)
types_loop zero payload header_len at = ok []
types_loop (suc n) payload header_len at =
    if ltb at header_len
    then (do
      (serial_type, next) ← read_entry payload header_len at
      rest ← types_loop n payload header_len next
      ok (serial_type ∷ rest))
    else ok []

unfoldable pub bodies_loop :
    List ℕ → List ℕ → ℕ → TextEncoding → Result RecordError (List Value × ℕ)
bodies_loop [] payload body_pos encoding = ok ([], body_pos)
bodies_loop (t ∷ ts) payload body_pos encoding = do
  (value, len) ← decode_serial_value t payload body_pos encoding
  (values, end) ← bodies_loop ts payload (saturating_add body_pos len) encoding
  ok (value ∷ values, end)

unfoldable pub decode_record : List ℕ → TextEncoding → Result RecordError (List Value)
decode_record payload encoding = do
  (header_len, n) ← read_header_len payload
  serial_types ← types_loop header_len payload header_len n
  (values, body_pos) ← bodies_loop serial_types payload header_len encoding
  guard (body_pos == length payload) (trailing_data (length payload - body_pos))
  ok values

-- The same walk with each column's body offset; no body is read.
unfoldable pub entries_loop : ℕ → List ℕ → ℕ → ℕ → ℕ → Result RecordError (List (ℕ × ℕ))
entries_loop zero payload header_len at body_pos = ok []
entries_loop (suc n) payload header_len at body_pos =
    if ltb at header_len
    then (do
      (serial_type, next) ← read_entry payload header_len at
      rest ←
          entries_loop n payload header_len next
            (saturating_add body_pos (serial_type_len serial_type))
      ok ((serial_type, body_pos) ∷ rest))
    else ok []

unfoldable pub parse_header : List ℕ → Result RecordError (List (ℕ × ℕ))
parse_header payload = do
  (header_len, n) ← read_header_len payload
  entries_loop header_len payload header_len n header_len

-- The value of an entry; past the last column it is NULL.
unfoldable pub decode_entry : Option (ℕ × ℕ) → List ℕ → TextEncoding → Result RecordError Value
decode_entry none payload encoding = ok null
decode_entry (some (serial_type, offset)) payload encoding = do
  (value, len) ← decode_serial_value serial_type payload offset encoding
  ok value

unfoldable pub decode_column : List ℕ → ℕ → TextEncoding → Result RecordError Value
decode_column payload idx encoding = do
  entries ← parse_header payload
  decode_entry (get_elem? entries idx) payload encoding

unfoldable pub record_column_count : List ℕ → Result RecordError ℕ
record_column_count payload = do entries ← parse_header payload; ok (length entries)

unfoldable pub decode_entries :
    List (ℕ × ℕ) → List ℕ → TextEncoding → Result RecordError (List Value)
decode_entries [] payload encoding = ok []
decode_entries (e ∷ rest) payload encoding = do
  value ← decode_entry (some e) payload encoding
  values ← decode_entries rest payload encoding
  ok (value ∷ values)

unfoldable pub decode_record_upto : List ℕ → ℕ → TextEncoding → Result RecordError (List Value)
decode_record_upto payload max_columns encoding = do
  entries ← parse_header payload
  decode_entries (take (min max_columns (length entries)) entries) payload encoding

-- The walk of `decode_single_column`, which stops at its column.
unfoldable pub single_loop :
    ℕ → List ℕ → ℕ → ℕ → ℕ → ℕ → ℕ → TextEncoding → Result RecordError Value
single_loop zero payload header_len at body_pos col idx encoding = ok null
single_loop (suc n) payload header_len at body_pos col idx encoding =
    if ltb at header_len
    then (do
      (serial_type, next) ← read_entry payload header_len at
      let more =
          single_loop n payload header_len next
            (saturating_add body_pos (serial_type_len serial_type)) (saturating_add col 1) idx
            encoding
      if col == idx then decode_entry (some (serial_type, body_pos)) payload encoding else more)
    else ok null

unfoldable pub decode_single_column : List ℕ → ℕ → TextEncoding → Result RecordError Value
decode_single_column payload idx encoding = do
  (header_len, n) ← read_header_len payload
  single_loop header_len payload header_len n header_len 0 idx encoding

unfoldable pub decode_wanted :
    List (ℕ × ℕ) → List ℕ → List ℕ → TextEncoding → Result RecordError (List Value)
decode_wanted entries [] payload encoding = ok []
decode_wanted entries (idx ∷ rest) payload encoding = do
  value ← decode_entry (get_elem? entries idx) payload encoding
  values ← decode_wanted entries rest payload encoding
  ok (value ∷ values)

unfoldable pub decode_record_only : List ℕ → List ℕ → TextEncoding → Result RecordError (List Value)
decode_record_only payload (only ∷ []) encoding = do
  value ← decode_single_column payload only encoding
  ok (value ∷ [])
decode_record_only payload [] encoding = do
  entries ← parse_header payload
  decode_wanted entries [] payload encoding
decode_record_only payload (i ∷ j ∷ rest) encoding = do
  entries ← parse_header payload
  decode_wanted entries (i ∷ j ∷ rest) payload encoding
