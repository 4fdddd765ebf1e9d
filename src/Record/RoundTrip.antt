-- ===== src/Record/RoundTrip.antt =====
-- `decode_record` reads back what `encode_record` wrote.
use mathlib.Core.List.{append-nil, append_assoc}
use sqlite_rs.Prelude.{
  ℕ, zero, suc, ◌+◌, ◌^◌, ◌≤◌, ◌<◌, ◌≡◌, refl, sym, ap, ◌∙◌, arith, List, [], ◌∷◌, ◌++◌, length,
  length-append, lt→ltb, le→leb, ==_iff, le→ltb_false,
}
use sqlite_rs.Prelude.Int.{ℤ, pos, negsuc}
use sqlite_rs.Prelude.Outcome.{ok}
use sqlite_rs.Prelude.Bytes.{IsU64, All, saturating_add, slice_from_append}
use sqlite_rs.Record.Value.{Value, null, integer, real, text, blob, TextEncoding}
use sqlite_rs.Record.Varint.{encode_varint}
use sqlite_rs.Record.Varint.RoundTrip.{decode_varint-encode_varint, length-encode_varint}
use sqlite_rs.Record.Encode.{
  encode_record, serial_type_and_body_len, integer_serial_type, blob_serial_type, text_serial_type,
}
use sqlite_rs.Record.Decode.{decode_varint_at, decode_serial_value}
use sqlite_rs.Record.Walk.{decode_record, read_header_len, read_entry, types_loop, bodies_loop}
use sqlite_rs.Record.Columns.{IsStored, serial_type, body_size, body, column-reads_back}
use sqlite_rs.Record.Layout.{
  types_bytes, bodies, record_size, header_len, header_len-counts, encode_record_layout,
  length-types_bytes,
}

integer_serial_type-le : (i : ℤ) → integer_serial_type i ≤ 9
unfolding integer_serial_type
integer_serial_type-le (pos zero) = ground arith
integer_serial_type-le (pos (suc zero)) = ground arith
integer_serial_type-le (pos (suc (suc n))) = ground arith
integer_serial_type-le (negsuc n) = ground arith

serial_type-IsU64 : (v : Value) (encoding : TextEncoding) → IsU64 (serial_type v encoding)
unfolding serial_type_and_body_len blob_serial_type text_serial_type
serial_type-IsU64 null encoding = omega arith
serial_type-IsU64 (integer i) encoding = omega (arith, integer_serial_type-le i)
serial_type-IsU64 (real r) encoding = omega arith
serial_type-IsU64 (blob b) encoding = omega arith
serial_type-IsU64 (text s) encoding = omega arith

-- A varint between other bytes.
pub decode_varint_at-encode_varint :
    (v : ℕ) (xs zs : List ℕ)
    → IsU64 v
    → decode_varint_at (xs ++ (encode_varint v ++ zs)) (length xs)
      ≡ ok (v, length (encode_varint v))
unfolding decode_varint_at
decode_varint_at-encode_varint v xs zs h =
    rw
      (
        slice_from_append xs (encode_varint v ++ zs) (length xs) refl,
        decode_varint-encode_varint v zs h,
      )
      refl

read_entry-encode_varint :
    (v hl : ℕ) (xs zs : List ℕ)
    → IsU64 v
    → length xs + length (encode_varint v) ≤ hl
    → hl < 2 ^ 62
    → read_entry (xs ++ (encode_varint v ++ zs)) hl (length xs)
      ≡ ok (v, length (xs ++ encode_varint v))
unfolding read_entry
read_entry-encode_varint v hl xs zs h fits small =
    let n = length (encode_varint v) in
    let e : saturating_add (length xs) n ≡ length (xs ++ encode_varint v) =
      omega (arith, length-append xs (encode_varint v)) in
    rw
      (
        decode_varint_at-encode_varint v xs zs h,
        e,
        le→leb (length (xs ++ encode_varint v)) hl
            (omega (arith, length-append xs (encode_varint v))),
      )
      refl

abbrev pub serial_types : List Value → TextEncoding → List ℕ
serial_types [] encoding = []
serial_types (v ∷ vs) encoding = serial_type v encoding ∷ serial_types vs encoding

types_loop_step :
    (n hl at t next : ℕ) (payload ts : List ℕ)
    → at < hl
    → read_entry payload hl at ≡ ok (t, next)
    → types_loop n payload hl next ≡ ok ts
    → types_loop (suc n) payload hl at ≡ ok (t ∷ ts)
unfolding types_loop
types_loop_step n hl at t next payload ts lt e rest = rw (lt→ltb at hl lt, e, rest) refl

types_loop-types_bytes :
    (vs : List Value) (encoding : TextEncoding) (fuel hl : ℕ) (payload pre rest : List ℕ)
    → payload ≡ pre ++ (types_bytes vs encoding ++ rest)
    → hl ≡ length pre + length (types_bytes vs encoding)
    → hl < 2 ^ 62
    → length (types_bytes vs encoding) ≤ fuel
    → types_loop fuel payload hl (length pre) ≡ ok (serial_types vs encoding)
unfolding types_bytes
types_loop-types_bytes [] encoding zero hl payload pre rest e l small f = unfold types_loop in refl
types_loop-types_bytes [] encoding (suc fuel) hl payload pre rest e l small f =
    unfold types_loop in rw (le→ltb_false (length pre) hl (omega arith)) refl
types_loop-types_bytes (v ∷ vs) encoding zero hl payload pre rest e l small f =
    let st = serial_type v encoding in
    absurd (
      omega (
        arith,
        length-encode_varint st,
        length-append (encode_varint st) (types_bytes vs encoding),
      ))
types_loop-types_bytes (v ∷ vs) encoding (suc fuel) hl payload pre rest e l small f =
    let st = serial_type v encoding in
    let w = encode_varint st in
    let m = length-append w (types_bytes vs encoding) in
    let e' : payload ≡ pre ++ (w ++ (types_bytes vs encoding ++ rest)) =
      e ∙ ap (λ t. pre ++ t) (append_assoc w (types_bytes vs encoding) rest) in
    types_loop_step fuel hl (length pre) st (length (pre ++ w)) payload (serial_types vs encoding)
      (omega (arith, m, length-encode_varint st))
      (rw e' (
        read_entry-encode_varint st hl pre (types_bytes vs encoding ++ rest)
          (serial_type-IsU64 v encoding) (omega (arith, m)) small))
      (types_loop-types_bytes vs encoding fuel hl payload (pre ++ w) rest
        (e' ∙ sym (append_assoc pre w (types_bytes vs encoding ++ rest)))
        (omega (arith, m, length-append pre w)) small (omega (arith, m, length-encode_varint st)))

bodies_loop_step :
    (t at len end : ℕ) (ts payload : List ℕ) (encoding : TextEncoding) (v : Value) (vs : List Value)
    → decode_serial_value t payload at encoding ≡ ok (v, len)
    → bodies_loop ts payload (saturating_add at len) encoding ≡ ok (vs, end)
    → bodies_loop (t ∷ ts) payload at encoding ≡ ok (v ∷ vs, end)
unfolding bodies_loop
bodies_loop_step t at len end ts payload encoding v vs e rest = rw (e, rest) refl

bodies_loop-bodies :
    (vs : List Value) (encoding : TextEncoding) (payload pre : List ℕ)
    → payload ≡ pre ++ bodies vs encoding
    → All IsStored vs
    → length pre + record_size vs encoding < 2 ^ 62
    → bodies_loop (serial_types vs encoding) payload (length pre) encoding ≡ ok (vs, length payload)
unfolding bodies
bodies_loop-bodies [] encoding payload pre e h small =
    unfold bodies_loop in ap (λ t. ok ([], length t)) (sym (append-nil pre) ∙ sym e)
bodies_loop-bodies (v ∷ vs) encoding payload pre e h small =
    let b = body v encoding in
    let len = body_size v encoding in
    let (reads, l) =
      column-reads_back v encoding pre (bodies vs encoding) h.0 (omega arith) (omega arith) in
    let next : saturating_add (length pre) len ≡ length (pre ++ b) =
      omega (arith, l, length-append pre b) in
    bodies_loop_step (serial_type v encoding) (length pre) len (length payload)
      (serial_types vs encoding) payload encoding v vs (rw e reads)
      (rw next (
        bodies_loop-bodies vs encoding payload (pre ++ b)
          (e ∙ sym (append_assoc pre b (bodies vs encoding))) h.1
          (omega (arith, l, length-append pre b))))

read_header_len-record :
    (vs : List Value) (encoding : TextEncoding) (rest : List ℕ)
    → record_size vs encoding < 2 ^ 61
    → IsU64 (header_len vs encoding)
    → read_header_len (encode_varint (header_len vs encoding) ++ (types_bytes vs encoding ++ rest))
      ≡ ok (header_len vs encoding, length (encode_varint (header_len vs encoding)))
unfolding read_header_len
read_header_len-record vs encoding rest small u =
    let hl = header_len vs encoding in
    rw
      (
        decode_varint_at-encode_varint hl [] (types_bytes vs encoding ++ rest) u,
        le→leb (length (encode_varint hl)) hl (omega (arith, header_len-counts vs encoding small)),
      )
      refl

header_len-le :
    (vs : List Value) (encoding : TextEncoding)
    → record_size vs encoding < 2 ^ 61
    → header_len vs encoding ≤ record_size vs encoding
header_len-le vs encoding small = omega (
  arith,
  header_len-counts vs encoding small,
  length-encode_varint (header_len vs encoding),
  length-types_bytes vs encoding,
)

-- `decode_record` gives back the values that `encode_record` was given, in every text encoding: for
-- i64 integers, reals that are no NaN, texts of Unicode scalar values and blobs of bytes, in a record
-- below 2^61 bytes.
pub decode_record-encode_record :
    (vs : List Value) (encoding : TextEncoding)
    → All IsStored vs
    → record_size vs encoding < 2 ^ 61
    → decode_record (encode_record vs encoding) encoding ≡ ok vs
unfolding decode_record
decode_record-encode_record vs encoding h small =
    let hl = header_len vs encoding in
    let w = encode_varint hl in
    let ts = types_bytes vs encoding in
    let bs = bodies vs encoding in
    let c : length w + length ts ≡ hl = header_len-counts vs encoding small in
    let u : hl < 2 ^ 61 = omega (arith, header_len-le vs encoding small) in
    let front : length (w ++ ts) ≡ hl = length-append w ts ∙ c in
    let types : types_loop hl (w ++ (ts ++ bs)) hl (length w) ≡ ok (serial_types vs encoding) =
      types_loop-types_bytes vs encoding hl hl (w ++ (ts ++ bs)) w bs refl (sym c) (omega arith)
        (omega arith) in
    let read : bodies_loop (serial_types vs encoding) (w ++ (ts ++ bs)) hl encoding
        ≡ ok (vs, length (w ++ (ts ++ bs))) =
      ap (λ (p : ℕ). bodies_loop (serial_types vs encoding) (w ++ (ts ++ bs)) p encoding)
        (sym front)
      ∙ (bodies_loop-bodies vs encoding (w ++ (ts ++ bs)) (w ++ ts) (sym (append_assoc w ts bs)) h
          (omega arith)) in
    rw (encode_record_layout vs encoding small) (
      rw
        (
          read_header_len-record vs encoding bs small (omega arith),
          types,
          read,
          (==_iff (length (w ++ (ts ++ bs))) _).1 refl,
        )
        refl)
