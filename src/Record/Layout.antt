-- ===== src/Record/Layout.antt =====
-- The layout that `encode_record` writes: the header's length, the serial types, the bodies.
use mathlib.Core.List.{append-nil, append_assoc}
use native.Mathlib.Decide.{dec_lt}
use sqlite_rs.Prelude.{
  ℕ, zero, suc, ◌+◌, ◌^◌, ◌≤◌, ◌<◌, ◌≡◌, refl, sym, ap, ◌∙◌, arith, true, false, ◌==◌, List, [],
  ◌∷◌, ◌++◌, length, length-append, Bool-cases, inl, inr,
}
use sqlite_rs.Prelude.Int.{ℤ}
use sqlite_rs.Prelude.Bytes.{saturating_add}
use sqlite_rs.Record.Value.{
  Value, null, integer, real, text, blob, TextEncoding, utf8, utf16_le, utf16_be,
}
use sqlite_rs.Record.Varint.{write_varint_into, encode_varint, varint_len}
use sqlite_rs.Record.Varint.Groups.{
  groups_for, groups_for_bounds, groups_for_fits, groups_for_least, varint_len-small,
  varint_len-large, write_varint_into-small, write_varint_into-large,
}
use sqlite_rs.Record.Varint.RoundTrip.{length-encode_varint}
use sqlite_rs.Record.Encode.{
  write_body_into, write_integer_body_into, write_text_body_into, header_body_len_loop,
  header_len_loop, write_serial_types, write_bodies, serial_types_of, encode_record,
}
use sqlite_rs.Record.Columns.{serial_type, body_size, body}

-- Writing appends.
pub write_varint_into-append :
    (v : ℕ) (out : List ℕ) → write_varint_into v out ≡ out ++ encode_varint v
unfolding encode_varint
write_varint_into-append v out = elim (dec_lt v (2 ^ 56)) [
  | yes small ↦ rw (write_varint_into-small v out small, write_varint_into-small v [] small) refl
  | no large ↦
      rw (write_varint_into-large v out (omega arith), write_varint_into-large v [] (omega arith))
        refl
]

-- A larger value takes no fewer bytes.
pub varint_len_mono : (a b : ℕ) → a ≤ b → varint_len a ≤ varint_len b
varint_len_mono a b h = elim (dec_lt b (2 ^ 56)) [
  | yes small ↦
      rw (varint_len-small b small, varint_len-small a (omega arith))
        (groups_for_least a (groups_for b) (groups_for_bounds b).0
          (omega (arith, groups_for_fits b small)))
  | no large ↦ omega (arith, varint_len-large b (omega arith), length-encode_varint a)
]

-- The loop on the header's length ends where the length counts its own varint.
header_len_loop-fixed :
    (fuel k n : ℕ)
    → 9 < k + fuel
    → k ≤ varint_len (n + k)
    → n + 10 < 2 ^ 62
    → varint_len (header_len_loop fuel n (n + k)) + n ≡ header_len_loop fuel n (n + k)
unfolding header_len_loop
header_len_loop-fixed zero k n f g h = absurd (omega (arith, length-encode_varint (n + k)))
header_len_loop-fixed (suc fuel) k n f g h =
    elim (Bool-cases (saturating_add (varint_len (n + k)) n == n + k)) [
      | inl done ↦ rw done (fixed done)
      | inr more ↦
          let e : saturating_add (n + k) 1 ≡ n + (k + 1) =
            omega (arith, length-encode_varint (n + k)) in
          rw (more, e) (header_len_loop-fixed fuel (k + 1) n (omega arith) (climb more) h)
    ]
  where
    fixed : (saturating_add (varint_len (n + k)) n == n + k) ≡ true → varint_len (n + k) + n ≡ n + k
    fixed done = ground (arith, length-encode_varint (n + k))

    climb :
        (saturating_add (varint_len (n + k)) n == n + k) ≡ false → k + 1 ≤ varint_len (n + (k + 1))
    climb more =
        ground
          (arith, length-encode_varint (n + k), varint_len_mono (n + k) (n + (k + 1)) (omega arith))

-- The varints of the serial types, and the bodies, each one after the other.
unfoldable pub types_bytes : List Value → TextEncoding → List ℕ
types_bytes [] encoding = []
types_bytes (v ∷ vs) encoding = encode_varint (serial_type v encoding) ++ types_bytes vs encoding

unfoldable pub bodies : List Value → TextEncoding → List ℕ
bodies [] encoding = []
bodies (v ∷ vs) encoding = body v encoding ++ bodies vs encoding

-- A bound on the bytes of the record: nine for each varint.
abbrev pub record_size : List Value → TextEncoding → ℕ
record_size [] encoding = 9
record_size (v ∷ vs) encoding = 9 + body_size v encoding + record_size vs encoding

write_serial_types-types_bytes :
    (vs : List Value) (encoding : TextEncoding) (out : List ℕ)
    → write_serial_types (serial_types_of vs encoding) out ≡ out ++ types_bytes vs encoding
unfolding write_serial_types serial_types_of types_bytes
write_serial_types-types_bytes [] encoding out = sym (append-nil out)
write_serial_types-types_bytes (v ∷ vs) encoding out =
    ap (write_serial_types (serial_types_of vs encoding))
      (write_varint_into-append (serial_type v encoding) out)
    ∙ write_serial_types-types_bytes vs encoding _
    ∙ append_assoc out _ _

write_integer_body_into-append :
    (i : ℤ) (st : ℕ) (out : List ℕ)
    → write_integer_body_into i st out ≡ out ++ write_integer_body_into i st []
unfolding write_integer_body_into
write_integer_body_into-append i st out = ground (arith, append-nil out)

write_body_into-append :
    (v : Value) (st : ℕ) (encoding : TextEncoding) (out : List ℕ)
    → write_body_into v st encoding out ≡ out ++ write_body_into v st encoding []
unfolding write_body_into write_text_body_into
write_body_into-append null st encoding out = sym (append-nil out)
write_body_into-append (integer i) st encoding out = write_integer_body_into-append i st out
write_body_into-append (real r) st encoding out = refl
write_body_into-append (blob b) st encoding out = refl
write_body_into-append (text s) st utf8 out = refl
write_body_into-append (text s) st utf16_le out = refl
write_body_into-append (text s) st utf16_be out = refl

write_bodies-bodies :
    (vs : List Value) (encoding : TextEncoding) (out : List ℕ)
    → write_bodies vs (serial_types_of vs encoding) encoding out ≡ out ++ bodies vs encoding
unfolding write_bodies serial_types_of bodies
write_bodies-bodies [] encoding out = sym (append-nil out)
write_bodies-bodies (v ∷ vs) encoding out =
    ap (write_bodies vs (serial_types_of vs encoding) encoding)
      (write_body_into-append v (serial_type v encoding) encoding out)
    ∙ write_bodies-bodies vs encoding _
    ∙ append_assoc out _ _

header_body_len_loop-length :
    (vs : List Value) (encoding : TextEncoding) (acc : ℕ)
    → acc + record_size vs encoding < 2 ^ 62
    → header_body_len_loop acc (serial_types_of vs encoding)
      ≡ acc + length (types_bytes vs encoding)
unfolding header_body_len_loop serial_types_of types_bytes
header_body_len_loop-length [] encoding acc h = omega arith
header_body_len_loop-length (v ∷ vs) encoding acc h =
    let st = serial_type v encoding in
    let l = length-encode_varint st in
    let e : saturating_add acc (varint_len st) ≡ acc + varint_len st = omega arith in
    ap (λ (t : ℕ). header_body_len_loop t (serial_types_of vs encoding)) e
    ∙ omega (
      arith,
      header_body_len_loop-length vs encoding (acc + varint_len st) (omega arith),
      length-append (encode_varint st) (types_bytes vs encoding),
    )

-- The length of the header.
unfoldable pub header_len : List Value → TextEncoding → ℕ
header_len vs encoding = let n = length (types_bytes vs encoding) in header_len_loop 9 n (n + 1)

pub length-types_bytes :
    (vs : List Value) (encoding : TextEncoding)
    → length (types_bytes vs encoding) + 9 ≤ record_size vs encoding
unfolding types_bytes
length-types_bytes [] encoding = omega arith
length-types_bytes (v ∷ vs) encoding = omega (
  arith,
  length-types_bytes vs encoding,
  length-encode_varint (serial_type v encoding),
  length-append (encode_varint (serial_type v encoding)) (types_bytes vs encoding),
)

-- The header's length counts the varint that holds it and the serial types' varints.
pub header_len-counts :
    (vs : List Value) (encoding : TextEncoding)
    → record_size vs encoding < 2 ^ 61
    → length (encode_varint (header_len vs encoding)) + length (types_bytes vs encoding)
      ≡ header_len vs encoding
unfolding header_len
header_len-counts vs encoding h =
    let n = length (types_bytes vs encoding) in
    rw ((length-encode_varint (header_len_loop 9 n (n + 1))).0) (
      header_len_loop-fixed 9 1 n (omega arith) (length-encode_varint (n + 1)).1
        (omega (arith, length-types_bytes vs encoding)))

-- A record is its header's length, the serial types and the bodies.
pub encode_record_layout :
    (vs : List Value) (encoding : TextEncoding)
    → record_size vs encoding < 2 ^ 61
    → encode_record vs encoding
      ≡ encode_varint (header_len vs encoding) ++ (types_bytes vs encoding ++ bodies vs encoding)
unfolding encode_record header_len encode_varint
encode_record_layout vs encoding h =
    let n = length (types_bytes vs encoding) in
    let e : header_body_len_loop 0 (serial_types_of vs encoding) ≡ n =
      header_body_len_loop-length vs encoding 0 (omega arith) ∙ omega arith in
    let f : saturating_add n 1 ≡ n + 1 = omega (arith, length-types_bytes vs encoding) in
    rw (e, f)
      (write_bodies-bodies vs encoding _
        ∙ ap (λ t. t ++ bodies vs encoding) (write_serial_types-types_bytes vs encoding _)
        ∙ append_assoc _ (types_bytes vs encoding) (bodies vs encoding))
