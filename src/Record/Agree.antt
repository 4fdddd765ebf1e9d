-- ===== src/Record/Agree.antt =====
-- The partial decoders agree with `decode_record`.
use sqlite_rs.Prelude.{
  ℕ, zero, suc, ◌≡◌, refl, sym, ap, ◌∙◌, List, [], ◌∷◌, length, take, get_elem?, get_or, min,
}
use native.Mathlib.Nat.{zero-min, min-zero, suc-min-suc}
use sqlite_rs.Prelude.Outcome.{ok}
use sqlite_rs.Prelude.Bytes.{saturating_add}
use sqlite_rs.Record.Value.{Value, null, TextEncoding}
use sqlite_rs.Record.Walk.{
  decode_record, bodies_loop, decode_entry, decode_column, record_column_count, decode_entries,
  decode_record_upto,
}
use sqlite_rs.Record.Inversion.{
  decode_serial_value-len, offsets, bodies_loop_cases, decode_record_parts, parse_header-offsets,
}

-- The column at an index, NULL past the last one.
abbrev pub column_at : List Value → ℕ → Value
column_at vs idx = get_or vs idx null

pub decode_entry-bodies :
    (ts payload : List ℕ) (body_pos end idx : ℕ) (encoding : TextEncoding) (vs : List Value)
    → bodies_loop ts payload body_pos encoding ≡ ok (vs, end)
    → decode_entry (get_elem? (offsets ts body_pos) idx) payload encoding ≡ ok (column_at vs idx)
unfolding decode_entry
decode_entry-bodies [] payload body_pos end idx encoding vs e =
    let z : vs ≡ [] = unfold bodies_loop in cc e in rw z refl
decode_entry-bodies (t ∷ ts) payload body_pos end zero encoding vs e =
    let (v, len, rest, first, tail, z) =
      bodies_loop_cases t ts payload body_pos end encoding vs e in
    rw (z, first) refl
decode_entry-bodies (t ∷ ts) payload body_pos end (suc i) encoding vs e =
    let (v, len, rest, first, tail, z) =
      bodies_loop_cases t ts payload body_pos end encoding vs e in
    rw (z, ← decode_serial_value-len t payload body_pos encoding v len first)
      (decode_entry-bodies ts payload (saturating_add body_pos len) end i encoding rest tail)

-- Where `decode_record` succeeds, `decode_column` gives the column it gave, and NULL past the last.
pub decode_column-decode_record :
    (payload : List ℕ) (idx : ℕ) (encoding : TextEncoding) (vs : List Value)
    → decode_record payload encoding ≡ ok vs
    → decode_column payload idx encoding ≡ ok (column_at vs idx)
unfolding decode_column
decode_column-decode_record payload idx encoding vs e =
    let (hl, n, ts, end, h, t, b) = decode_record_parts payload encoding vs e in
    rw (parse_header-offsets payload hl n ts h t)
      (decode_entry-bodies ts payload hl end idx encoding vs b)

length-offsets : (ts : List ℕ) (at : ℕ) → length (offsets ts at) ≡ length ts
length-offsets [] at = refl
length-offsets (t ∷ ts) at = ap suc (length-offsets ts _)

length-bodies :
    (ts payload : List ℕ) (at end : ℕ) (encoding : TextEncoding) (vs : List Value)
    → bodies_loop ts payload at encoding ≡ ok (vs, end)
    → length vs ≡ length ts
length-bodies [] payload at end encoding vs e =
    let z : vs ≡ [] = unfold bodies_loop in cc e in rw z refl
length-bodies (t ∷ ts) payload at end encoding vs e =
    let (v, len, rest, first, tail, z) = bodies_loop_cases t ts payload at end encoding vs e in
    rw z (ap suc (length-bodies ts payload (saturating_add at len) end encoding rest tail))

-- `record_column_count` counts the columns that `decode_record` gives.
record_column_count-decode_record :
    (payload : List ℕ) (encoding : TextEncoding) (vs : List Value)
    → decode_record payload encoding ≡ ok vs
    → record_column_count payload ≡ ok (length vs)
unfolding record_column_count
record_column_count-decode_record payload encoding vs e =
    let (hl, n, ts, end, h, t, b) = decode_record_parts payload encoding vs e in
    rw (parse_header-offsets payload hl n ts h t)
      (ap ok (length-offsets ts hl ∙ sym (length-bodies ts payload hl end encoding vs b)))

decode_entries-take :
    (k : ℕ) (ts payload : List ℕ) (at end : ℕ) (encoding : TextEncoding) (vs : List Value)
    → bodies_loop ts payload at encoding ≡ ok (vs, end)
    → decode_entries (take k (offsets ts at)) payload encoding ≡ ok (take k vs)
unfolding decode_entries decode_entry
decode_entries-take zero ts payload at end encoding vs e = refl
decode_entries-take (suc k) [] payload at end encoding vs e =
    let z : vs ≡ [] = unfold bodies_loop in cc e in rw z refl
decode_entries-take (suc k) (t ∷ ts) payload at end encoding vs e =
    let (v, len, rest, first, tail, z) = bodies_loop_cases t ts payload at end encoding vs e in
    let ih = decode_entries-take k ts payload (saturating_add at len) end encoding rest tail in
    let ih' = rw (decode_serial_value-len t payload at encoding v len first) at ih in
    rw z (rw (first, ih') refl)

take-min {ℓ} : {A : Type ℓ} (k : ℕ) (xs : List A) → take (min k (length xs)) xs ≡ take k xs
take-min zero xs = rw zero-min refl
take-min (suc k) [] = rw min-zero refl
take-min (suc k) (x ∷ xs) = rw suc-min-suc (ap (λ t. x ∷ t) (take-min k xs))

-- `decode_record_upto` gives the first columns that `decode_record` gives, all of them where there are
-- fewer than it was asked for.
decode_record_upto-decode_record :
    (payload : List ℕ) (max_columns : ℕ) (encoding : TextEncoding) (vs : List Value)
    → decode_record payload encoding ≡ ok vs
    → decode_record_upto payload max_columns encoding ≡ ok (take max_columns vs)
unfolding decode_record_upto
decode_record_upto-decode_record payload k encoding vs e =
    let (hl, n, ts, end, h, t, b) = decode_record_parts payload encoding vs e in
    rw (parse_header-offsets payload hl n ts h t)
      (rw (take-min k (offsets ts hl)) (decode_entries-take k ts payload hl end encoding vs b))
