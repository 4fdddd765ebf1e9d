-- ===== src/Record/Single.antt =====
-- The single-column fast path and `decode_record_only`, and the fuel of the header walk.
use sqlite_rs.Prelude.{
  ℕ, zero, suc, ◌+◌, ◌≤◌, ◌<◌, ◌≡◌, refl, sym, ◌∙◌, arith, true, false, ltb, ◌==◌, ==_iff, List, [],
  ◌∷◌, get_elem?, map, inl, inr, some,
}
use sqlite_rs.Prelude.Outcome.{ok}
use sqlite_rs.Prelude.Bytes.{All, saturating_add, usize_max}
use sqlite_rs.Record.Value.{Value, TextEncoding}
use sqlite_rs.Record.Decode.{serial_type_len}
use sqlite_rs.Record.Walk.{
  decode_record, read_entry, types_loop, decode_entry, single_loop, bodies_loop,
  decode_single_column, decode_wanted, decode_record_only,
}
use sqlite_rs.Record.Inversion.{
  offsets, types_loop_cases, decode_record_parts, parse_header-offsets,
}
use sqlite_rs.Record.Agree.{column_at, decode_entry-bodies}

-- One round of the walk: at its column, and before it.
single_loop_here :
    (n : ℕ) (payload : List ℕ) (hl at body_pos col idx t next : ℕ) (encoding : TextEncoding)
    → ltb at hl ≡ true
    → read_entry payload hl at ≡ ok (t, next)
    → idx ≡ col
    → single_loop (suc n) payload hl at body_pos col idx encoding
      ≡ decode_entry (some (t, body_pos)) payload encoding
unfolding single_loop
single_loop_here n payload hl at body_pos col idx t next encoding more entry e =
    rw (more, entry, (==_iff col idx).1 (sym e)) refl

single_loop_past :
    (n : ℕ) (payload : List ℕ) (hl at body_pos col idx t next : ℕ) (encoding : TextEncoding)
    → ltb at hl ≡ true
    → read_entry payload hl at ≡ ok (t, next)
    → col < idx
    → idx ≤ usize_max
    → single_loop (suc n) payload hl at body_pos col idx encoding
      ≡ single_loop n payload hl next
          (saturating_add body_pos (serial_type_len t))
          (col + 1)
          idx
          encoding
unfolding single_loop
single_loop_past n payload hl at body_pos col idx t next encoding more entry lt room =
    rw (more, entry, differ col idx lt, no_wrap) refl
  where
    differ : (a b : ℕ) → a < b → (a == b) ≡ false
    differ a b h = ground arith

    no_wrap : saturating_add col 1 ≡ col + 1
    no_wrap = omega arith

-- The walk that stops at its column reads the entry that the whole walk lists there.
single_loop-offsets :
    (n : ℕ) (payload : List ℕ) (hl at body_pos col k idx : ℕ) (encoding : TextEncoding)
    → (ts : List ℕ) → types_loop n payload hl at ≡ ok ts
    → idx ≡ col + k
    → idx ≤ usize_max
    → single_loop n payload hl at body_pos col idx encoding
      ≡ decode_entry (get_elem? (offsets ts body_pos) k) payload encoding
unfolding decode_entry
single_loop-offsets zero payload hl at body_pos col k idx encoding ts e s room =
    let z : ts ≡ [] = unfold types_loop in cc e in rw z (unfold single_loop in refl)
single_loop-offsets (suc n) payload hl at body_pos col zero idx encoding ts e s room =
    elim (types_loop_cases n payload hl at ts e) [
      | inl (stop, z) ↦ rw z (unfold single_loop in rw stop refl)
      | inr (t, next, rest, more, entry, tail, z) ↦ rw z (
          single_loop_here n payload hl at body_pos col idx t next encoding more entry
            (omega arith))
    ]
single_loop-offsets (suc n) payload hl at body_pos col (suc k) idx encoding ts e s room =
    elim (types_loop_cases n payload hl at ts e) [
      | inl (stop, z) ↦ rw z (unfold single_loop in rw stop refl)
      | inr (t, next, rest, more, entry, tail, z) ↦ rw z (
          single_loop_past n payload hl at body_pos col idx t next encoding more entry (omega arith)
            room
          ∙ single_loop-offsets n payload hl next (saturating_add body_pos (serial_type_len t))
              (col + 1) k idx encoding rest tail (omega arith) room)
    ]

-- The fast path for one column gives what `decode_record` gives there, NULL past the last column.
pub decode_single_column-decode_record :
    (payload : List ℕ) (idx : ℕ) (encoding : TextEncoding) (vs : List Value)
    → decode_record payload encoding ≡ ok vs
    → idx ≤ usize_max
    → decode_single_column payload idx encoding ≡ ok (column_at vs idx)
unfolding decode_single_column
decode_single_column-decode_record payload idx encoding vs e room =
    let (hl, n, ts, end, h, t, b) = decode_record_parts payload encoding vs e in
    rw h (
      single_loop-offsets hl payload hl n hl 0 idx idx encoding ts t (omega arith) room
      ∙ decode_entry-bodies ts payload hl end idx encoding vs b)

decode_wanted-column_at :
    (wanted ts payload : List ℕ) (hl end : ℕ) (encoding : TextEncoding) (vs : List Value)
    → bodies_loop ts payload hl encoding ≡ ok (vs, end)
    → decode_wanted (offsets ts hl) wanted payload encoding ≡ ok (map (column_at vs) wanted)
unfolding decode_wanted
decode_wanted-column_at [] ts payload hl end encoding vs e = refl
decode_wanted-column_at (idx ∷ wanted) ts payload hl end encoding vs e =
    rw
      (
        decode_entry-bodies ts payload hl end idx encoding vs e,
        decode_wanted-column_at wanted ts payload hl end encoding vs e,
      )
      refl

-- `decode_record_only` gives the wanted columns of `decode_record` in the order asked for, repeats
-- and the single-column fast path included.
pub decode_record_only-decode_record :
    (payload wanted : List ℕ) (encoding : TextEncoding) (vs : List Value)
    → decode_record payload encoding ≡ ok vs
    → All (λ idx. idx ≤ usize_max) wanted
    → decode_record_only payload wanted encoding ≡ ok (map (column_at vs) wanted)
unfolding decode_record_only
decode_record_only-decode_record payload [] encoding vs e room =
    let (hl, n, ts, end, h, t, b) = decode_record_parts payload encoding vs e in
    rw (parse_header-offsets payload hl n ts h t)
      (decode_wanted-column_at [] ts payload hl end encoding vs b)
decode_record_only-decode_record payload (only ∷ []) encoding vs e room =
    rw (decode_single_column-decode_record payload only encoding vs e room.0) refl
decode_record_only-decode_record payload (i ∷ j ∷ rest) encoding vs e room =
    let (hl, n, ts, end, h, t, b) = decode_record_parts payload encoding vs e in
    rw (parse_header-offsets payload hl n ts h t)
      (decode_wanted-column_at (i ∷ j ∷ rest) ts payload hl end encoding vs b)
