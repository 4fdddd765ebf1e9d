-- ===== src/Record/Progress.antt =====
-- The header walk moves on with every entry, so its fuel is enough on every input.
use Prim.Native.Nat.{bit_and, bit_or}
use sqlite_rs.Prelude.{
  ℕ, zero, suc, ◌+◌, ◌≤◌, ◌<◌, ◌≡◌, refl, arith, ltb, ltb→lt, le→ltb_false, List, [], ◌∷◌,
  Bool-cases, inl, inr, Option, none, some,
}
use sqlite_rs.Prelude.Outcome.{Result, ok, err, ◌>>=◌, ok_or, map_err, Result-cases}
use sqlite_rs.Prelude.Bytes.{usize_max, slice_from}
use sqlite_rs.Record.Error.{RecordError, unexpected_eof}
use sqlite_rs.Record.Varint.{shl64, decode_loop, decode_ninth, decode_varint}
use sqlite_rs.Record.Decode.{decode_varint_at, shift_eof}
use sqlite_rs.Record.Walk.{read_entry, types_loop}

decode_loop_pos : (n i r : ℕ) (buf : List ℕ) (v m : ℕ) → decode_loop n i r buf ≡ ok (v, m) → 1 ≤ m
unfolding decode_loop decode_ninth
decode_loop_pos zero i r [] v m e = cc
decode_loop_pos zero i r (b ∷ rest) v m e = ground arith
decode_loop_pos (suc n) i r [] v m e = cc
decode_loop_pos (suc n) i r (b ∷ rest) v m e =
    ground (arith, decode_loop_pos n (i + 1) (bit_or (shl64 r 7) (bit_and b 0x7f)) rest v m)

decode_varint_pos : (buf : List ℕ) (v m : ℕ) → decode_varint buf ≡ ok (v, m) → 1 ≤ m
unfolding decode_varint
decode_varint_pos buf v m e = decode_loop_pos 8 0 0 buf v m e

decode_varint_at_pos : (buf : List ℕ) (at v m : ℕ) → decode_varint_at buf at ≡ ok (v, m) → 1 ≤ m
unfolding decode_varint_at
decode_varint_at_pos buf at v m e = go (slice_from buf at) e
  where
    inner :
        (r : Result RecordError (ℕ × ℕ))
        → ((w k : ℕ) → r ≡ ok (w, k) → 1 ≤ k)
        → map_err (shift_eof at) r ≡ ok (v, m)
        → 1 ≤ m
    inner (ok (w, k)) h q = let p = h w k refl in ground (arith, p)
    inner (err x) h q = cc

    go :
        (o : Option (List ℕ))
        → (ok_or o (unexpected_eof at) >>= λ rest. map_err (shift_eof at) (decode_varint rest))
          ≡ ok (v, m)
        → 1 ≤ m
    go none q = cc
    go (some rest) q = inner (decode_varint rest) (decode_varint_pos rest) q

pub read_entry_moves :
    (payload : List ℕ) (hl at t next : ℕ)
    → at < hl
    → hl ≤ usize_max
    → read_entry payload hl at ≡ ok (t, next)
    → at < next
unfolding read_entry
read_entry_moves payload hl at t next lt room e =
    elim (Result-cases (decode_varint_at payload at)) [
      | inr (x, f) ↦ cc (rw f at e)
      | inl ((w, k), f) ↦ ground (arith, rw f at e, decode_varint_at_pos payload at w k f)
    ]

-- Any fuel that covers what is left of the header gives the same walk: `decode_record`, which
-- gives the header's whole length, never stops for want of it.
types_loop_fuel :
    (n m : ℕ) (payload : List ℕ) (hl at : ℕ)
    → hl ≤ usize_max
    → hl ≤ at + n
    → hl ≤ at + m
    → types_loop n payload hl at ≡ types_loop m payload hl at
unfolding types_loop
types_loop_fuel zero zero payload hl at room a b = refl
types_loop_fuel zero (suc m) payload hl at room a b = rw (le→ltb_false at hl (omega arith)) refl
types_loop_fuel (suc n) zero payload hl at room a b = rw (le→ltb_false at hl (omega arith)) refl
types_loop_fuel (suc n) (suc m) payload hl at room a b = elim (Bool-cases (ltb at hl)) [
  | inr stop ↦ rw stop refl
  | inl more ↦ elim (Result-cases (read_entry payload hl at)) [
    | inr (x, e) ↦ rw (more, e) refl
    | inl ((t, next), e) ↦
        let lt = read_entry_moves payload hl at t next (ltb→lt at hl more) room e in
        rw (more, e, types_loop_fuel n m payload hl next room (omega arith) (omega arith)) refl
  ]
]
