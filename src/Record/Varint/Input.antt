-- ===== src/Record/Varint/Input.antt =====
-- `decode_varint` on any bytes, well formed or not.
use Prim.Native.Nat.{bit_and, bit_or}
use mathlib.Core.List.{append-nil}
use native.Mathlib.Nat.{pow-le-pow_right}
use sqlite_rs.Prelude.{
  ℕ, zero, suc, ◌+◌, ◌*◌, ◌%◌, ◌^◌, ◌≤◌, ◌<◌, ◌≡◌, refl, List, [], ◌∷◌, ◌++◌, arith, length,
  length-append, ◌⊎◌, ap, ◌∙◌, inl, inr,
}
use sqlite_rs.Prelude.Outcome.{Result, ok, err}
use sqlite_rs.Prelude.Bytes.{IsU64, IsByte, All}
use sqlite_rs.Prelude.Bits.{bit_or-disjoint}
use sqlite_rs.Record.Error.{RecordError, unexpected_eof}
use sqlite_rs.Record.Varint.{
  shl64, decode_loop, decode_ninth, decode_varint, encode_varint, varint_len,
}
use sqlite_rs.Record.Varint.Groups.{shift_seven, groups_for_least, varint_len-small}
use sqlite_rs.Record.Varint.RoundTrip.{
  join_group, length-encode_varint, decode_varint-encode_varint,
}

-- Before round `i` the accumulator has 7i bits at most.
small_accumulator : (i r : ℕ) → i ≤ 8 → r < 2 ^ (7 * i) → r < 2 ^ 56
small_accumulator i r h lt =
    let e : 7 * i ≤ 56 = omega arith in omega (arith, pow-le-pow_right {n = 2} (omega arith) e)

grown : (i r g : ℕ) → r < 2 ^ (7 * i) → g < 128 → r * 128 + g < 2 ^ (7 * (i + 1))
grown i r g h k = let e : i + 1 ≡ suc i = omega arith in rw (e, shift_seven i) (omega arith)

-- What a successful read from round `i` on returns.
abbrev Reads : ℕ → ℕ → ℕ → ℕ → Type 0
Reads i len v m =
    (i < m) × (m ≤ i + len) × (((m ≤ 8) × (v < 2 ^ (7 * m))) ⊎ ((m ≡ 9) × (v < 2 ^ 64)))

decode_ninth-Reads :
    (r : ℕ) (buf : List ℕ) (v m : ℕ)
    → All IsByte buf
    → r < 2 ^ 56
    → decode_ninth r buf ≡ ok (v, m)
    → Reads 8 (length buf) v m
unfolding decode_ninth
decode_ninth-Reads r [] v m bytes small e = cc
decode_ninth-Reads r (b ∷ rest) v m bytes small e =
    let s : r * 2 ^ 8 % 2 ^ 64 ≡ r * 2 ^ 8 = omega arith in ground (arith, s, bit_or-disjoint 8 r b)

decode_loop-Reads :
    (n i r : ℕ) (buf : List ℕ) (v m : ℕ)
    → i + n ≡ 8
    → r < 2 ^ (7 * i)
    → All IsByte buf
    → decode_loop n i r buf ≡ ok (v, m)
    → Reads i (length buf) v m
unfolding decode_loop
decode_loop-Reads zero i r buf v m e small bytes h =
    let s : i ≡ 8 = omega arith in
    rw s (decode_ninth-Reads r buf v m bytes (small_accumulator i r (omega arith) small) h)
decode_loop-Reads (suc n) i r [] v m e small bytes h = cc
decode_loop-Reads (suc n) i r (b ∷ rest) v m e small bytes h =
    let room : r * 128 < 2 ^ 64 = omega (arith, small_accumulator i r (omega arith) small) in
    ground (
      arith,
      join_group r b room,
      grown i r (b % 128) small,
      decode_loop-Reads n (i + 1) (r * 128 + b % 128) rest v m,
    )

-- Whatever bytes it reads, a successful `decode_varint` returns a u64 and takes 1 to 9 bytes of the
-- buffer; and `encode_varint` writes no value in more bytes than any encoding of it takes.
pub decode_varint_bounds :
    (buf : List ℕ) (v m : ℕ)
    → All IsByte buf
    → decode_varint buf ≡ ok (v, m)
    → IsU64 v × (1 ≤ m) × (m ≤ 9) × (m ≤ length buf) × (varint_len v ≤ m)
unfolding decode_varint
decode_varint_bounds buf v m bytes h =
    let reads = decode_loop-Reads 8 0 0 buf v m refl (omega arith) bytes h in
    let (u, le9, least) = fits reads in (u, reads.0, le9, omega arith, least)
  where
    fits : Reads 0 (length buf) v m → IsU64 v × (m ≤ 9) × (varint_len v ≤ m)
    fits (a, b, inl (le, lt)) =
        let s : v < 2 ^ 56 = small_accumulator m v le lt in
        (omega arith, omega arith, rw (varint_len-small v s) (groups_for_least v m a lt))
    fits (a, b, inr (e, lt)) = (lt, omega arith, omega (arith, length-encode_varint v))

decode_loop-err :
    (n i r : ℕ) (buf : List ℕ) (x : RecordError)
    → i + n ≡ 8
    → decode_loop n i r buf ≡ err x
    → (x ≡ unexpected_eof (i + length buf)) × (i + length buf < 9)
unfolding decode_loop decode_ninth
decode_loop-err zero i r [] x e h = ground arith
decode_loop-err zero i r (b ∷ rest) x e h = cc
decode_loop-err (suc n) i r [] x e h = ground arith
decode_loop-err (suc n) i r (b ∷ rest) x e h =
    ground (arith, decode_loop-err n (i + 1) (bit_or (shl64 r 7) (bit_and b 0x7f)) rest x)

-- The only failure of `decode_varint` is the end of the buffer, reported at its length, and a buffer
-- of nine bytes or more never fails.
decode_varint_eof :
    (buf : List ℕ) (x : RecordError)
    → decode_varint buf ≡ err x
    → (x ≡ unexpected_eof (length buf)) × (length buf < 9)
unfolding decode_varint
decode_varint_eof buf x h = ground (arith, decode_loop-err 8 0 0 buf x)

decode_loop-append :
    (n i r : ℕ) (buf more : List ℕ) (v m : ℕ)
    → decode_loop n i r buf ≡ ok (v, m)
    → decode_loop n i r (buf ++ more) ≡ ok (v, m)
unfolding decode_loop decode_ninth
decode_loop-append zero i r [] more v m h = cc
decode_loop-append zero i r (b ∷ rest) more v m h = h
decode_loop-append (suc n) i r [] more v m h = cc
decode_loop-append (suc n) i r (b ∷ rest) more v m h =
    ground (arith, decode_loop-append n (i + 1) (bit_or (shl64 r 7) (bit_and b 0x7f)) rest more v m)

-- Bytes behind the varint change nothing.
pub decode_varint-append :
    (buf more : List ℕ) (v m : ℕ)
    → decode_varint buf ≡ ok (v, m)
    → decode_varint (buf ++ more) ≡ ok (v, m)
unfolding decode_varint
decode_varint-append buf more v m h = decode_loop-append 8 0 0 buf more v m h

decode_loop-length :
    (n i r : ℕ) (buf : List ℕ) (v m : ℕ)
    → i + n ≡ 8
    → decode_loop n i r buf ≡ ok (v, m)
    → m ≤ i + length buf
unfolding decode_loop decode_ninth
decode_loop-length zero i r [] v m e h = cc
decode_loop-length zero i r (b ∷ rest) v m e h = ground arith
decode_loop-length (suc n) i r [] v m e h = cc
decode_loop-length (suc n) i r (b ∷ rest) v m e h =
    ground (arith, decode_loop-length n (i + 1) (bit_or (shl64 r 7) (bit_and b 0x7f)) rest v m)

-- The count never passes the buffer's end.
pub decode_varint-length : (buf : List ℕ) (v m : ℕ) → decode_varint buf ≡ ok (v, m) → m ≤ length buf
unfolding decode_varint
decode_varint-length buf v m h = omega (arith, decode_loop-length 8 0 0 buf v m refl h)

-- A varint cut short is an error at the end of the buffer: every proper prefix of an encoding fails.
pub decode_varint_truncated :
    (v b : ℕ) (front back : List ℕ)
    → IsU64 v
    → encode_varint v ≡ front ++ (b ∷ back)
    → decode_varint front ≡ err (unexpected_eof (length front))
decode_varint_truncated v b front back h e = go (decode_varint front) refl
  where
    whole : decode_varint (front ++ (b ∷ back)) ≡ ok (v, length (front ++ (b ∷ back)))
    whole = rw (append-nil, e) at (decode_varint-encode_varint v [] h)

    go :
        (r : Result RecordError (ℕ × ℕ))
        → decode_varint front ≡ r
        → decode_varint front ≡ err (unexpected_eof (length front))
    go (ok (u, m)) q = ground (
      arith,
      whole,
      decode_varint-append front (b ∷ back) u m q,
      decode_varint-length front u m q,
      length-append front (b ∷ back),
    )
    go (err x) q = q ∙ ap err (decode_varint_eof front x q).0
