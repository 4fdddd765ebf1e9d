-- ===== src/Record/Varint.antt =====
-- record/varint.rs, and the varint half of record/encode.rs. A byte buffer is a list of numbers.
pub mod Groups
pub mod RoundTrip
pub mod Input
use Prim.Native.Nat.{bit_and, bit_or}
use sqlite_rs.Prelude.{
  ℕ, zero, suc, ◌+◌, ◌-◌, ◌*◌, ◌/◌, ◌%◌, ◌^◌, ◌≤◌, ◌<◌, ◌≡◌, Bool, not, ◌&&◌, ltb, leb, ◌==◌,
  if◌then◌else◌, List, [], ◌∷◌, ◌++◌, refl,
}
use sqlite_rs.Prelude.Outcome.{Result, ok, err}
use sqlite_rs.Record.Error.{RecordError, unexpected_eof}

-- `result << 7` and `result << 8` on a u64.
abbrev pub shl64 : ℕ → ℕ → ℕ
shl64 x k = x * 2 ^ k % 2 ^ 64

-- The read behind the eight rounds: a ninth byte counts whole.
unfoldable pub decode_ninth : ℕ → List ℕ → Result RecordError (ℕ × ℕ)
decode_ninth result [] = err (unexpected_eof 8)
decode_ninth result (byte ∷ rest) = ok (bit_or (shl64 result 8) byte, 9)

-- `for i in 0..8`, with the rounds left; the list is what is left of `buf` from `i` on.
unfoldable pub decode_loop : ℕ → ℕ → ℕ → List ℕ → Result RecordError (ℕ × ℕ)
decode_loop zero i result buf = decode_ninth result buf
decode_loop (suc n) i result [] = err (unexpected_eof i)
decode_loop (suc n) i result (byte ∷ rest) =
    let result' = bit_or (shl64 result 7) (bit_and byte 0x7f) in
    let more = decode_loop n (i + 1) result' rest in
    if bit_and byte 0x80 == 0 then ok (result', i + 1) else more

unfoldable pub decode_varint : List ℕ → Result RecordError (ℕ × ℕ)
decode_varint buf = decode_loop 8 0 0 buf

-- `while groups < 8 && value >= (1u64 << (7 * groups)) { groups += 1 }`; eight rounds are enough.
unfoldable pub count_groups : ℕ → ℕ → ℕ → ℕ
count_groups zero groups value = groups
count_groups (suc fuel) groups value =
    let more = count_groups fuel (groups + 1) value in
    if ltb groups 8 && leb (2 ^ (7 * groups)) value then more else groups

-- The byte of round `i`.
unfoldable pub group_at : ℕ → ℕ → ℕ → ℕ
group_at i groups value =
    let byte = bit_and (value / 2 ^ (7 * (groups - 1 - i))) 0x7f in
    if not (i == groups - 1) then bit_or byte 0x80 else byte

-- `for i in 0..groups`, with the rounds left.
unfoldable pub push_groups : ℕ → ℕ → ℕ → ℕ → List ℕ → List ℕ
push_groups zero i groups value out = out
push_groups (suc n) i groups value out =
    push_groups n (i + 1) groups value (out ++ (group_at i groups value ∷ []))

-- `for i in 0..8` of the nine-byte form.
unfoldable pub push_top : ℕ → ℕ → ℕ → List ℕ → List ℕ
push_top zero i top56 out = out
push_top (suc n) i top56 out =
    push_top n (i + 1) top56 (out ++ (bit_or (bit_and (top56 / 2 ^ (7 * (7 - i))) 0x7f) 0x80 ∷ []))

unfoldable pub write_varint_into : ℕ → List ℕ → List ℕ
write_varint_into value out =
    if ltb value (2 ^ 56)
    then (let groups = count_groups 8 1 value in push_groups groups 0 groups value out)
    else push_top 8 0 (value / 2 ^ 8) out ++ (bit_and value 0xff ∷ [])

unfoldable pub encode_varint : ℕ → List ℕ
encode_varint value = write_varint_into value []

unfoldable pub varint_len : ℕ → ℕ
varint_len value = if ltb value (2 ^ 56) then count_groups 8 1 value else 9

two_bytes : encode_varint 300 ≡ 0x82 ∷ 0x2c ∷ []
unfolding encode_varint write_varint_into count_groups group_at push_groups push_top
two_bytes = refl

reads_back : decode_varint (0x82 ∷ 0x2c ∷ 7 ∷ []) ≡ ok (300, 2)
unfolding decode_varint decode_loop decode_ninth
reads_back = refl

widest :
    encode_varint 0xffff_ffff_ffff_ffff ≡ 255 ∷ 255 ∷ 255 ∷ 255 ∷ 255 ∷ 255 ∷ 255 ∷ 255 ∷ 255 ∷ []
unfolding encode_varint write_varint_into count_groups group_at push_groups push_top
widest = refl
