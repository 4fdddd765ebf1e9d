-- ===== src/Btree/Insert/Framed.antt =====
-- src/btree/table/insert.rs: the bytes of a row's cell, as the reads want them.
use mathlib.Core.List.{append_assoc}
use sqlite_rs.Prelude.{
  ℕ, ◌+◌, ◌%◌, ◌^◌, ◌≤◌, ◌<◌, ◌≡◌, refl, sym, ap, ◌∙◌, arith, ltb, if◌then◌else◌, false, ◌⊎◌, inl,
  inr, List, ◌++◌, length, take, drop, length-append, length-take,
}
use sqlite_rs.Prelude.Bytes.{to_be, length-to_be, drop-append, take-append}
use sqlite_rs.Prelude.Outcome.{Result, ok}
use sqlite_rs.Prelude.Int.{ℤ}
use sqlite_rs.Record.Value.{IsI64, as_unsigned, as_signed}
use sqlite_rs.Record.Varint.{decode_varint, encode_varint}
use sqlite_rs.Record.Varint.RoundTrip.{decode_varint-encode_varint, length-encode_varint}
use sqlite_rs.Btree.Error.{BtreeError}
use sqlite_rs.Btree.Payload.{local_payload_size}
use sqlite_rs.Btree.Leaf.{end_of_cell}
use sqlite_rs.Btree.Rebuild.Leaf.{IsCell}
use sqlite_rs.Btree.Rebuild.Interior.{as_signed-as_unsigned, as_unsigned-bound}

-- Two varints and as many bytes as a cell keeps behind them.
IsCell-framed :
    (usable_size : ℕ) (rowid : ℤ) (payload_len : ℕ) (body : List ℕ)
    → payload_len < 2 ^ 63
    → IsI64 rowid
    → length body ≤ 2 ^ 62
    → local_payload_size usable_size payload_len false
        + (if ltb (local_payload_size usable_size payload_len false) payload_len then 4 else 0)
      ≡ length body
    → IsCell usable_size
        (rowid, encode_varint payload_len ++ (encode_varint (as_unsigned 64 rowid) ++ body))
unfolding end_of_cell
IsCell-framed usable_size rowid payload_len body long range short size =
    let first = encode_varint payload_len in
    let second = encode_varint (as_unsigned 64 rowid) in
    (
      payload_len,
      length first,
      as_unsigned 64 rowid,
      length second,
      decode_varint-encode_varint payload_len (second ++ body) (omega arith),
      ap decode_varint (drop-append first (second ++ body))
          ∙ decode_varint-encode_varint (as_unsigned 64 rowid) body (as_unsigned-bound rowid),
      as_signed-as_unsigned rowid range,
      ground (
        arith,
        length-append first (second ++ body),
        length-append second body,
        length-encode_varint payload_len,
        length-encode_varint (as_unsigned 64 rowid),
      ),
    )

-- The cell of a row: the length of the payload, the rowid, as much of the payload as such a cell
-- keeps, and behind it nothing where that is the whole payload, else the first page of the chain that
-- holds the rest.
abbrev pub Encodes :
    {V : Type 0} → (List ℕ → Result (BtreeError V) ℕ) → ℕ → ℤ → List ℕ → List ℕ → Type 0
Encodes write_overflow_chain usable_size rowid payload cell =
    let local = local_payload_size usable_size (length payload) false in
    (n key m : ℕ) × (decode_varint cell ≡ ok (length payload, n))
    × (decode_varint (drop n cell) ≡ ok (key, m))
    × (as_signed 63 key ≡ rowid)
    × (take local (drop (n + m) cell) ≡ take local payload)
    × (((local ≡ length payload) × (length cell ≡ n + m + local))
        ⊎ ((page : ℕ) × (local < length payload)
            × (write_overflow_chain (drop local payload) ≡ ok page)
            × (drop (n + m + local) cell ≡ to_be 4 (page % 2 ^ 32))))

-- What the cell keeps, or what the chain leads to, behind what it keeps.
abbrev pub Rest : {V : Type 0} → (List ℕ → Result (BtreeError V) ℕ) → ℕ → List ℕ → List ℕ → Type 0
Rest write_overflow_chain local payload tail =
    ((local ≡ length payload) × (length tail ≡ 0))
    ⊎ ((page : ℕ) × (local < length payload)
        × (write_overflow_chain (drop local payload) ≡ ok page)
        × (tail ≡ to_be 4 (page % 2 ^ 32)))

drop_two : (xs ys zs : List ℕ) (n : ℕ) → n ≡ length xs + length ys → drop n (xs ++ (ys ++ zs)) ≡ zs
drop_two xs ys zs n e =
    rw (e, ← append_assoc xs ys zs, ← length-append xs ys) (drop-append (xs ++ ys) zs)

take_front : (xs ys : List ℕ) (n : ℕ) → n ≡ length xs → take n (xs ++ ys) ≡ xs
take_front xs ys n e = rw e (take-append xs ys)

-- The two varints, with what the cell keeps and its rest behind them.
pub framed :
    {V : Type 0} (write_overflow_chain : List ℕ → Result (BtreeError V) ℕ) (usable_size : ℕ)
    (rowid : ℤ) (payload tail : List ℕ)
    → length payload < 2 ^ 32
    → IsI64 rowid
    → local_payload_size usable_size (length payload) false ≤ length payload
    → Rest write_overflow_chain (local_payload_size usable_size (length payload) false) payload tail
    → let cell =
        encode_varint (length payload)
        ++ (encode_varint (as_unsigned 64 rowid)
            ++ (take (local_payload_size usable_size (length payload) false) payload ++ tail)) in
      IsCell usable_size (rowid, cell) × Encodes write_overflow_chain usable_size rowid payload cell
framed write_overflow_chain usable_size rowid payload tail short range within rest =
    let local : ℕ = local_payload_size usable_size (length payload) false in
    let first = encode_varint (length payload) in
    let second = encode_varint (as_unsigned 64 rowid) in
    let kept = take local payload in
    let body = kept ++ tail in
    let keeps : length kept ≡ local = omega (arith, length-take local payload) in
    let behind = drop_two first second body (length first + length second) refl in
    let all : length (first ++ (second ++ body))
        ≡ length first + length second + local + length tail =
      omega (
        arith,
        length-append first (second ++ body),
        length-append second body,
        length-append kept tail,
      ) in
    let last : drop (length first + length second + local) (first ++ (second ++ body)) ≡ tail =
      rw (← append_assoc first second body) (
        drop_two (first ++ second) kept tail (length first + length second + local)
          (omega (arith, length-append first second))) in
    (
      elim rest [
        | inl (whole, none_left) ↦
            IsCell-framed usable_size rowid (length payload) body (omega arith) range
              (omega (arith, length-append kept tail))
              (ground (arith, length-append kept tail, keeps, whole, none_left))
        | inr (page, more, chained, led) ↦
            let four : length tail ≡ 4 = ap length led ∙ length-to_be 4 (page % 2 ^ 32) in
            IsCell-framed usable_size rowid (length payload) body (omega arith) range
              (omega (arith, length-append kept tail))
              (ground (arith, length-append kept tail, keeps, more, four))
      ],
      (
        length first,
        as_unsigned 64 rowid,
        length second,
        decode_varint-encode_varint (length payload) (second ++ body) (omega arith),
        ap decode_varint (drop-append first (second ++ body))
            ∙ decode_varint-encode_varint (as_unsigned 64 rowid) body (as_unsigned-bound rowid),
        as_signed-as_unsigned rowid range,
        ap (take local) behind ∙ take_front kept tail local (sym keeps),
        elim rest [
          | inl (whole, none_left) ↦ inl (whole, omega arith)
          | inr (page, more, chained, led) ↦ inr (page, more, chained, last ∙ led)
        ],
      ),
    )
