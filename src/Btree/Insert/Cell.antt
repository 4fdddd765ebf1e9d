-- ===== src/Btree/Insert/Cell.antt =====
-- src/btree/table/insert.rs: the cell of a row is laid out as the reads want it.
use mathlib.Core.List.{append-nil, append_assoc}
use sqlite_rs.Prelude.{
  ℕ, ◌%◌, ◌^◌, ◌==◌, ◌<◌, ◌≡◌, refl, sym, ap, subst, ◌∙◌, arith, min, if◌then◌else◌, false, ◌⊎◌,
  Bool-cases, inl, inr, [], List, ◌++◌, length, take, drop, length-drop,
}
use sqlite_rs.Prelude.Bytes.{to_be}
use sqlite_rs.Prelude.Outcome.{Result, ok, err, Result-cases, Gives, ◌>>=◌, >>=-eq-ok, ok-injective}
use sqlite_rs.Prelude.Int.{ℤ}
use sqlite_rs.Record.Value.{IsI64, as_unsigned}
use sqlite_rs.Record.Varint.{encode_varint}
use sqlite_rs.Btree.Error.{BtreeError}
use sqlite_rs.Btree.Payload.{local_payload_size}
use sqlite_rs.Btree.Payload.Whole.{local_payload_size-bounds}
use sqlite_rs.Btree.Rebuild.Leaf.{IsCell}
use sqlite_rs.Btree.Insert.{encode_leaf_cell}
use sqlite_rs.Btree.Insert.Framed.{Encodes, framed}

abbrev encoded :
    {V : Type 0}
    → (List ℕ → Result (BtreeError V) ℕ)
    → List ℕ × List ℕ
    → List ℕ
    → ℕ
    → Result (BtreeError V) (List ℕ)
encoded write_overflow_chain (first, second) payload size =
    if length (drop size payload) == 0
    then ok (first ++ (second ++ take size payload))
    else (write_overflow_chain (drop size payload) >>= (λ overflow_first.
        ok ((first ++ (second ++ take size payload)) ++ to_be 4 (overflow_first % 2 ^ 32))))

encode_leaf_cell-ok :
    {V : Type 0} (write_overflow_chain : List ℕ → Result (BtreeError V) ℕ) (usable_size : ℕ)
    (rowid : ℤ) (payload cell : List ℕ)
    → usable_size < 2 ^ 32
    → length payload < 2 ^ 32
    → IsI64 rowid
    → encode_leaf_cell write_overflow_chain usable_size rowid payload ≡ ok cell
    → IsCell usable_size (rowid, cell) × Encodes write_overflow_chain usable_size rowid payload cell
unfolding encode_leaf_cell
encode_leaf_cell-ok write_overflow_chain usable_size rowid payload cell usable short range e =
    let n : ℕ = length payload in
    let local : ℕ = local_payload_size usable_size n false in
    let (within, room, least) =
      local_payload_size-bounds usable_size n false usable (omega arith) in
    let same : min local n ≡ local = omega arith in
    let first = encode_varint n in
    let second = encode_varint (as_unsigned 64 rowid) in
    let kept = take local payload in
    let good = λ (bytes : List ℕ).
      IsCell usable_size (rowid, bytes)
      × Encodes write_overflow_chain usable_size rowid payload bytes in
    let e' =
      ap (λ (size : ℕ). encoded write_overflow_chain (first, second) payload size) (sym same) ∙ e in
    elim (Bool-cases (length (drop local payload) == 0)) [
      | inl all ↦
          let whole : first ++ (second ++ (kept ++ [])) ≡ cell =
            ground (arith, all, e', append-nil kept) in
          subst good whole (
            framed write_overflow_chain usable_size rowid payload [] short range within
              (inl (ground (arith, all, length-drop local payload), refl)))
      | inr more ↦
          let (page, chained, rest) =
            >>=-eq-ok (write_overflow_chain (drop local payload))
              (λ page. ok ((first ++ (second ++ kept)) ++ to_be 4 (page % 2 ^ 32)))
              (ground (arith, more, e')) in
          let tail = to_be 4 (page % 2 ^ 32) in
          let whole : first ++ (second ++ (kept ++ tail)) ≡ cell =
            ap (λ t. first ++ t) (sym (append_assoc second kept tail))
            ∙ sym (append_assoc first (second ++ kept) tail)
            ∙ ok-injective _ _ _ refl rest in
          subst good whole (
            framed write_overflow_chain usable_size rowid payload tail short range within
              (inr (page, ground (arith, more, length-drop local payload), chained, refl)))
    ]

encoded-err :
    {V : Type 0} (write_overflow_chain : List ℕ → Result (BtreeError V) ℕ)
    (first second payload : List ℕ) (size : ℕ) (e : BtreeError V)
    → encoded write_overflow_chain (first, second) payload size ≡ err e
    → (size < length payload) × (write_overflow_chain (drop size payload) ≡ err e)
encoded-err write_overflow_chain first second payload size e failed =
    elim (Bool-cases (length (drop size payload) == 0)) [
      | inl all ↦ absurd (ground (arith, all, failed))
      | inr more ↦ elim (Result-cases (write_overflow_chain (drop size payload))) [
        | inl (page, chained) ↦ absurd (ground (arith, more, failed, chained))
        | inr (failure, chained) ↦
            (ground (arith, more, length-drop size payload), ground (arith, more, failed, chained))
      ]
    ]

encode_leaf_cell-err :
    {V : Type 0} (write_overflow_chain : List ℕ → Result (BtreeError V) ℕ) (usable_size : ℕ)
    (rowid : ℤ) (payload : List ℕ) (e : BtreeError V)
    → usable_size < 2 ^ 32
    → length payload < 2 ^ 32
    → encode_leaf_cell write_overflow_chain usable_size rowid payload ≡ err e
    → let local = local_payload_size usable_size (length payload) false in
      (local < length payload) × (write_overflow_chain (drop local payload) ≡ err e)
unfolding encode_leaf_cell
encode_leaf_cell-err write_overflow_chain usable_size rowid payload e usable short failed =
    let n : ℕ = length payload in
    let local : ℕ = local_payload_size usable_size n false in
    let (within, room, least) =
      local_payload_size-bounds usable_size n false usable (omega arith) in
    let same : min local n ≡ local = omega arith in
    let first = encode_varint n in
    let second = encode_varint (as_unsigned 64 rowid) in
    encoded-err write_overflow_chain first second payload local e (
      ap (λ (size : ℕ). encoded write_overflow_chain (first, second) payload size) (sym same)
      ∙ failed)

-- For a row of less than 2^32 bytes with an i64 rowid, on pages of fewer than 2^32 usable bytes,
-- either a cell is encoded that has the layout of a leaf cell with this rowid, or the write of the
-- overflow chain for the part of the payload that such a cell does not keep fails, and the encoding
-- with its error. The cell's first varint is the length of the payload, its second the rowid, and
-- behind them stands the part of the payload that such a cell keeps. That is all of the payload and
-- the end of the cell, or else behind it stand the four bytes of the first page of the overflow
-- chain that was written for the part that is not kept.
pub encode_leaf_cell-IsCell :
    {V : Type 0} (write_overflow_chain : List ℕ → Result (BtreeError V) ℕ) (usable_size : ℕ)
    (rowid : ℤ) (payload : List ℕ)
    → usable_size < 2 ^ 32
    → length payload < 2 ^ 32
    → IsI64 rowid
    → Gives (encode_leaf_cell write_overflow_chain usable_size rowid payload) (λ cell.
      IsCell usable_size (rowid, cell)
      × Encodes write_overflow_chain usable_size rowid payload cell)
      ⊎ ((e : BtreeError V) × (encode_leaf_cell write_overflow_chain usable_size rowid payload
            ≡ err e)
          × (local_payload_size usable_size (length payload) false < length payload)
          × (write_overflow_chain
                (drop (local_payload_size usable_size (length payload) false) payload)
              ≡ err e))
encode_leaf_cell-IsCell write_overflow_chain usable_size rowid payload usable short range =
    elim (Result-cases (encode_leaf_cell write_overflow_chain usable_size rowid payload)) [
      | inl (cell, e) ↦ inl (
        cell,
        e,
        encode_leaf_cell-ok write_overflow_chain usable_size rowid payload cell usable short range
            e,
      )
      | inr (e, failed) ↦
          let (more, chained) =
            encode_leaf_cell-err write_overflow_chain usable_size rowid payload e usable short
              failed in
          inr (e, failed, more, chained)
    ]
