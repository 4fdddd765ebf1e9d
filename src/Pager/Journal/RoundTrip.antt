-- ===== src/Pager/Journal/RoundTrip.antt =====
-- What the journal writer writes, recovery reads back.
use mathlib.Core.List.{append_assoc}
use native.Mathlib.Nat.{mod-eq_of_lt}
use sqlite_rs.Prelude.{
  ℕ, zero, suc, ◌+◌, ◌-◌, ◌%◌, ◌^◌, ◌<◌, ◌≡◌, refl, sym, ap, ◌∙◌, arith, ==_iff, List, [], ◌++◌,
  length, length-append, some, ltb, ◌&&◌, get_or, Bool-cases, inl, inr,
}
use sqlite_rs.Prelude.Bytes.{
  IsU32, saturating_add, slice_middle, slice_from, slice_from_append, to_be, length-to_be, from_be,
  from_be-to_be,
}
use sqlite_rs.Pager.Journal.{
  JournalHeader, record_len, checksum_loop, page_checksum, record_bytes, page_checked, read_record,
}

checksum_loop-IsU32 :
    (fuel : ℕ) (page : List ℕ) (cksum idx : ℕ)
    → IsU32 cksum
    → IsU32 (checksum_loop fuel page cksum idx)
unfolding checksum_loop
checksum_loop-IsU32 zero page cksum idx h = h
checksum_loop-IsU32 (suc fuel) page cksum idx h =
    elim (Bool-cases (ltb 0 idx && ltb idx (length page))) [
      | inl e ↦ rw e (
          checksum_loop-IsU32 fuel page ((cksum + get_or page idx 0) % 2 ^ 32) (idx - 200)
            (omega arith))
      | inr e ↦ rw e h
    ]

u32_back : (v : ℕ) → IsU32 v → from_be (to_be 4 v) ≡ v
u32_back v h = from_be-to_be 4 v ∙ mod-eq_of_lt h

-- A record that write_record wrote is found again by recover, wherever it stands in the journal, with
-- its page number and its page, and passes the checksum test.
pub read_record-record_bytes :
    (h : JournalHeader) (front back page : List ℕ) (offset page_num : ℕ)
    → IsU32 (h.nonce)
    → IsU32 page_num
    → length page ≡ h.page_size
    → offset ≡ length front
    → offset + length page < 2 ^ 62
    → read_record h (front ++ (record_bytes (h.nonce) page_num page ++ back)) offset
      ≡ some (page_num, page)
unfolding read_record record_bytes page_checked record_len page_checksum
read_record-record_bytes h front back page offset page_num n u same at small =
    let sum = page_checksum (h.nonce) page in
    let number = to_be 4 page_num in
    let check = to_be 4 sum in
    let whole =
      slice_middle front (number ++ (page ++ check)) back offset
        (saturating_add offset (saturating_add (saturating_add 4 (h.page_size)) 4)) at
        (omega (
          arith,
          length-append number (page ++ check),
          length-append page check,
          length-to_be 4 page_num,
          length-to_be 4 sum,
          same,
          small,
        )) in
    let first =
      slice_middle [] number (page ++ check) 0 4 refl (omega (arith, length-to_be 4 page_num)) in
    let second =
      slice_middle number page check 4 (saturating_add 4 (h.page_size))
        (sym (length-to_be 4 page_num)) (omega (arith, same, small)) in
    let third =
      ap (λ b. slice_from b (saturating_add 4 (h.page_size))) (sym (append_assoc number page check))
      ∙ slice_from_append (number ++ page) check (saturating_add 4 (h.page_size))
          (omega (arith, same, small, length-append number page, length-to_be 4 page_num)) in
    let sum_small = checksum_loop-IsU32 (length page) page (h.nonce) (length page - 200) n in
    rw
      (
        whole,
        first,
        second,
        third,
        length-to_be 4 sum,
        u32_back sum sum_small,
        (==_iff sum sum).1 refl,
        u32_back page_num u,
      )
      refl
