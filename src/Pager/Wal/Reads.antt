-- ===== src/Pager/Wal/Reads.antt =====
-- A frame that the writer wrote passes the checks of the reader.
use mathlib.Core.List.{append_assoc, append-nil}
use sqlite_rs.Prelude.{
  ℕ, ◌+◌, ◌*◌, ◌^◌, ==_iff, ◌<◌, ◌≡◌, refl, sym, ap, ◌∙◌, arith, Bool, true, le→ltb_false, List, [],
  ◌∷◌, ◌++◌, length, length-append, some, get_elem?,
}
use sqlite_rs.Prelude.Bytes.{IsU32, saturating_add, usize_max, slice, slice_middle, length-to_be}
use sqlite_rs.Prelude.Words.{words, words-append, length-words, slice-words, from_be_word}
use sqlite_rs.Pager.Wal.Header.{WalHeader, read_u32_opt, same_checksum, checksum, checksum_step}
use sqlite_rs.Pager.Wal.Frames.{frame_size, after_frame, check_frame, read_frame}
use sqlite_rs.Pager.Wal.Writer.{frame_prefix, frame_header, after_append, frame_bytes}

abbrev pub BothU32 : ℕ × ℕ → Type 0
BothU32 p = IsU32 (p.0) × IsU32 (p.1)

pub checksum-BothU32 :
    (from_ne : List ℕ → ℕ) (native : Bool) (bytes : List ℕ) (init : ℕ × ℕ)
    → BothU32 init
    → BothU32 (checksum from_ne native bytes init)
unfolding checksum checksum_step
checksum-BothU32 from_ne native (a ∷ b ∷ c ∷ d ∷ e ∷ f ∷ g ∷ h ∷ rest) init p =
    checksum-BothU32 from_ne native rest _ (omega arith, omega arith)
checksum-BothU32 from_ne native rest init p = p

read_u32_opt-words :
    (vs : List ℕ) (i v offset : ℕ)
    → get_elem? vs i ≡ some v
    → offset ≡ 4 * i
    → offset < 2 ^ 32
    → IsU32 v
    → read_u32_opt (words vs) offset ≡ some v
unfolding read_u32_opt
read_u32_opt-words vs i v offset e p q u =
    let small = le→ltb_false usize_max (offset + 4) (omega (arith, q)) in
    let found =
      ap (λ t. slice t offset (offset + 4)) (sym (append-nil (words vs)))
      ∙ slice-words vs [] i v offset (offset + 4) e p refl in
    rw (small, found, length-to_be 4 v, from_be_word v u) refl

pub same_checksum_self : (p : ℕ × ℕ) → same_checksum p p ≡ true
unfolding same_checksum
same_checksum_self p = rw ((==_iff (p.0) (p.0)).1 refl, (==_iff (p.1) (p.1)).1 refl) refl

-- The fields of a frame's header.
module _ (h : WalHeader) (page_num db_size : ℕ) (sum : ℕ × ℕ) where
  pub length-frame_header : length (frame_header h page_num db_size sum) ≡ 24
  unfolding frame_header
  length-frame_header = length-words (page_num ∷ db_size ∷ h.salt1 ∷ h.salt2 ∷ sum.0 ∷ sum.1 ∷ [])

  frame_header-prefix :
      slice (frame_header h page_num db_size sum) 0 8 ≡ some (frame_prefix page_num db_size)
  unfolding frame_header frame_prefix
  frame_header-prefix =
      let rest = h.salt1 ∷ h.salt2 ∷ sum.0 ∷ sum.1 ∷ [] in
      ap (λ t. slice t 0 8) (words-append (page_num ∷ db_size ∷ []) rest)
      ∙ slice_middle [] (words (page_num ∷ db_size ∷ [])) (words rest) 0 8 refl
          (omega (arith, length-words (page_num ∷ db_size ∷ [])))

  frame_header_word :
      (i v offset : ℕ)
      → get_elem? (page_num ∷ db_size ∷ h.salt1 ∷ h.salt2 ∷ sum.0 ∷ sum.1 ∷ []) i ≡ some v
      → offset ≡ 4 * i
      → offset < 2 ^ 32
      → IsU32 v
      → read_u32_opt (frame_header h page_num db_size sum) offset ≡ some v
  unfolding frame_header
  frame_header_word i v offset =
      read_u32_opt-words (page_num ∷ db_size ∷ h.salt1 ∷ h.salt2 ∷ sum.0 ∷ sum.1 ∷ []) i v offset

module _ (from_ne : List ℕ → ℕ) (h : WalHeader) (salt1_small : IsU32 (h.salt1))
    (salt2_small : IsU32 (h.salt2)) (content : List ℕ) (page_num db_size : ℕ) (running : ℕ × ℕ)
    (running_small : BothU32 running) (len : length content ≡ h.page_size) where
  pub after_append-BothU32 : BothU32 (after_append from_ne h page_num content db_size running)
  unfolding after_append
  after_append-BothU32 = checksum-BothU32 from_ne (h.native_checksum) content _ (
      checksum-BothU32 from_ne (h.native_checksum) (frame_prefix page_num db_size) running
        running_small)

  pub check_frame-frame_bytes :
      (front back : List ℕ) (offset : ℕ)
      → offset ≡ length front
      → offset + h.page_size < 2 ^ 61
      → check_frame from_ne h
          (front ++ (frame_bytes from_ne h page_num content db_size running ++ back))
          offset
          running
        ≡ some (
          frame_header h page_num db_size (after_append from_ne h page_num content db_size running),
          (content, after_append from_ne h page_num content db_size running),
        )
  unfolding check_frame frame_bytes frame_size after_frame after_append
  check_frame-frame_bytes front back offset at small =
      let after = after_append from_ne h page_num content db_size running in
      let fh = frame_header h page_num db_size after in
      let n = length-frame_header h page_num db_size after in
      let both = after_append-BothU32 in
      let apart = append_assoc fh content back in
      let e1 =
        ap (λ t. slice (front ++ t) offset (saturating_add offset 24)) apart
        ∙ slice_middle front fh (content ++ back) offset (saturating_add offset 24) at
            (omega (arith, n, small)) in
      let e2 =
        ap
          (λ t.
            slice t (saturating_add offset 24)
              (saturating_add offset (saturating_add 24 (h.page_size))))
          (ap (λ t. front ++ t) apart ∙ sym (append_assoc front fh (content ++ back)))
        ∙ slice_middle (front ++ fh) content back (saturating_add offset 24)
            (saturating_add offset (saturating_add 24 (h.page_size)))
            (omega (arith, n, at, small, length-append front fh)) (omega (arith, len, small)) in
      rw
        (
          e1,
          frame_header_word h page_num db_size after 2 (h.salt1) 8 refl refl (omega arith)
              salt1_small,
          frame_header_word h page_num db_size after 3 (h.salt2) 12 refl refl (omega arith)
              salt2_small,
          frame_header_word h page_num db_size after 4 (after.0) 16 refl refl (omega arith)
              (both.0),
          frame_header_word h page_num db_size after 5 (after.1) 20 refl refl (omega arith)
              (both.1),
          (==_iff (h.salt1) (h.salt1)).1 refl,
          (==_iff (h.salt2) (h.salt2)).1 refl,
          e2,
          frame_header-prefix h page_num db_size after,
          same_checksum_self after,
        )
        refl

  pub read_frame-frame_bytes :
      (front back : List ℕ) (offset : ℕ)
      → IsU32 page_num
      → IsU32 db_size
      → offset ≡ length front
      → offset + h.page_size < 2 ^ 61
      → read_frame from_ne h
          (front ++ (frame_bytes from_ne h page_num content db_size running ++ back))
          offset
          running
        ≡ some (
          record { page_number = page_num; content = content; db_size = db_size },
          after_append from_ne h page_num content db_size running,
        )
  unfolding read_frame
  read_frame-frame_bytes front back offset u v at small =
      let after = after_append from_ne h page_num content db_size running in
      rw
        (
          check_frame-frame_bytes front back offset at small,
          frame_header_word h page_num db_size after 0 page_num 0 refl refl (omega arith) u,
          frame_header_word h page_num db_size after 1 db_size 4 refl refl (omega arith) v,
        )
        refl
