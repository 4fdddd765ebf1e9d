-- ===== src/Pager/Wal/Runs.antt =====
-- Concrete runs of the write-ahead log, on a machine with big-endian words.
use sqlite_rs.Prelude.{
  sym, ap, ◌*◌, ◌<◌, ◌^◌, ◌==◌, if◌then◌else◌, ℕ, ◌+◌, ◌≡◌, refl, arith, true, List, [], ◌∷◌, ◌++◌,
  length, none, some,
}
use sqlite_rs.Prelude.Outcome.{Result, ok}
use sqlite_rs.Prelude.Bytes.{slice, to_be, from_be, from_be_loop}
use sqlite_rs.Prelude.Words.{words}
use sqlite_rs.Pager.Header.{is_power_of_two, some_power}
use sqlite_rs.Pager.Freelist.{zeros}
use sqlite_rs.Pager.Freelist.Layout.{length-zeros}
use sqlite_rs.Pager.Wal.Header.{
  WalHeader, new, serialize, checksummed_words, checksum_words, magic_of, checksum, checksum_step,
  read_word, read_u32_opt, same_checksum, valid_page_size, parse,
}
use sqlite_rs.Pager.Wal.Frames.{
  Frame, no_pages, committed_pages, scan_loop, read_frame, check_frame, after_frame, frame_size,
  apply_frame, unwind,
}
use sqlite_rs.Pager.Wal.Writer.{
  WalWriter, writer_at, append_frame, after_append, frame_bytes, frame_prefix, frame_header,
  first_offset, open_existing, resume_hint, frame_count,
}
use sqlite_rs.Pager.Wal.Commits.{publish, frames_of, committed_pages-publish}
use sqlite_rs.Pager.Wal.Sealed.{IsSealed, new-IsSealed, parse-serialize}
use sqlite_rs.Pager.Wal.RoundTrip.{IsFrame, length-frames_bytes}
use sqlite_rs.Pager.Wal.Log.{append_all, append_all-offset}
use sqlite_rs.Pager.Wal.Recovery.{log_of, committed_pages-log_of, uncommitted_dropped}
use sqlite_rs.Pager.Wal.Reopen.{open_existing-log_of, open_existing-resume_hint}

-- Small pages, which the format does not know, keep the runs short.
abbrev small : WalHeader
small = new from_be true 8 11 12 1

abbrev frame : ℕ → ℕ → ℕ → Frame
frame n b size = record {
  page_number = n;
  content = b ∷ 0 ∷ 0 ∷ 0 ∷ 0 ∷ 0 ∷ 0 ∷ b ∷ [];
  db_size = size;
}

-- Page 2 is committed with 5, and written again with 6 by a transaction that does not commit.
abbrev crashed : List Frame
crashed = frame 1 4 0 ∷ frame 2 5 2 ∷ frame 2 6 0 ∷ []

recovers_the_commit :
    ((committed_pages from_be small (log_of from_be small crashed)).0 2
      ≡ some (5 ∷ 0 ∷ 0 ∷ 0 ∷ 0 ∷ 0 ∷ 0 ∷ 5 ∷ []))
    × ((committed_pages from_be small (log_of from_be small crashed)).1 ≡ 2)
    × ((committed_pages from_be small (log_of from_be small crashed)).0 3 ≡ none)
unfolding log_of append_all append_frame after_append frame_bytes frame_prefix frame_header
    first_offset serialize checksummed_words checksum_words magic_of new checksum checksum_step
    read_word words to_be from_be from_be_loop committed_pages scan_loop read_frame check_frame
    after_frame frame_size apply_frame unwind read_u32_opt same_checksum slice
recovers_the_commit = (refl, refl, refl)

three_frames : frame_count (append_all from_be (writer_at (tt {0}) small 32 (0, 0)) crashed) ≡ 3
unfolding append_all append_frame frame_bytes frame_prefix frame_header after_append first_offset
    frame_count frame_size new words to_be
three_frames = refl

abbrev sealed_header : WalHeader
sealed_header = new from_be true 512 11 12 1

size_512 : valid_page_size 512 ≡ true
unfolding valid_page_size is_power_of_two some_power
size_512 = refl

sealed : IsSealed from_be sealed_header
sealed =
    new-IsSealed from_be true 512 11 12 1 size_512 (omega arith) (omega arith) (omega arith)
      (omega arith)

abbrev blank_frame : ℕ → ℕ → Frame
blank_frame n size = record { page_number = n; content = zeros 512; db_size = size }

blank_frame-IsFrame : (n size : ℕ) → IsFrame sealed_header (blank_frame 7 0)
unfolding new
blank_frame-IsFrame n size = (length-zeros 512, omega arith, omega arith)

blank_nine-IsFrame : IsFrame sealed_header (blank_frame 3 9)
unfolding new
blank_nine-IsFrame = (length-zeros 512, omega arith, omega arith)

committed_pages-publish_example :
    committed_pages from_be small (1 ∷ 2 ∷ [])
    ≡ publish no_pages no_pages 0 (frames_of from_be small (1 ∷ 2 ∷ []))
committed_pages-publish_example = committed_pages-publish from_be small (1 ∷ 2 ∷ [])

committed_pages-log_of_example :
    committed_pages from_be sealed_header
      (log_of from_be sealed_header (blank_frame 3 9 ∷ []) ++ (5 ∷ 6 ∷ []))
    ≡ publish no_pages no_pages 0 (blank_frame 3 9 ∷ [])
unfolding new
committed_pages-log_of_example =
    committed_pages-log_of from_be sealed_header sealed (blank_frame 3 9 ∷ [])
      (blank_nine-IsFrame, tt) (omega arith) (5 ∷ 6 ∷ []) (omega arith)

uncommitted_dropped_example :
    committed_pages from_be sealed_header
      (log_of from_be sealed_header ((blank_frame 3 9 ∷ []) ++ (blank_frame 7 0 ∷ [])) ++ (5 ∷ []))
    ≡ committed_pages from_be sealed_header (log_of from_be sealed_header (blank_frame 3 9 ∷ []))
unfolding new
uncommitted_dropped_example =
    uncommitted_dropped from_be sealed_header sealed (blank_frame 3 9 ∷ []) (blank_frame 7 0 ∷ [])
      (5 ∷ []) (blank_nine-IsFrame, tt) (blank_frame-IsFrame 7 0, tt) (refl, tt) (omega arith)
      (omega arith)

parse-serialize_example :
    parse from_be {V = ℕ} (serialize sealed_header ++ (1 ∷ [])) ≡ ok sealed_header
parse-serialize_example = parse-serialize {V = ℕ} from_be sealed_header (1 ∷ []) sealed

-- A disk with one log of a single committed frame, 568 bytes; `read_torn` has one byte more.
abbrev one_commit : List ℕ
one_commit = log_of from_be sealed_header (blank_frame 3 9 ∷ [])

abbrev write_at : Unit {0} → List ℕ → ℕ → Result ℕ (Unit {0})
write_at file bytes at = ok tt

abbrev sync_file : Unit {0} → Result ℕ (Unit {0})
sync_file file = ok tt

abbrev size_of : Unit {0} → Result ℕ ℕ
size_of file = ok 568

abbrev read_at : Unit {0} → ℕ → ℕ → Result ℕ (List ℕ)
read_at file n at = if n == 32 then ok (serialize sealed_header) else ok one_commit

abbrev read_torn : Unit {0} → ℕ → ℕ → Result ℕ (List ℕ)
read_torn file n at = ok (one_commit ++ (1 ∷ []))

abbrev last_writer : WalWriter (Unit {0})
last_writer =
    append_all from_be (writer_at tt sealed_header 32 (sealed_header.header_checksum))
      (blank_frame 3 9 ∷ [])

small_log : length (blank_frame 3 9 ∷ []) * (24 + sealed_header.page_size) < 2 ^ 59
unfolding new
small_log = omega arith

last_offset : last_writer.offset ≡ 568
last_offset =
    let sum = sealed_header.header_checksum in
    let bytes =
      length-frames_bytes from_be sealed_header (blank_frame 3 9 ∷ []) sum
        (blank_nine-IsFrame, tt) in
    let at =
      append_all-offset from_be (blank_frame 3 9 ∷ []) (writer_at (tt {0}) sealed_header 32 sum) in
    unfold new in omega (arith, bytes, at)

open_existing-log_of_example :
    open_existing from_be write_at sync_file size_of read_torn tt 512 none
    ≡ ok (writer_at tt sealed_header (last_writer.offset) (last_writer.running))
unfolding new
open_existing-log_of_example =
    open_existing-log_of from_be write_at sync_file size_of read_torn sealed_header sealed
      (blank_frame 3 9 ∷ []) (blank_nine-IsFrame, tt) small_log tt 568 (1 ∷ []) (omega arith) refl
      refl

open_existing-resume_hint_example :
    open_existing from_be write_at sync_file size_of read_at tt 512 (some (resume_hint last_writer))
    ≡ open_existing from_be write_at sync_file size_of read_at tt 512 none
unfolding new
open_existing-resume_hint_example =
    open_existing-resume_hint from_be write_at sync_file size_of read_at sealed_header sealed
      (blank_frame 3 9 ∷ []) (blank_nine-IsFrame, tt) small_log tt (sym (ap ok last_offset))
      (ap (λ (n : ℕ). read_at tt n 0) last_offset) refl
