-- ===== src/Vfs/Runs.antt =====
-- A log of one commit on a file in memory.
use sqlite_rs.Prelude.{ℕ, ◌≡◌, refl, arith, true, [], ◌∷◌}
use sqlite_rs.Prelude.Bytes.{from_be}
use sqlite_rs.Prelude.Outcome.{ok, ◌>>=◌}
use sqlite_rs.Pager.Header.{is_power_of_two, some_power}
use sqlite_rs.Pager.Freelist.{zeros}
use sqlite_rs.Pager.Freelist.Layout.{length-zeros}
use sqlite_rs.Pager.Wal.Header.{WalHeader, new, valid_page_size}
use sqlite_rs.Pager.Wal.Frames.{Frame, no_pages, committed_pages}
use sqlite_rs.Pager.Wal.Writer as W
use sqlite_rs.Pager.Wal.Writer.{WalWriter, create}
use sqlite_rs.Pager.Wal.Commits.{publish}
use sqlite_rs.Pager.Wal.Sealed.{IsSealed, new-IsSealed}
use sqlite_rs.Pager.Wal.RoundTrip.{IsFrame}
use sqlite_rs.Pager.Wal.Log.{append_all}
use sqlite_rs.Vfs.Memory.{MemoryVfsFile, read_at, write_at, size, sync}
use sqlite_rs.Vfs.Durable.{create-sync}

abbrev log_header : WalHeader
log_header = new from_be true 512 3 4 1

size_valid : valid_page_size 512 ≡ true
unfolding valid_page_size is_power_of_two some_power
size_valid = refl

log_header-IsSealed : IsSealed from_be log_header
log_header-IsSealed =
    new-IsSealed from_be true 512 3 4 1 size_valid (omega arith) (omega arith) (omega arith)
      (omega arith)

abbrev first_page : Frame
first_page = record { page_number = 1; content = zeros 512; db_size = 1 }

first_page-IsFrame : IsFrame log_header first_page
unfolding new
first_page-IsFrame = (length-zeros 512, omega arith, omega arith)

abbrev empty_file : MemoryVfsFile
empty_file = record { contents = []; sync_calls = 0 }

create-sync_example :
    (w : WalWriter MemoryVfsFile) × ((create from_be {V = ℕ} write_at sync size read_at empty_file
          log_header
        >>= (λ w.
            W.sync from_be {V = ℕ} write_at sync size read_at
              (append_all from_be w (first_page ∷ []))))
      ≡ ok w)
    × (committed_pages from_be log_header (w.file.contents)
        ≡ publish no_pages no_pages 0 (first_page ∷ []))
unfolding new
create-sync_example =
    create-sync from_be {V = ℕ} log_header log_header-IsSealed first_page [] empty_file refl
      (first_page-IsFrame, tt) (omega arith)
