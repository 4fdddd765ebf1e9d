-- ===== src/Pager/Journal/Runs.antt =====
-- Concrete runs of the rollback journal, with a database file as the list of the writes to it.
use sqlite_rs.Prelude.{ℕ, ◌≡◌, refl, arith, List, [], ◌∷◌, ◌++◌, some}
use sqlite_rs.Prelude.Outcome.{Result, ok}
use sqlite_rs.Prelude.Bytes.{slice, slice_from, to_be, from_be, from_be_loop}
use sqlite_rs.Pager.Freelist.{zeros}
use sqlite_rs.Pager.Journal.{
  JournalHeader, record_len, be32, parse, serialize, checksum_loop, page_checksum, record_bytes,
  page_checked, read_record, record_offset, recover_loop, recover,
}
use sqlite_rs.Pager.Journal.RoundTrip.{read_record-record_bytes}

abbrev small_header : JournalHeader
small_header = record {
  n_rec = 2;
  nonce = 77;
  initial_page_count = 9;
  sector_size = 32;
  page_size = 4;
}

abbrev some_magic : List ℕ
some_magic = 217 ∷ 213 ∷ 5 ∷ 249 ∷ 32 ∷ 161 ∷ 99 ∷ 215 ∷ []

abbrev one_page : List ℕ
one_page = 1 ∷ 2 ∷ 3 ∷ 4 ∷ []

-- The writes to a database file, the last one first.
log_write : List (ℕ × List ℕ) → List ℕ → ℕ → Result ℕ (List (ℕ × List ℕ))
log_write log bytes offset = ok ((offset, bytes) ∷ log)

-- The second record's last byte is damaged, so recovery stops before it.
recovers_the_first :
    recover log_write
      (serialize small_header some_magic
        ++ (zeros 4 ++ (record_bytes 77 3 one_page ++ (to_be 4 4 ++ (one_page ++ to_be 4 78)))))
      []
    ≡ ok ((8, one_page) ∷ [], (9, 4))
unfolding recover recover_loop parse be32 serialize zeros record_bytes page_checksum checksum_loop
    read_record page_checked record_offset record_len slice slice_from to_be from_be from_be_loop
    log_write
recovers_the_first = refl

header_comes_back : parse {V = ℕ} (serialize small_header some_magic) ≡ ok small_header
unfolding parse be32 serialize slice to_be from_be from_be_loop
header_comes_back = refl

read_record-record_bytes_example :
    read_record small_header ((9 ∷ 9 ∷ []) ++ (record_bytes 77 3 one_page ++ (5 ∷ []))) 2
    ≡ some (3, one_page)
read_record-record_bytes_example =
    read_record-record_bytes small_header (9 ∷ 9 ∷ []) (5 ∷ []) one_page 2 3 (omega arith)
      (omega arith) refl refl (omega arith)
