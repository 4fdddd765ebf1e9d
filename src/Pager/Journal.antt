-- ===== src/Pager/Journal.antt =====
-- pager/journal.rs: the rollback journal's header, its page records, and recovery from it.
pub mod RoundTrip
mod Runs
use sqlite_rs.Prelude.{
  ℕ, zero, suc, ◌+◌, ◌-◌, ◌*◌, ◌%◌, ◌^◌, ◌==◌, ltb, leb, ◌&&◌, not, if◌then◌else◌, List, [], ◌∷◌,
  ◌++◌, length, take, drop, get_or, Option, none, some,
}
use sqlite_rs.Prelude.Outcome.{or_break, Result, ok, err, ok_or, guard, map_err, ◌>>=◌, ◌>>◌}
use sqlite_rs.Prelude.Bytes.{saturating_add, saturating_mul, slice, slice_from, to_be, from_be}
use sqlite_rs.Pager.Freelist.{zeros}

abbrev pub journal_header_len : ℕ
journal_header_len = 28

-- `V` is the error of the file system.
pub data JournalError (V : Type 0) : Type 0 where
  header_too_short : ℕ → JournalError V
  vfs : V → JournalError V

unfoldable pub record_len : ℕ → ℕ
record_len page_size = saturating_add (saturating_add 4 page_size) 4

pub record JournalHeader : Type 0 where
  n_rec : ℕ
  nonce : ℕ
  initial_page_count : ℕ
  sector_size : ℕ
  page_size : ℕ

-- `u32::from_be_bytes` of four of the header's bytes.
unfoldable pub be32 : List ℕ → ℕ → ℕ
be32 bytes from = from_be (take 4 (drop from bytes))

unfoldable pub parse : {V : Type 0} → List ℕ → Result (JournalError V) JournalHeader
parse buf = do
  bytes ← ok_or (slice buf 0 journal_header_len) (header_too_short (length buf))
  ok (record {
    n_rec = be32 bytes 8;
    nonce = be32 bytes 12;
    initial_page_count = be32 bytes 16;
    sector_size = be32 bytes 20;
    page_size = be32 bytes 24;
  })

-- The magic is eight bytes, so the fields fill the twenty-eight.
unfoldable pub serialize : JournalHeader → List ℕ → List ℕ
serialize h magic =
    magic
    ++ (to_be 4 (h.n_rec)
        ++ (to_be 4 (h.nonce)
            ++ (to_be 4 (h.initial_page_count)
                ++ (to_be 4 (h.sector_size) ++ to_be 4 (h.page_size)))))

-- The loop of page_checksum, on fuel: every round moves the index down by 200 or ends.
unfoldable pub checksum_loop : ℕ → List ℕ → ℕ → ℕ → ℕ
checksum_loop zero page cksum idx = cksum
checksum_loop (suc fuel) page cksum idx =
    let rest = checksum_loop fuel page ((cksum + get_or page idx 0) % 2 ^ 32) (idx - 200) in
    if ltb 0 idx && ltb idx (length page) then rest else cksum

unfoldable pub page_checksum : ℕ → List ℕ → ℕ
page_checksum nonce page = checksum_loop (length page) page nonce (length page - 200)

-- The buffer of write_record: page number, content, checksum.
unfoldable pub record_bytes : ℕ → ℕ → List ℕ → List ℕ
record_bytes nonce page_num original =
    to_be 4 page_num ++ (original ++ to_be 4 (page_checksum nonce original))

-- The sector that `create` writes at offset 0: the header, then zeros.
unfoldable pub header_region :
    {V : Type 0} → JournalHeader → List ℕ → Result (JournalError V) (List ℕ)
header_region h magic = do
  guard (leb journal_header_len (h.sector_size)) (header_too_short (h.sector_size))
  ok (serialize h magic ++ zeros (h.sector_size - journal_header_len))

unfoldable pub page_checked : ℕ → List ℕ → ℕ → List ℕ → Option (ℕ × List ℕ)
page_checked nonce number checksum page =
    if page_checksum nonce page == checksum then some (from_be number, page) else none

-- One round of `recover` up to its checksum test: `none` for each of its breaks.
unfoldable pub read_record : JournalHeader → List ℕ → ℕ → Option (ℕ × List ℕ)
read_record h journal offset =
    or_break (slice journal offset (saturating_add offset (record_len (h.page_size)))) (λ found.
      or_break (slice found 0 4) (λ number.
        or_break (slice found 4 (saturating_add 4 (h.page_size))) (λ page.
          or_break (slice_from found (saturating_add 4 (h.page_size))) (λ sum.
            if length sum == 4 then page_checked (h.nonce) number (from_be sum) page else none))))

unfoldable pub record_offset : JournalHeader → ℕ → ℕ
record_offset h index =
    saturating_add (h.sector_size) (saturating_mul index (record_len (h.page_size)))

-- A file of the operating-system layer: its state `S` and its `write_at`.
module _ {V S : Type 0} (write_at : S → List ℕ → ℕ → Result V S) where
  -- Creates the journal on the opened file.
  unfoldable pub create : S → JournalHeader → List ℕ → Result (JournalError V) S
  create file h magic = do region ← header_region h magic; map_err vfs (write_at file region 0)

  unfoldable pub write_record : S → JournalHeader → ℕ → ℕ → List ℕ → Result (JournalError V) S
  write_record file h index page_num original =
      map_err vfs (write_at file (record_bytes (h.nonce) page_num original) (record_offset h index))

  -- `for index in 0..header.n_rec`, `left` rounds before its end.
  unfoldable pub recover_loop : ℕ → ℕ → JournalHeader → List ℕ → S → Result (JournalError V) S
  recover_loop zero index h journal db = ok db
  recover_loop (suc left) index h journal db =
      elim (read_record h journal (record_offset h index)) [
        | none ↦ ok db
        | some found ↦
            map_err vfs (write_at db (found.1) (saturating_mul (found.0 - 1) (h.page_size)))
            >>= (λ db'. recover_loop left (index + 1) h journal db')
      ]

  -- The header also tells the initial page count and the page size.
  unfoldable pub recover : List ℕ → S → Result (JournalError V) (S × (ℕ × ℕ))
  recover journal db = do
    h ← parse journal
    db' ← recover_loop (h.n_rec) 0 h journal db
    ok (db', (h.initial_page_count, h.page_size))
