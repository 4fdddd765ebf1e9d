-- ===== src/Pager/Header/Runs.antt =====
-- Concrete runs of the database header.
use sqlite_rs.Prelude.{ℕ, ◌≡◌, refl, List, length, take}
use sqlite_rs.Prelude.Outcome.{ok, err}
use sqlite_rs.Prelude.Bytes.{slice, to_be, from_be, from_be_loop}
use sqlite_rs.Record.Value.{utf8}
use sqlite_rs.Pager.Freelist.{zeros}
use sqlite_rs.Pager.Header.{first_page_puts}
use sqlite_rs.Pager.Header.{
  too_short, invalid_magic, DatabaseHeader, legacy, read_u8, read_u32, bytes_equal, is_magic,
  has_magic, some_power, is_power_of_two, resolve_page_size, known_version, text_encoding_of,
  read_page_size, read_version_byte, read_reserved, parse, journal_mode, put, put_all,
  new_empty_page1,
}

abbrev empty_512 : DatabaseHeader
empty_512 = record {
  page_size = 512;
  write_version = 1;
  read_version = 1;
  reserved_space = 0;
  page_count = 1;
  freelist_trunk_page = 0;
  freelist_page_count = 0;
  schema_cookie = 0;
  schema_format = 4;
  largest_root_btree_page = 0;
  text_encoding = utf8;
  user_version = 0;
  application_id = 0;
}

abbrev first_bytes : List ℕ
first_bytes = take 100 (new_empty_page1 512)

parses_empty_page : parse first_bytes ≡ ok empty_512
unfolding parse has_magic is_magic bytes_equal read_page_size read_u8 resolve_page_size
    is_power_of_two some_power read_version_byte known_version read_reserved read_u32
    text_encoding_of slice to_be from_be from_be_loop new_empty_page1 first_page_puts put_all put
    zeros
parses_empty_page = refl

not_a_database : parse (zeros 100) ≡ err invalid_magic
unfolding parse has_magic is_magic bytes_equal slice zeros
not_a_database = refl

cut_off : parse (zeros 99) ≡ err (too_short 99)
unfolding parse zeros
cut_off = refl

empty_is_legacy : journal_mode empty_512 ≡ legacy
unfolding journal_mode
empty_is_legacy = refl

first_bytes-length : length first_bytes ≡ 100
unfolding new_empty_page1 first_page_puts put_all put zeros to_be
first_bytes-length = refl
