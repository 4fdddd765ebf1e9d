-- ===== src/Pager/Header.antt =====
-- header.rs: the 100-byte header at the start of the database file.
pub mod Prefix
pub mod Valid
pub mod NewPage
mod Runs
use sqlite_rs.Prelude.{
  ℕ, zero, suc, ◌+◌, ◌-◌, ◌*◌, ◌%◌, ◌^◌, ◌==◌, leb, ltb, Bool, true, false, not, ◌&&◌, ◌||◌,
  if◌then◌else◌, List, [], ◌∷◌, ◌++◌, length, take, drop, get_elem?, Option, none, some,
}
use sqlite_rs.Prelude.Outcome.{Result, ok, err, ok_or, guard, ◌>>=◌, ◌>>◌}
use sqlite_rs.Prelude.Bytes.{saturating_add, usize_max, slice, to_be, from_be}
use sqlite_rs.Pager.Freelist.{zeros}
use sqlite_rs.Record.Value.{TextEncoding, utf8, utf16_le, utf16_be}

abbrev pub header_len : ℕ
header_len = 100

abbrev pub default_page_size : ℕ
default_page_size = 4096

-- b"SQLite format 3\0"
abbrev pub magic : List ℕ
magic = 83 ∷ 81 ∷ 76 ∷ 105 ∷ 116 ∷ 101 ∷ 32 ∷ 102 ∷ 111 ∷ 114 ∷ 109 ∷ 97 ∷ 116 ∷ 32 ∷ 51 ∷ 0 ∷ []

pub data VersionField : Type 0 where
  write_field read_field : VersionField

pub data HeaderError : Type 0 where
  too_short : ℕ → HeaderError
  invalid_magic : HeaderError
  invalid_page_size : ℕ → HeaderError
  invalid_file_format_version : VersionField → ℕ → HeaderError
  invalid_reserved_space : ℕ → ℕ → HeaderError
  invalid_text_encoding : ℕ → HeaderError

pub data JournalMode : Type 0 where
  legacy wal : JournalMode

pub record DatabaseHeader : Type 0 where
  page_size : ℕ
  write_version : ℕ
  read_version : ℕ
  reserved_space : ℕ
  page_count : ℕ
  freelist_trunk_page : ℕ
  freelist_page_count : ℕ
  schema_cookie : ℕ
  schema_format : ℕ
  largest_root_btree_page : ℕ
  text_encoding : TextEncoding
  user_version : ℕ
  application_id : ℕ

unfoldable pub read_u8 : List ℕ → ℕ → Result HeaderError ℕ
read_u8 buf offset = ok_or (get_elem? buf offset) (too_short (length buf))

-- `offset.checked_add(4)`, then the slice and its conversion to four bytes.
unfoldable pub read_u32 : List ℕ → ℕ → Result HeaderError ℕ
read_u32 buf offset = do
  guard (leb (offset + 4) usize_max) (too_short (length buf))
  bytes ← ok_or (slice buf offset (offset + 4)) (too_short (length buf))
  if length bytes == 4 then ok (from_be bytes) else err (too_short (length buf))

unfoldable pub bytes_equal : List ℕ → List ℕ → Bool
bytes_equal [] [] = true
bytes_equal (x ∷ xs) (y ∷ ys) = (x == y) && bytes_equal xs ys
bytes_equal xs ys = false

unfoldable pub is_magic : Option (List ℕ) → Bool
is_magic none = false
is_magic (some s) = bytes_equal s magic

-- `buf.get(0..16) != Some(MAGIC.as_slice())`, negated
unfoldable pub has_magic : List ℕ → Bool
has_magic buf = is_magic (slice buf 0 16)

-- `u32::is_power_of_two`: some power of two below 2^32 is the number.
unfoldable pub some_power : ℕ → ℕ → Bool
some_power zero n = false
some_power (suc k) n = (2 ^ k == n) || some_power k n

unfoldable pub is_power_of_two : ℕ → Bool
is_power_of_two n = some_power 32 n

-- 1 stands for 65536.
unfoldable pub resolve_page_size : ℕ → ℕ
resolve_page_size raw = if raw == 1 then 65536 else raw

-- `matches!(version, 1 | 2)`
unfoldable pub known_version : ℕ → Bool
known_version v = (v == 1) || (v == 2)

unfoldable pub text_encoding_of : ℕ → Result HeaderError TextEncoding
text_encoding_of raw =
    if raw == 1
    then ok utf8
    else if raw == 2
    then ok utf16_le
    else if raw == 3
    then ok utf16_be
    else err (invalid_text_encoding raw)

-- `u16::from_be_bytes` of bytes 16 and 17
unfoldable pub read_page_size : List ℕ → Result HeaderError ℕ
read_page_size buf = do
  high ← read_u8 buf 16
  low ← read_u8 buf 17
  let raw = from_be (high ∷ low ∷ [])
  let size = resolve_page_size raw
  guard (not (ltb size 512 || not (is_power_of_two size))) (invalid_page_size raw)
  ok size

unfoldable pub read_version_byte : List ℕ → ℕ → VersionField → Result HeaderError ℕ
read_version_byte buf offset field = do
  version ← read_u8 buf offset
  guard (known_version version) (invalid_file_format_version field version)
  ok version

unfoldable pub read_reserved : List ℕ → ℕ → Result HeaderError ℕ
read_reserved buf size = do
  reserved ← read_u8 buf 20
  guard (not (leb size reserved)) (invalid_reserved_space reserved size)
  ok reserved

unfoldable pub parse : List ℕ → Result HeaderError DatabaseHeader
parse buf = do
  guard (not (ltb (length buf) header_len)) (too_short (length buf))
  guard (has_magic buf) invalid_magic
  size ← read_page_size buf
  write_v ← read_version_byte buf 18 write_field
  read_v ← read_version_byte buf 19 read_field
  reserved ← read_reserved buf size
  pages ← read_u32 buf 28
  trunk ← read_u32 buf 32
  free ← read_u32 buf 36
  cookie ← read_u32 buf 40
  format ← read_u32 buf 44
  largest ← read_u32 buf 52
  raw_encoding ← read_u32 buf 56
  encoding ← text_encoding_of raw_encoding
  user ← read_u32 buf 60
  application ← read_u32 buf 68
  ok (record {
    page_size = size;
    write_version = write_v;
    read_version = read_v;
    reserved_space = reserved;
    page_count = pages;
    freelist_trunk_page = trunk;
    freelist_page_count = free;
    schema_cookie = cookie;
    schema_format = format;
    largest_root_btree_page = largest;
    text_encoding = encoding;
    user_version = user;
    application_id = application;
  })

unfoldable pub journal_mode : DatabaseHeader → JournalMode
journal_mode h = if (h.write_version == 2) && (h.read_version == 2) then wal else legacy

-- The subtraction of the source does not underflow on a header that `parse` gave.
unfoldable pub usable_page_size : DatabaseHeader → ℕ
usable_page_size h = h.page_size - h.reserved_space

-- Nothing is written where the bytes do not fit.
unfoldable pub put : List ℕ → ℕ → List ℕ → List ℕ
put buf offset bytes =
    if leb (saturating_add offset (length bytes)) (length buf)
    then take offset buf ++ (bytes ++ drop (offset + length bytes) buf)
    else buf

unfoldable pub put_all : List ℕ → List (ℕ × List ℕ) → List ℕ
put_all buf [] = buf
put_all buf ((offset, bytes) ∷ rest) = put_all (put buf offset bytes) rest

unfoldable pub first_page_puts : ℕ → List (ℕ × List ℕ)
first_page_puts page_size =
    (0, magic)
    ∷ (16, to_be 2 (if page_size == 65536 then 1 else page_size % 2 ^ 16))
    ∷ (18, 1 ∷ [])
    ∷ (19, 1 ∷ [])
    ∷ (21, 64 ∷ [])
    ∷ (22, 32 ∷ [])
    ∷ (23, 32 ∷ [])
    ∷ (28, to_be 4 1)
    ∷ (44, to_be 4 4)
    ∷ (56, to_be 4 1)
    ∷ (header_len, 0x0d ∷ [])
    ∷ (header_len + 5, to_be 2 (if page_size == 65536 then 0 else page_size % 2 ^ 16))
    ∷ []

unfoldable pub new_empty_page1 : ℕ → List ℕ
new_empty_page1 page_size = put_all (zeros page_size) (first_page_puts page_size)
