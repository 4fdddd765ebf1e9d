-- ===== src/Pager/Wal/Header.antt =====
-- The first part of pager/wal.rs: the log's header and the checksum.
use sqlite_rs.Prelude.{
  ℕ, ◌+◌, ◌%◌, ◌^◌, ◌==◌, ltb, Bool, true, false, not, ◌&&◌, ◌||◌, if◌then◌else◌, List, [], ◌∷◌,
  ◌++◌, length, take, Option, none, some,
}
use sqlite_rs.Prelude.Outcome.{Result, ok, err, ok_or, guard, or_break, ◌>>=◌, ◌>>◌}
use sqlite_rs.Prelude.Bytes.{usize_max, saturating_add, slice, from_be}
use sqlite_rs.Prelude.Words.{words}
use sqlite_rs.Pager.Header.{is_power_of_two}

abbrev pub wal_header_len : ℕ
wal_header_len = 32

abbrev pub frame_header_len : ℕ
frame_header_len = 24

abbrev pub format_version_number : ℕ
format_version_number = 3_007_000

-- `V` is the error of the file system.
pub data WalError (V : Type 0) : Type 0 where
  header_too_short : ℕ → WalError V
  invalid_magic : ℕ → WalError V
  invalid_page_size : ℕ → WalError V
  -- stored, computed
  header_checksum_mismatch : ℕ × ℕ → ℕ × ℕ → WalError V
  vfs : V → WalError V

pub record WalHeader : Type 0 where
  pub native_checksum : Bool
  pub page_size : ℕ
  pub salt1 : ℕ
  pub salt2 : ℕ
  pub format_version : ℕ
  pub checkpoint_seq : ℕ
  pub header_checksum : ℕ × ℕ

unfoldable pub read_u32 : {V : Type 0} → List ℕ → ℕ → Result (WalError V) ℕ
read_u32 buf offset = do
  bytes ← ok_or (slice buf offset (saturating_add offset 4)) (header_too_short (length buf))
  if length bytes == 4 then ok (from_be bytes) else err (header_too_short (length buf))

-- `offset.checked_add(4)?`, then the slice.
unfoldable pub read_u32_opt : List ℕ → ℕ → Option ℕ
read_u32_opt buf offset =
    if ltb usize_max (offset + 4)
    then none
    else or_break (slice buf offset (offset + 4))
        (λ bytes. if length bytes == 4 then some (from_be bytes) else none)

unfoldable pub magic_of : Bool → ℕ
magic_of native = if native then 0x377f0682 else 0x377f0683

unfoldable pub checksum_kind : {V : Type 0} → ℕ → Result (WalError V) Bool
checksum_kind magic =
    if magic == 0x377f0682
    then ok true
    else if magic == 0x377f0683
    then ok false
    else err (invalid_magic magic)

pairs_equal : ℕ × ℕ → ℕ × ℕ → Bool
pairs_equal (a, b) (c, d) = (a == c) && (b == d)

unfoldable pub same_checksum : ℕ × ℕ → ℕ × ℕ → Bool
unfolding pairs_equal
same_checksum p q = pairs_equal p q

unfoldable pub valid_page_size : ℕ → Bool
valid_page_size size = not (ltb size 512 || not (is_power_of_two size) || ltb 65536 size)

-- The words of the header before its checksum, and the whole of it: each is a slice of the array
-- that the source fills.
unfoldable pub checksummed_words : WalHeader → List ℕ
checksummed_words h =
    magic_of (h.native_checksum)
    ∷ h.format_version
    ∷ h.page_size
    ∷ h.checkpoint_seq
    ∷ h.salt1
    ∷ h.salt2
    ∷ []

unfoldable pub checksum_words : ℕ × ℕ → List ℕ
checksum_words (c1, c2) = c1 ∷ c2 ∷ []

unfoldable pub serialize : WalHeader → List ℕ
serialize h = words (checksummed_words h ++ checksum_words (h.header_checksum))

-- `u32::from_ne_bytes`, in the byte order of the machine.
module _ (from_ne : List ℕ → ℕ) where
  unfoldable pub read_word : Bool → List ℕ → ℕ
  read_word native b = if native then from_ne b else from_be b

  -- One round of the loop: the words are four bytes each.
  unfoldable pub checksum_step : Bool → List ℕ → List ℕ → ℕ × ℕ → ℕ × ℕ
  checksum_step native w0 w1 (s1, s2) =
      let s1' = ((s1 + read_word native w0) % 2 ^ 32 + s2) % 2 ^ 32 in
      (s1', ((s2 + read_word native w1) % 2 ^ 32 + s1') % 2 ^ 32)

  -- The loop over the chunks of eight bytes; what is left over is ignored.
  unfoldable pub checksum : Bool → List ℕ → ℕ × ℕ → ℕ × ℕ
  checksum native (a ∷ b ∷ c ∷ d ∷ e ∷ f ∷ g ∷ h ∷ rest) init =
      checksum native rest (checksum_step native (a ∷ b ∷ c ∷ d ∷ []) (e ∷ f ∷ g ∷ h ∷ []) init)
  checksum native rest init = init

  unfoldable pub parse : {V : Type 0} → List ℕ → Result (WalError V) WalHeader
  parse bytes = do
    guard (not (ltb (length bytes) wal_header_len)) (header_too_short (length bytes))
    magic ← read_u32 bytes 0
    native ← checksum_kind magic
    size ← read_u32 bytes 8
    guard (valid_page_size size) (invalid_page_size size)
    version ← read_u32 bytes 4
    seq ← read_u32 bytes 12
    s1 ← read_u32 bytes 16
    s2 ← read_u32 bytes 20
    c1 ← read_u32 bytes 24
    c2 ← read_u32 bytes 28
    checksummed ← ok_or (slice bytes 0 24) (header_too_short (length bytes))
    guard (same_checksum (checksum native checksummed (0, 0)) (c1, c2))
        (header_checksum_mismatch (c1, c2) (checksum native checksummed (0, 0)))
    ok (record {
      native_checksum = native;
      page_size = size;
      salt1 = s1;
      salt2 = s2;
      format_version = version;
      checkpoint_seq = seq;
      header_checksum = (c1, c2);
    })

  -- `WalHeader::new`: `&bytes[0..24]` of its serialization is checksummed.
  unfoldable pub new : Bool → ℕ → ℕ → ℕ → ℕ → WalHeader
  new native size s1 s2 seq =
      let blank : WalHeader = record {
        native_checksum = native;
        page_size = size;
        salt1 = s1;
        salt2 = s2;
        format_version = format_version_number;
        checkpoint_seq = seq;
        header_checksum = (0, 0);
      } in
      record blank { header_checksum = checksum native (take 24 (serialize blank)) (0, 0) }
