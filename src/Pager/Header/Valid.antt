-- ===== src/Pager/Header/Valid.antt =====
-- What DatabaseHeader::parse promises of the header that it returns.
use sqlite_rs.Prelude.{
  ℕ, zero, suc, ◌^◌, ◌≤◌, ◌<◌, ◌≡◌, sym, arith, ◌==◌, ==_iff, Bool, true, false, ◌||◌, List, ◌⊎◌,
  inl, inr, Bool-cases,
}
use sqlite_rs.Prelude.Outcome.{ok}
use sqlite_rs.Pager.Header.{
  VersionField, DatabaseHeader, read_page_size, read_version_byte, read_reserved, parse, some_power,
  is_power_of_two, known_version, write_field, read_field,
}

or_right : {a b : Bool} → a ≡ false → (a || b) ≡ true → b ≡ true
or_right {a = true} e f = absurd (ground arith)
or_right {a = false} e f = f

some_power_sound : (n v : ℕ) → some_power n v ≡ true → (k : ℕ) × (v ≡ 2 ^ k) × (k < n)
unfolding some_power
some_power_sound zero v e = absurd (ground arith)
some_power_sound (suc n) v e = elim (Bool-cases (2 ^ n == v)) [
  | inl found ↦ (n, sym ((==_iff (2 ^ n) v).0 found), omega arith)
  | inr other ↦
      let (k, f, small) = some_power_sound n v (or_right other e) in (k, f, omega (arith, small))
]

power_of_two_sound : (v : ℕ) → is_power_of_two v ≡ true → (k : ℕ) × (v ≡ 2 ^ k) × (k < 32)
unfolding is_power_of_two
power_of_two_sound v e = some_power_sound 32 v e

-- A page size that is read is a power of two, 512 at least.
read_page_size_valid :
    (buf : List ℕ) (size : ℕ)
    → read_page_size buf ≡ ok size
    → (512 ≤ size) × (is_power_of_two size ≡ true)
unfolding read_page_size
read_page_size_valid buf size e = ground arith

read_version_valid :
    (buf : List ℕ) (i v : ℕ) (field : VersionField)
    → read_version_byte buf i field ≡ ok v
    → (v ≡ 1) ⊎ (v ≡ 2)
unfolding read_version_byte known_version
read_version_valid buf i v field e = ground arith

read_reserved_valid : (buf : List ℕ) (size v : ℕ) → read_reserved buf size ≡ ok v → v < size
unfolding read_reserved
read_reserved_valid buf size v e = ground arith

-- The validity of a header.
unfoldable pub IsValid : DatabaseHeader → Type 0
IsValid h =
    ((k : ℕ) × (h.page_size ≡ 2 ^ k) × (k < 32))
    × (512 ≤ h.page_size)
    × ((h.write_version ≡ 1) ⊎ (h.write_version ≡ 2))
    × ((h.read_version ≡ 1) ⊎ (h.read_version ≡ 2))
    × (h.reserved_space < h.page_size)

-- The fields of a header that parses come from the checked readers.
parse_fields :
    (buf : List ℕ) (h : DatabaseHeader)
    → parse buf ≡ ok h
    → (read_page_size buf ≡ ok (h.page_size))
      × (read_version_byte buf 18 write_field ≡ ok (h.write_version))
      × (read_version_byte buf 19 read_field ≡ ok (h.read_version))
      × (read_reserved buf (h.page_size) ≡ ok (h.reserved_space))
unfolding parse
parse_fields buf h e = ground arith

-- A header that parses has a page size that is a power of two from 512 on, versions 1 or 2, and a
-- reserved space smaller than the page.
parse-IsValid : (buf : List ℕ) (h : DatabaseHeader) → parse buf ≡ ok h → IsValid h
unfolding IsValid
parse-IsValid buf h e =
    let (size, w, r, v) = parse_fields buf h e in
    let (large, power) = read_page_size_valid buf (h.page_size) size in
    (
      power_of_two_sound (h.page_size) power,
      large,
      read_version_valid buf 18 (h.write_version) write_field w,
      read_version_valid buf 19 (h.read_version) read_field r,
      read_reserved_valid buf (h.page_size) (h.reserved_space) v,
    )
