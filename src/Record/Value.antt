-- ===== src/Record/Value.antt =====
-- record/value.rs, and Rust's fixed-width numbers as far as the record format uses them: an i64 is
-- an integer in range, an f64 its 64-bit pattern (`to_bits`), a text its scalar values.
use sqlite_rs.Prelude.{
  ℕ, ◌+◌, ◌-◌, ◌/◌, ◌%◌, ◌^◌, ◌<◌, Bool, ◌&&◌, not, ltb, ◌==◌, if◌then◌else◌, List,
}
use sqlite_rs.Prelude.Int.{ℤ, pos, negsuc}
use sqlite_rs.Prelude.Bytes.{All, IsByte, IsU64}
use sqlite_rs.Prelude.Text.{IsScalar}

pub data Value : Type 0 where
  null : Value
  integer : ℤ → Value
  real : ℕ → Value
  text : List ℕ → Value
  blob : List ℕ → Value

pub data TextEncoding : Type 0 where
  utf8 utf16_le utf16_be : TextEncoding

-- i fits `w + 1` bits, two's complement.
abbrev pub FitsSigned : ℕ → ℤ → Type 0
FitsSigned w (pos n) = n < 2 ^ w
FitsSigned w (negsuc n) = n < 2 ^ w

abbrev pub IsI64 : ℤ → Type 0
IsI64 i = FitsSigned 63 i

-- `iN::try_from(i).is_ok()`, also the range tests on I24 and I48, for `w + 1` bits.
abbrev pub fits_signed : ℕ → ℤ → Bool
fits_signed w (pos n) = ltb n (2 ^ w)
fits_signed w (negsuc n) = ltb n (2 ^ w)

-- `i as uN`: the low `w` bits of the two's complement pattern.
abbrev pub as_unsigned : ℕ → ℤ → ℕ
as_unsigned w (pos n) = n % 2 ^ w
as_unsigned w (negsuc n) = 2 ^ w - 1 - n % 2 ^ w

-- The integer of a pattern of `w + 1` bits.
abbrev pub as_signed : ℕ → ℕ → ℤ
as_signed w v = if ltb v (2 ^ w) then pos v else negsuc (2 ^ w + 2 ^ w - 1 - v)

-- `f64::is_nan` on the bits.
abbrev pub is_nan : ℕ → Bool
is_nan bits = (bits / 2 ^ 52 % 2 ^ 11 == 2047) && not (bits % 2 ^ 52 == 0)

-- The values that a Rust `Value` can hold.
abbrev pub IsValue : Value → Type 0
IsValue null = Unit {0}
IsValue (integer i) = IsI64 i
IsValue (real bits) = IsU64 bits
IsValue (text cs) = All IsScalar cs
IsValue (blob bytes) = All IsByte bytes
