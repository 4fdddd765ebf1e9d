-- ===== src/Vdbe/Affinity.antt =====
-- vdbe/affinity.rs: affinities of declared types, their bytes in programs, and comparisons.
pub mod Laws
use sqlite_rs.Prelude.{
  ℕ, ◌+◌, ◌-◌, ◌==◌, leb, Bool, true, false, ◌&&◌, ◌||◌, if◌then◌else◌, List, [], ◌∷◌, Option, none,
  some,
}

pub data Affinity : Type 0 where
  text numeric integer real blob : Affinity

-- `to_ascii_uppercase` of one character.
unfoldable pub ascii_uppercase : ℕ → ℕ
ascii_uppercase c = if leb 97 c && leb c 122 then c - 32 else c

unfoldable pub to_ascii_uppercase : List ℕ → List ℕ
to_ascii_uppercase [] = []
to_ascii_uppercase (c ∷ cs) = ascii_uppercase c ∷ to_ascii_uppercase cs

unfoldable pub starts_with : List ℕ → List ℕ → Bool
starts_with s [] = true
starts_with [] (p ∷ ps) = false
starts_with (c ∷ cs) (p ∷ ps) = (c == p) && starts_with cs ps

-- `str::contains`
unfoldable pub contains : List ℕ → List ℕ → Bool
contains [] word = starts_with [] word
contains (c ∷ cs) word = starts_with (c ∷ cs) word || contains cs word

unfoldable pub is_empty : List ℕ → Bool
is_empty [] = true
is_empty (c ∷ cs) = false

-- The words, in ASCII: INT, CHAR, CLOB, TEXT, BLOB, REAL, FLOA, DOUB.
unfoldable pub affinity_of_upper : List ℕ → Affinity
affinity_of_upper upper =
    if contains upper (73 ∷ 78 ∷ 84 ∷ [])
    then integer
    else if contains upper (67 ∷ 72 ∷ 65 ∷ 82 ∷ [])
        || contains upper (67 ∷ 76 ∷ 79 ∷ 66 ∷ [])
        || contains upper (84 ∷ 69 ∷ 88 ∷ 84 ∷ [])
    then text
    else if contains upper (66 ∷ 76 ∷ 79 ∷ 66 ∷ []) || is_empty upper
    then blob
    else if contains upper (82 ∷ 69 ∷ 65 ∷ 76 ∷ [])
        || contains upper (70 ∷ 76 ∷ 79 ∷ 65 ∷ [])
        || contains upper (68 ∷ 79 ∷ 85 ∷ 66 ∷ [])
    then real
    else numeric

unfoldable pub affinity_of : List ℕ → Affinity
affinity_of declared_type = affinity_of_upper (to_ascii_uppercase declared_type)

unfoldable pub to_p4_byte : Affinity → ℕ
to_p4_byte blob = 65
to_p4_byte text = 66
to_p4_byte numeric = 67
to_p4_byte integer = 68
to_p4_byte real = 69

unfoldable pub from_p4_byte : ℕ → Affinity
from_p4_byte byte =
    if byte == 66
    then text
    else if byte == 67
    then numeric
    else if byte == 68
    then integer
    else if byte == 69
    then real
    else blob

unfoldable pub is_numeric : Affinity → Bool
is_numeric numeric = true
is_numeric integer = true
is_numeric real = true
is_numeric text = false
is_numeric blob = false

unfoldable pub comparison_affinity : Option Affinity → Option Affinity → Affinity
comparison_affinity (some a) (some b) = if is_numeric a || is_numeric b then numeric else blob
comparison_affinity (some a) none = a
comparison_affinity none (some a) = a
comparison_affinity none none = blob
