-- ===== src/Prelude/Text.antt =====
-- What the program uses of Rust's `str`: a text is its list of Unicode scalar values, with the
-- standard library's UTF-8 and UTF-16 conversions.
use sqlite_rs.Prelude.{
  ℕ, ◌+◌, ◌-◌, ◌*◌, ◌/◌, ◌%◌, ◌≤◌, ◌<◌, ◌≡◌, refl, ◌⊎◌, ◌∙◌, ap, arith, Bool, ◌&&◌, ◌||◌, ltb, leb,
  if◌then◌else◌, List, [], ◌∷◌, ◌++◌, Option, none, some, not, Bool-cases, inl, inr, true, false,
  lt→ltb,
}
use sqlite_rs.Prelude.Bytes.{All}

abbrev pub IsScalar : ℕ → Type 0
IsScalar c = (c < 0xd800) ⊎ ((0xe000 ≤ c) × (c < 0x110000))

unfoldable pub is_scalar : ℕ → Bool
is_scalar c = ltb c 0xd800 || (leb 0xe000 c && ltb c 0x110000)

-- UTF-8 of one scalar value.
unfoldable pub utf8_char : ℕ → List ℕ
utf8_char c =
    if ltb c 0x80
    then c ∷ []
    else if ltb c 0x800
    then (0xc0 + c / 64) ∷ (0x80 + c % 64) ∷ []
    else if ltb c 0x10000
    then (0xe0 + c / 4096) ∷ (0x80 + c / 64 % 64) ∷ (0x80 + c % 64) ∷ []
    else (0xf0 + c / 262144) ∷ (0x80 + c / 4096 % 64) ∷ (0x80 + c / 64 % 64) ∷ (0x80 + c % 64) ∷ []

-- `s.as_bytes()`
unfoldable pub as_bytes : List ℕ → List ℕ
as_bytes [] = []
as_bytes (c ∷ cs) = utf8_char c ++ as_bytes cs

-- Between two characters, or inside one: continuation bytes still to come, the least value that
-- needs so many bytes, the bits so far.
pub data Utf8State : Type 0 where
  start : Utf8State
  inside : ℕ → ℕ → ℕ → Utf8State

-- Decoded characters in front of what the rest decodes to.
abbrev pub emit : List ℕ → Option (List ℕ) → Option (List ℕ)
emit out none = none
emit out (some cs) = some (out ++ cs)

-- One byte: the next state and the character that it completes; `none` where it is not UTF-8.
unfoldable pub utf8_step : Utf8State → ℕ → Option (Utf8State × List ℕ)
utf8_step start b =
    if ltb b 0x80
    then some (start, b ∷ [])
    else if ltb b 0xc2
    then none
    else if ltb b 0xe0
    then some (inside 1 0x80 (b - 0xc0), [])
    else if ltb b 0xf0
    then some (inside 2 0x800 (b - 0xe0), [])
    else if ltb b 0xf5
    then some (inside 3 0x10000 (b - 0xf0), [])
    else none
utf8_step (inside need low acc) b =
    let acc' = acc * 64 + (b - 0x80) in
    if not (leb 0x80 b && ltb b 0xc0)
    then none
    else if ltb 1 need
    then some (inside (need - 1) low acc', [])
    else if leb low acc' && is_scalar acc'
    then some (start, acc' ∷ [])
    else none

unfoldable pub utf8_run : Utf8State → List ℕ → Option (List ℕ)
utf8_run start [] = some []
utf8_run (inside need low acc) [] = none
utf8_run s (b ∷ rest) = elim (utf8_step s b) [
  | none ↦ none
  | some (s', out) ↦ emit out (utf8_run s' rest)
]

-- `str::from_utf8`
unfoldable pub from_utf8 : List ℕ → Option (List ℕ)
from_utf8 bytes = utf8_run start bytes

-- `s.encode_utf16()`
unfoldable pub utf16_char : ℕ → List ℕ
utf16_char c =
    if ltb c 0x10000
    then c ∷ []
    else (0xd800 + (c - 0x10000) / 1024) ∷ (0xdc00 + (c - 0x10000) % 1024) ∷ []

unfoldable pub encode_utf16 : List ℕ → List ℕ
encode_utf16 [] = []
encode_utf16 (c ∷ cs) = utf16_char c ++ encode_utf16 cs

-- `char::decode_utf16`, collected: a high surrogate is held until the low one comes.
unfoldable pub utf16_run : Option ℕ → List ℕ → Option (List ℕ)
utf16_run none [] = some []
utf16_run (some high) [] = none
utf16_run none (u ∷ rest) =
    let alone = emit (u ∷ []) (utf16_run none rest) in
    let held = utf16_run (some u) rest in
    if ltb u 0xd800 || leb 0xe000 u then alone else if ltb u 0xdc00 then held else none
utf16_run (some high) (u ∷ rest) =
    let pair = 0x10000 + (high - 0xd800) * 1024 + (u - 0xdc00) in
    let more = emit (pair ∷ []) (utf16_run none rest) in
    if leb 0xdc00 u && ltb u 0xe000 then more else none

unfoldable pub decode_utf16 : List ℕ → Option (List ℕ)
decode_utf16 units = utf16_run none units

utf8_run-char :
    (c : ℕ) (rest : List ℕ)
    → IsScalar c
    → utf8_run start (utf8_char c ++ rest) ≡ emit (c ∷ []) (utf8_run start rest)
unfolding utf8_run utf8_step utf8_char is_scalar
utf8_run-char c rest h = ground arith

utf16_run-alone :
    (u : ℕ) (rest : List ℕ)
    → IsScalar u
    → utf16_run none (u ∷ rest) ≡ emit (u ∷ []) (utf16_run none rest)
unfolding utf16_run
utf16_run-alone u rest h = rw (whole u h) refl
  where
    whole : (u : ℕ) → IsScalar u → (ltb u 0xd800 || leb 0xe000 u) ≡ true
    whole u h = ground arith

utf16_run-high :
    (k : ℕ) (rest : List ℕ)
    → k < 1024
    → utf16_run none ((0xd800 + k) ∷ rest) ≡ utf16_run (some (0xd800 + k)) rest
unfolding utf16_run
utf16_run-high k rest h = rw (not_whole k h, lt→ltb (0xd800 + k) 0xdc00 (omega arith)) refl
  where
    not_whole : (k : ℕ) → k < 1024 → (ltb (0xd800 + k) 0xd800 || leb 0xe000 (0xd800 + k)) ≡ false
    not_whole k h = ground arith

utf16_run-low :
    (high k : ℕ) (rest : List ℕ)
    → k < 1024
    → utf16_run (some high) ((0xdc00 + k) ∷ rest)
      ≡ emit ((0x10000 + (high - 0xd800) * 1024 + k) ∷ []) (utf16_run none rest)
unfolding utf16_run
utf16_run-low high k rest h = let e : 0xdc00 + k - 0xdc00 ≡ k = omega arith in rw (low k h, e) refl
  where
    low : (k : ℕ) → k < 1024 → (leb 0xdc00 (0xdc00 + k) && ltb (0xdc00 + k) 0xe000) ≡ true
    low k h = ground arith

utf16_run-char :
    (c : ℕ) (rest : List ℕ)
    → IsScalar c
    → utf16_run none (utf16_char c ++ rest) ≡ emit (c ∷ []) (utf16_run none rest)
unfolding utf16_char
utf16_run-char c rest h = elim (Bool-cases (ltb c 0x10000)) [
  | inl small ↦ rw small (utf16_run-alone c rest h)
  | inr large ↦
      let k = c - 0x10000 in
      let e : 0x10000 + (0xd800 + k / 1024 - 0xd800) * 1024 + k % 1024 ≡ c =
        omega (arith, above c large) in
      rw large (
        utf16_run-high (k / 1024) _ (omega (arith, above c large))
        ∙ utf16_run-low (0xd800 + k / 1024) (k % 1024) rest (omega arith)
        ∙ ap (λ (t : ℕ). emit (t ∷ []) (utf16_run none rest)) e)
]
  where
    above : (c : ℕ) → ltb c 0x10000 ≡ false → 0x10000 ≤ c
    above c h = ground arith

-- The standard library's documented round trips.
pub from_utf8-as_bytes : (cs : List ℕ) → All IsScalar cs → from_utf8 (as_bytes cs) ≡ some cs
unfolding from_utf8 as_bytes
from_utf8-as_bytes [] h = unfold utf8_run in refl
from_utf8-as_bytes (c ∷ cs) h =
    utf8_run-char c (as_bytes cs) h.0 ∙ ap (emit (c ∷ [])) (from_utf8-as_bytes cs h.1)

pub decode_utf16-encode_utf16 :
    (cs : List ℕ) → All IsScalar cs → decode_utf16 (encode_utf16 cs) ≡ some cs
unfolding decode_utf16 encode_utf16
decode_utf16-encode_utf16 [] h = unfold utf16_run in refl
decode_utf16-encode_utf16 (c ∷ cs) h =
    utf16_run-char c (encode_utf16 cs) h.0 ∙ ap (emit (c ∷ [])) (decode_utf16-encode_utf16 cs h.1)
