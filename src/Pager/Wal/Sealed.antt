-- ===== src/Pager/Wal/Sealed.antt =====
-- The header that WalHeader::new makes is read back by WalHeader::parse.
use mathlib.Core.List.{append_assoc}
use sqlite_rs.Prelude.{
  ℕ, ◌*◌, ◌^◌, ◌≤◌, ◌<◌, ◌≡◌, refl, ap, ◌∙◌, arith, Bool, true, false, le→ltb_false, List, [], ◌∷◌,
  ◌++◌, length, length-append, take, some, get_elem?,
}
use sqlite_rs.Prelude.Outcome.{ok}
use sqlite_rs.Prelude.Bytes.{IsU32, saturating_add, slice, slice_middle, take-append, length-to_be}
use sqlite_rs.Prelude.Words.{words, words-append, length-words, slice-words, from_be_word}
use sqlite_rs.Pager.Wal.Header.{
  WalHeader, format_version_number, read_u32, magic_of, checksum_kind, valid_page_size,
  checksummed_words, checksum_words, serialize, checksum, parse, new,
}
use sqlite_rs.Pager.Wal.Reads.{BothU32, same_checksum_self, checksum-BothU32}

-- A header with the checksum of its own words, and with fields that fit theirs.
pub record IsSealed (from_ne : List ℕ → ℕ) (h : WalHeader) : Type 0 where
  pub sealed :
      h.header_checksum ≡ checksum from_ne (h.native_checksum) (words (checksummed_words h)) (0, 0)
  pub size_valid : valid_page_size (h.page_size) ≡ true
  pub size_small : h.page_size ≤ 65536
  pub salt1_small : IsU32 (h.salt1)
  pub salt2_small : IsU32 (h.salt2)
  pub version_small : IsU32 (h.format_version)
  pub seq_small : IsU32 (h.checkpoint_seq)

pub sum-BothU32 :
    (from_ne : List ℕ → ℕ) (h : WalHeader) → IsSealed from_ne h → BothU32 (h.header_checksum)
sum-BothU32 from_ne h s =
    let small =
      checksum-BothU32 from_ne (h.native_checksum) (words (checksummed_words h)) (0, 0)
        (omega arith, omega arith) in
    rw s.sealed small

pub length-serialize : (h : WalHeader) → length (serialize h) ≡ 32
unfolding serialize checksummed_words checksum_words
length-serialize h = length-words (checksummed_words h ++ checksum_words (h.header_checksum))

read_u32-words :
    {V : Type 0} (vs rest : List ℕ) (i v offset : ℕ)
    → get_elem? vs i ≡ some v
    → offset ≡ 4 * i
    → offset < 2 ^ 32
    → IsU32 v
    → read_u32 {V = V} (words vs ++ rest) offset ≡ ok v
unfolding read_u32
read_u32-words vs rest i v offset e p q u =
    let found = slice-words vs rest i v offset (saturating_add offset 4) e p (omega (arith, q)) in
    rw (found, length-to_be 4 v, from_be_word v u) refl

checksum_kind-magic_of :
    {V : Type 0} (native : Bool) → checksum_kind {V = V} (magic_of native) ≡ ok native
unfolding checksum_kind magic_of
checksum_kind-magic_of true = refl
checksum_kind-magic_of false = refl

magic_of-IsU32 : (native : Bool) → IsU32 (magic_of native)
unfolding magic_of
magic_of-IsU32 true = omega arith
magic_of-IsU32 false = omega arith

-- A sealed header is read back from the start of a log, whatever follows it.
pub parse-serialize :
    {V : Type 0} (from_ne : List ℕ → ℕ) (h : WalHeader) (rest : List ℕ)
    → IsSealed from_ne h
    → parse from_ne {V = V} (serialize h ++ rest) ≡ ok h
unfolding parse serialize checksummed_words checksum_words
parse-serialize {V} from_ne h rest s =
    let vs = checksummed_words h ++ checksum_words (h.header_checksum) in
    let word = λ (i v offset : ℕ). read_u32-words {V = V} vs rest i v offset in
    let sum = sum-BothU32 from_ne h s in
    let long =
      le→ltb_false (length (words vs ++ rest)) 32
        (omega (arith, length-words vs, length-append (words vs) rest)) in
    let first =
      ap (λ t. slice (t ++ rest) 0 24)
        (words-append (checksummed_words h) (checksum_words (h.header_checksum)))
      ∙ ap (λ t. slice t 0 24)
          (append_assoc (words (checksummed_words h)) (words (checksum_words (h.header_checksum)))
            rest)
      ∙ slice_middle [] (words (checksummed_words h))
          (words (checksum_words (h.header_checksum)) ++ rest) 0 24 refl
          (omega (arith, length-words (checksummed_words h))) in
    rw
      (
        long,
        word 0 (magic_of (h.native_checksum)) 0 refl refl (omega arith)
            (magic_of-IsU32 (h.native_checksum)),
        checksum_kind-magic_of {V = V} (h.native_checksum),
        word 2 (h.page_size) 8 refl refl (omega arith) (omega (arith, s.size_small)),
        s.size_valid,
        word 1 (h.format_version) 4 refl refl (omega arith) (s.version_small),
        word 3 (h.checkpoint_seq) 12 refl refl (omega arith) (s.seq_small),
        word 4 (h.salt1) 16 refl refl (omega arith) (s.salt1_small),
        word 5 (h.salt2) 20 refl refl (omega arith) (s.salt2_small),
        word 6 (h.header_checksum.0) 24 refl refl (omega arith) (sum.0),
        word 7 (h.header_checksum.1) 28 refl refl (omega arith) (sum.1),
        first,
        ← s.sealed,
        same_checksum_self (h.header_checksum),
      )
      refl

take-words : (us vs : List ℕ) (n : ℕ) → n ≡ 4 * length us → take n (words (us ++ vs)) ≡ words us
take-words us vs n e =
    ap (λ t. take n t) (words-append us vs)
    ∙ ap (λ (k : ℕ). take k (words us ++ words vs)) (width us e)
    ∙ take-append (words us) (words vs)
  where
    width : (us : List ℕ) → n ≡ 4 * length us → n ≡ length (words us)
    width us e = omega (arith, e, length-words us)

-- A new header is sealed, where its arguments fit.
pub new-IsSealed :
    (from_ne : List ℕ → ℕ) (native : Bool) (size s1 s2 seq : ℕ)
    → valid_page_size size ≡ true
    → size ≤ 65536
    → IsU32 s1
    → IsU32 s2
    → IsU32 seq
    → IsSealed from_ne (new from_ne native size s1 s2 seq)
unfolding new serialize checksummed_words checksum_words
new-IsSealed from_ne native size s1 s2 seq valid small p q r = record {
  sealed =
      ap (λ t. checksum from_ne native t (0, 0))
        (take-words (magic_of native ∷ format_version_number ∷ size ∷ seq ∷ s1 ∷ s2 ∷ [])
          (0 ∷ 0 ∷ []) 24 refl);
  size_valid = valid;
  size_small = small;
  salt1_small = p;
  salt2_small = q;
  version_small = omega arith;
  seq_small = r;
}
