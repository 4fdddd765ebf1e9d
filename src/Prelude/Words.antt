-- ===== src/Prelude/Words.antt =====
-- Runs of big-endian 32-bit words, as the headers of the file formats have them.
use mathlib.Core.List.{append_assoc}
use native.Mathlib.Nat.{mod-eq_of_lt}
use sqlite_rs.Prelude.{
  ℕ, zero, suc, ◌+◌, ◌*◌, ◌≡◌, refl, sym, ap, ◌∙◌, arith, List, [], ◌∷◌, ◌++◌, some, length,
  length-append, get_elem?,
}
use sqlite_rs.Prelude.Bytes.{
  IsU32, slice, slice_middle, to_be, from_be, from_be-to_be, length-to_be,
}

unfoldable pub words : List ℕ → List ℕ
words [] = []
words (v ∷ vs) = to_be 4 v ++ words vs

pub length-words : (vs : List ℕ) → length (words vs) ≡ 4 * length vs
unfolding words
length-words [] = refl
length-words (v ∷ vs) =
    omega (arith, length-append (to_be 4 v) (words vs), length-to_be 4 v, length-words vs)

pub words-append : (us vs : List ℕ) → words (us ++ vs) ≡ words us ++ words vs
unfolding words
words-append [] vs = refl
words-append (u ∷ us) vs =
    ap (λ t. to_be 4 u ++ t) (words-append us vs)
    ∙ sym (append_assoc (to_be 4 u) (words us) (words vs))

pub from_be_word : (v : ℕ) → IsU32 v → from_be (to_be 4 v) ≡ v
from_be_word v h = from_be-to_be 4 v ∙ mod-eq_of_lt h

-- Word `i` among the others.
words_split :
    (vs : List ℕ) (i v : ℕ)
    → get_elem? vs i ≡ some v
    → (front back : List ℕ) × (words vs ≡ front ++ (to_be 4 v ++ back)) × (length front ≡ 4 * i)
unfolding words
words_split [] i v e = absurd (ground arith)
words_split (x ∷ xs) zero v e = ([], words xs, ap (λ u. to_be 4 u ++ words xs) (cc e), refl)
words_split (x ∷ xs) (suc i) v e =
    let (front, back, f, n) = words_split xs i v e in
    (
      to_be 4 x ++ front,
      back,
      ap (λ t. to_be 4 x ++ t) f ∙ sym (append_assoc (to_be 4 x) front (to_be 4 v ++ back)),
      omega (arith, length-append (to_be 4 x) front, length-to_be 4 x, n),
    )

pub slice-words :
    (vs back : List ℕ) (i v a b : ℕ)
    → get_elem? vs i ≡ some v
    → a ≡ 4 * i
    → b ≡ a + 4
    → slice (words vs ++ back) a b ≡ some (to_be 4 v)
slice-words vs back i v a b e p q =
    let (front, rest, f, n) = words_split vs i v e in
    let regroup =
      append_assoc front (to_be 4 v ++ rest) back
      ∙ ap (λ t. front ++ t) (append_assoc (to_be 4 v) rest back) in
    ap (λ t. slice (t ++ back) a b) f
    ∙ ap (λ t. slice t a b) regroup
    ∙ slice_middle front (to_be 4 v) (rest ++ back) a b (omega (arith, p, n))
        (omega (arith, q, length-to_be 4 v))
