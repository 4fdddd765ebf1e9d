-- ===== src/Prelude/Bytes.antt =====
-- Byte buffers: checked slices (`buf.get(a..b)`), `copy_from_slice`, and big-endian numbers.
use native.Mathlib.Nat.{pow-suc, mul_comm, div-add-mod', div-div-eq-div-mul}
use sqlite_rs.Prelude.{
  ℕ, zero, suc, ◌+◌, ◌-◌, ◌*◌, ◌/◌, ◌%◌, ◌^◌, ◌≤◌, ◌<◌, min, ◌≡◌, refl, ap, arith, ◌&&◌, leb,
  le→leb, true, if◌then◌else◌, List, [], ◌∷◌, ◌++◌, Option, none, some, length, take, drop,
  length-append, length-take, length-drop,
}

abbrev pub IsByte : ℕ → Type 0
IsByte b = b < 256

abbrev pub IsU32 : ℕ → Type 0
IsU32 v = v < 2 ^ 32

abbrev pub IsU64 : ℕ → Type 0
IsU64 v = v < 2 ^ 64

-- `usize` has 64 bits.
abbrev pub usize_max : ℕ
usize_max = 2 ^ 64 - 1

abbrev pub saturating_add : ℕ → ℕ → ℕ
saturating_add a b = min (a + b) usize_max

abbrev pub saturating_mul : ℕ → ℕ → ℕ
saturating_mul a b = min (a * b) usize_max

abbrev pub All {ℓ κ} : {A : Type ℓ} → (A → Type κ) → List A → Type κ
All P [] = Unit
All P (x ∷ xs) = P x × All P xs

pub All-append {ℓ κ} :
    {A : Type ℓ} (P : A → Type κ) (xs ys : List A) → All P xs → All P ys → All P (xs ++ ys)
All-append P [] ys hx hy = hy
All-append P (x ∷ xs) ys hx hy = (hx.0, All-append P xs ys hx.1 hy)

pub in_bounds : (a b n : ℕ) → a ≤ b → b ≤ n → (leb a b && leb b n) ≡ true
in_bounds a b n p q = ground arith

module _ {ℓ} {A : Type ℓ} where
  -- `buf.get(a..b)`
  unfoldable pub slice : List A → ℕ → ℕ → Option (List A)
  slice buf a b = if leb a b && leb b (length buf) then some (take (b - a) (drop a buf)) else none

  -- `buf.get(a..)`
  unfoldable pub slice_from : List A → ℕ → Option (List A)
  slice_from buf a = if leb a (length buf) then some (drop a buf) else none

  pub drop-append : (xs ys : List A) → drop (length xs) (xs ++ ys) ≡ ys
  drop-append [] ys = refl
  drop-append (x ∷ xs) ys = drop-append xs ys

  pub take-append : (xs ys : List A) → take (length xs) (xs ++ ys) ≡ xs
  take-append [] ys = refl
  take-append (x ∷ xs) ys = ap (λ t. x ∷ t) (take-append xs ys)

  -- A slice of three parts put together is the middle part.
  pub slice_middle :
      (xs ys zs : List A) (a b : ℕ)
      → a ≡ length xs
      → b ≡ a + length ys
      → slice (xs ++ (ys ++ zs)) a b ≡ some ys
  unfolding slice
  slice_middle xs ys zs a b p q =
      let e : drop a (xs ++ (ys ++ zs)) ≡ ys ++ zs = rw p (drop-append xs (ys ++ zs)) in
      let f : b - a ≡ length ys = omega arith in
      let g : b ≤ length (xs ++ (ys ++ zs)) =
        omega (arith, length-append xs (ys ++ zs), length-append ys zs) in
      rw (in_bounds a b _ (omega arith) g, e, f, take-append) refl

  pub slice_from_append :
      (xs ys : List A) (a : ℕ) → a ≡ length xs → slice_from (xs ++ ys) a ≡ some ys
  unfolding slice_from
  slice_from_append xs ys a p =
      let e : drop a (xs ++ ys) ≡ ys = rw p (drop-append xs ys) in
      rw (le→leb a (length (xs ++ ys)) (omega (arith, length-append xs ys)), e) refl

  pub slice-length :
      (buf : List A) (a b : ℕ) (s : List A) → slice buf a b ≡ some s → length s + a ≡ b
  unfolding slice
  slice-length buf a b s e = ground (arith, length-take (b - a) (drop a buf), length-drop a buf)

-- `x.to_be_bytes()` of a number of `k` bytes.
unfoldable pub to_be : ℕ → ℕ → List ℕ
to_be zero v = []
to_be (suc k) v = (v / 256 ^ k % 256) ∷ to_be k v

unfoldable pub from_be_loop : ℕ → List ℕ → ℕ
from_be_loop acc [] = acc
from_be_loop acc (b ∷ bs) = from_be_loop (acc * 256 + b) bs

-- `from_be_bytes`
unfoldable pub from_be : List ℕ → ℕ
from_be bs = from_be_loop 0 bs

pub length-to_be : (k v : ℕ) → length (to_be k v) ≡ k
unfolding to_be
length-to_be zero v = refl
length-to_be (suc k) v = ap suc (length-to_be k v)

pub to_be-IsByte : (k v : ℕ) → All IsByte (to_be k v)
unfolding to_be
to_be-IsByte zero v = tt
to_be-IsByte (suc k) v = (omega arith, to_be-IsByte k v)

-- The digit above `p`.
pub split_256 : (v p : ℕ) → v % (256 * p) ≡ v / p % 256 * p + v % p
split_256 v p = omega (
  arith,
  div-add-mod' v (256 * p),
  div-add-mod' v p,
  ap (λ (t : ℕ). t * p) (div-add-mod' (v / p) 256),
  ap (λ (t : ℕ). t * (256 * p)) (div-div-eq-div-mul v p 256),
  ap (λ (t : ℕ). v / t * (256 * p)) (mul_comm p 256),
)

pub split_128 : (v p : ℕ) → v % (128 * p) ≡ v / p % 128 * p + v % p
split_128 v p = omega (
  arith,
  div-add-mod' v (128 * p),
  div-add-mod' v p,
  ap (λ (t : ℕ). t * p) (div-add-mod' (v / p) 128),
  ap (λ (t : ℕ). t * (128 * p)) (div-div-eq-div-mul v p 128),
  ap (λ (t : ℕ). v / t * (128 * p)) (mul_comm p 128),
)

pub from_be_loop-to_be : (k v acc : ℕ) → from_be_loop acc (to_be k v) ≡ acc * 256 ^ k + v % 256 ^ k
unfolding from_be_loop to_be
from_be_loop-to_be zero v acc = omega arith
from_be_loop-to_be (suc k) v acc = omega (
  arith,
  from_be_loop-to_be k v (acc * 256 + v / 256 ^ k % 256),
  split_256 v (256 ^ k),
  pow-suc 256 k,
  ap (λ (t : ℕ). v % t) (pow-suc 256 k),
  ap (λ (t : ℕ). v % t) (mul_comm (256 ^ k) 256),
  ap (λ (t : ℕ). acc * t) (pow-suc 256 k),
)

-- `from_be_bytes` inverts `to_be_bytes`.
pub from_be-to_be : (k v : ℕ) → from_be (to_be k v) ≡ v % 256 ^ k
unfolding from_be
from_be-to_be k v = omega (arith, from_be_loop-to_be k v 0)
