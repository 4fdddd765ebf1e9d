-- ===== src/Prelude/Bits.antt =====
-- `|` of disjoint fields and `&` with a low mask, as arithmetic.
use Prim.Native.Nat.{bit_and, bit_or, digits, bit_and-bitwise, bit_or-bitwise}
use native.Mathlib.Nat.{pow-suc, le_refl}
use sqlite_rs.Prelude.{
  ℕ, zero, suc, ◌+◌, ◌*◌, ◌/◌, ◌%◌, ◌^◌, ◌≤◌, ◌<◌, min, max, ◌≡◌, refl, ap, arith,
}

-- A digitwise operation with digit function `f`, where `z` answers for an exhausted left operand.
module _ (z : ℕ → ℕ) (f : ℕ → ℕ → ℕ) where
  -- The recursion is on the left operand's fuel: past the operand it is spent.
  digits_enough : (n a b : ℕ) → a ≤ n → digits z f n a b ≡ digits z f a a b
  digits_enough n a b h = strong n n a a b h (le_refl a) h
    where
      strong : (k n m a b : ℕ) → a ≤ k → a ≤ m → a ≤ n → digits z f n a b ≡ digits z f m a b
      strong k zero zero zero b c l r = refl
      strong k zero (suc m) zero b c l r = refl
      strong k (suc n) zero zero b c l r = refl
      strong k (suc n) (suc m) zero b c l r = refl
      strong k zero m (suc a) b c l r = absurd (omega arith)
      strong k (suc n) zero (suc a) b c l r = absurd (omega arith)
      strong zero (suc n) (suc m) (suc a) b c l r = absurd (omega arith)
      strong (suc k) (suc n) (suc m) (suc a) b c l r =
          let lower = strong k n m (suc a / 2) (b / 2) (omega arith) (omega arith) (omega arith) in
          ap (λ (d : ℕ). d * 2 + f (suc a % 2) (b % 2)) lower

  -- So a positive left operand gives up its lowest digit.
  digits_lowest :
      (a b : ℕ)
      → digits z f (suc a) (suc a) b
        ≡ digits z f (suc a / 2) (suc a / 2) (b / 2) * 2 + f (suc a % 2) (b % 2)
  digits_lowest a b =
      let half = digits_enough a (suc a / 2) (b / 2) (omega arith) in
      ap (λ (d : ℕ). d * 2 + f (suc a % 2) (b % 2)) half

or_lowest : (a b : ℕ) → bit_or a b ≡ bit_or (a / 2) (b / 2) * 2 + max (a % 2) (b % 2)
or_lowest zero b = omega (arith, bit_or-bitwise 0 b, bit_or-bitwise 0 (b / 2))
or_lowest (suc a) b =
    let whole = bit_or-bitwise (suc a) b in
    let half = bit_or-bitwise (suc a / 2) (b / 2) in
    omega (arith, whole, half, digits_lowest (λ x. x) max a b)

and_lowest : (a b : ℕ) → bit_and a b ≡ bit_and (a / 2) (b / 2) * 2 + min (a % 2) (b % 2)
and_lowest zero b = omega (arith, bit_and-bitwise 0 b, bit_and-bitwise 0 (b / 2))
and_lowest (suc a) b =
    let whole = bit_and-bitwise (suc a) b in
    let half = bit_and-bitwise (suc a / 2) (b / 2) in
    omega (arith, whole, half, digits_lowest (λ _. zero) min a b)

nothing_set : (n a : ℕ) → a ≤ n → (bit_or a 0 ≡ a) × (bit_and a 0 ≡ 0)
nothing_set n zero h = (refl, refl)
nothing_set zero (suc a) h = absurd (omega arith)
nothing_set (suc n) (suc a) h =
    let (left, right) = nothing_set n (suc a / 2) (omega arith) in
    (omega (arith, or_lowest (suc a) 0, left), omega (arith, and_lowest (suc a) 0, right))

-- `x << k | y` where `y` has `k` bits at most.
pub bit_or-disjoint : (k a b : ℕ) → b < 2 ^ k → bit_or (a * 2 ^ k) b ≡ a * 2 ^ k + b
bit_or-disjoint zero a b h = ground (arith, (nothing_set a a (le_refl a)).0)
bit_or-disjoint (suc k) a b h = ground (
  arith,
  pow-suc 2 k,
  ap (λ (t : ℕ). a * t) (pow-suc 2 k),
  or_lowest (a * 2 ^ suc k) b,
  bit_or-disjoint k a (b / 2),
)

-- The masks of the varint codec: an odd mask keeps the lowest bit, an even one clears it.
and_odd : (a c : ℕ) → bit_and a (1 + 2 * c) ≡ bit_and (a / 2) c * 2 + a % 2
and_odd a c =
    let half = ap (bit_and (a / 2)) (halve c) in omega (arith, and_lowest a (1 + 2 * c), half)
  where
    halve : (m : ℕ) → (1 + 2 * m) / 2 ≡ m
    halve m = omega arith

bit_and_31 : (a : ℕ) → bit_and a 31 ≡ a % 32
bit_and_31 a = omega (
  arith,
  and_odd a 15,
  and_odd (a / 2) 7,
  and_odd (a / 2 / 2) 3,
  and_odd (a / 2 / 2 / 2) 1,
  and_odd (a / 2 / 2 / 2 / 2) 0,
  (nothing_set _ (a / 2 / 2 / 2 / 2 / 2) (le_refl _)).1,
)

pub bit_and_127 : (a : ℕ) → bit_and a 0x7f ≡ a % 128
bit_and_127 a = omega (arith, and_odd a 63, and_odd (a / 2) 31, bit_and_31 (a / 2 / 2))

pub bit_and_255 : (a : ℕ) → bit_and a 0xff ≡ a % 256
bit_and_255 a = omega (arith, and_odd a 127, bit_and_127 (a / 2))

and_even : (a c : ℕ) → bit_and a (2 * c) ≡ bit_and (a / 2) c * 2
and_even a c =
    let half = ap (bit_and (a / 2)) (halve c) in omega (arith, and_lowest a (2 * c), half)
  where
    halve : (m : ℕ) → 2 * m / 2 ≡ m
    halve m = omega arith

pub bit_and_128 : (b : ℕ) → b < 256 → bit_and b 0x80 ≡ b / 128 * 128
bit_and_128 b h = omega (
  arith,
  and_even b 64,
  and_even (b / 2) 32,
  and_even (b / 2 / 2) 16,
  and_even (b / 2 / 2 / 2) 8,
  and_even (b / 2 / 2 / 2 / 2) 4,
  and_even (b / 2 / 2 / 2 / 2 / 2) 2,
  and_even (b / 2 / 2 / 2 / 2 / 2 / 2) 1,
  and_odd (b / 2 / 2 / 2 / 2 / 2 / 2 / 2) 0,
  (nothing_set _ (b / 2 / 2 / 2 / 2 / 2 / 2 / 2 / 2) (le_refl _)).1,
)

or_even : (a c : ℕ) → bit_or a (2 * c) ≡ bit_or (a / 2) c * 2 + a % 2
or_even a c = let half = ap (bit_or (a / 2)) (halve c) in omega (arith, or_lowest a (2 * c), half)
  where
    halve : (m : ℕ) → 2 * m / 2 ≡ m
    halve m = omega arith

pub bit_or_128 : (b : ℕ) → b < 128 → bit_or b 0x80 ≡ b + 128
bit_or_128 b h =
    let spent = ap (λ (t : ℕ). bit_or t 1) (highest b h) in
    omega (
      arith,
      or_even b 64,
      or_even (b / 2) 32,
      or_even (b / 2 / 2) 16,
      or_even (b / 2 / 2 / 2) 8,
      or_even (b / 2 / 2 / 2 / 2) 4,
      or_even (b / 2 / 2 / 2 / 2 / 2) 2,
      or_even (b / 2 / 2 / 2 / 2 / 2 / 2) 1,
      spent,
      bit_or-bitwise 0 1,
    )
  where
    highest : (m : ℕ) → m < 128 → m / 2 / 2 / 2 / 2 / 2 / 2 / 2 ≡ 0
    highest m h = omega arith
