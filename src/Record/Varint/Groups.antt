-- ===== src/Record/Varint/Groups.antt =====
-- What `write_varint_into` writes, in plain arithmetic.
use Prim.Native.Nat.{bit_and, bit_or}
use mathlib.Core.List.{append_assoc, append-nil}
use native.Mathlib.Nat.{one-le-pow}
use native.Mathlib.Numerals.{towards_suc}
use sqlite_rs.Prelude.{
  ℕ, zero, suc, ◌+◌, ◌-◌, ◌*◌, ◌/◌, ◌%◌, ◌^◌, ◌≤◌, ◌<◌, ◌≡◌, ◌≢◌, refl, sym, ap, ◌∙◌, List, [], ◌∷◌,
  ◌++◌, arith, length, Bool-cases, ltb, leb, inl, inr, ◌⊎◌, ◌&&◌, lt→ltb, le→ltb_false, true, false,
}
use sqlite_rs.Prelude.Bits.{bit_and_127, bit_and_255, bit_or_128}
use sqlite_rs.Record.Varint.{
  count_groups, group_at, push_groups, push_top, write_varint_into, varint_len,
}

-- `n` groups of seven bits, highest first, each with the top bit set.
unfoldable pub flagged : ℕ → ℕ → List ℕ
flagged zero v = []
flagged (suc n) v = (v / 2 ^ (7 * n) % 128 + 128) ∷ flagged n v

-- The same, with the top bit of the last group clear.
unfoldable pub groups_of : ℕ → ℕ → List ℕ
groups_of zero v = []
groups_of (suc zero) v = v % 128 ∷ []
groups_of (suc (suc n)) v = (v / 2 ^ (7 * suc n) % 128 + 128) ∷ groups_of (suc n) v

pub shift_seven : (n : ℕ) → 2 ^ (7 * suc n) ≡ 128 * 2 ^ (7 * n)
shift_seven n = let e : 7 * suc n ≡ 7 * n + 7 = omega arith in rw e (simp towards_suc (omega arith))

pub one-le-shift : (n : ℕ) → 1 ≤ 2 ^ (7 * n)
one-le-shift n = one-le-pow (7 * n) 2 (omega arith)

group_byte : (x : ℕ) → bit_or (bit_and x 0x7f) 0x80 ≡ x % 128 + 128
group_byte x = rw bit_and_127 (bit_or_128 (x % 128) (omega arith))

push_top-flagged : (n i v : ℕ) (out : List ℕ) → i + n ≡ 8 → push_top n i v out ≡ out ++ flagged n v
unfolding push_top flagged
push_top-flagged zero i v out e = sym (append-nil out)
push_top-flagged (suc n) i v out e =
    let s : 7 - i ≡ n = omega arith in
    rw s (
      rw group_byte
        (push_top-flagged n (i + 1) v (out ++ (_ ∷ [])) (omega arith) ∙ append_assoc out _ _))

group_at_last : (i g v : ℕ) → i + 1 ≡ g → group_at i g v ≡ v % 128
unfolding group_at
group_at_last i g v e =
    let s : g - 1 - i ≡ 0 = omega arith in rw s (ground (arith, bit_and_127 (v / 1)))

group_at_inner :
    (n i g v : ℕ) → i + suc (suc n) ≡ g → group_at i g v ≡ v / 2 ^ (7 * suc n) % 128 + 128
unfolding group_at
group_at_inner n i g v e =
    let s : g - 1 - i ≡ suc n = omega arith in
    rw s (ground (arith, group_byte (v / 2 ^ (7 * suc n))))

push_groups-groups_of :
    (n i g v : ℕ) (out : List ℕ) → i + n ≡ g → push_groups n i g v out ≡ out ++ groups_of n v
unfolding push_groups groups_of
push_groups-groups_of zero i g v out e = sym (append-nil out)
push_groups-groups_of (suc zero) i g v out e = rw (group_at_last i g v (omega arith)) refl
push_groups-groups_of (suc (suc n)) i g v out e =
    push_groups-groups_of (suc n) (i + 1) g v (out ++ (group_at i g v ∷ [])) (omega arith)
    ∙ rw (group_at_inner n i g v e) (append_assoc out _ _)

-- The loop stops at the first group count that holds the value, or at 8.
count_groups_bounds :
    (fuel groups v : ℕ)
    → 1 ≤ groups
    → groups + fuel ≡ 9
    → groups ≤ 8
    → (groups ≤ count_groups fuel groups v) × (count_groups fuel groups v ≤ 8)
unfolding count_groups
count_groups_bounds zero groups v l e u = absurd (omega arith)
count_groups_bounds (suc fuel) groups v l e u =
    ground (arith, count_groups_bounds fuel (groups + 1) v)

more_groups : (g v : ℕ) → (ltb g 8 && leb (2 ^ (7 * g)) v) ≡ true → (g < 8) × (2 ^ (7 * g) ≤ v)
more_groups g v h = ground arith

enough_groups :
    (g v : ℕ) → g ≤ 8 → v < 2 ^ 56 → (ltb g 8 && leb (2 ^ (7 * g)) v) ≡ false → v < 2 ^ (7 * g)
enough_groups g v u h e = elim (stops g v e) [
  | inl full ↦ let s : g ≡ 8 = omega arith in rw s h
  | inr fits ↦ fits
]
  where
    stops : (g v : ℕ) → (ltb g 8 && leb (2 ^ (7 * g)) v) ≡ false → (8 ≤ g) ⊎ (v < 2 ^ (7 * g))
    stops g v e = ground arith

-- Enough groups: a value below 2 ^ 56 fits.
count_groups_fits :
    (fuel groups v : ℕ)
    → groups + fuel ≡ 9
    → groups ≤ 8
    → v < 2 ^ 56
    → v < 2 ^ (7 * count_groups fuel groups v)
unfolding count_groups
count_groups_fits zero groups v e u h = absurd (omega arith)
count_groups_fits (suc fuel) groups v e u h =
    elim (Bool-cases (ltb groups 8 && leb (2 ^ (7 * groups)) v)) [
      | inl more ↦ rw more (
          count_groups_fits fuel (groups + 1) v (omega arith)
            (omega (arith, more_groups groups v more)) h)
      | inr done ↦ rw done (enough_groups groups v u h done)
    ]

-- No group too many.
count_groups_least :
    (fuel groups v k : ℕ)
    → groups + fuel ≡ 9
    → groups ≤ k
    → v < 2 ^ (7 * k)
    → count_groups fuel groups v ≤ k
unfolding count_groups
count_groups_least zero groups v k e g h = omega arith
count_groups_least (suc fuel) groups v k e g h =
    elim (Bool-cases (ltb groups 8 && leb (2 ^ (7 * groups)) v)) [
      | inl more ↦
          let ne : groups ≢ k =
            λ q. omega (arith, more_groups groups v more, ap (λ (t : ℕ). 2 ^ (7 * t)) q) in
          rw more (count_groups_least fuel (groups + 1) v k (omega arith) (omega arith) h)
      | inr done ↦ rw done g
    ]

-- How many groups: the least number that holds the value, 1 to 8.
pub groups_for : ℕ → ℕ
groups_for v = count_groups 8 1 v

pub groups_for_bounds : (v : ℕ) → (1 ≤ groups_for v) × (groups_for v ≤ 8)
unfolding groups_for
groups_for_bounds v = count_groups_bounds 8 1 v (omega arith) (omega arith) (omega arith)

pub groups_for_fits : (v : ℕ) → v < 2 ^ 56 → v < 2 ^ (7 * groups_for v)
unfolding groups_for
groups_for_fits v h = count_groups_fits 8 1 v (omega arith) (omega arith) h

pub groups_for_least : (v k : ℕ) → 1 ≤ k → v < 2 ^ (7 * k) → groups_for v ≤ k
unfolding groups_for
groups_for_least v k g h = count_groups_least 8 1 v k (omega arith) g h

pub write_varint_into-small :
    (v : ℕ) (out : List ℕ)
    → v < 2 ^ 56
    → write_varint_into v out ≡ out ++ groups_of (groups_for v) v
unfolding write_varint_into groups_for
write_varint_into-small v out h =
    rw (lt→ltb v (2 ^ 56) h) (push_groups-groups_of (count_groups 8 1 v) 0 _ v out (omega arith))

pub write_varint_into-large :
    (v : ℕ) (out : List ℕ)
    → 2 ^ 56 ≤ v
    → write_varint_into v out ≡ out ++ (flagged 8 (v / 2 ^ 8) ++ (v % 256 ∷ []))
unfolding write_varint_into
write_varint_into-large v out h =
    rw (le→ltb_false v (2 ^ 56) h)
      (rw (push_top-flagged 8 0 (v / 2 ^ 8) out refl, bit_and_255 v) (append_assoc out _ _))

pub length-flagged : (n v : ℕ) → length (flagged n v) ≡ n
unfolding flagged
length-flagged zero v = refl
length-flagged (suc n) v = ap suc (length-flagged n v)

pub length-groups_of : (n v : ℕ) → length (groups_of n v) ≡ n
unfolding groups_of
length-groups_of zero v = refl
length-groups_of (suc zero) v = refl
length-groups_of (suc (suc n)) v = ap suc (length-groups_of (suc n) v)

pub varint_len-small : (v : ℕ) → v < 2 ^ 56 → varint_len v ≡ groups_for v
unfolding varint_len groups_for
varint_len-small v h = rw (lt→ltb v (2 ^ 56) h) refl

pub varint_len-large : (v : ℕ) → 2 ^ 56 ≤ v → varint_len v ≡ 9
unfolding varint_len
varint_len-large v h = rw (le→ltb_false v (2 ^ 56) h) refl
