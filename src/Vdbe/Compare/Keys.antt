-- ===== src/Vdbe/Compare/Keys.antt =====
-- The order of values is the lexicographic order of keys, which are lists of numbers.
use Prim.Native.Nat.{compare, Ordering}
use sqlite_rs.Prelude.{
  ℕ, ◌-◌, ◌^◌, ◌≤◌, ◌<◌, ◌≡◌, refl, sym, ap, ◌∙◌, arith, true, false, Bool-cases, ltb→lt,
  ltb_false→le, inl, inr, if◌then◌else◌, List, [], ◌∷◌,
}
use sqlite_rs.Prelude.Int.{ℤ, pos, negsuc, ◌+ℤ◌, ◌-ℤ◌, ltb_ℤ, +ℤ_parts, -ℤ_parts, eq_of_parts}
use sqlite_rs.Record.Value as V
use sqlite_rs.Record.Value.{Value, IsValue, IsI64, FitsSigned}
use sqlite_rs.Record.Collation.{Collation, compare_bytes, compare_text, collation_key}
use sqlite_rs.Vdbe.Floats.{Floats, IsExact, two_63, minus_two_63, ge, partial_cmp}
use sqlite_rs.Vdbe.Compare.Lex.{
  lex_lt, lex_gt, lex_compare, reverse-compare_bytes, fits_65, fits_below, fits_above, i64_min,
  i64_max,
}
use sqlite_rs.Vdbe.Compare.{
  value_rank, compare_int, unwrap_or, reverse, compare_int_real, compare_real, compare_same_rank,
  compare_values,
}

module _ (f : Floats) (e : IsExact f) where
  unfoldable pub real_key : ℕ → List ℕ
  real_key r = if f.is_nan r then 2 ∷ [] else 1 ∷ e.exact r ∷ []

  -- NULL, then the numbers by their value, NaN, the texts by what the collation compares of them, and
  -- the blobs by their bytes.
  unfoldable pub sort_key : Value → Collation → List ℕ
  sort_key V.null collation = []
  sort_key (V.integer i) collation = 1 ∷ e.whole i ∷ []
  sort_key (V.real r) collation = real_key r
  sort_key (V.text s) collation = 3 ∷ collation_key s collation
  sort_key (V.blob b) collation = 4 ∷ b

  partial_cmp-exact :
      (x y : ℕ)
      → f.is_nan x ≡ false
      → f.is_nan y ≡ false
      → unwrap_or (partial_cmp f x y) Ordering.eq ≡ compare (e.exact x) (e.exact y)
  unfolding partial_cmp
  partial_cmp-exact x y p q = rw (p, q, e.lt_exact x y p q, e.lt_exact y x q p) ground arith

  whole_le :
      (i j : ℤ) → FitsSigned 64 i → FitsSigned 64 j → ltb_ℤ j i ≡ false → e.whole i ≤ e.whole j
  whole_le i j p q h = elim (Bool-cases (ltb_ℤ i j)) [
    | inl k ↦ omega (arith, e.whole_lt i j p q k)
    | inr k ↦ omega (arith, ap (e.whole) (eq_of_parts i j (ground arith)))
  ]

  compare_whole : (i j : ℤ) → IsI64 i → IsI64 j → compare (e.whole i) (e.whole j) ≡ compare_int i j
  compare_whole i j p' q' =
      let p = fits_65 i p' in
      let q = fits_65 j q' in
      elim (Bool-cases (ltb_ℤ i j)) [
        | inl k ↦ ground (arith, e.whole_lt i j p q k)
        | inr k ↦ elim (Bool-cases (ltb_ℤ j i)) [
          | inl m ↦ ground (arith, e.whole_lt j i q p m)
          | inr m ↦ ground (arith, ap (e.whole) (eq_of_parts i j (ground arith)))
        ]
      ]

  compare_real-key : (x y : ℕ) → compare_real f x y ≡ compare_bytes (real_key x) (real_key y)
  unfolding compare_real real_key compare_bytes
  compare_real-key x y = elim (Bool-cases (f.is_nan x)) [
    | inl p ↦ elim (Bool-cases (f.is_nan y)) [ inl q ↦ rw (p, q) refl | inr q ↦ rw (p, q) refl ]
    | inr p ↦ elim (Bool-cases (f.is_nan y)) [
      | inl q ↦ rw (p, q) refl
      | inr q ↦ rw (p, q) (partial_cmp-exact x y p q ∙ sym (lex_compare 1 (e.exact x) (e.exact y)))
    ]
  ]

  below_min :
      (i : ℤ) (r : ℕ)
      → IsI64 i
      → f.is_nan r ≡ false
      → f.lt r minus_two_63 ≡ true
      → e.exact r < e.whole i
  below_min i r p n low =
      let least : e.whole (negsuc (2 ^ 63 - 1)) ≤ e.whole i =
        whole_le (negsuc (2 ^ 63 - 1)) i (omega arith) (fits_65 i p) (i64_min i p) in
      omega (
        arith,
        ltb→lt (e.exact r) (e.exact minus_two_63)
            (sym (e.lt_exact r minus_two_63 n (e.minus_two_63_number)) ∙ low),
        e.exact_minus_two_63,
        least,
      )

  above_max :
      (i : ℤ) (r : ℕ) → IsI64 i → f.is_nan r ≡ false → f.lt r two_63 ≡ false → e.whole i < e.exact r
  above_max i r p n high =
      let greatest : e.whole i < e.whole (pos (2 ^ 63)) =
        e.whole_lt i (pos (2 ^ 63)) (fits_65 i p) (omega arith) (i64_max i p) in
      omega (
        arith,
        ltb_false→le (e.exact r) (e.exact two_63)
            (sym (e.lt_exact r two_63 n (e.two_63_number)) ∙ high),
        e.exact_two_63,
        greatest,
      )

  -- The integer part of r decides, or its fraction.
  compare_inside :
      (i : ℤ) (r : ℕ)
      → IsI64 i
      → f.is_nan r ≡ false
      → f.lt r minus_two_63 ≡ false
      → f.lt r two_63 ≡ true
      → (if ltb_ℤ i (f.to_int r)
          then Ordering.lt
          else if ltb_ℤ (f.to_int r) i
          then Ordering.gt
          else unwrap_or (partial_cmp f (f.of_int i) r) Ordering.eq)
        ≡ compare_bytes (1 ∷ e.whole i ∷ []) (1 ∷ e.exact r ∷ [])
  compare_inside i r p n low high =
      let y = f.to_int r in
      let least =
        ltb_false→le (e.exact r) (e.exact minus_two_63)
          (sym (e.lt_exact r minus_two_63 n (e.minus_two_63_number)) ∙ low) in
      let most =
        ltb→lt (e.exact r) (e.exact two_63)
          (sym (e.lt_exact r two_63 n (e.two_63_number)) ∙ high) in
      let near = e.to_int_near r n least most in
      let fits = e.to_int_fits r in
      elim (Bool-cases (ltb_ℤ i y)) [
        | inl g ↦
            let under : e.whole i ≤ e.whole (y -ℤ pos 1) =
              whole_le i (y -ℤ pos 1) (fits_65 i p) (fits_below y fits)
                (ground (arith, -ℤ_parts y (pos 1))) in
            rw g (sym (lex_lt 1 (e.whole i) (e.exact r) (omega (arith, under, near.0))))
        | inr g ↦ elim (Bool-cases (ltb_ℤ y i)) [
          | inl k ↦
              let over : e.whole (y +ℤ pos 1) ≤ e.whole i =
                whole_le (y +ℤ pos 1) i (fits_above y fits) (fits_65 i p)
                  (ground (arith, +ℤ_parts y (pos 1))) in
              rw (g, k) (sym (lex_gt 1 (e.whole i) (e.exact r) (omega (arith, over, near.1))))
          | inr k ↦
              let same : i ≡ y = eq_of_parts i y (ground arith) in
              rw (g, k)
                (partial_cmp-exact (f.of_int i) r (e.of_int_number i) n
                  ∙ ap (λ t. compare t (e.exact r))
                      (ap (λ t. e.exact (f.of_int t)) same
                        ∙ e.of_int_to_int r n least most
                        ∙ ap (e.whole) (sym same))
                  ∙ sym (lex_compare 1 (e.whole i) (e.exact r)))
        ]
      ]

  compare_int_real-key :
      (i : ℤ) (r : ℕ)
      → IsI64 i
      → compare_int_real f i r ≡ compare_bytes (1 ∷ e.whole i ∷ []) (real_key r)
  unfolding compare_int_real real_key ge
  compare_int_real-key i r p = elim (Bool-cases (f.is_nan r)) [
    | inl n ↦ rw n (unfold compare_bytes in refl)
    | inr n ↦ elim (Bool-cases (f.lt r minus_two_63)) [
      | inl low ↦ rw (n, low) (sym (lex_gt 1 (e.whole i) (e.exact r) (below_min i r p n low)))
      | inr low ↦ elim (Bool-cases (f.lt r two_63)) [
        | inr high ↦
            rw (n, e.two_63_number, low, high)
              (sym (lex_lt 1 (e.whole i) (e.exact r) (above_max i r p n high)))
        | inl high ↦ rw (n, e.two_63_number, low, high) (compare_inside i r p n low high)
      ]
    ]
  ]

  real_key_low : (k r : ℕ) (xs : List ℕ) → 3 ≤ k → compare_bytes (real_key r) (k ∷ xs) ≡ Ordering.lt
  unfolding real_key compare_bytes
  real_key_low k r xs h = elim (Bool-cases (f.is_nan r)) [
    | inl p ↦ rw p ground arith
    | inr p ↦ rw p ground arith
  ]

  real_key_high :
      (k r : ℕ) (xs : List ℕ) → 3 ≤ k → compare_bytes (k ∷ xs) (real_key r) ≡ Ordering.gt
  unfolding real_key compare_bytes
  real_key_high k r xs h = elim (Bool-cases (f.is_nan r)) [
    | inl p ↦ rw p ground arith
    | inr p ↦ rw p ground arith
  ]

  -- NULL comes first and after it every number.
  real_key_first : (r : ℕ) → compare_bytes [] (real_key r) ≡ Ordering.lt
  unfolding real_key compare_bytes
  real_key_first r = elim (Bool-cases (f.is_nan r)) [ inl p ↦ rw p refl | inr p ↦ rw p refl ]

  real_key_after : (r : ℕ) → compare_bytes (real_key r) [] ≡ Ordering.gt
  unfolding real_key compare_bytes
  real_key_after r = elim (Bool-cases (f.is_nan r)) [ inl p ↦ rw p refl | inr p ↦ rw p refl ]

  -- The comparison of two values, whose integers fit an i64, is that of their keys, number by number, on
  -- doubles that keep the laws of IsExact.
  pub compare_values-sort_key :
      (a b : Value) (collation : Collation)
      → IsValue a
      → IsValue b
      → compare_values f a b collation ≡ compare_bytes (sort_key a collation) (sort_key b collation)
  unfolding compare_values value_rank compare_same_rank sort_key
  compare_values-sort_key V.null V.null c p q = unfold compare_bytes in refl
  compare_values-sort_key V.null (V.integer j) c p q = unfold compare_bytes in refl
  compare_values-sort_key V.null (V.real s) c p q = sym (real_key_first s)
  compare_values-sort_key V.null (V.text t) c p q = unfold compare_bytes in refl
  compare_values-sort_key V.null (V.blob t) c p q = unfold compare_bytes in refl
  compare_values-sort_key (V.integer i) V.null c p q = unfold compare_bytes in refl
  compare_values-sort_key (V.integer i) (V.integer j) c p q =
      sym (lex_compare 1 (e.whole i) (e.whole j) ∙ compare_whole i j p q)
  compare_values-sort_key (V.integer i) (V.real s) c p q = compare_int_real-key i s p
  compare_values-sort_key (V.integer i) (V.text t) c p q = unfold compare_bytes in refl
  compare_values-sort_key (V.integer i) (V.blob t) c p q = unfold compare_bytes in refl
  compare_values-sort_key (V.real r) V.null c p q = sym (real_key_after r)
  compare_values-sort_key (V.real r) (V.integer j) c p q =
      ap reverse (compare_int_real-key j r q)
      ∙ reverse-compare_bytes (1 ∷ e.whole j ∷ []) (real_key r)
  compare_values-sort_key (V.real r) (V.real s) c p q = compare_real-key r s
  compare_values-sort_key (V.real r) (V.text t) c p q =
      sym (real_key_low 3 r (collation_key t c) (omega arith))
  compare_values-sort_key (V.real r) (V.blob t) c p q = sym (real_key_low 4 r t (omega arith))
  compare_values-sort_key (V.text s) V.null c p q = unfold compare_bytes in refl
  compare_values-sort_key (V.text s) (V.integer j) c p q = unfold compare_bytes in refl
  compare_values-sort_key (V.text s) (V.real r) c p q =
      sym (real_key_high 3 r (collation_key s c) (omega arith))
  compare_values-sort_key (V.text s) (V.text t) c p q = unfold compare_bytes compare_text in refl
  compare_values-sort_key (V.text s) (V.blob t) c p q = unfold compare_bytes in refl
  compare_values-sort_key (V.blob s) V.null c p q = unfold compare_bytes in refl
  compare_values-sort_key (V.blob s) (V.integer j) c p q = unfold compare_bytes in refl
  compare_values-sort_key (V.blob s) (V.real r) c p q = sym (real_key_high 4 r s (omega arith))
  compare_values-sort_key (V.blob s) (V.text t) c p q = unfold compare_bytes in refl
  compare_values-sort_key (V.blob s) (V.blob t) c p q = unfold compare_bytes in refl
