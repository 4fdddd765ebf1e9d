-- ===== src/Btree/Rebuild/Bytes.antt =====
-- src/btree.rs: what a page holds at an offset, and what a write of it leaves as it was.
use sqlite_rs.Prelude.{
  ℕ, zero, suc, ◌+◌, ◌-◌, ◌≤◌, ◌≡◌, refl, ap, subst, arith, ◌⊎◌, le→leb, List, [], ◌∷◌, ◌++◌,
  length, take, drop, some,
}
use sqlite_rs.Prelude.Bytes.{saturating_add, slice, slice_from, in_bounds}
use sqlite_rs.Prelude.Outcome.{ok}
use sqlite_rs.Btree.Free.{put_bytes}

-- The bytes stand on the page from this offset on.
abbrev pub Holds : List ℕ → ℕ → List ℕ → Type 0
Holds page zero [] = Unit {0}
Holds [] zero (b ∷ bs) = ⊥
Holds (x ∷ xs) zero (b ∷ bs) = (x ≡ b) × Holds xs zero bs
Holds [] (suc a) bs = ⊥
Holds (x ∷ xs) (suc a) bs = Holds xs a bs

-- The page with the bytes written from an offset on.
unfoldable pub overwrite : List ℕ → ℕ → List ℕ → List ℕ
overwrite [] o bs = []
overwrite (x ∷ xs) (suc o) bs = x ∷ overwrite xs o bs
overwrite (x ∷ xs) zero [] = x ∷ xs
overwrite (x ∷ xs) zero (b ∷ bs) = b ∷ overwrite xs zero bs

-- Two ranges, by start and length, that do not meet.
abbrev pub Apart : ℕ → ℕ → ℕ → ℕ → Type 0
Apart o n a m = (a + m ≤ o) ⊎ (o + n ≤ a)

pub length-overwrite :
    (page : List ℕ) (o : ℕ) (bs : List ℕ) → length (overwrite page o bs) ≡ length page
unfolding overwrite
length-overwrite [] o bs = refl
length-overwrite (x ∷ xs) (suc o) bs = ap suc (length-overwrite xs o bs)
length-overwrite (x ∷ xs) zero [] = refl
length-overwrite (x ∷ xs) zero (b ∷ bs) = ap suc (length-overwrite xs zero bs)

pub Holds-overwrite_same :
    (page : List ℕ) (o : ℕ) (bs : List ℕ)
    → o + length bs ≤ length page
    → Holds (overwrite page o bs) o bs
unfolding overwrite
Holds-overwrite_same page zero [] h = tt
Holds-overwrite_same [] zero (b ∷ bs) h = omega arith
Holds-overwrite_same [] (suc o) bs h = omega arith
Holds-overwrite_same (x ∷ xs) (suc o) bs h = Holds-overwrite_same xs o bs (omega arith)
Holds-overwrite_same (x ∷ xs) zero (b ∷ bs) h =
    (refl, Holds-overwrite_same xs zero bs (omega arith))

pub Holds-overwrite-Apart :
    (page : List ℕ) (o : ℕ) (bs : List ℕ) (a : ℕ) (cs : List ℕ)
    → Apart o (length bs) a (length cs)
    → Holds page a cs
    → Holds (overwrite page o bs) a cs
unfolding overwrite
Holds-overwrite-Apart [] o bs a cs p h = h
Holds-overwrite-Apart (x ∷ xs) (suc o) bs (suc a) cs p h =
    Holds-overwrite-Apart xs o bs a cs (ground arith) h
Holds-overwrite-Apart (x ∷ xs) (suc o) bs zero [] p h = tt
Holds-overwrite-Apart (x ∷ xs) (suc o) bs zero (c ∷ cs) p h =
    (h.0, Holds-overwrite-Apart xs o bs zero cs (ground arith) (h.1))
Holds-overwrite-Apart (x ∷ xs) zero [] a cs p h = h
Holds-overwrite-Apart (x ∷ xs) zero (b ∷ bs) (suc a) cs p h =
    Holds-overwrite-Apart xs zero bs a cs (ground arith) h
Holds-overwrite-Apart (x ∷ xs) zero (b ∷ bs) zero [] p h = tt
Holds-overwrite-Apart (x ∷ xs) zero (b ∷ bs) zero (c ∷ cs) p h = absurd (ground arith)

pub Holds-length :
    (page : List ℕ) (a : ℕ) (bs : List ℕ) → Holds page a bs → a + length bs ≤ length page
Holds-length page zero [] h = omega arith
Holds-length [] zero (b ∷ bs) h = elim h [ ]
Holds-length (x ∷ xs) zero (b ∷ bs) h = omega (arith, Holds-length xs zero bs (h.1))
Holds-length [] (suc a) bs h = elim h [ ]
Holds-length (x ∷ xs) (suc a) bs h = omega (arith, Holds-length xs a bs h)

-- What follows the bytes on the page.
Holds-drop :
    (page : List ℕ) (a : ℕ) (bs : List ℕ)
    → Holds page a bs
    → (back : List ℕ) × (drop a page ≡ bs ++ back)
Holds-drop page zero [] h = (page, refl)
Holds-drop [] zero (b ∷ bs) h = elim h [ ]
Holds-drop (x ∷ xs) zero (b ∷ bs) h = let (back, e) = Holds-drop xs zero bs (h.1) in (back, cc)
Holds-drop [] (suc a) bs h = elim h [ ]
Holds-drop (x ∷ xs) (suc a) bs h = Holds-drop xs a bs h

take-of_append : (bs back : List ℕ) (n : ℕ) → n ≡ length bs → take n (bs ++ back) ≡ bs
take-of_append [] back zero e = refl
take-of_append [] back (suc n) e = absurd (omega arith)
take-of_append (b ∷ bs) back zero e = absurd (omega arith)
take-of_append (b ∷ bs) back (suc n) e = ap (λ t. b ∷ t) (take-of_append bs back n (omega arith))

pub Holds-slice :
    (page : List ℕ) (a : ℕ) (bs : List ℕ) (b : ℕ)
    → Holds page a bs
    → b ≡ a + length bs
    → slice page a b ≡ some bs
unfolding slice
Holds-slice page a bs b h e =
    let (back, split) = Holds-drop page a bs h in
    let inside = Holds-length page a bs h in
    rw
      (
        in_bounds a b (length page) (omega arith) (omega arith),
        split,
        take-of_append bs back (b - a) (omega arith),
      )
      refl

pub Holds-slice_from :
    (page : List ℕ) (a : ℕ) (bs : List ℕ)
    → Holds page a bs
    → (back : List ℕ) × (slice_from page a ≡ some (bs ++ back))
unfolding slice_from
Holds-slice_from page a bs h =
    let (back, split) = Holds-drop page a bs h in
    let inside = Holds-length page a bs h in
    (back, rw (le→leb a (length page) (omega arith), split) refl)

take-drop-overwrite :
    (page : List ℕ) (o : ℕ) (bs : List ℕ) (n : ℕ)
    → o + length bs ≤ length page
    → n ≡ o + length bs
    → take o page ++ (bs ++ drop n page) ≡ overwrite page o bs
unfolding overwrite
take-drop-overwrite [] zero [] zero h e = refl
take-drop-overwrite [] zero [] (suc n) h e = refl
take-drop-overwrite [] zero (b ∷ bs) n h e = absurd (omega arith)
take-drop-overwrite [] (suc o) bs n h e = absurd (omega arith)
take-drop-overwrite (x ∷ xs) (suc o) bs zero h e = absurd (omega arith)
take-drop-overwrite (x ∷ xs) (suc o) bs (suc n) h e =
    ap (λ t. x ∷ t) (take-drop-overwrite xs o bs n (omega arith) (omega arith))
take-drop-overwrite (x ∷ xs) zero [] zero h e = refl
take-drop-overwrite (x ∷ xs) zero [] (suc n) h e = absurd (omega arith)
take-drop-overwrite (x ∷ xs) zero (b ∷ bs) zero h e = absurd (omega arith)
take-drop-overwrite (x ∷ xs) zero (b ∷ bs) (suc n) h e =
    ap (λ t. b ∷ t) (take-drop-overwrite xs zero bs n (omega arith) (omega arith))

-- A `put` that fits is that write.
pub put_bytes-overwrite :
    {V : Type 0} (page : List ℕ) (o : ℕ) (bs : List ℕ) (page_num : ℕ)
    → o + length bs ≤ length page
    → length page ≤ 65536
    → put_bytes {V = V} page o bs page_num ≡ ok (overwrite page o bs)
unfolding put_bytes
put_bytes-overwrite page o bs page_num h small =
    rw
      (
        le→leb (saturating_add o (length bs)) (length page) (omega arith),
        take-drop-overwrite page o bs (o + length bs) h refl,
      )
      refl

-- The front of a page.
pub Holds-append : (bs back : List ℕ) → Holds (bs ++ back) 0 bs
Holds-append [] back = tt
Holds-append (b ∷ bs) back = (refl, Holds-append bs back)

-- The two parts of bytes that stand together.
pub Holds-split :
    (page : List ℕ) (a : ℕ) (bs cs : List ℕ)
    → Holds page a (bs ++ cs)
    → Holds page a bs × Holds page (a + length bs) cs
Holds-split page zero [] cs h =
    let here : ◌≡◌ {A = ℕ} 0 (0 + 0) = omega arith in (tt, subst (λ a. Holds page a cs) here h)
Holds-split [] zero (b ∷ bs) cs h = elim h [ ]
Holds-split (x ∷ xs) zero (b ∷ bs) cs (e, h) =
    let (front, back) = Holds-split xs zero bs cs h in
    let at : suc (0 + length bs) ≡ 0 + suc (length bs) = omega arith in
    ((e, front), subst (λ a. Holds (x ∷ xs) a cs) at back)
Holds-split [] (suc a) bs cs h = elim h [ ]
Holds-split (x ∷ xs) (suc a) bs cs h =
    let (front, back) = Holds-split xs a bs cs h in
    let at : suc (a + length bs) ≡ suc a + length bs = omega arith in
    (front, subst (λ a. Holds (x ∷ xs) a cs) at back)
