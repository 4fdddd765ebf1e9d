-- ===== src/Btree/Payload/Whole.antt =====
-- src/btree.rs: bounds on what a cell keeps of a payload, and the payload that is put together.
use native.Mathlib.Nat.{mod-le}
use sqlite_rs.Prelude.{
  ℕ, zero, suc, ◌+◌, ◌-◌, ◌%◌, ◌≤◌, ◌<◌, ◌^◌, ◌≡◌, refl, ap, subst, ◌∙◌, arith, ◌==◌, ==_iff, ltb,
  min, max, not, if◌then◌else◌, Bool, true, false, ◌⊎◌, inl, inr, List, [], ◌∷◌, ◌++◌, length,
  length-append, length-take, drop, some,
}
use sqlite_rs.Prelude.Bytes.{saturating_add, slice, slice_from, slice-length}
use sqlite_rs.Prelude.Outcome.{Result, ok, err, ok_or, guard, ok_or-eq-ok, ◌>>=◌, >>=-eq-ok}
use sqlite_rs.Btree.Error.{
  BtreeError, page_too_short, payload_too_short, payload_too_large, overflow_chain_too_long,
}
use sqlite_rs.Btree.Page.{max_payload_len, max_pages_visited, u32_from_be, read_u32, fetch}
use sqlite_rs.Btree.Payload.{
  max_local, min_local, local_payload_size, Payload, local, owned, may_read, read_overflow,
  overflow_loop, follow_chain, reassemble_rest, reassemble_payload, bytes_of,
}

min_local-bound :
    (usable_size : ℕ) (is_index : Bool)
    → usable_size < 2 ^ 32
    → min_local usable_size ≤ max_local usable_size is_index
unfolding min_local max_local
min_local-bound u true small = omega arith
min_local-bound u false small = omega arith

-- What a cell keeps is no more than the payload and no more than the page has room for, and a payload
-- that overflows leaves at least `min_local` bytes in the cell.
pub local_payload_size-bounds :
    (usable_size payload_len : ℕ) (is_index : Bool)
    → usable_size < 2 ^ 32
    → payload_len < 2 ^ 63
    → (local_payload_size usable_size payload_len is_index ≤ payload_len)
      × (local_payload_size usable_size payload_len is_index ≤ max_local usable_size is_index)
      × (max_local usable_size is_index < payload_len
          → min_local usable_size ≤ local_payload_size usable_size payload_len is_index)
unfolding local_payload_size min_local
local_payload_size-bounds u n is_index small long =
    let least = min_local-bound u is_index small in
    let r = (n - min_local u) % max (u - 4) 1 in
    let rest : r ≤ n - min_local u = mod-le (n - min_local u) (max (u - 4) 1) in
    let add : saturating_add (min_local u) r ≡ min_local u + r = omega arith in
    ground (arith, least, rest, add)

if-cases :
    {A : Type 0} (b : Bool) {x y z : A}
    → (if b then x else y) ≡ z
    → ((b ≡ true) × (x ≡ z)) ⊎ ((b ≡ false) × (y ≡ z))
if-cases true e = inl (refl, e)
if-cases false e = inr (refl, e)

slice-inside : (xs : List ℕ) (n : ℕ) (ys : List ℕ) → slice xs 0 n ≡ some ys → n ≤ length xs
unfolding slice
slice-inside xs n ys e = ground arith

slice_from-drop : (xs : List ℕ) (a : ℕ) (ys : List ℕ) → slice_from xs a ≡ some ys → ys ≡ drop a xs
unfolding slice_from
slice_from-drop xs a ys e = ground arith

module _ {V : Type 0} (source : ℕ → Result V (List ℕ)) where
  read_overflow-length :
      (p taken next : ℕ) (chunk : List ℕ)
      → taken < 2 ^ 63
      → read_overflow source p taken ≡ ok (next, chunk)
      → length chunk ≡ taken
  unfolding read_overflow
  read_overflow-length p taken next chunk small e =
      let (page, was_read, r1) =
        >>=-eq-ok (fetch source p)
          (λ page. read_u32 page 0 p >>= (λ next.
            ok_or (slice page 4 (saturating_add 4 taken)) (page_too_short p (length page))
            >>= (λ chunk. ok (next, chunk))))
          e in
      let (next', got, r2) =
        >>=-eq-ok (read_u32 page 0 p)
          (λ next.
            ok_or (slice page 4 (saturating_add 4 taken)) (page_too_short p (length page))
            >>= (λ chunk. ok (next, chunk)))
          r1 in
      let (chunk', cut, r3) =
        >>=-eq-ok (ok_or (slice page 4 (saturating_add 4 taken)) (page_too_short p (length page)))
          (λ chunk. ok (next', chunk)) r2 in
      let same : chunk' ≡ chunk = cc in
      let long =
        slice-length page 4 (saturating_add 4 taken) chunk
          (ok_or-eq-ok _ _ chunk' cut ∙ ap some same) in
      omega arith

  never_ok : {A : Type 0} {e : BtreeError V} (a : A) → ¬ (err e ≡ ok a)
  never_ok a h = cc

  overflow_loop-length :
      (page_num available remaining p : ℕ) (seen result : List ℕ) (hops : ℕ) (payload : Payload)
      → available < 2 ^ 63
      → overflow_loop source page_num available remaining p seen result hops ≡ ok payload
      → length (bytes_of payload) ≡ length result + remaining
  unfolding overflow_loop bytes_of
  overflow_loop-length page_num available remaining p seen result zero payload small e =
      elim (if-cases (remaining == 0) e) [
        | inl (empty, done) ↦
            let same : owned result ≡ payload = cc in
            subst (λ q. length (bytes_of q) ≡ length result + remaining) same (ground arith)
        | inr (more, stuck) ↦
            let (u, allowed, never) =
              >>=-eq-ok (may_read page_num p seen 0)
                (λ (_ : Unit {0}). err (overflow_chain_too_long page_num max_pages_visited))
                stuck in
            absurd (never_ok payload never)
      ]
  overflow_loop-length page_num available remaining p seen result (suc hops) payload small e =
      let taken = min remaining available in
      let next = λ (read : ℕ × List ℕ).
        overflow_loop source page_num available (remaining - taken) (read.0) (p ∷ seen)
          (result ++ read.1) hops in
      elim (if-cases (remaining == 0) e) [
        | inl (empty, done) ↦
            let same : owned result ≡ payload = cc in
            subst (λ q. length (bytes_of q) ≡ length result + remaining) same (ground arith)
        | inr (more, going) ↦
            let (u, allowed, rest) =
              >>=-eq-ok (may_read page_num p seen (hops + 1))
                (λ (_ : Unit {0}). read_overflow source p taken >>= next) going in
            let ((after, chunk), got, rest') = >>=-eq-ok (read_overflow source p taken) next rest in
            let long = read_overflow-length p taken after chunk (omega arith) got in
            let all =
              overflow_loop-length page_num available (remaining - taken) after (p ∷ seen)
                (result ++ chunk) hops payload small rest' in
            omega (arith, length-append result chunk, all, long)
      ]

  follow_chain-length :
      (u page_num n at : ℕ) (cell_tail local_bytes : List ℕ) (payload : Payload)
      → u < 2 ^ 32
      → follow_chain source u page_num n at cell_tail local_bytes ≡ ok payload
      → length (bytes_of payload) ≡ length local_bytes + (n - at)
  unfolding follow_chain
  follow_chain-length u page_num n at cell_tail local_bytes payload small e =
      let (bytes, cut, rest) =
        >>=-eq-ok (ok_or (slice cell_tail at (saturating_add at 4)) (payload_too_short page_num))
          (λ bytes.
            overflow_loop source page_num (max (u - 4) 1) (n - at) (u32_from_be bytes) []
              local_bytes max_pages_visited)
          e in
      overflow_loop-length page_num (max (u - 4) 1) (n - at) (u32_from_be bytes) [] local_bytes
        max_pages_visited payload (omega arith) rest

  reassemble_rest-length :
      (u page_num : ℕ) (page : List ℕ) (start n at : ℕ) (payload : Payload)
      → u < 2 ^ 32
      → at ≤ n
      → reassemble_rest source u page_num page start n at (drop start page) ≡ ok payload
      → length (bytes_of payload) ≡ n
  unfolding reassemble_rest bytes_of
  reassemble_rest-length u page_num page start n at payload small fits e =
      let tail = drop start page in
      let (kept, cut, rest) =
        >>=-eq-ok (ok_or (slice tail 0 at) (payload_too_short page_num))
          (λ kept.
            if at == n
            then ok (local page start at)
            else follow_chain source u page_num n at tail kept)
          e in
      let cut' = ok_or-eq-ok (slice tail 0 at) _ kept cut in
      let long = slice-length tail 0 at kept cut' in
      let inside = slice-inside tail at kept cut' in
      elim (if-cases (at == n) rest) [
        | inl (whole, done) ↦
            let same : local page start at ≡ payload = cc in
            subst (λ q. length (bytes_of q) ≡ n) same
              (omega (arith, length-take at tail, inside, (==_iff at n).0 whole))
        | inr (more, going) ↦
            let all = follow_chain-length u page_num n at tail kept payload small going in
            omega arith
      ]

  -- A payload that is put together, from the cell alone or from a chain of overflow pages, has the
  -- length that the cell states, whatever the pages hold.
  pub reassemble_payload-length :
      (usable_size page_num : ℕ) (page : List ℕ) (tail_start payload_len : ℕ) (is_index : Bool)
      (payload : Payload)
      → usable_size < 2 ^ 32
      → reassemble_payload source usable_size page_num page tail_start payload_len is_index
        ≡ ok payload
      → length (bytes_of payload) ≡ payload_len
  unfolding reassemble_payload slice_from
  reassemble_payload-length u page_num page start n is_index payload small e =
      let at = local_payload_size u n is_index in
      let (u1, sized, r1) =
        >>=-eq-ok (guard (not (ltb max_payload_len n)) (payload_too_large page_num n))
          (λ _.
            ok_or (slice_from page start) (payload_too_short page_num)
            >>= (λ tail. reassemble_rest source u page_num page start n at tail))
          e in
      let (tail, cut, r2) =
        >>=-eq-ok (ok_or (slice_from page start) (payload_too_short page_num))
          (λ tail. reassemble_rest source u page_num page start n at tail) r1 in
      let short : n < 2 ^ 63 = ground (arith, sized) in
      let (least, room, most) = local_payload_size-bounds u n is_index small short in
      let same : tail ≡ drop start page =
        slice_from-drop page start tail (ok_or-eq-ok (slice_from page start) _ tail cut) in
      reassemble_rest-length u page_num page start n at payload small least
        (subst (λ t. reassemble_rest source u page_num page start n at t ≡ ok payload) same r2)
