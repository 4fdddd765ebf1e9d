-- ===== src/Pager/Header/NewPage.antt =====
-- The first page of a new file, for every page size of the file format.
use mathlib.Core.List.{append_assoc}
use mathlib.Core.Path.{subst}
use sqlite_rs.Prelude.{
  ℕ, zero, suc, ◌+◌, ◌-◌, ◌^◌, ◌≤◌, ◌<◌, ◌≡◌, refl, sym, ap, ◌∙◌, arith, le→leb, List, [], ◌∷◌,
  ◌++◌, length, take, drop, length-append, length-take, length-drop, ◌⊎◌, inl, inr,
}
use sqlite_rs.Prelude.Outcome.{ok}
use sqlite_rs.Prelude.Bytes.{All, saturating_add, slice, to_be, from_be, from_be_loop}
use sqlite_rs.Record.Value.{utf8}
use sqlite_rs.Pager.Freelist.{zeros}
use sqlite_rs.Pager.Freelist.Layout.{length-zeros}
use sqlite_rs.Pager.Header.{
  DatabaseHeader, read_u8, read_u32, bytes_equal, is_magic, has_magic, some_power, is_power_of_two,
  resolve_page_size, known_version, text_encoding_of, read_page_size, read_version_byte,
  read_reserved, parse, put, put_all, first_page_puts, new_empty_page1,
}
use sqlite_rs.Pager.Header.Prefix.{parse-append, take-drop-append}

-- The header of a file with one page and no tables.
abbrev pub empty_header : ℕ → DatabaseHeader
empty_header size = record {
  page_size = size;
  write_version = 1;
  read_version = 1;
  reserved_space = 0;
  page_count = 1;
  freelist_trunk_page = 0;
  freelist_page_count = 0;
  schema_cookie = 0;
  schema_format = 4;
  largest_root_btree_page = 0;
  text_encoding = utf8;
  user_version = 0;
  application_id = 0;
}

zeros-append : (a n k : ℕ) → k ≡ a + n → zeros k ≡ zeros a ++ zeros n
unfolding zeros
zeros-append zero n k e = ap zeros (same e)
  where
    same : {a b : ℕ} → a ≡ 0 + b → a ≡ b
    same e = omega (arith, e)
zeros-append (suc a) n zero e = absurd (omega (arith, e))
zeros-append (suc a) n (suc k) e = ap (λ t. 0 ∷ t) (zeros-append a n k (omega (arith, e)))

take-inside : (n : ℕ) (xs ys : List ℕ) → n ≤ length xs → take n (xs ++ ys) ≡ take n xs
take-inside n xs ys h = take-drop-append xs ys 0 n (omega (arith, h))

drop-inside : (n : ℕ) (xs ys : List ℕ) → n ≤ length xs → drop n (xs ++ ys) ≡ drop n xs ++ ys
drop-inside zero xs ys h = refl
drop-inside (suc n) [] ys h = absurd (omega (arith, h))
drop-inside (suc n) (x ∷ xs) ys h = drop-inside n xs ys (omega (arith, h))

Fits : ℕ → ℕ × List ℕ → Type 0
Fits n (offset, bytes) = offset + length bytes ≤ n

length-put :
    (buf : List ℕ) (offset : ℕ) (bytes : List ℕ)
    → offset + length bytes ≤ length buf
    → length (put buf offset bytes) ≡ length buf
unfolding put
length-put buf offset bytes h = ground (
  arith,
  length-append (take offset buf) (bytes ++ drop (offset + length bytes) buf),
  length-append bytes (drop (offset + length bytes) buf),
  length-take offset buf,
  length-drop (offset + length bytes) buf,
)

put-append :
    (buf more : List ℕ) (offset : ℕ) (bytes : List ℕ)
    → offset + length bytes ≤ length buf
    → length buf + length more < 2 ^ 62
    → put (buf ++ more) offset bytes ≡ put buf offset bytes ++ more
unfolding put
put-append buf more offset bytes h r =
    let total = length-append buf more in
    let all =
      le→leb (saturating_add offset (length bytes)) (length (buf ++ more))
        (omega (arith, h, total)) in
    let part = le→leb (saturating_add offset (length bytes)) (length buf) (omega (arith, h)) in
    let before = take-inside offset buf more (omega (arith, h)) in
    let after = drop-inside (offset + length bytes) buf more h in
    rw (all, part, before, after)
      (ap (λ t. take offset buf ++ t)
          (sym (append_assoc bytes (drop (offset + length bytes) buf) more))
        ∙ sym (append_assoc (take offset buf) (bytes ++ drop (offset + length bytes) buf) more))

put_all-append :
    (puts : List (ℕ × List ℕ)) (buf more : List ℕ)
    → All (Fits (length buf)) puts
    → length buf + length more < 2 ^ 62
    → put_all (buf ++ more) puts ≡ put_all buf puts ++ more
unfolding put_all Fits
put_all-append [] buf more h r = refl
put_all-append ((offset, bytes) ∷ rest) buf more h r =
    let same = length-put buf offset bytes (h.0) in
    ap (λ b. put_all b rest) (put-append buf more offset bytes (h.0) r)
    ∙ put_all-append rest (put buf offset bytes) more
        (subst (λ n. All (Fits n) rest) (sym same) (h.1)) (omega (arith, r, same))

-- The header part of the page.
front : ℕ → List ℕ
front size = put_all (zeros 108) (first_page_puts size)

front-Fits : (size : ℕ) → All (Fits (length (zeros 108))) (first_page_puts size)
unfolding Fits first_page_puts to_be
front-Fits size = rw (length-zeros 108) (
  omega arith,
  (
    omega arith,
    (
      omega arith,
      (
        omega arith,
        (
          omega arith,
          (
            omega arith,
            (
              omega arith,
              (omega arith, (omega arith, (omega arith, (omega arith, (omega arith, tt))))),
            ),
          ),
        ),
      ),
    ),
  ),
)

length-put_all :
    (puts : List (ℕ × List ℕ)) (buf : List ℕ)
    → All (Fits (length buf)) puts
    → length (put_all buf puts) ≡ length buf
unfolding put_all Fits
length-put_all [] buf h = refl
length-put_all ((offset, bytes) ∷ rest) buf h =
    let same = length-put buf offset bytes (h.0) in
    length-put_all rest (put buf offset bytes) (subst (λ n. All (Fits n) rest) (sym same) (h.1))
    ∙ same

-- The rest of the page does not matter.
front_decides :
    (size : ℕ)
    → 108 ≤ size
    → size < 2 ^ 62
    → parse (front size) ≡ ok (empty_header size)
    → parse (new_empty_page1 size) ≡ ok (empty_header size)
unfolding front new_empty_page1
front_decides size low high e =
    let split = zeros-append 108 (size - 108) size (omega (arith, low)) in
    let apart =
      put_all-append (first_page_puts size) (zeros 108) (zeros (size - 108)) (front-Fits size)
        (omega (arith, length-zeros 108, length-zeros (size - 108), low, high)) in
    let long = length-put_all (first_page_puts size) (zeros 108) (front-Fits size) in
    ap (λ b. parse (put_all b (first_page_puts size))) split
    ∙ ap parse apart
    ∙ parse-append (front size) (zeros (size - 108)) (omega (arith, long, length-zeros 108))
    ∙ e

eight_sizes :
    (k : ℕ)
    → 9 ≤ k
    → k ≤ 16
    → (k ≡ 9)
      ⊎ ((k ≡ 10) ⊎ ((k ≡ 11) ⊎ ((k ≡ 12) ⊎ ((k ≡ 13) ⊎ ((k ≡ 14) ⊎ ((k ≡ 15) ⊎ (k ≡ 16)))))))
eight_sizes k p q = omega (arith, p, q)

-- A new file's first page is read as the header of a UTF-8 file of one page, for each of the eight
-- page sizes of the file format.
parse-new_empty_page1 :
    (k : ℕ) → 9 ≤ k → k ≤ 16 → parse (new_empty_page1 (2 ^ k)) ≡ ok (empty_header (2 ^ k))
unfolding front parse has_magic is_magic bytes_equal read_page_size read_u8 resolve_page_size
    is_power_of_two some_power read_version_byte known_version read_reserved read_u32
    text_encoding_of slice to_be from_be from_be_loop first_page_puts put_all put zeros
parse-new_empty_page1 k p q = elim (eight_sizes k p q) [
  | inl e ↦ at 9 e (front_decides 512 (omega arith) (omega arith) refl)
  | inr (inl e) ↦ at 10 e (front_decides 1024 (omega arith) (omega arith) refl)
  | inr (inr (inl e)) ↦ at 11 e (front_decides 2048 (omega arith) (omega arith) refl)
  | inr (inr (inr (inl e))) ↦ at 12 e (front_decides 4096 (omega arith) (omega arith) refl)
  | inr (inr (inr (inr (inl e)))) ↦ at 13 e (front_decides 8192 (omega arith) (omega arith) refl)
  | inr (inr (inr (inr (inr (inl e))))) ↦
      at 14 e (front_decides 16384 (omega arith) (omega arith) refl)
  | inr (inr (inr (inr (inr (inr (inl e)))))) ↦
      at 15 e (front_decides 32768 (omega arith) (omega arith) refl)
  | inr (inr (inr (inr (inr (inr (inr e)))))) ↦
      at 16 e (front_decides 65536 (omega arith) (omega arith) refl)
]
  where
    at :
        (j : ℕ)
        → k ≡ j
        → parse (new_empty_page1 (2 ^ j)) ≡ ok (empty_header (2 ^ j))
        → parse (new_empty_page1 (2 ^ k)) ≡ ok (empty_header (2 ^ k))
    at j e done =
        subst (λ n. parse (new_empty_page1 (2 ^ n)) ≡ ok (empty_header (2 ^ n))) (sym e) done
