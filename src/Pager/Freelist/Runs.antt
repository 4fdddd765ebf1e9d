-- ===== src/Pager/Freelist/Runs.antt =====
-- Concrete runs of the freelist pages.
use sqlite_rs.Prelude.{ℕ, ◌≡◌, refl, arith, List, [], ◌∷◌, take}
use sqlite_rs.Prelude.Outcome.{ok, err, ◌>>=◌}
use sqlite_rs.Prelude.Bytes.{slice, to_be, from_be, from_be_loop}
use sqlite_rs.Pager.Freelist.{
  page_too_short, read_u32, overwrite, write_u32, leaf_offset, parse_leaves, parse, write_leaves,
  zeros, fill_tail, TrunkPage, write,
}
use sqlite_rs.Pager.Freelist.RoundTrip.{parse-write}

abbrev two_leaves : TrunkPage
two_leaves = record { next_trunk = 5; leaves = 7 ∷ 300 ∷ [] }

abbrev old_page : List ℕ
old_page = 9 ∷ 9 ∷ 9 ∷ 9 ∷ 9 ∷ 9 ∷ 9 ∷ 9 ∷ 9 ∷ 9 ∷ 9 ∷ 9 ∷ 9 ∷ 9 ∷ 9 ∷ 9 ∷ 9 ∷ 9 ∷ 9 ∷ 9 ∷ []

writes :
    write two_leaves old_page
    ≡ ok (0 ∷ 0 ∷ 0 ∷ 5 ∷ 0 ∷ 0 ∷ 0 ∷ 2 ∷ 0 ∷ 0 ∷ 0 ∷ 7 ∷ 0 ∷ 0 ∷ 1 ∷ 44 ∷ 0 ∷ 0 ∷ 0 ∷ 0 ∷ [])
unfolding write write_u32 write_leaves leaf_offset overwrite slice to_be fill_tail zeros
writes = refl

-- No room for the second leaf.
write_fails : write two_leaves (take 14 old_page) ≡ err (page_too_short 12 14)
unfolding write write_u32 write_leaves leaf_offset overwrite slice to_be fill_tail zeros
write_fails = refl

-- A count that the page cannot hold is cut to what fits.
claims_too_much :
    parse old_page
    ≡ ok (record { next_trunk = 151587081; leaves = 151587081 ∷ 151587081 ∷ 151587081 ∷ [] })
unfolding parse read_u32 parse_leaves leaf_offset slice from_be from_be_loop
claims_too_much = refl

parse-write_example : (write two_leaves old_page >>= parse) ≡ ok two_leaves
parse-write_example =
    parse-write two_leaves old_page (omega arith) (omega arith, (omega arith, tt)) (omega arith)
      (omega arith)
