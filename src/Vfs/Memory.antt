-- ===== src/Vfs/Memory.antt =====
-- vfs/memory.rs: a file in memory. A lock that another thread's panic poisoned is left out.
use sqlite_rs.Prelude.{
  ℕ, ◌+◌, ◌-◌, leb, ltb, if◌then◌else◌, List, [], ◌++◌, length, take, drop, replicate,
}
use sqlite_rs.Prelude.Bytes.{saturating_add}
use sqlite_rs.Prelude.Outcome.{Result, ok}

pub record MemoryVfsFile : Type 0 where
  pub contents : List ℕ
  -- shared by all the files of the file system
  pub sync_calls : ℕ

-- `resize(len, 0)`
unfoldable pub resize : List ℕ → ℕ → List ℕ
resize bytes len = take len bytes ++ replicate (len - length bytes) 0

module _ {V : Type 0} where
  unfoldable pub read_at : MemoryVfsFile → ℕ → ℕ → Result V (List ℕ)
  read_at file n offset =
      if leb (length (file.contents)) offset
      then ok []
      else ok (take n (drop offset (file.contents)))

  unfoldable pub size : MemoryVfsFile → Result V ℕ
  size file = ok (length (file.contents))

  -- The data, grown to the end of the buffer, with the buffer copied over it.
  unfoldable pub write_at : MemoryVfsFile → List ℕ → ℕ → Result V MemoryVfsFile
  write_at file buf offset =
      let end = saturating_add offset (length buf) in
      let grown =
        if ltb (length (file.contents)) end then resize (file.contents) end else file.contents in
      ok (record file { contents = take offset grown ++ (buf ++ drop end grown) })

  unfoldable pub truncate : MemoryVfsFile → ℕ → Result V MemoryVfsFile
  truncate file len = ok (record file { contents = resize (file.contents) len })

  unfoldable pub sync : MemoryVfsFile → Result V MemoryVfsFile
  sync file = ok (record file { sync_calls = file.sync_calls + 1 })
