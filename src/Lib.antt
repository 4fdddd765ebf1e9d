-- ===== src/Lib.antt =====
-- sqlite-rs: a memory-safe, file-compatible replication of SQLite (Rust, src/).
--
-- The program has these parts: the record codec (src/record), which turns column values into row
-- payloads and back; the file-level formats of the pager (src/header.rs, src/pager), under the b-trees
-- (src/btree) and over the operating-system layer (src/vfs); and the query engine (src/parser,
-- src/codegen, src/vdbe), which compiles SQL to a program of opcodes over those rows.
--
-- Record models src/record. `Varint` is varint.rs and the varint functions of encode.rs, loop by
-- loop; `Value`, `Encode`, `Decode` and `Walk` are value.rs, encode.rs and decode.rs under the source's
-- function names (`encode_record` stands for encode_record_into on cleared buffers). The header walk
-- takes fuel, the header's length, which is enough since every entry moves on; the loop on the header's
-- length takes nine rounds, the most that a varint can add. The other modules of Record are lemmas and
-- theorems, and `Runs` holds the tests.
--
-- Pager models the file-level formats. `Pager.Header` is src/header.rs: `parse` with its checks, the
-- journal mode and the first page of a new file; the shared part of its two version checks is one
-- function. `Pager.Freelist` is src/pager/freelist.rs: trunk pages read from and written into a page
-- buffer, which a writing function returns changed.
--
-- `Pager.Wal` is src/pager/wal.rs: `Header` the header and the checksum, with u32::from_ne_bytes as a
-- parameter; `Frames` the scan for the committed pages with its undo log and that for the end of the
-- log, both on the log's length as fuel, since a round takes the bytes of a frame; `Writer` WalWriter,
-- on a file whose state and operations are parameters. A page map is a function. `Commits` states what
-- a reader sees as the pages of the last commit, kept by copying the page map.
--
-- `Pager.Journal` is src/pager/journal.rs: the journal's header, checksum, records, and recovery, with
-- the write_at of a file as a parameter. The checksum's loop takes the page's length as fuel, and every
-- round moves its index down by 200; recovery takes one round for each record that the header counts.
--
-- Btree models src/btree.rs, on a page source that is a parameter, as PageSource is a type parameter
-- of the code. `Btree.Page` has the fields and cells of a page; `Cursor` is TableCursor with its
-- scans in both directions, a loop as rounds on the stack of frames; `Seek` its point search;
-- `Payload` the payloads with their overflow chains; `Interior` the row count and the descent to a
-- leaf; `Leaf` the cells of a leaf; `Free` the free blocks of a page (its put is `put_bytes`) and
-- the splices; `Rebuild` the pages written anew from their cells. A method gives back the cursor it
-- leaves, and a write the page. The cursor's loops take MAX_PAGES_VISITED *
-- 65538 + 1 rounds of fuel, since a page is pushed at most MAX_PAGES_VISITED times and a frame stays
-- for at most 65537 rounds; the other loops take the visits or reads that are left, or a round for
-- each cell of a page. `Cursor.Walk` has the walk that the scan is compared with, `Seek.Tree` the
-- search trees; `Rebuild.Leaf` says how the cells of a leaf page are laid out,
-- and `Rebuild.Find` what the search for one of them gives.
-- `Btree.Insert` is of src/btree/table/insert.rs: the cell of a row (`encode_leaf_cell`, with the
-- writes of the overflow chain as a parameter), insert_into_leaf as `insert_in_page`, up to its split,
-- and `split_leaf`, which is given the two pages and the header's start that page1_header_start gives,
-- and the parent's entries in insert_into_parent as `place_split`. Its inserts use the scan of `Leaf`,
-- the splice of `Free` and the rebuild. `Insert.Framed` says what the bytes of a row's cell are.
--
-- Lock models src/vfs/lock.rs: the ladder of lock levels, with fcntl as a parameter on an arbitrary
-- state of the operating system. Each of the two loops of set_level takes four rounds of fuel, one for
-- each step of the ladder.
--
-- Vfs models the file of src/vfs/memory.rs, on which `Vfs.Durable` puts a write-ahead log: the writer's
-- calls on it, composed with the reader.
--
-- Vdbe models the values of the query engine and the opcodes over registers. `Vdbe.Floats` is the
-- machine's f64 as a parameter, with what IEEE 754 and the casts of Rust promise in `IsExact`; `Toy` is
-- a machine for the tests that keeps these laws. `Record.Collation` is src/record/collation.rs,
-- `Vdbe.Compare` compare.rs (its `compare` is `compare_values`), `Logic` value.rs, `Affinity` affinity.rs
-- without apply_affinity, `Numbers` and `Coerce` coerce.rs without as_text and concat (its bit_and, bit_or and bit_not
-- are `and_bits`, `or_bits` and `not_bits`), and `Aggregate` aggregate.rs; a whole aggregation over one
-- column is `Aggregate.Run`. `Vdbe.Machine` has the register file of exec.rs, and in its children the
-- opcodes of control.rs, arithmetic.rs and result.rs and the part of `dispatch` that calls them.
-- `Vdbe.Execution` is `Execution` of exec.rs on those opcodes: next_row takes MAX_STEPS + 1 rounds of
-- fuel, one more than the step limit lets it make.
--
-- Machine words are natural numbers with their wrap written out; usize has 64 bits; an i64 is an integer
-- with its range as a hypothesis; an f64 is its bit pattern; a text is its list of Unicode scalar values,
-- with the standard library's UTF-8 and UTF-16 conversions written out in Prelude/Text.
--
-- Not modelled: messages of errors and the opcode names in them, allocation, the cascade of splits
-- and the deletes of b-trees over the pager, index b-trees, the page cache and its commits,
-- checkpoints and the index of the write-ahead log, the opcodes on cursors, transactions and affinities,
-- the printing and parsing of reals, the sorter and the scalar functions, the
-- parser, the code generator, and the command-line tools.
pub mod Btree
pub mod Lock
pub mod Pager
pub mod Prelude
pub mod Record
pub mod Vdbe
pub mod Vfs
