-- ===== src/SsTableIndex/Seek.antt =====
-- `seek` returns what a search in the whole table would.
use project_db.Common.{
  ℕ, zero, suc, ◌+◌, ◌≤◌, ◌<◌, ◌≡◌, some, [], ◌∷◌, ◌++◌, append_assoc, arith, length, All,
  length-append, drop-append, Bytes, ok, ◌-◌, refl, sym, Option, none, All-append_left,
  All-append_right,
}
use project_db.Key.{Key, key_ord}
use project_db.Serializer.Containers.{deserialize_block_loop, deserialize_block}
use project_db.Serializer.Sequences.{
  insert_all, encode_all, encode_all-append, block_loop_stop, block_loop_step,
}
use project_db.Serializer.Streams.{istream, seekg}
use project_db.SsTable.{Table}
use project_db.SsTable.Stored.{
  insert_entry, deserialize_entry, stored_entry, encode_entry, entry_reads, entry_codec,
  encode_entry-pos, collect_entries,
}
use project_db.SsTableIndex.{SsTableIndex, seek_in, get_potential_block_pos}
use project_db.SsTableIndex.Blocks.{entries_length, IndexesFrom, IsBlock, Answers}
use project_db.StdMap.{find, IsSorted}
use project_db.SsTableIndex.Search.{get_potential_block_pos-Answers}
use project_db.StdMap.Order.{IsSorted-append_left, IsSorted-append_right}
use mathlib.Core.Path.{subst}

-- The file holds the entries of `t` behind a header, and the index points into it.
pub record Describes (index : SsTableIndex) (file : Bytes) (t : Table) : Type 0 where
  pub header : Bytes
  pub content : file ≡ header ++ encode_all entry_codec t
  pub indexes : IndexesFrom index.m_eof_pos (length header) t index.m_index
  pub sorted : IsSorted t
  pub fits : All stored_entry.Fits t

-- The block loop reads the entries up to the end of the block, and stops there.
block_loop_reads :
    (c : Table) (fuel end : ℕ) (rtn : Table) (rest : Bytes) (pos : ℕ)
    → All stored_entry.Fits c
    → end ≡ pos + entries_length c
    → length c < fuel
    → deserialize_block_loop deserialize_entry insert_entry fuel end rtn
        (istream (encode_all entry_codec c ++ rest) pos)
      ≡ ok (insert_all insert_entry c rtn)
block_loop_reads c zero end rtn rest pos f e h = elim h [ ]
block_loop_reads [] (suc fuel) end rtn rest pos f e h =
    block_loop_stop deserialize_entry insert_entry fuel end rtn (istream rest pos)
      (omega (arith, e))
block_loop_reads (x ∷ c) (suc fuel) end rtn rest pos f e h =
    let len = length-append (encode_entry x) (encode_all entry_codec c) in
    rw
      (
        block_loop_step deserialize_entry insert_entry fuel end rtn
            (istream (encode_all entry_codec (x ∷ c) ++ rest) pos)
            (omega (arith, e, len, encode_entry-pos x)),
        append_assoc (encode_entry x) (encode_all entry_codec c) rest,
        entry_reads x (encode_all entry_codec c ++ rest) pos f.0,
      )
      (block_loop_reads c fuel end (insert_entry x rtn) rest (pos + length (encode_entry x)) f.1
        (omega (arith, e, len)) (omega arith))

-- Each entry has a byte at least, so the fuel of a block is enough.
length-le-entries_length : (c : Table) → length c ≤ entries_length c
length-le-entries_length [] = omega arith
length-le-entries_length (x ∷ c) = omega (
  arith,
  length-le-entries_length c,
  encode_entry-pos x,
  length-append (encode_entry x) (encode_all entry_codec c),
)

seekg_before :
    (before rest : Bytes) (start : ℕ)
    → start ≡ length before
    → seekg (some (before ++ rest)) start ≡ istream rest start
seekg_before before rest start e = rw e (rw (drop-append before rest))

-- Where the block stands in the file.
block_content :
    (file header : Bytes) (t before block after : Table)
    → file ≡ header ++ encode_all entry_codec t
    → t ≡ before ++ (block ++ after)
    → file
      ≡ (header ++ encode_all entry_codec before)
        ++ (encode_all entry_codec block ++ encode_all entry_codec after)
block_content file header t before block after e parts =
    rw
      (
        e,
        parts,
        encode_all-append entry_codec before (block ++ after),
        encode_all-append entry_codec block after,
      )
      (sym (append_assoc header (encode_all entry_codec before) _))

module _ {index : SsTableIndex} {file : Bytes} {t : Table} {k : Key} {start end : ℕ}
    (d : Describes index file t) (i : IsBlock k (length d.header) t start end) where
  block_stream :
      seekg (some file) start
      ≡ istream (encode_all entry_codec i.block ++ encode_all entry_codec i.after) start
  block_stream = rw (block_content file d.header t i.before i.block i.after d.content i.parts) (
      seekg_before (d.header ++ encode_all entry_codec i.before) _ start
        (omega (arith, i.starts, length-append d.header (encode_all entry_codec i.before))))

  block_fits : All stored_entry.Fits i.block
  block_fits = All-append_left stored_entry.Fits i.block i.after (
      All-append_right stored_entry.Fits i.before (i.block ++ i.after)
        (subst (All stored_entry.Fits) i.parts d.fits))

  block-IsSorted : IsSorted i.block
  block-IsSorted = IsSorted-append_left i.block i.after (
      IsSorted-append_right i.before (i.block ++ i.after)
        (subst (λ m. IsSorted m) i.parts d.sorted))

  -- Reading the block gives its entries.
  block_reads :
      deserialize_block deserialize_entry insert_entry [] (some file) start end ≡ ok i.block
  unfolding deserialize_block
  block_reads = rw block_stream (
      rw (
        block_loop_reads i.block (suc (end - start)) end [] (encode_all entry_codec i.after) start
            block_fits i.ends (omega (arith, i.ends, length-le-entries_length i.block)),
        collect_entries i.block block-IsSorted,
      ))

seek_answer :
    {index : SsTableIndex} {file : Bytes} {t : Table} (k : Key) (d : Describes index file t)
    (a : Option (ℕ × ℕ))
    → Answers k (length d.header) t a
    → get_potential_block_pos index k ≡ a
    → seek_in index (some file) k ≡ ok (find k t)
unfolding seek_in
seek_answer k d none absent e = rw (e, seek_in) (rw absent)
seek_answer k d (some (start, end)) i e = rw (e, seek_in) (rw (block_reads d i, i.same))

-- Seeking any key in a file that the index describes finds what the table of the file holds.
pub seek_in-find :
    (index : SsTableIndex) (file : Bytes) (t : Table) (k : Key)
    → Describes index file t
    → seek_in index (some file) k ≡ ok (find k t)
seek_in-find index file t k d =
    seek_answer k d (get_potential_block_pos index k)
      (get_potential_block_pos-Answers index k (length d.header) t d.sorted d.indexes) refl
