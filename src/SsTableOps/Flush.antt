-- ===== src/SsTableOps/Flush.antt =====
-- The index that `flushSSTable` returns describes the file that it writes.
use project_db.Common.{
  ℕ, ◌+◌, ◌-◌, ◌≡◌, Bool, false, ◌||◌, [], ◌∷◌, ◌++◌, append-nil, arith, length, Bytes, ok,
  if◌then◌else◌, refl, sym, ◌∙◌, ◌≢◌, inl, inr, true, not, ◌&&◌, append_assoc, length-append, ltb,
  Bool-cases, none,
}
use project_db.Key.{Key, key_ord}
use project_db.Serializer.Containers.{
  is_last, serialize_indexed_loop, size_of_size_t, container_serialize_indexed,
}
use project_db.Serializer.Sequences.{encode_all}
use project_db.Serializer.Streams.{ostream, write, le_bytes, trivial_serialize, user_serialize}
use project_db.SsTable.{Table, SsTable}
use project_db.SsTable.Stored.{serialize_entry, encode_entry, entry_writes, entry_codec, TableFits}
use project_db.SsTableIndex.{SsTableIndex, add_index, new_index, set_eof_pos}
use project_db.SsTableIndex.Blocks.{entries_length, IndexesFrom}
use project_db.SsTableOps.{try_build_index, serialize_meta_data, write_ss_table}
use project_db.SsTableOps.Extend.{
  Behind, Extends-nil, Extends, Extends-skip, Extends-add, Behind-add_index, Behind-nil,
}
use project_db.StdMap.{IsSorted}
use project_db.Value.{Value}
use mathlib.Core.Path.{subst, subst₂}
use project_db.SsTableIndex.Seek.{Describes}

flush_loop_step :
    (block_size : ℕ) (first : Bool) (k : Key) (v : Value) (t : Table) (pos size : ℕ)
    (index index₁ : SsTableIndex) (added : Bool) (content : Bytes)
    → try_build_index block_size (k, v) pos size (first || is_last t) index ≡ (index₁, added)
    → serialize_indexed_loop serialize_entry
        (try_build_index block_size)
        first
        ((k, v) ∷ t)
        pos
        size
        index
        (ostream content)
      ≡ (let content' = content ++ encode_entry (k, v) in
          serialize_indexed_loop serialize_entry
            (try_build_index block_size)
            false
            t
            (length content')
            ((if added then 0 else size) + (length content' - pos))
            index₁
            (ostream content'))
unfolding serialize_indexed_loop write
flush_loop_step block_size first k v t pos size index index₁ added content h =
    rw (h, entry_writes (k, v) (ostream content))

-- What the loop does from `content` on.
abbrev FlushesFrom : ℕ → Bool → Table → ℕ → ℕ → SsTableIndex → Bytes → Type 0
FlushesFrom block_size first t pos size index content =
    (index' : SsTableIndex) × (serialize_indexed_loop serialize_entry (try_build_index block_size)
        first t pos size index (ostream content)
      ≡ ok (index', ostream (content ++ encode_all entry_codec t)))
    × Extends first (pos + entries_length t) pos t index index'

-- From the state after an entry to the state before it.
flush_step :
    (block_size : ℕ) (first : Bool) (k : Key) (v : Value) (t : Table) (pos size : ℕ)
    (index index₁ : SsTableIndex) (added : Bool) (content : Bytes)
    → pos ≡ length content
    → try_build_index block_size (k, v) pos size (first || is_last t) index ≡ (index₁, added)
    → ((index' : SsTableIndex)
        → Extends false
            (pos + entries_length ((k, v) ∷ t))
            (pos + length (encode_entry (k, v)))
            t
            index₁
            index'
        → Extends first (pos + entries_length ((k, v) ∷ t)) pos ((k, v) ∷ t) index index')
    → FlushesFrom block_size false t
        (length (content ++ encode_entry (k, v)))
        ((if added then 0 else size) + (length (content ++ encode_entry (k, v)) - pos))
        index₁
        (content ++ encode_entry (k, v))
    → FlushesFrom block_size first ((k, v) ∷ t) pos size index content
flush_step block_size first k v t pos size index index₁ added content e h extend
      (index', runs, ext) =
    (
      index',
      flush_loop_step block_size first k v t pos size index index₁ added content h
          ∙ rw runs (rw (append_assoc content (encode_entry (k, v)) (encode_all entry_codec t))),
      extend index' (
          subst₂ (λ eof p. Extends false eof p t index₁ index')
            (omega (
              arith,
              e,
              length-append content (encode_entry (k, v)),
              length-append (encode_entry (k, v)) (encode_all entry_codec t),
            ))
            (omega (arith, e, length-append content (encode_entry (k, v)))) ext),
    )

passed_over :
    (first : Bool) (t : Table) (b : Bool)
    → (not (first || is_last t) && b) ≡ true
    → (first ≡ false) × (t ≢ [])
passed_over first [] b h = ground arith
passed_over first (x ∷ t) b h = ground arith

flush_loop :
    (block_size : ℕ) (first : Bool) (t : Table) (pos size : ℕ) (index : SsTableIndex)
    (content : Bytes)
    → pos ≡ length content
    → IsSorted t
    → Behind index.m_index t
    → FlushesFrom block_size first t pos size index content
flush_loop block_size first [] pos size index content e s b = (
  index,
  unfold serialize_indexed_loop in rw (append-nil content),
  Extends-nil first (pos + 0) pos index (omega arith),
)
flush_loop block_size first ((k, v) ∷ t) pos size index content e s b =
    let content' = content ++ encode_entry (k, v) in
    let eof = pos + entries_length ((k, v) ∷ t) in
    let ih = λ (index₁ : SsTableIndex) (n : ℕ).
      flush_loop block_size false t (length content') n index₁ content' refl s.1 in
    elim (Bool-cases (not (first || is_last t) && ltb size block_size)) [
      | inl over ↦
          let (not_first, more) = passed_over first t (ltb size block_size) over in
          flush_step block_size first k v t pos size index index false content e
            (unfold try_build_index in rw over)
            (λ index' x.
              subst (λ f. Extends f eof pos ((k, v) ∷ t) index index') (sym not_first)
                (Extends-skip eof pos k v t index index' more x))
            (ih index (size + (length content' - pos)) b.1)
      | inr taken ↦
          flush_step block_size first k v t pos size index (add_index index k pos) true content e
            (unfold try_build_index in rw taken)
            (λ index' x. Extends-add eof pos k v t index index' first b.0 x)
            (ih (add_index index k pos) (0 + (length content' - pos))
              (Behind-add_index index k pos t b.0 b.1 s.0))
    ]

-- The bytes of an `SSTable` file: the time stamp, the number of entries and the entries.
abbrev pub file_header : SsTable → Bytes
file_header ss_table =
    le_bytes 8 ss_table.m_meta_data.m_ms_since_epoch
    ++ le_bytes size_of_size_t (length ss_table.m_table)

abbrev pub encode_ss_table : SsTable → Bytes
encode_ss_table ss_table = file_header ss_table ++ encode_all entry_codec ss_table.m_table

-- Writing a table that fits never fails; the file holds its bytes, and the index that comes back
-- describes the file: it has the first and the last entry, the positions of its entries and the
-- end, and it has no file open.
pub write_ss_table-Describes :
    (block_size : ℕ) (ss_table : SsTable)
    → TableFits ss_table.m_table
    → (index : SsTableIndex) × (write_ss_table block_size ss_table (ostream [])
        ≡ ok (index, ostream (encode_ss_table ss_table)))
      × Describes index (encode_ss_table ss_table) ss_table.m_table
      × (index.m_ifs ≡ none)
write_ss_table-Describes block_size ss_table (small, fits, sorted) =
    let t = ss_table.m_table in
    let header = file_header ss_table in
    let (index, runs, ext) =
      flush_loop block_size true t (length header) 0 new_index header refl sorted (Behind-nil t) in
    (
      set_eof_pos index (length (header ++ encode_all entry_codec t)),
      unfold write_ss_table serialize_meta_data user_serialize trivial_serialize write
            container_serialize_indexed in
          rw runs,
      record {
        header = header;
        content = refl;
        indexes =
            subst₂ (λ eof idx. IndexesFrom eof (length header) t idx)
              (sym (length-append header (encode_all entry_codec t))) (sym ext.grown) ext.indexed;
        sorted = sorted;
        fits = fits;
      },
      ext.closed,
    )
