-- ===== src/SsTableOps/LoadLoop.antt =====
-- The loop of `loadSSTable`, with an index and without.
use project_db.Common.{
  ℕ, suc, ◌+◌, ◌-◌, ◌≡◌, sym, ◌∙◌, ◌≢◌, inl, inr, Bool, true, false, not, ◌&&◌, ◌||◌, Option, some,
  [], ◌∷◌, ◌++◌, append_assoc, arith, length, All, length-append, Bytes, ok, ltb, ◌==◌,
  if◌then◌else◌, Bool-cases, refl, none, ap,
}
use project_db.Key.{Key, key_ord}
use project_db.Serializer.Containers.{deserialize_indexed_loop}
use project_db.Serializer.Sequences.{insert_all, encode_all, indexed_loop_step}
use project_db.Serializer.Streams.{istream}
use project_db.SsTable.{Table}
use project_db.SsTable.Stored.{
  insert_entry, deserialize_entry, stored_entry, encode_entry, entry_reads, entry_codec, last_entry,
  last_entry-append,
}
use project_db.SsTableIndex.{SsTableIndex, add_index}
use project_db.SsTableIndex.Blocks.{entries_length}
use project_db.SsTableOps.{try_load_index}
use project_db.SsTableOps.Extend.{
  Behind, Extends, Extends-nil, Extends-skip, Extends-add, Behind-add_index,
}
use project_db.StdMap.{IsSorted, Above}
use project_db.Value.{Value}
use mathlib.Core.Path.{subst}
use native.Mathlib.Nat.{add-zero}
use project_db.StdMap.Order.{Below, emplace_last, AllBelow, AllBelow-shift}

-- An entry behind the others leaves those after it behind it.
AllBelow-insert :
    (rtn : Table) (k : Key) (v : Value) (t : Table)
    → AllBelow rtn ((k, v) ∷ t)
    → Above k t
    → AllBelow (insert_entry (k, v) rtn) t
AllBelow-insert rtn k v t a above =
    rw (emplace_last k v rtn a.0) (AllBelow-shift rtn k v t a.1 above)

load_loop_step :
    (block_size : ℕ) (first : Bool) (k : Key) (v : Value) (t : Table) (pos size : ℕ)
    (index index₁ : Option SsTableIndex) (added : Bool) (rtn : Table) (rest : Bytes)
    → stored_entry.Fits (k, v)
    → Below k rtn
    → (let size' = size + (pos + length (encode_entry (k, v)) - pos) in
        try_load_index block_size (k, v) pos size' (first || length t == 0) index ≡ (index₁, added))
    → deserialize_indexed_loop deserialize_entry insert_entry last_entry
        (try_load_index block_size)
        first
        (suc (length t))
        pos
        size
        index
        rtn
        (istream (encode_all entry_codec ((k, v) ∷ t) ++ rest) pos)
      ≡ (let pos' = pos + length (encode_entry (k, v)) in
          deserialize_indexed_loop deserialize_entry insert_entry last_entry
            (try_load_index block_size)
            false
            (length t)
            pos'
            (if added then 0 else size + (pos' - pos))
            index₁
            (insert_entry (k, v) rtn)
            (istream (encode_all entry_codec t ++ rest) pos'))
load_loop_step block_size first k v t pos size index index₁ added rtn rest fits b h =
    rw (append_assoc (encode_entry (k, v)) (encode_all entry_codec t) rest) (
      indexed_loop_step deserialize_entry insert_entry last_entry (try_load_index block_size) first
        (length t) pos size index index₁ added rtn
        (istream (encode_entry (k, v) ++ (encode_all entry_codec t ++ rest)) pos)
        (istream (encode_all entry_codec t ++ rest) (pos + length (encode_entry (k, v)))) (k, v)
        (entry_reads (k, v) (encode_all entry_codec t ++ rest) pos fits)
        (ap last_entry (emplace_last k v rtn b) ∙ last_entry-append rtn (k, v)) h)

abbrev pub LoadsFrom : ℕ → Bool → Table → ℕ → ℕ → SsTableIndex → Table → Bytes → Type 0
LoadsFrom block_size first t pos size index rtn rest =
    (index' : SsTableIndex) × (deserialize_indexed_loop deserialize_entry insert_entry last_entry
        (try_load_index block_size) first (length t) pos size (some index) rtn
        (istream (encode_all entry_codec t ++ rest) pos)
      ≡ ok (insert_all insert_entry t rtn, some index', istream rest (pos + entries_length t)))
    × Extends first (pos + entries_length t) pos t index index'

load_step :
    (block_size : ℕ) (first : Bool) (k : Key) (v : Value) (t : Table) (pos size : ℕ)
    (index index₁ : SsTableIndex) (added : Bool) (rtn : Table) (rest : Bytes)
    → stored_entry.Fits (k, v)
    → Below k rtn
    → (let size' = size + (pos + length (encode_entry (k, v)) - pos) in
        try_load_index block_size (k, v) pos size' (first || length t == 0) (some index)
        ≡ (some index₁, added))
    → ((index' : SsTableIndex)
        → Extends false
            (pos + entries_length ((k, v) ∷ t))
            (pos + length (encode_entry (k, v)))
            t
            index₁
            index'
        → Extends first (pos + entries_length ((k, v) ∷ t)) pos ((k, v) ∷ t) index index')
    → (let pos' = pos + length (encode_entry (k, v)) in
        LoadsFrom block_size false t pos'
          (if added then 0 else size + (pos' - pos))
          index₁
          (insert_entry (k, v) rtn)
          rest)
    → LoadsFrom block_size first ((k, v) ∷ t) pos size index rtn rest
load_step block_size first k v t pos size index index₁ added rtn rest fits b h extend
      (index', runs, ext) =
    let len : pos + length (encode_entry (k, v)) + entries_length t
        ≡ pos + entries_length ((k, v) ∷ t) =
      omega (arith, length-append (encode_entry (k, v)) (encode_all entry_codec t)) in
    (
      index',
      load_loop_step block_size first k v t pos size (some index) (some index₁) added rtn rest fits
            b h
          ∙ runs
          ∙ rw len,
      extend index' (
          subst (λ eof. Extends false eof (pos + length (encode_entry (k, v))) t index₁ index') len
            ext),
    )

passed_over :
    (first : Bool) (t : Table) (b : Bool)
    → (not (first || length t == 0) && b) ≡ true
    → (first ≡ false) × (t ≢ [])
passed_over first [] b h = ground arith
passed_over first (x ∷ t) b h = ground arith

pub loads_from :
    (block_size : ℕ) (first : Bool) (t : Table) (pos size : ℕ) (index : SsTableIndex) (rtn : Table)
    (rest : Bytes)
    → All stored_entry.Fits t
    → IsSorted t
    → AllBelow rtn t
    → Behind index.m_index t
    → LoadsFrom block_size first t pos size index rtn rest
loads_from block_size first [] pos size index rtn rest f s a b = (
  index,
  unfold deserialize_indexed_loop in rw (add-zero pos),
  Extends-nil first (pos + 0) pos index (omega arith),
)
loads_from block_size first ((k, v) ∷ t) pos size index rtn rest f s a b =
    let pos' = pos + length (encode_entry (k, v)) in
    let eof = pos + entries_length ((k, v) ∷ t) in
    let size' = size + (pos' - pos) in
    let ih = λ (index₁ : SsTableIndex) (n : ℕ).
      loads_from block_size false t pos' n index₁ (insert_entry (k, v) rtn) rest f.1 s.1
        (AllBelow-insert rtn k v t a s.0) in
    elim (Bool-cases (not (first || length t == 0) && ltb size' block_size)) [
      | inl over ↦
          let (not_first, more) = passed_over first t (ltb size' block_size) over in
          load_step block_size first k v t pos size index index false rtn rest f.0 a.0
            (unfold try_load_index in rw over)
            (λ index' x.
              subst (λ g. Extends g eof pos ((k, v) ∷ t) index index') (sym not_first)
                (Extends-skip eof pos k v t index index' more x))
            (ih index size' b.1)
      | inr taken ↦
          load_step block_size first k v t pos size index (add_index index k pos) true rtn rest f.0
            a.0 (unfold try_load_index in rw taken)
            (λ index' x. Extends-add eof pos k v t index index' first b.0 x)
            (ih (add_index index k pos) 0 (Behind-add_index index k pos t b.0 b.1 s.0))
    ]

-- Without an index the loop only reads.
pub load_loop_none :
    (block_size : ℕ) (first : Bool) (t : Table) (pos size : ℕ) (rtn : Table) (rest : Bytes)
    → All stored_entry.Fits t
    → IsSorted t
    → AllBelow rtn t
    → deserialize_indexed_loop deserialize_entry insert_entry last_entry
        (try_load_index block_size)
        first
        (length t)
        pos
        size
        none
        rtn
        (istream (encode_all entry_codec t ++ rest) pos)
      ≡ ok (insert_all insert_entry t rtn, none, istream rest (pos + entries_length t))
load_loop_none block_size first [] pos size rtn rest f s a =
    unfold deserialize_indexed_loop in rw (add-zero pos)
load_loop_none block_size first ((k, v) ∷ t) pos size rtn rest f s a =
    let pos' = pos + length (encode_entry (k, v)) in
    let len : pos' + entries_length t ≡ pos + entries_length ((k, v) ∷ t) =
      omega (arith, length-append (encode_entry (k, v)) (encode_all entry_codec t)) in
    load_loop_step block_size first k v t pos size none none false rtn rest f.0 a.0
      (unfold try_load_index in refl)
    ∙ load_loop_none block_size false t pos' (size + (pos' - pos)) (insert_entry (k, v) rtn) rest
        f.1 s.1 (AllBelow-insert rtn k v t a s.0)
    ∙ rw len
