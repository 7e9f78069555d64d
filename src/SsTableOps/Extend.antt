-- ===== src/SsTableOps/Extend.antt =====
-- One entry of the file, seen by an index builder.
use project_db.Common.{
  ℕ, ◌+◌, ◌≡◌, refl, sym, ap, ◌∙◌, ◌≢◌, inl, inr, Bool, true, false, [], ◌∷◌, ◌++◌, append-nil,
  append_assoc, length,
}
use project_db.Key.{Key, key_ord}
use project_db.SsTable.{Table}
use project_db.SsTable.Stored.{encode_entry}
use project_db.SsTableIndex.{SsTableIndex, add_index}
use project_db.SsTableIndex.Blocks.{Indexed, IndexesFrom}
use project_db.StdMap.{StdMap, Above}
use project_db.StdMap.Order.{Below, Below-append, insert_or_assign_last}
use project_db.Value.{Value}

abbrev pub IndexedAs : Bool → ℕ → ℕ → Table → StdMap Key ℕ → Type 0
IndexedAs true = IndexesFrom
IndexedAs false = Indexed

-- Every key of `t` comes after the keys of the index.
abbrev pub Behind : StdMap Key ℕ → Table → Type 0
Behind idx [] = Unit {0}
Behind idx ((k, v) ∷ t) = Below k idx × Behind idx t

pub Behind-nil : (t : Table) → Behind [] t
Behind-nil [] = tt
Behind-nil ((k, v) ∷ t) = (tt, Behind-nil t)

Behind-shift :
    (idx : StdMap Key ℕ) (k : Key) (pos : ℕ) (t : Table)
    → Behind idx t
    → Above k t
    → Behind (idx ++ (k, pos) ∷ []) t
Behind-shift idx k pos [] b a = tt
Behind-shift idx k pos ((j, w) ∷ t) b a =
    (Below-append j idx ((k, pos) ∷ []) b.0 (a.0, tt), Behind-shift idx k pos t b.1 a.1)

-- `index'` has the entries of `index`, and then those of an index of `t`.
pub record Extends (first : Bool) (eof pos : ℕ) (t : Table) (index index' : SsTableIndex)
    : Type 0 where
  pub new : StdMap Key ℕ
  pub grown : index'.m_index ≡ index.m_index ++ new
  pub indexed : IndexedAs first eof pos t new
  pub closed : index'.m_ifs ≡ index.m_ifs

pub Extends-nil :
    (first : Bool) (eof pos : ℕ) (index : SsTableIndex)
    → pos ≡ eof
    → Extends first eof pos [] index index
Extends-nil true eof pos index e = record {
  new = [];
  grown = sym (append-nil index.m_index);
  indexed = (e, refl);
  closed = refl;
}
Extends-nil false eof pos index e = record {
  new = [];
  grown = sym (append-nil index.m_index);
  indexed = (e, refl);
  closed = refl;
}

module _ (eof pos : ℕ) (k : Key) (v : Value) (t : Table) (index index' : SsTableIndex) where
  -- An entry that the builder passes over is neither the first nor the last.
  pub Extends-skip :
      t ≢ []
      → Extends false eof (pos + length (encode_entry (k, v))) t index index'
      → Extends false eof pos ((k, v) ∷ t) index index'
  Extends-skip more e = record {
    new = e.new;
    grown = e.grown;
    indexed = inr (more, e.indexed);
    closed = e.closed;
  }

  Extends-grown :
      Below k index.m_index
      → Extends false eof (pos + length (encode_entry (k, v))) t (add_index index k pos) index'
      → (new : StdMap Key ℕ) × (index'.m_index ≡ index.m_index ++ (k, pos) ∷ new)
        × Indexed eof (pos + length (encode_entry (k, v))) t new
  unfolding add_index
  Extends-grown b e = (
    e.new,
    e.grown
        ∙ ap (λ m. m ++ e.new) (insert_or_assign_last k pos index.m_index b)
        ∙ append_assoc index.m_index ((k, pos) ∷ []) e.new,
    e.indexed,
  )

  Extends-closed :
      Extends false eof (pos + length (encode_entry (k, v))) t (add_index index k pos) index'
      → index'.m_ifs ≡ index.m_ifs
  unfolding add_index
  Extends-closed e = e.closed

  pub Extends-add :
      (first : Bool)
      → Below k index.m_index
      → Extends false eof (pos + length (encode_entry (k, v))) t (add_index index k pos) index'
      → Extends first eof pos ((k, v) ∷ t) index index'
  Extends-add true b e =
      let (new, g, i) = Extends-grown b e in
      record {
        new = (k, pos) ∷ new;
        grown = g;
        indexed = (new, refl, i);
        closed = Extends-closed e;
      }
  Extends-add false b e =
      let (new, g, i) = Extends-grown b e in
      record {
        new = (k, pos) ∷ new;
        grown = g;
        indexed = inl (new, refl, i);
        closed = Extends-closed e;
      }

pub Behind-add_index :
    (index : SsTableIndex) (k : Key) (pos : ℕ) (t : Table)
    → Below k index.m_index
    → Behind index.m_index t
    → Above k t
    → Behind (add_index index k pos).m_index t
unfolding add_index
Behind-add_index index k pos t b h a =
    rw (insert_or_assign_last k pos index.m_index b) (Behind-shift index.m_index k pos t h a)
