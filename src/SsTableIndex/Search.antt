-- ===== src/SsTableIndex/Search.antt =====
-- The search in the index finds a block that has all that the file says of a key.
use mathlib.Core.Option
use project_db.Common.{
  ℕ, ◌+◌, ◌≡◌, refl, sym, ap, ◌∙◌, inl, inr, Option, none, some, [], ◌∷◌, ◌++◌, append-nil,
  append_assoc, arith, length, length-append, if◌then◌else◌, Bool-cases, false,
}
use project_db.Key.{Key, less, beq, beq_iff, key_ord}
use project_db.Serializer.Sequences.{encode_all, encode_all-append}
use project_db.SsTable.{Table}
use project_db.SsTable.Stored.{encode_entry, entry_codec}
use project_db.SsTableIndex.{next_pos, block_pos_loop, SsTableIndex, get_potential_block_pos}
use project_db.SsTableIndex.Blocks.{
  entries_length, Indexed, IsBlock, Answers, next_block, IndexesFrom,
}
use project_db.StdMap.{StdMap, find, Above, IsSorted}
use project_db.StdMap.Find.{find-Below, find-append_none, find-append_Above, find_head, find-Above}
use project_db.StdMap.Order.{Below, AllBelow, Above-trans, AllBelow-shift, less_flip, Below-trans}
use project_db.Value.{Value}
use mathlib.Core.Path.{subst}

-- A block of the end of the entries is a block of all of them.
IsBlock-shift :
    (k : Key) (pos : ℕ) (b t : Table) {start end : ℕ}
    → find k b ≡ none
    → IsBlock k (pos + entries_length b) t start end
    → IsBlock k pos (b ++ t) start end
IsBlock-shift k pos b t h i = record {
  before = b ++ i.before;
  block = i.block;
  after = i.after;
  parts = rw i.parts (sym (append_assoc b i.before (i.block ++ i.after)));
  starts = omega (
    arith,
    i.starts,
    ap length (encode_all-append entry_codec b i.before),
    length-append (encode_all entry_codec b) (encode_all entry_codec i.before),
  );
  ends = i.ends;
  same = find-append_none k b t h ∙ i.same;
}

Answers-shift :
    (k : Key) (pos : ℕ) (b t : Table) (a : Option (ℕ × ℕ))
    → find k b ≡ none
    → Answers k (pos + entries_length b) t a
    → Answers k pos (b ++ t) a
Answers-shift k pos b t none h i = find-append_none k b t h ∙ i
Answers-shift k pos b t (some (start, end)) h i = IsBlock-shift k pos b t h i

-- The key is that of the entry after `b`.
hit :
    (k : Key) (eof pos : ℕ) (b : Table) (v : Value) (t : Table) (rest : StdMap Key ℕ)
    → Below k b
    → Indexed eof (pos + entries_length b + length (encode_entry (k, v))) t rest
    → IsBlock k pos (b ++ (k, v) ∷ t) (pos + entries_length b) (next_pos rest eof)
hit k eof pos b v t rest below h =
    let (c, post, e, n) =
      next_block eof (pos + entries_length b + length (encode_entry (k, v))) t rest h in
    record {
      before = b;
      block = (k, v) ∷ c;
      after = post;
      parts = ap (λ m. b ++ (k, v) ∷ m) e;
      starts = refl;
      ends = omega (arith, n, length-append (encode_entry (k, v)) (encode_all entry_codec c));
      same =
          find-append_none k b ((k, v) ∷ t) (find-Below k b below)
          ∙ find_head k v t
          ∙ sym (find_head k v c);
    }

-- The key stands before the entry after `b`: the block is `b`.
between :
    (k : Key) (pos : ℕ) (b t : Table)
    → Above k t
    → IsBlock k pos (b ++ t) pos (pos + entries_length b)
between k pos b t above = record {
  before = [];
  block = b;
  after = t;
  parts = refl;
  starts = omega arith;
  ends = refl;
  same = find-append_Above k b t above;
}

AllBelow-single : (k : Key) (v : Value) (t : Table) → Above k t → AllBelow ((k, v) ∷ []) t
AllBelow-single k v [] a = tt
AllBelow-single k v ((j, w) ∷ t) a = ((a.0, tt), AllBelow-single k v t a.1)

find_single : (k j : Key) (v : Value) → beq k j ≡ false → find k ((j, v) ∷ []) ≡ none
unfolding find
find_single k j v h = ground (arith, beq_iff j k, beq_iff k j)

-- One round of the search.
block_pos_loop_lem :
    (key : Key) (eof : ℕ) (prev : Option ℕ) (k : Key) (pos : ℕ) (rest : StdMap Key ℕ)
    → block_pos_loop key eof prev ((k, pos) ∷ rest) ≡ (
        if beq key k
        then some (pos, next_pos rest eof)
        else if less key k
        then Option.map (λ start. (start, pos)) prev
        else block_pos_loop key eof (some pos) rest)
unfolding block_pos_loop
block_pos_loop_lem key eof prev k pos rest = refl

-- Past the entry after `b`, the search goes on from that entry.
search_from :
    (k : Key) (eof q p : ℕ) (b t : Table) (idx : StdMap Key ℕ)
    → p ≡ q + entries_length b
    → AllBelow b t
    → IsSorted t
    → (t ≡ [] → find k b ≡ none)
    → Indexed eof p t idx
    → Answers k q (b ++ t) (block_pos_loop k eof (some q) idx)
search_from k eof q p b [] idx e a s last (_, i) =
    rw i (unfold block_pos_loop in rw (append-nil b) (last refl))
search_from k eof q p b ((k₁, v₁) ∷ t) idx e a s last (inr (more, h)) =
    let longer = b ++ (k₁, v₁) ∷ [] in
    rw (← append_assoc b ((k₁, v₁) ∷ []) t) (
      search_from k eof q (p + length (encode_entry (k₁, v₁))) longer t idx
        (omega (
          arith,
          e,
          ap length (encode_all-append entry_codec b ((k₁, v₁) ∷ [])),
          ap length (append-nil (encode_entry (k₁, v₁))),
          length-append (encode_all entry_codec b) (encode_all entry_codec ((k₁, v₁) ∷ [])),
        ))
        (AllBelow-shift b k₁ v₁ t a.1 s.0) s.1 (λ n. absurd (more n)) h)
search_from k eof q p b ((k₁, v₁) ∷ t) idx e a s last (inl (rest, i, h)) =
    rw (i, block_pos_loop_lem)
      (elim (Bool-cases (beq k k₁)) [
        | inl eq ↦ rw eq (
            subst (λ j. IsBlock j q (b ++ (k₁, v₁) ∷ t) p (next_pos rest eof))
              (sym ((beq_iff k k₁).0 eq))
              (rw e (
                hit k₁ eof q b v₁ t rest a.0
                  (subst (λ m. Indexed eof (m + length (encode_entry (k₁, v₁))) t rest) e h))))
        | inr ne ↦ elim (Bool-cases (less k k₁)) [
          | inl lt ↦
              rw (ne, lt) (rw e (between k q b ((k₁, v₁) ∷ t) (lt, Above-trans k k₁ t lt s.0)))
          | inr ge ↦
              rw (ne, ge)
                (Answers-shift k q b ((k₁, v₁) ∷ t) (block_pos_loop k eof (some p) rest)
                  (find-Below k b (Below-trans k₁ k b (less_flip k k₁ ne ge) a.0))
                  (subst (λ m. Answers k m ((k₁, v₁) ∷ t) (block_pos_loop k eof (some p) rest)) e
                    (search_from k eof p (p + length (encode_entry (k₁, v₁))) ((k₁, v₁) ∷ []) t rest
                      (omega (arith, ap length (append-nil (encode_entry (k₁, v₁)))))
                      (AllBelow-single k₁ v₁ t s.0) s.1 (λ n. find_single k k₁ v₁ ne) h)))
        ]
      ])

get_potential_block_pos_lem :
    (index : SsTableIndex) (k : Key)
    → get_potential_block_pos index k ≡ block_pos_loop k index.m_eof_pos none index.m_index
unfolding get_potential_block_pos
get_potential_block_pos_lem index k = refl

first_hit :
    (k : Key) (eof pos : ℕ) (v : Value) (t : Table) (rest : StdMap Key ℕ)
    → Indexed eof (pos + length (encode_entry (k, v))) t rest
    → IsBlock k pos ((k, v) ∷ t) pos (next_pos rest eof)
first_hit k eof pos v t rest h =
    let e : pos ≡ pos + 0 = omega arith in
    subst (λ m. IsBlock k pos ((k, v) ∷ t) m (next_pos rest eof)) (sym e)
      (hit k eof pos [] v t rest tt
        (subst (λ m. Indexed eof (m + length (encode_entry (k, v))) t rest) e h))

-- For a sorted table whose first and last entries are indexed, among others, the search for any key
-- gives the bounds of a block of whole entries that says of the key what the table says, and no block
-- only if the table does not hold the key.
pub get_potential_block_pos-Answers :
    (index : SsTableIndex) (k : Key) (pos : ℕ) (t : Table)
    → IsSorted t
    → IndexesFrom index.m_eof_pos pos t index.m_index
    → Answers k pos t (get_potential_block_pos index k)
get_potential_block_pos-Answers index k pos [] s (_, i) =
    unfold get_potential_block_pos find in rw i refl
get_potential_block_pos-Answers index k pos ((k₁, v₁) ∷ t) s (rest, i, h) =
    (rw (get_potential_block_pos_lem, i, block_pos_loop_lem)
      (elim (Bool-cases (beq k k₁)) [
        | inl eq ↦ rw eq (
            subst (λ j. IsBlock j pos ((k₁, v₁) ∷ t) pos (next_pos rest index.m_eof_pos))
              (sym ((beq_iff k k₁).0 eq)) (first_hit k₁ index.m_eof_pos pos v₁ t rest h))
        | inr ne ↦ elim (Bool-cases (less k k₁)) [
          | inl lt ↦ rw (ne, lt) (find-Above k ((k₁, v₁) ∷ t) (lt, Above-trans k k₁ t lt s.0))
          | inr ge ↦
              rw (ne, ge)
                (search_from k index.m_eof_pos pos (pos + length (encode_entry (k₁, v₁)))
                  ((k₁, v₁) ∷ []) t rest
                  (omega (arith, ap length (append-nil (encode_entry (k₁, v₁)))))
                  (AllBelow-single k₁ v₁ t s.0) s.1 (λ n. find_single k k₁ v₁ ne) h)
        ]
      ]))
