-- ===== src/Serializer/Sequences.antt =====
-- Containers: the wrappers of a container of `Serializable` elements meet the interface.
use project_db.Common.{
  ℕ, ◌+◌, ◌-◌, ◌<◌, ◌≡◌, refl, true, List, [], ◌∷◌, ◌++◌, append_assoc, arith, length, take, All,
  length-append, Bytes, end_of_stream, ok, err, Bool, false, append-nil, ◌^◌, suc, ◌≤◌, ◌>>=◌,
  lt→ltb, ge→ltb, ◌∙◌, ◌||◌, Result, ◌==◌, if◌then◌else◌, Option, some,
}
use project_db.Serializer.Codec.{Codec}
use project_db.Serializer.Containers.{
  size_of_size_t, serialize_all, container_serialize, deserialize_all, container_deserialize,
  deserialize_block_loop, IndexBuilder, deserialize_indexed_loop,
}
use project_db.Serializer.Pairs.{take-append_short, take-append_long}
use project_db.Serializer.Streams.{OStream, istream, write, le_bytes, ostream, IStream, Deserialize}
use native.Mathlib.Nat.{add_assoc, add-zero}
use native.Mathlib.Decide.{dec_lt}
use project_db.Serializer.Trivial.{trivial_reads, trivial_cut_off}

module _ {ℓ} {A : Type ℓ} where
  -- rtn.insert(rtn.end(), x) for each element
  abbrev pub insert_all {κ} : {T : Type κ} → (A → T → T) → List A → T → T
  insert_all insert [] rtn = rtn
  insert_all insert (x ∷ xs) rtn = insert_all insert xs (insert x rtn)

module _ {ℓ} {A : Type ℓ} (c : Codec A) where
  abbrev pub encode_all : List A → Bytes
  encode_all [] = []
  encode_all (x ∷ xs) = c.encode x ++ encode_all xs

  pub encode_all-append : (xs ys : List A) → encode_all (xs ++ ys) ≡ encode_all xs ++ encode_all ys
  encode_all-append [] ys = refl
  encode_all-append (x ∷ xs) ys =
      rw (encode_all-append xs ys, append_assoc (c.encode x) (encode_all xs) (encode_all ys))

  serialize_all_lem :
      (xs : List A) (content : Bytes)
      → serialize_all c.serialize xs (ostream content) ≡ ok (ostream (content ++ encode_all xs))
  unfolding serialize_all write
  serialize_all_lem [] content = rw (append-nil content)
  serialize_all_lem (x ∷ xs) content =
      rw (c.writes x (ostream content), serialize_all_lem xs (content ++ c.encode x))
        (rw (append_assoc content (c.encode x) (encode_all xs)))

  unfoldable pub container_encode : List A → Bytes
  container_encode xs = le_bytes size_of_size_t (length xs) ++ encode_all xs

  container_writes_to :
      (xs : List A) (content : Bytes) (good : Bool)
      → container_serialize c.serialize xs (record { content = content; good = good })
        ≡ write (container_encode xs) (record { content = content; good = good })
  unfolding container_serialize container_encode write
  container_writes_to xs content false = refl
  container_writes_to xs content true = rw (
    serialize_all_lem xs (content ++ le_bytes size_of_size_t (length xs)),
    append_assoc content (le_bytes size_of_size_t (length xs)) (encode_all xs),
  )

  pub container_writes :
      (xs : List A) (os : OStream)
      → container_serialize c.serialize xs os ≡ write (container_encode xs) os
  container_writes xs os = container_writes_to xs os.content os.good

  module _ {κ} {T : Type κ} (insert : A → T → T) where
    pub deserialize_all_reads :
        (xs : List A) (rtn : T) (rest : Bytes) (pos : ℕ)
        → All c.Fits xs
        → deserialize_all c.deserialize insert (length xs) rtn (istream (encode_all xs ++ rest) pos)
          ≡ ok (insert_all insert xs rtn, istream rest (pos + length (encode_all xs)))
    unfolding deserialize_all
    deserialize_all_reads [] rtn rest pos h = rw (add-zero pos)
    deserialize_all_reads (x ∷ xs) rtn rest pos h = rw (
      append_assoc (c.encode x) (encode_all xs) rest,
      c.reads x (encode_all xs ++ rest) pos h.0,
      deserialize_all_reads xs (insert x rtn) rest (pos + length (c.encode x)) h.1,
      length-append (c.encode x) (encode_all xs),
      add_assoc pos (length (c.encode x)) (length (encode_all xs)),
    )

    pub deserialize_all_cut_off :
        (xs : List A) (rtn : T) (n pos : ℕ)
        → All c.Fits xs
        → n < length (encode_all xs)
        → deserialize_all c.deserialize insert
            (length xs)
            rtn
            (istream (take n (encode_all xs)) pos)
          ≡ err end_of_stream
    unfolding deserialize_all
    deserialize_all_cut_off [] rtn n pos f h = elim h [ ]
    deserialize_all_cut_off (x ∷ xs) rtn n pos f h = elim (dec_lt n (length (c.encode x))) [
      | yes lt ↦ rw (take-append_short n (c.encode x) (encode_all xs) lt, c.cut_off x n pos f.0 lt)
      | no ge ↦ rw (
        take-append_long n (c.encode x) (encode_all xs) (omega arith),
        c.reads x (take (n - length (c.encode x)) (encode_all xs)) pos f.0,
        deserialize_all_cut_off xs (insert x rtn) (n - length (c.encode x))
            (pos + length (c.encode x)) f.1
            (omega (arith, length-append (c.encode x) (encode_all xs))),
      )
    ]

-- A container whose insertions at the end rebuild the list of its elements.
module _ {ℓ} {A : Type ℓ} (c : Codec A) (insert : A → List A → List A) (Good : List A → Type 0)
    (collects : (xs : List A) → Good xs → insert_all insert xs [] ≡ xs) where
  abbrev pub ContainerFits : List A → Type 0
  ContainerFits xs = (length xs < 256 ^ size_of_size_t) × All c.Fits xs × Good xs

  pub container_reads :
      (xs : List A) (rest : Bytes) (pos : ℕ)
      → ContainerFits xs
      → container_deserialize c.deserialize insert [] (istream (container_encode c xs ++ rest) pos)
        ≡ ok (xs, istream rest (pos + length (container_encode c xs)))
  unfolding container_deserialize container_encode
  container_reads xs rest pos (small, fits, good) =
      let size = le_bytes size_of_size_t (length xs) in
      rw (
        append_assoc size (encode_all c xs) rest,
        trivial_reads size_of_size_t (length xs) (encode_all c xs ++ rest) pos small,
        deserialize_all_reads c insert xs [] rest (pos + length size) fits,
        collects xs good,
        length-append size (encode_all c xs),
        add_assoc pos (length size) (length (encode_all c xs)),
      )

  pub container_cut_off :
      (xs : List A) (n pos : ℕ)
      → ContainerFits xs
      → n < length (container_encode c xs)
      → container_deserialize c.deserialize insert [] (istream (take n (container_encode c xs)) pos)
        ≡ err end_of_stream
  unfolding container_deserialize container_encode
  container_cut_off xs n pos (small, fits, good) h =
      let size = le_bytes size_of_size_t (length xs) in
      elim (dec_lt n (length size)) [
        | yes lt ↦ rw (
          take-append_short n size (encode_all c xs) lt,
          trivial_cut_off size_of_size_t (length xs) n pos small lt,
        )
        | no ge ↦ rw (
          take-append_long n size (encode_all c xs) (omega arith),
          trivial_reads size_of_size_t (length xs) (take (n - length size) (encode_all c xs)) pos
              small,
          deserialize_all_cut_off c insert xs [] (n - length size) (pos + length size) fits
              (omega (arith, length-append size (encode_all c xs))),
        )
      ]

  abbrev pub container_codec : Codec (List A)
  container_codec = record {
    serialize = container_serialize c.serialize;
    deserialize = container_deserialize c.deserialize insert [];
    encode = container_encode c;
    Fits = ContainerFits;
    writes = container_writes c;
    reads = container_reads;
    cut_off = container_cut_off;
  }

-- The loop over a block of a file, one round at a time.
module _ {ℓ κ} {A : Type ℓ} {T : Type κ} (element : Deserialize A) (insert : A → T → T) where
  pub block_loop_stop :
      (fuel end : ℕ) (rtn : T) (is : IStream)
      → end ≤ is.pos
      → deserialize_block_loop element insert (suc fuel) end rtn is ≡ ok rtn
  unfolding deserialize_block_loop
  block_loop_stop fuel end rtn is h = rw (ge→ltb is.pos end h, deserialize_block_loop)

  pub block_loop_step :
      (fuel end : ℕ) (rtn : T) (is : IStream)
      → is.pos < end
      → deserialize_block_loop element insert (suc fuel) end rtn is
        ≡ (element is >>= λ p. deserialize_block_loop element insert fuel end (insert p.0 rtn) p.1)
  unfolding deserialize_block_loop
  block_loop_step fuel end rtn is h = rw (lt→ltb is.pos end h, deserialize_block_loop)

-- The loop with an index builder, one round at a time.
module _ {ℓ κ λ'} {A : Type ℓ} {T : Type κ} {I : Type λ'} (element : Deserialize A)
    (insert : A → T → T) (rbegin : T → Option A) (build_index : IndexBuilder A I) where
  loop_round : Bool → ℕ → ℕ → ℕ → I → T → A → IStream → Result (T × I × IStream)
  loop_round first left prev_pos size index rtn x is =
      let size' = size + (is.pos - prev_pos) in
      let r = build_index x prev_pos size' (first || left == 0) index in
      deserialize_indexed_loop element insert rbegin build_index false left is.pos
        (if r.1 then 0 else size') r.0 (insert x rtn) is

  indexed_loop_round :
      (first : Bool) (left prev_pos size : ℕ) (index : I) (rtn : T) (is is' : IStream) (x : A)
      → element is ≡ ok (x, is')
      → rbegin (insert x rtn) ≡ some x
      → deserialize_indexed_loop element insert rbegin build_index first
          (suc left)
          prev_pos
          size
          index
          rtn
          is
        ≡ loop_round first left prev_pos size index rtn x is'
  unfolding deserialize_indexed_loop loop_round
  indexed_loop_round first left prev_pos size index rtn is is' x e l = rw e (rw l)

  pub indexed_loop_step :
      (first : Bool) (left prev_pos size : ℕ) (index index₁ : I) (added : Bool) (rtn : T)
      (is is' : IStream) (x : A)
      → element is ≡ ok (x, is')
      → rbegin (insert x rtn) ≡ some x
      → build_index x prev_pos (size + (is'.pos - prev_pos)) (first || left == 0) index
        ≡ (index₁, added)
      → deserialize_indexed_loop element insert rbegin build_index first
          (suc left)
          prev_pos
          size
          index
          rtn
          is
        ≡ deserialize_indexed_loop element insert rbegin build_index false left is'.pos
            (if added then 0 else size + (is'.pos - prev_pos))
            index₁
            (insert x rtn)
            is'
  indexed_loop_step first left prev_pos size index index₁ added rtn is is' x e l h =
      indexed_loop_round first left prev_pos size index rtn is is' x e l
      ∙ (unfold loop_round in rw h)
