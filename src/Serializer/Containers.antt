-- ===== src/Serializer/Containers.antt =====
-- The wrappers of containers: without an index, with an index builder, and over a block of a file.
use project_db.Common.{
  ℕ, zero, suc, ◌+◌, ◌-◌, Bool, true, false, ◌||◌, List, [], ◌∷◌, length, Bytes, Result, ok, err,
  ltb, ◌==◌, if◌then◌else◌, ◌>>=◌, Option, out_of_fuel, none, some, undefined_behaviour,
}
use project_db.Serializer.Streams.{
  OStream, IStream, tellp, trivial_serialize, trivial_deserialize, Serialize, Deserialize, seekg,
}

abbrev pub size_of_size_t : ℕ
size_of_size_t = 8

-- `tryBuildIndex(entry, pos, currBlockSize, isFirstOrLastEntry)`, with the index that it builds
abbrev pub IndexBuilder {ℓ κ} : Type ℓ → Type κ → Type (ℓ ⊔ κ)
IndexBuilder A I = A → ℕ → ℕ → Bool → I → I × Bool

module _ {ℓ} {A : Type ℓ} where
  unfoldable pub serialize_all : Serialize A → List A → OStream → Result OStream
  serialize_all element [] os = ok os
  serialize_all element (x ∷ xs) os = do os' ← element x os; serialize_all element xs os'

  unfoldable pub container_serialize : Serialize A → Serialize (List A)
  unfolding serialize_all trivial_serialize
  container_serialize element t os = do
    os' ← trivial_serialize size_of_size_t (length t) os
    serialize_all element t os'

  abbrev pub is_last : List A → Bool
  is_last [] = true
  is_last (x ∷ xs) = false

module _ {ℓ κ} {A : Type ℓ} {I : Type κ} (element : Serialize A)
    (build_index : IndexBuilder A I) where
  unfoldable pub serialize_indexed_loop : Bool → List A → ℕ → ℕ → I → OStream → Result (I × OStream)
  serialize_indexed_loop is_first [] curr_pos curr_block_size index os = ok (index, os)
  serialize_indexed_loop is_first (x ∷ xs) curr_pos curr_block_size index os =
      let (index', index_added) =
        build_index x curr_pos curr_block_size (is_first || is_last xs) index in
      do
        os' ← element x os
        serialize_indexed_loop false xs (tellp os')
            ((if index_added then 0 else curr_block_size) + (tellp os' - curr_pos)) index' os'

  unfoldable pub container_serialize_indexed : List A → I → OStream → Result (I × OStream)
  unfolding serialize_indexed_loop trivial_serialize
  container_serialize_indexed t index os = do
    os' ← trivial_serialize size_of_size_t (length t) os
    serialize_indexed_loop true t (tellp os') 0 index os'

-- `insert x rtn` is `rtn.insert(rtn.end(), x)`.
module _ {ℓ κ} {A : Type ℓ} {T : Type κ} (element : Deserialize A) (insert : A → T → T) where
  unfoldable pub deserialize_all : ℕ → T → IStream → Result (T × IStream)
  deserialize_all zero rtn is = ok (rtn, is)
  deserialize_all (suc size) rtn is = do
    (x, is') ← element is
    deserialize_all size (insert x rtn) is'

  unfoldable pub container_deserialize : T → IStream → Result (T × IStream)
  unfolding deserialize_all trivial_deserialize
  container_deserialize fresh is = do
    (size, is') ← trivial_deserialize size_of_size_t is
    deserialize_all size fresh is'

  -- while (currPos < end): the fuel bounds the rounds, since each reads a byte at least
  unfoldable pub deserialize_block_loop : ℕ → ℕ → T → IStream → Result T
  deserialize_block_loop zero end rtn is = err out_of_fuel
  deserialize_block_loop (suc fuel) end rtn is = elim (ltb is.pos end) [
    | true ↦ do (x, is') ← element is; deserialize_block_loop fuel end (insert x rtn) is'
    | false ↦ ok rtn
  ]

  -- `is.seekg(start)` on a stream of the file, which may be missing
  unfoldable pub deserialize_block : T → Option Bytes → ℕ → ℕ → Result T
  unfolding deserialize_block_loop
  deserialize_block fresh file start end =
      deserialize_block_loop (suc (end - start)) end fresh (seekg file start)

-- `*(rtn.rbegin())`, which an empty container does not have
abbrev pub last_element {ℓ} : {A : Type ℓ} → Option A → Result A
last_element none = err undefined_behaviour
last_element (some x) = ok x

module _ {ℓ κ λ'} {A : Type ℓ} {T : Type κ} {I : Type λ'} (element : Deserialize A)
    (insert : A → T → T) (rbegin : T → Option A) (build_index : IndexBuilder A I) where
  -- `left` is size - i
  unfoldable pub deserialize_indexed_loop :
      Bool → ℕ → ℕ → ℕ → I → T → IStream → Result (T × I × IStream)
  deserialize_indexed_loop is_first zero curr_pos curr_block_size index rtn is = ok (rtn, index, is)
  deserialize_indexed_loop is_first (suc left) prev_pos curr_block_size index rtn is = do
    (x, is') ← element is
    let rtn' = insert x rtn
    let block_size = curr_block_size + (is'.pos - prev_pos)
    last ← last_element (rbegin rtn')
    let (index', index_added) = build_index last prev_pos block_size (is_first || left == 0) index
    deserialize_indexed_loop false left is'.pos (if index_added then 0 else block_size) index' rtn'
        is'

  unfoldable pub container_deserialize_indexed : T → I → IStream → Result (T × I × IStream)
  unfolding deserialize_indexed_loop trivial_deserialize
  container_deserialize_indexed fresh index is = do
    (size, is') ← trivial_deserialize size_of_size_t is
    deserialize_indexed_loop true size is'.pos 0 index fresh is'
