-- ===== src/Concepts.antt =====
-- The concept `Serializable` (utils/db_concepts.h), and the wrapper that utils/serializer.h selects for
-- each type that fulfils it.
pub mod Types
use project_db.Common.{
  ℕ, ◌+◌, ◌^◌, ◌<◌, ◌≡◌, refl, ap, ◌∙◌, List, [], ◌++◌, length, take, All, All-map, Bytes,
  end_of_stream, ok, err,
}
use project_db.Serializer.Codec.{Codec}
use project_db.Serializer.Containers.{size_of_size_t, container_serialize, container_deserialize}
use project_db.Serializer.Pairs.{pair_codec}
use project_db.Serializer.Sequences.{insert_all, container_codec}
use project_db.Serializer.Streams.{
  ostream, istream, write, trivial_serialize, trivial_deserialize, Serialize, Deserialize,
  pair_serialize, pair_deserialize, user_serialize, user_deserialize,
}
use project_db.Serializer.Trivial.{trivial_codec}
use project_db.Serializer.Wrapped.{user_codec}
use mathlib.Core.Path.{ap₂}

-- A container is modelled as the sequence of its elements, with what `insert` at its end does; the
-- sequences that it can hold are those that the insertions build again.
pub record Container (E : Type 0) : Type 1 where
  pub insert_at_end : E → List E → List E
  pub IsContent : List E → Type 0
  pub collects : (xs : List E) → IsContent xs → insert_all insert_at_end xs [] ≡ xs

-- A trivial type has a size, and its values are bit patterns. A user-defined type comes with its
-- `serializeImpl` and `deserializeImpl`, which meet the interface `Codec`.
pub data Serializable : Type 0 → Type 1 where
  trivial : (size : ℕ) → Serializable ℕ
  user_type : {A : Type 0} → Codec A → Serializable A
  pair_of : {A B : Type 0} → Serializable A → Serializable B → Serializable (A × B)
  container_of : {E : Type 0} → Container E → Serializable E → Serializable (List E)

unfoldable pub serialize_as : {A : Type 0} → Serializable A → Serialize A
unfolding trivial_serialize user_serialize pair_serialize container_serialize
serialize_as (trivial size) = trivial_serialize size
serialize_as (user_type c) = user_serialize c.serialize
serialize_as (pair_of first second) = pair_serialize (serialize_as first) (serialize_as second)
serialize_as (container_of container element) = container_serialize (serialize_as element)

unfoldable pub deserialize_as : {A : Type 0} → Serializable A → Deserialize A
unfolding trivial_deserialize user_deserialize pair_deserialize container_deserialize
deserialize_as (trivial size) = trivial_deserialize size
deserialize_as (user_type c) = user_deserialize c.deserialize
deserialize_as (pair_of first second) =
    pair_deserialize (deserialize_as first) (deserialize_as second)
deserialize_as (container_of container element) =
    container_deserialize (deserialize_as element) container.insert_at_end []

-- The value can be stored: numbers fit in their sizes, the sizes of containers in a `size_t`, a
-- container can hold what it holds, and a value of a user-defined type is one that the type itself
-- stores.
abbrev pub CanStore : {A : Type 0} → Serializable A → A → Type 0
CanStore (trivial size) n = n < 256 ^ size
CanStore (user_type c) v = c.Fits v
CanStore (pair_of first second) v = CanStore first v.0 × CanStore second v.1
CanStore (container_of container element) xs =
    (length xs < 256 ^ size_of_size_t) × All (CanStore element) xs × container.IsContent xs

-- The type's wrappers with their encoding.
codec_as : {A : Type 0} → Serializable A → Codec A
codec_as (trivial size) = trivial_codec size
codec_as (user_type c) = user_codec c
codec_as (pair_of first second) = pair_codec (codec_as first) (codec_as second)
codec_as (container_of container element) =
    container_codec (codec_as element) container.insert_at_end container.IsContent
      container.collects

serialize_as-codec : {A : Type 0} (t : Serializable A) → serialize_as t ≡ (codec_as t).serialize
unfolding serialize_as codec_as
serialize_as-codec (trivial size) = refl
serialize_as-codec (user_type c) = refl
serialize_as-codec (pair_of first second) =
    ap₂ pair_serialize (serialize_as-codec first) (serialize_as-codec second)
serialize_as-codec (container_of container element) =
    ap container_serialize (serialize_as-codec element)

deserialize_as-codec :
    {A : Type 0} (t : Serializable A) → deserialize_as t ≡ (codec_as t).deserialize
unfolding deserialize_as codec_as
deserialize_as-codec (trivial size) = refl
deserialize_as-codec (user_type c) = refl
deserialize_as-codec (pair_of first second) =
    ap₂ pair_deserialize (deserialize_as-codec first) (deserialize_as-codec second)
deserialize_as-codec (container_of container element) =
    ap (λ d. container_deserialize d container.insert_at_end []) (deserialize_as-codec element)

CanStore-codec : {A : Type 0} (t : Serializable A) (v : A) → CanStore t v → (codec_as t).Fits v
unfolding codec_as
CanStore-codec (trivial size) n h = h
CanStore-codec (user_type c) v h = h
CanStore-codec (pair_of first second) v (h, h') =
    (CanStore-codec first v.0 h, CanStore-codec second v.1 h')
CanStore-codec (container_of container element) xs (small, h, content) =
    (small, All-map (λ x. CanStore-codec element x) xs h, content)

-- Of every type built by the concept `Serializable` from trivial types and from user-defined types
-- whose own functions meet `Codec`, by pairs and by containers that their insertions at the end build
-- again, a value that can be stored is written without an exception, what was written is read back as
-- the value wherever it stands in a file, and a file that ends within it makes reading throw at the
-- end of the file.
pub serialize_as-deserialize_as :
    {A : Type 0} (t : Serializable A) (v : A)
    → CanStore t v
    → (bytes : Bytes) × (serialize_as t v (ostream []) ≡ ok (ostream bytes))
      × ((rest : Bytes) (pos : ℕ)
          → deserialize_as t (istream (bytes ++ rest) pos)
            ≡ ok (v, istream rest (pos + length bytes)))
      × ((n pos : ℕ)
          → n < length bytes
          → deserialize_as t (istream (take n bytes) pos) ≡ err end_of_stream)
unfolding write
serialize_as-deserialize_as t v h =
    let c = codec_as t in
    let fits = CanStore-codec t v h in
    (
      c.encode v,
      ap (λ f. f v (ostream [])) (serialize_as-codec t) ∙ c.writes v (ostream []),
      (λ rest pos.
          ap (λ f. f (istream (c.encode v ++ rest) pos)) (deserialize_as-codec t)
          ∙ c.reads v rest pos fits),
      λ n pos lt.
          ap (λ f. f (istream (take n (c.encode v)) pos)) (deserialize_as-codec t)
          ∙ c.cut_off v n pos fits lt,
    )
