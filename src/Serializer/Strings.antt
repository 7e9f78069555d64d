-- ===== src/Serializer/Strings.antt =====
-- `std::string`: a container of `char`.
use project_db.Common.{
  ℕ, ◌≡◌, sym, ◌∙◌, [], ◌∷◌, ◌++◌, append-nil, append_assoc, Bytes, ◌+◌, ◌<◌, length, take,
  end_of_stream, ok, err,
}
use project_db.Serializer.Codec.{Codec}
use project_db.Serializer.Containers.{container_serialize, container_deserialize}
use project_db.Serializer.Sequences.{
  insert_all, container_encode, container_writes, ContainerFits, container_reads, container_cut_off,
}
use project_db.Serializer.Streams.{
  trivial_serialize, trivial_deserialize, Serialize, Deserialize, OStream, istream, write,
}
use project_db.Serializer.Trivial.{trivial_codec}

-- rtn.insert(rtn.end(), c)
abbrev pub push_back : ℕ → Bytes → Bytes
push_back c s = s ++ c ∷ []

unfoldable pub string_serialize : Serialize Bytes
string_serialize = container_serialize (trivial_serialize 1)

unfoldable pub string_deserialize : Deserialize Bytes
string_deserialize = container_deserialize (trivial_deserialize 1) push_back []

push_back_all : (xs rtn : Bytes) → insert_all push_back xs rtn ≡ rtn ++ xs
push_back_all [] rtn = sym (append-nil rtn)
push_back_all (x ∷ xs) rtn = push_back_all xs (rtn ++ x ∷ []) ∙ append_assoc rtn (x ∷ []) xs

pub push_back_collects : (xs : Bytes) → Unit {0} → insert_all push_back xs [] ≡ xs
push_back_collects xs t = push_back_all xs []

abbrev pub StringFits : Bytes → Type 0
StringFits s = ContainerFits (trivial_codec 1) push_back (λ xs. Unit {0}) push_back_collects s

unfoldable pub encode_string : Bytes → Bytes
unfolding container_encode
encode_string = container_encode (trivial_codec 1)

pub string_writes : (s : Bytes) (os : OStream) → string_serialize s os ≡ write (encode_string s) os
unfolding string_serialize encode_string
string_writes = container_writes (trivial_codec 1)

pub string_reads :
    (s rest : Bytes) (pos : ℕ)
    → StringFits s
    → string_deserialize (istream (encode_string s ++ rest) pos)
      ≡ ok (s, istream rest (pos + length (encode_string s)))
unfolding string_deserialize encode_string
string_reads = container_reads (trivial_codec 1) push_back (λ xs. Unit {0}) push_back_collects

pub string_cut_off :
    (s : Bytes) (n pos : ℕ)
    → StringFits s
    → n < length (encode_string s)
    → string_deserialize (istream (take n (encode_string s)) pos) ≡ err end_of_stream
unfolding string_deserialize encode_string
string_cut_off = container_cut_off (trivial_codec 1) push_back (λ xs. Unit {0}) push_back_collects

abbrev pub string_codec : Codec Bytes
string_codec = record {
  serialize = string_serialize;
  deserialize = string_deserialize;
  encode = encode_string;
  Fits = StringFits;
  writes = string_writes;
  reads = string_reads;
  cut_off = string_cut_off;
}
