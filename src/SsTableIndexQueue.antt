-- ===== src/SsTableIndexQueue.antt =====
-- The class `SSTableIndexQueue` (db/sstable_index_queue.h, db/sstable_index_queue.cpp): the tables on
-- disk, the oldest first. What an exception leaves behind on disk is not modelled.
pub mod Lookup
pub mod Update
pub mod Names
use project_db.Common.{
  ℕ, ◌+◌, ◌-◌, ◌%◌, ◌^◌, Bool, Option, none, some, List, [], ◌∷◌, ◌++◌, length, take, drop,
  db_exception, Result, ok, err, ◌>>=◌, ltb, ◌==◌, if◌then◌else◌,
}
use project_db.FileSystem.{FileSystem, file_content, mark_file_as_deprecated, remove_ext_and_rename}
use project_db.Key.{Key}
use project_db.SsTableIndex.{SsTableIndex, set_ss_table_file_name, seek}
use project_db.Value.{Value}

pub record SsTableIndexQueue : Type 0 where
  pub m_queue : List SsTableIndex
  pub m_compaction_start_index : ℕ

-- SSTableIndexQueue()
abbrev pub new_queue : SsTableIndexQueue
new_queue = record { m_queue = []; m_compaction_start_index = 0 }

-- What lies between `rbegin` and `rend`.
abbrev pub reverse {ℓ} : {A : Type ℓ} → List A → List A
reverse [] = []
reverse (x ∷ xs) = reverse xs ++ x ∷ []

-- A round of the loop of `get`, with what the rounds after it would give.
unfoldable pub get_round :
    Result (Option Value) × SsTableIndex
    → List SsTableIndex
    → Result (Option Value) × List SsTableIndex
    → Result (Option Value) × List SsTableIndex
get_round (ok none, it) older (rest, older') = (rest, it ∷ older')
get_round (ok (some value), it) older rest = (ok (some value), it ∷ older)
get_round (err e, it) older rest = (err e, it ∷ older)

-- The loop, from the newest table on. Each `seek` may open its file.
unfoldable pub get_loop :
    Bool → FileSystem → Key → List SsTableIndex → Result (Option Value) × List SsTableIndex
unfolding seek file_content get_round
get_loop keep_ss_table_file_open fs table_key [] = (ok none, [])
get_loop keep_ss_table_file_open fs table_key (it ∷ older) =
    let file = file_content fs it.m_ss_table_file_name in
    get_round (seek keep_ss_table_file_open file it table_key) older
      (get_loop keep_ss_table_file_open fs table_key older)

unfoldable pub get :
    Bool → FileSystem → SsTableIndexQueue → Key → Result (Option Value) × SsTableIndexQueue
unfolding get_loop
get keep_ss_table_file_open fs q table_key =
    let (rtn, newest_first) = get_loop keep_ss_table_file_open fs table_key (reverse q.m_queue) in
    (rtn, record q { m_queue = reverse newest_first })

unfoldable pub insert : SsTableIndexQueue → SsTableIndex → SsTableIndexQueue
insert q ss_table_index = record q { m_queue = q.m_queue ++ ss_table_index ∷ [] }

-- `<` on two `int`s, given by their bit patterns
abbrev pub int_less : ℕ → ℕ → Bool
int_less a b = ltb ((a + 2 ^ 31) % 2 ^ 32) ((b + 2 ^ 31) % 2 ^ 32)

-- `int newlyAddedSSTablesCnt`: the `size_t` difference wraps around, its lower half is the `int`.
unfoldable pub newly_added_ss_tables_cnt : SsTableIndexQueue → ℕ
newly_added_ss_tables_cnt q =
    ((length q.m_queue + 2 ^ 64 - q.m_compaction_start_index + 2 ^ 64 - 1) % 2 ^ 64) % 2 ^ 32

-- The range that is handed to `mergeSSTables`, if a compaction is launched.
unfoldable pub try_launch_compaction : ℕ → SsTableIndexQueue → Option (List SsTableIndex)
unfolding newly_added_ss_tables_cnt
try_launch_compaction num_ss_table_to_compact q =
    if num_ss_table_to_compact == 0
    then none
    else if int_less (newly_added_ss_tables_cnt q) num_ss_table_to_compact
    then none
    else some (take (num_ss_table_to_compact + 1) (drop q.m_compaction_start_index q.m_queue))

-- the first `for_each` of `update`
unfoldable pub mark_all_as_deprecated : List SsTableIndex → FileSystem → Result FileSystem
unfolding mark_file_as_deprecated
mark_all_as_deprecated [] fs = ok fs
mark_all_as_deprecated (ss_table_index ∷ rest) fs = do
  fs' ← mark_file_as_deprecated ss_table_index.m_ss_table_file_name fs
  mark_all_as_deprecated rest fs'

-- the second: each merged file gets the name of a finished table
unfoldable pub rename_all : List SsTableIndex → FileSystem → Result (List SsTableIndex × FileSystem)
unfolding remove_ext_and_rename
rename_all [] fs = ok ([], fs)
rename_all (ss_table_index ∷ rest) fs = do
  (name, fs') ← remove_ext_and_rename ss_table_index.m_ss_table_file_name fs
  (rest', fs'') ← rename_all rest fs'
  ok (set_ss_table_file_name ss_table_index name ∷ rest', fs'')

-- `distance` is signed, and both sides of its comparison are brought to one side here.
unfoldable pub update :
    ℕ → List SsTableIndex → SsTableIndexQueue → FileSystem → Result (SsTableIndexQueue × FileSystem)
unfolding mark_all_as_deprecated rename_all
update num_ss_table_to_compact ss_table_index_after_compaction q fs =
    let start = q.m_compaction_start_index in
    let erase_end = start + 1 + num_ss_table_to_compact in
    if num_ss_table_to_compact == 0
    then err db_exception
    else if ltb (length q.m_queue) erase_end
    then err db_exception
    else if length ss_table_index_after_compaction == 0
    then err db_exception
    else (do
      fs' ← mark_all_as_deprecated (take (1 + num_ss_table_to_compact) (drop start q.m_queue)) fs
      (renamed, fs'') ← rename_all ss_table_index_after_compaction fs'
      ok (
        record {
          m_queue = take start q.m_queue ++ (renamed ++ drop erase_end q.m_queue);
          m_compaction_start_index = start + length renamed - 1;
        },
        fs'',
      ))
