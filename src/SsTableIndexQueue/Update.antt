-- ===== src/SsTableIndexQueue/Update.antt =====
-- When a compaction is launched, and what `update` does with its result.
use project_db.Common.{
  ℕ, ◌+◌, ◌-◌, ◌^◌, ◌≤◌, ◌<◌, ◌≡◌, ◌≢◌, not, ◌&&◌, none, some, List, [], ◌∷◌, ◌++◌, append-nil,
  length, take, drop, ok, leb, ◌==◌, if◌then◌else◌, ◌∙◌, append_assoc, arith, refl, sym, false,
  length-append, take-drop, drop-drop, ltb, min, ap, length-take, length-drop, take_within,
  drop_within,
}
use project_db.FileSystem.{FileSystem}
use project_db.SsTableIndex.{SsTableIndex}
use project_db.SsTableIndexQueue.{
  SsTableIndexQueue, insert, newly_added_ss_tables_cnt, try_launch_compaction,
  mark_all_as_deprecated, rename_all, update,
}

-- With fewer than 2^31 tables, a start within the queue and a NUM_SSTABLE_TO_COMPACT below 2^31, a
-- compaction is launched exactly if that number is not 0 and the queue holds that many tables after
-- the one at the start; it gets the table at the start and that many after it.
pub try_launch_compaction-enough :
    (num : ℕ) (q : SsTableIndexQueue)
    → length q.m_queue < 2 ^ 31
    → q.m_compaction_start_index ≤ length q.m_queue
    → num < 2 ^ 31
    → try_launch_compaction num q ≡ (
        if not (num == 0) && leb (q.m_compaction_start_index + 1 + num) (length q.m_queue)
        then some (take (num + 1) (drop q.m_compaction_start_index q.m_queue))
        else none)
unfolding try_launch_compaction newly_added_ss_tables_cnt
try_launch_compaction-enough num q size start small = ground arith

launched_group :
    (num : ℕ) (q : SsTableIndexQueue) (group : List SsTableIndex)
    → length q.m_queue < 2 ^ 31
    → q.m_compaction_start_index ≤ length q.m_queue
    → num < 2 ^ 31
    → try_launch_compaction num q ≡ some group
    → (0 < num)
      × (q.m_compaction_start_index + 1 + num ≤ length q.m_queue)
      × (take (num + 1) (drop q.m_compaction_start_index q.m_queue) ≡ group)
launched_group num q group size start small h =
    ground (arith, try_launch_compaction-enough num q size start small)

abbrev pub insert_each : SsTableIndexQueue → List SsTableIndex → SsTableIndexQueue
insert_each q [] = q
insert_each q (index ∷ added) = insert_each (insert q index) added

insert_each_lem :
    (q : SsTableIndexQueue) (added : List SsTableIndex)
    → insert_each q added ≡ record q { m_queue = q.m_queue ++ added }
unfolding insert
insert_each_lem q [] = rw (append-nil q.m_queue)
insert_each_lem q (index ∷ added) =
    insert_each_lem (insert q index) added ∙ rw (append_assoc q.m_queue (index ∷ []) added)

not_empty : {A : Type 0} (xs : List A) → xs ≢ [] → (length xs == 0) ≡ false
not_empty [] h = absurd (h refl)
not_empty (x ∷ xs) h = ground arith

update_runs :
    (num : ℕ) (q : SsTableIndexQueue) (merged renamed : List SsTableIndex) (fs fs₁ fs₂ : FileSystem)
    → 0 < num
    → q.m_compaction_start_index + 1 + num ≤ length q.m_queue
    → merged ≢ []
    → mark_all_as_deprecated (take (1 + num) (drop q.m_compaction_start_index q.m_queue)) fs
      ≡ ok fs₁
    → rename_all merged fs₁ ≡ ok (renamed, fs₂)
    → update num merged q fs
      ≡ ok (
        record {
          m_queue =
              take q.m_compaction_start_index q.m_queue
              ++ (renamed ++ drop (q.m_compaction_start_index + 1 + num) q.m_queue);
          m_compaction_start_index = q.m_compaction_start_index + length renamed - 1;
        },
        fs₂,
      )
unfolding update
update_runs num q merged renamed fs fs₁ fs₂ pos room some_merged marked moved =
    let enabled : (num == 0) ≡ false = ground arith in
    let fits : ltb (length q.m_queue) (q.m_compaction_start_index + 1 + num) ≡ false =
      ground arith in
    rw (enabled, fits, not_empty merged some_merged, marked, moved)

-- Tables that are added behind it do not change the range.
same_group :
    (num s : ℕ) (xs group added : List SsTableIndex)
    → s + 1 + num ≤ length xs
    → take (num + 1) (drop s xs) ≡ group
    → take (1 + num) (drop s (xs ++ added)) ≡ group
same_group num s xs group added room e =
    ap (λ n. take n (drop s (xs ++ added))) (omega arith)
    ∙ ap (take (num + 1)) (drop_within s xs added (omega arith))
    ∙ take_within (num + 1) (drop s xs) added (omega (arith, length-drop s xs))
    ∙ e

min_left : (a b : ℕ) → a ≤ b → min a b ≡ a
min_left a b h = omega arith

-- With fewer than 2^31 tables, a start within the queue and a NUM_SSTABLE_TO_COMPACT below 2^31, when a
-- compaction is launched, gives at least
-- one table, and the files can be renamed, then `update` succeeds, whatever tables were added while it
-- ran: it replaces the tables that were compacted by the merged ones, leaves those before and after
-- them in their places, and the next compaction begins with the last merged table.
pub update-launched :
    (num : ℕ) (q : SsTableIndexQueue) (group added merged renamed : List SsTableIndex)
    (fs fs₁ fs₂ : FileSystem)
    → length q.m_queue < 2 ^ 31
    → q.m_compaction_start_index ≤ length q.m_queue
    → num < 2 ^ 31
    → merged ≢ []
    → try_launch_compaction num q ≡ some group
    → mark_all_as_deprecated group fs ≡ ok fs₁
    → rename_all merged fs₁ ≡ ok (renamed, fs₂)
    → (older newer : List SsTableIndex) × (q.m_queue ≡ older ++ (group ++ newer))
      × (update num merged (insert_each q added) fs
          ≡ ok (
            record {
              m_queue = older ++ (renamed ++ (newer ++ added));
              m_compaction_start_index = length older + length renamed - 1;
            },
            fs₂,
          ))
update-launched num q group added merged renamed fs fs₁ fs₂ size start small some_merged launched
      marked moved =
    let (enabled, room, e) = launched_group num q group size start small launched in
    let s = q.m_compaction_start_index in
    let xs = q.m_queue in
    let within : s ≤ length xs = start in
    let long = length-append xs added in
    let cut = drop-drop s (num + 1) (s + 1 + num) xs (omega arith) in
    (
      take s xs,
      drop (s + 1 + num) xs,
      sym (rw (← e, ← cut, take-drop (num + 1) (drop s xs)) (take-drop s xs)),
      ap (λ r. update num merged r fs) (insert_each_lem q added)
          ∙ update_runs num (record q { m_queue = xs ++ added }) merged renamed fs fs₁ fs₂ enabled
              (omega (arith, room, long)) some_merged
              (ap (λ g. mark_all_as_deprecated g fs) (same_group num s xs group added room e)
                ∙ marked)
              moved
          ∙ rw (
            take_within s xs added start,
            drop_within (s + 1 + num) xs added room,
            length-take s xs,
            min_left s (length xs) start,
          ),
    )
