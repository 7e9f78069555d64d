-- ===== src/Database/Represents.antt =====
-- The database as a map from keys to values.
use project_db.Common.{◌≡◌, Bool, Option, none, List, Bytes, if◌then◌else◌}
use project_db.Config.{DbConfig}
use project_db.Database.{ProjectDb}
use project_db.Database.Sound.{IsSound, view}
use project_db.Key.{beq}
use project_db.SsTable.{Table}
use project_db.TransactionLog.Loop.{to_key}

-- The abstract state: the value of each key that has one.
abbrev pub Contents : Type 0
Contents = Bytes → Option Bytes

abbrev pub no_contents : Contents
no_contents key = none

unfoldable pub store : Bytes → Option Bytes → Contents → Contents
unfolding beq
store key value contents wanted =
    if beq (to_key key) (to_key wanted) then value else contents wanted

-- The database is sound and shows every key as the map does.
abbrev pub Represents : Bool → Contents → ProjectDb → Type 0
Represents keep contents db =
    (ts : List Table) × IsSound keep db ts × ((key : Bytes) → view db ts key ≡ contents key)

-- Compaction is disabled.
abbrev pub IsUncompacted : DbConfig → Type 0
IsUncompacted config = config.num_sstable_to_compact ≡ 0
